-- ===== src/Templates/Merge.antt =====
-- `deep_merge` of `src/kai/templates/resolver.py`.
use meetkai.Common.{
  ◌≡◌, refl, ap, ◌∙◌, inl, inr, String, Option, none, some, arith, Bool-cases, str_eq, eq_iff,
  if◌then◌else◌,
}

-- A value of a config: a dict, or another value.
mutual
  pub data Value : Type 0 where
    leaf : String → Value
    dict : Fields → Value

  pub data Fields : Type 0 where
    nil : Fields
    field : String → Value → Fields → Fields

unfoldable pub get : String → Fields → Option Value
get k nil = none
get k (field j v d) = if str_eq j k then some v else get k d

unfoldable pub set : String → Value → Fields → Fields
set k v nil = field k v nil
set k v (field j w d) = if str_eq j k then field j v d else field j w (set k v d)

unfoldable pub deep_merge : Fields → Fields → Fields
unfolding get set
deep_merge a nil = a
deep_merge a (field k (leaf s) b) = deep_merge (set k (leaf s) a) b
deep_merge a (field k (dict d) b) =
    let merged : Value = elim (get k a) [
      | some (dict c) ↦ dict (deep_merge c d)
      | some (leaf s) ↦ dict d
      | none ↦ dict d
    ] in
    deep_merge (set k merged a) b

-- A dict has each key once.
abbrev pub HasUniqueKeys : Fields → Type 0
HasUniqueKeys nil = Unit
HasUniqueKeys (field k v d) = (get k d ≡ none) × HasUniqueKeys d

-- The value under a key, for those in the lower and in the upper layer: two dicts are merged, and
-- otherwise the upper value counts, if there is one.
abbrev pub over : Option Value → Fields → Value
over none d = dict d
over (some (leaf s)) d = dict d
over (some (dict c)) d = dict (deep_merge c d)

abbrev pub layered : Option Value → Option Value → Option Value
layered lower none = lower
layered lower (some (leaf s)) = some (leaf s)
layered lower (some (dict d)) = some (over lower d)

get-set :
    (k j : String) (v : Value) (d : Fields)
    → get j (set k v d) ≡ (if str_eq k j then some v else get j d)
unfolding get set
get-set k j v nil = refl
get-set k j v (field i w d) = ground (arith, eq_iff k j, eq_iff i k, eq_iff i j, get-set k j v d)

-- The step over one field of the upper layer, of which the rest is merged as stated.
layered_next :
    (k j : String) (v : Value) (a b : Fields)
    → get k (deep_merge (set j v a) b) ≡ layered (get k (set j v a)) (get k b)
    → get j b ≡ none
    → get k (deep_merge (set j v a) b)
      ≡ (if str_eq j k then some v else layered (get k a) (get k b))
layered_next k j v a b rest fresh = elim (Bool-cases (str_eq j k)) [
  | inl same ↦
      let missing : get k b ≡ none = rw (← (eq_iff j k).0 same) fresh in
      rw (rest, missing, get-set, same) refl
  | inr other ↦ rw (rest, get-set, other) refl
]

over_lem :
    (o : Option Value) (d : Fields)
    → elim o [ some (dict c) ↦ dict (deep_merge c d) | some (leaf s) ↦ dict d | none ↦ dict d ]
      ≡ over o d
over_lem none d = refl
over_lem (some (leaf s)) d = refl
over_lem (some (dict c)) d = refl

-- Merging layers a config key by key: each key of either layer has the merged value if both values
-- are dicts, else the upper value if there is one, else the lower.
pub get-deep_merge :
    (k : String) (a b : Fields)
    → HasUniqueKeys b
    → get k (deep_merge a b) ≡ layered (get k a) (get k b)
unfolding get deep_merge
get-deep_merge k a nil unique = refl
get-deep_merge k a (field j (leaf s) b) unique =
    let rest = get-deep_merge k (set j (leaf s) a) b unique.1 in
    layered_next k j (leaf s) a b rest unique.0
    ∙ elim (Bool-cases (str_eq j k)) [ inl same ↦ rw same refl | inr other ↦ rw other refl ]
get-deep_merge k a (field j (dict d) b) unique =
    let merged = over (get j a) d in
    let rest = get-deep_merge k (set j merged a) b unique.1 in
    let step = layered_next k j merged a b rest unique.0 in
    ap (λ v. get k (deep_merge (set j v a) b)) (over_lem (get j a) d)
    ∙ step
    ∙ elim (Bool-cases (str_eq j k)) [
      | inl same ↦ rw (same, (eq_iff j k).0 same) refl
      | inr other ↦ rw other refl
    ]
