-- ===== src/Common/Persisted.antt =====
-- Stores that keep their entries in a file: a dict from ids to entries, written as the list of what
-- `to_dict` makes of each entry and read back with `from_dict`. `Codec` is what such a store needs.
use Prim.Native.String.{String}
use mathlib.Core.Path.{◌≡◌, refl, ap, ◌∙◌}
use mathlib.Core.Logic.{inl, inr}
use mathlib.Core.Option.{Option, none, some}
use mathlib.Core.List.{List, [], ◌∷◌, map}
use text.Mathlib.Text.{◌==◌}
use text.Mathlib.TextEquality.{eq_iff}
use meetkai.Common.Tests.{Bool-cases, if◌then◌else◌}
use meetkai.Common.Dict.{Dict, lookup, put, values, lookup-put}

module _ {ℓ κ} {A : Type ℓ} {D : Type κ} where
  -- The loop of `load` over the items of a file that this store wrote.
  unfoldable pub load_items : (A → String) → (D → A) → List D → Dict A → Dict A
  load_items id from_dict [] entries = entries
  load_items id from_dict (item ∷ items) entries =
      let entry = from_dict item in load_items id from_dict items (put (id entry) entry entries)

-- Every key is the id of its entry, and stands once.
abbrev pub IsKeyedBy {ℓ} : {A : Type ℓ} → (A → String) → Dict A → Type ℓ
IsKeyedBy id [] = Unit
IsKeyedBy id ((k, a) ∷ entries) = (id a ≡ k) × (lookup k entries ≡ none) × IsKeyedBy id entries

-- `reloaded` is what reading back an entry gives; the id is not lost.
pub record Codec {ℓ κ} (A : Type ℓ) (D : Type κ) : Type (ℓ ⊔ κ) where
  pub id : A → String
  pub to_dict : A → D
  pub from_dict : D → A
  pub reloaded : A → A
  pub from_dict-to_dict : (a : A) → from_dict (to_dict a) ≡ reloaded a
  pub id-reloaded : (a : A) → id (reloaded a) ≡ id a

module _ {ℓ κ} {A : Type ℓ} {D : Type κ} (c : Codec A D) where
  abbrev pub after_restart : Option A → Option A → Option A
  after_restart none old = old
  after_restart (some a) old = some (c.reloaded a)

  read_next :
      (k j : String) (a : A) (entries read : Dict A)
      → c.id a ≡ j
      → lookup j entries ≡ none
      → after_restart (lookup k entries) (lookup k (put (c.id (c.reloaded a)) (c.reloaded a) read))
        ≡ after_restart (if j == k then some a else lookup k entries) (lookup k read)
  read_next k j a entries read own fresh = elim (Bool-cases (j == k)) [
    | inl same ↦
        let missing : lookup k entries ≡ none = rw (← (eq_iff j k).0 same) fresh in
        rw (same, missing, lookup-put, c.id-reloaded, own, same)
    | inr other ↦ rw (other, lookup-put, c.id-reloaded, own, other)
  ]

  -- Reading what was written gives every entry as it is reloaded, and no other.
  pub lookup-load_items :
      (k : String) (entries read : Dict A)
      → IsKeyedBy c.id entries
      → lookup k (load_items c.id c.from_dict (map c.to_dict (values entries)) read)
        ≡ after_restart (lookup k entries) (lookup k read)
  unfolding load_items values lookup
  lookup-load_items k [] read keyed = refl
  lookup-load_items k ((j, a) ∷ entries) read keyed =
      ap
        (λ (x : A).
          lookup k
            (load_items c.id c.from_dict (map c.to_dict (values entries)) (put (c.id x) x read)))
        (c.from_dict-to_dict a)
      ∙ lookup-load_items k entries (put (c.id (c.reloaded a)) (c.reloaded a) read) keyed.2
      ∙ read_next k j a entries read keyed.0 keyed.1
