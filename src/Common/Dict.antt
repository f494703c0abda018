-- ===== src/Common/Dict.antt =====
-- Python's `dict` and `OrderedDict` with text keys, as the list of its items in insertion order.
pub mod Unique
use Prim.Native.String.{String}
use Prim.Native.Nat.{◌+◌, ◌≤◌, ◌<◌}
use mathlib.Core.Path.{◌≡◌, refl}
use mathlib.Core.Logic.{inl, inr}
use mathlib.Core.Bool.{Bool}
use mathlib.Core.Option.{Option, none, some}
use mathlib.Core.List.{List, [], ◌∷◌, ◌++◌}
use native.Mathlib.Omega.{arith}
use text.Mathlib.Text.{◌==◌}
use text.Mathlib.TextEquality.{eq_iff}
use text.Mathlib.TextPositions.{eq_refl}
use meetkai.Common.Tests.{if◌then◌else◌, is_some, Option-cases}
use meetkai.Common.Lists.{length}

abbrev pub Dict {ℓ} : Type ℓ → Type ℓ
Dict V = List (String × V)

module _ {ℓ} {V : Type ℓ} where
  -- `d.get(k)`
  unfoldable pub lookup : String → Dict V → Option V
  lookup k [] = none
  lookup k ((j, v) ∷ d) = if j == k then some v else lookup k d

  -- `k in d`
  unfoldable pub contains : String → Dict V → Bool
  unfolding lookup
  contains k d = is_some (lookup k d)

  -- `d[k] = v`: in place for a known key, at the end for a new one
  unfoldable pub put : String → V → Dict V → Dict V
  put k v [] = (k, v) ∷ []
  put k v ((j, w) ∷ d) = if j == k then (j, v) ∷ d else (j, w) ∷ put k v d

  -- `d.pop(k, None)`
  unfoldable pub remove : String → Dict V → Dict V
  remove k [] = []
  remove k ((j, w) ∷ d) = let rest = remove k d in if j == k then rest else (j, w) ∷ rest

  -- `list(d.values())`
  unfoldable pub values : Dict V → List V
  values [] = []
  values ((j, v) ∷ d) = v ∷ values d

  -- `list(d)`
  unfoldable pub keys : Dict V → List String
  keys [] = []
  keys ((j, v) ∷ d) = j ∷ keys d

  pub lookup-put :
      (k j : String) (v : V) (d : Dict V)
      → lookup j (put k v d) ≡ (if k == j then some v else lookup j d)
  unfolding lookup put
  lookup-put k j v [] = refl
  lookup-put k j v ((i, w) ∷ d) =
      ground (arith, eq_iff k j, eq_iff i k, eq_iff i j, lookup-put k j v d)

  pub lookup-remove :
      (k j : String) (d : Dict V) → lookup j (remove k d) ≡ (if k == j then none else lookup j d)
  unfolding lookup remove
  lookup-remove k j [] = ground arith
  lookup-remove k j ((i, w) ∷ d) =
      ground (arith, eq_iff k j, eq_iff i k, eq_iff i j, lookup-remove k j d)

  pub lookup-put_self : (k : String) (v : V) (d : Dict V) → lookup k (put k v d) ≡ some v
  lookup-put_self k v d = simp (lookup-put, eq_refl)

  pub lookup-remove_self : (k : String) (d : Dict V) → lookup k (remove k d) ≡ none
  lookup-remove_self k d = simp (lookup-remove, eq_refl)

  pub length-put : (k : String) (v : V) (d : Dict V) → length (put k v d) ≤ length d + 1
  unfolding put
  length-put k v [] = omega arith
  length-put k v ((j, w) ∷ d) = ground (arith, length-put k v d)

  -- A key that is there keeps its place: the number of items stays.
  pub length-put_known :
      (k : String) (v w : V) (d : Dict V) → lookup k d ≡ some w → length (put k v d) ≡ length d
  unfolding put lookup
  length-put_known k v w [] h = cc
  length-put_known k v w ((j, x) ∷ d) h = ground (arith, length-put_known k v w d)

  pub length-remove : (k : String) (d : Dict V) → length (remove k d) ≤ length d
  unfolding remove
  length-remove k [] = omega arith
  length-remove k ((j, x) ∷ d) = ground (arith, length-remove k d)

  pub length-remove_known :
      (k : String) (w : V) (d : Dict V) → lookup k d ≡ some w → length (remove k d) < length d
  unfolding remove lookup
  length-remove_known k w [] h = cc
  length-remove_known k w ((j, x) ∷ d) h =
      ground (arith, length-remove k d, length-remove_known k w d)

module _ {ℓ} {V : Type ℓ} where
  -- `d.move_to_end(k)` for a key that is there
  unfoldable pub move_to_end : String → Dict V → Dict V
  unfolding lookup remove
  move_to_end k d = elim (lookup k d) [ none ↦ d | some v ↦ remove k d ++ (k, v) ∷ [] ]

  -- Every key stands once.
  abbrev pub HasUniqueKeys : Dict V → Type ℓ
  HasUniqueKeys [] = Unit
  HasUniqueKeys ((k, v) ∷ d) = (lookup k d ≡ none) × HasUniqueKeys d

  pub lookup-append :
      (k : String) (d e : Dict V)
      → lookup k (d ++ e) ≡ elim (lookup k d) [ none ↦ lookup k e | some v ↦ some v ]
  unfolding lookup
  lookup-append k [] e = refl
  lookup-append k ((j, v) ∷ d) e = ground (arith, lookup-append k d e)

  pub lookup-move_to_end : (k j : String) (d : Dict V) → lookup j (move_to_end k d) ≡ lookup j d
  unfolding move_to_end
  lookup-move_to_end k j d = elim (Option-cases (lookup k d)) [
    | inl missing ↦ rw (missing, move_to_end)
    | inr (v, found) ↦
        rw (found, move_to_end, lookup-append)
          (unfold lookup in ground (arith, found, lookup-remove k j d, eq_iff k j))
  ]

pub ruleset dict_laws = (lookup-put, lookup-remove, lookup-put_self, lookup-remove_self)
