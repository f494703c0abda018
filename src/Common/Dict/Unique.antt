-- ===== src/Common/Dict/Unique.antt =====
-- Every key of a dictionary stands once, and stays so.
use Prim.Native.String.{String}
use Prim.Native.Nat.{suc}
use mathlib.Core.Path.{◌≡◌, refl, ap}
use mathlib.Core.Logic.{inl, inr}
use mathlib.Core.Bool.{false}
use mathlib.Core.Option.{none, some}
use mathlib.Core.List.{[], ◌∷◌, ◌++◌}
use native.Mathlib.Omega.{arith}
use text.Mathlib.Text.{◌==◌}
use text.Mathlib.TextEquality.{eq_iff}
use meetkai.Common.Tests.{Bool-cases, Option-cases}
use meetkai.Common.Lists.{length, length-append}
use meetkai.Common.Dict.{
  Dict, HasUniqueKeys, lookup, put, remove, move_to_end, lookup-put, lookup-remove, lookup-append,
}

module _ {ℓ} {V : Type ℓ} where
  lookup-put_none :
      (k j : String) (v : V) (d : Dict V)
      → (j == k) ≡ false
      → lookup j d ≡ none
      → lookup j (put k v d) ≡ none
  lookup-put_none k j v d other h = ground (arith, lookup-put k j v d, eq_iff j k, eq_iff k j)

  lookup-remove_none :
      (k j : String) (d : Dict V) → lookup j d ≡ none → lookup j (remove k d) ≡ none
  lookup-remove_none k j d h = ground (arith, lookup-remove k j d)

  pub put-HasUniqueKeys :
      (k : String) (v : V) (d : Dict V) → HasUniqueKeys d → HasUniqueKeys (put k v d)
  unfolding put lookup
  put-HasUniqueKeys k v [] u = (refl, tt)
  put-HasUniqueKeys k v ((j, w) ∷ d) u = elim (Bool-cases (j == k)) [
    | inl same ↦ rw same u
    | inr other ↦ rw other (lookup-put_none k j v d other u.0, put-HasUniqueKeys k v d u.1)
  ]

  pub remove-HasUniqueKeys :
      (k : String) (d : Dict V) → HasUniqueKeys d → HasUniqueKeys (remove k d)
  unfolding remove
  remove-HasUniqueKeys k [] u = tt
  remove-HasUniqueKeys k ((j, w) ∷ d) u = elim (Bool-cases (j == k)) [
    | inl same ↦ rw same (remove-HasUniqueKeys k d u.1)
    | inr other ↦ rw other (lookup-remove_none k j d u.0, remove-HasUniqueKeys k d u.1)
  ]

  append-HasUniqueKeys :
      (k : String) (v : V) (d : Dict V)
      → lookup k d ≡ none
      → HasUniqueKeys d
      → HasUniqueKeys (d ++ (k, v) ∷ [])
  unfolding lookup
  append-HasUniqueKeys k v [] fresh u = (refl, tt)
  append-HasUniqueKeys k v ((j, w) ∷ d) fresh u = elim (Bool-cases (j == k)) [
    | inl same ↦ absurd (cc (rw same at fresh))
    | inr other ↦ (
      ground (arith, lookup-append j d ((k, v) ∷ []), eq_iff j k, eq_iff k j, other, u.0),
      append-HasUniqueKeys k v d (rw other at fresh) u.1,
    )
  ]

  pub move_to_end-HasUniqueKeys :
      (k : String) (d : Dict V) → HasUniqueKeys d → HasUniqueKeys (move_to_end k d)
  unfolding move_to_end
  move_to_end-HasUniqueKeys k d u = elim (Option-cases (lookup k d)) [
    | inl missing ↦ rw (missing, move_to_end) u
    | inr (v, found) ↦
        rw (found, move_to_end)
          (append-HasUniqueKeys k v (remove k d) (ground (arith, lookup-remove k k d, eq_iff k k))
            (remove-HasUniqueKeys k d u))
  ]

  -- Without its own key, a dictionary with unique keys has one item less.
  pub length-remove_fresh : (k : String) (d : Dict V) → lookup k d ≡ none → remove k d ≡ d
  unfolding lookup remove
  length-remove_fresh k [] h = refl
  length-remove_fresh k ((j, w) ∷ d) h = elim (Bool-cases (j == k)) [
    | inl same ↦ absurd (cc (rw same at h))
    | inr other ↦ rw other (ap (◌∷◌ (j, w)) (length-remove_fresh k d (rw other at h)))
  ]

  length-remove_one :
      (k : String) (v : V) (d : Dict V)
      → HasUniqueKeys d
      → lookup k d ≡ some v
      → suc (length (remove k d)) ≡ length d
  unfolding lookup remove
  length-remove_one k v [] u h = absurd (cc h)
  length-remove_one k v ((j, w) ∷ d) u h = elim (Bool-cases (j == k)) [
    | inl same ↦
        let fresh : lookup k d ≡ none = ground (arith, u.0, same, eq_iff j k) in
        rw (same, length-remove_fresh k d fresh)
    | inr other ↦ rw other (ap suc (length-remove_one k v d u.1 (rw other at h)))
  ]

  -- Moving an item keeps their number.
  pub length-move_to_end :
      (k : String) (d : Dict V) → HasUniqueKeys d → length (move_to_end k d) ≡ length d
  unfolding move_to_end
  length-move_to_end k d u = elim (Option-cases (lookup k d)) [
    | inl missing ↦ rw (missing, move_to_end)
    | inr (v, found) ↦
        rw (found, move_to_end)
          (omega (arith, length-append (remove k d) ((k, v) ∷ []), length-remove_one k v d u found))
  ]
