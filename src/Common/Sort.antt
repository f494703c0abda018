-- ===== src/Common/Sort.antt =====
-- Python's `xs.sort(key=...)`, which is stable, for a key that is a number.
use mathlib.Core.List.{Perm, Permᴰ}
use mathlib.Core.List.Perm
use Prim.Native.Nat.{ℕ, suc, ◌≤◌}
use mathlib.Core.Path.{◌≡◌, refl, ap, ◌∙◌}
use mathlib.Core.Logic.{inl, inr, ∥∥₁_elim}
use mathlib.Core.Bool.{Bool}
use mathlib.Core.List.{List, [], ◌∷◌}
use native.Mathlib.Omega.{arith}
use meetkai.Common.Tests.{leb, leb→le, Bool-cases, if◌then◌else◌}
use meetkai.Common.Lists.{All, length, select}

module _ {ℓ} {A : Type ℓ} (key : A → ℕ) where
  unfoldable pub insert_by : A → List A → List A
  insert_by x [] = x ∷ []
  insert_by x (y ∷ ys) = if leb (key x) (key y) then x ∷ y ∷ ys else y ∷ insert_by x ys

  unfoldable pub sort_by : List A → List A
  unfolding insert_by
  sort_by [] = []
  sort_by (x ∷ xs) = insert_by x (sort_by xs)

  -- No member comes after one with a larger key.
  abbrev pub IsSortedBy : List A → Type 0
  IsSortedBy [] = Unit
  IsSortedBy (x ∷ xs) = All (λ y. key x ≤ key y) xs × IsSortedBy xs

  All-weaken : (a b : ℕ) (xs : List A) → a ≤ b → All (λ y. b ≤ key y) xs → All (λ y. a ≤ key y) xs
  All-weaken a b [] h below = tt
  All-weaken a b (x ∷ xs) h below = (omega (arith, below.0), All-weaken a b xs h below.1)

  All-insert :
      (a : ℕ) (x : A) (ys : List A)
      → a ≤ key x
      → All (λ y. a ≤ key y) ys
      → All (λ y. a ≤ key y) (insert_by x ys)
  unfolding insert_by
  All-insert a x [] h below = (h, tt)
  All-insert a x (y ∷ ys) h below = elim (Bool-cases (leb (key x) (key y))) [
    | inl first ↦ rw first (h, below)
    | inr later ↦ rw later (below.0, All-insert a x ys h below.1)
  ]

  insert_by-IsSortedBy : (x : A) (ys : List A) → IsSortedBy ys → IsSortedBy (insert_by x ys)
  unfolding insert_by
  insert_by-IsSortedBy x [] sorted = (tt, tt)
  insert_by-IsSortedBy x (y ∷ ys) sorted = elim (Bool-cases (leb (key x) (key y))) [
    | inl first ↦
        let le = leb→le (key x) (key y) first in
        rw first ((le, All-weaken (key x) (key y) ys le sorted.0), sorted)
    | inr later ↦
        rw later
          (All-insert (key y) x ys (ground arith) sorted.0, insert_by-IsSortedBy x ys sorted.1)
  ]

  pub sort_by-IsSortedBy : (xs : List A) → IsSortedBy (sort_by xs)
  unfolding sort_by
  sort_by-IsSortedBy [] = tt
  sort_by-IsSortedBy (x ∷ xs) = insert_by-IsSortedBy x (sort_by xs) (sort_by-IsSortedBy xs)

  module _ (p : A → Bool) where
    All-select :
        (a : ℕ) (xs : List A) → All (λ y. a ≤ key y) xs → All (λ y. a ≤ key y) (select p xs)
    All-select a [] below = tt
    All-select a (x ∷ xs) below = elim (Bool-cases (p x)) [
      | inl here ↦ rw here (below.0, All-select a xs below.1)
      | inr gone ↦ rw gone (All-select a xs below.1)
    ]

    pub select-IsSortedBy : (xs : List A) → IsSortedBy xs → IsSortedBy (select p xs)
    select-IsSortedBy [] sorted = tt
    select-IsSortedBy (x ∷ xs) sorted = elim (Bool-cases (p x)) [
      | inl here ↦ rw here (All-select (key x) xs sorted.0, select-IsSortedBy xs sorted.1)
      | inr gone ↦ rw gone (select-IsSortedBy xs sorted.1)
    ]

    select-cons :
        (x : A) (us xs : List A)
        → Perm (select p us) (select p xs)
        → Perm (select p (x ∷ us)) (select p (x ∷ xs))
    select-cons x us xs h = elim (Bool-cases (p x)) [
      | inl here ↦ rw here (Perm.cons x h)
      | inr gone ↦ rw gone h
    ]

    select-swap : (x y : A) (us : List A) → Perm (select p (y ∷ x ∷ us)) (select p (x ∷ y ∷ us))
    select-swap x y us = elim (Bool-cases (p x)) [
      | inl here ↦ elim (Bool-cases (p y)) [
        | inl there ↦ rw (here, there) (Perm.swap x y (select p us))
        | inr gone ↦ rw (here, gone) (Perm.refl _)
      ]
      | inr out ↦ rw out (Perm.refl _)
    ]

    select-insert : (x : A) (us : List A) → Perm (select p (insert_by x us)) (select p (x ∷ us))
    unfolding insert_by
    select-insert x [] = Perm.refl _
    select-insert x (y ∷ us) = elim (Bool-cases (leb (key x) (key y))) [
      | inl first ↦ rw first (Perm.refl _)
      | inr later ↦ rw later (
          Perm.trans (select-cons y (insert_by x us) (x ∷ us) (select-insert x us))
            (select-swap x y us))
    ]

    -- A selection of the sorted list holds what the selection of the list holds.
    pub select-sort_by : (xs : List A) → Perm (select p (sort_by xs)) (select p xs)
    unfolding sort_by
    select-sort_by [] = Perm.refl _
    select-sort_by (x ∷ xs) =
        Perm.trans (select-insert x (sort_by xs))
          (select-cons x (sort_by xs) xs (select-sort_by xs))

length-paired {ℓ} : {A : Type ℓ} {xs ys : List A} → Permᴰ xs ys → length xs ≡ length ys
length-paired Permᴰ.nil = refl
length-paired (Permᴰ.cons _ h) = ap suc (length-paired h)
length-paired (Permᴰ.swap _ _) = refl
length-paired (Permᴰ.trans h k) = length-paired h ∙ length-paired k

pub length-Perm {ℓ} : {A : Type ℓ} {xs ys : List A} → Perm xs ys → length xs ≡ length ys
length-Perm h = ∥∥₁_elim h (hlevel) length-paired
