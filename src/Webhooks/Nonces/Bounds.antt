-- ===== src/Webhooks/Nonces/Bounds.antt =====
-- The size of the nonce store.
use meetkai.Common.{
  ℕ, ◌-◌, ◌≤◌, inl, inr, String, Option, none, some, List, [], ◌∷◌, arith, Bool-cases, ◌&&◌,
}
use meetkai.Common.Lists.{length}
use meetkai.Common.Dict.{put, length-put}
use meetkai.Webhooks.Nonces.{
  NonceStore, seen_nonces_max, prune, pop_oldest, record_at, record_nonce, is_nonce_seen,
  check_freshness, seen, is_absent, too_far, check_nonce,
}

-- Within the cap of 10,000 nonces.
abbrev pub IsBounded : NonceStore → Type 0
IsBounded items = length items ≤ seen_nonces_max

length-prune : (now : ℕ) (items : NonceStore) → length (prune now items) ≤ length items
unfolding prune
length-prune now [] = omega arith
length-prune now ((nonce, time) ∷ items) = ground (arith, length-prune now items)

length-pop : (items : NonceStore) → length (pop_oldest items) ≤ length items - 1
length-pop [] = omega arith
length-pop (i ∷ items) = omega arith

record_at-IsBounded :
    (nonce : String) (now : ℕ) (items : NonceStore)
    → IsBounded items
    → IsBounded (record_at nonce now items)
unfolding record_at
record_at-IsBounded nonce now items h =
    ground (arith, length-put nonce now items, length-pop (put nonce now items))

prune-IsBounded : (now : ℕ) (items : NonceStore) → IsBounded items → IsBounded (prune now items)
prune-IsBounded now items h = omega (arith, length-prune now items)

check_nonce-IsBounded :
    (now : ℕ) (nonce : Option String) (items : NonceStore)
    → IsBounded items
    → IsBounded (check_nonce now nonce items).1
check_nonce-IsBounded now none items h = h
check_nonce-IsBounded now (some nonce) items h = elim (Bool-cases (seen nonce items)) [
  | inl there ↦ rw there h
  | inr new ↦ rw new (record_at-IsBounded nonce now items h)
]

check_freshness-IsBounded :
    (timestamp : Option ℕ) (nonce : Option String) (now : ℕ) (items : NonceStore)
    → IsBounded items
    → IsBounded (check_freshness timestamp nonce now items).1
unfolding check_freshness
check_freshness-IsBounded timestamp nonce now items h =
    elim (Bool-cases (is_absent timestamp && is_absent nonce)) [
      | inl unprotected ↦ rw (unprotected, check_freshness) h
      | inr given ↦ elim (Bool-cases (too_far now timestamp)) [
        | inl far ↦ rw (given, far, check_freshness) (prune-IsBounded now items h)
        | inr near ↦
            rw (given, near, check_freshness)
              (check_nonce-IsBounded now nonce (prune now items) (prune-IsBounded now items h))
      ]
    ]

-- One use of the store.
pub data Use : Type 0 where
  freshness : Option ℕ → Option String → ℕ → Use
  lookup_nonce record_of : String → ℕ → Use

unfoldable pub use_store : Use → NonceStore → NonceStore
use_store (freshness timestamp nonce now) items = (check_freshness timestamp nonce now items).1
use_store (lookup_nonce nonce now) items = (is_nonce_seen nonce now items).1
use_store (record_of nonce now) items = record_nonce nonce now items

unfoldable pub use_all : List Use → NonceStore → NonceStore
unfolding use_store
use_all [] items = items
use_all (u ∷ us) items = use_all us (use_store u items)

use_store-IsBounded :
    (u : Use) (items : NonceStore) → IsBounded items → IsBounded (use_store u items)
unfolding use_store check_freshness is_nonce_seen record_nonce
use_store-IsBounded (freshness timestamp nonce now) items h =
    check_freshness-IsBounded timestamp nonce now items h
use_store-IsBounded (lookup_nonce nonce now) items h = prune-IsBounded now items h
use_store-IsBounded (record_of nonce now) items h =
    record_at-IsBounded nonce now (prune now items) (prune-IsBounded now items h)

-- However often a store of at most 10,000 nonces is used, it holds at most 10,000.
pub use_all-IsBounded :
    (us : List Use) (items : NonceStore) → IsBounded items → IsBounded (use_all us items)
unfolding use_all
use_all-IsBounded [] items h = h
use_all-IsBounded (u ∷ us) items h =
    use_all-IsBounded us (use_store u items) (use_store-IsBounded u items h)
