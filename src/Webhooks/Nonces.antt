-- ===== src/Webhooks/Nonces.antt =====
-- `NonceStore` of `src/kai/cockpit/connections/webhooks.py`: the nonces of the webhooks that were
-- forwarded lately, with the time of each. Times are in microseconds.
pub mod Bounds
pub mod Held
use meetkai.Common.{
  ℕ, ◌+◌, ◌*◌, ◌-◌, Bool, true, false, not, ◌&&◌, Option, none, some, [], ◌∷◌, String, leb, ltb,
  if◌then◌else◌,
}
use meetkai.Common.Lists.{length}
use meetkai.Common.Dict.{Dict, put, contains}

abbrev pub freshness_window : ℕ
freshness_window = 300 * 1000000

abbrev pub seen_nonces_max : ℕ
seen_nonces_max = 10000

abbrev pub NonceStore : Type 0
NonceStore = Dict ℕ

-- `popitem(last=False)`
abbrev pub pop_oldest : NonceStore → NonceStore
pop_oldest [] = []
pop_oldest (item ∷ items) = items

-- `value < now - FRESHNESS_WINDOW_SECONDS`
abbrev pub is_stale : ℕ → ℕ → Bool
is_stale now time = ltb (time + freshness_window) now

unfoldable pub prune : ℕ → NonceStore → NonceStore
prune now [] = []
prune now ((nonce, time) ∷ items) =
    let rest = prune now items in if is_stale now time then rest else (nonce, time) ∷ items

unfoldable pub seen : String → NonceStore → Bool
seen = contains

unfoldable pub record_at : String → ℕ → NonceStore → NonceStore
record_at nonce now items =
    let items' = put nonce now items in
    if ltb seen_nonces_max (length items') then pop_oldest items' else items'

-- `abs(t - timestamp) > FRESHNESS_WINDOW_SECONDS`
abbrev pub is_far : ℕ → ℕ → Bool
is_far a b = ltb freshness_window ((a - b) + (b - a))

abbrev pub too_far : ℕ → Option ℕ → Bool
too_far now none = false
too_far now (some timestamp) = is_far now timestamp

abbrev pub check_nonce : ℕ → Option String → NonceStore → Bool × NonceStore
check_nonce now none items = (true, items)
check_nonce now (some nonce) items =
    if seen nonce items then (false, items) else (true, record_at nonce now items)

abbrev pub is_absent {ℓ} : {A : Type ℓ} → Option A → Bool
is_absent none = true
is_absent (some a) = false

unfoldable pub check_freshness : Option ℕ → Option String → ℕ → NonceStore → Bool × NonceStore
unfolding prune seen record_at
check_freshness timestamp nonce now items =
    if is_absent timestamp && is_absent nonce
    then (false, items)
    else if too_far now timestamp
    then (false, prune now items)
    else check_nonce now nonce (prune now items)

unfoldable pub is_nonce_seen : String → ℕ → NonceStore → Bool × NonceStore
unfolding prune seen
is_nonce_seen nonce now items = let pruned = prune now items in (seen nonce pruned, pruned)

unfoldable pub record_nonce : String → ℕ → NonceStore → NonceStore
unfolding prune record_at
record_nonce nonce now items = record_at nonce now (prune now items)
