-- ===== src/Webhooks/Nonces/Held.antt =====
-- How long the store remembers a nonce.
use meetkai.Common.{
  ℕ, suc, ◌+◌, ◌&&◌, ◌≤◌, ◌<◌, ◌≡◌, refl, inl, inr, String, true, false, Option, none, some, List,
  [], ◌∷◌, All, arith, Bool-cases, ltb, ltb→lt, str_eq, eq_refl, if◌then◌else◌,
}
use meetkai.Common.Lists.{length}
use meetkai.Common.Dict.{put, length-put, contains, lookup}
use meetkai.Webhooks.Nonces.{
  NonceStore, seen_nonces_max, freshness_window, is_stale, prune, pop_oldest, record_at,
  record_nonce, is_nonce_seen, seen, check_freshness, check_nonce, is_absent, too_far,
}
use meetkai.Webhooks.Nonces.Bounds.{Use, freshness, lookup_nonce, record_of, use_store, use_all}

-- The nonce is there with a time from `since` on, and at most `newer` items come after it.
abbrev pub IsHeld : String → ℕ → ℕ → NonceStore → Type 0
IsHeld nonce since newer [] = ⊥
IsHeld nonce since newer ((k, time) ∷ items) =
    if str_eq k nonce
    then (since ≤ time) × (length items ≤ newer)
    else IsHeld nonce since newer items

module _ (nonce : String) (since : ℕ) where
  prune-IsHeld :
      (newer now : ℕ) (items : NonceStore)
      → now ≤ since + freshness_window
      → IsHeld nonce since newer items
      → IsHeld nonce since newer (prune now items)
  unfolding prune
  prune-IsHeld newer now [] fresh h = h
  prune-IsHeld newer now ((k, time) ∷ items) fresh h = elim (Bool-cases (is_stale now time)) [
    | inl stale ↦ rw stale (elim (Bool-cases (str_eq k nonce)) [
      | inl here ↦
          let (recent, few) : (since ≤ time) × (length items ≤ newer) = rw here at h in
          absurd (omega (arith, recent, fresh, ltb→lt (time + freshness_window) now stale))
      | inr before ↦ prune-IsHeld newer now items fresh (rw before at h)
    ])
    | inr kept ↦ rw kept h
  ]

  weaken-IsHeld :
      (newer more : ℕ) (items : NonceStore)
      → newer ≤ more
      → IsHeld nonce since newer items
      → IsHeld nonce since more items
  weaken-IsHeld newer more [] le h = h
  weaken-IsHeld newer more ((j, time) ∷ items) le h = elim (Bool-cases (str_eq j nonce)) [
    | inl here ↦
        let (recent, few) : (since ≤ time) × (length items ≤ newer) = rw here at h in
        rw here (recent, omega (arith, few, le))
    | inr before ↦ rw before (weaken-IsHeld newer more items le (rw before at h))
  ]

  put-IsHeld :
      (newer now : ℕ) (k : String) (items : NonceStore)
      → since ≤ now
      → IsHeld nonce since newer items
      → IsHeld nonce since (newer + 1) (put k now items)
  unfolding put
  put-IsHeld newer now k [] later h = absurd h
  put-IsHeld newer now k ((j, time) ∷ items) later h = elim (Bool-cases (str_eq j nonce)) [
    | inl here ↦
        let (recent, few) : (since ≤ time) × (length items ≤ newer) = rw here at h in
        elim (Bool-cases (str_eq j k)) [
          | inl same ↦ rw (same, here) (later, omega arith)
          | inr other ↦ rw (other, here) (recent, omega (arith, length-put k now items))
        ]
    | inr before ↦ elim (Bool-cases (str_eq j k)) [
      | inl same ↦
          rw (same, before) (weaken-IsHeld newer (newer + 1) items (omega arith) (rw before at h))
      | inr other ↦ rw (other, before) (put-IsHeld newer now k items later (rw before at h))
    ]
  ]

  pop-IsHeld :
      (newer : ℕ) (items : NonceStore)
      → newer + 1 < length items
      → IsHeld nonce since newer items
      → IsHeld nonce since newer (pop_oldest items)
  pop-IsHeld newer [] long h = h
  pop-IsHeld newer ((j, time) ∷ items) long h = elim (Bool-cases (str_eq j nonce)) [
    | inl here ↦
        let (recent, few) : (since ≤ time) × (length items ≤ newer) = rw here at h in
        absurd (omega (arith, few, long))
    | inr before ↦ rw before at h
  ]

  record_at-IsHeld :
      (newer now : ℕ) (k : String) (items : NonceStore)
      → since ≤ now
      → newer + 1 < seen_nonces_max
      → IsHeld nonce since newer items
      → IsHeld nonce since (newer + 1) (record_at k now items)
  unfolding record_at
  record_at-IsHeld newer now k items later room h =
      let put_in = put-IsHeld newer now k items later h in
      elim (Bool-cases (ltb seen_nonces_max (length (put k now items)))) [
        | inl over ↦ rw over (
            pop-IsHeld (newer + 1) (put k now items)
              (omega (arith, room, ltb→lt seen_nonces_max _ over)) put_in)
        | inr within ↦ rw within put_in
      ]

  -- What a use of the store at a time of the window leaves of a nonce that it holds.
  abbrev pub IsWithin : Use → Type 0
  IsWithin (freshness timestamp other now) = (since ≤ now) × (now ≤ since + freshness_window)
  IsWithin (lookup_nonce other now) = (since ≤ now) × (now ≤ since + freshness_window)
  IsWithin (record_of other now) = (since ≤ now) × (now ≤ since + freshness_window)

  check_nonce-IsHeld :
      (newer now : ℕ) (other : Option String) (items : NonceStore)
      → since ≤ now
      → newer + 1 < seen_nonces_max
      → IsHeld nonce since newer items
      → IsHeld nonce since (newer + 1) (check_nonce now other items).1
  check_nonce-IsHeld newer now none items later room h =
      weaken-IsHeld newer (newer + 1) items (omega arith) h
  check_nonce-IsHeld newer now (some other) items later room h =
      elim (Bool-cases (seen other items)) [
        | inl there ↦ rw there (weaken-IsHeld newer (newer + 1) items (omega arith) h)
        | inr new ↦ rw new (record_at-IsHeld newer now other items later room h)
      ]

  check_freshness-IsHeld :
      (newer now : ℕ) (timestamp : Option ℕ) (other : Option String) (items : NonceStore)
      → since ≤ now
      → now ≤ since + freshness_window
      → newer + 1 < seen_nonces_max
      → IsHeld nonce since newer items
      → IsHeld nonce since (newer + 1) (check_freshness timestamp other now items).1
  unfolding check_freshness
  check_freshness-IsHeld newer now timestamp other items later fresh room h =
      let pruned = prune-IsHeld newer now items fresh h in
      elim (Bool-cases (is_absent timestamp && is_absent other)) [
        | inl unprotected ↦
            rw (unprotected, check_freshness)
              (weaken-IsHeld newer (newer + 1) items (omega arith) h)
        | inr given ↦ elim (Bool-cases (too_far now timestamp)) [
          | inl far ↦
              rw (given, far, check_freshness)
                (weaken-IsHeld newer (newer + 1) (prune now items) (omega arith) pruned)
          | inr near ↦
              rw (given, near, check_freshness)
                (check_nonce-IsHeld newer now other (prune now items) later room pruned)
        ]
      ]

  use_store-IsHeld :
      (newer : ℕ) (u : Use) (items : NonceStore)
      → IsWithin u
      → newer + 1 < seen_nonces_max
      → IsHeld nonce since newer items
      → IsHeld nonce since (newer + 1) (use_store u items)
  unfolding use_store is_nonce_seen record_nonce
  use_store-IsHeld newer (freshness timestamp other now) items within room h =
      check_freshness-IsHeld newer now timestamp other items within.0 within.1 room h
  use_store-IsHeld newer (lookup_nonce other now) items within room h =
      weaken-IsHeld newer (newer + 1) (prune now items) (omega arith)
        (prune-IsHeld newer now items within.1 h)
  use_store-IsHeld newer (record_of other now) items within room h =
      record_at-IsHeld newer now other (prune now items) within.0 room
        (prune-IsHeld newer now items within.1 h)

  use_all-IsHeld :
      (newer : ℕ) (us : List Use) (items : NonceStore)
      → All IsWithin us
      → newer + length us < seen_nonces_max
      → IsHeld nonce since newer items
      → IsHeld nonce since (newer + length us) (use_all us items)
  unfolding use_all
  use_all-IsHeld newer [] items within room h =
      weaken-IsHeld newer (newer + 0) items (omega arith) h
  use_all-IsHeld newer (u ∷ us) items within room h =
      weaken-IsHeld (newer + 1 + length us) (newer + suc (length us))
        (use_all us (use_store u items)) (omega arith)
        (use_all-IsHeld (newer + 1) us (use_store u items) within.1 (omega (arith, room))
          (use_store-IsHeld newer u items within.0 (omega (arith, room)) h))

  held-seen :
      (newer : ℕ) (items : NonceStore)
      → IsHeld nonce since newer items
      → contains nonce items ≡ true
  unfolding contains lookup
  held-seen newer [] h = absurd h
  held-seen newer ((k, time) ∷ items) h = elim (Bool-cases (str_eq k nonce)) [
    | inl here ↦ rw here refl
    | inr before ↦ rw before (held-seen newer items (rw before at h))
  ]

  put_new-IsHeld :
      (items : NonceStore)
      → contains nonce items ≡ false
      → IsHeld nonce since 0 (put nonce since items)
  unfolding contains lookup put
  put_new-IsHeld [] new = rw eq_refl (omega arith, omega arith)
  put_new-IsHeld ((k, time) ∷ items) new = elim (Bool-cases (str_eq k nonce)) [
    | inl here ↦ absurd (cc (rw here at new))
    | inr before ↦ rw (before, before) (put_new-IsHeld items (rw before at new))
  ]

  record_new-IsHeld :
      (items : NonceStore)
      → contains nonce items ≡ false
      → IsHeld nonce since 0 (record_at nonce since items)
  unfolding record_at
  record_new-IsHeld items new =
      elim (Bool-cases (ltb seen_nonces_max (length (put nonce since items)))) [
        | inl over ↦ rw over (
            pop-IsHeld 0 (put nonce since items) (omega (arith, ltb→lt seen_nonces_max _ over))
              (put_new-IsHeld items new))
        | inr within ↦ rw within (put_new-IsHeld items new)
      ]

-- A nonce that is recorded when it is not known is seen for the length of the window, whatever else
-- is recorded meanwhile, as long as the store is used fewer than 10,000 times.
pub record_nonce-seen :
    (nonce : String) (since now : ℕ) (us : List Use) (items : NonceStore)
    → (is_nonce_seen nonce since items).0 ≡ false
    → All (IsWithin nonce since) us
    → length us < seen_nonces_max
    → now ≤ since + freshness_window
    → (is_nonce_seen nonce now (use_all us (record_nonce nonce since items))).0 ≡ true
unfolding is_nonce_seen seen record_nonce record_at
record_nonce-seen nonce since now us items new within room fresh =
    let start = record_new-IsHeld nonce since (prune since items) new in
    held-seen nonce since (0 + length us) _ (
      prune-IsHeld nonce since (0 + length us) now _ fresh
        (use_all-IsHeld nonce since 0 us _ within (omega (arith, room)) start))
