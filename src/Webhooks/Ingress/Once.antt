-- ===== src/Webhooks/Ingress/Once.antt =====
-- Repeated webhooks.
use meetkai.Common.{
  ℕ, suc, ◌+◌, ◌*◌, ◌≤◌, ◌<◌, ◌≡◌, refl, sym, ap, ◌∙◌, subst, inl, inr, ◌||◌, String, true, false,
  none, some, List, [], ◌∷◌, ◌++◌, All, arith, Bool-cases, str_eq, All-append,
}
use meetkai.Common.Lists.{length, length-append}
use meetkai.Common.Dict.{contains, lookup}
use meetkai.Common.Try.{Try-cases}
use meetkai.Common.Http.{ok, Http-cases}
use meetkai.Common.Text.{is_empty}
use meetkai.Webhooks.Nonces.{
  NonceStore, freshness_window, is_nonce_seen, record_nonce, prune, seen, is_stale,
}
use meetkai.Webhooks.Nonces.Bounds.{Use, freshness, lookup_nonce, record_of, use_store, use_all}
use meetkai.Webhooks.Nonces.Held.{IsWithin, record_nonce-seen}
use meetkai.Webhooks.Resend.{Signing, Request, NormalizedMessage, verify_resend}
use meetkai.Webhooks.Ingress.{
  Cockpit, Clock, World, User, Connection, Row, forwarded_ok, webhook_ingest, resolve_webhook,
  find_connection, Arrival, ingest, ingest_all, handle_verified, forward_and_record,
  read_capped_body, seen_before, remember, prepare,
}

-- Every clock reading of the request stands in the window that starts at `since`.
abbrev pub IsTimely : ℕ → Clock → Type 0
IsTimely since t =
    ((since ≤ t.verified_at) × (t.verified_at ≤ since + freshness_window))
    × ((since ≤ t.looked_up_at) × (t.looked_up_at ≤ since + freshness_window))
    × ((since ≤ t.recorded_at) × (t.recorded_at ≤ since + freshness_window))

-- The store after is what at most `n` uses in the window make of the store before.
abbrev pub Uses : String → ℕ → ℕ → NonceStore → NonceStore → Type 0
Uses nonce since n before after =
    (us : List Use) × All (IsWithin nonce since) us × (length us ≤ n) × (after ≡ use_all us before)

use_all-append :
    (us vs : List Use) (items : NonceStore)
    → use_all (us ++ vs) items ≡ use_all vs (use_all us items)
unfolding use_all
use_all-append [] vs items = refl
use_all-append (u ∷ us) vs items = use_all-append us vs (use_store u items)

module _ (nonce : String) (since : ℕ) where
  no_use : (n : ℕ) (items : NonceStore) → Uses nonce since n items items
  unfolding use_all
  no_use n items = ([], tt, omega arith, refl)

  one_use :
      (u : Use) (items : NonceStore)
      → IsWithin nonce since u
      → Uses nonce since 1 items (use_store u items)
  unfolding use_all
  one_use u items h = (u ∷ [], (h, tt), omega arith, refl)

  then-Uses :
      (m n : ℕ) (a b c : NonceStore)
      → Uses nonce since m a b
      → Uses nonce since n b c
      → Uses nonce since (m + n) a c
  then-Uses m n a b c (us, hu, lu, eu) (vs, hv, lv, ev) = (
    us ++ vs,
    All-append (IsWithin nonce since) us vs hu hv,
    omega (arith, length-append us vs, lu, lv),
    ev ∙ ap (use_all vs) eu ∙ sym (use_all-append us vs a),
  )

  verify-Uses :
      (g : Signing) (now : ℕ) (r : Request) (secret : String) (items : NonceStore)
      → (since ≤ now) × (now ≤ since + freshness_window)
      → Uses nonce since 1 items (verify_resend g now r secret items).1
  unfolding use_store verify_resend use_all
  verify-Uses g now r secret items within =
      elim (Bool-cases
        (is_empty r.svix_id || (is_empty r.svix_timestamp || is_empty r.svix_signature))) [
          | inl missing ↦ rw (missing, verify_resend) (no_use 1 items)
          | inr given ↦ elim (Try-cases (g.seconds r.svix_timestamp)) [
            | inl fails ↦ rw (given, fails, verify_resend) (no_use 1 items)
            | inr (ts, e) ↦
                rw (given, e, verify_resend)
                  (one_use (freshness (some (ts * 1000000)) none now) items within)
          ]
        ]

  resolve-Uses :
      (c : Cockpit) (now : ℕ) (slug type_name : String) (r : Request) (items : NonceStore)
      → (since ≤ now) × (now ≤ since + freshness_window)
      → Uses nonce since 1 items (resolve_webhook c now slug type_name r items).1
  unfolding resolve_webhook use_all
  resolve-Uses c now slug type_name r items within =
      elim (Http-cases (find_connection c slug type_name)) [
        | inl (found, e) ↦
            rw (e, resolve_webhook)
              (verify-Uses c.signing now r found.1.signing_secret items within)
        | inr (status, e) ↦ rw (e, resolve_webhook) (no_use 1 items)
      ]

  seen_before-Uses :
      (id : String) (now : ℕ) (items : NonceStore)
      → (since ≤ now) × (now ≤ since + freshness_window)
      → Uses nonce since 1 items (seen_before id now items).1
  unfolding use_store seen_before use_all
  seen_before-Uses id now items within = elim (Bool-cases (is_empty id)) [
    | inl blank ↦ rw (blank, seen_before) (no_use 1 items)
    | inr given ↦ rw (given, seen_before) (one_use (lookup_nonce id now) items within)
  ]

  remember-Uses :
      (id : String) (now : ℕ) (items : NonceStore)
      → (since ≤ now) × (now ≤ since + freshness_window)
      → Uses nonce since 1 items (remember id now items)
  unfolding use_store remember use_all
  remember-Uses id now items within = elim (Bool-cases (is_empty id)) [
    | inl blank ↦ rw (blank, remember) (no_use 1 items)
    | inr given ↦ rw (given, remember) (one_use (record_of id now) items within)
  ]

  forward-Uses :
      (c : Cockpit) (t : Clock) (id : String) (m : Row × NormalizedMessage) (w : World)
      → IsTimely since t
      → Uses nonce since 1 w.nonces (forward_and_record c t id m w).1.nonces
  unfolding forward_and_record use_all
  forward-Uses c t id m w timely = elim (Bool-cases (c.forward m.0 m.1)) [
    | inl sent ↦ rw (sent, forward_and_record) (remember-Uses id t.recorded_at w.nonces timely.2)
    | inr fails ↦ rw (fails, forward_and_record) (no_use 1 w.nonces)
  ]

  handle-Uses :
      (c : Cockpit) (t : Clock) (type_name : String) (r : Request) (found : User × Connection)
      (w : World)
      → IsTimely since t
      → Uses nonce since 2 w.nonces (handle_verified c t type_name r found w).1.nonces
  unfolding handle_verified
  handle-Uses c t type_name r found w timely =
      let (known, nonces) = seen_before r.svix_id t.looked_up_at w.nonces in
      then-Uses 1 1 w.nonces nonces _ (seen_before-Uses r.svix_id t.looked_up_at w.nonces timely.1)
        (elim (Bool-cases known) [
          | inl old ↦ rw old (no_use 1 nonces)
          | inr new ↦ rw new (elim (Http-cases (prepare c type_name r.body found.0 found.1)) [
            | inl (m, e) ↦ rw e (forward-Uses c t r.svix_id m _ timely)
            | inr (status, e) ↦ rw e (no_use 1 nonces)
          ])
        ])

  -- A request in the window uses the store three times at most.
  webhook_ingest-Uses :
      (c : Cockpit) (t : Clock) (slug type_name : String) (r : Request) (w : World)
      → IsTimely since t
      → Uses nonce since 3 w.nonces (webhook_ingest c t slug type_name r w).1.nonces
  unfolding webhook_ingest use_all
  webhook_ingest-Uses c t slug type_name r w timely = elim (Http-cases (read_capped_body r)) [
    | inr (status, e) ↦ rw (e, webhook_ingest) (no_use 3 w.nonces)
    | inl (body, e) ↦
        rw (e, webhook_ingest)
          (let (resolved, nonces) = resolve_webhook c t.verified_at slug type_name r w.nonces in
            then-Uses 1 2 w.nonces nonces _
              (resolve-Uses c t.verified_at slug type_name r w.nonces timely.0)
              (elim (Http-cases resolved) [
                | inl (found, ok_found) ↦ rw ok_found (handle-Uses c t type_name r found _ timely)
                | inr (status, refused) ↦ rw refused (no_use 2 nonces)
              ]))
  ]

  ingest_all-Uses :
      (c : Cockpit) (arrivals : List Arrival) (w : World)
      → All (λ a. IsTimely since a.clock) arrivals
      → Uses nonce since (3 * length arrivals) w.nonces (ingest_all c arrivals w).nonces
  unfolding ingest_all ingest
  ingest_all-Uses c [] w timely = no_use (3 * 0) w.nonces
  ingest_all-Uses c (a ∷ arrivals) w timely =
      let next = (webhook_ingest c a.clock a.slug a.type_name a.request w).1 in
      let total : 3 + 3 * length arrivals ≡ 3 * suc (length arrivals) = omega arith in
      subst (λ n. Uses nonce since n w.nonces (ingest_all c arrivals next).nonces) total
        (then-Uses 3 (3 * length arrivals) w.nonces next.nonces _
          (webhook_ingest-Uses c a.clock a.slug a.type_name a.request w timely.0)
          (ingest_all-Uses c arrivals next timely.1))

unseen-prune :
    (nonce : String) (now : ℕ) (items : NonceStore)
    → contains nonce items ≡ false
    → contains nonce (prune now items) ≡ false
unfolding contains lookup prune
unseen-prune nonce now [] h = refl
unseen-prune nonce now ((k, time) ∷ items) h = elim (Bool-cases (is_stale now time)) [
  | inr kept ↦ rw kept h
  | inl stale ↦ rw stale (elim (Bool-cases (str_eq k nonce)) [
    | inl same ↦ absurd (cc (rw same at h))
    | inr other ↦ unseen-prune nonce now items (rw other at h)
  ])
]

-- The store after the forwarding of a nonce: it was recorded when the store did not have it.
abbrev HasRecorded : String → ℕ → NonceStore → Type 0
HasRecorded nonce since after =
    (before : NonceStore) × ((is_nonce_seen nonce since before).0 ≡ false)
    × (after ≡ record_nonce nonce since before)

module _ (c : Cockpit) (t : Clock) where
  forward-HasRecorded :
      (id : String) (m : Row × NormalizedMessage) (w : World)
      → is_empty id ≡ false
      → contains id w.nonces ≡ false
      → (forward_and_record c t id m w).0 ≡ ok forwarded_ok
      → HasRecorded id t.recorded_at (forward_and_record c t id m w).1.nonces
  unfolding forward_and_record remember is_nonce_seen seen
  forward-HasRecorded id m w given new h = elim (Bool-cases (c.forward m.0 m.1)) [
    | inl sent ↦
        rw (sent, forward_and_record, given)
          (w.nonces, unseen-prune id t.recorded_at w.nonces new, refl)
    | inr fails ↦ absurd (cc (rw (fails, forward_and_record) at h))
  ]

  handle-HasRecorded :
      (type_name : String) (r : Request) (found : User × Connection) (w : World)
      → is_empty r.svix_id ≡ false
      → (handle_verified c t type_name r found w).0 ≡ ok forwarded_ok
      → HasRecorded r.svix_id t.recorded_at (handle_verified c t type_name r found w).1.nonces
  unfolding handle_verified seen_before is_nonce_seen seen
  handle-HasRecorded type_name r found w given =
      elim (Bool-cases (contains r.svix_id (prune t.looked_up_at w.nonces))) [
        | inl old ↦ rw (given, handle_verified, old) (λ h. absurd (cc))
        | inr new ↦
            rw (given, handle_verified, new)
              (elim (Http-cases (prepare c type_name r.body found.0 found.1)) [
                | inl (m, e) ↦
                    let looked : World = record w {
                      nonces = (seen_before r.svix_id t.looked_up_at w.nonces).1;
                    } in
                    let unseen : contains r.svix_id looked.nonces ≡ false =
                      rw (seen_before, given) new in
                    rw e (forward-HasRecorded r.svix_id m looked given unseen)
                | inr (status, e) ↦ rw e (λ h. absurd (cc))
              ])
      ]

  -- A request without a nonce does not pass the signature check.
  resolved-nonce :
      (slug type_name : String) (r : Request) (items : NonceStore) {found : User × Connection}
      → (resolve_webhook c t.verified_at slug type_name r items).0 ≡ ok found
      → is_empty r.svix_id ≡ false
  unfolding resolve_webhook verify_resend
  resolved-nonce slug type_name r items h = elim (Bool-cases (is_empty r.svix_id)) [
    | inr given ↦ given
    | inl blank ↦ elim (Http-cases (find_connection c slug type_name)) [
      | inr (status, e) ↦ absurd (cc (rw (e, resolve_webhook) at h))
      | inl (known, e) ↦ absurd (cc (rw (e, resolve_webhook, blank, verify_resend) at h))
    ]
  ]

  webhook_ingest-HasRecorded :
      (slug type_name : String) (r : Request) (w : World)
      → (webhook_ingest c t slug type_name r w).0 ≡ ok forwarded_ok
      → HasRecorded r.svix_id t.recorded_at (webhook_ingest c t slug type_name r w).1.nonces
  unfolding webhook_ingest
  webhook_ingest-HasRecorded slug type_name r w = elim (Http-cases (read_capped_body r)) [
    | inr (status, e) ↦ rw (e, webhook_ingest) (λ h. absurd (cc))
    | inl (body, e) ↦
        rw (e, webhook_ingest)
          (elim (Http-cases (resolve_webhook c t.verified_at slug type_name r w.nonces).0) [
            | inr (status, refused) ↦ rw refused (λ h. absurd (cc))
            | inl (found, ok_found) ↦ rw ok_found (
                handle-HasRecorded type_name r found _
                  (resolved-nonce slug type_name r w.nonces ok_found))
          ])
  ]

  -- A request whose nonce is seen after its signature check sends nothing.
  seen-quiet :
      (slug type_name : String) (r : Request) (w : World)
      → (is_nonce_seen r.svix_id t.looked_up_at
          (resolve_webhook c t.verified_at slug type_name r w.nonces).1).0
        ≡ true
      → (webhook_ingest c t slug type_name r w).1.forwarded ≡ w.forwarded
  unfolding webhook_ingest handle_verified
  seen-quiet slug type_name r w known = elim (Http-cases (read_capped_body r)) [
    | inr (status, e) ↦ rw (e, webhook_ingest) refl
    | inl (body, e) ↦
        rw (e, webhook_ingest)
          (elim (Http-cases (resolve_webhook c t.verified_at slug type_name r w.nonces).0) [
            | inr (status, refused) ↦ rw refused refl
            | inl (found, ok_found) ↦
                let given = resolved-nonce slug type_name r w.nonces ok_found in
                rw (ok_found, handle_verified, seen_before, given, known) refl
          ])
  ]

-- A request that was forwarded is not forwarded again: of the requests after it, each handled when
-- the one before is done, as long as they come within the 300 seconds of the window and are fewer
-- than 3,300, none with the same nonce sends anything to a bot, whatever came between.
pub webhook_ingest-forwards_once :
    (c : Cockpit) (a b : Arrival) (between : List Arrival) (w : World)
    → (ingest c a w).0 ≡ ok forwarded_ok
    → b.request.svix_id ≡ a.request.svix_id
    → All (λ x. IsTimely a.clock.recorded_at x.clock) between
    → IsTimely a.clock.recorded_at b.clock
    → length between < 3300
    → let w' = ingest_all c between (ingest c a w).1 in (ingest c b w').1.forwarded ≡ w'.forwarded
unfolding ingest
webhook_ingest-forwards_once c a b between w accepted same timely in_time few =
    let nonce = a.request.svix_id in
    let since = a.clock.recorded_at in
    let first = (ingest c a w).1 in
    let w' = ingest_all c between first in
    let (before, unseen, e) =
      webhook_ingest-HasRecorded c a.clock a.slug a.type_name a.request w accepted in
    let (us, hu, lu, eu) =
      then-Uses nonce since (3 * length between) 1 first.nonces w'.nonces _
        (ingest_all-Uses nonce since c between first timely)
        (resolve-Uses nonce since c b.clock.verified_at b.slug b.type_name b.request w'.nonces
          in_time.0) in
    seen-quiet c b.clock b.slug b.type_name b.request w' (
      subst
        (λ id.
          (is_nonce_seen id b.clock.looked_up_at
            (resolve_webhook c b.clock.verified_at b.slug b.type_name b.request w'.nonces).1).0
          ≡ true)
        (sym same)
        (rw (eu, e)
          (record_nonce-seen nonce since b.clock.looked_up_at us before unseen hu
            (omega (arith, lu, few)) in_time.1.1)))
