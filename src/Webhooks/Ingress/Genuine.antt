-- ===== src/Webhooks/Ingress/Genuine.antt =====
-- What is forwarded to a bot.
use mathlib.Core.Option.{some_inj}
use mathlib.Core.List.{Mem, mem-cons_self, mem-cons_of_mem}
use mathlib.Core.Bool.{and-eq-true_iff}
use meetkai.Common.{
  ℕ, ◌*◌, ◌≤◌, ◌≡◌, refl, inl, inr, subst, ◌⊎◌, ◌||◌, ◌&&◌, String, Bool, true, false, none, some,
  List, [], ◌∷◌, arith, Bool-cases, Option-cases, ltb, ◌==◌, eq_iff,
}
use meetkai.Common.Try.{Try, returned, raised, Try-cases}
use meetkai.Common.Http.{ok, Http-cases, ok-inj}
use meetkai.Common.Text.{is_empty, char_count}
use meetkai.Webhooks.Nonces.{NonceStore, check_freshness}
use meetkai.Webhooks.Resend.{Signing, Request, NormalizedMessage, verify_resend, signature_matches}
use meetkai.Webhooks.Ingress.{
  Cockpit, Clock, World, User, Connection, Row, webhook_ingest, resolve_webhook, find_connection,
  handle_verified, forward_and_record, read_capped_body, seen_before, prepare, parse_payload,
  find_user, connection_of, find_consuming_deployment, first, max_body_bytes, known_type,
  declares_too_much, verdict, consumes,
}

-- The message is the one made of the body, for a running bot of the workspace's owner that consumes
-- the type of webhook, and the request carries a signature of the secret of the owner's connection.
pub record IsGenuine (c : Cockpit) (slug type_name : String) (r : Request)
    (m : Row × NormalizedMessage) : Type 0 where
  pub user : User
  pub conn : Connection
  pub known_user : Mem user c.users
  pub known_connection : Mem conn c.connections
  pub known_bot : Mem m.0 c.deployments
  pub small : char_count r.body ≤ max_body_bytes
  pub owner : user.kai_slug ≡ slug
  pub own_connection : conn.user_id ≡ user.id
  pub own_service : conn.service ≡ type_name
  pub signed : signature_matches c.signing r conn.signing_secret ≡ returned true
  pub own_bot : m.0.user_id ≡ user.id
  pub running : m.0.status ≡ "running"
  pub consuming : consumes c type_name m.0 ≡ true
  pub from_body : parse_payload c r.body conn.api_key ≡ ok m.1

first-satisfies {ℓ} :
    {A : Type ℓ} (p : A → Bool) (xs : List A) {a : A} → first p xs ≡ some a → p a ≡ true
first-satisfies p [] h = cc
first-satisfies p (x ∷ xs) {a} h = elim (Bool-cases (p x)) [
  | inl here ↦
      let same : some x ≡ some a = rw here at h in subst (λ y. p y ≡ true) (some_inj.0 same) here
  | inr gone ↦ first-satisfies p xs (rw gone at h)
]

first-Mem {ℓ} : {A : Type ℓ} (p : A → Bool) (xs : List A) {a : A} → first p xs ≡ some a → Mem a xs
first-Mem p [] h = cc
first-Mem p (x ∷ xs) {a} h = elim (Bool-cases (p x)) [
  | inl here ↦
      let same : some x ≡ some a = rw here at h in
      subst (λ y. Mem y (x ∷ xs)) (some_inj.0 same) mem-cons_self
  | inr gone ↦ mem-cons_of_mem x (first-Mem p xs (rw gone at h))
]

-- A check that succeeds compared the signature.
verify-signed :
    (g : Signing) (now : ℕ) (r : Request) (secret : String) (items : NonceStore)
    → (verify_resend g now r secret items).0 ≡ returned true
    → signature_matches g r secret ≡ returned true
unfolding verify_resend
verify-signed g now r secret items =
    elim (Bool-cases
      (is_empty r.svix_id || (is_empty r.svix_timestamp || is_empty r.svix_signature))) [
        | inl missing ↦ rw (missing, verify_resend) (λ h. absurd (cc))
        | inr given ↦ elim (Try-cases (g.seconds r.svix_timestamp)) [
          | inl fails ↦ rw (given, fails, verify_resend) (λ h. absurd (cc))
          | inr (ts, e) ↦
              rw (given, e, verify_resend)
                (elim (Bool-cases (check_freshness (some (ts * 1000000)) none now items).0) [
                  | inl fresh ↦ rw fresh (λ h. h)
                  | inr old ↦ rw old (λ h. absurd (cc))
                ])
        ]
      ]

verdict-signed :
    (found : User × Connection) (v : Try Bool) {f : User × Connection}
    → verdict found v ≡ ok f
    → (v ≡ returned true) × (found ≡ f)
verdict-signed found raised h = cc
verdict-signed found (returned false) h = cc
verdict-signed found (returned true) h = (refl, ok-inj h)

and_parts : (a b : Bool) → (a && b) ≡ true → (a ≡ true) × (b ≡ true)
and_parts a b h = (and-eq-true_iff a b).0 h

eq_number : (a b : ℕ) → (a == b) ≡ true → a ≡ b
eq_number a b h = ground arith

module _ (c : Cockpit) where
  -- The owner of the workspace, with a connection of this service.
  abbrev IsFound : String → String → User × Connection → Type 0
  IsFound slug type_name (user, conn) =
      Mem user c.users
      × Mem conn c.connections
      × (user.kai_slug ≡ slug)
      × (conn.user_id ≡ user.id)
      × (conn.service ≡ type_name)

  -- A message of the body for a running bot of the user.
  abbrev IsPrepared : String → String → User × Connection → Row × NormalizedMessage → Type 0
  IsPrepared type_name body (user, conn) (row, message) =
      (parse_payload c body conn.api_key ≡ ok message)
      × Mem row c.deployments
      × (row.user_id ≡ user.id)
      × (row.status ≡ "running")
      × (consumes c type_name row ≡ true)

  find_connection-own :
      (slug type_name : String) {found : User × Connection}
      → find_connection c slug type_name ≡ ok found
      → IsFound slug type_name found
  unfolding find_connection find_user connection_of
  find_connection-own slug type_name = elim (Bool-cases (known_type type_name)) [
    | inr unknown ↦ rw (unknown, find_connection) (λ h. absurd (cc))
    | inl known ↦ elim (Option-cases (find_user c slug)) [
      | inl missing ↦ rw (known, missing, find_connection) (λ h. absurd (cc))
      | inr (user, hu) ↦ elim (Option-cases (connection_of c user type_name)) [
        | inl missing ↦ rw (known, hu, missing, find_connection) (λ h. absurd (cc))
        | inr (conn, hk) ↦
            rw (known, hu, hk, find_connection)
              (λ h.
                let asked = and_parts _ _ (first-satisfies _ c.connections hk) in
                subst (IsFound slug type_name) (ok-inj h) (
                  first-Mem _ c.users hu,
                  first-Mem _ c.connections hk,
                  (eq_iff user.kai_slug slug).0 (first-satisfies _ c.users hu),
                  eq_number conn.user_id user.id asked.0,
                  (eq_iff conn.service type_name).0 asked.1,
                ))
      ]
    ]
  ]

  -- What `prepare` gives: the message of the body, and a running bot of the user.
  prepare-own :
      (type_name body : String) (user : User) (conn : Connection) {m : Row × NormalizedMessage}
      → prepare c type_name body user conn ≡ ok m
      → IsPrepared type_name body (user, conn) m
  unfolding prepare find_consuming_deployment
  prepare-own type_name body user conn {m} = elim (Http-cases (parse_payload c body conn.api_key)) [
    | inr (status, e) ↦ rw (e, prepare) (λ h. absurd (cc))
    | inl (message, e) ↦ elim (Option-cases (find_consuming_deployment c user.id type_name)) [
      | inl missing ↦ rw (e, missing, prepare) (λ h. absurd (cc))
      | inr (bot, hb) ↦
          rw (e, hb, prepare)
            (λ h.
              let chosen = and_parts _ _ (first-satisfies _ c.deployments hb) in
              let mine = and_parts _ _ chosen.0 in
              subst
                (λ (x : Row × NormalizedMessage).
                  (ok message ≡ ok x.1)
                  × Mem x.0 c.deployments
                  × (x.0.user_id ≡ user.id)
                  × (x.0.status ≡ "running")
                  × (consumes c type_name x.0 ≡ true))
                (ok-inj h)
                (
                  refl,
                  first-Mem _ c.deployments hb,
                  eq_number bot.user_id user.id mine.0,
                  (eq_iff bot.status "running").0 mine.1,
                  chosen.1,
                ))
    ]
  ]

  resolved-signed :
      (now : ℕ) (slug type_name : String) (r : Request) (items : NonceStore)
      {found : User × Connection}
      → (resolve_webhook c now slug type_name r items).0 ≡ ok found
      → IsFound slug type_name found
        × (signature_matches c.signing r found.1.signing_secret ≡ returned true)
  unfolding resolve_webhook
  resolved-signed now slug type_name r items {found} =
      elim (Http-cases (find_connection c slug type_name)) [
        | inr (status, e) ↦ rw (e, resolve_webhook) (λ h. absurd (cc))
        | inl (known, e) ↦
            rw (e, resolve_webhook)
              (λ h.
                let (genuine, same) = verdict-signed known _ h in
                let own = find_connection-own slug type_name e in
                subst
                  (λ (f : User × Connection).
                    IsFound slug type_name f
                    × (signature_matches c.signing r f.1.signing_secret ≡ returned true))
                  same (own, verify-signed c.signing now r known.1.signing_secret items genuine))
      ]

  small_body :
      (r : Request) {body : String}
      → read_capped_body r ≡ ok body
      → char_count r.body ≤ max_body_bytes
  unfolding read_capped_body
  small_body r = elim (Bool-cases (ltb max_body_bytes (char_count r.body))) [
    | inr fits ↦ λ h. ground arith
    | inl large ↦ elim (Bool-cases (declares_too_much r.content_length)) [
      | inl declared ↦ rw (declared, read_capped_body) (λ h. absurd (cc))
      | inr fine ↦ rw (fine, large, read_capped_body) (λ h. absurd (cc))
    ]
  ]

  -- At most one message is sent, and it is the given one.
  abbrev pub Sends : (Row × NormalizedMessage → Type 0) → World → World → Type 0
  Sends P w w' =
      (w'.forwarded ≡ w.forwarded)
      ⊎ ((m : Row × NormalizedMessage) × P m × (w'.forwarded ≡ m ∷ w.forwarded))

  forward-Sends :
      (t : Clock) (id : String) (m : Row × NormalizedMessage) (w : World)
      → (forward_and_record c t id m w).1.forwarded ≡ m ∷ w.forwarded
  unfolding forward_and_record
  forward-Sends t id m w = elim (Bool-cases (c.forward m.0 m.1)) [
    | inl sent ↦ rw (sent, forward_and_record) refl
    | inr fails ↦ rw (fails, forward_and_record) refl
  ]

  handle-Sends :
      (t : Clock) (type_name : String) (r : Request) (found : User × Connection) (w : World)
      → Sends (IsPrepared type_name r.body found) w (handle_verified c t type_name r found w).1
  unfolding handle_verified
  handle-Sends t type_name r found w =
      let known = seen_before r.svix_id t.looked_up_at w.nonces in
      elim (Bool-cases known.0) [
        | inl old ↦ rw (old, handle_verified) (inl refl)
        | inr new ↦
            rw (new, handle_verified)
              (elim (Http-cases (prepare c type_name r.body found.0 found.1)) [
                | inr (status, e) ↦ rw e (inl refl)
                | inl (m, e) ↦ rw e (
                    inr (
                      m,
                      prepare-own type_name r.body found.0 found.1 e,
                      forward-Sends t r.svix_id m _,
                    ))
              ])
      ]

-- A request sends at most one message to a bot. It sends one only if its body is at most 1 MiB and
-- it carries a signature over the body by the secret of a connection of this type that the owner of
-- the workspace has; the message is the one made of this body with that connection, and it goes to a
-- running deployment of the same owner whose bot type takes this connection.
pub webhook_ingest-IsGenuine :
    (c : Cockpit) (t : Clock) (slug type_name : String) (r : Request) (w : World)
    → Sends c (IsGenuine c slug type_name r) w (webhook_ingest c t slug type_name r w).1
unfolding webhook_ingest
webhook_ingest-IsGenuine c t slug type_name r w = elim (Http-cases (read_capped_body r)) [
  | inr (status, e) ↦ rw (e, webhook_ingest) (inl refl)
  | inl (body, e) ↦
      let checked = resolve_webhook c t.verified_at slug type_name r w.nonces in
      rw (e, webhook_ingest)
        (elim (Http-cases checked.0) [
          | inr (status, refused) ↦ rw refused (inl refl)
          | inl (found, ok_found) ↦ rw ok_found (
              let ((known_user, known_connection, owner, own_connection, own_service), signed) =
                resolved-signed c t.verified_at slug type_name r w.nonces ok_found in
              elim (handle-Sends c t type_name r found (record w { nonces = checked.1 })) [
                | inl quiet ↦ inl quiet
                | inr (m, (from_body, known_bot, own_bot, running, consuming), sent) ↦ inr (
                  m,
                  record {
                    user = found.0;
                    conn = found.1;
                    known_user = known_user;
                    known_connection = known_connection;
                    known_bot = known_bot;
                    small = small_body c r e;
                    owner = owner;
                    own_connection = own_connection;
                    own_service = own_service;
                    signed = signed;
                    own_bot = own_bot;
                    running = running;
                    consuming = consuming;
                    from_body = from_body;
                  },
                  sent,
                )
              ])
        ])
]
