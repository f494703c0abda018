-- ===== src/BotServer/Signed.antt =====
-- Which requests reach a handler.
use meetkai.Common.{
  ◌≤◌, ◌≡◌, refl, inl, inr, ◌⊎◌, String, true, ◌&&◌, none, [], arith, Bool-cases, Option-cases, ltb,
  str_eq, eq_iff,
}
use meetkai.Common.Try.{returned, Try-cases}
use meetkai.Common.Text.{is_empty, is_ascii, char_count, compare_digest}
use meetkai.BotServer.{
  App, Request, Call, Served, verify_signature, refusal, algorithm_of, max_body_bytes, webhook,
  tell, ingest, unread, status, clear,
}

-- The request carries the digest of the body under the key of the bot.
abbrev pub IsSigned : App → Request → String → Type 0
IsSigned app r body =
    (r.hmac_header ≡ app.digest (algorithm_of app.hmac_algorithm) app.hmac_key body)
    × (char_count body ≤ max_body_bytes)

verify-digest :
    (app : App) (body signature : String)
    → verify_signature app body signature ≡ returned true
    → signature ≡ app.digest (algorithm_of app.hmac_algorithm) app.hmac_key body
unfolding verify_signature compare_digest
verify-digest app body signature =
    let expected = app.digest (algorithm_of app.hmac_algorithm) app.hmac_key body in
    elim (Bool-cases (is_empty signature)) [
      | inl blank ↦ rw (blank, verify_signature) (λ h. absurd (cc))
      | inr given ↦ elim (Bool-cases (is_ascii signature && is_ascii expected)) [
        | inr odd ↦ rw (given, odd, verify_signature) (λ h. absurd (cc))
        | inl plain ↦ elim (Bool-cases (str_eq signature expected)) [
          | inl same ↦ λ h. (eq_iff signature expected).0 same
          | inr other ↦ rw (given, plain, other, verify_signature) (λ h. absurd (cc))
        ]
      ]
    ]

refusal-IsSigned :
    (app : App) (r : Request) (body : String) → refusal app r body ≡ none → IsSigned app r body
unfolding refusal
refusal-IsSigned app r body = elim (Bool-cases (ltb max_body_bytes (char_count body))) [
  | inl large ↦ rw (large, refusal) (λ h. absurd (cc))
  | inr fits ↦ elim (Try-cases (verify_signature app body r.hmac_header)) [
    | inl fails ↦ rw (fits, fails, refusal) (λ h. absurd (cc))
    | inr (valid, e) ↦ elim (Bool-cases valid) [
      | inl signed ↦ λ h. (verify-digest app body r.hmac_header (rw signed at e), ground arith)
      | inr forged ↦ rw (fits, e, forged, refusal) (λ h. absurd (cc))
    ]
  ]
]

-- No handler is called, or the request is signed.
abbrev pub CallsSigned : App → Request → String → Served → Type 0
CallsSigned app r body served = (served.1 ≡ []) ⊎ IsSigned app r body

webhook-CallsSigned : (app : App) (r : Request) → CallsSigned app r r.body (webhook app r)
unfolding webhook
webhook-CallsSigned app r = elim (Option-cases (refusal app r r.body)) [
  | inr (s, refused) ↦ rw (refused, webhook) (inl refl)
  | inl passed ↦ inr (refusal-IsSigned app r r.body passed)
]

tell-CallsSigned : (app : App) (r : Request) → CallsSigned app r r.body (tell app r)
unfolding tell
tell-CallsSigned app r = elim (Option-cases (refusal app r r.body)) [
  | inl passed ↦ inr (refusal-IsSigned app r r.body passed)
  | inr (s, refused) ↦ elim (Option-cases app.on_tell) [
    | inl missing ↦ rw (missing, tell) (inl refl)
    | inr (handler, h) ↦ rw (h, refused, tell) (inl refl)
  ]
]

ingest-CallsSigned : (app : App) (r : Request) → CallsSigned app r r.body (ingest app r)
unfolding ingest
ingest-CallsSigned app r = elim (Option-cases (refusal app r r.body)) [
  | inl passed ↦ inr (refusal-IsSigned app r r.body passed)
  | inr (s, refused) ↦ elim (Option-cases app.on_ingest) [
    | inl missing ↦ rw (missing, ingest) (inl refl)
    | inr (handler, h) ↦ rw (h, refused, ingest) (inl refl)
  ]
]

unread-CallsSigned :
    (app : App) (r : Request) (handler : _) (call : Call)
    → CallsSigned app r "" (unread app r handler call)
unfolding unread
unread-CallsSigned app r handler call = elim (Option-cases (refusal app r "")) [
  | inl passed ↦ inr (refusal-IsSigned app r "" passed)
  | inr (s, refused) ↦ elim (Option-cases handler) [
    | inl missing ↦ rw (missing, unread) (inl refl)
    | inr (handled, h) ↦ rw (h, refused, unread) (inl refl)
  ]
]

-- No route calls a handler unless the request carries the HMAC of its body under the key of the bot,
-- or of the empty body for /status and /clear, and the body is at most 1 MiB.
pub routes-CallsSigned :
    (app : App) (r : Request)
    → CallsSigned app r r.body (webhook app r)
      × CallsSigned app r r.body (tell app r)
      × CallsSigned app r r.body (ingest app r)
      × CallsSigned app r "" (status app r)
      × CallsSigned app r "" (clear app r)
unfolding status clear
routes-CallsSigned app r = (
  webhook-CallsSigned app r,
  tell-CallsSigned app r,
  ingest-CallsSigned app r,
  unread-CallsSigned app r app.on_status _,
  unread-CallsSigned app r app.on_clear _,
)
