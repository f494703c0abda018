-- ===== src/Webhooks/Ingress.antt =====
-- The ingress route of `src/kai/cockpit/routes/connections/webhooks.py`. The tables are lists of
-- rows; decryption, JSON and the call of the bot are arguments. The three clock readings of a request
-- are those of the signature check, the lookup of the nonce and its record.
pub mod Once
pub mod Genuine
use meetkai.Common.{
  ℕ, ◌+◌, ◌*◌, String, Bool, true, false, not, ◌&&◌, ◌||◌, Option, none, some, List, [], ◌∷◌, any,
  ltb, ◌==◌, str_eq, if◌then◌else◌, leb,
}
use Prim.Native.Char.{code}
use Prim.Native.Nat.{◌-◌}
use meetkai.Common.Text.{is_empty, char_count}
use meetkai.Common.Dict.{Dict, lookup}
use meetkai.Common.Try.{Try, returned, raised}
use meetkai.Common.Http.{Http, ok, http_error, ◌>>=◌, ◌>>◌, or_error, or_status, refuse_if}
use meetkai.Webhooks.Nonces.{NonceStore, is_nonce_seen, record_nonce}
use meetkai.Webhooks.Resend.{
  Signing, Request, Api, Payload, Parsed, parsed, upstream_error, other_error, NormalizedMessage,
  verify_resend, parse_resend,
}

abbrev pub max_body_bytes : ℕ
max_body_bytes = 1024 * 1024

pub record User : Type 0 where
  pub id : ℕ
  pub kai_slug : String

pub record Connection : Type 0 where
  pub user_id : ℕ
  pub service : String
  pub signing_secret : String
  pub api_key : String

pub record Row : Type 0 where
  pub id : ℕ
  pub user_id : ℕ
  pub status : String
  pub bot_type : String

pub record BotType : Type 0 where
  pub required_connections : List String
  pub supported_connections : List String

-- `forward` is `forward_event` with the path /ingest: whether the bot accepted the message.
pub record Cockpit : Type 0 where
  pub signing : Signing
  pub api : Api
  pub json_loads : String → Try Payload
  pub empty_payload : Payload
  pub users : List User
  pub connections : List Connection
  pub deployments : List Row
  pub bot_types : Dict BotType
  pub forward : Row → NormalizedMessage → Bool

pub record Clock : Type 0 where
  pub verified_at : ℕ
  pub looked_up_at : ℕ
  pub recorded_at : ℕ

-- `forwarded` lists what was sent to bots, the last first.
pub record World : Type 0 where
  pub nonces : NonceStore
  pub forwarded : List (Row × NormalizedMessage)

-- `.filter(...).first()`
abbrev pub first {ℓ} : {A : Type ℓ} → (A → Bool) → List A → Option A
first p [] = none
first p (x ∷ xs) = let rest = first p xs in if p x then some x else rest

abbrev all_digits : String → Bool
all_digits String.[] = true
all_digits (String.◌∷◌ c s) = leb 48 (code c) && leb (code c) 57 && all_digits s

abbrev value_of : ℕ → String → ℕ
value_of n String.[] = n
value_of n (String.◌∷◌ c s) = value_of (n * 10 + (code c - 48)) s

-- `cl and cl.isdigit() and int(cl) > MAX_BODY_BYTES`, for ASCII digits
unfoldable pub declares_too_much : String → Bool
declares_too_much cl = not (is_empty cl) && (all_digits cl && ltb max_body_bytes (value_of 0 cl))

unfoldable pub read_capped_body : Request → Http String
unfolding declares_too_much
read_capped_body r = do
  refuse_if (declares_too_much r.content_length) 413
  refuse_if (ltb max_body_bytes (char_count r.body)) 413
  ok r.body

-- The only type of the catalog is "resend".
abbrev pub known_type : String → Bool
known_type type_name = str_eq type_name "resend"

unfoldable pub find_user : Cockpit → String → Option User
find_user c slug = first (λ u. str_eq u.kai_slug slug) c.users

unfoldable pub connection_of : Cockpit → User → String → Option Connection
connection_of c user type_name =
    first (λ k. k.user_id == user.id && str_eq k.service type_name) c.connections

unfoldable pub find_connection : Cockpit → String → String → Http (User × Connection)
unfolding find_user connection_of
find_connection c slug type_name = do
  refuse_if (not (known_type type_name)) 404
  user ← or_error 404 (find_user c slug)
  conn ← or_error 404 (connection_of c user type_name)
  ok (user, conn)

abbrev pub verdict : User × Connection → Try Bool → Http (User × Connection)
verdict found raised = http_error 500
verdict found (returned false) = http_error 401
verdict found (returned true) = ok found

unfoldable pub resolve_webhook :
    Cockpit → ℕ → String → String → Request → NonceStore → Http (User × Connection) × NonceStore
unfolding find_connection verify_resend
resolve_webhook c now slug type_name r nonces = elim (find_connection c slug type_name) [
  | http_error status ↦ (http_error status, nonces)
  | ok found ↦
      let (genuine, nonces') = verify_resend c.signing now r found.1.signing_secret nonces in
      (verdict found genuine, nonces')
]

abbrev status_of {ℓ} : {A : Type ℓ} → Parsed A → Http A
status_of (parsed a) = ok a
status_of upstream_error = http_error 502
status_of other_error = http_error 400

unfoldable pub parse_payload : Cockpit → String → String → Http NormalizedMessage
unfolding parse_resend
parse_payload c body api_key = do
  payload ← or_status 400 (if is_empty body then returned c.empty_payload else c.json_loads body)
  status_of (parse_resend c.api api_key payload)

abbrev pub consumes : Cockpit → String → Row → Bool
consumes c type_name d = elim (lookup d.bot_type c.bot_types) [
  | none ↦ false
  | some bt ↦
      any (str_eq type_name) bt.required_connections
      || any (str_eq type_name) bt.supported_connections
]

unfoldable pub find_consuming_deployment : Cockpit → ℕ → String → Option Row
find_consuming_deployment c user_id type_name =
    first
      (λ (d : Row). (d.user_id == user_id && str_eq d.status "running") && consumes c type_name d)
      c.deployments

pub data Accepted : Type 0 where
  deduped forwarded_ok : Accepted

-- The message and the bot that it goes to.
unfoldable pub prepare :
    Cockpit → String → String → User → Connection → Http (Row × NormalizedMessage)
unfolding parse_payload find_consuming_deployment
prepare c type_name body user conn = do
  message ← parse_payload c body conn.api_key
  bot ← or_error 404 (find_consuming_deployment c user.id type_name)
  ok (bot, message)

-- `if nonce and is_nonce_seen(nonce)`
unfoldable pub seen_before : String → ℕ → NonceStore → Bool × NonceStore
unfolding is_nonce_seen
seen_before nonce now nonces =
    if is_empty nonce then (false, nonces) else is_nonce_seen nonce now nonces

-- `if nonce: record_nonce(nonce)`
unfoldable pub remember : String → ℕ → NonceStore → NonceStore
unfolding record_nonce
remember nonce now nonces = if is_empty nonce then nonces else record_nonce nonce now nonces

unfoldable pub forward_and_record :
    Cockpit → Clock → String → Row × NormalizedMessage → World → Http Accepted × World
unfolding remember
forward_and_record c t nonce message w =
    let sent : World = record w { forwarded = message ∷ w.forwarded } in
    if c.forward message.0 message.1
    then (ok forwarded_ok, record sent { nonces = remember nonce t.recorded_at w.nonces })
    else (http_error 502, sent)

-- The request after its signature check. The nonce header of the type is "svix-id".
unfoldable pub handle_verified :
    Cockpit → Clock → String → Request → User × Connection → World → Http Accepted × World
unfolding seen_before prepare forward_and_record
handle_verified c t type_name r found w =
    let (known, nonces) = seen_before r.svix_id t.looked_up_at w.nonces in
    let looked : World = record w { nonces = nonces } in
    if known then (ok deduped, looked) else elim (prepare c type_name r.body found.0 found.1) [
      | http_error status ↦ (http_error status, looked)
      | ok message ↦ forward_and_record c t r.svix_id message looked
    ]

unfoldable pub webhook_ingest :
    Cockpit → Clock → String → String → Request → World → Http Accepted × World
unfolding read_capped_body resolve_webhook handle_verified
webhook_ingest c t slug type_name r w = elim (read_capped_body r) [
  | http_error status ↦ (http_error status, w)
  | ok body ↦
      let (resolved, nonces) = resolve_webhook c t.verified_at slug type_name r w.nonces in
      let checked : World = record w { nonces = nonces } in
      elim resolved [
        | http_error status ↦ (http_error status, checked)
        | ok found ↦ handle_verified c t type_name r found checked
      ]
]

pub record Arrival : Type 0 where
  pub clock : Clock
  pub slug : String
  pub type_name : String
  pub request : Request

unfoldable pub ingest : Cockpit → Arrival → World → Http Accepted × World
unfolding webhook_ingest
ingest c a w = webhook_ingest c a.clock a.slug a.type_name a.request w

-- The world after the requests, one after the other.
unfoldable pub ingest_all : Cockpit → List Arrival → World → World
unfolding ingest
ingest_all c [] w = w
ingest_all c (a ∷ arrivals) w = ingest_all c arrivals (ingest c a w).1
