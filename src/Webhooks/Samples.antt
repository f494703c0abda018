-- ===== src/Webhooks/Samples.antt =====
-- Examples: a cockpit with one workspace, its Resend connection and a running email bot, and a signed
-- delivery of the event type "email.bounced".
use meetkai.Common.{
  ℕ, ◌*◌, ◌+◌, ◌≤◌, ◌<◌, ◌≡◌, refl, String, Bool, true, false, Option, none, some, List, [], ◌∷◌,
  All, length, arith,
}
use meetkai.Common.Try.{returned, raised}
use meetkai.Common.Http.{ok}
use meetkai.Webhooks.Nonces.Bounds.{
  Use, freshness, lookup_nonce, record_of, use_all, IsBounded, use_all-IsBounded,
}
use meetkai.Webhooks.Resend.{Request, Payload}
use meetkai.Webhooks.Ingress.{
  Cockpit, Clock, World, Arrival, ingest, ingest_all, forwarded_ok, webhook_ingest,
}
use meetkai.Webhooks.Ingress.Once.{webhook_ingest-forwards_once}
use meetkai.Webhooks.Ingress.Genuine.{Sends, IsGenuine, webhook_ingest-IsGenuine}

abbrev bounce : Payload
bounce = record {
  event_type = "email.bounced";
  source = some "a@x.org";
  email_id = none;
  message_id = "";
  subject = "";
  recipients = [];
  attachments = false;
}

abbrev cockpit : Cockpit
cockpit = record {
  signing = record { mac = λ key text. returned key; seconds = λ text. returned 1000 };
  api = record {
    get_email = λ id key. raised;
    get_attachments = λ id key. raised;
    plain_text = λ html. html;
  };
  json_loads = λ text. returned bounce;
  empty_payload = bounce;
  users = record { id = 1; kai_slug = "acme" } ∷ [];
  connections =
      record { user_id = 1; service = "resend"; signing_secret = "whsec_k"; api_key = "r" } ∷ [];
  deployments = record { id = 7; user_id = 1; status = "running"; bot_type = "email" } ∷ [];
  bot_types =
      (
        "email",
        record { required_connections = "resend" ∷ "smtp" ∷ []; supported_connections = [] },
      )
      ∷ [];
  forward = λ bot message. true;
}

abbrev request : Request
request = record {
  content_length = "2";
  svix_id = "msg_1";
  svix_timestamp = "1000";
  svix_signature = "v1,x v1,k";
  body = "{}";
}

abbrev clock : ℕ → Clock
clock s = record {
  verified_at = s * 1000000;
  looked_up_at = s * 1000000;
  recorded_at = s * 1000000;
}

abbrev arrival : ℕ → String → Arrival
arrival s id = record {
  clock = clock s;
  slug = "acme";
  type_name = "resend";
  request = record request { svix_id = id };
}

abbrev world : World
world = record { nonces = []; forwarded = [] }

forwarded_first : (ingest cockpit (arrival 1000 "msg_1") world).0 ≡ ok forwarded_ok
unfolding ingest meetkai.Common.Dict.contains
forwarded_first = refl

webhook_ingest-forwards_once_example :
    let w' =
      ingest_all cockpit
        (arrival 1010 "msg_2" ∷ [])
        (ingest cockpit (arrival 1000 "msg_1") world).1 in
    (ingest cockpit (arrival 1020 "msg_1") w').1.forwarded ≡ w'.forwarded
webhook_ingest-forwards_once_example =
    webhook_ingest-forwards_once cockpit (arrival 1000 "msg_1") (arrival 1020 "msg_1")
      (arrival 1010 "msg_2" ∷ []) world forwarded_first refl
      (((omega arith, omega arith), (omega arith, omega arith), (omega arith, omega arith)), tt)
      ((omega arith, omega arith), (omega arith, omega arith), (omega arith, omega arith))
      (omega arith)

webhook_ingest-IsGenuine_example :
    Sends cockpit
      (IsGenuine cockpit "acme" "resend" request)
      world
      (webhook_ingest cockpit (clock 1000) "acme" "resend" request world).1
webhook_ingest-IsGenuine_example =
    webhook_ingest-IsGenuine cockpit (clock 1000) "acme" "resend" request world

abbrev uses : List Use
uses =
    record_of "msg_1" 1000000000
    ∷ freshness (some 1000000000) none 1001000000
    ∷ lookup_nonce "msg_1" 1002000000
    ∷ []

use_all-IsBounded_example : IsBounded (use_all uses (("msg_0", 999000000) ∷ []))
use_all-IsBounded_example = use_all-IsBounded uses (("msg_0", 999000000) ∷ []) (omega arith)
