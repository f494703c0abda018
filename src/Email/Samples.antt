-- ===== src/Email/Samples.antt =====
-- Examples: a bot whose turns answer "hello", an inbound email with an image, and an instruction.
use meetkai.Common.{◌*◌, ◌≡◌, refl, true, false, none, some, [], ◌∷◌, length}
use meetkai.Common.Try.{returned}
use meetkai.Webhooks.Resend.{NormalizedMessage, Attachment}
use meetkai.Escalations.Samples.{settings, surroundings, state}
use meetkai.Email.{Bot, World, ChatResult, ingest_event}
use meetkai.Email.Address.{is_blacklisted}
use meetkai.Escalations.State.{add_to_blacklist}
use meetkai.Email.Attachments.{Net, Media, process_attachments}
use meetkai.Email.Attachments.Guarded.{IsSafe, process_attachments-IsSafe}
use meetkai.Email.Sends.{Answers, ingest_event-Answers}
use meetkai.Email.Blocked.{add_to_blacklist-ignored}

abbrev hello : ChatResult
hello = record {
  action = record { action = "reply"; text = some "hello"; target = some "b@x.org" };
  tool_calls = [];
  error = none;
}

abbrev bot : Bot
bot = record {
  display_name = "kAI";
  from_address = "kai@x.org";
  smtp_enabled = true;
  deliver = λ mail. returned tt;
  post_process = λ text. text;
  today = "today";
  download = λ text atts. returned ([], [], text);
  chat = λ text images videos id w. (returned hello, w);
  operator_turn = none;
}

abbrev world : World
world = record { outbox = []; blacklist = "b@x.org" ∷ "a@x.org" ∷ []; recorded = [] }

abbrev event : NormalizedMessage
event = record {
  source = "c@x.org";
  text = "hi";
  message_id = "m1";
  subject = "";
  recipients = [];
  attachments = [];
  event = "email.inbound";
}

ingest_event-Answers_example : Answers bot event hello world (ingest_event bot event world)
unfolding is_blacklisted
ingest_event-Answers_example =
    ingest_event-Answers bot event hello world world ([], [], "hi") refl refl refl refl

abbrev from_blacklisted : NormalizedMessage
from_blacklisted = record event { source = " A@x.org" }

add_to_blacklist-ignored_example : (ingest_event bot from_blacklisted world).1 ≡ world
unfolding add_to_blacklist
add_to_blacklist-ignored_example =
    add_to_blacklist-ignored settings surroundings "" "a@x.org" state ("b@x.org" ∷ "a@x.org" ∷ [])
      bot from_blacklisted world refl refl refl refl refl

-- A net with one public host.
abbrev net : Net
net = record {
  getaddrinfo = λ host. returned ("9.9.9.9" ∷ []);
  is_global = λ address. returned true;
  urlparse = λ url. returned ("https", some "cdn.x.org");
  urljoin = λ base location. returned location;
  get = λ url. returned (record {
    peer_address = some "9.9.9.9";
    is_redirect = false;
    location = none;
    is_error = false;
    chunks = "ab" ∷ "c" ∷ [];
  });
}

abbrev media : Media
media = record { vision_enabled = true; video_enabled = false; max_attachment_bytes = 3 }

abbrev image : Attachment
image = record { url = "https://cdn.x.org/i"; content_type = "image/png"; filename = "i.png" }

process_attachments-IsSafe_example :
    IsSafe net 3 (4 * length (image ∷ [])) (process_attachments net media "hi" (image ∷ [])).1
process_attachments-IsSafe_example = process_attachments-IsSafe net media "hi" (image ∷ [])
