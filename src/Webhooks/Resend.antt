-- ===== src/Webhooks/Resend.antt =====
-- The Resend provider of `src/kai/cockpit/connections/webhooks.py`: the check of a request's
-- signature, and the message made of its payload. HMAC and base64, `int`, the HTTP client and the
-- stripping of HTML are arguments.
use meetkai.Common.{
  ℕ, ◌*◌, String, Bool, true, false, not, ◌||◌, Option, none, some, List, [], ◌∷◌, ◌==◌, str_eq,
  if◌then◌else◌,
}
use meetkai.Common.Text.{is_empty, append, starts_with, drop_chars, split_words, compare_digest}
use meetkai.Common.Try.{Try, returned, raised, ◌>>=◌}
use meetkai.Webhooks.Nonces.{NonceStore, check_freshness}

-- `strip_whsec_prefix`
unfoldable pub strip_whsec_prefix : String → String
strip_whsec_prefix secret = if starts_with "whsec_" secret then drop_chars 6 secret else secret

-- `mac key text` is the base64 text of the HMAC-SHA256 under the base64 key; it raises for a key that
-- is not base64. `seconds` is `int`: a negative number, which is far from any time, counts as 0.
pub record Signing : Type 0 where
  pub mac : String → String → Try String
  pub seconds : String → Try ℕ

unfoldable pub sign_resend : Signing → String → String → String → String → Try String
unfolding strip_whsec_prefix
sign_resend g svix_id svix_timestamp body secret = do
  mac ←
      g.mac (strip_whsec_prefix secret)
        (append svix_id (append "." (append svix_timestamp (append "." body))))
  returned (append "v1," mac)

-- The headers, "" for one that is missing.
pub record Request : Type 0 where
  pub content_length : String
  pub svix_id : String
  pub svix_timestamp : String
  pub svix_signature : String
  pub body : String

abbrev strip_version : String → String
strip_version cand = if starts_with "v1," cand then drop_chars 3 cand else cand

-- The loop over the candidates; comparing one that is not ASCII raises TypeError.
unfoldable pub any_matches : String → List String → Try Bool
unfolding compare_digest
any_matches expected_mac [] = returned false
any_matches expected_mac (cand ∷ cands) =
    let rest = any_matches expected_mac cands in
    elim (compare_digest (strip_version cand) expected_mac) [
      | raised ↦ raised
      | returned same ↦ if same then returned true else rest
    ]

-- The comparison with the signature that the secret gives; one that cannot be made is False.
unfoldable pub signature_matches : Signing → Request → String → Try Bool
unfolding sign_resend any_matches split_words
signature_matches g r secret = elim (sign_resend g r.svix_id r.svix_timestamp r.body secret) [
  | raised ↦ returned false
  | returned expected ↦ any_matches (drop_chars 3 expected) (split_words r.svix_signature)
]

unfoldable pub verify_resend : Signing → ℕ → Request → String → NonceStore → Try Bool × NonceStore
unfolding signature_matches check_freshness
verify_resend g now r secret nonces =
    if is_empty r.svix_id || (is_empty r.svix_timestamp || is_empty r.svix_signature)
    then (returned false, nonces)
    else elim (g.seconds r.svix_timestamp) [
      | raised ↦ (returned false, nonces)
      | returned ts ↦
          let (fresh, nonces') = check_freshness (some (ts * 1000000)) none now nonces in
          (if fresh then signature_matches g r secret else returned false, nonces')
    ]

-- What parsing ends with: WebhookUpstreamError is told apart from other exceptions.
pub data Parsed {ℓ} (A : Type ℓ) : Type ℓ where
  parsed : A → Parsed A
  upstream_error other_error : Parsed A

infixl 4 ◌>>>◌
abbrev pub ◌>>>◌ {ℓ κ} : {A : Type ℓ} {B : Type κ} → Parsed A → (A → Parsed B) → Parsed B
parsed a >>> f = f a
upstream_error >>> f = upstream_error
other_error >>> f = other_error

-- An answer of the API: its status, and its body if it is JSON of the documented shape.
pub record Answer {ℓ} (A : Type ℓ) : Type ℓ where
  pub status : ℕ
  pub json : Try A

abbrev json_of {ℓ} : {A : Type ℓ} → Try A → Parsed A
json_of raised = other_error
json_of (returned a) = parsed a

-- The text and the HTML of an email, "" for one that is missing.
pub record ResendEmail : Type 0 where
  pub text : String
  pub html : String

pub record Attachment : Type 0 where
  pub url : String
  pub content_type : String
  pub filename : String

-- `raised` is httpx.HTTPError.
pub record Api : Type 0 where
  pub get_email : String → String → Try (Answer ResendEmail)
  pub get_attachments : String → String → Try (Answer (List Attachment))
  pub plain_text : String → String

-- `fetch_resend_email` and `fetch_resend_attachments`, for what the client answers
unfoldable pub fetched {ℓ} : {A : Type ℓ} → Try (Answer A) → Parsed A
fetched raised = upstream_error
fetched (returned answer) = if answer.status == 200 then json_of answer.json else upstream_error

unfoldable pub extract_email_body : (String → String) → ResendEmail → String
extract_email_body plain_text email =
    if not (is_empty email.text)
    then email.text
    else if not (is_empty email.html)
    then plain_text email.html
    else ""

-- A payload; `attachments` says whether its list of attachments is non-empty.
pub record Payload : Type 0 where
  pub event_type : String
  pub source : Option String
  pub email_id : Option String
  pub message_id : String
  pub subject : String
  pub recipients : List String
  pub attachments : Bool

pub record NormalizedMessage : Type 0 where
  pub source : String
  pub text : String
  pub message_id : String
  pub subject : String
  pub recipients : List String
  pub attachments : List Attachment
  pub event : String

-- `data[key]`
abbrev required : Option String → Parsed String
required none = other_error
required (some s) = parsed s

abbrev or_blank : Option String → String
or_blank none = ""
or_blank (some s) = s

unfoldable pub parse_resend : Api → String → Payload → Parsed NormalizedMessage
unfolding fetched extract_email_body
parse_resend api api_key p =
    if not (str_eq p.event_type "email.received")
    then parsed (record {
      source = or_blank p.source;
      text = "";
      message_id = "";
      subject = "";
      recipients = [];
      attachments = [];
      event = p.event_type;
    })
    else (required p.email_id >>> λ email_id. fetched (api.get_email email_id api_key) >>> λ email.
        (if p.attachments then fetched (api.get_attachments email_id api_key) else parsed [])
        >>> λ files. required p.source >>> λ source. parsed (record {
          source = source;
          text = extract_email_body api.plain_text email;
          message_id = p.message_id;
          subject = p.subject;
          recipients = p.recipients;
          attachments = files;
          event = "email.inbound";
        }))
