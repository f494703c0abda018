-- ===== src/Email/Attachments.antt =====
-- `src/kai/bots/email/attachments.py`: the download of attachments. DNS, the parsing and joining of
-- URLs and the HTTP client are arguments. Bytes are the characters of a text.
pub mod Guarded
use meetkai.Common.{
  ℕ, zero, suc, ◌+◌, String, Bool, true, false, not, ◌&&◌, ◌||◌, Option, none, some, List, [], ◌∷◌,
  ◌++◌, ltb, str_eq, if◌then◌else◌,
}
use meetkai.Common.Text.{is_empty, append, char_count, starts_with}
use meetkai.Common.Dict.{Dict, lookup, put}
use meetkai.Common.Try.{Try, returned, raised}
use meetkai.Webhooks.Resend.{Attachment}

-- A response whose body has not been read. `peer_address` is that of the socket, if it is known.
pub record Response : Type 0 where
  pub peer_address : Option String
  pub is_redirect : Bool
  pub location : Option String
  pub is_error : Bool
  pub chunks : List String

-- `getaddrinfo` raises OSError, and here also for the time-out. `is_global` raises ValueError.
-- `urlparse` gives the scheme and the host, and may raise, as `urljoin` and the client may.
pub record Net : Type 0 where
  pub getaddrinfo : String → Try (List String)
  pub is_global : String → Try Bool
  pub urlparse : String → Try (String × Option String)
  pub urljoin : String → String → Try String
  pub get : String → Try Response

abbrev or_false : Try Bool → Bool
or_false raised = false
or_false (returned b) = b

abbrev all_global : Net → List String → Bool
all_global net [] = true
all_global net (address ∷ addresses) = or_false (net.is_global address) && all_global net addresses

abbrev some_global : Net → List String → Bool
some_global net [] = false
some_global net (address ∷ addresses) = all_global net (address ∷ addresses)

unfoldable pub host_is_public : Net → String → Bool
host_is_public net host = elim (net.getaddrinfo host) [
  | raised ↦ false
  | returned infos ↦ some_global net infos
]

-- Whether the host is allowed, and the cache that knows it.
unfoldable pub host_allowed : Net → String → Dict Bool → Bool × Dict Bool
unfolding host_is_public
host_allowed net host cache = elim (lookup host cache) [
  | some allowed ↦ (allowed, cache)
  | none ↦ let allowed = host_is_public net host in (allowed, put host allowed cache)
]

-- `parsed.hostname`, for a URL of scheme https
abbrev pub https_host : String × Option String → Option String
https_host (scheme, none) = none
https_host (scheme, some host) =
    if not (str_eq scheme "https") || is_empty host then none else some host

unfoldable pub validate_fetch_url : Net → String → Dict Bool → Try Bool × Dict Bool
unfolding host_allowed
validate_fetch_url net url cache = elim (net.urlparse url) [
  | raised ↦ (raised, cache)
  | returned parsed ↦ elim (https_host parsed) [
    | none ↦ (returned false, cache)
    | some host ↦ let (allowed, cache') = host_allowed net host cache in (returned allowed, cache')
  ]
]

unfoldable pub peer_is_public : Net → Response → Bool
peer_is_public net resp = elim resp.peer_address [
  | none ↦ false
  | some address ↦ if is_empty address then false else or_false (net.is_global address)
]

-- The chunks so far are `total` bytes.
unfoldable pub read_capped : ℕ → ℕ → List String → Option String
read_capped max_bytes total [] = some ""
read_capped max_bytes total (chunk ∷ chunks) =
    let rest = read_capped max_bytes (total + char_count chunk) chunks in
    if ltb max_bytes (total + char_count chunk)
    then none
    else elim rest [ none ↦ none | some body ↦ some (append chunk body) ]

unfoldable pub read_capped_body : ℕ → Response → Option String
unfolding read_capped
read_capped_body max_bytes resp = read_capped max_bytes 0 resp.chunks

-- What a request leads to: the end, with or without a body, another URL, or an exception.
pub data Step : Type 0 where
  failed : Step
  ended : Option String → Step
  redirected : String → Step

abbrev pub redirect_to : Net → String → Option String → Step
redirect_to net current none = ended none
redirect_to net current (some location) =
    if is_empty location
    then ended none
    else elim (net.urljoin current location) [ raised ↦ failed | returned next ↦ redirected next ]

unfoldable pub handle_response : Net → ℕ → String → Response → Step
unfolding peer_is_public read_capped_body
handle_response net max_bytes current resp =
    if not (peer_is_public net resp)
    then ended none
    else if resp.is_redirect
    then redirect_to net current resp.location
    else if resp.is_error
    then failed
    else ended (read_capped_body max_bytes resp)

unfoldable pub step_of : Net → ℕ → String → Step
unfolding handle_response
step_of net max_bytes current = elim (net.get current) [
  | raised ↦ failed
  | returned resp ↦ handle_response net max_bytes current resp
]

-- `except Exception`: the handler parses the URL again for its message, which may raise again.
unfoldable pub on_exception : Net → String → Try (Option String)
on_exception net current = elim (net.urlparse current) [
  | raised ↦ raised
  | returned parsed ↦ returned none
]

-- The rounds of the loop, of which `left` are left: the body, or an exception of the handler, and the
-- URLs that were requested.
unfoldable pub download : Net → ℕ → ℕ → String → Dict Bool → Try (Option String) × List String
unfolding validate_fetch_url step_of on_exception
download net max_bytes zero current cache = (returned none, [])
download net max_bytes (suc left) current cache =
    let (valid, cache') = validate_fetch_url net current cache in
    elim valid [
      | raised ↦ (on_exception net current, [])
      | returned false ↦ (returned none, [])
      | returned true ↦ elim (step_of net max_bytes current) [
        | failed ↦ (on_exception net current, current ∷ [])
        | ended body ↦ (returned body, current ∷ [])
        | redirected next ↦
            let (body, urls) = download net max_bytes left next cache' in (body, current ∷ urls)
      ]
    ]

abbrev pub max_redirects : ℕ
max_redirects = 3

unfoldable pub download_attachment : Net → String → ℕ → Try (Option String) × List String
unfolding download
download_attachment net url max_bytes = download net max_bytes (max_redirects + 1) url []

pub record Media : Type 0 where
  pub vision_enabled : Bool
  pub video_enabled : Bool
  pub max_attachment_bytes : ℕ

-- `if img_bytes`
abbrev pub non_empty : Option String → Option String
non_empty none = none
non_empty (some b) = if is_empty b then none else some b

-- The images, the videos, the text, and the URLs that were requested.
pub record Collected : Type 0 where
  pub images : List String
  pub videos : List String
  pub enriched : String
  pub requested : List String

abbrev tagged : String → String → String
tagged tag enriched = if is_empty enriched then tag else append tag (append "\n" enriched)

abbrev bracketed : String → String → String
bracketed label filename = append label (append filename "]")

abbrev pub add_image : String → Option String → Collected → Collected
add_image filename none c = record c {
  enriched = tagged (bracketed "[image attachment failed to download: " filename) c.enriched;
}
add_image filename (some b) c = record c {
  images = c.images ++ b ∷ [];
  enriched = tagged (bracketed "[image attached: " filename) c.enriched;
}

abbrev pub add_video : String → Option String → Collected → Collected
add_video filename none c = record c {
  enriched = tagged (bracketed "[video attachment failed to download: " filename) c.enriched;
}
add_video filename (some b) c = record c {
  videos = c.videos ++ b ∷ [];
  enriched = tagged (bracketed "[video attached: " filename) c.enriched;
}

abbrev pub add_tag : Attachment → Collected → Collected
add_tag att c = record c {
  enriched =
      tagged
        (append "[attachment: " (append att.filename (append " (" (append att.content_type ")]"))))
        c.enriched;
}

-- `download_attachment` with what is done with its body, and the URLs added to those requested.
unfoldable pub fetch_into :
    Net
    → String
    → ℕ
    → (Option String → Collected → Collected)
    → Collected
    → Try (Unit {0}) × Collected
unfolding download_attachment
fetch_into net url max_bytes add c =
    let (body, urls) = download_attachment net url max_bytes in
    let asked : Collected = record c { requested = c.requested ++ urls } in
    elim body [ raised ↦ (raised, asked) | returned b ↦ (returned tt, add (non_empty b) asked) ]

-- One round of the loop, with what is collected when it raises.
unfoldable pub process_one : Net → Media → Attachment → Collected → Try (Unit {0}) × Collected
unfolding fetch_into
process_one net m att c =
    if starts_with "image/" att.content_type && m.vision_enabled
    then fetch_into net att.url m.max_attachment_bytes (add_image att.filename) c
    else if starts_with "video/" att.content_type && m.video_enabled
    then fetch_into net att.url m.max_attachment_bytes (add_video att.filename) c
    else (returned tt, add_tag att c)

-- The loop; an exception leaves it, and with it the function.
unfoldable pub process_all : Net → Media → List Attachment → Collected → Try (Unit {0}) × Collected
unfolding process_one
process_all net m [] c = (returned tt, c)
process_all net m (att ∷ atts) c =
    let (done, c') = process_one net m att c in
    let rest = process_all net m atts c' in elim done [ raised ↦ (raised, c') | returned u ↦ rest ]

unfoldable pub process_attachments :
    Net → Media → String → List Attachment → Try (Unit {0}) × Collected
unfolding process_all
process_attachments net m text atts =
    process_all net m atts (record { images = []; videos = []; enriched = text; requested = [] })
