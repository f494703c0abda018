-- ===== src/Email/Attachments/Guarded.antt =====
-- What the download of attachments may request, and how much it keeps.
use mathlib.Core.Option.{some_inj}
use meetkai.Common.{
  ℕ, zero, suc, ◌+◌, ◌*◌, ◌≤◌, ◌≡◌, refl, sym, subst, ◌∙◌, inl, inr, String, Bool, true, ◌&&◌,
  Option, none, some, List, [], ◌∷◌, ◌++◌, All, All-append, arith, Bool-cases, Option-cases, ltb,
  str_eq, eq_iff,
}
use meetkai.Common.Lists.{length, length-append}
use meetkai.Common.Text.{is_empty, append, char_count, starts_with}
use meetkai.Common.Dict.{Dict, lookup, lookup-put}
use meetkai.Common.Try.{Try, raised, returned, Try-cases}
use meetkai.Webhooks.Resend.{Attachment}
use meetkai.Email.Attachments.{
  Net, Response, Media, Collected, Step, ended, redirected, failed, host_is_public, host_allowed,
  validate_fetch_url, read_capped, read_capped_body, handle_response, download, download_attachment,
  process_one, process_all, process_attachments, redirect_to, peer_is_public, https_host,
  on_exception, fetch_into, step_of, add_image, add_video, non_empty,
}

-- A body that is kept is no longer than the limit, and is the whole body of a response that a public
-- address gave.
abbrev pub IsKept : Net → ℕ → String → Type 0
IsKept net limit body =
    (char_count body ≤ limit)
    × ((url : String) × (resp : Response) × (net.get url ≡ returned resp)
        × (peer_is_public net resp ≡ true)
        × (read_capped_body limit resp ≡ some body))

abbrev pub IsWithin : Net → ℕ → Option String → Type 0
IsWithin net limit none = Unit
IsWithin net limit (some body) = IsKept net limit body

-- The same for a download that may raise.
abbrev pub EndsKept : Net → ℕ → Try (Option String) → Type 0
EndsKept net limit raised = Unit
EndsKept net limit (returned body) = IsWithin net limit body

-- The URL is https, and all addresses of its host are global.
abbrev pub IsPublic : Net → String → Type 0
IsPublic net url =
    (host : String) × ((parsed : String × Option String) × (net.urlparse url ≡ returned parsed)
      × (https_host parsed ≡ some host))
    × (host_is_public net host ≡ true)

-- What the cache says of a host is what a lookup of it says.
abbrev IsTrueCache : Net → Dict Bool → Type 0
IsTrueCache net cache =
    (host : String) (b : Bool) → lookup host cache ≡ some b → host_is_public net host ≡ b

host_allowed_lem :
    (net : Net) (host : String) (cache : Dict Bool)
    → IsTrueCache net cache
    → ((host_allowed net host cache).0 ≡ host_is_public net host)
      × IsTrueCache net (host_allowed net host cache).1
unfolding host_allowed
host_allowed_lem net host cache known = elim (Option-cases (lookup host cache)) [
  | inr (b, found) ↦ rw (found, host_allowed) (sym (known host b found), known)
  | inl missing ↦
      rw (missing, host_allowed)
        (
          refl,
          λ other b. rw lookup-put (elim (Bool-cases (str_eq host other)) [
            | inl same ↦ rw (same, ← (eq_iff host other).0 same) (λ h. some_inj.0 h)
            | inr different ↦ rw different (known other b)
          ]),
        )
]

char_count-append : (s t : String) → char_count (append s t) ≡ char_count s + char_count t
char_count-append String.[] t = omega arith
char_count-append (String.◌∷◌ c s) t = omega (arith, char_count-append s t)

abbrev Fits : ℕ → ℕ → Option String → Type 0
Fits limit total none = Unit
Fits limit total (some body) = total + char_count body ≤ limit

read_capped-Fits :
    (limit total : ℕ) (chunks : List String)
    → total ≤ limit
    → Fits limit total (read_capped limit total chunks)
unfolding read_capped
read_capped-Fits limit total [] small = omega (arith, small)
read_capped-Fits limit total (chunk ∷ chunks) small =
    elim (Bool-cases (ltb limit (total + char_count chunk))) [
      | inl over ↦ rw over tt
      | inr within ↦
          let fits = read_capped-Fits limit (total + char_count chunk) chunks (ground arith) in
          rw within (elim (Option-cases (read_capped limit (total + char_count chunk) chunks)) [
            | inl cut ↦ rw cut tt
            | inr (body, e) ↦
                let long : total + char_count chunk + char_count body ≤ limit = rw e at fits in
                rw e (omega (arith, char_count-append chunk body, long))
          ])
    ]

read_capped_body-IsWithin :
    (net : Net) (limit : ℕ) (url : String) (resp : Response)
    → net.get url ≡ returned resp
    → peer_is_public net resp ≡ true
    → IsWithin net limit (read_capped_body limit resp)
unfolding read_capped_body
read_capped_body-IsWithin net limit url resp got public =
    let fits = read_capped-Fits limit 0 resp.chunks (omega arith) in
    elim (Option-cases (read_capped limit 0 resp.chunks)) [
      | inl cut ↦ rw cut tt
      | inr (body, e) ↦
          let small : 0 + char_count body ≤ limit = rw e at fits in
          rw e (omega (arith, small), (url, resp, got, public, e))
    ]

-- A step that ends has a body within the limit, if it has one.
abbrev EndsWithin : Net → ℕ → Step → Type 0
EndsWithin net limit failed = Unit
EndsWithin net limit (ended body) = IsWithin net limit body
EndsWithin net limit (redirected next) = Unit

redirect-EndsWithin :
    (net : Net) (limit : ℕ) (current : String) (location : Option String)
    → EndsWithin net limit (redirect_to net current location)
redirect-EndsWithin net limit current none = tt
redirect-EndsWithin net limit current (some location) = elim (Bool-cases (is_empty location)) [
  | inl blank ↦ rw blank tt
  | inr given ↦ rw given (elim (Try-cases (net.urljoin current location)) [
    | inl fails ↦ rw fails tt
    | inr (next, e) ↦ rw e tt
  ])
]

handle-EndsWithin :
    (net : Net) (limit : ℕ) (current : String) (resp : Response)
    → net.get current ≡ returned resp
    → EndsWithin net limit (handle_response net limit current resp)
unfolding handle_response
handle-EndsWithin net limit current resp got = elim (Bool-cases (peer_is_public net resp)) [
  | inr inside ↦ rw (inside, handle_response) tt
  | inl outside ↦ elim (Bool-cases resp.is_redirect) [
    | inl moved ↦
        rw (outside, moved, handle_response) (redirect-EndsWithin net limit current resp.location)
    | inr here ↦ elim (Bool-cases resp.is_error) [
      | inl fails ↦ rw (outside, here, fails, handle_response) tt
      | inr fine ↦
          rw (outside, here, fine, handle_response)
            (read_capped_body-IsWithin net limit current resp got outside)
    ]
  ]
]

step-EndsWithin :
    (net : Net) (limit : ℕ) (current : String) → EndsWithin net limit (step_of net limit current)
unfolding step_of
step-EndsWithin net limit current = elim (Try-cases (net.get current)) [
  | inl fails ↦ rw (fails, step_of) tt
  | inr (resp, e) ↦ rw (e, step_of) (handle-EndsWithin net limit current resp e)
]

returned_inj : {a b : Bool} → returned a ≡ returned b → a ≡ b
returned_inj h = cc

valid-IsPublic :
    (net : Net) (url : String) (cache : Dict Bool)
    → IsTrueCache net cache
    → ((validate_fetch_url net url cache).0 ≡ returned true → IsPublic net url)
      × IsTrueCache net (validate_fetch_url net url cache).1
unfolding validate_fetch_url
valid-IsPublic net url cache known = elim (Try-cases (net.urlparse url)) [
  | inl fails ↦ rw (fails, validate_fetch_url) (λ h. absurd (cc), known)
  | inr (parsed, e) ↦ elim (Option-cases (https_host parsed)) [
    | inl none_such ↦ rw (e, validate_fetch_url, none_such) (λ h. absurd (cc), known)
    | inr (host, https) ↦
        let (asked, still) = host_allowed_lem net host cache known in
        rw (e, validate_fetch_url, https)
          (
            λ h.
                let allowed : (host_allowed net host cache).0 ≡ true = returned_inj h in
                (host, (parsed, refl, https), sym asked ∙ allowed),
            still,
          )
  ]
]

-- What a download gives: a body within the limit, and requests of public URLs only.
abbrev pub IsGuarded : Net → ℕ → ℕ → Try (Option String) × List String → Type 0
IsGuarded net limit most result =
    EndsKept net limit result.0 × All (IsPublic net) result.1 × (length result.1 ≤ most)

on_exception-EndsKept :
    (net : Net) (limit : ℕ) (current : String) → EndsKept net limit (on_exception net current)
unfolding on_exception
on_exception-EndsKept net limit current = elim (Try-cases (net.urlparse current)) [
  | inl fails ↦ rw (fails, on_exception) tt
  | inr (parsed, e) ↦ rw (e, on_exception) tt
]

-- What a round with a valid URL ends with, for its step.
after_step-IsGuarded :
    (net : Net) (limit left : ℕ) (current : String) (cache : Dict Bool) (s : Step)
    → IsPublic net current
    → EndsWithin net limit s
    → ((next : String) → IsGuarded net limit left (download net limit left next cache))
    → IsGuarded net limit (suc left) (elim s [
      | failed ↦ (on_exception net current, current ∷ [])
      | ended body ↦ (returned body, current ∷ [])
      | redirected next ↦
          let (body, urls) = download net limit left next cache in (body, current ∷ urls)
    ])
after_step-IsGuarded net limit left current cache failed public h later =
    (on_exception-EndsKept net limit current, (public, tt), omega arith)
after_step-IsGuarded net limit left current cache (ended body) public h later =
    (h, (public, tt), omega arith)
after_step-IsGuarded net limit left current cache (redirected next) public h later =
    let (small, others, few) = later next in (small, (public, others), omega (arith, few))

download-IsGuarded :
    (net : Net) (limit left : ℕ) (current : String) (cache : Dict Bool)
    → IsTrueCache net cache
    → IsGuarded net limit left (download net limit left current cache)
unfolding download
download-IsGuarded net limit zero current cache known = (tt, tt, omega arith)
download-IsGuarded net limit (suc left) current cache known =
    let checked = validate_fetch_url net current cache in
    let (allowed, still) = valid-IsPublic net current cache known in
    elim (Try-cases checked.0) [
      | inl fails ↦ rw (fails, download) (on_exception-EndsKept net limit current, tt, omega arith)
      | inr (valid, e) ↦ elim (Bool-cases valid) [
        | inr refused ↦ rw (e, refused, download) (tt, tt, omega arith)
        | inl fine ↦
            rw (e, fine, download)
              (after_step-IsGuarded net limit left current checked.1 (step_of net limit current)
                (allowed (rw fine at e)) (step-EndsWithin net limit current)
                (λ next. download-IsGuarded net limit left next checked.1 still))
      ]
    ]

-- A download requests at most four URLs, each https with a host whose addresses are all global, and
-- keeps a body only if it is at most as long as the limit and comes from a public address; whatever
-- the servers answer.
pub download_attachment-IsGuarded :
    (net : Net) (url : String) (limit : ℕ)
    → IsGuarded net limit 4 (download_attachment net url limit)
unfolding download_attachment lookup
download_attachment-IsGuarded net url limit = download-IsGuarded net limit 4 url [] (λ host b h. cc)

-- The media are bodies that may be kept, and the requests guarded, at most `most` of them.
abbrev pub IsSafe : Net → ℕ → ℕ → Collected → Type 0
IsSafe net limit most c =
    All (IsKept net limit) c.images
    × All (IsKept net limit) c.videos
    × All (IsPublic net) c.requested
    × (length c.requested ≤ most)

non_empty-IsWithin :
    (net : Net) (limit : ℕ) (body : Option String)
    → IsWithin net limit body
    → IsWithin net limit (non_empty body)
non_empty-IsWithin net limit none h = tt
non_empty-IsWithin net limit (some b) h = elim (Bool-cases (is_empty b)) [
  | inl blank ↦ rw blank tt
  | inr given ↦ rw given h
]

module _ (net : Net) (limit : ℕ) where
  add_image-IsSafe :
      (most : ℕ) (filename : String) (body : Option String) (c : Collected)
      → IsWithin net limit body
      → IsSafe net limit most c
      → IsSafe net limit most (add_image filename body c)
  add_image-IsSafe most filename none c small safe = safe
  add_image-IsSafe most filename (some b) c small (images, videos, public, few) =
      (All-append (IsKept net limit) c.images (b ∷ []) images (small, tt), videos, public, few)

  add_video-IsSafe :
      (most : ℕ) (filename : String) (body : Option String) (c : Collected)
      → IsWithin net limit body
      → IsSafe net limit most c
      → IsSafe net limit most (add_video filename body c)
  add_video-IsSafe most filename none c small safe = safe
  add_video-IsSafe most filename (some b) c small (images, videos, public, few) =
      (images, All-append (IsKept net limit) c.videos (b ∷ []) videos (small, tt), public, few)

-- What a body adds keeps the collection safe.
abbrev Adds : Net → ℕ → (Option String → Collected → Collected) → Type 0
Adds net limit add =
    (most : ℕ) (body : Option String) (c : Collected)
    → IsWithin net limit body
    → IsSafe net limit most c
    → IsSafe net limit most (add body c)

fetch_into-IsSafe :
    (net : Net) (url : String) (limit most : ℕ) (add : Option String → Collected → Collected)
    (c : Collected)
    → Adds net limit add
    → IsSafe net limit most c
    → IsSafe net limit (most + 4) (fetch_into net url limit add c).1
unfolding fetch_into
fetch_into-IsSafe net url limit most add c adds (images, videos, public, few) =
    let fetched = download_attachment net url limit in
    let (small, guarded, at_most) = download_attachment-IsGuarded net url limit in
    let asked : Collected = record c { requested = c.requested ++ fetched.1 } in
    let safe : IsSafe net limit (most + 4) asked = (
      images,
      videos,
      All-append (IsPublic net) c.requested fetched.1 public guarded,
      omega (arith, length-append c.requested fetched.1, few, at_most),
    ) in
    elim (Try-cases fetched.0) [
      | inl fails ↦ rw (fails, fetch_into) safe
      | inr (body, e) ↦
          let kept : EndsKept net limit (returned body) = subst (EndsKept net limit) e small in
          rw (e, fetch_into)
            (adds (most + 4) (non_empty body) asked (non_empty-IsWithin net limit body kept) safe)
    ]

process_one-IsSafe :
    (net : Net) (m : Media) (most : ℕ) (att : Attachment) (c : Collected)
    → IsSafe net m.max_attachment_bytes most c
    → IsSafe net m.max_attachment_bytes (most + 4) (process_one net m att c).1
unfolding process_one
process_one-IsSafe net m most att c (images, videos, public, few) =
    let limit = m.max_attachment_bytes in
    elim (Bool-cases (starts_with "image/" att.content_type && m.vision_enabled)) [
      | inl image ↦
          rw (image, process_one)
            (fetch_into-IsSafe net att.url limit most (add_image att.filename) c
              (λ n body d. add_image-IsSafe net limit n att.filename body d)
              (images, videos, public, few))
      | inr other ↦ elim (Bool-cases (starts_with "video/" att.content_type && m.video_enabled)) [
        | inl video ↦
            rw (other, video, process_one)
              (fetch_into-IsSafe net att.url limit most (add_video att.filename) c
                (λ n body d. add_video-IsSafe net limit n att.filename body d)
                (images, videos, public, few))
        | inr file ↦ rw (other, file, process_one) (images, videos, public, omega (arith, few))
      ]
    ]

process_all-IsSafe :
    (net : Net) (m : Media) (most : ℕ) (atts : List Attachment) (c : Collected)
    → IsSafe net m.max_attachment_bytes most c
    → IsSafe net m.max_attachment_bytes (most + 4 * length atts) (process_all net m atts c).1
unfolding process_all
process_all-IsSafe net m most [] c (images, videos, public, few) =
    (images, videos, public, omega (arith, few))
process_all-IsSafe net m most (att ∷ atts) c safe =
    let one = process_one-IsSafe net m most att c safe in
    elim (Try-cases (process_one net m att c).0) [
      | inl fails ↦
          let (images, videos, public, few) = one in
          rw (fails, process_all) (images, videos, public, omega (arith, few))
      | inr (done, e) ↦
          let (images, videos, public, few) =
            process_all-IsSafe net m (most + 4) atts (process_one net m att c).1 one in
          rw (e, process_all) (images, videos, public, omega (arith, few))
    ]

-- Of an email's attachments, each image and video that is collected, also if a download raises at
-- last, is at most as long as the limit and is the body of a response whose peer address is public, and all requests go to https URLs
-- with public hosts, at most four for each attachment.
pub process_attachments-IsSafe :
    (net : Net) (m : Media) (text : String) (atts : List Attachment)
    → IsSafe net m.max_attachment_bytes (4 * length atts) (process_attachments net m text atts).1
unfolding process_attachments
process_attachments-IsSafe net m text atts =
    let start : Collected = record { images = []; videos = []; enriched = text; requested = [] } in
    let none_yet : IsSafe net m.max_attachment_bytes 0 start = (tt, tt, tt, omega arith) in
    let (images, videos, public, few) = process_all-IsSafe net m 0 atts start none_yet in
    (images, videos, public, omega (arith, few))
