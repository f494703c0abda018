-- ===== src/Csrf/Checked.antt =====
-- Which requests reach the application.
use meetkai.Common.{
  ◌≡◌, refl, sym, ap, subst, ◌∙◌, inl, inr, ◌⊎◌, String, true, false, ◌&&◌, Option, none, some,
  Bool-cases, Option-cases, str_eq, eq_iff, eq_refl,
}
use meetkai.Common.Try.{returned, Try-cases}
use meetkai.Common.Text.{is_empty, is_ascii, compare_digest}
use meetkai.Csrf.{
  Request, Session, Source, to_app, transport, replayed, is_safe_method, is_exempt, header_token,
  read_body, matches, submitted_token, handle_unsafe, handle_safe, minted, call,
}

-- The token of the request is the session's, which is not empty. A header gives the token, and the
-- body is left on the transport; or the form does, and the body that was read for it is replayed.
abbrev pub IsChecked : Request → Session → Source → Type 0
IsChecked r session source =
    (token : String) × (session ≡ some token)
    × (is_empty token ≡ false)
    × (((header_token r.headers ≡ some token) × (source ≡ transport))
        ⊎ ((header_token r.headers ≡ none)
            × (r.form_field (read_body r.messages) ≡ some token)
            × (source ≡ replayed (read_body r.messages))))

matches-same :
    (session submitted : Option String)
    → matches session submitted ≡ returned true
    → (token : String) × (session ≡ some token)
      × (is_empty token ≡ false)
      × (submitted ≡ some token)
unfolding matches compare_digest
matches-same none none = λ h. absurd (cc)
matches-same none (some s) = λ h. absurd (cc)
matches-same (some e) none = λ h. absurd (cc)
matches-same (some e) (some s) = elim (Bool-cases (is_empty e)) [
  | inl blank ↦ rw (blank, matches) (λ h. absurd (cc))
  | inr given ↦ elim (Bool-cases (is_ascii e && is_ascii s)) [
    | inr odd ↦ rw (given, odd, matches) (λ h. absurd (cc))
    | inl plain ↦ elim (Bool-cases (str_eq e s)) [
      | inr other ↦ rw (given, plain, other, matches) (λ h. absurd (cc))
      | inl same ↦ λ h. (e, refl, given, ap some (sym ((eq_iff e s).0 same)))
    ]
  ]
]

-- Where the token comes from, and what becomes of the body then.
submitted-cases :
    (r : Request) (token : String)
    → (submitted_token r).0 ≡ some token
    → ((header_token r.headers ≡ some token) × ((submitted_token r).1 ≡ transport))
      ⊎ ((header_token r.headers ≡ none)
          × (r.form_field (read_body r.messages) ≡ some token)
          × ((submitted_token r).1 ≡ replayed (read_body r.messages)))
unfolding submitted_token
submitted-cases r token = elim (Option-cases (header_token r.headers)) [
  | inl missing ↦ rw (missing, submitted_token) (λ h. inr (refl, h, refl))
  | inr (sent, e) ↦ rw (e, submitted_token) (λ h. inl (h, refl))
]

to_app_inj : {t u : Option String} {s s' : Source} → to_app t s ≡ to_app u s' → s ≡ s'
to_app_inj h = cc

-- A request of a method that is not safe, outside of the machine routes, reaches the application only
-- with the session's token: in its header, and then the body is still on the transport; or, without
-- such a header, in its form, and then the whole body, which was read for it, is replayed.
pub handle_unsafe-IsChecked :
    (r : Request) (session token : Option String) (source : Source)
    → is_exempt r.path ≡ false
    → handle_unsafe r session ≡ to_app token source
    → IsChecked r session source
unfolding handle_unsafe
handle_unsafe-IsChecked r session token source guarded =
    elim (Try-cases (matches session (submitted_token r).0)) [
      | inl fails ↦ rw (guarded, fails, handle_unsafe) (λ h. absurd (cc))
      | inr (same, e) ↦ elim (Bool-cases same) [
        | inr other ↦ rw (guarded, e, other, handle_unsafe) (λ h. absurd (cc))
        | inl equal ↦
            rw (guarded, e, equal, handle_unsafe)
              (λ h.
                let of : (submitted_token r).1 ≡ source = to_app_inj h in
                let (given, own, kept, sent) =
                  matches-same session (submitted_token r).0 (rw equal at e) in
                (
                  given,
                  own,
                  kept,
                  subst
                      (λ s.
                        ((header_token r.headers ≡ some given) × (s ≡ transport))
                        ⊎ ((header_token r.headers ≡ none)
                            × (r.form_field (read_body r.messages) ≡ some given)
                            × (s ≡ replayed (read_body r.messages))))
                      of (submitted-cases r given sent),
                ))
      ]
    ]

some_token_inj : {t u : String} {s s' : Source} → to_app (some t) s ≡ to_app (some u) s' → t ≡ u
some_token_inj h = cc

minted-given :
    (fresh : String) (session : Session)
    → is_empty fresh ≡ false
    → is_empty (minted fresh session) ≡ false
minted-given fresh none given = given
minted-given fresh (some token) given = elim (Bool-cases (is_empty token)) [
  | inl blank ↦ rw blank given
  | inr kept ↦ rw kept kept
]

matches_self :
    (token : String)
    → is_empty token ≡ false
    → is_ascii token ≡ true
    → matches (some token) (some token) ≡ returned true
unfolding matches compare_digest
matches_self token given plain = rw (given, plain, eq_refl) refl

form_accepted :
    (token : String) (form : Request)
    → is_empty token ≡ false
    → is_ascii token ≡ true
    → header_token form.headers ≡ some token
    → handle_unsafe form (some token) ≡ to_app (some token) transport
unfolding handle_unsafe submitted_token
form_accepted token form kept plain sent =
    let taken : submitted_token form ≡ (some token, transport) = rw (submitted_token, sent) refl in
    let source : (submitted_token form).1 ≡ transport = ap (λ p. p.1) taken in
    elim (Bool-cases (is_exempt form.path)) [
      | inl machine ↦ rw (machine, handle_unsafe) refl
      | inr guarded ↦ rw (guarded, handle_unsafe, taken, matches_self token kept plain, source) refl
    ]

-- The token that a page was rendered with is accepted: a safe request leaves in the session the token
-- that it gives to the page, and a later request with this token in its header reaches the
-- application.
pub call-accepts_token :
    (fresh later token : String) (page form : Request) (session : Session)
    → is_safe_method page.method ≡ true
    → is_safe_method form.method ≡ false
    → is_empty fresh ≡ false
    → (call fresh page session).0 ≡ to_app (some token) transport
    → is_ascii token ≡ true
    → header_token form.headers ≡ some token
    → (call later form (call fresh page session).1).0 ≡ to_app (some token) transport
unfolding call handle_safe
call-accepts_token fresh later token page form session safe unsafe given shown plain sent =
    let first : call fresh page session ≡ handle_safe fresh session = rw (safe, call) refl in
    let own : minted fresh session ≡ token = some_token_inj (sym (ap (λ c. c.0) first) ∙ shown) in
    let kept : is_empty token ≡ false =
      subst (λ t. is_empty t ≡ false) own (minted-given fresh session given) in
    let left : (call fresh page session).1 ≡ some token = ap (λ c. c.1) first ∙ ap some own in
    subst (λ s. (call later form s).0 ≡ to_app (some token) transport) (sym left)
      (rw (unsafe, call) (form_accepted token form kept plain sent))
