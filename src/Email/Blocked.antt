-- ===== src/Email/Blocked.antt =====
-- Whose mail the bot ignores.
use Prim.Native.Char.{code}
use mathlib.Core.Bool.{and-false, or-false, or-true}
use meetkai.Common.{
  ℕ, ◌+◌, ◌≡◌, refl, subst, ap, ◌∙◌, inl, inr, String, Bool, true, false, not, ◌&&◌, ◌||◌, some,
  List, [], ◌∷◌, map, any, arith, Bool-cases, leb, str_eq, eq_iff, if◌then◌else◌,
}
use meetkai.Common.Text.{is_empty, is_space, strip, lstrip, rstrip, lower_codes, same_codes}
use meetkai.Webhooks.Resend.{NormalizedMessage}
use meetkai.Escalations.State.{
  Settings, Surroundings, EscalationState, contact_blacklisted, add_to_blacklist,
}
use meetkai.Escalations.Blacklist.{is_listed, add_to_blacklist-listed}
use meetkai.Email.{Bot, World, ingest_event}
use meetkai.Email.Address.{
  lstrip_codes, rstrip_codes, strip_codes, no_codes, is_in, identifiers,
  should_process_chat_message, is_blacklisted, has_codes,
}

is_space-lower : (c : ℕ) → is_space (if leb 65 c && leb c 90 then c + 32 else c) ≡ is_space c
unfolding is_space
is_space-lower c = ground arith

no_codes-lower : (s : String) → no_codes (lower_codes s) ≡ is_empty s
no_codes-lower String.[] = refl
no_codes-lower (String.◌∷◌ c s) = refl

lstrip-lower : (s : String) → lstrip_codes (lower_codes s) ≡ lower_codes (lstrip s)
unfolding lstrip_codes lstrip
lstrip-lower String.[] = refl
lstrip-lower (String.◌∷◌ c s) = elim (Bool-cases (is_space (code c))) [
  | inl space ↦ rw (is_space-lower (code c), space) (lstrip-lower s)
  | inr other ↦ rw (is_space-lower (code c), other) refl
]

rstrip-lower : (s : String) → rstrip_codes (lower_codes s) ≡ lower_codes (rstrip s)
unfolding rstrip_codes rstrip
rstrip-lower String.[] = refl
rstrip-lower (String.◌∷◌ c s) =
    rw (rstrip-lower s, no_codes-lower (rstrip s), is_space-lower (code c))
      (elim (Bool-cases (is_empty (rstrip s) && is_space (code c))) [
        | inl gone ↦ rw gone refl
        | inr kept ↦ rw kept refl
      ])

rstrip_twice : (s : String) → rstrip (rstrip s) ≡ rstrip s
unfolding rstrip
rstrip_twice String.[] = refl
rstrip_twice (String.◌∷◌ c s) = elim (Bool-cases (is_empty (rstrip s) && is_space (code c))) [
  | inl gone ↦ rw gone refl
  | inr kept ↦ rw kept (rw (rstrip_twice s, kept) refl)
]

-- What `lstrip` gives starts with no space.
abbrev StartsUnspaced : String → Type 0
StartsUnspaced String.[] = Unit
StartsUnspaced (String.◌∷◌ c s) = is_space (code c) ≡ false

lstrip-StartsUnspaced : (s : String) → StartsUnspaced (lstrip s)
unfolding lstrip
lstrip-StartsUnspaced String.[] = tt
lstrip-StartsUnspaced (String.◌∷◌ c s) = elim (Bool-cases (is_space (code c))) [
  | inl space ↦ rw space (lstrip-StartsUnspaced s)
  | inr other ↦ rw other other
]

lstrip-rstrip : (s : String) → StartsUnspaced s → lstrip (rstrip s) ≡ rstrip s
unfolding lstrip rstrip
lstrip-rstrip String.[] h = refl
lstrip-rstrip (String.◌∷◌ c s) h = rw (h, and-false) (rw h refl)

strip_twice : (s : String) → strip (strip s) ≡ strip s
unfolding strip
strip_twice s =
    ap rstrip (lstrip-rstrip (lstrip s) (lstrip-StartsUnspaced s)) ∙ rstrip_twice (lstrip s)

strip-lower : (s : String) → strip_codes (lower_codes s) ≡ lower_codes (strip s)
unfolding strip_codes strip
strip-lower s = ap rstrip_codes (lstrip-lower s) ∙ rstrip-lower (lstrip s)

is_in-lower :
    (sender : List ℕ) (entries : List String)
    → is_in (map lower_codes entries) sender ≡ any (λ e. same_codes sender (lower_codes e)) entries
is_in-lower sender [] = refl
is_in-lower sender (e ∷ entries) =
    ap (λ b. same_codes sender (lower_codes e) || b) (is_in-lower sender entries)

either_way :
    (sender : List ℕ) (texts : List (List ℕ))
    → any (is_in texts) (identifiers sender sender) ≡ is_in texts sender
either_way sender texts =
    elim (Bool-cases (has_codes (lower_codes "@g.us") sender && not (no_codes sender))) [
      | inl group ↦ rw group (ground arith)
      | inr single ↦ rw single (or-false (is_in texts sender))
    ]

refuses : (b : Bool) → not (if b then false else true) ≡ b
refuses true = refl
refuses false = refl

-- A sender is blocked exactly if the address is blank, or it is on the blacklist up to case and the
-- spaces around it.
pub is_blacklisted_lem :
    (entries : List String) (source : String)
    → is_blacklisted entries source ≡ (
        is_empty (strip source)
        || any (λ e. same_codes (lower_codes (strip source)) (lower_codes e)) entries)
unfolding is_blacklisted should_process_chat_message
is_blacklisted_lem entries source =
    let sender = lower_codes (strip source) in
    let kept : strip_codes sender ≡ sender =
      strip-lower (strip source) ∙ ap lower_codes (strip_twice source) in
    rw (kept, either_way, is_in-lower, no_codes-lower (strip source))
      (elim (Bool-cases (is_empty (strip source))) [
        | inl blank ↦ rw blank refl
        | inr given ↦ rw given (refuses (any (λ e. same_codes sender (lower_codes e)) entries))
      ])

any-listed :
    (sender : List ℕ) (contact : String) (entries : List String)
    → any (str_eq contact) entries ≡ true
    → same_codes sender (lower_codes contact) ≡ true
    → any (λ e. same_codes sender (lower_codes e)) entries ≡ true
any-listed sender contact [] h same = cc
any-listed sender contact (e ∷ entries) h same = elim (Bool-cases (str_eq contact e)) [
  | inl here ↦
      let this : same_codes sender (lower_codes e) ≡ true = rw (← (eq_iff contact e).0 here) same in
      rw this refl
  | inr later ↦ rw (any-listed sender contact entries (rw later at h) same, or-true) refl
]

-- A contact whom the model blacklists is ignored from then on, if the recorded contact has no spaces
-- around it, which the tool does not strip from the current one: once the tool has answered that it
-- blacklisted such a contact, on the list that the bot reads, an email whose sender is this contact, up
-- to case and to spaces around the sender, changes nothing: no turn runs, and no mail is sent.
pub add_to_blacklist-ignored :
    (c : Settings) (env : Surroundings) (contact_id contact : String) (s : EscalationState)
    (entries : List String) (bot : Bot) (event : NormalizedMessage) (w : World)
    → (add_to_blacklist c env contact_id s).0 ≡ contact_blacklisted contact
    → (add_to_blacklist c env contact_id s).1.blacklist ≡ some entries
    → w.blacklist ≡ entries
    → strip contact ≡ contact
    → same_codes (lower_codes (strip event.source)) (lower_codes (strip contact)) ≡ true
    → (ingest_event bot event w).1 ≡ w
unfolding ingest_event
add_to_blacklist-ignored c env contact_id contact s entries bot event w answer list shared bare
      like =
    let same : same_codes (lower_codes (strip event.source)) (lower_codes contact) ≡ true =
      subst (λ c. same_codes (lower_codes (strip event.source)) (lower_codes c) ≡ true) bare like in
    let listed : any (str_eq contact) entries ≡ true =
      subst (λ l. is_listed contact l ≡ true) list
        (add_to_blacklist-listed c env contact_id contact s answer) in
    let blocked : is_blacklisted w.blacklist event.source ≡ true =
      rw (shared, is_blacklisted_lem, any-listed _ contact entries listed same, or-true) refl in
    elim (Bool-cases (str_eq event.event "email.inbound")) [
      | inl inbound ↦ rw (inbound, blocked, ingest_event) refl
      | inr other ↦ rw (other, ingest_event) refl
    ]
