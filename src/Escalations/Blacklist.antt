-- ===== src/Escalations/Blacklist.antt =====
-- Whom `add_to_blacklist` blacklists, and what it records.
use mathlib.Core.Bool.{or-false, or-true}
use meetkai.Common.{
  ◌≡◌, refl, sym, subst, ap, ◌∙◌, ◌⊎◌, inl, inr, String, Bool, true, false, ◌||◌, Option, none,
  some, List, [], ◌∷◌, ◌++◌, any, arith, Bool-cases, Option-cases, str_eq, eq_iff, eq_refl,
}
use meetkai.Common.Text.{is_empty, strip, append}
use meetkai.Common.Dict.{lookup, lookup-put_self}
use meetkai.Escalations.{Escalation, low, add}
use meetkai.Escalations.Resolved.{escalations-save_locked}
use meetkai.Escalations.State.{
  Settings, Surroundings, EscalationState, Reply, no_contact, other_contact, contact_blacklisted,
  blacklist_not_configured, resolve_chat_id, add_to_blacklist, blacklisted, extend_blacklist,
  record_escalation, new_escalation,
}

abbrev pub is_listed : String → Option (List String) → Bool
is_listed k none = false
is_listed k (some bl) = any (str_eq k) bl

any-append : (p : String → Bool) (xs ys : List String) → any p (xs ++ ys) ≡ (any p xs || any p ys)
any-append p [] ys = refl
any-append p (x ∷ xs) ys = ground (arith, any-append p xs ys)

-- Extending the blacklist lists one more contact, and keeps the others.
pub is_listed-extend :
    (k contact : String) (bl : List String)
    → is_listed k (some (extend_blacklist contact bl)) ≡ (is_listed k (some bl) || str_eq k contact)
unfolding extend_blacklist
is_listed-extend k contact bl = elim (Bool-cases (any (str_eq contact) bl)) [
  | inl there ↦ rw there (elim (Bool-cases (str_eq k contact)) [
    | inl same ↦
        let listed : any (str_eq k) bl ≡ true = rw ((eq_iff k contact).0 same) there in
        rw (same, listed) refl
    | inr other ↦ rw (other, or-false) refl
  ])
  | inr new ↦ rw (new, any-append) (rw or-false refl)
]

abbrev pub is_refusal : Reply → Bool
is_refusal no_contact = true
is_refusal blacklist_not_configured = true
is_refusal (other_contact explicit current) = true
is_refusal _ = false

-- What is left of a call: a refusal that changes nothing, or the blacklisting of one contact.
add_to_blacklist-cases :
    (c : Settings) (env : Surroundings) (contact_id : String) (s : EscalationState)
    → (((add_to_blacklist c env contact_id s).1 ≡ s)
        × (is_refusal (add_to_blacklist c env contact_id s).0 ≡ true))
      ⊎ ((contact : String) × (add_to_blacklist c env contact_id s ≡ blacklisted c env contact s)
          × ((is_empty (resolve_chat_id c none) ≡ true) ⊎ (contact ≡ resolve_chat_id c none)))
unfolding add_to_blacklist
add_to_blacklist-cases c env contact_id s =
    let current = resolve_chat_id c none in
    elim (Bool-cases (is_empty (strip contact_id))) [
      | inl implied ↦
          rw (implied, add_to_blacklist)
            (elim (Bool-cases (is_empty current)) [
              | inl nobody ↦ rw nobody (inl (refl, refl))
              | inr known ↦ rw known (inr (current, refl, inr refl))
            ])
      | inr explicit ↦
          rw (explicit, add_to_blacklist)
            (elim (Bool-cases (is_empty current)) [
              | inl nobody ↦ rw (nobody, explicit) (inr (strip contact_id, refl, inl refl))
              | inr known ↦ elim (Bool-cases (str_eq (strip contact_id) current)) [
                | inl same ↦
                    rw (known, explicit, same)
                      (inr
                        (strip contact_id, refl, inr ((eq_iff (strip contact_id) current).0 same)))
                | inr other ↦ rw (known, explicit, other) (inl (refl, refl))
              ]
            ])
    ]

blacklist-record :
    (c : Settings) (env : Surroundings) (e : Escalation) (s : EscalationState)
    → (record_escalation c env e s).blacklist ≡ s.blacklist
unfolding record_escalation
blacklist-record c env e s = elim (Option-cases c.on_escalation) [
  | inl silent ↦ rw silent refl
  | inr (handler, h) ↦ rw h refl
]

is_listed-blacklisted :
    (c : Settings) (env : Surroundings) (contact k : String) (s : EscalationState)
    → (is_listed k (blacklisted c env contact s).1.blacklist ≡ is_listed k s.blacklist)
      ⊎ (is_listed k (blacklisted c env contact s).1.blacklist
          ≡ (is_listed k s.blacklist || str_eq k contact))
unfolding blacklisted
is_listed-blacklisted c env contact k s = elim (Option-cases s.blacklist) [
  | inl missing ↦ rw (missing, blacklisted) (inl (ap (is_listed k) missing))
  | inr (bl, h) ↦ rw (h, blacklisted) (inr (rw (blacklist-record) (is_listed-extend k contact bl)))
]

record-stored :
    (c : Settings) (env : Surroundings) (e : Escalation) (s : EscalationState)
    → lookup e.id (record_escalation c env e s).store.escalations ≡ some e
unfolding record_escalation add
record-stored c env e s = elim (Option-cases c.on_escalation) [
  | inl silent ↦ rw (silent, escalations-save_locked) (lookup-put_self e.id e _)
  | inr (handler, h) ↦ rw (h, escalations-save_locked) (lookup-put_self e.id e _)
]

abbrev blacklist_entry : Settings → Surroundings → String → Escalation
blacklist_entry c env contact =
    new_escalation c env contact "contact blacklisted" low
      (append "Contact " (append contact " blacklisted by the model."))

-- An answer that a contact is blacklisted is true: the contact is on the blacklist then, and the
-- store holds an open escalation of the owner about it, whether or not the callback raises. Any
-- other answer leaves everything as it was.
pub add_to_blacklist_lem :
    (c : Settings) (env : Surroundings) (contact_id : String) (s : EscalationState)
    → ((is_refusal (add_to_blacklist c env contact_id s).0 ≡ true)
        × ((add_to_blacklist c env contact_id s).1 ≡ s))
      ⊎ ((contact : String) × ((add_to_blacklist c env contact_id s).0
            ≡ contact_blacklisted contact)
          × (is_listed contact (add_to_blacklist c env contact_id s).1.blacklist ≡ true)
          × ((e : Escalation) × (lookup env.new_id
                  (add_to_blacklist c env contact_id s).1.store.escalations
                ≡ some e)
              × (e.chat_id ≡ contact)
              × (e.user_id ≡ c.owner_slug)
              × (e.resolved ≡ false)))
unfolding blacklisted new_escalation
add_to_blacklist_lem c env contact_id s = elim (add_to_blacklist-cases c env contact_id s) [
  | inl (same, refused) ↦ inl (refused, same)
  | inr (contact, e, whose) ↦ elim (Option-cases s.blacklist) [
    | inl missing ↦ inl (rw (e, missing) (refl, refl))
    | inr (bl, h) ↦ inr (
      contact,
      rw (e, h) refl,
      rw (e, h) (rw (blacklist-record, is_listed-extend, eq_refl, or-true) refl),
      (
        blacklist_entry c env contact,
        rw (e, h) (record-stored c env (blacklist_entry c env contact) _),
        refl,
        refl,
        refl,
      ),
    )
  ]
]

contact_inj : {a b : String} → contact_blacklisted a ≡ contact_blacklisted b → a ≡ b
contact_inj h = cc

-- In a chat, the tool blacklists the contact of this chat or nobody, whatever contact the model
-- names: who is on the blacklist after the call was on it before, or is that contact; and whoever
-- was on it still is.
pub add_to_blacklist_only_current :
    (c : Settings) (env : Surroundings) (contact_id k : String) (s : EscalationState)
    → is_empty (resolve_chat_id c none) ≡ false
    → let after = is_listed k (add_to_blacklist c env contact_id s).1.blacklist in
      (after ≡ true → (is_listed k s.blacklist ≡ true) ⊎ (k ≡ resolve_chat_id c none))
      × (is_listed k s.blacklist ≡ true → after ≡ true)
add_to_blacklist_only_current c env contact_id k s known =
    elim (add_to_blacklist-cases c env contact_id s) [
      | inl (same, refused) ↦ rw same (λ h. inl h, λ h. h)
      | inr (contact, e, whose) ↦
          let current = resolve_chat_id c none in
          let target : contact ≡ current = elim whose [
            | inl nobody ↦ absurd (cc (rw known at nobody))
            | inr is_current ↦ is_current
          ] in
          rw e (elim (is_listed-blacklisted c env contact k s) [
            | inl kept ↦ rw kept (λ h. inl h, λ h. h)
            | inr grown ↦ rw grown (
              (λ h. elim (Bool-cases (is_listed k s.blacklist)) [
                | inl before ↦ inl before
                | inr new ↦ inr ((eq_iff k contact).0 (rw new at h) ∙ target)
              ]),
              λ h. rw h refl,
            )
          ])
    ]

-- The contact of an answer that a contact is blacklisted is on the blacklist then.
pub add_to_blacklist-listed :
    (c : Settings) (env : Surroundings) (contact_id contact : String) (s : EscalationState)
    → (add_to_blacklist c env contact_id s).0 ≡ contact_blacklisted contact
    → is_listed contact (add_to_blacklist c env contact_id s).1.blacklist ≡ true
add_to_blacklist-listed c env contact_id contact s answer =
    elim (add_to_blacklist_lem c env contact_id s) [
      | inl (refused, same) ↦ absurd (cc (rw answer at refused))
      | inr (other, answered, listed, stored) ↦
          let same : other ≡ contact = contact_inj (sym answered ∙ answer) in
          subst (λ k. is_listed k (add_to_blacklist c env contact_id s).1.blacklist ≡ true) same
            listed
    ]
