-- ===== src/Email/Sends.antt =====
-- Which mails the bot sends.
use meetkai.Common.{
  ◌≡◌, arith, refl, ap, inl, inr, ◌⊎◌, String, Bool, true, false, some, List, [], ◌∷◌, Bool-cases,
  str_eq, eq_iff,
}
use meetkai.Common.Text.{is_empty, strip}
use meetkai.Common.Try.{Try, returned, raised, Try-cases}
use meetkai.Webhooks.Resend.{NormalizedMessage}
use meetkai.Email.Address.{valid_recipient, is_blacklisted}
use meetkai.Email.{
  text, Bot, World, Mail, ChatResult, or_blank, send_mail, send_reply, reply_mail, must_reply,
  sent_via_tool, carry_out, process_inbound_email, ingest_event, succeeded, fresh_mail,
}
use meetkai.Email.Operator.{Deed, TellResult, is_none, record_message}

-- Why a mail is not sent: sending is off, the recipient is no address, or the server refuses it.
abbrev pub Refuses : Bot → Mail → Type 0
Refuses bot mail =
    (bot.smtp_enabled ≡ false) ⊎ (valid_recipient mail.to ≡ false) ⊎ (bot.deliver mail ≡ raised)

-- A mail that is sent was accepted by the server for a valid recipient, and is the only one; a send
-- that raises sends nothing.
abbrev pub Delivers : Bot → Mail → World → Try (Unit {0}) × World → Type 0
Delivers bot mail w after =
    ((after.0 ≡ raised) × (after.1 ≡ w) × Refuses bot mail)
    ⊎ ((after.0 ≡ returned tt)
        × (after.1 ≡ record w { outbox = mail ∷ w.outbox })
        × (bot.deliver mail ≡ returned tt)
        × (valid_recipient mail.to ≡ true)
        × (bot.smtp_enabled ≡ true))

send_mail-Delivers :
    (bot : Bot) (mail : Mail) (w : World) → Delivers bot mail w (send_mail bot mail w)
unfolding send_mail
send_mail-Delivers bot mail w = elim (Bool-cases bot.smtp_enabled) [
  | inr disabled ↦ rw (disabled, send_mail) (inl (refl, refl, inl refl))
  | inl enabled ↦ elim (Bool-cases (valid_recipient mail.to)) [
    | inr invalid ↦ rw (enabled, invalid, send_mail) (inl (refl, refl, inr (inl refl)))
    | inl valid ↦ elim (Try-cases (bot.deliver mail)) [
      | inl fails ↦ rw (enabled, valid, fails, send_mail) (inl (refl, refl, inr (inr refl)))
      | inr (done, e) ↦ rw (enabled, valid, e, send_mail) (inr (refl, refl, refl, refl, refl))
    ]
  ]
]

-- The turn asks for a reply with a text, and has not mailed the sender with its tool.
abbrev pub IsDue : ChatResult → String → Type 0
IsDue result source =
    (result.action.action ≡ "reply")
    × (is_empty (or_blank result.action.text) ≡ false)
    × (sent_via_tool result source ≡ false)

must_reply-cases :
    (result : ChatResult) (source : String)
    → ((must_reply result source ≡ false) × ¬ IsDue result source)
      ⊎ ((must_reply result source ≡ true) × IsDue result source)
unfolding must_reply
must_reply-cases result source =
    let asks = eq_iff result.action.action "reply" in
    elim (Bool-cases (str_eq result.action.action "reply")) [
      | inr other ↦ inl (
        rw (other, must_reply) refl,
        λ (h : IsDue result source). absurd (ground (arith, asks.1 h.0, other)),
      )
      | inl reply ↦ elim (Bool-cases (is_empty (or_blank result.action.text))) [
        | inl blank ↦ inl (
          rw (reply, blank, must_reply) refl,
          λ (h : IsDue result source). absurd (ground (arith, h.1, blank)),
        )
        | inr given ↦ elim (Bool-cases (sent_via_tool result source)) [
          | inl sent ↦ inl (
            rw (reply, given, sent, must_reply) refl,
            λ (h : IsDue result source). absurd (ground (arith, h.2, sent)),
          )
          | inr unsent ↦
              inr (rw (reply, given, unsent, must_reply) refl, (asks.0 reply, given, unsent))
        ]
      ]
    ]

-- What becomes of a turn's result: no mail is due, and the event is accepted; or the reply is due,
-- and it is sent to the sender, or nothing is and the event fails.
abbrev pub Answers : Bot → NormalizedMessage → ChatResult → World → Bool × World → Type 0
Answers bot event result w after =
    let mail =
      reply_mail bot event.source event.subject (or_blank result.action.text) event.message_id
        event.text in
    (¬ IsDue result event.source × (after ≡ (true, w)))
    ⊎ (IsDue result event.source × (after ≡ (false, w)) × Refuses bot mail)
    ⊎ (IsDue result event.source
        × (after ≡ (true, record w { outbox = mail ∷ w.outbox }))
        × (bot.deliver mail ≡ returned tt)
        × (valid_recipient event.source ≡ true))

abbrev finish : Try (Unit {0}) × World → Bool × World
finish after = (succeeded after.0, after.1)

carry_out-Answers :
    (bot : Bot) (event : NormalizedMessage) (result : ChatResult) (w : World)
    → Answers bot event result w (finish (carry_out bot event result w))
unfolding carry_out send_reply reply_mail
carry_out-Answers bot event result w = elim (must_reply-cases result event.source) [
  | inl (quiet, undue) ↦ rw (quiet, carry_out) (inl (undue, refl))
  | inr (due, is_due) ↦
      let mail =
        reply_mail bot event.source event.subject (or_blank result.action.text) event.message_id
          event.text in
      rw (due, carry_out)
        (inr (elim (send_mail-Delivers bot mail w) [
          | inl (fails, same, why) ↦ inl (is_due, rw (send_reply, fails, same) refl, why)
          | inr (sent, grown, taken, valid, enabled) ↦
              inr (is_due, rw (send_reply, sent, grown) refl, taken, valid)
        ]))
]

module _ (bot : Bot) (event : NormalizedMessage) (w : World) where
  -- The turn with the images, the videos and the text that the attachments' tags are put before.
  abbrev turn_of : List String × List String × String → Try ChatResult × World
  turn_of files = bot.chat files.2 files.0 files.1 event.source w

process_inbound_email_lem :
    (bot : Bot) (event : NormalizedMessage) (result : ChatResult) (w w' : World)
    (files : List String × List String × String)
    → bot.download event.text event.attachments ≡ returned files
    → turn_of bot event w files ≡ (returned result, w')
    → process_inbound_email bot event w ≡ carry_out bot event result w'
unfolding process_inbound_email
process_inbound_email_lem bot event result w w' files loaded turn =
    rw (loaded, process_inbound_email)
      (ap
        (λ (t : Try ChatResult × World). elim t.0 [
          | raised ↦ (raised, t.1)
          | returned r ↦ carry_out bot event r t.1
        ])
        turn)

-- An inbound email of a sender who is not blacklisted, whose attachments load and whose turn returns:
-- after the turn, which may itself send mails with its tools, the bot sends at most one mail. A reply
-- is due if the action asks for one with a text and no `send_email` call of the turn to the sender is
-- recorded as successful. If none is due, nothing changes and the event is accepted. If one is due,
-- either the server takes it, threaded, to the sender, who is a valid address, and the event is
-- accepted; or sending is off, the sender is no valid address or the server refuses the mail, nothing
-- changes, and the event is not accepted.
pub ingest_event-Answers :
    (bot : Bot) (event : NormalizedMessage) (result : ChatResult) (w w' : World)
    (files : List String × List String × String)
    → event.event ≡ "email.inbound"
    → is_blacklisted w.blacklist event.source ≡ false
    → bot.download event.text event.attachments ≡ returned files
    → turn_of bot event w files ≡ (returned result, w')
    → Answers bot event result w' (ingest_event bot event w)
unfolding ingest_event
ingest_event-Answers bot event result w w' files inbound allowed loaded turn =
    let is_inbound : str_eq event.event "email.inbound" ≡ true =
      (eq_iff event.event "email.inbound").1 inbound in
    rw
      (
        is_inbound,
        allowed,
        ingest_event,
        process_inbound_email_lem bot event result w w' files loaded turn,
      )
      (carry_out-Answers bot event result w')

abbrev pub reply_deed : Bool → String → String → Deed
reply_deed sent target out_text = record {
  tool = "send_reply";
  ok = sent;
  target = some (text target);
  text = some (text out_text);
}

-- Why a reply to an instruction is not sent.
abbrev pub Unsent : Bot → ChatResult → String → String → Type 0
Unsent bot result target out_text =
    (is_empty target ≡ true)
    ⊎ (is_empty out_text ≡ true)
    ⊎ ((sent_via_tool result target ≡ false) × Refuses bot (fresh_mail bot target "" out_text))

-- How a reply to an instruction is reported, sent and recorded.
abbrev pub Reports : Bot → ChatResult → World → TellResult × World → Type 0
Reports bot result w after =
    let target = strip (or_blank result.action.target) in
    let out_text = or_blank result.action.text in
    ((after.0.actions ≡ reply_deed false target out_text ∷ [])
      × (after.0.ok ≡ false)
      × (after.1 ≡ w)
      × Unsent bot result target out_text)
    ⊎ ((after.0.actions ≡ reply_deed true target out_text ∷ [])
        × (is_empty target ≡ false)
        × (is_empty out_text ≡ false)
        × (sent_via_tool result target ≡ true)
        × (after.0.ok ≡ is_none result.error)
        × (after.1 ≡ record_message target out_text w))
    ⊎ ((after.0.actions ≡ reply_deed true target out_text ∷ [])
        × (is_empty target ≡ false)
        × (is_empty out_text ≡ false)
        × (sent_via_tool result target ≡ false)
        × (bot.deliver (fresh_mail bot target "" out_text) ≡ returned tt)
        × (after.0.ok ≡ is_none result.error)
        × (after.1
            ≡ record_message target out_text
                (record w { outbox = fresh_mail bot target "" out_text ∷ w.outbox })))
