-- ===== src/Escalations/State.antt =====
-- `EscalationState` of `src/kai/agent/tools/escalate.py`: the tools `escalate` and
-- `add_to_blacklist`, and the forwarding to the cockpit. The callback and the HTTP client are
-- arguments.
use meetkai.Common.{
  ℕ, String, Bool, false, not, ◌&&◌, Option, none, some, List, [], ◌∷◌, ◌++◌, any, leb, ◌==◌,
  str_eq, if◌then◌else◌,
}
use meetkai.Common.Text.{is_empty, strip, append}
use meetkai.Common.Try.{Try, returned, raised}
use meetkai.Calendar.{Datetime}
use meetkai.Escalations.{Escalation, EscalationDict, EscalationStore, Severity, low, add, to_dict}

-- `chat_id` is that of the tool context, if there is one. `on_escalation` may raise.
pub record Settings : Type 0 where
  pub chat_id : Option String
  pub owner_slug : String
  pub cockpit_url : String
  pub cockpit_escalation_secret : String
  pub on_escalation : Option (Escalation → Try (Unit {0}))

-- What a call reads from outside.
pub record Surroundings : Type 0 where
  pub new_id : String
  pub now : Datetime
  pub writable : Bool

-- `told` lists the escalations that the callback was called with.
pub record EscalationState : Type 0 where
  pub store : EscalationStore
  pub blacklist : Option (List String)
  pub told : List Escalation

abbrev non_empty_or : String → String → String
non_empty_or s t = if is_empty s then t else s

abbrev current_chat : Settings → String
current_chat c = elim c.chat_id [ none ↦ "" | some chat ↦ chat ]

unfoldable pub resolve_chat_id : Settings → Option String → String
unfolding strip
resolve_chat_id c none = current_chat c
resolve_chat_id c (some override) = non_empty_or (strip override) (current_chat c)

-- `record`: what the callback raises is logged.
unfoldable pub record_escalation :
    Settings → Surroundings → Escalation → EscalationState → EscalationState
record_escalation c env e s =
    let added = record s { store = add env.writable e s.store } in
    elim c.on_escalation [ none ↦ added | some handler ↦ record added { told = s.told ++ e ∷ [] } ]

unfoldable pub new_escalation :
    Settings → Surroundings → String → String → Severity → String → Escalation
new_escalation c env chat reason severity summary = record {
  id = env.new_id;
  chat_id = chat;
  conversation_id = chat;
  reason = reason;
  severity = severity;
  summary = summary;
  user_id = c.owner_slug;
  created_at = env.now;
  resolved = false;
  resolved_at = none;
  resolved_by = none;
}

-- The reply texts are values.
pub data Reply : Type 0 where
  escalation_recorded : Severity → String → Reply
  contact_blacklisted : String → Reply
  no_contact blacklist_not_configured : Reply
  other_contact : String → String → Reply

unfoldable pub escalate :
    Settings → Surroundings → String → Severity → String → EscalationState → Reply × EscalationState
unfolding resolve_chat_id record_escalation new_escalation
escalate c env reason severity summary s =
    let chat = resolve_chat_id c none in
    (
      escalation_recorded severity reason,
      record_escalation c env (new_escalation c env chat reason severity summary) s,
    )

-- `if resolved not in bl: bl.append(resolved)`
unfoldable pub extend_blacklist : String → List String → List String
extend_blacklist contact bl = if any (str_eq contact) bl then bl else bl ++ contact ∷ []

unfoldable pub blacklisted :
    Settings → Surroundings → String → EscalationState → Reply × EscalationState
unfolding extend_blacklist record_escalation new_escalation
blacklisted c env contact s = elim s.blacklist [
  | none ↦ (blacklist_not_configured, s)
  | some bl ↦ (
    contact_blacklisted contact,
    record_escalation c env
        (new_escalation c env contact "contact blacklisted" low
          (append "Contact " (append contact " blacklisted by the model.")))
        (record s { blacklist = some (extend_blacklist contact bl) }),
  )
]

unfoldable pub add_to_blacklist :
    Settings → Surroundings → String → EscalationState → Reply × EscalationState
unfolding resolve_chat_id blacklisted strip
add_to_blacklist c env contact_id s =
    let explicit = strip contact_id in
    let current = resolve_chat_id c none in
    let contact = non_empty_or explicit current in
    if is_empty contact
    then (no_contact, s)
    else if not (is_empty explicit) && (not (is_empty current) && not (str_eq explicit current))
    then (other_contact explicit current, s)
    else blacklisted c env contact s

-- A POST of an escalation, as the HTTP client is given it.
pub record Post : Type 0 where
  pub endpoint : String
  pub authorization : Option String
  pub body : EscalationDict

pub data Forwarding : Type 0 where
  not_configured accepted rejected failed unreachable : Forwarding

abbrev outcome_of : Try ℕ → Forwarding
outcome_of raised = unreachable
outcome_of (returned status) =
    if status == 401 then rejected else if leb 400 status then failed else accepted

-- The request that is sent, if one is, and what is logged.
unfoldable pub forward_to_cockpit :
    Settings → (Post → Try ℕ) → Escalation → Option Post × Forwarding
forward_to_cockpit c post e =
    let request : Post = record {
      endpoint = append c.cockpit_url "/api/escalations";
      authorization =
          if is_empty c.cockpit_escalation_secret
          then none
          else some (append "Bearer " c.cockpit_escalation_secret);
      body = to_dict e;
    } in
    if is_empty c.cockpit_url
    then (none, not_configured)
    else (some request, outcome_of (post request))
