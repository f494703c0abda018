-- ===== src/Escalations/Samples.antt =====
-- Examples: two escalations of an owner, one of them resolved, and a chat whose contact is blacklisted.
use meetkai.Common.{
  ℕ, ◌≤◌, ◌≡◌, refl, inl, inr, ◌⊎◌, String, Bool, true, false, not, ◌&&◌, Option, none, some, List,
  [], ◌∷◌, All, length, if◌then◌else◌, str_eq, select, arith,
}
use meetkai.Common.Dict.{Dict, lookup}
use meetkai.Common.Try.{raised}
use meetkai.Tasks.Samples.{at_noon}
use meetkai.Escalations.{
  Escalation, EscalationStore, Resolution, resolve, active_count, list_active, low, high,
}
use meetkai.Escalations.Resolved.{
  Call, add_call, resolve_call, run_calls, resolve_lem, run_calls-resolves_once, is_open_to,
  resolved_entry,
}
use meetkai.Escalations.State.{
  Settings, Surroundings, EscalationState, add_to_blacklist, contact_blacklisted, resolve_chat_id,
}
use meetkai.Escalations.Blacklist.{
  is_listed, is_refusal, add_to_blacklist_lem, add_to_blacklist_only_current,
}

abbrev pub complaint : Escalation
complaint = record {
  id = "esc-1";
  chat_id = "a@x.org";
  conversation_id = "a@x.org";
  reason = "asks for a human";
  severity = high;
  summary = "";
  user_id = "o";
  created_at = at_noon 2;
  resolved = false;
  resolved_at = none;
  resolved_by = none;
}

abbrev settled : Escalation
settled = record complaint {
  id = "esc-2";
  created_at = at_noon 1;
  resolved = true;
  resolved_at = some (at_noon 3);
}

abbrev pub store : EscalationStore
store = record {
  has_path = true;
  escalations = ("esc-1", complaint) ∷ ("esc-2", settled) ∷ [];
  file = none;
}

abbrev by_owner : Resolution
by_owner = record {
  escalation_id = "esc-1";
  resolved_by = some "owner";
  owner_slug = some "o";
  now = at_noon 4;
  writable = true;
}

resolve_lem_example :
    let found = is_open_to (some "o") (lookup "esc-1" store.escalations) in
    let after = resolve by_owner store in
    (after.0 ≡ found)
    × (found ≡ false → after.1 ≡ store)
    × (lookup "esc-1" after.1.escalations ≡ (
        if found && str_eq "esc-1" "esc-1"
        then resolved_entry by_owner (lookup "esc-1" store.escalations)
        else lookup "esc-1" store.escalations))
resolve_lem_example = resolve_lem by_owner store "esc-1"

abbrev calls : List Call
calls =
    resolve_call by_owner
    ∷ add_call true (record complaint { id = "esc-3" })
    ∷ resolve_call (record by_owner { owner_slug = none })
    ∷ []

run_calls-resolves_once_example : (run_calls "esc-1" calls store).0 ≤ 1
run_calls-resolves_once_example = run_calls-resolves_once "esc-1" calls store (tt, (refl, (tt, tt)))

once : (run_calls "esc-1" calls store).0 ≡ 1
unfolding run_calls resolve lookup meetkai.Escalations.add meetkai.Common.Dict.put
once = refl

abbrev pub settings : Settings
settings = record {
  chat_id = some "a@x.org";
  owner_slug = "o";
  cockpit_url = "";
  cockpit_escalation_secret = "";
  on_escalation = some (λ e. raised);
}

abbrev pub surroundings : Surroundings
surroundings = record { new_id = "esc-9"; now = at_noon 5; writable = true }

abbrev pub state : EscalationState
state = record { store = store; blacklist = some ("b@x.org" ∷ []); told = [] }

add_to_blacklist_only_current_example :
    let after =
      is_listed "c@x.org" (add_to_blacklist settings surroundings " c@x.org" state).1.blacklist in
    (after ≡ true
      → (is_listed "c@x.org" state.blacklist ≡ true) ⊎ ("c@x.org" ≡ resolve_chat_id settings none))
    × (is_listed "c@x.org" state.blacklist ≡ true → after ≡ true)
unfolding resolve_chat_id
add_to_blacklist_only_current_example =
    add_to_blacklist_only_current settings surroundings " c@x.org" "c@x.org" state refl

add_to_blacklist_lem_example :
    ((is_refusal (add_to_blacklist settings surroundings "" state).0 ≡ true)
      × ((add_to_blacklist settings surroundings "" state).1 ≡ state))
    ⊎ ((contact : String) × ((add_to_blacklist settings surroundings "" state).0
          ≡ contact_blacklisted contact)
        × (is_listed contact (add_to_blacklist settings surroundings "" state).1.blacklist ≡ true)
        × ((e : Escalation) × (lookup "esc-9"
                (add_to_blacklist settings surroundings "" state).1.store.escalations
              ≡ some e)
            × (e.chat_id ≡ contact)
            × (e.user_id ≡ "o")
            × (e.resolved ≡ false)))
add_to_blacklist_lem_example = add_to_blacklist_lem settings surroundings "" state

-- The contact of the chat is blacklisted, and another one is not.
blacklists_current :
    (add_to_blacklist settings surroundings "" state).1.blacklist
    ≡ some ("b@x.org" ∷ "a@x.org" ∷ [])
unfolding add_to_blacklist
blacklists_current = refl

refuses_other :
    (add_to_blacklist settings surroundings "c@x.org" state).1.blacklist ≡ some ("b@x.org" ∷ [])
unfolding add_to_blacklist
refuses_other = refl
