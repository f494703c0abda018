-- ===== src/Escalations.antt =====
-- `src/kai/agent/tools/escalate.py`: an escalation, the store that keeps it, and in the child
-- modules the tools that record one. The store's lock is held from the first read of a method to its
-- last write, so a call is one step. `writable` says whether the file system lets the call write.
pub mod Listing
pub mod Resolved
pub mod Persistence
pub mod State
pub mod Blacklist
pub mod Samples
use meetkai.Common.{
  ℕ, suc, String, Bool, true, false, not, ◌&&◌, Option, none, some, List, [], ◌∷◌, map, select,
  str_eq, if◌then◌else◌,
}
use meetkai.Common.Dict.{Dict, lookup, put, values}
use meetkai.Common.Persisted.{load_items}
use meetkai.Common.Sort.{sort_by}
use meetkai.Calendar.{Datetime, instant}
use meetkai.Tasks.{to_iso, map_time}

pub data Severity : Type 0 where
  low medium high critical : Severity

pub record Escalation : Type 0 where
  pub id : String
  pub chat_id : String
  pub conversation_id : String
  pub reason : String
  pub severity : Severity
  pub summary : String
  pub user_id : String
  pub created_at : Datetime
  pub resolved : Bool
  pub resolved_at : Option Datetime
  pub resolved_by : Option String

-- What `to_dict` writes: `severity` is a text already, and an absent time is null.
pub record EscalationDict : Type 0 where
  pub id : String
  pub chat_id : String
  pub conversation_id : String
  pub reason : String
  pub severity : Severity
  pub summary : String
  pub user_id : String
  pub created_at : Datetime
  pub resolved : Bool
  pub resolved_at : Option Datetime
  pub resolved_by : Option String

unfoldable pub to_dict : Escalation → EscalationDict
unfolding to_iso
to_dict e = record {
  id = e.id;
  chat_id = e.chat_id;
  conversation_id = e.conversation_id;
  reason = e.reason;
  severity = e.severity;
  summary = e.summary;
  user_id = e.user_id;
  created_at = to_iso e.created_at;
  resolved = e.resolved;
  resolved_at = map_time to_iso e.resolved_at;
  resolved_by = e.resolved_by;
}

-- `from_dict` on a dict that has every key, as `to_dict` writes it.
unfoldable pub from_dict : EscalationDict → Escalation
from_dict item = record {
  id = item.id;
  chat_id = item.chat_id;
  conversation_id = item.conversation_id;
  reason = item.reason;
  severity = item.severity;
  summary = item.summary;
  user_id = item.user_id;
  created_at = item.created_at;
  resolved = item.resolved;
  resolved_at = item.resolved_at;
  resolved_by = item.resolved_by;
}

-- `file` is what the file at `_path` holds, if there is one.
pub record EscalationStore : Type 0 where
  pub has_path : Bool
  pub escalations : Dict Escalation
  pub file : Option (List EscalationDict)

unfoldable pub save_locked : Bool → EscalationStore → EscalationStore
save_locked writable s =
    if s.has_path && writable
    then record s { file = some (map to_dict (values s.escalations)) }
    else s

-- The loop of `load` over the items of a file that this store wrote.
unfoldable pub load_escalations : List EscalationDict → Dict Escalation → Dict Escalation
load_escalations = load_items (λ e. e.id) from_dict

-- `load`, as the constructor calls it on an empty store.
unfoldable pub load : EscalationStore → EscalationStore
unfolding load_escalations
load s =
    if s.has_path
    then elim s.file [
      | none ↦ s
      | some items ↦ record s { escalations = load_escalations items s.escalations }
    ]
    else s

unfoldable pub add : Bool → Escalation → EscalationStore → EscalationStore
unfolding save_locked
add writable e s = save_locked writable (record s { escalations = put e.id e s.escalations })

-- `owner_slug is not None and esc.user_id != owner_slug`
unfoldable pub owned_by_other : Option String → Escalation → Bool
owned_by_other none e = false
owned_by_other (some owner) e = not (str_eq e.user_id owner)

-- `model_copy(update=...)`
abbrev pub as_resolved : Datetime → Option String → Escalation → Escalation
as_resolved now by e = record e { resolved = true; resolved_at = some now; resolved_by = by }

pub record Resolution : Type 0 where
  pub escalation_id : String
  pub resolved_by : Option String
  pub owner_slug : Option String
  pub now : Datetime
  pub writable : Bool

unfoldable pub resolve : Resolution → EscalationStore → Bool × EscalationStore
unfolding save_locked owned_by_other
resolve r s = elim (lookup r.escalation_id s.escalations) [
  | none ↦ (false, s)
  | some e ↦
      if e.resolved then (false, s) else if owned_by_other r.owner_slug e then (false, s) else (
        true,
        save_locked r.writable (record s {
          escalations = put r.escalation_id (as_resolved r.now r.resolved_by e) s.escalations;
        }),
      )
]

-- `escs.sort(key=lambda e: e.created_at)`
unfoldable pub list_all : EscalationStore → List Escalation
list_all s = sort_by (λ e. instant e.created_at) (values s.escalations)

unfoldable pub list_active : EscalationStore → List Escalation
unfolding list_all
list_active s = select (λ e. not e.resolved) (list_all s)

unfoldable pub list_for_user : String → EscalationStore → List Escalation
unfolding list_all
list_for_user owner s = select (λ e. str_eq e.user_id owner) (list_all s)

unfoldable pub clear : Bool → EscalationStore → EscalationStore
unfolding save_locked
clear writable s = save_locked writable (record s { escalations = [] })

-- `sum(1 for e in ... if not e.resolved)`
unfoldable pub count_unresolved : List Escalation → ℕ
count_unresolved [] = 0
count_unresolved (e ∷ es) = let n = count_unresolved es in if not e.resolved then suc n else n

unfoldable pub active_count : EscalationStore → ℕ
unfolding count_unresolved
active_count s = count_unresolved (values s.escalations)
