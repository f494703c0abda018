-- ===== src/Escalations/Persistence.antt =====
-- What the file keeps of the escalations, and what a restart reads back.
use meetkai.Common.{◌≡◌, refl, String, true, none, []}
use meetkai.Common.Persisted.{Codec, IsKeyedBy, after_restart, lookup-load_items}
use meetkai.Common.Dict.{lookup}
use meetkai.Tasks.{to_iso, map_time}
use meetkai.Escalations.{
  Escalation, EscalationDict, EscalationStore, to_dict, from_dict, load, load_escalations,
  save_locked,
}

-- An escalation as the file keeps it, with its times in whole seconds.
unfoldable pub reloaded : Escalation → Escalation
reloaded e = record e {
  created_at = to_iso e.created_at;
  resolved_at = map_time to_iso e.resolved_at;
}

pub from_dict-to_dict : (e : Escalation) → from_dict (to_dict e) ≡ reloaded e
unfolding from_dict to_dict reloaded
from_dict-to_dict e = refl

pub id-reloaded : (e : Escalation) → (reloaded e).id ≡ e.id
unfolding reloaded
id-reloaded e = refl

abbrev pub escalation_codec : Codec Escalation EscalationDict
escalation_codec = record {
  id = λ e. e.id;
  to_dict = to_dict;
  from_dict = from_dict;
  reloaded = reloaded;
  from_dict-to_dict = from_dict-to_dict;
  id-reloaded = id-reloaded;
}

-- After a save that succeeds, a new store at the same path loads each escalation, with its
-- resolution, as it was but for the parts of a second of its times, and no other.
pub load-save_locked :
    (s : EscalationStore) (k : String)
    → s.has_path ≡ true
    → IsKeyedBy (λ e. e.id) s.escalations
    → lookup k
        (load (record {
          has_path = true;
          escalations = [];
          file = (save_locked true s).file;
        })).escalations
      ≡ after_restart escalation_codec (lookup k s.escalations) none
unfolding load save_locked lookup load_escalations
load-save_locked s k path keyed =
    rw path (lookup-load_items escalation_codec k s.escalations [] keyed)
