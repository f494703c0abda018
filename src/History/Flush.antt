-- ===== src/History/Flush.antt =====
-- The flush of `src/kai/agent/history_store.py`: the snapshot of the dirty conversations that is
-- taken under the save lock, the files that a thread writes without it, and the bookkeeping under
-- the lock again. Other tasks can change conversations between the three steps.
pub mod Saved
pub mod Lost
use meetkai.Common.{
  ℕ, suc, ◌+◌, String, Bool, true, false, not, ◌&&◌, ◌||◌, Option, none, some, List, [], ◌∷◌, map,
  any, str_eq, if◌then◌else◌,
}
use meetkai.Common.Text.{is_empty}
use meetkai.Common.Dict.{Dict, lookup, put, remove, keys}
use meetkai.History.{
  file_name, Agent, Message, Stamps, FileItems, or_empty, stamp_at, add_key, mark_dirty,
}

-- What the file system answers during one flush: whether it writes or deletes the file of a name,
-- and whether it prunes the directory and deletes the legacy file. `false` is an OSError.
pub record Disk : Type 0 where
  pub writes : String → Bool
  pub prunes : Bool

-- One conversation of the snapshot; the two snapshots of the code have the same keys.
pub record Entry : Type 0 where
  pub key : String
  pub messages : List Message
  pub stamps : Stamps

pub record Plan : Type 0 where
  pub snapshot : List Entry
  pub keys : List String
  pub migrating : Bool

abbrev non_empty_text : Option String → Option String
non_empty_text none = none
non_empty_text (some t) = if is_empty t then none else some t

-- `serialize_history_message` for each message, from position `i` on
unfoldable pub serialize : ℕ → List Message → Stamps → FileItems
unfolding stamp_at
serialize i [] ts_list = []
serialize i (m ∷ ms) ts_list =
    (m, non_empty_text (stamp_at ts_list i)) ∷ serialize (i + 1) ms ts_list

-- `write_conversation_file`: a conversation with no message has no file.
unfoldable pub write_conversation_file : (String → String) → Entry → Dict FileItems → Dict FileItems
unfolding serialize
write_conversation_file file_name e files = elim e.messages [
  | [] ↦ remove (file_name e.key) files
  | m ∷ ms ↦ put (file_name e.key) (serialize 0 (m ∷ ms) e.stamps) files
]

-- The loop of `save_from_snapshot`; an OSError ends it, and what was written stays.
unfoldable pub write_files :
    Disk → (String → String) → List Entry → Dict FileItems → Bool × Dict FileItems
unfolding write_conversation_file
write_files disk file_name [] files = (true, files)
write_files disk file_name (e ∷ es) files =
    let rest = write_files disk file_name es (write_conversation_file file_name e files) in
    if disk.writes (file_name e.key) then rest else (false, files)

abbrev written : (String → String) → List Entry → String → Bool
written file_name es name = any (λ (e : Entry). str_eq (file_name e.key) name) es

-- `prune_conversation_files`; the names of empty conversations are absent already.
unfoldable pub prune_conversation_files :
    (String → String) → List Entry → Dict FileItems → Dict FileItems
prune_conversation_files file_name es [] = []
prune_conversation_files file_name es ((name, items) ∷ files) =
    let rest = prune_conversation_files file_name es files in
    if written file_name es name then (name, items) ∷ rest else rest

-- `save_from_snapshot(..., replace=migrating)`; the legacy file is deleted at the end.
unfoldable pub save_from_snapshot : Disk → Plan → Agent → Bool × Agent
unfolding write_files prune_conversation_files
save_from_snapshot disk plan a =
    let (ok, files) = write_files disk (file_name a) plan.snapshot a.files in
    if not a.has_dir
    then (false, a)
    else if not ok
    then (false, record a { files = files })
    else if not disk.prunes
    then (false, record a { files = files })
    else (
      true,
      record a {
        files =
            if plan.migrating
            then prune_conversation_files (file_name a) plan.snapshot files
            else files;
        legacy = false;
      },
    )

abbrev pub entry_of : Agent → String → Entry
entry_of a k = record {
  key = k;
  messages = or_empty (lookup k a.history);
  stamps = or_empty (lookup k a.timestamps);
}

abbrev pub plan_of : Agent → Plan
plan_of a =
    let ks = if a.legacy then keys a.history else a.dirty_keys in
    record { snapshot = map (entry_of a) ks; keys = ks; migrating = a.legacy }

abbrev pub nothing_to_do : Plan → Bool
nothing_to_do plan = elim plan.keys [ [] ↦ not plan.migrating | k ∷ ks ↦ false ]

unfoldable pub snapshot_for_flush : Agent → Option Plan × Agent
snapshot_for_flush a =
    if not a.dirty
    then (none, a)
    else if nothing_to_do (plan_of a)
    then (none, record a { dirty = false })
    else (some (plan_of a), a)

-- `_dirty_keys.discard(key)` for each key
unfoldable pub discard : String → List String → List String
discard k [] = []
discard k (j ∷ js) = let rest = discard k js in if str_eq j k then rest else j ∷ rest

unfoldable pub discard_all : List String → List String → List String
unfolding discard
discard_all [] js = js
discard_all (k ∷ ks) js = discard_all ks (discard k js)

unfoldable pub add_all : List String → List String → List String
add_all [] js = js
add_all (k ∷ ks) js = add_all ks (add_key k js)

abbrev pub any_left : List String → Bool
any_left [] = false
any_left (k ∷ ks) = true

-- The second locked part of `flush_once`; the running task ends, or schedules the next.
unfoldable pub finish_flush : Plan → Bool × Agent → Agent
unfolding discard_all add_all
finish_flush plan (saved, a) =
    let left = discard_all plan.keys a.dirty_keys in
    if saved
    then record a { dirty_keys = left; dirty = any_left left; flushing = any_left left }
    else record a { dirty_keys = add_all plan.keys a.dirty_keys; dirty = true; flushing = false }

-- `flush_once` after the snapshot.
unfoldable pub run_plan : Disk → Option Plan × Agent → Agent
unfolding save_from_snapshot finish_flush
run_plan disk (none, a) = a
run_plan disk (some plan, a) = finish_flush plan (save_from_snapshot disk plan a)

-- `flush_once` when no other task runs between its steps.
unfoldable pub flush_once : Disk → Agent → Agent
unfolding snapshot_for_flush run_plan
flush_once disk a = run_plan disk (snapshot_for_flush a)

-- What another task does to one conversation: new messages and timestamps, and the mark.
unfoldable pub change : String → List Message → Stamps → Agent → Agent
unfolding mark_dirty
change k ms ts a =
    mark_dirty k (record a { history = put k ms a.history; timestamps = put k ts a.timestamps })

-- `flush_once` with a change of conversation `k` between the snapshot and the end of the writing.
unfoldable pub flush_with_change : Disk → String → List Message → Stamps → Agent → Agent
unfolding snapshot_for_flush run_plan change
flush_with_change disk k ms ts a =
    let (plan, a') = snapshot_for_flush a in run_plan disk (plan, change k ms ts a')
