-- ===== src/History/Flush/Lost.antt =====
-- A change of a conversation while a flush writes it.
use meetkai.Common.{
  ◌≡◌, refl, subst, sym, ap, ◌∙◌, String, true, false, Option, some, List, [], ◌∷◌, map, eq_refl,
}
use meetkai.Common.Dict.{lookup, put, lookup-put}
use meetkai.History.{file_name, Agent, Message, Stamps, has_key, add_key, mark_dirty}
use meetkai.History.Flush.{
  Disk, Plan, entry_of, plan_of, discard_all, finish_flush, run_plan, change, flush_with_change,
  write_files,
}
use meetkai.History.Flush.Saved.{
  AllOk, Apart, file_of, snapshot-some, save-all, write_files-all, has_key-discard_all,
}

change-files :
    (k : String) (ms : List Message) (ts : Stamps) (a : Agent)
    → a.has_dir ≡ true
    → change k ms ts a ≡ record a {
      history = put k ms a.history;
      timestamps = put k ts a.timestamps;
      dirty = true;
      dirty_keys = add_key k a.dirty_keys;
      flushing = true;
    }
unfolding change mark_dirty
change-files k ms ts a dir = simp dir

known_key :
    (k : String) (a : Agent) → has_key k a.dirty_keys ≡ true → add_key k a.dirty_keys ≡ a.dirty_keys
known_key k a marked = rw marked

-- The change of a marked conversation leaves the marks as they are.
changed : String → List Message → Stamps → Agent → Agent
changed k ms ts a = record a {
  history = put k ms a.history;
  timestamps = put k ts a.timestamps;
  dirty = true;
  flushing = true;
}

change-marked :
    (k : String) (ms : List Message) (ts : Stamps) (a : Agent)
    → a.has_dir ≡ true
    → has_key k a.dirty_keys ≡ true
    → change k ms ts a ≡ changed k ms ts a
unfolding changed
change-marked k ms ts a dir marked =
    change-files k ms ts a dir
    ∙ ap (λ js. record (changed k ms ts a) { dirty_keys = js }) (known_key k a marked)

-- What the change leaves when the files are written.
written_changed : Disk → Agent → String → List Message → Stamps → Agent
unfolding changed
written_changed disk a k ms ts = record (changed k ms ts a) {
  files = (write_files disk (file_name a) (map (entry_of a) a.dirty_keys) a.files).1;
  legacy = false;
}

flush_changed :
    (disk : Disk) (a : Agent) (k j : String) (js : List String) (ms : List Message) (ts : Stamps)
    → a.dirty_keys ≡ j ∷ js
    → AllOk disk
    → a.has_dir ≡ true
    → a.dirty ≡ true
    → a.legacy ≡ false
    → has_key k a.dirty_keys ≡ true
    → flush_with_change disk k ms ts a
      ≡ finish_flush (plan_of a) (true, written_changed disk a k ms ts)
unfolding flush_with_change run_plan changed written_changed
flush_changed disk a k j js ms ts some_keys ok dir on fresh marked =
    ap (λ (s : Option Plan × Agent). run_plan disk (s.0, change k ms ts s.1))
      (snapshot-some a j js some_keys on fresh)
    ∙ ap (λ b. run_plan disk (some (plan_of a), b)) (change-marked k ms ts a dir marked)
    ∙ ap (finish_flush (plan_of a)) (save-all disk a (changed k ms ts a) ok dir fresh refl)

-- The new messages of the conversation are in memory only, and nothing marks it.
abbrev pub IsLost : Agent → String → List Message → Agent → Type 0
IsLost a k ms b =
    (lookup k b.history ≡ some ms)
    × (lookup ((file_name a) k) b.files ≡ file_of (entry_of a k))
    × (has_key k b.dirty_keys ≡ false)

finish-IsLost :
    (disk : Disk) (a : Agent) (k : String) (ms : List Message) (ts : Stamps)
    → AllOk disk
    → a.legacy ≡ false
    → Apart (file_name a) a.dirty_keys k
    → has_key k a.dirty_keys ≡ true
    → IsLost a k ms (finish_flush (plan_of a) (true, written_changed disk a k ms ts))
unfolding finish_flush changed written_changed
finish-IsLost disk a k ms ts ok fresh apart marked =
    let unmarked : has_key k (discard_all a.dirty_keys a.dirty_keys) ≡ false =
      has_key-discard_all a.dirty_keys a.dirty_keys k ∙ rw marked refl in
    (
      lookup-put k k ms a.history ∙ rw (eq_refl k) refl,
      (write_files-all disk a a.dirty_keys a.files ok).1 k apart ∙ rw marked refl,
      rw fresh unmarked,
    )

-- A conversation that is marked dirty when a flush starts and changes again while the flush writes,
-- for an agent with a history directory, no legacy file left and its dirty flag set, a disk that takes
-- every write and deletion, and no other dirty conversation with the same file name: afterwards the
-- messages in memory are the new ones, the file is that of the old messages, and the conversation is
-- no longer marked dirty.
pub flush_with_change-IsLost :
    (disk : Disk) (a : Agent) (k : String) (ms : List Message) (ts : Stamps)
    → AllOk disk
    → a.has_dir ≡ true
    → a.dirty ≡ true
    → a.legacy ≡ false
    → Apart (file_name a) a.dirty_keys k
    → has_key k a.dirty_keys ≡ true
    → IsLost a k ms (flush_with_change disk k ms ts a)
flush_with_change-IsLost disk a k ms ts ok dir on fresh apart marked = go a.dirty_keys refl
  where
    go : (js : List String) → a.dirty_keys ≡ js → IsLost a k ms (flush_with_change disk k ms ts a)
    go [] none_marked = absurd (cc (marked, ap (has_key k) none_marked))
    go (j ∷ js) some_keys =
        subst (IsLost a k ms)
          (sym (flush_changed disk a k j js ms ts some_keys ok dir on fresh marked))
          (finish-IsLost disk a k ms ts ok fresh apart marked)
