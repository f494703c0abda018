-- ===== src/History/Flush/Saved.antt =====
-- A flush that no other task interrupts.
use mathlib.Core.Bool.{or-true}
use meetkai.Common.{
  ◌||◌, ◌≡◌, refl, ap, ◌∙◌, inl, inr, String, true, false, Option, none, some, List, [], ◌∷◌, map,
  arith, Bool-cases, str_eq, eq_iff, eq_refl, if◌then◌else◌,
}
use meetkai.Common.Dict.{contains, Dict, lookup, put, remove, lookup-put, lookup-remove}
use meetkai.History.{file_name, Agent, Message, FileItems, has_key}
use meetkai.History.Flush.{
  Disk, Entry, serialize, write_conversation_file, write_files, save_from_snapshot, entry_of,
  plan_of, nothing_to_do, snapshot_for_flush, discard, discard_all, finish_flush, run_plan,
  flush_once,
}

-- The file that a conversation with these messages and timestamps has; an empty one has none.
abbrev pub file_of : Entry → Option FileItems
file_of e = elim e.messages [ [] ↦ none | m ∷ ms ↦ some (serialize 0 (m ∷ ms) e.stamps) ]

-- The file of the conversation is what the agent has in memory.
abbrev pub Synced : Agent → String → Type 0
Synced a k = lookup ((file_name a) k) a.files ≡ file_of (entry_of a k)

-- A conversation of the cache, or one that is marked dirty.
abbrev pub IsKnown : Agent → String → Type 0
IsKnown a k = (contains k a.history || has_key k a.dirty_keys) ≡ true

-- Every known conversation that is not marked dirty is on disk as it is in memory.
abbrev pub IsClean : Agent → Type 0
IsClean a = (k : String) → IsKnown a k → has_key k a.dirty_keys ≡ false → Synced a k

-- None of the keys has the same file name as another one, `k`.
abbrev pub Apart : (String → String) → List String → String → Type 0
Apart f ks k = (j : String) → has_key j ks ≡ true → f j ≡ f k → j ≡ k

-- No dirty conversation has the file name of another known one.
abbrev pub NoClash : Agent → Type 0
NoClash a = (k : String) → IsKnown a k → Apart (file_name a) a.dirty_keys k

-- Every write and deletion succeeds.
pub record AllOk (disk : Disk) : Type 0 where
  pub writes : (name : String) → disk.writes name ≡ true
  pub prunes : disk.prunes ≡ true

lookup-write :
    (f : String → String) (e : Entry) (k : String) (files : Dict FileItems)
    → (f e.key ≡ f k → e.key ≡ k)
    → lookup (f k) (write_conversation_file f e files)
      ≡ (if str_eq e.key k then file_of e else lookup (f k) files)
unfolding write_conversation_file
lookup-write f e k files inj = go e.messages
  where
    same_name : str_eq (f e.key) (f k) ≡ str_eq e.key k
    same_name = elim (Bool-cases (str_eq e.key k)) [
      | inl same ↦ rw (same, ← (eq_iff e.key k).0 same) (eq_refl (f e.key))
      | inr other ↦ elim (Bool-cases (str_eq (f e.key) (f k))) [
        | inl clash ↦
            absurd (cc (other, (eq_iff e.key k).1 (inj ((eq_iff (f e.key) (f k)).0 clash))))
        | inr apart ↦ rw (other, apart)
      ]
    ]

    go :
        (ms : List Message)
        → lookup (f k) (elim ms [
          | [] ↦ remove (f e.key) files
          | n ∷ ns ↦ put (f e.key) (serialize 0 (n ∷ ns) e.stamps) files
        ])
          ≡ (if str_eq e.key k
              then elim ms [ [] ↦ none | n ∷ ns ↦ some (serialize 0 (n ∷ ns) e.stamps) ]
              else lookup (f k) files)
    go [] = rw (lookup-remove, same_name)
    go (n ∷ ns) = rw (lookup-put, same_name)

-- After the loop each written conversation has its file, and every other file is as it was, for keys
-- whose names do not clash with the written ones.
pub write_files-all :
    (disk : Disk) (a : Agent) (ks : List String) (files : Dict FileItems)
    → AllOk disk
    → ((write_files disk (file_name a) (map (entry_of a) ks) files).0 ≡ true)
      × ((k : String)
          → Apart (file_name a) ks k
          → lookup ((file_name a) k) (write_files disk (file_name a) (map (entry_of a) ks) files).1
            ≡ (if has_key k ks then file_of (entry_of a k) else lookup ((file_name a) k) files))
unfolding write_files
write_files-all disk a [] files ok = (refl, λ k apart. refl)
write_files-all disk a (j ∷ js) files ok =
    let next = write_conversation_file (file_name a) (entry_of a j) files in
    let rest = write_files-all disk a js next ok in
    rw (ok.writes (file_name a j)) (
      rest.0,
      λ k apart.
          rest.1 k (λ i marked. apart i (rw (marked, or-true) refl))
          ∙ step k (apart j (rw (eq_refl j) refl)),
    )
  where
    step :
        (k : String)
        → (file_name a j ≡ file_name a k → j ≡ k)
        → (if has_key k js
            then file_of (entry_of a k)
            else lookup
                ((file_name a) k)
                (write_conversation_file (file_name a) (entry_of a j) files))
          ≡ (if has_key k (j ∷ js) then file_of (entry_of a k) else lookup ((file_name a) k) files)
    step k inj =
        rw (lookup-write (file_name a) (entry_of a j) k files inj) (elim (Bool-cases (str_eq j k)) [
          | inl same ↦
              rw (same, (eq_iff j k).0 same)
                (elim (Bool-cases (has_key k js)) [ inl again ↦ rw again | inr once ↦ rw once ])
          | inr other ↦ rw other
        ])

has_key-discard :
    (k j : String) (js : List String)
    → has_key j (discard k js) ≡ (if str_eq k j then false else has_key j js)
unfolding discard
has_key-discard k j [] = ground arith
has_key-discard k j (i ∷ js) =
    ground (arith, has_key-discard k j js, eq_iff i k, eq_iff i j, eq_iff k j)

pub has_key-discard_all :
    (ks js : List String) (j : String)
    → has_key j (discard_all ks js) ≡ (if has_key j ks then false else has_key j js)
unfolding discard_all
has_key-discard_all [] js j = refl
has_key-discard_all (k ∷ ks) js j =
    ground (arith, has_key-discard_all ks (discard k js) j, has_key-discard k j js)

no_keys : (js : List String) → ((j : String) → has_key j js ≡ false) → js ≡ []
no_keys [] none_has = refl
no_keys (j ∷ js) none_has = absurd (ground (arith, none_has j, eq_refl j))

discard_all_self : (ks : List String) → discard_all ks ks ≡ []
discard_all_self ks = no_keys (discard_all ks ks) (λ j. ground (arith, has_key-discard_all ks ks j))

-- A snapshot that is written whole, without a legacy file.
pub save-all :
    (disk : Disk) (a b : Agent)
    → AllOk disk
    → b.has_dir ≡ true
    → a.legacy ≡ false
    → file_name b ≡ file_name a
    → save_from_snapshot disk (plan_of a) b ≡ (
      true,
      record b {
        files = (write_files disk (file_name a) (map (entry_of a) a.dirty_keys) b.files).1;
        legacy = false;
      },
    )
unfolding save_from_snapshot
save-all disk a b ok dir fresh same =
    simp (same, fresh, dir, ok.prunes, (write_files-all disk a a.dirty_keys b.files ok).0)

idle_flush :
    (disk : Disk) (a : Agent)
    → a.dirty_keys ≡ []
    → a.dirty ≡ true
    → a.legacy ≡ false
    → flush_once disk a ≡ record a { dirty = false }
unfolding flush_once run_plan snapshot_for_flush
idle_flush disk a none_marked on fresh =
    let idle : nothing_to_do (plan_of a) ≡ true = simp (fresh, none_marked) in
    let snap : snapshot_for_flush a ≡ (none, record a { dirty = false }) =
      simp (on, idle, snapshot_for_flush) in
    ap (run_plan disk) snap

record Flushed (a b : Agent) : Type 0 where
  clean_flag : b.dirty ≡ false
  no_dirty : b.dirty_keys ≡ []
  synced : (k : String) → IsKnown a k → Synced b k
  same_history : b.history ≡ a.history

pub snapshot-some :
    (a : Agent) (k : String) (ks : List String)
    → a.dirty_keys ≡ k ∷ ks
    → a.dirty ≡ true
    → a.legacy ≡ false
    → snapshot_for_flush a ≡ (some (plan_of a), a)
unfolding snapshot_for_flush
snapshot-some a k ks some_keys on fresh =
    let work : nothing_to_do (plan_of a) ≡ false = simp (fresh, some_keys) in
    simp (on, work, snapshot_for_flush)

-- The state after a flush of all dirty keys.
pub saved_state : Disk → Agent → Agent
saved_state disk a = record a {
  files = (write_files disk (file_name a) (map (entry_of a) a.dirty_keys) a.files).1;
  legacy = false;
}

flush_keys :
    (disk : Disk) (a : Agent) (k : String) (ks : List String)
    → a.dirty_keys ≡ k ∷ ks
    → AllOk disk
    → a.has_dir ≡ true
    → a.dirty ≡ true
    → a.legacy ≡ false
    → flush_once disk a ≡ finish_flush (plan_of a) (true, saved_state disk a)
unfolding flush_once run_plan saved_state
flush_keys disk a k ks some_keys ok dir on fresh =
    ap (run_plan disk) (snapshot-some a k ks some_keys on fresh)
    ∙ ap (finish_flush (plan_of a)) (save-all disk a a ok dir fresh refl)

finished :
    (disk : Disk) (a : Agent)
    → AllOk disk
    → a.legacy ≡ false
    → NoClash a
    → IsClean a
    → Flushed a (finish_flush (plan_of a) (true, saved_state disk a))
unfolding finish_flush saved_state
finished disk a ok fresh apart clean =
    let none_left : discard_all (plan_of a).keys a.dirty_keys ≡ [] =
      simp fresh (discard_all_self a.dirty_keys) in
    record {
      clean_flag = simp none_left;
      no_dirty = none_left;
      synced = λ k known.
          (write_files-all disk a a.dirty_keys a.files ok).1 k (apart k known)
          ∙ elim (Bool-cases (has_key k a.dirty_keys)) [
            | inl marked ↦ rw marked
            | inr same ↦ rw same (clean k known same)
          ];
      same_history = refl;
    }

-- A flush that no other task interrupts, of an agent with a history directory, no legacy file left and
-- its dirty flag set, on a disk that takes every write and deletion: nothing is dirty afterwards, and
-- the file of every conversation that the agent has, or had marked dirty, is what it has in memory; if
-- this held before of those that were not marked, and no two of them have the same file name, which
-- is made of the first 24 digits of their hash.
pub flush_once-Synced :
    (disk : Disk) (a : Agent)
    → AllOk disk
    → a.has_dir ≡ true
    → a.dirty ≡ true
    → a.legacy ≡ false
    → NoClash a
    → IsClean a
    → ((flush_once disk a).dirty ≡ false)
      × ((flush_once disk a).dirty_keys ≡ [])
      × ((k : String) → IsKnown a k → Synced (flush_once disk a) k)
flush_once-Synced disk a ok dir on fresh apart clean = go a.dirty_keys refl
  where
    go :
        (ks : List String)
        → a.dirty_keys ≡ ks
        → ((flush_once disk a).dirty ≡ false)
          × ((flush_once disk a).dirty_keys ≡ [])
          × ((k : String) → IsKnown a k → Synced (flush_once disk a) k)
    go [] none_marked =
        let idle : flush_once disk a ≡ record a { dirty = false } =
          idle_flush disk a none_marked on fresh in
        rw idle (refl, none_marked, λ k known. clean k known (rw none_marked refl))
    go (k ∷ ks) marked =
        let f = finished disk a ok fresh apart clean in
        rw (flush_keys disk a k ks marked ok dir on fresh) (f.clean_flag, f.no_dirty, f.synced)
