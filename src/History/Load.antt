-- ===== src/History/Load.antt =====
-- Reading the history at start: `load_history_state` of `src/kai/agent/history_store.py` and what it
-- calls. What the files hold is an argument, since any program may have written them.
use meetkai.Common.{
  ◌≢◌, not, All, ◌-◌, ◌≡◌, String, Bool, Option, none, some, List, [], ◌∷◌, drop, take, length, leb,
  str_eq, if◌then◌else◌,
}
use meetkai.Common.Dict.{Dict, HasUniqueKeys, lookup, contains, put}
use meetkai.Common.Try.{Try, returned, raised, ◌>>=◌}
use meetkai.History.{
  Agent, Message, Role, user, assistant, other_role, Stamps, unlink, evict_excess_conversations,
}
use meetkai.History.Cache.{Paired}

-- The role of a persisted message: a text, a value that is no text, or a list or object, of which
-- Python takes no hash.
pub data RawRole : Type 0 where
  role_text : String → RawRole
  role_value role_unhashable : RawRole

-- A persisted message, with what is no text left out of the others.
pub record RawItem : Type 0 where
  pub role : RawRole
  pub content : Option String
  pub ts : Option String

-- A conversation file that is an object; `messages` is none if it is no list, and an item is none if
-- it is no object.
pub record RawFile : Type 0 where
  pub key : Option String
  pub messages : Option (List (Option RawItem))

-- The paths of the directory, oldest first, each with what its file holds.
abbrev pub Paths : Type 0
Paths = List (String × Option RawFile)

-- The legacy file: absent, no object with a history, or its conversations by key; an error that comes
-- up while it is read clears the history.
pub data Legacy : Type 0 where
  absent no_history broken : Legacy
  conversations : Dict (Option (List (Option RawItem))) → Legacy

-- `is_valid_role` tells whether a text is one of `VALID_ROLES`, the roles of llama_index.
module _ (is_valid_role : String → Bool) where
  abbrev role_of : String → Option Role
  role_of role =
      if not (is_valid_role role)
      then none
      else if str_eq role "user"
      then some user
      else if str_eq role "assistant"
      then some assistant
      else some (other_role role)

  -- `role in VALID_ROLES`, which hashes the role, and the content; `raised` is the TypeError.
  abbrev message_of : RawItem → Try (Option Message)
  message_of item = elim item.role [
    | role_unhashable ↦ raised
    | role_value ↦ returned none
    | role_text name ↦ elim (role_of name) [
      | none ↦ returned none
      | some role ↦ elim item.content [
        | none ↦ returned none
        | some text ↦ returned (some (record { role = role; content = text }))
      ]
    ]
  ]

  abbrev with_message :
      Option Message → Option String → List Message × Stamps → List Message × Stamps
  with_message none ts parsed = parsed
  with_message (some m) ts parsed = (m ∷ parsed.0, ts ∷ parsed.1)

  unfoldable pub parse_history_messages : List (Option RawItem) → Try (List Message × Stamps)
  parse_history_messages [] = returned ([], [])
  parse_history_messages (none ∷ items) = parse_history_messages items
  parse_history_messages (some item ∷ items) = message_of item >>= λ m.
      parse_history_messages items >>= λ parsed. returned (with_message m item.ts parsed)

  -- `read_conversation_file`; none is a file that cannot be read, or is no object.
  unfoldable pub read_conversation_file :
      Option RawFile → Try (Option (String × List Message × Stamps))
  unfolding parse_history_messages
  read_conversation_file none = returned none
  read_conversation_file (some file) = elim file.key [
    | none ↦ returned none
    | some key ↦ elim file.messages [
      | none ↦ returned none
      | some items ↦
          parse_history_messages items >>= λ parsed. returned (some (key, parsed.0, parsed.1))
    ]
  ]

  -- `self._history[key], self._timestamps[key] = messages`
  abbrev pub set_conversation : String → List Message × Stamps → Agent → Agent
  set_conversation key parsed a = record a {
    history = put key parsed.0 a.history;
    timestamps = put key parsed.1 a.timestamps;
  }

  unfoldable pub unlink_all : Bool → Paths → Agent → Agent
  unlink_all deletable [] a = a
  unlink_all deletable ((name, file) ∷ paths) a =
      unlink_all deletable paths (record a { files = unlink deletable name a.files })

  -- `cap_history_paths`: the paths that are kept, after the deletion of the others.
  unfoldable pub cap_history_paths : Bool → Paths → Agent → Paths × Agent
  unfolding unlink_all
  cap_history_paths deletable paths a =
      if leb (length paths) a.max_conversations
      then (paths, a)
      else let excess = length paths - a.max_conversations in
        (drop excess paths, unlink_all deletable (take excess paths) a)

  abbrev store_read : Option (String × List Message × Stamps) → Agent → Agent
  store_read none a = a
  store_read (some (key, msgs, ts_list)) a = set_conversation key (msgs, ts_list) a

  unfoldable pub load_paths : Paths → Agent → Try Agent
  unfolding read_conversation_file
  load_paths [] a = returned a
  load_paths ((name, file) ∷ paths) a =
      read_conversation_file file >>= λ found. load_paths paths (store_read found a)

  -- `load_conversation_dir`; none is a directory that cannot be listed.
  unfoldable pub load_conversation_dir : Bool → Option Paths → Agent → Try Agent
  unfolding cap_history_paths load_paths
  load_conversation_dir deletable none a = returned a
  load_conversation_dir deletable (some paths) a =
      let (kept, a') = cap_history_paths deletable paths a in load_paths kept a'

  unfoldable pub merge_legacy : Dict (Option (List (Option RawItem))) → Agent → Try Agent
  unfolding parse_history_messages
  merge_legacy [] a = returned a
  merge_legacy ((key, none) ∷ rest) a = merge_legacy rest a
  merge_legacy ((key, some items) ∷ rest) a =
      if contains key a.history
      then merge_legacy rest a
      else (parse_history_messages items >>= λ parsed.
          merge_legacy rest (set_conversation key parsed a))

  abbrev pub emptied : Agent → Agent
  emptied a = record a { history = []; timestamps = [] }

  -- Its handler takes every error of the parsing, with the TypeError.
  unfoldable pub load_legacy_history_file : Legacy → Agent → Agent
  unfolding merge_legacy
  load_legacy_history_file absent a = a
  load_legacy_history_file no_history a = a
  load_legacy_history_file broken a = emptied a
  load_legacy_history_file (conversations items) a = elim (merge_legacy items a) [
    | raised ↦ emptied a
    | returned merged ↦ merged
  ]

  -- `listing` is none if the directory does not exist.
  abbrev load_listing : Bool → Option (Option Paths) → Agent → Try Agent
  load_listing deletable none a = returned a
  load_listing deletable (some paths) a = load_conversation_dir deletable paths a

  unfoldable pub load_history_state : Bool → Option (Option Paths) → Legacy → Agent → Try Agent
  unfolding load_conversation_dir load_legacy_history_file
  load_history_state deletable listing legacy a =
      if a.has_dir
      then (load_listing deletable listing (emptied a) >>= λ loaded.
          returned (evict_excess_conversations deletable (load_legacy_history_file legacy loaded)))
      else returned (emptied a)

  -- What every step keeps: the keys are unique, and each conversation has a timestamp per message.
  abbrev IsPaired : Agent → Type 0
  IsPaired a =
      HasUniqueKeys a.history × ((k : String) → Paired (lookup k a.history) (lookup k a.timestamps))

  -- No role is a list or an object.
  abbrev pub IsHashable : RawRole → Type 0
  IsHashable role = role ≢ role_unhashable

  abbrev pub HasHashableRole : Option RawItem → Type 0
  HasHashableRole none = Unit
  HasHashableRole (some item) = IsHashable item.role

  abbrev pub IsReadable : String × Option RawFile → Type 0
  IsReadable (name, none) = Unit
  IsReadable (name, some file) = elim file.messages [
    | none ↦ Unit
    | some items ↦ All HasHashableRole items
  ]

  abbrev pub IsReadableDir : Option (Option Paths) → Type 0
  IsReadableDir (some (some paths)) = All IsReadable paths
  IsReadableDir _ = Unit

  -- Loading returns an agent whose history is paired.
  abbrev Loads : Try Agent → Type 0
  Loads t = (b : Agent) × (t ≡ returned b) × IsPaired b

  -- What the legacy file leaves if its parsing raises, or returns.
  abbrev Merges : Try Agent → Type 0
  Merges raised = Unit
  Merges (returned b) = IsPaired b
