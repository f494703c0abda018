-- ===== src/History.antt =====
-- `src/kai/agent/history_store.py` and the methods of `src/kai/agent/core.py` that write history: the
-- bounded cache of conversations, its trimming, and the data that a flush writes.
pub mod Trim
pub mod Cache
pub mod Load
pub mod Conversations
pub mod Parallel
pub mod Flush
pub mod Samples
use meetkai.Common.{
  ℕ, zero, suc, ◌+◌, ◌-◌, String, Bool, true, false, not, ◌&&◌, ◌||◌, Option, none, some, List, [],
  ◌∷◌, ◌++◌, map, reverse, drop, length, ltb, leb, ◌==◌, str_eq, if◌then◌else◌, is_some,
}
use meetkai.Common.Text.{append, is_empty, char_count, strip, take_chars}
use meetkai.Common.Dict.{Dict, lookup, put, remove, contains, move_to_end}
use meetkai.Common.Try.{Try, returned, raised}

pub data Role : Type 0 where
  user assistant : Role
  other_role : String → Role

-- A `ChatMessage`; `content` is `message.content or ""`.
pub record Message : Type 0 where
  pub role : Role
  pub content : String

abbrev pub Stamps : Type 0
Stamps = List (Option String)

-- What a conversation file holds: its messages with their timestamps.
abbrev pub FileItems : Type 0
FileItems = List (Message × Option String)

-- The attributes of the mixin. `files` is the directory `_history_dir` by file name, and
-- `has_dir` tells whether `_history_dir` is set; `legacy` tells whether the legacy file exists;
-- `hexdigest` is `hashlib.sha256(key.encode("utf-8")).hexdigest()` of a key; `flushing` tells whether
-- `_flush_task` is a task that has not ended.
pub record Agent : Type 0 where
  pub namespace : String
  pub history : Dict (List Message)
  pub timestamps : Dict Stamps
  pub max_history : ℕ
  pub max_history_chars : ℕ
  pub max_conversations : ℕ
  pub has_dir : Bool
  pub legacy : Bool
  pub files : Dict FileItems
  pub hexdigest : String → String
  pub dirty : Bool
  pub dirty_keys : List String
  pub flushing : Bool

-- `conversation_filename`: the first 24 digits.
abbrev pub conversation_filename : (String → String) → String → String
conversation_filename hexdigest key = append (take_chars 24 (hexdigest key)) ".json"

abbrev pub file_name : Agent → String → String
file_name a key = conversation_filename a.hexdigest key

abbrev pub conversation_or_default : Option String → String
conversation_or_default none = "default"
conversation_or_default (some c) = if is_empty c then "default" else c

unfoldable pub history_key : Agent → Option String → String
history_key a conversation_id =
    let key = conversation_or_default conversation_id in
    if is_empty a.namespace then key else append a.namespace (append ":" key)

-- The files of evicted conversations that the file system lets the agent delete.
abbrev pub unlink : Bool → String → Dict FileItems → Dict FileItems
unlink deletable name files = if deletable then remove name files else files

-- The loop of `evict_excess_conversations` over the items, oldest first.
unfoldable pub evict_oldest : Bool → Dict (List Message) → Agent → Agent
evict_oldest deletable [] a = record a { history = [] }
evict_oldest deletable ((key, messages) ∷ newer) a =
    let evicted = evict_oldest deletable newer (record a {
      timestamps = remove key a.timestamps;
      files = unlink (a.has_dir && deletable) (file_name a key) a.files;
    }) in
    if ltb a.max_conversations (suc (length newer))
    then evicted
    else record a { history = (key, messages) ∷ newer }

unfoldable pub evict_excess_conversations : Bool → Agent → Agent
unfolding evict_oldest
evict_excess_conversations deletable a = evict_oldest deletable a.history a

abbrev pub replicate_none : List Message → Stamps
replicate_none [] = []
replicate_none (m ∷ ms) = none ∷ replicate_none ms

-- `get_history` up to its last line: the conversation becomes the newest, with timestamps.
unfoldable pub touch_history : Bool → Option String → Agent → Agent
unfolding evict_excess_conversations
touch_history deletable conversation_id a =
    let key = history_key a conversation_id in
    elim (lookup key a.history) [
      | some messages ↦ record a {
        history = move_to_end key a.history;
        timestamps =
            if contains key a.timestamps
            then move_to_end key a.timestamps
            else put key (replicate_none messages) a.timestamps;
      }
      | none ↦
          evict_excess_conversations deletable
            (record a { history = put key [] a.history; timestamps = put key [] a.timestamps })
    ]

-- `return self._history[key]`, which raises KeyError if the new conversation was itself evicted.
unfoldable pub get_history : Bool → Option String → Agent → Try (List Message) × Agent
unfolding touch_history
get_history deletable conversation_id a =
    let a' = touch_history deletable conversation_id a in
    (
      elim (lookup (history_key a conversation_id) a'.history) [
        | none ↦ raised
        | some messages ↦ returned messages
      ],
      a',
    )

-- `sum(len(message.content or "") for message in history)`
unfoldable pub total_chars : List Message → ℕ
total_chars [] = 0
total_chars (m ∷ ms) = char_count m.content + total_chars ms

unfoldable pub history_within_limits : Agent → List Message → Bool
unfolding total_chars
history_within_limits a history =
    if ltb a.max_history (length history)
    then false
    else leb (total_chars history) a.max_history_chars

-- `ts_list[i] if i < len(ts_list) else None`
unfoldable pub stamp_at : Stamps → ℕ → Option String
stamp_at [] i = none
stamp_at (t ∷ ts) zero = t
stamp_at (t ∷ ts) (suc i) = stamp_at ts i

abbrev pub non_empty : List Message → Bool
non_empty [] = false
non_empty (m ∷ ms) = true

-- The loop of `trim_to_char_budget` over the reversed tail. `at` is one more than the index of the
-- next message; the two lists are kept in the order that `reversed` and `reverse` give them.
unfoldable pub keep_newest :
    ℕ → ℕ → ℕ → List Message → List Message → List ℕ → List Message × List ℕ
keep_newest cap total at [] trimmed kept_idx = (trimmed, kept_idx)
keep_newest cap total at (m ∷ older) trimmed kept_idx =
    let longer =
      keep_newest cap (total + char_count m.content) (at - 1) older (m ∷ trimmed)
        ((at - 1) ∷ kept_idx) in
    if non_empty trimmed && ltb cap (total + char_count m.content)
    then (trimmed, kept_idx)
    else longer

-- `history[-max_history:] if max_history > 0 else history`
unfoldable pub newest : ℕ → List Message → List Message
newest zero history = history
newest (suc n) history = drop (length history - suc n) history

unfoldable pub trim_to_char_budget : Agent → List Message → Stamps → List Message × Stamps
unfolding keep_newest newest stamp_at
trim_to_char_budget a history ts_list =
    let tail = newest a.max_history history in
    let (trimmed, kept_idx) =
      keep_newest a.max_history_chars 0 (length history) (reverse tail) [] [] in
    (trimmed, map (stamp_at ts_list) kept_idx)

abbrev pub or_empty {ℓ} : {A : Type ℓ} → Option (List A) → List A
or_empty none = []
or_empty (some xs) = xs

-- `range(n)`
unfoldable pub range_from : ℕ → ℕ → List ℕ
range_from start zero = []
range_from start (suc n) = start ∷ range_from (start + 1) n

-- The three outcomes of `trim_history` for one conversation.
unfoldable pub trimmed_pair : Agent → List Message → Stamps → List Message × Stamps
unfolding history_within_limits trim_to_char_budget range_from
trimmed_pair a history ts_list =
    if a.max_history == 0 || a.max_history_chars == 0
    then ([], [])
    else if history_within_limits a history
    then (history, map (stamp_at ts_list) (range_from 0 (length history)))
    else trim_to_char_budget a history ts_list

-- Storing the pair back; an assignment to a known key keeps its place.
unfoldable pub trim_history : Option String → Agent → Agent
unfolding trimmed_pair
trim_history conversation_id a =
    let key = history_key a conversation_id in
    let (messages, stamps) =
      trimmed_pair a (or_empty (lookup key a.history)) (or_empty (lookup key a.timestamps)) in
    record a { history = put key messages a.history; timestamps = put key stamps a.timestamps }

abbrev pub has_key : String → List String → Bool
has_key k [] = false
has_key k (j ∷ js) = str_eq j k || has_key k js

-- `_dirty_keys.add(key)`
abbrev pub add_key : String → List String → List String
add_key k ks = if has_key k ks then ks else k ∷ ks

unfoldable pub mark_dirty : String → Agent → Agent
mark_dirty key a =
    if a.has_dir
    then record a { dirty = true; dirty_keys = add_key key a.dirty_keys; flushing = true }
    else a

-- `.append(message)` on the list of a conversation, and on its timestamps (`setdefault`)
unfoldable pub append_message : String → Message → String → Agent → Agent
append_message key message now a = record a {
  history = put key (or_empty (lookup key a.history) ++ message ∷ []) a.history;
  timestamps = put key (or_empty (lookup key a.timestamps) ++ some now ∷ []) a.timestamps;
}

unfoldable pub append_all : String → List (Message × String) → Agent → Agent
unfolding append_message
append_all key [] a = a
append_all key ((message, now) ∷ new) a = append_all key new (append_message key message now a)

-- The locked part that `observe`, `record_assistant_message` and `persist_turn` share.
unfoldable pub store_messages :
    Bool → Option String → List (Message × String) → Agent → Try (Unit {0}) × Agent
unfolding get_history append_all trim_history
store_messages deletable conversation_id new a =
    let key = history_key a conversation_id in
    let (found, a') = get_history deletable conversation_id a in
    elim found [
      | raised ↦ (raised, a')
      | returned history ↦ (returned tt, trim_history conversation_id (append_all key new a'))
    ]

-- The locked part, and then the mark; an exception skips the mark.
unfoldable pub store_and_mark :
    Bool → Option String → List (Message × String) → Agent → Try (Unit {0}) × Agent
unfolding store_messages mark_dirty
store_and_mark deletable conversation_id new a =
    let (stored, a') = store_messages deletable conversation_id new a in
    elim stored [
      | raised ↦ (raised, a')
      | returned _ ↦ (returned tt, mark_dirty (history_key a conversation_id) a')
    ]

unfoldable pub record_assistant_message :
    Bool → String → String → String → Agent → Try (Unit {0}) × Agent
unfolding store_and_mark strip
record_assistant_message deletable conversation_id text now a =
    if is_empty (strip text)
    then (returned tt, a)
    else store_and_mark deletable (some conversation_id)
        ((record { role = assistant; content = text }, now) ∷ []) a

-- The messages that `persist_turn` stores: the user's if the turn produced text or was delegated, the
-- reply if it has text and was not delegated.
unfoldable pub turn_messages : Bool → Bool → String → String → String → List (Message × String)
turn_messages store_user_message delegated user_text reply_text now =
    let user_part =
      if store_user_message && (not (is_empty reply_text) || delegated)
      then (record { role = user; content = user_text }, now) ∷ []
      else [] in
    let reply_part =
      if not (is_empty reply_text) && not delegated
      then (record { role = assistant; content = reply_text }, now) ∷ []
      else [] in
    user_part ++ reply_part

-- `persist_turn`, without the goal file.
unfoldable pub persist_turn :
    Bool → Option String → Bool → Bool → String → String → String → Agent → Try (Unit {0}) × Agent
unfolding turn_messages store_and_mark
persist_turn deletable conversation_id store_user_message delegated user_text reply_text now a =
    elim (turn_messages store_user_message delegated user_text reply_text now) [
      | [] ↦ (returned tt, a)
      | m ∷ ms ↦ store_and_mark deletable conversation_id (m ∷ ms) a
    ]

unfoldable pub clear_history : Option String → Agent → Agent
unfolding history_key mark_dirty
clear_history conversation_id a =
    let key = history_key a conversation_id in
    mark_dirty key
      (record a { history = put key [] a.history; timestamps = put key [] a.timestamps })
