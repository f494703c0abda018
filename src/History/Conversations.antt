-- ===== src/History/Conversations.antt =====
-- `list_conversations` of `src/kai/agent/history_store.py`: the conversations that a model can read on.
use meetkai.Common.{
  ℕ, ◌≡◌, refl, String, true, false, not, ◌&&◌, Option, none, some, List, [], ◌∷◌, reverse, length,
  arith, Bool-cases, inl, inr, if◌then◌else◌,
}
use meetkai.Common.Text.{append, is_empty, char_count, starts_with, drop_chars}
use meetkai.Common.Dict.{Dict, lookup}
use meetkai.History.{Agent, Message, Stamps, history_key, non_empty}

abbrev pub prefix_of : Agent → String
prefix_of a = if is_empty a.namespace then "" else append a.namespace ":"

-- `key[len(prefix):] if prefix and key.startswith(prefix) else key`
unfoldable pub conversation_of : String → String → String
conversation_of prefix key =
    if not (is_empty prefix) && starts_with prefix key
    then drop_chars (char_count prefix) key
    else key

abbrev last_of : Stamps → Option String
last_of [] = none
last_of (ts ∷ []) = ts
last_of (ts ∷ us ∷ ts_list) = last_of (us ∷ ts_list)

abbrev last_ts : Option Stamps → Option String
last_ts none = none
last_ts (some ts_list) = last_of ts_list

-- The loop over the history, in its order.
unfoldable pub summaries : Agent → Dict (List Message) → List (String × ℕ × Option String)
unfolding conversation_of lookup
summaries a [] = []
summaries a ((key, messages) ∷ history) =
    let rest = summaries a history in
    if non_empty messages
    then (conversation_of (prefix_of a) key, length messages, last_ts (lookup key a.timestamps))
      ∷ rest
    else rest

unfoldable pub list_conversations : Agent → List (String × ℕ × Option String)
unfolding summaries
list_conversations a = reverse (summaries a a.history)

starts_with-append : (s t : String) → starts_with s (append s t) ≡ true
starts_with-append String.[] t = refl
starts_with-append (String.◌∷◌ c s) t = rw (starts_with-append s t) (ground arith)

drop_chars-append : (s t : String) → drop_chars (char_count s) (append s t) ≡ t
drop_chars-append String.[] t = refl
drop_chars-append (String.◌∷◌ c s) t = drop_chars-append s t

append_assoc : (s t u : String) → append s (append t u) ≡ append (append s t) u
append_assoc String.[] t u = refl
append_assoc (String.◌∷◌ c s) t u = rw (append_assoc s t u) refl

is_empty-append : (s t : String) → is_empty s ≡ false → is_empty (append s t) ≡ false
is_empty-append String.[] t h = cc
is_empty-append (String.◌∷◌ c s) t h = refl

-- The id under which a conversation is listed is the one that it is stored under.
conversation_of-history_key :
    (a : Agent) (c : String)
    → is_empty c ≡ false
    → conversation_of (prefix_of a) (history_key a (some c)) ≡ c
unfolding conversation_of history_key
conversation_of-history_key a c given = elim (Bool-cases (is_empty a.namespace)) [
  | inl plain ↦ rw (plain, given) refl
  | inr named ↦
      rw (named, given, append_assoc a.namespace ":" c, starts_with-append, drop_chars-append)
        (rw (is_empty-append a.namespace ":" named) refl)
]
