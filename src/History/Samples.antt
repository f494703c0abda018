-- ===== src/History/Samples.antt =====
-- Examples of the history cache: room for two conversations, of at most two messages and ten
-- characters each.
use meetkai.Common.{
  ap, ◌⊎◌, Option, some, Bool-cases, inl, inr, ◌≡◌, refl, String, Bool, true, false, none, some, [],
  ◌∷◌, arith, str_eq, eq_iff, sym, ◌∙◌,
}
use meetkai.Common.Dict.{lookup, contains}
use meetkai.Common.Try.{returned}
use meetkai.History.{
  file_name, has_key, Agent, Message, user, assistant, store_messages, trimmed_pair,
}
use meetkai.History.Trim.{IsTrimmed, trimmed_pair-IsTrimmed}
use meetkai.History.Cache.{Paired, IsCache}
use meetkai.History.Parallel.{store_messages-IsCache}
use meetkai.History.Flush.{Disk, flush_once, flush_with_change}
use meetkai.History.Flush.Saved.{Synced, IsClean, IsKnown, NoClash, flush_once-Synced}
use meetkai.History.Load.{RawItem, role_text, Paths}
use meetkai.History.Flush.Lost.{IsLost, flush_with_change-IsLost}

abbrev hello : Message
hello = record { role = user; content = "hello" }

abbrev answer : Message
answer = record { role = assistant; content = "hi" }

abbrev question : Message
question = record { role = user; content = "how are you" }

abbrev pub agent : Agent
agent = record {
  namespace = "";
  history = ("a", hello ∷ []) ∷ ("b", answer ∷ []) ∷ [];
  timestamps = ("a", some "1" ∷ []) ∷ ("b", none ∷ []) ∷ [];
  max_history = 2;
  max_history_chars = 10;
  max_conversations = 2;
  has_dir = true;
  legacy = false;
  files = [];
  hexdigest = λ k. k;
  dirty = true;
  dirty_keys = "a" ∷ "b" ∷ [];
  flushing = true;
}

abbrev no_room : Agent
no_room = record agent { history = []; timestamps = []; max_conversations = 0 }

abbrev disk : Disk
disk = record { writes = λ name. true; prunes = true }

agent-parallel : (k : String) → Paired (lookup k agent.history) (lookup k agent.timestamps)
unfolding lookup
agent-parallel k = elim (Bool-cases (str_eq "a" k)) [
  | inl first ↦ rw first refl
  | inr other ↦ rw other (elim (Bool-cases (str_eq "b" k)) [
    | inl second ↦ rw second refl
    | inr neither ↦ rw neither tt
  ])
]

agent-IsCache : IsCache agent
unfolding lookup
agent-IsCache = record {
  unique = (refl, (refl, tt));
  capped = omega arith;
  parallel = agent-parallel;
}

-- Both conversations are marked, so that a conversation without a mark has no messages.
agent-IsClean : IsClean agent
unfolding lookup
agent-IsClean k known clean = elim (Bool-cases (str_eq "a" k)) [
  | inl first ↦ absurd (ground (arith, first))
  | inr other ↦ elim (Bool-cases (str_eq "b" k)) [
    | inl second ↦ absurd (ground (arith, second))
    | inr neither ↦ rw (other, neither) refl
  ]
]

a_or_b : (k : String) → has_key k ("a" ∷ "b" ∷ []) ≡ true → (k ≡ "a") ⊎ (k ≡ "b")
a_or_b k h = elim (Bool-cases (str_eq "a" k)) [
  | inl first ↦ inl (sym ((eq_iff "a" k).0 first))
  | inr other ↦ inr (sym ((eq_iff "b" k).0 (ground (arith, h, other))))
]

differ : file_name agent "a" ≡ file_name agent "b" → ⊥
differ h = absurd (cc ((eq_iff "a.json" "b.json").1 h))

apart_files :
    (j k : String)
    → (j ≡ "a") ⊎ (j ≡ "b")
    → (k ≡ "a") ⊎ (k ≡ "b")
    → file_name agent j ≡ file_name agent k
    → j ≡ k
apart_files j k (inl a) (inl b) same = a ∙ sym b
apart_files j k (inr a) (inr b) same = a ∙ sym b
apart_files j k (inl a) (inr b) same =
    absurd (differ (ap (file_name agent) (sym a) ∙ same ∙ ap (file_name agent) b))
apart_files j k (inr a) (inl b) same =
    absurd (differ (ap (file_name agent) (sym b) ∙ sym same ∙ ap (file_name agent) a))

known-has_key : (k : String) → IsKnown agent k → has_key k ("a" ∷ "b" ∷ []) ≡ true
unfolding contains
known-has_key k known = elim (Bool-cases (str_eq "a" k)) [
  | inl first ↦ rw first refl
  | inr other ↦ elim (Bool-cases (str_eq "b" k)) [
    | inl second ↦ rw (other, second) refl
    | inr neither ↦ absurd (cc (rw (other, neither) at known))
  ]
]

agent-NoClash : NoClash agent
agent-NoClash k known j marked same =
    apart_files j k (a_or_b j marked) (a_or_b k (known-has_key k known)) same

trimmed_pair-IsTrimmed_example :
    IsTrimmed agent
      (question ∷ hello ∷ answer ∷ [])
      (some "1" ∷ [])
      (trimmed_pair agent (question ∷ hello ∷ answer ∷ []) (some "1" ∷ []))
trimmed_pair-IsTrimmed_example =
    trimmed_pair-IsTrimmed agent (question ∷ hello ∷ answer ∷ []) (some "1" ∷ []) (omega arith)
      (omega arith)

store_messages-IsCache_example :
    ((store_messages true (some "c") ((hello, "2") ∷ []) agent).0 ≡ returned tt)
    × IsCache (store_messages true (some "c") ((hello, "2") ∷ []) agent).1
store_messages-IsCache_example =
    store_messages-IsCache true (some "c") ((hello, "2") ∷ []) agent (omega arith) agent-IsCache

flush_once-Synced_example :
    ((flush_once disk agent).dirty ≡ false)
    × ((flush_once disk agent).dirty_keys ≡ [])
    × ((k : String) → IsKnown agent k → Synced (flush_once disk agent) k)
flush_once-Synced_example =
    flush_once-Synced disk agent (record { writes = λ name. refl; prunes = refl }) refl refl refl
      agent-NoClash agent-IsClean

flush_with_change-IsLost_example :
    IsLost agent "a"
      (hello ∷ answer ∷ [])
      (flush_with_change disk "a" (hello ∷ answer ∷ []) (some "1" ∷ some "2" ∷ []) agent)
unfolding contains
flush_with_change-IsLost_example =
    flush_with_change-IsLost disk agent "a" (hello ∷ answer ∷ []) (some "1" ∷ some "2" ∷ [])
      (record { writes = λ name. refl; prunes = refl }) refl refl refl (agent-NoClash "a" refl) refl

abbrev item : RawItem
item = record { role = role_text "user"; content = some "hello"; ts = none }

-- A directory with the file of one conversation.
abbrev stored : Option (Option Paths)
stored =
    some (some (("a", some (record { key = some "a"; messages = some (some item ∷ []) })) ∷ []))

abbrev known_role : String → Bool
known_role role = str_eq role "user"
