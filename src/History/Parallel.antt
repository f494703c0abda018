-- ===== src/History/Parallel.antt =====
-- Storing messages, with room for a conversation and without.
use meetkai.Common.{
  ℕ, zero, suc, ◌+◌, ◌-◌, ◌≤◌, ◌≡◌, refl, ap, ◌∙◌, inl, inr, String, Bool, true, ◌&&◌, ◌||◌, Option,
  none, some, List, [], ◌∷◌, ◌++◌, map, length, length-append, arith, ltb, ◌==◌, Bool-cases, str_eq,
  reverse,
}
use meetkai.Common.Text.{char_count}
use meetkai.Common.Dict.{Dict, lookup, put, lookup-put, lookup-put_self, length-put_known}
use meetkai.Common.Dict.Unique.{put-HasUniqueKeys}
use meetkai.Common.Try.{returned, raised}
use meetkai.History.{
  Agent, Message, Stamps, history_key, touch_history, get_history, or_empty, stamp_at, range_from,
  trimmed_pair, trim_to_char_budget, keep_newest, trim_history, append_message, append_all,
  store_messages, evict_excess_conversations, evict_oldest, newest, non_empty,
  history_within_limits,
}
use meetkai.History.Cache.{Paired, IsCache, get_history-Touched}

length-map {ℓ κ} :
    {A : Type ℓ} {B : Type κ} (f : A → B) (xs : List A) → length (map f xs) ≡ length xs
length-map f [] = refl
length-map f (x ∷ xs) = ap suc (length-map f xs)

length-range_from : (start n : ℕ) → length (range_from start n) ≡ n
unfolding range_from
length-range_from start zero = refl
length-range_from start (suc n) = ap suc (length-range_from (start + 1) n)

-- Storing as many timestamps as messages under a known key keeps the invariant.
put-IsCache :
    (key : String) (old ms : List Message) (ts : Stamps) (a : Agent)
    → IsCache a
    → lookup key a.history ≡ some old
    → length ts ≡ length ms
    → IsCache (record a { history = put key ms a.history; timestamps = put key ts a.timestamps })
put-IsCache key old ms ts a v known same = record {
  unique = put-HasUniqueKeys key ms a.history v.unique;
  capped = rw (length-put_known key ms old a.history known) v.capped;
  parallel = λ k.
      rw (lookup-put key k ms a.history, lookup-put key k ts a.timestamps)
        (elim (Bool-cases (str_eq key k)) [
          | inl here ↦ rw here same
          | inr other ↦ rw other (v.parallel k)
        ]);
}

Paired-lengths :
    (hs : Option (List Message)) (ts : Option Stamps) (old : List Message)
    → Paired hs ts
    → hs ≡ some old
    → length (or_empty ts) ≡ length (or_empty hs)
Paired-lengths none ts old p e = absurd (cc e)
Paired-lengths (some ms) none old p e = absurd p
Paired-lengths (some ms) (some ts) old p e = p

-- An agent with the invariant that knows the conversation.
record Knows (key : String) (a b : Agent) : Type 0 where
  cache : IsCache b
  messages : List Message
  known : lookup key b.history ≡ some messages
  same_namespace : b.namespace ≡ a.namespace

append_message-Knows :
    (key : String) (m : Message) (now : String) (a b : Agent)
    → Knows key a b
    → Knows key a (append_message key m now b)
unfolding append_message
append_message-Knows key m now a b k =
    let old = or_empty (lookup key b.history) in
    let stamps = or_empty (lookup key b.timestamps) in
    record {
      cache =
          put-IsCache key k.messages (old ++ m ∷ []) (stamps ++ some now ∷ []) b k.cache k.known (
            omega (
              arith,
              length-append old (m ∷ []),
              length-append stamps (some now ∷ []),
              Paired-lengths (lookup key b.history) (lookup key b.timestamps) k.messages
                  (k.cache.parallel key) k.known,
            ));
      messages = old ++ m ∷ [];
      known = lookup-put_self key (old ++ m ∷ []) b.history;
      same_namespace = k.same_namespace;
    }

append_all-Knows :
    (key : String) (new : List (Message × String)) (a b : Agent)
    → Knows key a b
    → Knows key a (append_all key new b)
unfolding append_all
append_all-Knows key [] a b k = k
append_all-Knows key ((m, now) ∷ new) a b k =
    append_all-Knows key new a (append_message key m now b) (append_message-Knows key m now a b k)

keep_newest-lengths :
    (cap total at : ℕ) (older trimmed : List Message) (idx : List ℕ)
    → length idx ≡ length trimmed
    → length (keep_newest cap total at older trimmed idx).1
      ≡ length (keep_newest cap total at older trimmed idx).0
unfolding keep_newest
keep_newest-lengths cap total at [] trimmed idx h = h
keep_newest-lengths cap total at (m ∷ older) trimmed idx h =
    let size = total + char_count m.content in
    elim (Bool-cases (non_empty trimmed && ltb cap size)) [
      | inl full ↦ rw full h
      | inr more ↦
          rw more
            (keep_newest-lengths cap size (at - 1) older (m ∷ trimmed) ((at - 1) ∷ idx) (ap suc h))
    ]

-- Every branch of the trimming gives as many timestamps as messages.
trimmed_pair-lengths :
    (a : Agent) (ms : List Message) (ts : Stamps)
    → length (trimmed_pair a ms ts).1 ≡ length (trimmed_pair a ms ts).0
unfolding trimmed_pair trim_to_char_budget
trimmed_pair-lengths a ms ts = elim (Bool-cases (a.max_history == 0 || a.max_history_chars == 0)) [
  | inl off ↦ rw off refl
  | inr on ↦ rw on (elim (Bool-cases (history_within_limits a ms)) [
    | inl within ↦
        rw within
          (length-map (stamp_at ts) (range_from 0 (length ms)) ∙ length-range_from 0 (length ms))
    | inr over ↦ rw over (
        length-map (stamp_at ts) _
        ∙ keep_newest-lengths a.max_history_chars 0 (length ms) (reverse (newest a.max_history ms))
            [] [] refl)
  ])
]

trim_history-IsCache :
    (c : Option String) (key : String) (a b : Agent)
    → key ≡ history_key b c
    → Knows key a b
    → IsCache (trim_history c b)
unfolding trim_history
trim_history-IsCache c key a b same k =
    let ms = or_empty (lookup (history_key b c) b.history) in
    let ts = or_empty (lookup (history_key b c) b.timestamps) in
    put-IsCache (history_key b c) k.messages (trimmed_pair b ms ts).0 (trimmed_pair b ms ts).1 b
      k.cache (rw (← same) k.known) (trimmed_pair-lengths b ms ts)

history_key-same :
    (a b : Agent) (c : Option String)
    → b.namespace ≡ a.namespace
    → history_key a c ≡ history_key b c
unfolding history_key
history_key-same a b c same = simp same

-- If there is room for at least one conversation, storing messages of a turn succeeds and keeps the
-- invariant: at most `max_conversations` conversations, each with one timestamp for each message.
pub store_messages-IsCache :
    (deletable : Bool) (c : Option String) (new : List (Message × String)) (a : Agent)
    → 1 ≤ a.max_conversations
    → IsCache a
    → ((store_messages deletable c new a).0 ≡ returned tt)
      × IsCache (store_messages deletable c new a).1
unfolding store_messages
store_messages-IsCache deletable c new a pos v =
    let (t, returns) = get_history-Touched deletable c a pos v in
    let key = history_key a c in
    let b = (get_history deletable c a).1 in
    let k = append_all-Knows key new a b (record {
      cache = t.cache;
      messages = or_empty (lookup key a.history);
      known = t.found;
      same_namespace = t.same_namespace;
    }) in
    rw (returns, store_messages)
      (
        refl,
        trim_history-IsCache c key a (append_all key new b)
            (history_key-same a (append_all key new b) c k.same_namespace) k,
      )

evict_oldest-all :
    (deletable : Bool) (h : Dict (List Message)) (a : Agent)
    → a.max_conversations ≡ 0
    → (evict_oldest deletable h a).history ≡ []
unfolding evict_oldest
evict_oldest-all deletable [] a none_kept = refl
evict_oldest-all deletable ((key, ms) ∷ newer) a none_kept =
    let over : ltb a.max_conversations (suc (length newer)) ≡ true = ground arith in
    rw over (evict_oldest-all deletable newer _ none_kept)

-- With `max_conversations` 0, storing to a conversation that is not cached raises KeyError.
pub store_messages-no_room :
    (deletable : Bool) (c : Option String) (new : List (Message × String)) (a : Agent)
    → a.max_conversations ≡ 0
    → lookup (history_key a c) a.history ≡ none
    → (store_messages deletable c new a).0 ≡ raised
unfolding store_messages get_history touch_history evict_excess_conversations
store_messages-no_room deletable c new a zero_room missing =
    let key = history_key a c in
    let grown : Dict (List Message) = put key [] a.history in
    let start : Agent = record a { history = grown; timestamps = put key [] a.timestamps } in
    let gone : lookup key (evict_oldest deletable grown start).history ≡ none =
      rw (evict_oldest-all deletable grown start zero_room) (unfold lookup in refl) in
    rw (missing, gone, store_messages, get_history, touch_history, evict_excess_conversations)
