-- ===== src/History/Cache.antt =====
-- The cache of conversations as `get_history` leaves it.
use meetkai.Common.{
  ℕ, zero, suc, ◌+◌, ◌-◌, ◌≤◌, ◌≡◌, refl, sym, ap, ◌∙◌, inl, inr, String, Bool, ◌&&◌, Option, none,
  some, List, [], ◌∷◌, ◌++◌, drop, length, length-append, length-drop, arith, ltb, Bool-cases,
  Option-cases, if◌then◌else◌, str_eq, eq_iff,
}
use meetkai.Common.Dict.{
  Dict, HasUniqueKeys, lookup, contains, put, remove, move_to_end, lookup-put, lookup-remove,
  lookup-put_self, lookup-move_to_end,
}
use meetkai.Common.Dict.Unique.{put-HasUniqueKeys, move_to_end-HasUniqueKeys, length-move_to_end}
use meetkai.Common.Try.{returned}
use meetkai.History.{
  file_name, Agent, Message, Stamps, history_key, evict_oldest, touch_history, get_history, unlink,
  replicate_none, or_empty,
}

-- A conversation has one timestamp (or None) for each of its messages.
abbrev pub Paired : Option (List Message) → Option Stamps → Type 0
Paired none ts = Unit
Paired (some ms) none = ⊥
Paired (some ms) (some ts) = length ts ≡ length ms

-- The invariant of the cache.
pub record IsCache (a : Agent) : Type 0 where
  pub unique : HasUniqueKeys a.history
  pub capped : length a.history ≤ a.max_conversations
  pub parallel : (k : String) → Paired (lookup k a.history) (lookup k a.timestamps)

-- What eviction leaves of the items `h`: the newest ones, still paired, and the same limits.
pub record Evicted (h : Dict (List Message)) (a b : Agent) : Type 0 where
  pub kept : b.history ≡ drop (length h - a.max_conversations) h
  pub unique : HasUniqueKeys b.history
  pub parallel : (k : String) → Paired (lookup k b.history) (lookup k b.timestamps)
  pub same_cap : b.max_conversations ≡ a.max_conversations
  pub same_namespace : b.namespace ≡ a.namespace

drop-nil {ℓ} : {A : Type ℓ} (n : ℕ) → drop {A = A} n [] ≡ []
drop-nil zero = refl
drop-nil (suc n) = refl

parallel_rest :
    (key k : String) (ms : List Message) (h : Dict (List Message)) (ts : Dict Stamps)
    → lookup key h ≡ none
    → ((j : String) → Paired (lookup j ((key, ms) ∷ h)) (lookup j ts))
    → Paired (lookup k h) (lookup k (remove key ts))
unfolding lookup
parallel_rest key k ms h ts fresh p = elim (Bool-cases (str_eq key k)) [
  | inl same ↦ let missing : lookup k h ≡ none = rw (← (eq_iff key k).0 same) fresh in rw missing tt
  | inr other ↦ rw (lookup-remove, other) (rw other at (p k))
]

pub evict_oldest-Evicted :
    (deletable : Bool) (h : Dict (List Message)) (a : Agent)
    → HasUniqueKeys h
    → ((k : String) → Paired (lookup k h) (lookup k a.timestamps))
    → Evicted h a (evict_oldest deletable h a)
unfolding evict_oldest
evict_oldest-Evicted deletable [] a u p = record {
  kept = sym (drop-nil (0 - a.max_conversations));
  unique = tt;
  parallel = p;
  same_cap = refl;
  same_namespace = refl;
}
evict_oldest-Evicted deletable ((key, ms) ∷ newer) a u p =
    elim (Bool-cases (ltb a.max_conversations (suc (length newer)))) [
      | inl over ↦
          let r =
            evict_oldest-Evicted deletable newer
              (record a {
                timestamps = remove key a.timestamps;
                files = unlink (a.has_dir && deletable) (file_name a key) a.files;
              })
              u.1 (λ k. parallel_rest key k ms newer a.timestamps u.0 p) in
          let step : suc (length newer) - a.max_conversations
              ≡ suc (length newer - a.max_conversations) =
            ground arith in
          rw over (record {
            kept = rw step r.kept;
            unique = r.unique;
            parallel = r.parallel;
            same_cap = r.same_cap;
            same_namespace = r.same_namespace;
          })
      | inr within ↦
          let step : suc (length newer) - a.max_conversations ≡ 0 = ground arith in
          rw within (record {
            kept = rw step refl;
            unique = u;
            parallel = p;
            same_cap = refl;
            same_namespace = refl;
          })
    ]

pub put-fresh {ℓ} :
    {V : Type ℓ} (k : String) (v : V) (d : Dict V)
    → lookup k d ≡ none
    → put k v d ≡ d ++ (k, v) ∷ []
unfolding lookup put
put-fresh k v [] fresh = refl
put-fresh k v ((j, w) ∷ d) fresh = elim (Bool-cases (str_eq j k)) [
  | inl same ↦ absurd (cc (rw same at fresh))
  | inr other ↦ rw other (ap (◌∷◌ (j, w)) (put-fresh k v d (rw other at fresh)))
]

drop-append_le {ℓ} :
    {A : Type ℓ} (n : ℕ) (xs ys : List A) → n ≤ length xs → drop n (xs ++ ys) ≡ drop n xs ++ ys
drop-append_le zero xs ys h = refl
drop-append_le (suc n) [] ys h = absurd (omega arith)
drop-append_le (suc n) (x ∷ xs) ys h = drop-append_le n xs ys (omega arith)

lookup-snoc :
    (k : String) (v : List Message) (d : Dict (List Message))
    → lookup k d ≡ none
    → lookup k (d ++ (k, v) ∷ []) ≡ some v
lookup-snoc k v d fresh = rw (← put-fresh k v d fresh) (lookup-put_self k v d)

lookup-drop_none :
    (n : ℕ) (k : String) (d : Dict (List Message)) → lookup k d ≡ none → lookup k (drop n d) ≡ none
unfolding lookup
lookup-drop_none zero k d fresh = fresh
lookup-drop_none (suc n) k [] fresh = refl
lookup-drop_none (suc n) k ((j, w) ∷ d) fresh = elim (Bool-cases (str_eq j k)) [
  | inl same ↦ absurd (cc (rw same at fresh))
  | inr other ↦ lookup-drop_none n k d (rw other at fresh)
]

length-replicate_none : (ms : List Message) → length (replicate_none ms) ≡ length ms
length-replicate_none [] = refl
length-replicate_none (m ∷ ms) = ap suc (length-replicate_none ms)

-- What a look at a conversation does: it is the newest afterwards, with the messages that it had,
-- and the invariant holds.
pub record Touched (key : String) (a b : Agent) : Type 0 where
  pub cache : IsCache b
  pub older : Dict (List Message)
  pub last : b.history ≡ older ++ (key, or_empty (lookup key a.history)) ∷ []
  pub found : lookup key b.history ≡ some (or_empty (lookup key a.history))
  pub same_cap : b.max_conversations ≡ a.max_conversations
  pub same_namespace : b.namespace ≡ a.namespace

touched_stamps :
    (key k : String) (ms : List Message) (a : Agent)
    → IsCache a
    → lookup key a.history ≡ some ms
    → Paired (lookup k a.history) (
        lookup k (
          if contains key a.timestamps
          then move_to_end key a.timestamps
          else put key (replicate_none ms) a.timestamps))
touched_stamps key k ms a v e = elim (Bool-cases (contains key a.timestamps)) [
  | inl known ↦ rw (known, lookup-move_to_end) (v.parallel k)
  | inr lost ↦
      rw (lost, lookup-put)
        (elim (Bool-cases (str_eq key k)) [
          | inl same ↦ rw (same, ← (eq_iff key k).0 same, e) (length-replicate_none ms)
          | inr other ↦ rw other (v.parallel k)
        ])
]

touch_known :
    (deletable : Bool) (c : Option String) (a : Agent) (ms : List Message)
    → IsCache a
    → lookup (history_key a c) a.history ≡ some ms
    → Touched (history_key a c) a (touch_history deletable c a)
unfolding touch_history move_to_end
touch_known deletable c a ms v e =
    let key = history_key a c in
    rw (e, touch_history)
      (record {
        cache = record {
          unique = move_to_end-HasUniqueKeys key a.history v.unique;
          capped = rw (length-move_to_end key a.history v.unique) v.capped;
          parallel = λ k. rw (lookup-move_to_end key k a.history) (touched_stamps key k ms a v e);
        };
        older = remove key a.history;
        last = rw (e, move_to_end);
        found = rw (lookup-move_to_end key key a.history, e);
        same_cap = refl;
        same_namespace = refl;
      })

new_pair :
    (key k : String) (a : Agent)
    → IsCache a
    → Paired (lookup k (put key [] a.history)) (lookup k (put key [] a.timestamps))
new_pair key k a v =
    rw (lookup-put, lookup-put)
      (elim (Bool-cases (str_eq key k)) [
        | inl same ↦ rw same refl
        | inr other ↦ rw other (v.parallel k)
      ])

touch_new :
    (deletable : Bool) (c : Option String) (a : Agent)
    → 1 ≤ a.max_conversations
    → IsCache a
    → lookup (history_key a c) a.history ≡ none
    → Touched (history_key a c) a (touch_history deletable c a)
unfolding touch_history
touch_new deletable c a pos v e =
    let key = history_key a c in
    let grown : Dict (List Message) = put key [] a.history in
    let start : Agent = record a { history = grown; timestamps = put key [] a.timestamps } in
    let cut = length a.history + 1 - a.max_conversations in
    let r : Evicted grown start (evict_oldest deletable grown start) =
      evict_oldest-Evicted deletable grown start (put-HasUniqueKeys key [] a.history v.unique)
        (λ k. new_pair key k a v) in
    let shape : grown ≡ a.history ++ (key, []) ∷ [] = put-fresh key [] a.history e in
    let size : length grown ≡ length a.history + 1 =
      ap length shape ∙ length-append a.history ((key, []) ∷ []) in
    let last : (evict_oldest deletable grown start).history ≡ drop cut a.history ++ (key, []) ∷ [] =
      r.kept
      ∙ rw (size, shape)
          (drop-append_le cut a.history ((key, []) ∷ []) (omega (arith, v.capped))) in
    rw (e, touch_history)
      (record {
        cache = record {
          unique = r.unique;
          capped =
              rw (r.same_cap, last)
                (omega (
                  arith,
                  length-append (drop cut a.history) ((key, []) ∷ []),
                  length-drop cut a.history,
                  v.capped,
                ));
          parallel = r.parallel;
        };
        older = drop cut a.history;
        last = rw e last;
        found =
            rw (e, last)
              (lookup-snoc key [] (drop cut a.history) (lookup-drop_none cut key a.history e));
        same_cap = r.same_cap;
        same_namespace = r.same_namespace;
      })

-- With room for one conversation, looking at a conversation of a cache with its invariant makes it
-- the newest one, `get_history` returns its messages (none for a new one), and the invariant holds.
pub get_history-Touched :
    (deletable : Bool) (c : Option String) (a : Agent)
    → 1 ≤ a.max_conversations
    → IsCache a
    → Touched (history_key a c) a (get_history deletable c a).1
      × ((get_history deletable c a).0 ≡ returned (or_empty (lookup (history_key a c) a.history)))
unfolding get_history
get_history-Touched deletable c a pos v = let t = touched in (t, rw (t.found, get_history))
  where
    touched : Touched (history_key a c) a (touch_history deletable c a)
    touched = elim (Option-cases (lookup (history_key a c) a.history)) [
      | inl missing ↦ touch_new deletable c a pos v missing
      | inr (ms, found) ↦ touch_known deletable c a ms v found
    ]
