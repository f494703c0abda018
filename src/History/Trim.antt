-- ===== src/History/Trim.antt =====
-- What trimming keeps of a conversation.
use mathlib.Core.List.{append_assoc, append-nil, reverse-append, reverse-reverse}
use native.Mathlib.Decide.{dec_lt}
use native.Mathlib.Nat.{zero-add, add-zero, suc-add}
use mathlib.Core.Path.{subst}
use meetkai.Common.{
  ℕ, zero, suc, ◌+◌, ◌-◌, ◌≤◌, ◌<◌, ◌≡◌, refl, sym, ap, ◌∙◌, inl, inr, ◌⊎◌, true, false, ◌&&◌, ◌||◌,
  List, [], ◌∷◌, ◌++◌, map, reverse, drop, length, length-append, length-drop, arith, ltb, ◌==◌,
  Bool-cases,
}
use meetkai.Common.Text.{char_count}
use meetkai.History.{
  Agent, Message, Stamps, total_chars, history_within_limits, stamp_at, keep_newest, newest,
  non_empty, trim_to_char_budget, range_from, trimmed_pair,
}

-- `total_chars` of the concatenation.
total_chars-append :
    (xs ys : List Message) → total_chars (xs ++ ys) ≡ total_chars xs + total_chars ys
unfolding total_chars
total_chars-append [] ys = omega arith
total_chars-append (m ∷ xs) ys = omega (arith, total_chars-append xs ys)

drop-append {ℓ} : {A : Type ℓ} (xs ys : List A) → drop (length xs) (xs ++ ys) ≡ ys
drop-append [] ys = refl
drop-append (x ∷ xs) ys = drop-append xs ys

length-reverse {ℓ} : {A : Type ℓ} (xs : List A) → length (reverse xs) ≡ length xs
length-reverse [] = refl
length-reverse (x ∷ xs) =
    ap length (reverse-append (x ∷ []) xs)
    ∙ length-append (reverse xs) (x ∷ [])
    ∙ omega (arith, length-reverse xs)

-- `result` is what is left of `history` after its first `cut` messages, with their positions; it
-- fits the budget unless it is one message, and with one message more it would not.
record Kept (cap offset : ℕ) (history : List Message) (result : List Message × List ℕ)
    : Type 0 where
  cut : ℕ
  kept : result.0 ≡ drop cut history
  fits : (length result.0 ≤ 1) ⊎ (total_chars result.0 ≤ cap)
  longest : (cut ≡ 0) ⊎ ((0 < cut) × (cap < total_chars (drop (cut - 1) history)))
  indices : result.1 ≡ range_from (offset + cut) (length result.0)
  whole : cut + length result.0 ≡ length history

snoc_move :
    (m : Message) (older trimmed : List Message)
    → reverse older ++ m ∷ trimmed ≡ reverse (m ∷ older) ++ trimmed
snoc_move m older trimmed = rw (reverse-append (m ∷ []) older, append_assoc)

drop-reverse :
    (older trimmed : List Message) → drop (length older) (reverse older ++ trimmed) ≡ trimmed
drop-reverse older trimmed = rw (← length-reverse older) (drop-append (reverse older) trimmed)

-- What the test leaves when the loop goes on.
fits_next :
    (cap size : ℕ) (m : Message) (trimmed : List Message)
    → ((length trimmed ≡ 0) ⊎ (size ≤ cap))
    → (length (m ∷ trimmed) ≤ 1) ⊎ (size ≤ cap)
fits_next cap size m trimmed (inl none_yet) = inl (omega (arith, none_yet))
fits_next cap size m trimmed (inr small) = inr small

keeps_on :
    (cap size : ℕ) (trimmed : List Message)
    → (non_empty trimmed && ltb cap size) ≡ false
    → (length trimmed ≡ 0) ⊎ (size ≤ cap)
keeps_on cap size [] h = inl refl
keeps_on cap size (m ∷ ms) h = inr (ground arith)

stops :
    (cap size : ℕ) (trimmed : List Message)
    → (non_empty trimmed && ltb cap size) ≡ true
    → cap < size
stops cap size [] h = absurd (cc h)
stops cap size (m ∷ ms) h = ground arith

keep_newest-Kept :
    (cap offset total at : ℕ) (older trimmed : List Message) (idx : List ℕ)
    → total ≡ total_chars trimmed
    → at ≡ offset + length older
    → idx ≡ range_from at (length trimmed)
    → (length trimmed ≤ 1) ⊎ (total ≤ cap)
    → Kept cap offset (reverse older ++ trimmed) (keep_newest cap total at older trimmed idx)
unfolding keep_newest total_chars range_from
keep_newest-Kept cap offset total at [] trimmed idx sum here rest fits = record {
  cut = 0;
  kept = refl;
  fits = rw (← sum) fits;
  longest = inl refl;
  indices = rest ∙ ap (λ n. range_from n (length trimmed)) (omega (arith, here));
  whole = omega arith;
}
keep_newest-Kept cap offset total at (m ∷ older) trimmed idx sum here rest fits =
    let size = total + char_count m.content in
    let last : suc (length older) - 1 ≡ length older = omega arith in
    elim (Bool-cases (non_empty trimmed && ltb cap size)) [
      | inl full ↦ rw full (record {
        cut = suc (length older);
        kept = sym (drop-reverse (m ∷ older) trimmed);
        fits = rw (← sum) fits;
        longest = inr (
          omega arith,
          rw (last, ← snoc_move m older trimmed, drop-reverse older (m ∷ trimmed))
              (omega (arith, stops cap size trimmed full, sum)),
        );
        indices = rest ∙ ap (λ n. range_from n (length trimmed)) (omega (arith, here));
        whole =
            omega (arith, length-append (reverse (m ∷ older)) trimmed, length-reverse (m ∷ older));
      })
      | inr more ↦
          rw (more, ← snoc_move m older trimmed)
            (keep_newest-Kept cap offset size (at - 1) older (m ∷ trimmed) ((at - 1) ∷ idx)
              (omega (arith, sum)) (omega (arith, here))
              (ap (◌∷◌ (at - 1))
                (rest ∙ ap (λ n. range_from n (length trimmed)) (omega (arith, here))))
              (fits_next cap size m trimmed (keeps_on cap size trimmed more)))
    ]

-- What trimming a conversation leaves: a run of the newest messages, each with the timestamp that it
-- had, within the two limits (one message may pass the character limit), and as long as that allows.
pub record IsTrimmed (a : Agent) (history : List Message) (ts_list : Stamps)
    (result : List Message × Stamps) : Type 0 where
  pub cut : ℕ
  pub messages : result.0 ≡ drop cut history
  pub stamps : result.1 ≡ map (stamp_at ts_list) (range_from cut (length result.0))
  pub count_cap : length result.0 ≤ a.max_history
  pub char_cap : (length result.0 ≤ 1) ⊎ (total_chars result.0 ≤ a.max_history_chars)
  pub longest :
      (cut ≡ 0)
      ⊎ (a.max_history < length (drop (cut - 1) history))
      ⊎ (a.max_history_chars < total_chars (drop (cut - 1) history))

newest-eq-drop : (n : ℕ) (h : List Message) → 1 ≤ n → newest n h ≡ drop (length h - n) h
unfolding newest
newest-eq-drop zero h pos = absurd (omega arith)
newest-eq-drop (suc n) h pos = refl

drop-drop {ℓ} : {A : Type ℓ} (m n : ℕ) (xs : List A) → drop n (drop m xs) ≡ drop (m + n) xs
drop-drop zero n xs = rw zero-add
drop-drop (suc m) zero [] = rw add-zero
drop-drop (suc m) (suc n) [] = rw suc-add
drop-drop (suc m) n (x ∷ xs) = rw suc-add (drop-drop m n xs)

-- One step further back from a cut of the tail, in the whole history.
longest_overall :
    (cap most base cut : ℕ) (h : List Message)
    → base ≡ length h - most
    → (cut ≡ 0) ⊎ ((0 < cut) × (cap < total_chars (drop (cut - 1) (drop base h))))
    → (base + cut ≡ 0)
      ⊎ (most < length (drop (base + cut - 1) h))
      ⊎ (cap < total_chars (drop (base + cut - 1) h))
longest_overall cap most base cut h back (inl uncut) = elim (dec_lt 0 base) [
  | yes some_cut ↦ inr (inl (omega (arith, length-drop (base + cut - 1) h)))
  | no none_cut ↦ inl (omega arith)
]
longest_overall cap most base cut h back (inr (pos, full)) =
    let same : base + (cut - 1) ≡ base + cut - 1 = omega arith in
    inr (inr (rw (drop-drop base (cut - 1) h, same) at full))

tail-Kept :
    (cap base : ℕ) (history tail : List Message)
    → length history ≡ base + length tail
    → Kept cap base tail (keep_newest cap 0 (length history) (reverse tail) [] [])
unfolding total_chars range_from
tail-Kept cap base history tail e =
    subst (λ h. Kept cap base h (keep_newest cap 0 (length history) (reverse tail) [] []))
      (append-nil (reverse (reverse tail)) ∙ reverse-reverse tail)
      (keep_newest-Kept cap base 0 (length history) (reverse tail) [] [] refl
        (omega (arith, e, length-reverse tail)) refl (inl (omega arith)))

budget-IsTrimmed :
    (a : Agent) (history : List Message) (ts_list : Stamps)
    → 1 ≤ a.max_history
    → IsTrimmed a history ts_list (trim_to_char_budget a history ts_list)
unfolding trim_to_char_budget
budget-IsTrimmed a history ts_list pos =
    let base = length history - a.max_history in
    let tail = drop base history in
    rw (newest-eq-drop a.max_history history pos) (
      let k =
        tail-Kept a.max_history_chars base history tail (omega (arith, length-drop base history)) in
      record {
        cut = base + k.cut;
        messages = k.kept ∙ drop-drop base k.cut history;
        stamps = ap (map (stamp_at ts_list)) k.indices;
        count_cap = omega (arith, k.whole, length-drop base history);
        char_cap = k.fits;
        longest =
            longest_overall a.max_history_chars a.max_history base k.cut history refl k.longest;
      })

-- With both limits above 0, trimming leaves a run of the newest messages, each with the timestamp that
-- it had (none where the list of timestamps is too short), at most `max_history` of them, within
-- the character limit unless just one is left, and one more message would pass a limit.
pub trimmed_pair-IsTrimmed :
    (a : Agent) (history : List Message) (ts_list : Stamps)
    → 1 ≤ a.max_history
    → 1 ≤ a.max_history_chars
    → IsTrimmed a history ts_list (trimmed_pair a history ts_list)
unfolding trimmed_pair
trimmed_pair-IsTrimmed a history ts_list pos pos' =
    let on : (a.max_history == 0 || a.max_history_chars == 0) ≡ false = ground arith in
    rw on (elim (Bool-cases (history_within_limits a history)) [
      | inr over ↦ rw over (budget-IsTrimmed a history ts_list pos)
      | inl within ↦ rw within (record {
        cut = 0;
        messages = refl;
        stamps = refl;
        count_cap = unfold history_within_limits in ground (arith, within);
        char_cap = inr (unfold history_within_limits in ground (arith, within));
        longest = inl refl;
      })
    ])
