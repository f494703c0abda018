-- ===== src/ActionParsing/Channels.antt =====
-- What `strip_reasoning_channels` removes from a text.
use Prim.Native.Char.{Char, code}
use meetkai.Common.{
  ℕ, zero, suc, ◌+◌, ◌-◌, ◌≤◌, ◌≡◌, refl, ap, sym, ◌∙◌, inl, inr, ◌⊎◌, String, false, none, some,
  arith, ◌==◌, Bool-cases,
}
use meetkai.Common.Text.{append, count_char, drop_chars, char_count, strip, lstrip, rstrip}
use meetkai.ActionParsing.{
  marker_length, marker_end, block_length, cut_matches, strip_reasoning_channels,
}

cut_nothing :
    (match_length : String → ℕ) (s : String)
    → ((c : Char) (t : String)
        → marker_end (String.◌∷◌ c t) ≡ none
        → match_length (String.◌∷◌ c t) ≡ 0)
    → marker_end s ≡ none
    → cut_matches match_length 0 s ≡ s
unfolding cut_matches marker_end
cut_nothing match_length String.[] never h = refl
cut_nothing match_length (String.◌∷◌ c s) never h =
    elim (Bool-cases (marker_length (String.◌∷◌ c s) == 0)) [
      | inr here ↦ absurd (ground (arith, here))
      | inl clear ↦
          let later : marker_end s ≡ none = ground (arith, clear) in
          rw (never c s (ground (arith, clear)), cut_nothing match_length s never later)
    ]

no_marker_here :
    (c : Char) (t : String)
    → marker_end (String.◌∷◌ c t) ≡ none
    → marker_length (String.◌∷◌ c t) ≡ 0
unfolding marker_end
no_marker_here c t h = elim (Bool-cases (marker_length (String.◌∷◌ c t) == 0)) [
  | inr here ↦ absurd (ground (arith, here))
  | inl clear ↦ ground (arith, clear)
]

no_block_here :
    (c : Char) (t : String) → marker_end (String.◌∷◌ c t) ≡ none → block_length (String.◌∷◌ c t) ≡ 0
unfolding block_length
no_block_here c t h = rw (no_marker_here c t h)

stripped :
    (text : String)
    → strip_reasoning_channels text
      ≡ strip (cut_matches marker_length 0 (cut_matches block_length 0 text))
unfolding strip_reasoning_channels strip lstrip rstrip cut_matches
stripped String.[] = refl
stripped (String.◌∷◌ c s) = refl

-- A text without a channel marker is only stripped of white space.
pub strip_reasoning_channels-unmarked :
    (text : String) → marker_end text ≡ none → strip_reasoning_channels text ≡ strip text
strip_reasoning_channels-unmarked text h =
    stripped text
    ∙ ap strip (
        ap (cut_matches marker_length 0) (cut_nothing block_length text no_block_here h)
        ∙ cut_nothing marker_length text no_marker_here h)

-- The four forms of a marker.
abbrev pub IsMarker : String → Type 0
IsMarker m = (m ≡ "<channel>") ⊎ (m ≡ "<|channel>") ⊎ (m ≡ "<channel|>") ⊎ (m ≡ "<|channel|>")

-- No character of the text starts a marker.
abbrev pub IsPlain : String → Type 0
IsPlain s = count_char b'<' s ≡ 0

not_marker : (c : Char) (s : String) → (code c == b'<') ≡ false → marker_length (String.◌∷◌ c s) ≡ 0
unfolding marker_length
not_marker c s h = ground (arith, h)

IsPlain-head :
    (c : Char) (s : String) → IsPlain (String.◌∷◌ c s) → ((code c == b'<') ≡ false) × IsPlain s
IsPlain-head c s h = (ground (arith, h), ground (arith, h))

marker_end-marker :
    (m rest : String) → IsMarker m → marker_end (append m rest) ≡ some (char_count m)
unfolding marker_end marker_length
marker_end-marker m rest (inl e) = rw e refl
marker_end-marker m rest (inr (inl e)) = rw e refl
marker_end-marker m rest (inr (inr (inl e))) = rw e refl
marker_end-marker m rest (inr (inr (inr e))) = rw e refl

marker_length-marker : (m rest : String) → IsMarker m → marker_length (append m rest) ≡ char_count m
unfolding marker_length
marker_length-marker m rest (inl e) = rw e refl
marker_length-marker m rest (inr (inl e)) = rw e refl
marker_length-marker m rest (inr (inr (inl e))) = rw e refl
marker_length-marker m rest (inr (inr (inr e))) = rw e refl

marker_end-plain :
    (t rest : String) (n : ℕ)
    → IsPlain t
    → marker_end rest ≡ some n
    → marker_end (append t rest) ≡ some (char_count t + n)
unfolding marker_end
marker_end-plain String.[] rest n plain h = h ∙ ap some (omega arith)
marker_end-plain (String.◌∷◌ c t) rest n plain h =
    let (head, tail) = IsPlain-head c t plain in
    rw (not_marker c (append t rest) head, marker_end-plain t rest n tail h) (ap some (omega arith))

drop_chars-append : (s t : String) → drop_chars (char_count s) (append s t) ≡ t
drop_chars-append String.[] t = refl
drop_chars-append (String.◌∷◌ c s) t = drop_chars-append s t

drop_chars-add :
    (s t : String) (n : ℕ) → drop_chars (char_count s + n) (append s t) ≡ drop_chars n t
drop_chars-add String.[] t n = ap (λ k. drop_chars k t) (omega arith)
drop_chars-add (String.◌∷◌ c s) t n =
    let more : suc (char_count s) + n ≡ suc (char_count s + n) = omega arith in
    rw more (drop_chars-add s t n)

cut-skip :
    (match_length : String → ℕ) (k : ℕ) (s : String)
    → cut_matches match_length k s ≡ cut_matches match_length 0 (drop_chars k s)
unfolding cut_matches
cut-skip match_length zero s = refl
cut-skip match_length (suc k) String.[] = refl
cut-skip match_length (suc k) (String.◌∷◌ c s) = cut-skip match_length k s

cut-plain :
    (match_length : String → ℕ) (t rest : String)
    → ((c : Char) (s : String) → (code c == b'<') ≡ false → match_length (String.◌∷◌ c s) ≡ 0)
    → IsPlain t
    → cut_matches match_length 0 (append t rest) ≡ append t (cut_matches match_length 0 rest)
unfolding cut_matches
cut-plain match_length String.[] rest never plain = refl
cut-plain match_length (String.◌∷◌ c t) rest never plain =
    let (head, tail) = IsPlain-head c t plain in
    rw (never c (append t rest) head, cut-plain match_length t rest never tail)

not_block : (c : Char) (s : String) → (code c == b'<') ≡ false → block_length (String.◌∷◌ c s) ≡ 0
unfolding block_length
not_block c s h = rw (not_marker c s h)

marker_pos : (m : String) → IsMarker m → 1 ≤ char_count m
marker_pos m (inl e) = rw e (omega arith)
marker_pos m (inr (inl e)) = rw e (omega arith)
marker_pos m (inr (inr (inl e))) = rw e (omega arith)
marker_pos m (inr (inr (inr e))) = rw e (omega arith)

block_length-block :
    (opening thought ending after : String)
    → IsMarker opening
    → IsMarker ending
    → IsPlain thought
    → block_length (append opening (append thought (append ending after)))
      ≡ char_count opening + (char_count thought + char_count ending)
unfolding block_length
block_length-block opening thought ending after o c plain =
    let first = marker_length-marker opening (append thought (append ending after)) o in
    let far =
      marker_end-plain thought (append ending after) (char_count ending) plain
        (marker_end-marker ending after c) in
    let some_length : (char_count opening == 0) ≡ false = ground (arith, marker_pos opening o) in
    rw (first, some_length, drop_chars-append opening (append thought (append ending after)), far)
      (rw first refl)

cut-match :
    (match_length : String → ℕ) (s : String)
    → 1 ≤ match_length s
    → 1 ≤ char_count s
    → cut_matches match_length 0 s ≡ cut_matches match_length 0 (drop_chars (match_length s) s)
unfolding cut_matches
cut-match match_length String.[] found long = absurd (omega (arith, long))
cut-match match_length (String.◌∷◌ c s) found long =
    let hit : (match_length (String.◌∷◌ c s) == 0) ≡ false = ground (arith, found) in
    let n : match_length (String.◌∷◌ c s) ≡ suc (match_length (String.◌∷◌ c s) - 1) =
      omega (arith, found) in
    rw hit (
      cut-skip match_length (match_length (String.◌∷◌ c s) - 1) s
      ∙ ap (λ k. cut_matches match_length 0 (drop_chars k (String.◌∷◌ c s))) (sym n))

drop_block :
    (opening thought ending after : String)
    → drop_chars
        (char_count opening + (char_count thought + char_count ending))
        (append opening (append thought (append ending after)))
      ≡ after
drop_block opening thought ending after =
    drop_chars-add opening (append thought (append ending after))
      (char_count thought + char_count ending)
    ∙ drop_chars-add thought (append ending after) (char_count ending)
    ∙ drop_chars-append ending after

char_count-append : (s t : String) → char_count s ≤ char_count (append s t)
char_count-append String.[] t = omega arith
char_count-append (String.◌∷◌ c s) t = omega (arith, char_count-append s t)

append_nil : (s : String) → append s String.[] ≡ s
append_nil String.[] = refl
append_nil (String.◌∷◌ c s) = ap (String.◌∷◌ c) (append_nil s)

cut-plain_text :
    (match_length : String → ℕ) (t : String)
    → ((c : Char) (s : String) → (code c == b'<') ≡ false → match_length (String.◌∷◌ c s) ≡ 0)
    → IsPlain t
    → cut_matches match_length 0 t ≡ t
unfolding cut_matches
cut-plain_text match_length t never plain =
    ap (cut_matches match_length 0) (sym (append_nil t))
    ∙ cut-plain match_length t String.[] never plain
    ∙ append_nil t

IsPlain-append : (s t : String) → IsPlain s → IsPlain t → IsPlain (append s t)
IsPlain-append String.[] t p q = q
IsPlain-append (String.◌∷◌ c s) t p q =
    let (head, tail) = IsPlain-head c s p in
    let rest = IsPlain-append s t tail q in rw head (omega (arith, rest))

-- A block from a channel marker to the next one is removed with both markers and all that stands
-- between them, where nothing else in the text has the character that starts a marker.
pub strip_reasoning_channels-block :
    (before opening thought ending after : String)
    → IsMarker opening
    → IsMarker ending
    → IsPlain before
    → IsPlain thought
    → IsPlain after
    → strip_reasoning_channels
        (append before (append opening (append thought (append ending after))))
      ≡ strip (append before after)
strip_reasoning_channels-block before opening thought ending after o e pb pt pa =
    let block = append opening (append thought (append ending after)) in
    let size = block_length-block opening thought ending after o e pt in
    let long : 1 ≤ block_length block = omega (arith, size, marker_pos opening o) in
    let some_text : 1 ≤ char_count block = omega (
      arith,
      marker_pos opening o,
      char_count-append opening (append thought (append ending after)),
    ) in
    let cut_block : cut_matches block_length 0 block ≡ after =
      cut-match block_length block long some_text
      ∙ ap (λ k. cut_matches block_length 0 (drop_chars k block)) size
      ∙ ap (cut_matches block_length 0) (drop_block opening thought ending after)
      ∙ cut-plain_text block_length after not_block pa in
    let cut_all : cut_matches block_length 0 (append before block) ≡ append before after =
      cut-plain block_length before block not_block pb ∙ ap (append before) cut_block in
    stripped (append before block)
    ∙ ap strip (
        ap (cut_matches marker_length 0) cut_all
        ∙ cut-plain_text marker_length (append before after) not_marker
            (IsPlain-append before after pb pa))
