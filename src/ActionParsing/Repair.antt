-- ===== src/ActionParsing/Repair.antt =====
-- The quotes and braces of a repaired text.
use meetkai.Common.{
  ℕ, zero, suc, ◌+◌, ◌-◌, ◌%◌, ◌≤◌, ◌≡◌, refl, ap, ◌∙◌, inl, inr, String, some, arith, ◌==◌,
  Bool-cases, Option-cases,
}
use meetkai.Common.Text.{append, count_char}
use meetkai.ActionParsing.{
  closing, or_text, close_quote, close_braces, from_brace, through_last_brace, repair_json,
}

count_char-append :
    (x : ℕ) (s t : String) → count_char x (append s t) ≡ count_char x s + count_char x t
count_char-append x String.[] t = omega arith
count_char-append x (String.◌∷◌ c s) t = omega (arith, count_char-append x s t)

count-closing :
    (n : ℕ)
    → (count_char b'}' (closing n) ≡ n)
      × (count_char b'{' (closing n) ≡ 0)
      × (count_char b'"' (closing n) ≡ 0)
count-closing zero = (refl, refl, refl)
count-closing (suc n) =
    let r = count-closing n in (omega (arith, r.0), omega (arith, r.1), omega (arith, r.2))

close_quote-even : (s : String) → count_char b'"' (close_quote s) % 2 ≡ 0
close_quote-even s = elim (Bool-cases (count_char b'"' s % 2 == 1)) [
  | inl odd ↦ rw odd (let sum = count_char-append b'"' s "\"" in ground (arith, sum, odd))
  | inr even ↦ rw even (ground (arith, even))
]

close_braces-enough :
    (s : String)
    → (count_char b'{' (close_braces s) ≤ count_char b'}' (close_braces s))
      × (count_char b'"' (close_braces s) ≡ count_char b'"' s)
close_braces-enough s =
    let n = count_char b'{' s - count_char b'}' s in
    let c = count-closing n in
    let opens = count_char-append b'{' s (closing n) in
    let closes = count_char-append b'}' s (closing n) in
    let quotes = count_char-append b'"' s (closing n) in
    (omega (arith, opens, closes, c.0, c.1), omega (arith, quotes, c.2))

-- A text that is recovered has an even number of double quotes and no more opening than closing
-- braces.
pub repair_json-balanced :
    (text r : String)
    → repair_json text ≡ some r
    → (count_char b'"' r % 2 ≡ 0) × (count_char b'{' r ≤ count_char b'}' r)
unfolding repair_json
repair_json-balanced text r h = elim (Option-cases (from_brace text)) [
  | inl missing ↦ absurd (cc (rw (missing, repair_json) at h))
  | inr (left, found) ↦
      let base = close_quote (or_text (through_last_brace left) left) in
      let same : close_braces base ≡ r = cc (rw (found, repair_json) at h) in
      let enough = close_braces-enough base in
      rw (← same) (
        ap (λ n. n % 2) enough.1 ∙ close_quote-even (or_text (through_last_brace left) left),
        enough.0,
      )
]
