-- ===== src/ActionParsing.antt =====
-- `src/kai/agent/action_parsing.py`: what is cleaned from a model's text, and what is recovered from
-- a text that is not the JSON that the model was asked for.
pub mod Channels
pub mod Repair
use Prim.Native.Char.{Char, code}
use meetkai.Common.{
  ℕ, zero, suc, ◌+◌, ◌-◌, ◌%◌, ◌≡◌, refl, String, Bool, true, false, not, ◌&&◌, ◌||◌, Option, none,
  some, List, [], ◌∷◌, ltb, leb, ◌==◌, if◌then◌else◌,
}
use meetkai.Common.Text.{
  is_empty, is_space, char_count, strip, append, starts_with, drop_chars, count_char, count_from,
  replace_from, splitlines,
}
use meetkai.Common.Dict.{Dict, put}

-- The length of a channel marker `<\|?channel\|?>` at the start of the text, 0 if there is none.
unfoldable pub marker_length : String → ℕ
marker_length s =
    if starts_with "<channel>" s
    then 9
    else if starts_with "<|channel>" s || starts_with "<channel|>" s
    then 10
    else if starts_with "<|channel|>" s
    then 11
    else 0

-- How far the first marker of the text reaches.
unfoldable pub marker_end : String → Option ℕ
unfolding marker_length
marker_end String.[] = none
marker_end (String.◌∷◌ c s) =
    let n = marker_length (String.◌∷◌ c s) in
    let rest = marker_end s in
    if n == 0 then elim rest [ none ↦ none | some e ↦ some (suc e) ] else some n

-- The length of the block from a marker at the start to the end of the next marker, 0 if none.
unfoldable pub block_length : String → ℕ
unfolding marker_length marker_end
block_length s =
    let n = marker_length s in
    if n == 0 then 0 else elim (marker_end (drop_chars n s)) [ none ↦ 0 | some e ↦ n + e ]

-- `re.sub` with no replacement: `match_length` is the length of a match at the start of a text, or
-- 0; `skip` characters of the last match are still to pass.
unfoldable pub cut_matches : (String → ℕ) → ℕ → String → String
cut_matches match_length skip String.[] = String.[]
cut_matches match_length (suc skip) (String.◌∷◌ c s) = cut_matches match_length skip s
cut_matches match_length zero (String.◌∷◌ c s) =
    let n = match_length (String.◌∷◌ c s) in
    let rest = cut_matches match_length (n - 1) s in if n == 0 then String.◌∷◌ c rest else rest

unfoldable pub strip_reasoning_channels : String → String
unfolding cut_matches block_length marker_length strip
strip_reasoning_channels text =
    if is_empty text
    then text
    else strip (cut_matches marker_length 0 (cut_matches block_length 0 text))

unfoldable pub unescape_literal_newlines : String → String
unfolding count_from replace_from
unescape_literal_newlines text =
    if is_empty text || not (count_char b'\n' text == 0)
    then text
    else if ltb (count_from 0 "\\n" text) 2
    then text
    else replace_from 0 "\\r" "\r" (replace_from 0 "\\n" "\n" (replace_from 0 "\\r\\n" "\r\n" text))

-- Some text that is not empty, or none.
abbrev pub truthy_text : Option String → Option String
truthy_text none = none
truthy_text (some t) = if is_empty t then none else some t

-- The text of the normalized action.
unfoldable pub normalize_text : Option String → Option String
unfolding strip_reasoning_channels unescape_literal_newlines
normalize_text none = none
normalize_text (some text) =
    if is_empty text
    then some text
    else some (unescape_literal_newlines (strip_reasoning_channels text))

-- `[\s\-*]*`
abbrev drop_bullets : String → String
drop_bullets String.[] = String.[]
drop_bullets (String.◌∷◌ c s) =
    let rest = drop_bullets s in
    if is_space (code c) || code c == b'-' || code c == b'*' then rest else String.◌∷◌ c s

-- `["\']?`
abbrev drop_quote : String → String
drop_quote String.[] = String.[]
drop_quote (String.◌∷◌ c s) = if code c == b'"' || code c == b'\'' then s else String.◌∷◌ c s

-- `(\w+)`, if it matches a character: the word and what follows. `is_word` is `\w` of the `re` module.
abbrev pub span_word : (ℕ → Bool) → String → String × String
span_word is_word String.[] = (String.[], String.[])
span_word is_word (String.◌∷◌ c s) =
    let (word, rest) = span_word is_word s in
    if is_word (code c) then (String.◌∷◌ c word, rest) else (String.[], String.◌∷◌ c s)

abbrev drop_spaces : String → String
drop_spaces String.[] = String.[]
drop_spaces (String.◌∷◌ c s) =
    let rest = drop_spaces s in if is_space (code c) then rest else String.◌∷◌ c s

abbrev separated : String → Option String
separated String.[] = none
separated (String.◌∷◌ c s) = if code c == b':' || code c == b'=' then some s else none

-- `KV_LINE_RE.match(line)`: the two groups.
unfoldable pub match_kv_line : (ℕ → Bool) → String → Option (String × String)
unfolding is_space
match_kv_line is_word line =
    let (word, rest) = span_word is_word (drop_quote (drop_bullets line)) in
    if is_empty word then none else elim (separated (drop_spaces (drop_quote rest))) [
      | none ↦ none
      | some value ↦ some (word, drop_spaces value)
    ]

abbrev drop_while : (ℕ → Bool) → String → String
drop_while p String.[] = String.[]
drop_while p (String.◌∷◌ c s) =
    let rest = drop_while p s in if p (code c) then rest else String.◌∷◌ c s

abbrev drop_trailing : (ℕ → Bool) → String → String
drop_trailing p String.[] = String.[]
drop_trailing p (String.◌∷◌ c s) =
    let rest = drop_trailing p s in
    if is_empty rest && p (code c) then String.[] else String.◌∷◌ c rest

abbrev is_quote : ℕ → Bool
is_quote c = c == b'"' || c == b'\'' || c == b'`'

-- `match.group(2).strip().rstrip(",").strip("\"'`")`
unfoldable pub kv_value : String → String
unfolding strip
kv_value text =
    drop_trailing is_quote (drop_while is_quote (drop_trailing (λ c. c == b',') (strip text)))

unfoldable pub parse_kv : (ℕ → Bool) → List String → Dict String → Dict String
unfolding match_kv_line kv_value strip
parse_kv is_word [] result = result
parse_kv is_word (raw ∷ lines) result =
    let line = strip raw in
    let next =
      if is_empty line || starts_with "#" line || starts_with "```" line
      then result
      else elim (match_kv_line is_word line) [
        | none ↦ result
        | some (key, value) ↦
            if is_empty (strip key) then result else put (strip key) (kv_value value) result
      ] in
    parse_kv is_word lines next

unfoldable pub parse_kv_lines : (ℕ → Bool) → String → Dict String
unfolding parse_kv splitlines strip
parse_kv_lines is_word text = parse_kv is_word (splitlines (strip text)) []

-- `text[text.find("{"):]`
unfoldable pub from_brace : String → Option String
from_brace String.[] = none
from_brace (String.◌∷◌ c s) =
    let rest = from_brace s in if code c == b'{' then some (String.◌∷◌ c s) else rest

-- The text up to its last `}`.
unfoldable pub through_last_brace : String → Option String
through_last_brace String.[] = none
through_last_brace (String.◌∷◌ c s) = elim (through_last_brace s) [
  | some r ↦ some (String.◌∷◌ c r)
  | none ↦ if code c == b'}' then some (String.◌∷◌ c String.[]) else none
]

-- `"}" * n`
abbrev pub closing : ℕ → String
closing zero = String.[]
closing (suc n) = append "}" (closing n)

abbrev pub or_text : Option String → String → String
or_text none t = t
or_text (some s) t = s

abbrev close_quote : String → String
close_quote s = if count_char b'"' s % 2 == 1 then append s "\"" else s

-- The count of `{` less that of `}` is 0 on ℕ where it is negative, and then no brace is added.
abbrev close_braces : String → String
close_braces s = append s (closing (count_char b'{' s - count_char b'}' s))

unfoldable pub repair_json : String → Option String
unfolding from_brace through_last_brace
repair_json text = elim (from_brace text) [
  | none ↦ none
  | some left ↦ some (close_braces (close_quote (or_text (through_last_brace left) left)))
]
