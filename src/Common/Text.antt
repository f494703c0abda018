-- ===== src/Common/Text.antt =====
-- What the code uses of Python's `str`, character by character.
use Prim.Native.Char.{Char, code}
use Prim.Native.String.{String}
use Prim.Native.Nat.{ℕ, zero, suc, ◌+◌, ◌-◌}
use mathlib.Core.Bool.{Bool, true, false, ◌&&◌, ◌||◌}
use mathlib.Core.List.{List, [], ◌∷◌}
use text.Mathlib.Text.{◌==◌ as str_eq}
use meetkai.Common.Try.{Try, returned, raised}
use meetkai.Common.Tests.{leb, ◌==◌, if◌then◌else◌}

abbrev between : ℕ → ℕ → ℕ → Bool
between lo hi c = leb lo c && leb c hi

-- `str.isspace` of one character, by its code point
unfoldable pub is_space : ℕ → Bool
is_space c =
    between 9 13 c
    || between 28 32 c
    || c == 133
    || c == 160
    || c == 5760
    || between 8192 8202 c
    || between 8232 8233 c
    || c == 8239
    || c == 8287
    || c == 12288

-- `not s`
abbrev pub is_empty : String → Bool
is_empty String.[] = true
is_empty (String.◌∷◌ c s) = false

-- `len(s)`
abbrev pub char_count : String → ℕ
char_count String.[] = 0
char_count (String.◌∷◌ c s) = suc (char_count s)

unfoldable pub lstrip : String → String
unfolding is_space
lstrip String.[] = String.[]
lstrip (String.◌∷◌ c s) = let rest = lstrip s in if is_space (code c) then rest else String.◌∷◌ c s

unfoldable pub rstrip : String → String
unfolding is_space
rstrip String.[] = String.[]
rstrip (String.◌∷◌ c s) =
    let rest = rstrip s in
    if is_empty rest && is_space (code c) then String.[] else String.◌∷◌ c rest

-- `s.strip()`
unfoldable pub strip : String → String
unfolding lstrip rstrip
strip s = rstrip (lstrip s)

abbrev add_to_first : Char → List String → List String
add_to_first c [] = String.◌∷◌ c String.[] ∷ []
add_to_first c (part ∷ parts) = String.◌∷◌ c part ∷ parts

-- `s.split(sep)` for a separator of one character
unfoldable pub split_on : ℕ → String → List String
split_on sep String.[] = String.[] ∷ []
split_on sep (String.◌∷◌ c s) =
    let parts = split_on sep s in if code c == sep then String.[] ∷ parts else add_to_first c parts

-- The code points of `s.lower()`. Only ASCII letters are mapped: no other letter has a lower case
-- among the ASCII letters that the code compares with.
abbrev pub lower_codes : String → List ℕ
lower_codes String.[] = []
lower_codes (String.◌∷◌ c s) =
    (if between 65 90 (code c) then code c + 32 else code c) ∷ lower_codes s

abbrev pub same_codes : List ℕ → List ℕ → Bool
same_codes [] [] = true
same_codes (a ∷ xs) (b ∷ ys) = a == b && same_codes xs ys
same_codes _ _ = false

abbrev pub append : String → String → String
append String.[] t = t
append (String.◌∷◌ c s) t = String.◌∷◌ c (append s t)

abbrev pub starts_with : String → String → Bool
starts_with String.[] s = true
starts_with (String.◌∷◌ c prefix) String.[] = false
starts_with (String.◌∷◌ c prefix) (String.◌∷◌ d s) = code c == code d && starts_with prefix s

-- `s[n:]`
abbrev pub drop_chars : ℕ → String → String
drop_chars zero s = s
drop_chars (suc n) String.[] = String.[]
drop_chars (suc n) (String.◌∷◌ c s) = drop_chars n s

-- `s.count(c)` for one character
abbrev pub count_char : ℕ → String → ℕ
count_char x String.[] = 0
count_char x (String.◌∷◌ c s) = (if code c == x then 1 else 0) + count_char x s

-- `s.count(pattern)`: matches do not overlap, `skip` characters of the last one are still to pass.
unfoldable pub count_from : ℕ → String → String → ℕ
count_from skip pattern String.[] = 0
count_from (suc skip) pattern (String.◌∷◌ c s) = count_from skip pattern s
count_from zero pattern (String.◌∷◌ c s) =
    let found = starts_with pattern (String.◌∷◌ c s) in
    let rest = count_from (if found then char_count pattern - 1 else 0) pattern s in
    if found then suc rest else rest

-- `s.replace(pattern, by)`
unfoldable pub replace_from : ℕ → String → String → String → String
replace_from skip pattern by String.[] = String.[]
replace_from (suc skip) pattern by (String.◌∷◌ c s) = replace_from skip pattern by s
replace_from zero pattern by (String.◌∷◌ c s) =
    let found = starts_with pattern (String.◌∷◌ c s) in
    let rest = replace_from (if found then char_count pattern - 1 else 0) pattern by s in
    if found then append by rest else String.◌∷◌ c rest

-- `s.splitlines()`: the code points that end a line; `\r\n` is one end.
unfoldable pub ends_line : ℕ → Bool
ends_line c = between 10 13 c || between 28 30 c || c == 133 || between 8232 8233 c

abbrev starts_newline : String → Bool
starts_newline String.[] = false
starts_newline (String.◌∷◌ c s) = code c == 10

unfoldable pub splitlines : String → List String
unfolding ends_line
splitlines String.[] = []
splitlines (String.◌∷◌ c s) =
    let parts = splitlines s in
    if code c == 13 && starts_newline s
    then parts
    else if ends_line (code c)
    then String.[] ∷ parts
    else add_to_first c parts

abbrev starts_space_or_ends : String → Bool
starts_space_or_ends String.[] = true
starts_space_or_ends (String.◌∷◌ c s) = is_space (code c)

-- `s.split()`
unfoldable pub split_words : String → List String
unfolding is_space
split_words String.[] = []
split_words (String.◌∷◌ c s) =
    let parts = split_words s in
    if is_space (code c)
    then parts
    else if starts_space_or_ends s
    then String.◌∷◌ c String.[] ∷ parts
    else add_to_first c parts

-- `s.isascii()`
abbrev pub is_ascii : String → Bool
is_ascii String.[] = true
is_ascii (String.◌∷◌ c s) = leb (code c) 127 && is_ascii s

-- `hmac.compare_digest` of two texts
unfoldable pub compare_digest : String → String → Try Bool
compare_digest a b = if is_ascii a && is_ascii b then returned (str_eq a b) else raised

-- `s[:n]`
abbrev pub take_chars : ℕ → String → String
take_chars zero s = String.[]
take_chars (suc n) String.[] = String.[]
take_chars (suc n) (String.◌∷◌ c s) = String.◌∷◌ c (take_chars n s)
