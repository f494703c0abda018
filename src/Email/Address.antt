-- ===== src/Email/Address.antt =====
-- Addresses: `valid_recipient` of `src/kai/agent/tools/email.py`, the filter of
-- `src/kai/config/filters.py`, and the comparison of addresses, as lists of code points in lower case.
use Prim.Native.Char.{code}
use meetkai.Common.{
  ℕ, String, Bool, true, false, not, ◌&&◌, ◌||◌, List, [], ◌∷◌, any, map, ◌==◌, if◌then◌else◌,
}
use meetkai.Common.Text.{is_empty, is_space, strip, split_on, lower_codes, same_codes}

abbrev has_space : String → Bool
has_space String.[] = false
has_space (String.◌∷◌ c s) = is_space (code c) || has_space s

-- A full stop with something after it.
abbrev dot_before_end : String → Bool
dot_before_end String.[] = false
dot_before_end (String.◌∷◌ c s) = code c == 46 && not (is_empty s) || dot_before_end s

abbrev inner_dot : String → Bool
inner_dot String.[] = false
inner_dot (String.◌∷◌ c s) = dot_before_end s

-- `EMAIL_RE`, on the parts between the @ signs
abbrev is_address : List String → Bool
is_address (user ∷ (domain ∷ [])) =
    not (is_empty user) && (not (has_space user) && (not (has_space domain) && inner_dot domain))
is_address _ = false

abbrev pub same_text : List ℕ → String → Bool
same_text codes text = same_codes codes (lower_codes text)

-- `NO_REPLY`
abbrev is_no_reply : List String → Bool
is_no_reply (user ∷ parts) =
    let name = lower_codes user in
    same_text name "noreply"
    || (same_text name "no-reply" || (same_text name "no_reply" || same_text name "donotreply"))
is_no_reply [] = false

unfoldable pub valid_recipient : String → Bool
unfolding strip split_on is_space
valid_recipient addr =
    let parts = split_on b'@' (strip addr) in is_address parts && not (is_no_reply parts)

-- `text.strip()` on code points
unfoldable pub lstrip_codes : List ℕ → List ℕ
unfolding is_space
lstrip_codes [] = []
lstrip_codes (c ∷ cs) = let rest = lstrip_codes cs in if is_space c then rest else c ∷ cs

abbrev pub no_codes : List ℕ → Bool
no_codes [] = true
no_codes (c ∷ cs) = false

unfoldable pub rstrip_codes : List ℕ → List ℕ
unfolding is_space
rstrip_codes [] = []
rstrip_codes (c ∷ cs) =
    let rest = rstrip_codes cs in if no_codes rest && is_space c then [] else c ∷ rest

unfoldable pub strip_codes : List ℕ → List ℕ
unfolding lstrip_codes rstrip_codes
strip_codes cs = rstrip_codes (lstrip_codes cs)

abbrev starts_codes : List ℕ → List ℕ → Bool
starts_codes [] cs = true
starts_codes (p ∷ ps) [] = false
starts_codes (p ∷ ps) (c ∷ cs) = p == c && starts_codes ps cs

abbrev pub has_codes : List ℕ → List ℕ → Bool
has_codes ps [] = starts_codes ps []
has_codes ps (c ∷ cs) = starts_codes ps (c ∷ cs) || has_codes ps cs

abbrev pub is_in : List (List ℕ) → List ℕ → Bool
is_in texts cs = any (same_codes cs) texts

-- The texts that are looked up: the chat, and in a group the author, if there is one.
abbrev pub identifiers : List ℕ → List ℕ → List (List ℕ)
identifiers chat author =
    if has_codes (lower_codes "@g.us") chat && not (no_codes author)
    then chat ∷ author ∷ []
    else chat ∷ []

abbrev pub no_texts : List (List ℕ) → Bool
no_texts [] = true
no_texts (t ∷ ts) = false

unfoldable pub should_process_chat_message : List ℕ → List ℕ → List (List ℕ) → List (List ℕ) → Bool
unfolding strip_codes
should_process_chat_message chat_id author whitelist blacklist =
    let chat = strip_codes chat_id in
    let ids = identifiers chat (strip_codes author) in
    if no_codes chat
    then false
    else if any (is_in blacklist) ids
    then false
    else if no_texts whitelist
    then true
    else any (is_in whitelist) ids

-- `is_blacklisted` of the email bot
unfoldable pub is_blacklisted : List String → String → Bool
unfolding should_process_chat_message strip
is_blacklisted blacklist source =
    let sender = lower_codes (strip source) in
    not (should_process_chat_message sender sender [] (map lower_codes blacklist))
