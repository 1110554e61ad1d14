-- ===== src/Redact.antt =====
-- orchestrator/src/redact.ts: what is taken out of a text before it is logged or stored. The two
-- regular expressions are written out as scanners over the codes of the text.
use ma_at.Prelude.{
  ℕ, zero, suc, Bool, true, false, not, ◌&&◌, ◌||◌, Option, none, some, [], ◌∷◌, ◌++◌, leb, ◌==◌,
  if◌then◌else◌, Text, text, to_lower,
}

-- `\s` on the codes below 256.
unfoldable pub is_space : ℕ → Bool
is_space c = (leb 9 c && leb c 13) || (c == 32) || (c == 160)

is_upper : ℕ → Bool
is_upper c = leb b'A' c && leb c b'Z'

is_lower : ℕ → Bool
is_lower c = leb b'a' c && leb c b'z'

is_digit : ℕ → Bool
is_digit c = leb b'0' c && leb c b'9'

-- `\w`
is_word : ℕ → Bool
unfolding is_upper is_lower is_digit
is_word c = is_upper c || is_lower c || is_digit c || (c == b'_')

-- `[A-Za-z0-9_-]`
is_token : ℕ → Bool
unfolding is_word
is_token c = is_word c || (c == b'-')

-- The rest of the text behind a literal that is read without regard to case.
after : Text → Text → Option Text
unfolding to_lower
after [] t = some t
after (p ∷ ps) [] = none
after (p ∷ ps) (c ∷ t) = let rest = after ps t in if to_lower c == p then rest else none

begins_nonspace : Option Text → Bool
unfolding is_space
begins_nonspace none = false
begins_nonspace (some []) = false
begins_nonspace (some (c ∷ t)) = not (is_space c)

-- A match of `https?:\/\/\S+` begins here.
url_starts : Text → Bool
unfolding after begins_nonspace text
url_starts t =
    begins_nonspace (after (text "http://") t) || begins_nonspace (after (text "https://") t)

-- The first `replace`; the flag says that the scan stands inside a match.
url_pass : Bool → Text → Text
unfolding url_starts is_space text
url_pass inside [] = []
url_pass true (c ∷ t) =
    let rest = url_pass (not (is_space c)) t in if is_space c then c ∷ rest else rest
url_pass false (c ∷ t) =
    let rest = url_pass (url_starts (c ∷ t)) t in
    if url_starts (c ∷ t) then text "[redacted-url]" ++ rest else c ∷ rest

-- Whether a text, or the place before it, is a word character; the ends are none.
head_is_word : Text → Bool
unfolding is_word
head_is_word [] = false
head_is_word (c ∷ t) = is_word c

-- `\b` between a place with a word character before it, or not, and the text behind it.
boundary : Bool → Text → Bool
unfolding head_is_word
boundary before t = if head_is_word t then not before else before

-- `(?!0x)`
is_0x : Text → Bool
is_0x (a ∷ b ∷ t) = (a == b'0') && (b == b'x')
is_0x t = false

-- `[A-Z0-9_]*\b`: no boundary stands inside a run of word characters, so it is at the run's end.
screaming_rest : Text → Bool
unfolding is_word is_upper is_digit
screaming_rest [] = true
screaming_rest (c ∷ t) =
    let rest = screaming_rest t in
    if is_upper c || is_digit c || (c == b'_') then rest else not (is_word c)

-- `[A-Z][A-Z0-9_]*\b`
is_screaming : Text → Bool
unfolding screaming_rest is_upper
is_screaming [] = false
is_screaming (c ∷ t) = is_upper c && screaming_rest t

-- `[a-z]+(?:_[a-z]+)+(?![A-Za-z0-9_-])`: the flags say that a letter stands before this place, and
-- that an underscore was seen.
is_snake : Bool → Bool → Text → Bool
unfolding is_lower is_token
is_snake letter under [] = letter && under
is_snake letter under (c ∷ t) =
    let rest = is_snake (is_lower c) (under || (c == b'_')) t in
    if is_lower c || ((c == b'_') && letter) then rest else letter && under && not (is_token c)

-- The longest prefix of `[A-Za-z0-9_-]{24,}` that ends at a boundary: `n` characters are read, and
-- `best` is the longest length found among the shorter prefixes.
longest : ℕ → Bool → ℕ → Text → ℕ
unfolding boundary is_token is_word
longest n before best [] = if leb 24 n && before then n else best
longest n before best (c ∷ t) =
    let found = if leb 24 n && boundary before (c ∷ t) then n else best in
    let rest = longest (suc n) (is_word c) found t in if is_token c then rest else found

-- The length of the second expression's match at this place, or 0.
token_match : Bool → Text → ℕ
unfolding boundary is_0x is_screaming is_snake longest
token_match before t =
    if boundary before t && not (is_0x t) && not (is_screaming t) && not (is_snake false false t)
    then longest 0 before 0 t
    else 0

-- The second `replace`: `skip` characters of a match are still to be dropped.
token_pass : ℕ → Bool → Text → Text
unfolding token_match is_word text
token_pass skip before [] = []
token_pass (suc skip) before (c ∷ t) = token_pass skip (is_word c) t
token_pass zero before (c ∷ t) = elim (token_match before (c ∷ t)) [
  | zero ↦ c ∷ token_pass zero (is_word c) t
  | suc n ↦ text "[redacted]" ++ token_pass n (is_word c) t
]

unfoldable pub redact : Text → Text
unfolding url_pass token_pass
redact t = token_pass 0 false (url_pass false t)
