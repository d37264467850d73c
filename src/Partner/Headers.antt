-- ===== src/Partner/Headers.antt =====
-- The part of src/api/provider-auth.ts that finds the key in a request's headers.
use Prim.Native.Char.{code}
use base_layer.Base.{
  ℕ, Bool, true, ◌&&◌, ◌||◌, not, Option, none, some, List, [], ◌∷◌, String, if◌then◌else◌, nat_eq,
  leb, ◌==◌, ◌+◌, truthy,
}
use base_layer.Base.Dict.{Dict, lookup}

pub data HeaderValue : Type 0 where
  single : String → HeaderValue
  several : List String → HeaderValue

abbrev pub Headers : Type 0
Headers = Dict HeaderValue

abbrev value_of : Option HeaderValue → Option String
value_of none = none
value_of (some (single s)) = some s
value_of (some (several [])) = none
value_of (some (several (s ∷ rest))) = some s

unfoldable pub read_header_value : Headers → String → Option String
read_header_value headers name = value_of (lookup name headers)

-- The line terminators of JavaScript, which `.` does not match.
is_line_terminator : ℕ → Bool
is_line_terminator c = nat_eq c 0x0a || nat_eq c 0x0d || nat_eq c 0x2028 || nat_eq c 0x2029

-- The white space that `\s` matches and `trim` removes.
is_space : ℕ → Bool
unfolding is_line_terminator
is_space c =
    nat_eq c 0x09
    || nat_eq c 0x0b
    || nat_eq c 0x0c
    || nat_eq c 0x20
    || nat_eq c 0xa0
    || nat_eq c 0x1680
    || (leb 0x2000 c && leb c 0x200a)
    || nat_eq c 0x202f
    || nat_eq c 0x205f
    || nat_eq c 0x3000
    || nat_eq c 0xfeff
    || is_line_terminator c

unfoldable pub trim_start : String → String
unfolding is_space
trim_start String.[] = ""
trim_start (String.◌∷◌ c s) =
    let rest = trim_start s in if is_space (code c) then rest else String.◌∷◌ c s

trim_end : String → String
unfolding is_space
trim_end String.[] = ""
trim_end (String.◌∷◌ c s) =
    let rest = trim_end s in if is_space (code c) && rest == "" then "" else String.◌∷◌ c rest

-- `s.trim()`
unfoldable pub trim : String → String
unfolding trim_start trim_end
trim s = trim_end (trim_start s)

lower : ℕ → ℕ
lower c = if leb b'A' c && leb c b'Z' then c + 32 else c

-- Without the characters of a lower-case ASCII word, in either case.
strip_word : List ℕ → String → Option String
unfolding lower
strip_word [] s = some s
strip_word (w ∷ ws) String.[] = none
strip_word (w ∷ ws) (String.◌∷◌ c s) =
    let rest = strip_word ws s in if nat_eq (lower (code c)) w then rest else none

no_line_terminator : String → Bool
unfolding is_line_terminator
no_line_terminator String.[] = true
no_line_terminator (String.◌∷◌ c s) = not (is_line_terminator (code c)) && no_line_terminator s

-- `(.+)$`
dots : String → Option String
unfolding no_line_terminator
dots s = if not (s == "") && no_line_terminator s then some s else none

abbrev first_match : Option String → Option String → Option String
first_match none s = s
first_match (some r) s = some r

-- `\s+(.+)$`, with the white space taken greedily and given back where nothing would be left
spaces_dots : String → Option String
unfolding dots is_space
spaces_dots String.[] = none
spaces_dots (String.◌∷◌ c s) =
    let more = spaces_dots s in if is_space (code c) then first_match more (dots s) else none

abbrev bearer_word : List ℕ
bearer_word = b'b' ∷ b'e' ∷ b'a' ∷ b'r' ∷ b'e' ∷ b'r' ∷ []

abbrev trimmed : Option String → Option String
trimmed none = none
trimmed (some s) = some (trim s)

abbrev after_word : Option String → Option String
after_word none = none
after_word (some s) = spaces_dots s

-- `auth.match(/^Bearer\s+(.+)$/i)?.[1]?.trim()`
unfoldable pub bearer_token : String → Option String
unfolding strip_word spaces_dots trim
bearer_token auth = trimmed (after_word (strip_word bearer_word auth))

abbrev bearer_of : Option String → Option String
bearer_of none = none
bearer_of (some auth) = if auth == "" then none else bearer_token auth

unfoldable pub extract_api_key : Headers → Option String
unfolding read_header_value bearer_token
extract_api_key headers =
    let explicit = read_header_value headers "x-baselayer-api-key" in
    if truthy explicit
    then trimmed explicit
    else bearer_of (read_header_value headers "authorization")
