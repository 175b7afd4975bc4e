-- ===== src/JsonPointer.antt =====
-- internal/jsonpointer/jsonpointer.go: JSON pointers (RFC 6901) as texts and as lists of tokens.
pub mod RoundTrip
pub mod Expand
pub mod Values
use Prim.Native.Char.{Char, code}
use Prim.Native.String
use lightsout.Base.{ℕ, String, ◌<>◌, Bool, true, false, List, [], ◌∷◌}
use lightsout.Base.{◌==◌, if◌then◌else◌, eqb, Result, ok, err}

abbrev pub is_char : Char → Char → Bool
is_char a c = eqb (code a) (code c)

-- `strings.ReplaceAll` of the character `a` by two others.
unfoldable pub replace_char : Char → Char → Char → String → String
replace_char a x y String.[] = ""
replace_char a x y (String.◌∷◌ c s) =
    let rest = replace_char a x y s in
    if is_char c a then String.◌∷◌ x (String.◌∷◌ y rest) else String.◌∷◌ c rest

-- `strings.ReplaceAll` of a tilde and the character `x` by `y`, with a tilde pending or not.
unfoldable pub replace_pair : Char → Char → Bool → String → String
replace_pair x y false String.[] = ""
replace_pair x y true String.[] = "~"
replace_pair x y false (String.◌∷◌ c s) =
    let after = replace_pair x y true s in
    let rest = replace_pair x y false s in if is_char c "~" then after else String.◌∷◌ c rest
replace_pair x y true (String.◌∷◌ c s) =
    let after = replace_pair x y true s in
    let rest = replace_pair x y false s in
    if is_char c x
    then String.◌∷◌ y rest
    else if is_char c "~"
    then String.◌∷◌ "~" after
    else String.◌∷◌ "~" (String.◌∷◌ c rest)

-- The unescaping of one segment: "~1" first, then "~0".
abbrev pub unescape : String → String
unescape part = replace_pair "0" "~" false (replace_pair "1" "/" false part)

-- The escaping of one token: "~" first, then "/".
abbrev pub escape : String → String
escape token = replace_char "/" "~" "1" (replace_char "~" "~" "0" token)

push_front : Char → List String → List String
push_front c [] = String.◌∷◌ c "" ∷ []
push_front c (p ∷ ps) = String.◌∷◌ c p ∷ ps

-- `strings.Split` at each slash
unfoldable pub split : String → List String
unfolding push_front
split String.[] = "" ∷ []
split (String.◌∷◌ c s) =
    let rest = split s in if is_char c "/" then "" ∷ rest else push_front c rest

-- The loop of `Parse` over the segments.
unfoldable pub parse_parts : List String → Result (List String)
parse_parts [] = ok []
parse_parts (part ∷ parts) =
    let rest = parse_parts parts in
    if part == ""
    then err "JSON Pointer has an empty segment"
    else elim rest [ err e ↦ err e | ok tokens ↦ ok (unescape part ∷ tokens) ]

-- `Parse`. The texts of the errors leave out the pointer.
unfoldable pub parse : String → Result (List String)
parse String.[] = err "empty JSON Pointer"
parse (String.◌∷◌ c s) =
    let rest = parse_parts (split s) in
    if is_char c "/" then rest else err "JSON Pointer must start with \"/\""

-- `Format`
unfoldable pub format : List String → String
format [] = ""
format (t ∷ ts) = String.◌∷◌ "/" (escape t <> format ts)
