-- ===== src/JsonPointer/RoundTrip.antt =====
-- Parsing what `Format` renders gives the tokens back.
use Prim.Native.Char.{Char}
use Prim.Native.String.append
use text.Mathlib.TextEquality.{Char-path}
use text.Mathlib.TextLemmas.{append-nil}
use lightsout.Base.{
  String, ◌<>◌, ◌≡◌, refl, ap, ◌∙◌, ◌&&◌, not, Bool, true, false, List, [], ◌∷◌, arith,
}
use lightsout.Base.{◌==◌, ◌!=◌, ok}
use lightsout.JsonPointer.{
  is_char, replace_char, replace_pair, unescape, escape, push_front, split, parse_parts, parse,
  format,
}

-- A text without the character.
lacks : Char → String → Bool
lacks a String.[] = true
lacks a (String.◌∷◌ c s) = let rest = lacks a s in not (is_char c a) && rest

-- After the first pass only the tildes are still escaped.
first_pass :
    (t : String)
    → replace_pair "1" "/" false (replace_char "/" "~" "1" (replace_char "~" "~" "0" t))
      ≡ replace_char "~" "~" "0" t
unfolding replace_char replace_pair
first_pass String.[] = refl
first_pass (String.◌∷◌ c t) = ground (arith, first_pass t, Char-path c "/")

-- The second pass restores them.
second_pass : (t : String) → replace_pair "0" "~" false (replace_char "~" "~" "0" t) ≡ t
unfolding replace_char replace_pair
second_pass String.[] = refl
second_pass (String.◌∷◌ c t) = ground (arith, second_pass t, Char-path c "~")

-- The unescaping of an escaped token is the token.
unescape-escape : (t : String) → unescape (escape t) ≡ t
unescape-escape t = ap (replace_pair "0" "~" false) (first_pass t) ∙ second_pass t

escape-lacks : (t : String) → lacks "/" (escape t) ≡ true
unfolding replace_char lacks
escape-lacks String.[] = refl
escape-lacks (String.◌∷◌ c t) = ground (arith, escape-lacks t)

unescape_nil : unescape "" ≡ ""
unfolding replace_pair
unescape_nil = refl

escape-nonempty : (t : String) → (t == "") ≡ false → (escape t == "") ≡ false
escape-nonempty t h = ground (arith, unescape-escape t, unescape_nil)

split-lacks : (s r : String) → lacks "/" s ≡ true → split (s <> String.◌∷◌ "/" r) ≡ s ∷ split r
unfolding split lacks push_front
split-lacks String.[] r h = ap split (append.nil (String.◌∷◌ "/" r))
split-lacks (String.◌∷◌ c s) r h =
    ap split (append.cons c s (String.◌∷◌ "/" r)) ∙ ground (arith, split-lacks s r)

split_end : (s : String) → lacks "/" s ≡ true → split s ≡ s ∷ []
unfolding split lacks push_front
split_end String.[] h = refl
split_end (String.◌∷◌ c s) h = ground (arith, split_end s)

-- A list of tokens, each with at least one character.
unfoldable pub nonempty : List String → Bool
nonempty [] = true
nonempty (t ∷ ts) = let rest = nonempty ts in (t != "") && rest

parse_parts-format :
    (t : String) (ts : List String)
    → nonempty (t ∷ ts) ≡ true
    → parse_parts (split (escape t <> format ts)) ≡ ok (t ∷ ts)
unfolding parse_parts format nonempty
parse_parts-format t [] h =
    rw (append-nil (escape t), split_end (escape t) (escape-lacks t))
      (ground (arith, escape-nonempty t, unescape-escape t))
parse_parts-format t (u ∷ us) h =
    rw (split-lacks (escape t) (escape u <> format us) (escape-lacks t))
      (ground (arith, escape-nonempty t, unescape-escape t, parse_parts-format u us))

-- `Parse` reads the tokens back from what `Format` renders, if there is a token and none is empty.
pub parse-format :
    (t : String) (ts : List String)
    → nonempty (t ∷ ts) ≡ true
    → parse (format (t ∷ ts)) ≡ ok (t ∷ ts)
unfolding parse format
parse-format t ts h = parse_parts-format t ts h
