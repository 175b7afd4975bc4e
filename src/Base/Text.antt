-- ===== src/Base/Text.antt =====
-- The functions of Go's `strings` that the controller calls.
use Prim.Native.Char.{code}
use Prim.Native.Nat.{ℕ}
use Prim.Native.String.{String}
use mathlib.Core.Bool.{Bool, true, false, ◌&&◌, ◌||◌}
use mathlib.Core.List.{List, [], ◌∷◌}
use lightsout.Base.Tests.{leb, eqb, if◌then◌else◌}

-- `unicode.IsSpace`
abbrev pub is_space : ℕ → Bool
is_space c =
    (leb 9 c && leb c 13)
    || eqb c 32
    || eqb c 0x85
    || eqb c 0xa0
    || eqb c 0x1680
    || (leb 0x2000 c && leb c 0x200a)
    || eqb c 0x2028
    || eqb c 0x2029
    || eqb c 0x202f
    || eqb c 0x205f
    || eqb c 0x3000

trim_left : String → String
trim_left String.[] = ""
trim_left (String.◌∷◌ c s) =
    let rest = trim_left s in if is_space (code c) then rest else String.◌∷◌ c s

is_nil : String → Bool
is_nil String.[] = true
is_nil (String.◌∷◌ c s) = false

trim_right : String → String
trim_right String.[] = ""
trim_right (String.◌∷◌ c s) =
    let rest = trim_right s in if is_nil rest && is_space (code c) then "" else String.◌∷◌ c rest

-- `strings.TrimSpace`
unfoldable pub trim_space : String → String
unfolding trim_left trim_right is_nil
trim_space s = trim_right (trim_left s)

has_prefix_from : String → String → Bool
has_prefix_from s String.[] = true
has_prefix_from String.[] (String.◌∷◌ c p) = false
has_prefix_from (String.◌∷◌ d s) (String.◌∷◌ c p) =
    let rest = has_prefix_from s p in eqb (code d) (code c) && rest

-- `strings.HasPrefix`
unfoldable pub has_prefix : String → String → Bool
unfolding has_prefix_from
has_prefix s p = has_prefix_from s p

-- `strings.Contains` of a string of one character
unfoldable pub has_char : String → ℕ → Bool
has_char String.[] c = false
has_char (String.◌∷◌ d s) c = let rest = has_char s c in eqb (code d) c || rest

add_field : String → List String → List String
add_field String.[] fs = fs
add_field (String.◌∷◌ c f) fs = String.◌∷◌ c f ∷ fs

-- The field that the string begins with, and the later ones.
split_fields : String → String × List String
split_fields String.[] = ("", [])
split_fields (String.◌∷◌ c s) =
    let (f, fs) = split_fields s in
    if is_space (code c) then ("", add_field f fs) else (String.◌∷◌ c f, fs)

-- `strings.Fields`
unfoldable pub fields : String → List String
unfolding add_field split_fields
fields s = let (f, fs) = split_fields s in add_field f fs
