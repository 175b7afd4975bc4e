-- ===== src/Tests/Pointers.antt =====
-- JSON pointers on concrete texts and documents.
use lightsout.Base.{◌≡◌, refl, String, List, [], ◌∷◌, ok, err, String-discrete}
use lightsout.Base.Int.{pos}
use lightsout.Base.Decimal.{parse_int}
use lightsout.Json.{
  float, Json, int, arr, obj, nil, cons, end, member, get_member, set_member, delete_member,
}
use lightsout.JsonPointer.{replace_char, replace_pair, split, parse_parts, parse, format}
use lightsout.JsonPointer.RoundTrip.{nonempty, parse-format}
use lightsout.JsonPointer.Values.{nth, set_nth, element, get_value, set_value, delete_value}
use lightsout.JsonPointer.Values.Normal.{normalize_value, normalize_float}

run_pointers : Unit {0}
unfolding String-discrete replace_char replace_pair split parse_parts parse format nth set_nth
    element get_value set_value delete_value get_member set_member delete_member parse_int
run_pointers = tt

abbrev tokens : List String
tokens = "metadata" ∷ "example.com/~01" ∷ []

pointer_runs :
    (format tokens ≡ "/metadata/example.com~1~001")
    × (parse "/a~01/b" ≡ ok ("a~1" ∷ "b" ∷ []))
    × (parse "/a//b" ≡ err "JSON Pointer has an empty segment")
unfolding run_pointers
pointer_runs = (refl, refl, refl)

parse-format_example : parse (format tokens) ≡ ok tokens
unfolding String-discrete nonempty
parse-format_example = parse-format "metadata" ("example.com/~01" ∷ []) refl

abbrev document : Json
document = obj (member "spec" (obj (member "items" (arr (cons (int (pos 1)) nil)) end)) end)

abbrev decoded : Json
decoded = obj (member "replicas" (float (pos 6) 1) (member "ratio" (float (pos 3) 1) end))

normalize_runs :
    normalize_value (pos 0) decoded
    ≡ obj (member "replicas" (int (pos 3)) (member "ratio" (float (pos 3) 1) end))
unfolding normalize_value normalize_float
normalize_runs = refl
