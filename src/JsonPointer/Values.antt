-- ===== src/JsonPointer/Values.antt =====
-- `GetValue`, `SetValue` and `DeleteValue` of internal/jsonpointer/jsonpointer.go on decoded JSON
-- values. Go changes the maps and slices of the root in place; here each returns the changed root.
pub mod Laws
pub mod Again
pub mod Normal
use lightsout.Base.{ℕ, zero, suc, String, Bool, true, false, Option, none, some, List, [], ◌∷◌}
use lightsout.Base.{Result, ok, err}
use lightsout.Base.Int.{ℤ, pos, negsuc}
use lightsout.Base.Decimal.{atoi}
use lightsout.Json.{
  Json, null, bool, int, float, str, arr, obj, Elems, nil, cons, Members, end, member, get_member,
  set_member, delete_member,
}

unfoldable pub nth : ℕ → Elems → Option Json
nth n nil = none
nth zero (cons x xs) = some x
nth (suc n) (cons x xs) = nth n xs

unfoldable pub set_nth : ℕ → Json → Elems → Elems
set_nth n v nil = nil
set_nth zero v (cons x xs) = cons v xs
set_nth (suc n) v (cons x xs) = cons x (set_nth n v xs)

at_index : ℤ → Elems → Result (ℕ × Json)
at_index (negsuc n) es = err "array index is out of range"
at_index (pos n) es = elim (nth n es) [
  | none ↦ err "array index is out of range"
  | some v ↦ ok (n, v)
]

-- The index that a token stands for, and its element.
unfoldable pub element : String → Elems → Result (ℕ × Json)
unfolding at_index
element token es = elim (atoi token) [
  | none ↦ err "segment is not an array index"
  | some i ↦ at_index i es
]

-- `GetValue`
unfoldable pub get_value : List String → Json → Option Json
get_value [] n = some n
get_value (t ∷ ts) (obj m) = elim (get_member t m) [ none ↦ none | some c ↦ get_value ts c ]
get_value (t ∷ ts) (arr es) = elim (element t es) [ err e ↦ none | ok r ↦ get_value ts r.1 ]
get_value (t ∷ ts) _ = none

-- The child under a key, or a new object where there is none, or null.
child_or_new : Option Json → Json
child_or_new none = obj end
child_or_new (some null) = obj end
child_or_new (some c) = c

-- `SetValue`: the changed root, and the error if there is one.
unfoldable pub set_value : List String → Json → Json → Json × Option String
unfolding child_or_new
set_value [] v n = (n, some "cannot set the document root")
set_value (leaf ∷ []) v (obj m) = (obj (set_member leaf v m), none)
set_value (leaf ∷ []) v (arr es) = elim (element leaf es) [
  | err e ↦ (arr es, some e)
  | ok r ↦ (arr (set_nth r.0 v es), none)
]
set_value (leaf ∷ []) v n = (n, some "parent is not an object or array")
set_value (t ∷ u ∷ us) v (obj m) =
    let (c, e) = set_value (u ∷ us) v (child_or_new (get_member t m)) in (obj (set_member t c m), e)
set_value (t ∷ u ∷ us) v (arr es) = elim (element t es) [
  | err e ↦ (arr es, some e)
  | ok r ↦ let (c, e) = set_value (u ∷ us) v r.1 in (arr (set_nth r.0 c es), e)
]
set_value (t ∷ u ∷ us) v n = (n, some "cannot descend: not an object or array")

-- `DeleteValue`
unfoldable pub delete_value : List String → Json → Json × Option String
delete_value [] n = (n, some "cannot delete the document root")
delete_value (leaf ∷ []) (obj m) = (obj (delete_member leaf m), none)
delete_value (leaf ∷ []) (arr es) = (arr es, none)
delete_value (leaf ∷ []) n = (n, some "parent is not an object")
delete_value (t ∷ u ∷ us) (obj m) = elim (get_member t m) [
  | none ↦ (obj m, none)
  | some c ↦ let (c', e) = delete_value (u ∷ us) c in (obj (set_member t c' m), e)
]
delete_value (t ∷ u ∷ us) (arr es) = elim (element t es) [
  | err e ↦ (arr es, none)
  | ok r ↦ let (c', e) = delete_value (u ∷ us) r.1 in (arr (set_nth r.0 c' es), e)
]
delete_value (t ∷ u ∷ us) n = (n, none)
