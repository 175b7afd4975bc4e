-- ===== src/Json.antt =====
-- Decoded JSON values: what Go holds as `any`. An object is a `map[string]any`, here a list of
-- members; a float64 is `float m e` for m / 2^e, which covers every finite value.
use lightsout.Base.{ℕ, String, ◌≡◌, refl, Bool, Option, none, some, List, [], ◌∷◌, arith}
use lightsout.Base.{◌==◌, if◌then◌else◌}
use lightsout.Base.Int.{ℤ}

mutual
  pub data Json : Type 0 where
    null : Json
    bool : Bool → Json
    int : ℤ → Json
    float : ℤ → ℕ → Json
    str : String → Json
    arr : Elems → Json
    obj : Members → Json

  pub data Elems : Type 0 where
    nil : Elems
    cons : Json → Elems → Elems

  pub data Members : Type 0 where
    end : Members
    member : String → Json → Members → Members

-- `m[k]`, with the `ok` of the two-valued form
unfoldable pub get_member : String → Members → Option Json
get_member k end = none
get_member k (member j v m) = if j == k then some v else get_member k m

-- `m[k] = v`
unfoldable pub set_member : String → Json → Members → Members
set_member k v end = member k v end
set_member k v (member j w m) = if j == k then member k v m else member j w (set_member k v m)

-- `delete(m, k)`
unfoldable pub delete_member : String → Members → Members
delete_member k end = end
delete_member k (member j w m) =
    let rest = delete_member k m in if j == k then rest else member j w rest

pub get_member-set_member :
    (k j : String) (v : Json) (m : Members)
    → get_member j (set_member k v m) ≡ (if k == j then some v else get_member j m)
unfolding get_member set_member
get_member-set_member k j v end = refl
get_member-set_member k j v (member i w m) = ground (arith, get_member-set_member k j v m)

pub get_member-delete_member :
    (k j : String) (m : Members)
    → get_member j (delete_member k m) ≡ (if k == j then none else get_member j m)
unfolding get_member delete_member
get_member-delete_member k j end = ground arith
get_member-delete_member k j (member i w m) = ground (arith, get_member-delete_member k j m)

-- The value at a path of object keys.
unfoldable pub dig : List String → Json → Option Json
unfolding get_member
dig [] j = some j
dig (k ∷ ks) (obj m) = elim (get_member k m) [ none ↦ none | some v ↦ dig ks v ]
dig (k ∷ ks) _ = none
