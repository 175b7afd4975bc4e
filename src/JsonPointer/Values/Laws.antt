-- ===== src/JsonPointer/Values/Laws.antt =====
-- What is read back after a write or a removal.
use lightsout.Base.{
  ℕ, zero, suc, ◌≡◌, refl, ap, String, Option, none, some, List, [], ◌∷◌, inl, inr, arith, ok,
  Result-cases,
}
use lightsout.Json.{
  Json, null, bool, int, float, str, arr, obj, Elems, nil, cons, Members, end, member, get_member,
  set_member, delete_member, get_member-set_member, get_member-delete_member,
}
use lightsout.JsonPointer.Values.{
  nth, set_nth, at_index, element, get_value, child_or_new, set_value, delete_value,
}

nth-set_nth :
    (n : ℕ) (v w : Json) (es : Elems) → nth n es ≡ some w → nth n (set_nth n v es) ≡ some v
unfolding nth set_nth
nth-set_nth n v w nil h = cc
nth-set_nth zero v w (cons x xs) h = refl
nth-set_nth (suc n) v w (cons x xs) h = nth-set_nth n v w xs h

-- Writing an element keeps its index.
pub element-set_nth :
    (t : String) (es : Elems) (n : ℕ) (v w : Json)
    → element t es ≡ ok (n, w)
    → element t (set_nth n v es) ≡ ok (n, v)
unfolding element at_index
element-set_nth t es n v w h = ground (arith, nth-set_nth n v w es)

pub get_member-set_same :
    (k : String) (v : Json) (m : Members) → get_member k (set_member k v m) ≡ some v
get_member-set_same k v m = ground (arith, get_member-set_member k k v m)

-- A value that `SetValue` wrote is read back.
pub get-set :
    (ts : List String) (v n : Json)
    → (set_value ts v n).1 ≡ none
    → get_value ts (set_value ts v n).0 ≡ some v
unfolding set_value get_value
get-set [] v n h = cc
get-set (t ∷ []) v (obj m) h = rw (get_member-set_same t v m, get_value) refl
get-set (t ∷ []) v (arr es) h = elim (Result-cases (element t es)) [
  | inl ((i, w), e) ↦ rw (e, set_value) (rw (element-set_nth t es i v w e, get_value) refl)
  | inr (x, e) ↦ (let k = rw (e, set_value) at h in cc)
]
get-set (t ∷ []) v null h = cc
get-set (t ∷ []) v (bool b) h = cc
get-set (t ∷ []) v (int z) h = cc
get-set (t ∷ []) v (float z e) h = cc
get-set (t ∷ []) v (str s) h = cc
get-set (t ∷ u ∷ us) v (obj m) h =
    rw (get_member-set_same t _ m, get_value) (get-set (u ∷ us) v (child_or_new (get_member t m)) h)
get-set (t ∷ u ∷ us) v (arr es) h = elim (Result-cases (element t es)) [
  | inl ((i, w), e) ↦
      rw (e, set_value)
        (rw (element-set_nth t es i _ w e, get_value)
          (get-set (u ∷ us) v w (rw (e, set_value) at h)))
  | inr (x, e) ↦ (let k = rw (e, set_value) at h in cc)
]
get-set (t ∷ u ∷ us) v null h = cc
get-set (t ∷ u ∷ us) v (bool b) h = cc
get-set (t ∷ u ∷ us) v (int z) h = cc
get-set (t ∷ u ∷ us) v (float z e) h = cc
get-set (t ∷ u ∷ us) v (str s) h = cc

set_nth-nth : (n : ℕ) (v : Json) (es : Elems) → nth n es ≡ some v → set_nth n v es ≡ es
unfolding nth set_nth
set_nth-nth n v nil h = refl
set_nth-nth zero v (cons x xs) h = ground arith
set_nth-nth (suc n) v (cons x xs) h = ap (cons x) (set_nth-nth n v xs h)

-- The index that a token stands for holds the element.
element-nth :
    (t : String) (es : Elems) (n : ℕ) (w : Json) → element t es ≡ ok (n, w) → nth n es ≡ some w
unfolding element at_index
element-nth t es n w h = ground arith

set_member-get :
    (k : String) (v : Json) (m : Members) → get_member k m ≡ some v → set_member k v m ≡ m
unfolding get_member set_member
set_member-get k v end h = cc
set_member-get k v (member j w m) h = ground (arith, set_member-get k v m)

-- An empty object takes every write.
new_takes : (t : String) (ts : List String) (v : Json) → (set_value (t ∷ ts) v (obj end)).1 ≡ none
unfolding set_value get_member child_or_new
new_takes t [] v = refl
new_takes t (u ∷ us) v = new_takes u us v

kept_child :
    (o : Option Json) (t u : String) (us : List String) (v : Json) (m : Members) (e : String)
    → get_member t m ≡ o
    → ((set_value (u ∷ us) v (child_or_new o)).1 ≡ some e
        → (set_value (u ∷ us) v (child_or_new o)).0 ≡ child_or_new o)
    → (set_value (u ∷ us) v (child_or_new o)).1 ≡ some e
    → set_member t (set_value (u ∷ us) v (child_or_new o)).0 m ≡ m
unfolding child_or_new
kept_child none t u us v m e g same h = (let k = new_takes u us v in cc)
kept_child (some null) t u us v m e g same h = (let k = new_takes u us v in cc)
kept_child (some (bool b)) t u us v m e g same h = rw (same h) (set_member-get t _ m g)
kept_child (some (int z)) t u us v m e g same h = rw (same h) (set_member-get t _ m g)
kept_child (some (float z n)) t u us v m e g same h = rw (same h) (set_member-get t _ m g)
kept_child (some (str s)) t u us v m e g same h = rw (same h) (set_member-get t _ m g)
kept_child (some (arr es)) t u us v m e g same h = rw (same h) (set_member-get t _ m g)
kept_child (some (obj p)) t u us v m e g same h = rw (same h) (set_member-get t _ m g)

-- A `SetValue` that fails leaves the root as it was: no object on the way stays created.
set_failed :
    (ts : List String) (v n : Json) (e : String)
    → (set_value ts v n).1 ≡ some e
    → (set_value ts v n).0 ≡ n
unfolding set_value
set_failed [] v n e h = refl
set_failed (t ∷ []) v (obj m) e h = cc
set_failed (t ∷ []) v (arr es) e h = elim (Result-cases (element t es)) [
  | inl (r, f) ↦ (let k = rw (f, set_value) at h in cc)
  | inr (x, f) ↦ rw (f, set_value) refl
]
set_failed (t ∷ []) v null e h = refl
set_failed (t ∷ []) v (bool b) e h = refl
set_failed (t ∷ []) v (int z) e h = refl
set_failed (t ∷ []) v (float z k) e h = refl
set_failed (t ∷ []) v (str s) e h = refl
set_failed (t ∷ u ∷ us) v (obj m) e h = ap obj (
    kept_child (get_member t m) t u us v m e refl
      (set_failed (u ∷ us) v (child_or_new (get_member t m)) e) h)
set_failed (t ∷ u ∷ us) v (arr es) e h = elim (Result-cases (element t es)) [
  | inl ((i, w), f) ↦
      rw (f, set_value)
        (rw (set_failed (u ∷ us) v w e (rw (f, set_value) at h))
          (ap arr (set_nth-nth i w es (element-nth t es i w f))))
  | inr (x, f) ↦ rw (f, set_value) refl
]
set_failed (t ∷ u ∷ us) v null e h = refl
set_failed (t ∷ u ∷ us) v (bool b) e h = refl
set_failed (t ∷ u ∷ us) v (int z) e h = refl
set_failed (t ∷ u ∷ us) v (float z k) e h = refl
set_failed (t ∷ u ∷ us) v (str s) e h = refl

get_member-delete_same : (k : String) (m : Members) → get_member k (delete_member k m) ≡ none
get_member-delete_same k m = ground (arith, get_member-delete_member k k m)

delete_member-set :
    (k : String) (v : Json) (m : Members) → get_member k (delete_member k (set_member k v m)) ≡ none
delete_member-set k v m = get_member-delete_same k (set_member k v m)

-- What stood under the key before.
absent_child :
    (o : Option Json) (u : String) (us : List String)
    → (elim o [ none ↦ none | some c ↦ get_value (u ∷ us) c ]) ≡ none
    → get_value (u ∷ us) (child_or_new o) ≡ none
unfolding child_or_new get_value get_member
absent_child none u us h = refl
absent_child (some null) u us h = refl
absent_child (some (bool b)) u us h = h
absent_child (some (int z)) u us h = h
absent_child (some (float z n)) u us h = h
absent_child (some (str s)) u us h = h
absent_child (some (arr es)) u us h = h
absent_child (some (obj m)) u us h = h

-- A field that was absent, that `SetValue` wrote and that `DeleteValue` then removed is absent
-- again, and the removal succeeds.
pub delete-set :
    (ts : List String) (v n : Json)
    → get_value ts n ≡ none
    → (set_value ts v n).1 ≡ none
    → (get_value ts (delete_value ts (set_value ts v n).0).0 ≡ none)
      × ((delete_value ts (set_value ts v n).0).1 ≡ none)
unfolding set_value get_value delete_value
delete-set [] v n g h = cc
delete-set (t ∷ []) v (obj m) g h = rw (delete_member-set t v m, get_value) (refl, refl)
delete-set (t ∷ []) v (arr es) g h = elim (Result-cases (element t es)) [
  | inl (r, f) ↦ (let k = rw (f, get_value) at g in cc)
  | inr (x, f) ↦ (let k = rw (f, set_value) at h in cc)
]
delete-set (t ∷ []) v null g h = cc
delete-set (t ∷ []) v (bool b) g h = cc
delete-set (t ∷ []) v (int z) g h = cc
delete-set (t ∷ []) v (float z k) g h = cc
delete-set (t ∷ []) v (str s) g h = cc
delete-set (t ∷ u ∷ us) v (obj m) g h =
    rw (get_member-set_same t _ m, delete_value)
      (rw (get_member-set_same t _ (set_member t _ m), get_value)
        (delete-set (u ∷ us) v (child_or_new (get_member t m))
          (absent_child (get_member t m) u us g) h))
delete-set (t ∷ u ∷ us) v (arr es) g h = elim (Result-cases (element t es)) [
  | inl ((i, w), f) ↦
      rw (f, set_value)
        (rw (element-set_nth t es i _ w f, delete_value)
          (rw (element-set_nth t (set_nth i _ es) i _ _ (element-set_nth t es i _ w f), get_value)
            (delete-set (u ∷ us) v w (rw (f, get_value) at g) (rw (f, set_value) at h))))
  | inr (x, f) ↦ (let k = rw (f, set_value) at h in cc)
]
delete-set (t ∷ u ∷ us) v null g h = cc
delete-set (t ∷ u ∷ us) v (bool b) g h = cc
delete-set (t ∷ u ∷ us) v (int z) g h = cc
delete-set (t ∷ u ∷ us) v (float z k) g h = cc
delete-set (t ∷ u ∷ us) v (str s) g h = cc
