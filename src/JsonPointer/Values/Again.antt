-- ===== src/JsonPointer/Values/Again.antt =====
-- A field that could be written once can be written again.
use lightsout.Base.{◌≡◌, refl, String, none, some, List, [], ◌∷◌, inl, inr, Result-cases}
use lightsout.Json.{Json, null, bool, int, float, str, arr, obj, get_member}
use lightsout.JsonPointer.Values.{element, child_or_new, set_value}
use lightsout.JsonPointer.Values.Laws.{get_member-set_same, element-set_nth}

-- What a write leaves is no null, so a later write descends into it.
written_child :
    (u : String) (us : List String) (v n : Json)
    → (set_value (u ∷ us) v n).1 ≡ none
    → child_or_new (some (set_value (u ∷ us) v n).0) ≡ (set_value (u ∷ us) v n).0
unfolding child_or_new set_value
written_child u [] v (obj m) h = refl
written_child u [] v (arr es) h = elim (Result-cases (element u es)) [
  | inl (r, e) ↦ rw (e, set_value) refl
  | inr (x, e) ↦ rw (e, set_value) refl
]
written_child u [] v null h = cc
written_child u [] v (bool b) h = refl
written_child u [] v (int z) h = refl
written_child u [] v (float z k) h = refl
written_child u [] v (str s) h = refl
written_child u (w ∷ ws) v (obj m) h = refl
written_child u (w ∷ ws) v (arr es) h = elim (Result-cases (element u es)) [
  | inl (r, e) ↦ rw (e, set_value) refl
  | inr (x, e) ↦ rw (e, set_value) refl
]
written_child u (w ∷ ws) v null h = cc
written_child u (w ∷ ws) v (bool b) h = refl
written_child u (w ∷ ws) v (int z) h = refl
written_child u (w ∷ ws) v (float z k) h = refl
written_child u (w ∷ ws) v (str s) h = refl

pub set_again :
    (ts : List String) (v w n : Json)
    → (set_value ts v n).1 ≡ none
    → (set_value ts w (set_value ts v n).0).1 ≡ none
unfolding set_value
set_again [] v w n h = cc
set_again (t ∷ []) v w (obj m) h = refl
set_again (t ∷ []) v w (arr es) h = elim (Result-cases (element t es)) [
  | inl ((i, x), e) ↦ rw (e, set_value) (rw (element-set_nth t es i v x e, set_value) refl)
  | inr (x, e) ↦ (let k = rw (e, set_value) at h in cc)
]
set_again (t ∷ []) v w null h = cc
set_again (t ∷ []) v w (bool b) h = cc
set_again (t ∷ []) v w (int z) h = cc
set_again (t ∷ []) v w (float z k) h = cc
set_again (t ∷ []) v w (str s) h = cc
set_again (t ∷ u ∷ us) v w (obj m) h =
    rw (get_member-set_same t _ m, written_child u us v (child_or_new (get_member t m)) h)
      (set_again (u ∷ us) v w (child_or_new (get_member t m)) h)
set_again (t ∷ u ∷ us) v w (arr es) h = elim (Result-cases (element t es)) [
  | inl ((i, x), e) ↦
      rw (e, set_value)
        (rw (element-set_nth t es i _ x e, set_value)
          (set_again (u ∷ us) v w x (rw (e, set_value) at h)))
  | inr (x, e) ↦ (let k = rw (e, set_value) at h in cc)
]
set_again (t ∷ u ∷ us) v w null h = cc
set_again (t ∷ u ∷ us) v w (bool b) h = cc
set_again (t ∷ u ∷ us) v w (int z) h = cc
set_again (t ∷ u ∷ us) v w (float z k) h = cc
set_again (t ∷ u ∷ us) v w (str s) h = cc
