-- ===== src/JsonPointer/Values/Normal.antt =====
-- `NormalizeValue` of internal/jsonpointer/jsonpointer.go: a float64 that is a whole number in the
-- range of int64 becomes an integer.
use lightsout.Base.{
  ℕ, zero, suc, ◌+◌, ◌/◌, ◌%◌, ◌^◌, ◌≡◌, refl, ap, String, Bool, ◌&&◌, none, List, [], ◌∷◌, arith,
  inl, inr, Bool-cases, Option-cases, Result-cases,
}
use lightsout.Base.{if◌then◌else◌, eqb, Result, ok, err}
use lightsout.Base.Decimal.{atoi}
use lightsout.Base.Int.{ℤ, pos, negsuc, neg, leb_ℤ, eqb_ℤ}
use lightsout.Json.{
  Json, null, bool, int, float, str, arr, obj, Elems, nil, cons, Members, end, member, get_member,
}
use lightsout.JsonPointer.Values.{nth, at_index, element, get_value}
use mathlib.Core.Option

-- `typed == math.Trunc(typed)` for m / 2^e, and its quotient.
abbrev is_whole : ℤ → ℕ → Bool
is_whole (pos n) e = eqb (n % 2 ^ e) 0
is_whole (negsuc n) e = eqb ((n + 1) % 2 ^ e) 0

abbrev truncated : ℤ → ℕ → ℤ
truncated (pos n) e = pos (n / 2 ^ e)
truncated (negsuc n) e = neg ((n + 1) / 2 ^ e)

-- As a float64, `math.MaxInt64` is 2^63.
abbrev in_bounds : ℤ → Bool
in_bounds z = leb_ℤ (neg (2 ^ 63)) z && leb_ℤ z (pos (2 ^ 63))

-- `overflowed` is what the platform's conversion to int64 makes of 2^63, which passes the test.
module _ (overflowed : ℤ) where
  abbrev to_int64 : ℤ → ℤ
  to_int64 z = if eqb_ℤ z (pos (2 ^ 63)) then overflowed else z

  unfoldable pub normalize_float : ℤ → ℕ → Json
  normalize_float m e =
      if is_whole m e && in_bounds (truncated m e)
      then int (to_int64 (truncated m e))
      else float m e

  unfoldable mutual
    -- `NormalizeValue`
    pub normalize_value : Json → Json
    normalize_value null = null
    normalize_value (bool b) = bool b
    normalize_value (int z) = int z
    normalize_value (float m e) = normalize_float m e
    normalize_value (str s) = str s
    normalize_value (arr es) = arr (normalize_elems es)
    normalize_value (obj m) = obj (normalize_members m)

    pub normalize_elems : Elems → Elems
    normalize_elems nil = nil
    normalize_elems (cons x xs) = cons (normalize_value x) (normalize_elems xs)

    pub normalize_members : Members → Members
    normalize_members end = end
    normalize_members (member k v m) = member k (normalize_value v) (normalize_members m)

  -- Normalizing a number, once normalized, changes nothing.
  normalize_float_twice :
      (m : ℤ) (e : ℕ) → normalize_value (normalize_float m e) ≡ normalize_float m e
  unfolding normalize_value normalize_float
  normalize_float_twice m e = elim (Bool-cases (is_whole m e && in_bounds (truncated m e))) [
    | inl whole ↦ rw (whole, normalize_float) refl
    | inr rest ↦ rw (rest, normalize_float) (rw (rest, normalize_float) refl)
  ]

  mutual
    unfolding normalize_value

    normalize_twice : (v : Json) → normalize_value (normalize_value v) ≡ normalize_value v
    normalize_twice null = refl
    normalize_twice (bool b) = refl
    normalize_twice (int z) = refl
    normalize_twice (float m e) = normalize_float_twice m e
    normalize_twice (str s) = refl
    normalize_twice (arr es) = ap arr (elems_twice es)
    normalize_twice (obj m) = ap obj (members_twice m)

    elems_twice : (es : Elems) → normalize_elems (normalize_elems es) ≡ normalize_elems es
    elems_twice nil = refl
    elems_twice (cons x xs) = λ i. cons (normalize_twice x i) (elems_twice xs i)

    members_twice : (m : Members) → normalize_members (normalize_members m) ≡ normalize_members m
    members_twice end = refl
    members_twice (member k v m) = λ i. member k (normalize_twice v i) (members_twice m i)

  get_member-normalize :
      (k : String) (m : Members)
      → get_member k (normalize_members m) ≡ Option.map normalize_value (get_member k m)
  unfolding get_member normalize_value
  get_member-normalize k end = refl
  get_member-normalize k (member j v m) = ground (arith, get_member-normalize k m)

  nth-normalize :
      (n : ℕ) (es : Elems) → nth n (normalize_elems es) ≡ Option.map normalize_value (nth n es)
  unfolding nth normalize_value
  nth-normalize n nil = refl
  nth-normalize zero (cons x xs) = refl
  nth-normalize (suc n) (cons x xs) = nth-normalize n xs

  after_element : Result (ℕ × Json) → Result (ℕ × Json)
  after_element (err e) = err e
  after_element (ok r) = ok (r.0, normalize_value r.1)

  at_index-normalize :
      (i : ℤ) (es : Elems) → at_index i (normalize_elems es) ≡ after_element (at_index i es)
  unfolding at_index after_element
  at_index-normalize (negsuc n) es = refl
  at_index-normalize (pos n) es = ground (arith, nth-normalize n es)

  element-normalize :
      (t : String) (es : Elems) → element t (normalize_elems es) ≡ after_element (element t es)
  unfolding element after_element
  element-normalize t es = elim (Option-cases (atoi t)) [
    | inl e ↦ rw (e, element) refl
    | inr (i, e) ↦ rw (e, element) (at_index-normalize i es)
  ]

  get_value_float :
      (t : String) (ts : List String) (m : ℤ) (e : ℕ)
      → get_value (t ∷ ts) (normalize_float m e) ≡ none
  unfolding get_value normalize_float
  get_value_float t ts m e = elim (Bool-cases (is_whole m e && in_bounds (truncated m e))) [
    | inl whole ↦ rw (whole, normalize_float) refl
    | inr rest ↦ rw (rest, normalize_float) refl
  ]

  get_value_lem :
      (ts : List String) (n : Json)
      → get_value ts (normalize_value n) ≡ Option.map normalize_value (get_value ts n)
  unfolding get_value normalize_value after_element
  get_value_lem [] n = refl
  get_value_lem (t ∷ ts) (obj m) = elim (Option-cases (get_member t m)) [
    | inl e ↦ rw (get_member-normalize t m, e, get_value) refl
    | inr (c, e) ↦ rw (get_member-normalize t m, e, get_value) (get_value_lem ts c)
  ]
  get_value_lem (t ∷ ts) (arr es) = elim (Result-cases (element t es)) [
    | inl (r, e) ↦ rw (element-normalize t es, e, get_value) (get_value_lem ts r.1)
    | inr (x, e) ↦ rw (element-normalize t es, e, get_value) refl
  ]
  get_value_lem (t ∷ ts) null = refl
  get_value_lem (t ∷ ts) (bool b) = refl
  get_value_lem (t ∷ ts) (int z) = refl
  get_value_lem (t ∷ ts) (float m e) = get_value_float t ts m e
  get_value_lem (t ∷ ts) (str s) = refl

  -- The value at a path of the normalized document is the normalized value at that path of the
  -- document, and normalizing once more changes nothing.
  get-normalize :
      (ts : List String) (n : Json)
      → (get_value ts (normalize_value n) ≡ Option.map normalize_value (get_value ts n))
        × (normalize_value (normalize_value n) ≡ normalize_value n)
  get-normalize ts n = (get_value_lem ts n, normalize_twice n)
