-- ===== src/Base/Decimal.antt =====
-- `strconv.Itoa`, `strconv.Atoi` and `strconv.ParseInt` in base ten.
use Prim.Native.Nat.{ℕ, zero, suc, ◌+◌, ◌-◌, ◌*◌, ◌/◌, ◌%◌, ◌^◌, ◌≤◌, ◌<◌}
use Prim.Native.Char.{Char, code}
use Prim.Native.String.{String, [], ◌∷◌}
use mathlib.Core.Path.{◌≡◌, refl, sym, ap, ◌∙◌}
use mathlib.Core.Bool.{Bool, true, false, ◌&&◌}
use mathlib.Core.Logic.{◌≢◌}
use mathlib.Core.Option.{Option, none, some}
use native.Mathlib.Omega.{arith}
use mathlib.Core.Logic.{inl, inr}
use text.Mathlib.TextLemmas.{cons-ne-nil}
use lightsout.Base.Tests.{leb, ltb, eqb, if◌then◌else◌, Bool-cases}
use lightsout.Base.Int.{ℤ, pos, negsuc, neg}

digit : ℕ → Char
digit zero = "0"
digit (suc zero) = "1"
digit (suc (suc zero)) = "2"
digit (suc (suc (suc zero))) = "3"
digit (suc (suc (suc (suc zero)))) = "4"
digit (suc (suc (suc (suc (suc zero))))) = "5"
digit (suc (suc (suc (suc (suc (suc zero)))))) = "6"
digit (suc (suc (suc (suc (suc (suc (suc zero))))))) = "7"
digit (suc (suc (suc (suc (suc (suc (suc (suc zero)))))))) = "8"
digit (suc (suc (suc (suc (suc (suc (suc (suc (suc n))))))))) = "9"

code-digit : (n : ℕ) → n < 10 → code (digit n) ≡ n + 48
unfolding digit
code-digit zero h = refl
code-digit (suc zero) h = refl
code-digit (suc (suc zero)) h = refl
code-digit (suc (suc (suc zero))) h = refl
code-digit (suc (suc (suc (suc zero)))) h = refl
code-digit (suc (suc (suc (suc (suc zero))))) h = refl
code-digit (suc (suc (suc (suc (suc (suc zero)))))) h = refl
code-digit (suc (suc (suc (suc (suc (suc (suc zero))))))) h = refl
code-digit (suc (suc (suc (suc (suc (suc (suc (suc zero)))))))) h = refl
code-digit (suc (suc (suc (suc (suc (suc (suc (suc (suc n))))))))) h = omega arith

-- The digits of `n` in front of `rest`; the fuel bounds their number.
print_nat : ℕ → ℕ → String → String
print_nat zero n rest = rest
print_nat (suc f) n rest =
    let more = print_nat f (n / 10) (digit (n % 10) ∷ rest) in
    if ltb n 10 then digit n ∷ rest else more

parse_digits : ℕ → String → Option ℕ
parse_digits acc [] = some acc
parse_digits acc (c ∷ s) =
    let more = parse_digits (acc * 10 + (code c - 48)) s in
    if leb 48 (code c) && leb (code c) 57 then more else none

parse_nat : String → Option ℕ
unfolding parse_digits
parse_nat [] = none
parse_nat (c ∷ s) = parse_digits 0 (c ∷ s)

parse_digits-digit :
    (acc d : ℕ) (rest : String)
    → d < 10
    → parse_digits acc (digit d ∷ rest) ≡ parse_digits (acc * 10 + d) rest
unfolding parse_digits
parse_digits-digit acc d rest h = rw (code-digit d h, low d, high d h, shift d)
  where
    low : (k : ℕ) → leb 48 (k + 48) ≡ true
    low k = ground arith

    high : (k : ℕ) → k < 10 → leb (k + 48) 57 ≡ true
    high k p = ground arith

    shift : (k : ℕ) → k + 48 - 48 ≡ k
    shift k = omega arith

parse_digits-print_nat :
    (f n : ℕ) (rest : String) → n < f → parse_digits 0 (print_nat f n rest) ≡ parse_digits n rest
unfolding print_nat
parse_digits-print_nat zero n rest h = elim h [ ]
parse_digits-print_nat (suc f) n rest h = elim (Bool-cases (ltb n 10)) [
  | inl small ↦ rw small (rw (parse_digits-digit 0 n rest (ground arith)) (rw (zero_times n)))
  | inr large ↦ rw large (
      rw (parse_digits-print_nat f (n / 10) (digit (n % 10) ∷ rest) (ground arith))
        (rw (parse_digits-digit (n / 10) (n % 10) rest (omega arith)) (rw (div_mod n))))
]
  where
    zero_times : (k : ℕ) → 0 * 10 + k ≡ k
    zero_times k = omega arith

    div_mod : (k : ℕ) → k / 10 * 10 + k % 10 ≡ k
    div_mod k = omega arith

-- `strconv.Itoa`
unfoldable pub itoa : ℤ → String
unfolding print_nat digit
itoa (pos n) = print_nat (suc n) n ""
itoa (negsuc n) = "-" ∷ print_nat (suc (suc n)) (suc n) ""

-- The value of the digits behind a sign; out of range is an error.
checked : ℕ → Bool → ℕ → Option ℤ
checked w negative n =
    if negative
    then (if leb n (2 ^ (w - 1)) then some (neg n) else none)
    else (if ltb n (2 ^ (w - 1)) then some (pos n) else none)

bind_checked : ℕ → Bool → Option ℕ → Option ℤ
bind_checked w negative none = none
bind_checked w negative (some n) = checked w negative n

-- `strconv.ParseInt(s, 10, w)`
unfoldable pub parse_int : ℕ → String → Option ℤ
unfolding parse_nat bind_checked checked
parse_int w [] = none
parse_int w (c ∷ s) =
    if eqb (code c) b'-'
    then bind_checked w true (parse_nat s)
    else if eqb (code c) b'+'
    then bind_checked w false (parse_nat s)
    else bind_checked w false (parse_nat (c ∷ s))

-- `strconv.Atoi`, with a 64-bit int
abbrev pub atoi : String → Option ℤ
atoi = parse_int 64

print_nat-eq-cons :
    (f n : ℕ) (rest : String)
    → n < f
    → (c : Char) × (s : String) × (print_nat f n rest ≡ c ∷ s) × (48 ≤ code c)
unfolding print_nat
print_nat-eq-cons zero n rest h = elim h [ ]
print_nat-eq-cons (suc f) n rest h = elim (Bool-cases (ltb n 10)) [
  | inl small ↦ (digit n, rest, rw small, omega (arith, code-digit n (ground arith)))
  | inr large ↦
      let (c, s, e, d) = print_nat-eq-cons f (n / 10) (digit (n % 10) ∷ rest) (ground arith) in
      (c, s, rw large e, d)
]

parse_nat_of_cons :
    (s : String) {c : Char} {t : String} → s ≡ c ∷ t → parse_nat s ≡ parse_digits 0 s
unfolding parse_nat
parse_nat_of_cons s e = rw e

parse_digits-nil : (n : ℕ) → parse_digits n "" ≡ some n
unfolding parse_digits
parse_digits-nil n = refl

parse_nat-print_nat : (n : ℕ) → parse_nat (print_nat (suc n) n "") ≡ some n
parse_nat-print_nat n =
    let (c, s, e, d) = print_nat-eq-cons (suc n) n "" (omega arith) in
    parse_nat_of_cons _ e ∙ parse_digits-print_nat (suc n) n "" (omega arith) ∙ parse_digits-nil n

parse_int_minus : (w : ℕ) (s : String) → parse_int w ("-" ∷ s) ≡ bind_checked w true (parse_nat s)
unfolding parse_int
parse_int_minus w s = refl

parse_int_digit :
    (w : ℕ) (s : String) {c : Char} {t : String}
    → s ≡ c ∷ t
    → 48 ≤ code c
    → parse_int w s ≡ bind_checked w false (parse_nat s)
unfolding parse_int
parse_int_digit w s {c} e d = rw e (rw (no_minus (code c) d, no_plus (code c) d))
  where
    no_minus : (k : ℕ) → 48 ≤ k → eqb k 45 ≡ false
    no_minus k h = ground arith

    no_plus : (k : ℕ) → 48 ≤ k → eqb k 43 ≡ false
    no_plus k h = ground arith

itoa-pos : (n : ℕ) → itoa (pos n) ≡ print_nat (suc n) n ""
unfolding itoa
itoa-pos n = refl

itoa-negsuc : (n : ℕ) → itoa (negsuc n) ≡ "-" ∷ print_nat (suc (suc n)) (suc n) ""
unfolding itoa
itoa-negsuc n = refl

bind_checked-pos : (w n : ℕ) → n < 2 ^ (w - 1) → bind_checked w false (some n) ≡ some (pos n)
unfolding bind_checked checked
bind_checked-pos w n h = ground arith

bind_checked-negsuc :
    (w n : ℕ) → n < 2 ^ (w - 1) → bind_checked w true (some (suc n)) ≡ some (negsuc n)
unfolding bind_checked checked
bind_checked-negsuc w n h = ground arith

-- `n` is a value of a signed type of `w` bits.
abbrev pub InRange : ℕ → ℤ → Type 0
InRange w (pos n) = n < 2 ^ (w - 1)
InRange w (negsuc n) = n < 2 ^ (w - 1)

-- A printed number is read back, at every width that holds it.
pub parse_int-itoa : (w : ℕ) (n : ℤ) → InRange w n → parse_int w (itoa n) ≡ some n
parse_int-itoa w (pos n) h =
    let (c, s, e, d) = print_nat-eq-cons (suc n) n "" (omega arith) in
    rw itoa-pos (
      parse_int_digit w _ e d
      ∙ ap (bind_checked w false) (parse_nat-print_nat n)
      ∙ bind_checked-pos w n h)
parse_int-itoa w (negsuc n) h = rw itoa-negsuc (
    parse_int_minus w _
    ∙ ap (bind_checked w true) (parse_nat-print_nat (suc n))
    ∙ bind_checked-negsuc w n h)

-- No number prints as the empty text.
pub itoa-ne-nil : (n : ℤ) → itoa n ≢ ""
itoa-ne-nil (pos n) h =
    let (c, s, e, d) = print_nat-eq-cons (suc n) n "" (omega arith) in
    cons-ne-nil c s (sym e ∙ sym (itoa-pos n) ∙ h)
itoa-ne-nil (negsuc n) h = cons-ne-nil "-" _ (sym (itoa-negsuc n) ∙ h)

checked-InRange :
    (w : ℕ) (negative : Bool) (n : ℕ) {k : ℤ}
    → 0 < 2 ^ (w - 1)
    → checked w negative n ≡ some k
    → InRange w k
unfolding checked
checked-InRange w true zero {k = pos m} p h = ground arith
checked-InRange w true zero {k = negsuc m} p h = ground arith
checked-InRange w true (suc n) {k = pos m} p h = ground arith
checked-InRange w true (suc n) {k = negsuc m} p h = ground arith
checked-InRange w false n {k = pos m} p h = ground arith
checked-InRange w false n {k = negsuc m} p h = ground arith

bind_checked-InRange :
    (w : ℕ) (negative : Bool) (o : Option ℕ) {k : ℤ}
    → 0 < 2 ^ (w - 1)
    → bind_checked w negative o ≡ some k
    → InRange w k
unfolding bind_checked
bind_checked-InRange w negative none p h = cc
bind_checked-InRange w negative (some n) p h = checked-InRange w negative n p h

-- What is read is a value of the type.
pub parse_int-InRange :
    (w : ℕ) (s : String) {k : ℤ} → 0 < 2 ^ (w - 1) → parse_int w s ≡ some k → InRange w k
unfolding parse_int
parse_int-InRange w [] p h = cc
parse_int-InRange w (c ∷ s) p h = elim (Bool-cases (eqb (code c) b'-')) [
  | inl minus ↦ bind_checked-InRange w true (parse_nat s) p (rw minus at h)
  | inr no_minus ↦ elim (Bool-cases (eqb (code c) b'+')) [
    | inl plus ↦ bind_checked-InRange w false (parse_nat s) p (rw (no_minus, plus) at h)
    | inr no_plus ↦ bind_checked-InRange w false (parse_nat (c ∷ s)) p (rw (no_minus, no_plus) at h)
  ]
]
