-- ===== src/Tests/Clock.antt =====
-- A clock with whole seconds that writes a time as a sign and so many strokes.
use lightsout.Base.{
  ℕ, zero, suc, ◌+◌, ◌-◌, ◌*◌, ◌/◌, ◌%◌, eqb, String, ◌≡◌, refl, ap, ◌∙◌, Option, some, arith,
  if◌then◌else◌,
}
use lightsout.Base.Int.{ℤ, pos, negsuc, ◌≤ℤ◌, ◌<ℤ◌, ◌+ℤ◌, +ℤ_parts}
use lightsout.Constants.{second}
use lightsout.Kube.Cluster.{Cluster, IsClock}

unfoldable pub strokes : ℕ → String
strokes zero = ""
strokes (suc n) = String.◌∷◌ "i" (strokes n)

unfoldable pub count_strokes : String → ℕ
count_strokes String.[] = 0
count_strokes (String.◌∷◌ c s) = suc (count_strokes s)

count-strokes : (n : ℕ) → count_strokes (strokes n) ≡ n
unfolding strokes count_strokes
count-strokes zero = refl
count-strokes (suc n) = ap (λ (k : ℕ). suc k) (count-strokes n)

unfoldable pub write_time : ℤ → String
unfolding strokes
write_time (pos n) = strokes (2 * (n / second))
write_time (negsuc n) = strokes (2 * (n / second) + 1)

unfoldable pub read_time : String → Option ℤ
unfolding count_strokes
read_time text =
    let n = count_strokes text in
    if eqb (n % 2) 0
    then some (pos (n / 2 * second))
    else some (negsuc (n / 2 * second + second - 1))

abbrev pub rounded : ℤ → ℤ
rounded (pos n) = pos (n / second * second)
rounded (negsuc n) = negsuc (n / second * second + second - 1)

read_even : (q : ℕ) → read_time (strokes (2 * q)) ≡ some (pos (q * second))
unfolding read_time
read_even q =
    let even : 2 * q % 2 ≡ 0 = omega arith in
    let half : 2 * q / 2 ≡ q = omega arith in rw (count-strokes (2 * q), even, half) refl

read_odd : (q : ℕ) → read_time (strokes (2 * q + 1)) ≡ some (negsuc (q * second + second - 1))
unfolding read_time
read_odd q =
    let odd : (2 * q + 1) % 2 ≡ 1 = omega arith in
    let half : (2 * q + 1) / 2 ≡ q = omega arith in rw (count-strokes (2 * q + 1), odd, half) refl

read-write : (t : ℤ) → read_time (write_time t) ≡ some (rounded t)
unfolding write_time
read-write (pos n) = read_even (n / second)
read-write (negsuc n) = read_odd (n / second)

rounded-le : (t : ℤ) → rounded t ≤ℤ t
rounded-le (pos n) = omega arith
rounded-le (negsuc n) = omega arith

lt-rounded : (t : ℤ) → t <ℤ rounded t +ℤ pos second
lt-rounded (pos n) = omega (arith, +ℤ_parts (rounded (pos n)) (pos second))
lt-rounded (negsuc n) = omega (arith, +ℤ_parts (rounded (negsuc n)) (pos second))

-- A cluster that writes and reads times so has a clock.
pub timed-IsClock :
    (c : Cluster)
    → ((t : ℤ) → c.parse_time (c.format_time t) ≡ read_time (write_time t))
    → IsClock c
timed-IsClock c same = record {
  read = rounded;
  reads = λ t. same t ∙ read-write t;
  not_later = rounded-le;
  within = lt-rounded;
}
