-- ===== src/Tests/Periods.antt =====
-- Periods of two schedules that activate every hour.
use lightsout.Base.{
  ℕ, ◌+◌, ◌*◌, ◌/◌, ◌%◌, ◌≡◌, refl, Bool, true, arith, eqb, [], ok, if◌then◌else◌, ◌==◌,
  String-discrete, Bool-cases, inl, inr,
}
use lightsout.Base.Int.{
  ℤ, pos, negsuc, neg, ltb_ℤ, ◌≤ℤ◌, ◌<ℤ◌, ◌+ℤ◌, ◌-ℤ◌, +ℤ_parts, -ℤ_parts, eq_of_parts,
}
use lightsout.Constants.{hour}
use lightsout.Base.Text.{fields, has_prefix, has_char}
use lightsout.Base.Dict.{lookup, insert}
use lightsout.Period.{
  Calendar, hourly, daily, weekly, rare, frequency_of, analyze_schedule_frequency,
  get_cached_period, period_at, calculate_period, last_in_window, search_forward,
  find_last_occurrence,
}
use lightsout.Period.Search.{IsNext, Apart, IsLatest, IsLatest-intro, Regular, find_last-IsLatest}
use lightsout.Period.Cache.{cache_transparent}

abbrev fortnight : ℕ
fortnight = 336 * hour

-- Every second week of the Unix time.
abbrev on_the_turn : ℤ → Bool
on_the_turn (pos n) = eqb (n % fortnight) 0
on_the_turn (negsuc n) = eqb ((n + 1) % fortnight) 0

abbrev next_turn : ℤ → ℤ
next_turn (pos n) = pos ((n / fortnight + 1) * fortnight)
next_turn (negsuc n) = neg (n / fortnight * fortnight)

next_turn-later : (t : ℤ) → t <ℤ next_turn t
next_turn-later (pos n) = ground arith
next_turn-later (negsuc n) = ground arith

next_turn-active : (t : ℤ) → on_the_turn (next_turn t) ≡ true
next_turn-active (pos n) = ground arith
next_turn-active (negsuc n) = ground arith

none_between_turns : (t u : ℤ) → on_the_turn u ≡ true → t <ℤ u → next_turn t ≤ℤ u
none_between_turns (pos n) (pos m) h k = ground arith
none_between_turns (pos n) (negsuc m) h k = ground arith
none_between_turns (negsuc n) (pos m) h k = ground arith
none_between_turns (negsuc n) (negsuc m) h k = ground arith

-- A schedule is its offset from the turn of a fortnight: 12 hours for one text, 0 for the others.
abbrev fires : ℕ → ℤ → Bool
fires offset t = on_the_turn (t -ℤ pos offset)

abbrev next_after : ℕ → ℤ → ℤ
next_after offset t = next_turn (t -ℤ pos offset) +ℤ pos offset

abbrev weeks : Calendar
weeks = record {
  Schedule = ℕ;
  Location = Unit {0};
  parse = λ s. ok (if s == "0 20 * * 5" then 12 * hour else 0);
  load_location = λ s. ok tt;
  next = λ offset loc t. next_after offset t;
  ten_years_before = λ loc t. t -ℤ pos (3650 * 24 * hour);
  digest = λ s. s;
}

shift_back : (t : ℤ) (n : ℕ) → (t +ℤ pos n) -ℤ pos n ≡ t
shift_back t n = ground (
  arith,
  +ℤ_parts t (pos n),
  -ℤ_parts (t +ℤ pos n) (pos n),
  eq_of_parts ((t +ℤ pos n) -ℤ pos n) t,
)

turn_apart : (t : ℤ) → next_turn t +ℤ pos fortnight ≤ℤ next_turn (next_turn t)
turn_apart (pos n) = ground (arith, +ℤ_parts (next_turn (pos n)) (pos fortnight))
turn_apart (negsuc n) = ground (arith, +ℤ_parts (next_turn (negsuc n)) (pos fortnight))

next_after-IsNext : (n : ℕ) → IsNext (next_after n) (fires n)
next_after-IsNext n = record {
  later = λ t. ground (
    arith,
    next_turn-later (t -ℤ pos n),
    -ℤ_parts t (pos n),
    +ℤ_parts (next_turn (t -ℤ pos n)) (pos n),
  );
  active = λ t. rw (shift_back (next_turn (t -ℤ pos n)) n) (next_turn-active (t -ℤ pos n));
  none_between = λ t u f h.
      let le =
        none_between_turns (t -ℤ pos n) (u -ℤ pos n) f
          (ground (arith, h, -ℤ_parts t (pos n), -ℤ_parts u (pos n))) in
      ground (arith, le, -ℤ_parts u (pos n), +ℤ_parts (next_turn (t -ℤ pos n)) (pos n));
}

next_after-Apart : (n : ℕ) → Apart (next_after n) fortnight
next_after-Apart n t =
    let t' = next_turn (t -ℤ pos n) in
    rw (shift_back t' n) (
      ground (
        arith,
        turn_apart (t -ℤ pos n),
        +ℤ_parts t' (pos fortnight),
        +ℤ_parts t' (pos n),
        +ℤ_parts (t' +ℤ pos n) (pos fortnight),
        +ℤ_parts (next_turn t') (pos n),
      ))

run_period : Unit {0}
unfolding String-discrete fields has_prefix has_char frequency_of analyze_schedule_frequency
    get_cached_period period_at calculate_period last_in_window search_forward lookup insert ◌+ℤ◌
    ◌-ℤ◌
run_period = tt

hourly_tests :
    (analyze_schedule_frequency "0 * * * *" ≡ hourly)
    × (analyze_schedule_frequency "0 8 * * *" ≡ daily)
    × (analyze_schedule_frequency "0 8 1,15 * *" ≡ daily)
    × (analyze_schedule_frequency "0 8 * * 1-5" ≡ weekly)
    × (analyze_schedule_frequency "0 8 29 2 *" ≡ rare)
unfolding run_period
hourly_tests = (refl, refl, refl, refl, refl)

fortnightly : Regular weeks 0 tt "0 8 * * 1" (fires 0)
unfolding run_period
fortnightly = record {
  law = next_after-IsNext 0;
  gap = fortnight;
  apart = next_after-Apart 0;
  enough = omega arith;
}

later_down : Regular weeks (12 * hour) tt "0 20 * * 5" (fires (12 * hour))
unfolding run_period
later_down = record {
  law = next_after-IsNext (12 * hour);
  gap = fortnight;
  apart = next_after-Apart (12 * hour);
  enough = omega arith;
}

-- The same activations under a text whose frequency is daily.
twice_a_month : Regular weeks 0 tt "0 8 1,15 * *" (fires 0)
unfolding run_period
twice_a_month = record {
  law = next_after-IsNext 0;
  gap = fortnight;
  apart = next_after-Apart 0;
  enough = omega arith;
}

abbrev first_call : ℤ
first_call = pos (10 * fortnight + hour)

abbrev next_call : ℤ
next_call = pos (10 * fortnight + 2 * hour)

find_last-IsLatest_example :
    IsLatest (fires 0) first_call (find_last_occurrence weeks 0 tt "0 8 * * 1" first_call)
unfolding run_period
find_last-IsLatest_example =
    find_last-IsLatest weeks 0 tt "0 8 * * 1" (fires 0) fortnightly first_call
      (pos (10 * fortnight)) (refl, omega arith, omega arith)

abbrev late : ℤ
late = pos (10 * fortnight + 264 * hour)

tenth_turn : IsLatest (fires 0) late (pos (10 * fortnight))
unfolding run_period
tenth_turn = IsLatest-intro (fires 0) late (pos (10 * fortnight)) (omega arith) refl (λ u f h.
    elim (Bool-cases (ltb_ℤ (pos (10 * fortnight)) u)) [
      | inl after ↦ absurd (
          ground (
            arith,
            (next_after-IsNext 0).none_between (pos (10 * fortnight)) u f (ground (arith, after)),
            h,
          ))
      | inr before ↦ ground (arith, before)
    ])

cache_transparent_example :
    (calculate_period weeks "0 8 * * 1" "0 20 * * 5" "UTC" next_call
      (calculate_period weeks "0 8 * * 1" "0 20 * * 5" "UTC" first_call []).1).0
    ≡ (calculate_period weeks "0 8 * * 1" "0 20 * * 5" "UTC" next_call []).0
unfolding run_period
cache_transparent_example =
    cache_transparent weeks "0 8 * * 1" "0 20 * * 5" "UTC" 0 (12 * hour) tt (fires 0)
      (fires (12 * hour)) fortnightly later_down refl refl refl first_call next_call
      (pos (10 * fortnight)) (pos (9 * fortnight + 12 * hour)) [] refl
      (refl, omega arith, omega arith) (refl, omega arith, omega arith)
      (refl, omega arith, omega arith) (refl, omega arith, omega arith) (omega arith) (omega arith)
      (omega arith)
