-- ===== src/Period/Search.antt =====
-- `findLastOccurrence` finds the last activation, where its window holds one.
use lightsout.Base.{
  ℕ, zero, suc, ◌*◌, ◌≤◌, ◌<◌, ◌≡◌, ◌≢◌, refl, String, Bool, true, false, ◌&&◌, inl, inr, arith,
  Bool-cases,
}
use native.Mathlib.Nat.{zero-mul, suc-mul, le_antisymm}
use lightsout.Base.Int.{
  ℤ, pos, ltb_ℤ, leb_ℤ, ◌≤ℤ◌, ◌<ℤ◌, ◌+ℤ◌, ◌-ℤ◌, +ℤ_parts, -ℤ_parts, eq_of_parts,
}
use lightsout.Period.{
  Calendar, ScheduleFrequency, every_minute, hourly, daily, weekly, monthly, rare,
  get_search_window, max_iterations, search_forward, last_in_window, find_last_occurrence,
  analyze_schedule_frequency,
}
use lightsout.Constants.{minute}

-- What the documentation of `cron.Schedule` says of `Next`, for a schedule that never ends: the
-- next activation is later than the given time, and there is none between.
pub record IsNext (next : ℤ → ℤ) (fires : ℤ → Bool) : Type 0 where
  pub later : (t : ℤ) → t <ℤ next t
  pub active : (t : ℤ) → fires (next t) ≡ true
  pub none_between : (t u : ℤ) → fires u ≡ true → t <ℤ u → next t ≤ℤ u

-- A schedule that activates at most once in `d` nanoseconds; a cron expression has whole minutes.
abbrev pub Apart : (ℤ → ℤ) → ℕ → Type 0
Apart next d = (t : ℤ) → next t +ℤ pos d ≤ℤ next (next t)

-- The latest activation that is not later than `from`.
pub record IsLatest (fires : ℤ → Bool) (from last : ℤ) : Type 0 where
  pub reached : last ≤ℤ from
  pub active : fires last ≡ true
  pub latest : (u : ℤ) → (fires u && leb_ℤ u from && ltb_ℤ last u) ≡ false

pub IsLatest-bound :
    {fires : ℤ → Bool} {from last : ℤ}
    → IsLatest fires from last
    → (u : ℤ) → fires u ≡ true
    → u ≤ℤ from
    → u ≤ℤ last
IsLatest-bound l u f h = ground (arith, l.latest u)

pub IsLatest-intro :
    (fires : ℤ → Bool) (from last : ℤ)
    → last ≤ℤ from
    → fires last ≡ true
    → ((u : ℤ) → fires u ≡ true → u ≤ℤ from → u ≤ℤ last)
    → IsLatest fires from last
IsLatest-intro fires from last h a k = record {
  reached = h;
  active = a;
  latest = λ u. ground (arith, k u);
}

module _ (next : ℤ → ℤ) (fires : ℤ → Bool) (law : IsNext next fires) (d : ℕ) (apart : Apart next d)
    (from : ℤ) where
  next_is_past : (t u : ℤ) → from <ℤ next (next t) → fires u ≡ true → u ≤ℤ from → u ≤ℤ next t
  next_is_past t u h f le = elim (Bool-cases (ltb_ℤ (next t) u)) [
    | inl lt ↦ let gap = law.none_between (next t) u f (ground (arith, lt)) in omega arith
    | inr ge ↦ ground (arith, ge)
  ]

  -- The loop keeps an activation that is not later than `from`, and `n` more iterations reach past
  -- `from`.
  search-IsLatest :
      (n : ℕ) (t : ℤ)
      → next t ≤ℤ from
      → from <ℤ next t +ℤ pos (n * d)
      → IsLatest fires from (search_forward next from n (next t))
  unfolding search_forward
  search-IsLatest zero t h k = absurd (ground (arith, +ℤ_parts (next t) (pos (0 * d)), zero-mul d))
  search-IsLatest (suc m) t h k =
      let t' = next t in
      elim (Bool-cases (ltb_ℤ from (next t'))) [
        | inl past ↦
            rw (past, search_forward)
              (IsLatest-intro fires from t' h (law.active t)
                (λ u f le. next_is_past t u (ground (arith, past)) f le))
        | inr more ↦
            rw (more, search_forward)
              (search-IsLatest m t' (ground (arith, more)) (
                ground (
                  arith,
                  apart t,
                  +ℤ_parts t' (pos d),
                  +ℤ_parts t' (pos (suc m * d)),
                  +ℤ_parts (next t') (pos (m * d)),
                  suc-mul m d,
                )))
      ]

pub IsLatest-unique :
    {fires : ℤ → Bool} {from a b : ℤ} → IsLatest fires from a → IsLatest fires from b → a ≡ b
IsLatest-unique {a = a} {b} l m =
    eq_of_parts a b
      (le_antisymm (IsLatest-bound m a l.active l.reached) (IsLatest-bound l b m.active m.reached))

-- A schedule with the loops' assumptions: the iterations reach over the window if the activations
-- are `apart` by so many nanoseconds.
pub record Regular (k : Calendar) (sched : k.Schedule) (loc : k.Location) (expr : String)
    (fires : ℤ → Bool) : Type 0 where
  pub law : IsNext (k.next sched loc) fires
  pub gap : ℕ
  pub apart : Apart (k.next sched loc) gap
  pub enough :
      get_search_window (analyze_schedule_frequency expr)
      ≤ max_iterations (analyze_schedule_frequency expr) * gap

-- An activation that the search from this time can find.
abbrev pub InWindow : String → (ℤ → Bool) → ℤ → ℤ → Type 0
InWindow expr fires from u =
    (fires u ≡ true)
    × (from <ℤ u +ℤ pos (get_search_window (analyze_schedule_frequency expr)))
    × (u ≤ℤ from)

-- The iterations reach over the window of every frequency but the rarest, since the activations of
-- a cron expression are a minute apart.
pub minute_suffices :
    (f : ScheduleFrequency) → f ≢ rare → get_search_window f ≤ max_iterations f * minute
minute_suffices every_minute h = omega arith
minute_suffices hourly h = omega arith
minute_suffices daily h = omega arith
minute_suffices weekly h = omega arith
minute_suffices monthly h = omega arith
minute_suffices rare h = absurd (h refl)

pub window_positive : (f : ScheduleFrequency) → 0 < get_search_window f
window_positive every_minute = omega arith
window_positive hourly = omega arith
window_positive daily = omega arith
window_positive weekly = omega arith
window_positive monthly = omega arith
window_positive rare = omega arith

module _ (k : Calendar) (sched : k.Schedule) (loc : k.Location) (expr : String) (fires : ℤ → Bool)
    (r : Regular k sched loc expr fires) (from : ℤ) where
  -- For a regular schedule that activates within the search window, `findLastOccurrence` returns
  -- the latest activation that is not later than the given time.
  pub find_last-IsLatest :
      (u : ℤ)
      → InWindow expr fires from u
      → IsLatest fires from (find_last_occurrence k sched loc expr from)
  unfolding last_in_window
  find_last-IsLatest u (active, recent, past) =
      let w = get_search_window (analyze_schedule_frequency expr) in
      let next = k.next sched loc in
      let start = from -ℤ pos w in
      let soon =
        r.law.none_between start u active
          (ground (arith, -ℤ_parts from (pos w), +ℤ_parts u (pos w), recent)) in
      let first_in : ltb_ℤ from (next start) ≡ false = ground (arith, soon, past) in
      rw (first_in, last_in_window)
        (search-IsLatest next fires r.law r.gap r.apart from _ start (omega arith) (
          ground (
            arith,
            r.law.later start,
            r.enough,
            -ℤ_parts from (pos w),
            +ℤ_parts (next start) (pos (max_iterations (analyze_schedule_frequency expr) * r.gap)),
          )))

  -- An activation that is older than the search window of its expression's frequency is missed,
  -- though it is the latest: the search returns the time ten years earlier.
  find_last_missed :
      (last : ℤ)
      → IsLatest fires from last
      → last +ℤ pos (get_search_window (analyze_schedule_frequency expr)) ≤ℤ from
      → find_last_occurrence k sched loc expr from ≡ k.ten_years_before loc from
  unfolding last_in_window
  find_last_missed last l old =
      let w = get_search_window (analyze_schedule_frequency expr) in
      let next = k.next sched loc in
      let start = from -ℤ pos w in
      let missed : ltb_ℤ from (next start) ≡ true = elim (Bool-cases (ltb_ℤ from (next start))) [
        | inl h ↦ h
        | inr h ↦
            let le = IsLatest-bound l (next start) (r.law.active start) (ground (arith, h)) in
            absurd (
              ground
                (arith, le, r.law.later start, -ℤ_parts from (pos w), +ℤ_parts last (pos w), old))
      ] in
      rw (missed, last_in_window) refl
