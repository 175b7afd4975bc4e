-- ===== src/Period/Cache.antt =====
-- The cache of `CalculatePeriod`: until the next transition a cached answer is the computed one.
use lightsout.Base.{
  ◌≡◌, refl, ap, String, [], Bool, none, some, inl, inr, arith, Bool-cases, ok, ==_refl,
}
use lightsout.Base.Dict.{lookup, lookup-insert}
use lightsout.Base.Int.{ℤ, pos, ltb_ℤ, ◌≤ℤ◌, ◌<ℤ◌, ◌+ℤ◌, +ℤ_parts, eq_of_parts}
use native.Mathlib.Nat.{le_antisymm}
use lightsout.Period.{
  Calendar, PeriodResult, PeriodCache, generate_cache_key, get_cached_period, valid_until_of,
  set_cached_period, find_last_occurrence, analyze_schedule_frequency, get_search_window, period_at,
  calculate_period,
}
use lightsout.Period.Search.{
  IsNext, IsLatest, IsLatest-unique, IsLatest-bound, IsLatest-intro, window_positive, Regular,
  InWindow, find_last-IsLatest,
}

-- What is stored is found under its key until it expires.
get_cached-set_cached :
    (key : String) (r : PeriodResult) (now : ℤ) (cache : PeriodCache)
    → now ≤ℤ valid_until_of r
    → get_cached_period key now (set_cached_period key r cache) ≡ some r
unfolding get_cached_period
get_cached-set_cached key r now cache h =
    rw
      (
        lookup-insert key key (record { result = r; valid_until = valid_until_of r }) cache,
        ==_refl key,
        get_cached_period,
      )
      (ground (arith, h))

module _ (next : ℤ → ℤ) (fires : ℤ → Bool) (law : IsNext next fires) (t now : ℤ) (le : t ≤ℤ now)
    (lt : now <ℤ next t) where
  -- Between two activations neither the next nor the last one changes.
  next_same : next now ≡ next t
  next_same =
      let up = law.none_between now (next t) (law.active t) lt in
      let down =
        law.none_between t (next now) (law.active now) (ground (arith, law.later now, le)) in
      eq_of_parts (next now) (next t) (le_antisymm up down)

  last_same : (last : ℤ) → IsLatest fires t last → IsLatest fires now last
  last_same last l = IsLatest-intro fires now last (omega (arith, l.reached)) l.active (λ u f h.
      elim (Bool-cases (ltb_ℤ t u)) [
        | inl after ↦
            let gap = law.none_between t u f (ground (arith, after)) in
            absurd (ground (arith, gap, lt, h))
        | inr before ↦ IsLatest-bound l u f (ground (arith, before))
      ])

module _ (k : Calendar) (upscale_cron downscale_cron timezone : String) (up down : k.Schedule)
    (loc : k.Location) (zone : k.load_location timezone ≡ ok loc)
    (parsed_up : k.parse upscale_cron ≡ ok up) (parsed_down : k.parse downscale_cron ≡ ok down)
    (t : ℤ) (cache : PeriodCache)
    (missed : get_cached_period (generate_cache_key k upscale_cron downscale_cron timezone) t cache
      ≡ none) where
  first_call : calculate_period k upscale_cron downscale_cron timezone t cache ≡ (
    ok (period_at k upscale_cron downscale_cron up down loc t),
    set_cached_period
        (generate_cache_key k upscale_cron downscale_cron timezone)
        (period_at k upscale_cron downscale_cron up down loc t)
        cache,
  )
  unfolding calculate_period
  first_call = rw (missed, calculate_period) (rw (zone, parsed_up, parsed_down) refl)

  second_call :
      (now : ℤ)
      → now ≤ℤ valid_until_of (period_at k upscale_cron downscale_cron up down loc t)
      → (calculate_period k upscale_cron downscale_cron timezone now
          (calculate_period k upscale_cron downscale_cron timezone t cache).1).0
        ≡ ok (period_at k upscale_cron downscale_cron up down loc t)
  unfolding calculate_period
  second_call now h =
      rw (first_call, calculate_period)
        (rw
          (get_cached-set_cached _ (period_at k upscale_cron downscale_cron up down loc t) now cache
            h)
          refl)

module _ (k : Calendar) (upscale_cron downscale_cron timezone : String) (up down : k.Schedule)
    (loc : k.Location) (now : ℤ) where
  -- What a call with an empty cache answers.
  empty_cache :
      k.load_location timezone ≡ ok loc
      → k.parse upscale_cron ≡ ok up
      → k.parse downscale_cron ≡ ok down
      → (calculate_period k upscale_cron downscale_cron timezone now []).0
        ≡ ok (period_at k upscale_cron downscale_cron up down loc now)
  unfolding get_cached_period lookup
  empty_cache zone parsed_up parsed_down =
      ap (λ r. r.0)
        (first_call k upscale_cron downscale_cron timezone up down loc zone parsed_up parsed_down
          now [] refl)

-- One of the two schedules between its activations.
module _ (k : Calendar) (sched : k.Schedule) (loc : k.Location) (expr : String) (fires : ℤ → Bool)
    (r : Regular k sched loc expr fires) (t now u : ℤ) (then_found : InWindow expr fires t u)
    (now_found : InWindow expr fires now u) (le : t ≤ℤ now) (lt : now <ℤ k.next sched loc t) where
  find_last_same :
      find_last_occurrence k sched loc expr now ≡ find_last_occurrence k sched loc expr t
  find_last_same = IsLatest-unique (find_last-IsLatest k sched loc expr fires r now u now_found) (
      last_same (k.next sched loc) fires r.law t now le lt _
        (find_last-IsLatest k sched loc expr fires r t u then_found))

module _ (k : Calendar) (upscale_cron downscale_cron timezone : String) (up down : k.Schedule)
    (loc : k.Location) (up_fires down_fires : ℤ → Bool)
    (up_regular : Regular k up loc upscale_cron up_fires)
    (down_regular : Regular k down loc downscale_cron down_fires) where
  -- Take two regular schedules that parse, and a time at which the cache has no valid answer for
  -- them. A call then and a later one before the next transition of either schedule: the later call
  -- answers the same as with an empty cache, if one activation of each schedule lies in the search
  -- windows of both calls.
  pub cache_transparent :
      k.load_location timezone ≡ ok loc
      → k.parse upscale_cron ≡ ok up
      → k.parse downscale_cron ≡ ok down
      → (t now u v : ℤ) (cache : PeriodCache)
      → get_cached_period (generate_cache_key k upscale_cron downscale_cron timezone) t cache ≡ none
      → InWindow upscale_cron up_fires t u
      → InWindow upscale_cron up_fires now u
      → InWindow downscale_cron down_fires t v
      → InWindow downscale_cron down_fires now v
      → t ≤ℤ now
      → now <ℤ k.next up loc t
      → now <ℤ k.next down loc t
      → (calculate_period k upscale_cron downscale_cron timezone now
          (calculate_period k upscale_cron downscale_cron timezone t cache).1).0
        ≡ (calculate_period k upscale_cron downscale_cron timezone now []).0
  unfolding period_at
  cache_transparent zone pu pd t now u v cache missed up_t up_now down_t down_now le lt lt' =
      let e1 = find_last_same k up loc upscale_cron up_fires up_regular t now u up_t up_now le lt in
      let e2 =
        find_last_same k down loc downscale_cron down_fires down_regular t now v down_t down_now le
          lt' in
      let e3 = next_same (k.next up loc) up_fires up_regular.law t now le lt in
      let e4 = next_same (k.next down loc) down_fires down_regular.law t now le lt' in
      rw
        (
          second_call k upscale_cron downscale_cron timezone up down loc zone pu pd t cache missed
              now (ground (arith, lt, lt')),
          empty_cache k upscale_cron downscale_cron timezone up down loc now zone pu pd,
        )
        (rw (e1, e2, e3, e4) refl)

  -- At the very moment of an upscale the cache still answers for the time before it: a call at the
  -- next activation of the upscale schedule, which comes no later than the next downscale, returns
  -- the earlier answer, whose last upscale is before that moment; computed anew, the last upscale is
  -- that moment.
  cache_stale :
      k.load_location timezone ≡ ok loc
      → k.parse upscale_cron ≡ ok up
      → k.parse downscale_cron ≡ ok down
      → (t u : ℤ) (cache : PeriodCache)
      → get_cached_period (generate_cache_key k upscale_cron downscale_cron timezone) t cache ≡ none
      → InWindow upscale_cron up_fires t u
      → k.next up loc t ≤ℤ k.next down loc t
      → let now = k.next up loc t in
        let answer = period_at k upscale_cron downscale_cron up down loc t in
        ((calculate_period k upscale_cron downscale_cron timezone now
            (calculate_period k upscale_cron downscale_cron timezone t cache).1).0
          ≡ ok answer)
        × (answer.last_upscale <ℤ now)
        × ((period_at k upscale_cron downscale_cron up down loc now).last_upscale ≡ now)
  unfolding period_at
  cache_stale zone pu pd t u cache missed found first =
      let now = k.next up loc t in
      let old = find_last-IsLatest k up loc upscale_cron up_fires up_regular t u found in
      let late = up_regular.law.later t in
      let f = analyze_schedule_frequency upscale_cron in
      let moment : now <ℤ now +ℤ pos (get_search_window f) =
        ground (arith, +ℤ_parts now (pos (get_search_window f)), window_positive f) in
      (
        second_call k upscale_cron downscale_cron timezone up down loc zone pu pd t cache missed now
            (ground (arith, first)),
        omega (arith, old.reached, late),
        IsLatest-unique
            (find_last-IsLatest k up loc upscale_cron up_fires up_regular now now
              (up_regular.law.active t, moment, omega arith))
            (IsLatest-intro up_fires now now (omega arith) (up_regular.law.active t) (λ x f h. h)),
      )
