-- ===== src/Period.antt =====
-- internal/controller/period.go: whether a schedule is in its up or its down period, from the last
-- activations of two cron expressions, with a cache of the answers.
pub mod Search
pub mod Cache
use lightsout.Base.{
  ℕ, zero, suc, ◌+◌, ◌*◌, ◌/◌, String, ◌<>◌, Bool, true, false, ◌&&◌, ◌||◌, not, Option, none, some,
  List, [], ◌∷◌,
}
use lightsout.Base.{◌==◌, ◌!=◌, if◌then◌else◌, ltb, Result, ok, err}
use lightsout.Base.Dict.{Dict, lookup, insert}
use lightsout.Base.Int.{ℤ, pos, ltb_ℤ, ◌-ℤ◌}
use lightsout.Base.Text.{fields, has_prefix, has_char}
use lightsout.Constants.{minute, hour}

-- What the code calls of `time` and github.com/robfig/cron: times are in nanoseconds of the Unix
-- time, and `next` is `Schedule.Next` of a time in a location. `ten_years_before` is
-- `AddDate(-10, 0, 0)`, and `digest` the hexadecimal SHA-256 of a text.
pub record Calendar : Type 1 where
  pub Schedule : Type 0
  pub Location : Type 0
  pub parse : String → Result Schedule
  pub load_location : String → Result Location
  pub next : Schedule → Location → ℤ → ℤ
  pub ten_years_before : Location → ℤ → ℤ
  pub digest : String → String

-- `PeriodResult`
pub record PeriodResult : Type 0 where
  pub state : String
  pub next_upscale : ℤ
  pub next_downscale : ℤ
  pub last_upscale : ℤ
  pub last_downscale : ℤ

-- `cachedPeriod`
pub record CachedPeriod : Type 0 where
  pub result : PeriodResult
  pub valid_until : ℤ

abbrev pub PeriodCache : Type 0
PeriodCache = Dict CachedPeriod

-- `scheduleFrequency`
pub data ScheduleFrequency : Type 0 where
  every_minute hourly daily weekly monthly rare : ScheduleFrequency

-- `generateCacheKey`: the hash reads the three texts one after the other.
abbrev pub generate_cache_key : Calendar → String → String → String → String
generate_cache_key k upscale downscale timezone = k.digest (upscale <> downscale <> timezone)

-- `getCachedPeriod`
unfoldable pub get_cached_period : String → ℤ → PeriodCache → Option PeriodResult
get_cached_period key now cache = elim (lookup key cache) [
  | none ↦ none
  | some c ↦ if ltb_ℤ c.valid_until now then none else some c.result
]

-- The time until which a result is cached: the next transition.
abbrev pub valid_until_of : PeriodResult → ℤ
valid_until_of r =
    if ltb_ℤ r.next_downscale r.next_upscale then r.next_downscale else r.next_upscale

-- `setCachedPeriod`
abbrev pub set_cached_period : String → PeriodResult → PeriodCache → PeriodCache
set_cached_period key r = insert key (record { result = r; valid_until = valid_until_of r })

abbrev is_step : String → Bool
is_step field = field == "*" || has_prefix field "*/"

abbrev comma : ℕ
comma = 44

abbrev hyphen : ℕ
hyphen = 45

-- The tests of `analyzeScheduleFrequency`, in their order.
unfoldable pub frequency_of : String → String → String → String → String → ScheduleFrequency
frequency_of min hr dom month dow =
    if is_step min
    then every_minute
    else if is_step hr
    then hourly
    else if (dom == "*" || has_char dom comma || has_char dom hyphen || has_prefix dom "*/")
        && month == "*"
        && dow == "*"
    then daily
    else if dow != "*" && month == "*"
    then weekly
    else if dom != "*" || month != "*"
    then (if month != "*" && not (has_char month comma) && not (has_char month hyphen)
        then rare
        else monthly)
    else rare

abbrev of_fields : List String → ScheduleFrequency
of_fields (min ∷ hr ∷ dom ∷ month ∷ dow ∷ []) = frequency_of min hr dom month dow
of_fields _ = rare

-- `analyzeScheduleFrequency`
unfoldable pub analyze_schedule_frequency : String → ScheduleFrequency
analyze_schedule_frequency expr = of_fields (fields expr)

abbrev pub window_hours : ScheduleFrequency → ℕ
window_hours every_minute = 48
window_hours hourly = 72
window_hours daily = 240
window_hours weekly = 768
window_hours monthly = 2160
window_hours rare = 9600

-- `getSearchWindow`
abbrev pub get_search_window : ScheduleFrequency → ℕ
get_search_window f = window_hours f * hour

-- The minutes of the window, and no more than those of a year.
abbrev pub max_iterations : ScheduleFrequency → ℕ
max_iterations f = if ltb 525600 (window_hours f * 60) then 525600 else window_hours f * 60

module _ (next : ℤ → ℤ) (from : ℤ) where
  -- The loop of `findLastOccurrence`, on the iterations that are left.
  unfoldable pub search_forward : ℕ → ℤ → ℤ
  search_forward zero last = last
  search_forward (suc n) last = elim (ltb_ℤ from (next last)) [
    | true ↦ last
    | false ↦ search_forward n (next last)
  ]

-- `findLastOccurrence`, of a schedule whose expression has this frequency
unfoldable pub last_in_window : (k : Calendar) → k.Schedule → k.Location → ScheduleFrequency → ℤ → ℤ
last_in_window k sched loc f from =
    let first = k.next sched loc (from -ℤ pos (get_search_window f)) in
    elim (ltb_ℤ from first) [
      | true ↦ k.ten_years_before loc from
      | false ↦ search_forward (k.next sched loc) from (max_iterations f) first
    ]

abbrev pub find_last_occurrence : (k : Calendar) → k.Schedule → k.Location → String → ℤ → ℤ
find_last_occurrence k sched loc expr from =
    last_in_window k sched loc (analyze_schedule_frequency expr) from

module _ (k : Calendar) (upscale_cron downscale_cron : String) where
  -- The result of `CalculatePeriod` where the cache has none and nothing fails.
  unfoldable pub period_at : k.Schedule → k.Schedule → k.Location → ℤ → PeriodResult
  period_at up down loc now =
      let last_up = find_last_occurrence k up loc upscale_cron now in
      let last_down = find_last_occurrence k down loc downscale_cron now in
      record {
        state = if ltb_ℤ last_down last_up then "Up" else "Down";
        next_upscale = k.next up loc now;
        next_downscale = k.next down loc now;
        last_upscale = last_up;
        last_downscale = last_down;
      }

  -- `CalculatePeriod`. An error is the text of the call that failed, without the prefix.
  unfoldable pub calculate_period : String → ℤ → PeriodCache → Result PeriodResult × PeriodCache
  calculate_period timezone now cache =
      let key = generate_cache_key k upscale_cron downscale_cron timezone in
      elim (get_cached_period key now cache) [
        | some r ↦ (ok r, cache)
        | none ↦ elim (k.load_location timezone) [
          | err e ↦ (err e, cache)
          | ok loc ↦ elim (k.parse upscale_cron) [
            | err e ↦ (err e, cache)
            | ok up ↦ elim (k.parse downscale_cron) [
              | err e ↦ (err e, cache)
              | ok down ↦ let r = period_at up down loc now in (ok r, set_cached_period key r cache)
            ]
          ]
        ]
      ]
