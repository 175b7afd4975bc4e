-- ===== src/SyncWave/Gate.antt =====
-- The gate between two sync waves: its progress is monotonic and its wait is bounded.
use lightsout.Base.{◌≡◌, Bool, true, false, not, ◌&&◌, ◌||◌, Option, none, some, List, arith}
use lightsout.Base.Int.{ℤ, pos, ltb_ℤ, leb_ℤ, ◌-ℤ◌, -ℤ_parts}
use lightsout.Workload.{Workload}
use lightsout.SyncWave.{
  WaveProgress, wave_before, wave_settled, waiting_since, passed_already, wave_gate,
}

-- The progress that a gate returns is never of a wave that is processed before the wave of the
-- progress it was given.
gate_monotone :
    (p q : WaveProgress) (wave : ℤ) (members : List Workload) (scale_up : Bool) (timeout now : ℤ)
    → (wave_gate (some p) wave members scale_up timeout now).0 ≡ some q
    → wave_before q.wave p.wave scale_up ≡ false
unfolding wave_gate
gate_monotone p q wave members true timeout now h = ground arith
gate_monotone p q wave members false timeout now h = ground arith

-- A wave that scaling has moved past is not waited on again.
passed_never_holds :
    (p : WaveProgress) (wave : ℤ) (members : List Workload) (scale_up : Bool) (timeout now : ℤ)
    → wave_before wave p.wave scale_up ≡ true
    → wave_gate (some p) wave members scale_up timeout now ≡ (some p, false)
unfolding wave_gate
passed_never_holds p wave members scale_up timeout now h = rw (h, passed_already)

held-eq :
    (prev : Option WaveProgress) (wave : ℤ) (members : List Workload) (scale_up : Bool)
    (timeout now : ℤ)
    → (wave_gate prev wave members scale_up timeout now).1 ≡ true
    → (wave_gate prev wave members scale_up timeout now).0
      ≡ some (record { wave = wave; since = waiting_since prev wave now })
unfolding wave_gate
held-eq prev wave members true timeout now h = ground arith
held-eq prev wave members false timeout now h = ground arith

again :
    (wave since : ℤ) (members : List Workload) (scale_up : Bool) (timeout now : ℤ)
    → let p : Option WaveProgress = some (record { wave = wave; since = since }) in
      wave_gate p wave members scale_up timeout now
      ≡ (p, not ((wave_settled members scale_up).0 || leb_ℤ timeout (now -ℤ since)))
unfolding wave_gate
again wave since members true timeout now = ground arith
again wave since members false timeout now = ground arith

-- While a gate holds a wave its clock is not restarted: asked again at any later time, it answers
-- with the same progress, and it holds exactly while the members have not settled and the time
-- since the first wait began is below the timeout.
pub gate_wait_bounded :
    (prev : Option WaveProgress) (wave : ℤ) (members members' : List Workload) (scale_up : Bool)
    (timeout now now' : ℤ)
    → (wave_gate prev wave members scale_up timeout now).1 ≡ true
    → let held = (wave_gate prev wave members scale_up timeout now).0 in
      wave_gate held wave members' scale_up timeout now' ≡ (
        held,
        not (
            (wave_settled members' scale_up).0
            || leb_ℤ timeout (now' -ℤ waiting_since prev wave now)),
      )
gate_wait_bounded prev wave members members' scale_up timeout now now' h =
    rw (held-eq prev wave members scale_up timeout now h)
      (again wave (waiting_since prev wave now) members' scale_up timeout now')

-- The progress that a gate returns when it lets a settled wave pass does not keep the same wave
-- from being held later: with other members that have not settled, and before the timeout, it is.
released_may_hold :
    (wave since : ℤ) (members members' : List Workload) (scale_up : Bool) (timeout now now' : ℤ)
    → (wave_settled members scale_up).0 ≡ true
    → (wave_settled members' scale_up).0 ≡ false
    → leb_ℤ timeout (now' -ℤ since) ≡ false
    → let p : Option WaveProgress = some (record { wave = wave; since = since }) in
      (wave_gate p wave members scale_up timeout now ≡ (p, false))
      × (wave_gate p wave members' scale_up timeout now' ≡ (p, true))
released_may_hold wave since members members' scale_up timeout now now' settled unsettled early = (
  rw (again wave since members scale_up timeout now, settled),
  rw (again wave since members' scale_up timeout now', unsettled, early),
)

-- A gate that is given no progress of an earlier pass.
pub first_gate :
    (wave : ℤ) (members : List Workload) (scale_up : Bool) (timeout now : ℤ)
    → (wave_gate none wave members scale_up timeout now).1
      ≡ (not (wave_settled members scale_up).0 && ltb_ℤ (pos 0) timeout)
unfolding wave_gate waiting_since passed_already
first_gate wave members scale_up timeout now = ground (arith, -ℤ_parts now now)
