-- ===== src/Scaler/Outcome.antt =====
-- What scaling one workload returns and changes (`ScaleResult` of internal/controller/scaler.go),
-- and its skip reasons.
use lightsout.Base.{String, ◌≡◌, refl, Bool, true, false, Result, ok, err}
use lightsout.Kube.Objects.{HpaList}

abbrev pub skip_reason_different_schedule : String
skip_reason_different_schedule = "managed by different schedule"

abbrev pub skip_reason_not_managed : String
skip_reason_not_managed = "not managed by lightsout"

abbrev pub skip_reason_user_parked : String
skip_reason_user_parked = "already at 0 replicas"

-- `ScaleResult`
pub record ScaleResult : Type 0 where
  pub skipped : Bool
  pub skip_reason : String
  pub previous_value : String
  pub new_value : String

abbrev pub skip : String → ScaleResult
skip reason = record { skipped = true; skip_reason = reason; previous_value = ""; new_value = "" }

abbrev pub scaled : String → String → ScaleResult
scaled from to = record { skipped = false; skip_reason = ""; previous_value = from; new_value = to }

-- A scaling call writes to the object in hand, to the namespace's HPA list and to the cluster.
pub record Outcome (S Obj : Type 0) : Type 0 where
  pub result : Result ScaleResult
  pub object : Obj
  pub hpas : HpaList
  pub state : S

-- The answer of a patch: on success the object becomes the server's copy.
abbrev pub conclude :
    {S Obj : Type 0} → ScaleResult → Obj → HpaList → Result Obj × S → Outcome S Obj
conclude r o hpas (ok o', s) = record { result = ok r; object = o'; hpas = hpas; state = s }
conclude r o hpas (err e, s) = record { result = err e; object = o; hpas = hpas; state = s }

-- A call that succeeded with its patch returns the server's copy of the object.
pub conclude-ok :
    {S Obj : Type 0} (r : ScaleResult) (o : Obj) (hpas : HpaList) (answer : Result Obj × S)
    {r' : ScaleResult}
    → (conclude r o hpas answer).result ≡ ok r'
    → (o' : Obj) × (s : S) × (answer ≡ (ok o', s))
      × ((conclude r o hpas answer).object ≡ o')
      × (r' ≡ r)
conclude-ok r o hpas (ok o', s) h = (o', s, refl, refl, cc)
conclude-ok r o hpas (err e, s) h = cc

-- A call that failed reports the error of its patch, and leaves the object as it was.
pub conclude-err :
    {S Obj : Type 0} (r : ScaleResult) (o : Obj) (hpas : HpaList) (answer : Result Obj × S)
    {e : String}
    → (conclude r o hpas answer).result ≡ err e
    → (answer.0 ≡ err e) × ((conclude r o hpas answer).object ≡ o)
conclude-err r o hpas (ok o', s) h = cc
conclude-err r o hpas (err e, s) h = (cc, refl)
