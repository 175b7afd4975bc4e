-- ===== src/Scaler/Replicas/RoundTrip.antt =====
-- A scaled workload gets back what it had, and other workloads are left alone.
use lightsout.Base.{
  ◌-◌, ◌^◌, String, ◌≡◌, ◌∙◌, ap, sym, ◌≢◌, inl, inr, Bool, true, false, some, arith, ok, err, ◌||◌,
  ◌&&◌,
}
use lightsout.Base.{◌==◌, if◌then◌else◌, Option-cases}
use lightsout.Base.Dict.{lookup, get, value}
use lightsout.Base.Int.{ℤ, pos, negsuc, neg, ltb_ℤ}
use lightsout.Base.Decimal.{
  itoa, itoa-ne-nil, parse_int, parse_int-itoa, parse_int-InRange, InRange,
}
use lightsout.Constants.{managed_by_annotation, original_replicas_annotation}
use lightsout.Kube.Objects.{Replicated, HpaList, deref}
use lightsout.Kube.Client.{Client, apply_merge_patch, IsMergePatch}
use lightsout.Scaler.Hpa.RoundTrip.{KeepsWorkloads, restore_hpa-current}
use lightsout.Scaler.Outcome.{
  ScaleResult, skip, scaled, conclude, conclude-err, skip_reason_not_managed,
  skip_reason_different_schedule, skip_reason_user_parked,
}
use lightsout.Scaler.Replicas.{
  up_patch, left_alone, write_up, scale_replicas, parse_replicas, is_foreign,
}
use lightsout.Scaler.Replicas.Laws.{
  IsScaledToZero, IsReleased, scale_down-IsScaledToZero, write_up-IsReleased, restore_after_keeps,
}

parse_replicas-itoa : (n : ℤ) → InRange 32 n → parse_replicas (itoa n) ≡ n
unfolding parse_replicas
parse_replicas-itoa n h = rw (parse_int-itoa 32 n h, parse_replicas)

-- Too large for an int32, or too small.
abbrev pub overflows : ℤ → Bool
overflows n = ltb_ℤ n (neg (2 ^ 31)) || ltb_ℤ (pos (2 ^ 31 - 1)) n

InRange-fits : (n : ℤ) → InRange 32 n → overflows n ≡ false
InRange-fits (pos n) h = ground arith
InRange-fits (negsuc n) h = ground arith

-- What is read from the annotation fits an int32, so the overflow check of the code never fires.
pub parse_replicas_fits : (s : String) → overflows (parse_replicas s) ≡ false
unfolding parse_replicas
parse_replicas_fits s = elim (Option-cases (parse_int 32 s)) [
  | inl bad ↦ rw (bad, parse_replicas)
  | inr (n, e) ↦ rw (e, parse_replicas) (InRange-fits n (parse_int-InRange 32 s (omega arith) e))
]

get_of_lookup :
    (k : String) (o : Replicated) {v : String}
    → lookup k o.meta.annotations ≡ some v
    → get k o.meta.annotations ≡ v
unfolding get
get_of_lookup k o h = ap value h

module _ (c : Client) where
  -- With the two annotations of a workload that is down, the upscale makes its writes.
  scale_up-eq-write_up :
      (o : Replicated) (kind schedule_name : String) (n : ℤ) (hpas : HpaList) (s : c.State)
      → InRange 32 n
      → lookup original_replicas_annotation o.meta.annotations ≡ some (itoa n)
      → lookup managed_by_annotation o.meta.annotations ≡ some schedule_name
      → scale_replicas c o kind schedule_name true hpas s ≡ write_up c o kind n schedule_name hpas s
  unfolding scale_replicas
  scale_up-eq-write_up o kind schedule_name n hpas s range orig managed =
      rw (get_of_lookup original_replicas_annotation o orig) (
        rw (get_of_lookup managed_by_annotation o managed) (
          rw (parse_replicas-itoa n range)
            (rw (InRange-fits n range) (ground (arith, itoa-ne-nil n)))))

  failed-eq-write_up :
      (o : Replicated) (kind schedule_name : String) (hpas : HpaList) (s : c.State) (e : String)
      → (scale_replicas c o kind schedule_name true hpas s).result ≡ err e
      → scale_replicas c o kind schedule_name true hpas s
        ≡ write_up c o kind
            (parse_replicas (get original_replicas_annotation o.meta.annotations))
            schedule_name
            hpas
            s
  unfolding scale_replicas
  failed-eq-write_up o kind schedule_name hpas s e h =
      ground (arith, parse_replicas_fits (get original_replicas_annotation o.meta.annotations))

  -- An upscale fails only if the server refuses the patch of the replicas, and then the object in
  -- hand is as it was; the overflow check of the code never fires.
  scale_up_failed :
      (o : Replicated) (kind schedule_name : String) (hpas : HpaList) (s : c.State) (e : String)
      → (scale_replicas c o kind schedule_name true hpas s).result ≡ err e
      → ((apply_merge_patch c.replicated o
            (up_patch (parse_replicas (get original_replicas_annotation o.meta.annotations)))
            s).0
          ≡ err e)
        × ((scale_replicas c o kind schedule_name true hpas s).object ≡ o)
  unfolding write_up
  scale_up_failed o kind schedule_name hpas s e h =
      let n = parse_replicas (get original_replicas_annotation o.meta.annotations) in
      let same = failed-eq-write_up o kind schedule_name hpas s e h in
      let answer = apply_merge_patch c.replicated o (up_patch n) s in
      let (kept, result) =
        restore_after_keeps c kind schedule_name (conclude (scaled "0" (itoa n)) o hpas answer) in
      let (refused, object) =
        conclude-err (scaled "0" (itoa n)) o hpas answer
          (sym result ∙ ap (λ x. x.result) (sym same) ∙ h) in
      (refused, ap (λ x. x.object) same ∙ kept ∙ object)

  -- A downscale of a workload that the schedule has already scaled down does nothing at all.
  IsScaledToZero-left_alone :
      (o : Replicated) (kind schedule_name : String) (n : ℤ) (hpas : HpaList) (s : c.State)
      → IsScaledToZero schedule_name n o
      → scale_replicas c o kind schedule_name false hpas s
        ≡ left_alone c o "already scaled down" hpas s
  unfolding scale_replicas
  IsScaledToZero-left_alone o kind schedule_name n hpas s d =
      rw (get_of_lookup original_replicas_annotation o d.original)
        (rw (get_of_lookup managed_by_annotation o d.managed_by) (ground (arith, itoa-ne-nil n)))

  -- A workload that its user parked at zero replicas is never claimed: neither direction writes it.
  parked_left_alone :
      (o : Replicated) (kind schedule_name : String) (up : Bool) (hpas : HpaList) (s : c.State)
      → o.replicas ≡ some (pos 0)
      → get original_replicas_annotation o.meta.annotations ≡ ""
      → let r = scale_replicas c o kind schedule_name up hpas s in
        (r.object ≡ o) × (reason : String) × (r.result ≡ ok (skip reason))
  unfolding scale_replicas
  parked_left_alone o kind schedule_name true hpas s parked unclaimed =
      (ground arith, skip_reason_not_managed, ground arith)
  parked_left_alone o kind schedule_name false hpas s parked unclaimed =
      let reason =
        if is_foreign (get managed_by_annotation o.meta.annotations) schedule_name
        then skip_reason_different_schedule
        else skip_reason_user_parked in
      (ground arith, reason, ground arith)

module _ (c : Client) (apart : KeepsWorkloads c) where
  -- A workload that carries another schedule's name is never written, in either direction: the call
  -- skips it, the object in hand is what it was, and the server holds the same copies of all
  -- workloads as before. A downscale writes nothing at all; an upscale of a workload without a
  -- record may restore its HPA, and patches of HPAs are taken to change no workload.
  pub foreign_left_alone :
      (o : Replicated) (kind schedule_name : String) (up : Bool) (hpas : HpaList) (s : c.State)
      → get managed_by_annotation o.meta.annotations ≢ ""
      → get managed_by_annotation o.meta.annotations ≢ schedule_name
      → let r = scale_replicas c o kind schedule_name up hpas s in
        (r.object ≡ o)
        × (r.result
            ≡ ok (
                skip (
                  if up && get original_replicas_annotation o.meta.annotations == ""
                  then skip_reason_not_managed
                  else skip_reason_different_schedule)))
        × ((x : Replicated) → c.replicated.current r.state x ≡ c.replicated.current s x)
        × ((scale_replicas c o kind schedule_name false hpas s).state ≡ s)
  unfolding scale_replicas
  foreign_left_alone o kind schedule_name up hpas s named other = (
    ground arith,
    ground arith,
    λ x. ground (arith, restore_hpa-current c apart kind o.meta.name schedule_name hpas s x),
    ground arith,
  )

module _ (c : Client) (law : IsMergePatch c) where
  -- A downscale, repeated on the object that it returned, does nothing at all.
  scale_down_twice :
      (o : Replicated) (kind schedule_name : String) (hpas hpas' : HpaList) (s s' : c.State)
      (r : ScaleResult)
      → (scale_replicas c o kind schedule_name false hpas s).result ≡ ok r
      → r.skipped ≡ false
      → let o' = (scale_replicas c o kind schedule_name false hpas s).object in
        scale_replicas c o' kind schedule_name false hpas' s'
        ≡ left_alone c o' "already scaled down" hpas' s'
  scale_down_twice o kind schedule_name hpas hpas' s s' r h k =
      IsScaledToZero-left_alone c _ kind schedule_name (deref o.replicas (pos 1)) hpas' s'
        (scale_down-IsScaledToZero c law o kind schedule_name hpas s r h k)

  -- After a downscale, an upscale that the server accepts restores the exact replica count (1 for
  -- a nil count) and removes every mark, from any later copy `o2` of the object on which the two
  -- annotations still stand.
  pub scale_round_trip :
      (o o2 : Replicated) (kind schedule_name : String) (hpas hpas2 : HpaList) (s s2 : c.State)
      (r r2 : ScaleResult)
      → InRange 32 (deref o.replicas (pos 1))
      → (scale_replicas c o kind schedule_name false hpas s).result ≡ ok r
      → r.skipped ≡ false
      → let down = (scale_replicas c o kind schedule_name false hpas s).object in
        lookup original_replicas_annotation o2.meta.annotations
          ≡ lookup original_replicas_annotation down.meta.annotations
        → lookup managed_by_annotation o2.meta.annotations
          ≡ lookup managed_by_annotation down.meta.annotations
        → (scale_replicas c o2 kind schedule_name true hpas2 s2).result ≡ ok r2
        → IsReleased
            (deref o.replicas (pos 1))
            (scale_replicas c o2 kind schedule_name true hpas2 s2).object
  scale_round_trip o o2 kind schedule_name hpas hpas2 s s2 r r2 range h k orig managed h2 =
      let n = deref o.replicas (pos 1) in
      let d = scale_down-IsScaledToZero c law o kind schedule_name hpas s r h k in
      let same =
        scale_up-eq-write_up c o2 kind schedule_name n hpas2 s2 range (orig ∙ d.original)
          (managed ∙ d.managed_by) in
      rw same (
        write_up-IsReleased c law o2 kind n schedule_name hpas2 s2
          (ap (λ x. x.result) (sym same) ∙ h2))
