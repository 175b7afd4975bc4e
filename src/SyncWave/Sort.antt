-- ===== src/SyncWave/Sort.antt =====
-- The order in which the waves are processed.
use lightsout.Base.{
  suc, ◌+◌, ap, ◌∙◌, length, ◌≡◌, refl, Bool, true, false, List, [], ◌∷◌, arith, All, inl, inr,
  Bool-cases,
}
use lightsout.Workload.Counts.{is_one, how_many_of}
use lightsout.Workload.{WorkloadType, kind, Workload}
use lightsout.SyncWave.{sync_wave, wave_before, at_most, insert_workload, sort_workloads_by_wave}
use mathlib.Core.List.{Perm}
use mathlib.Core.List.Perm

-- No wave of the list is processed before an earlier one's.
abbrev pub NotBefore : Bool → Workload → Workload → Type 0
NotBefore up w v = wave_before (sync_wave v) (sync_wave w) up ≡ false

abbrev pub IsOrdered : Bool → List Workload → Type 0
IsOrdered up [] = Unit
IsOrdered up (w ∷ ws) = All (NotBefore up w) ws × IsOrdered up ws

at_most-NotBefore : (up : Bool) (w v : Workload) → at_most up w v ≡ true → NotBefore up w v
unfolding at_most
at_most-NotBefore true w v h = ground arith
at_most-NotBefore false w v h = ground arith

not_at_most-NotBefore : (up : Bool) (w v : Workload) → at_most up w v ≡ false → NotBefore up v w
unfolding at_most
not_at_most-NotBefore true w v h = ground arith
not_at_most-NotBefore false w v h = ground arith

NotBefore-trans :
    (up : Bool) (u v w : Workload) → NotBefore up u v → NotBefore up v w → NotBefore up u w
NotBefore-trans true u v w h k = ground arith
NotBefore-trans false u v w h k = ground arith

All-trans :
    (up : Bool) (w v : Workload) (ws : List Workload)
    → NotBefore up w v
    → All (NotBefore up v) ws
    → All (NotBefore up w) ws
All-trans up w v [] h k = tt
All-trans up w v (u ∷ ws) h (k, ks) = (NotBefore-trans up w v u h k, All-trans up w v ws h ks)

All-insert :
    (up : Bool) (u w : Workload) (vs : List Workload)
    → NotBefore up u w
    → All (NotBefore up u) vs
    → All (NotBefore up u) (insert_workload up w vs)
unfolding insert_workload
All-insert up u w [] h k = (h, tt)
All-insert up u w (v ∷ vs) h (k, ks) = elim (Bool-cases (at_most up w v)) [
  | inl first ↦ rw first (h, (k, ks))
  | inr later ↦ rw later (k, All-insert up u w vs h ks)
]

insert-IsOrdered :
    (up : Bool) (w : Workload) (vs : List Workload)
    → IsOrdered up vs
    → IsOrdered up (insert_workload up w vs)
unfolding insert_workload
insert-IsOrdered up w [] o = (tt, tt)
insert-IsOrdered up w (v ∷ vs) (h, o) = elim (Bool-cases (at_most up w v)) [
  | inl first ↦
      let below = at_most-NotBefore up w v first in
      rw first ((below, All-trans up w v vs below h), (h, o))
  | inr later ↦
      rw later
        (All-insert up v w vs (not_at_most-NotBefore up w v later) h, insert-IsOrdered up w vs o)
]

insert-perm :
    (up : Bool) (w : Workload) (vs : List Workload) → Perm (insert_workload up w vs) (w ∷ vs)
unfolding insert_workload
insert-perm up w [] = Perm.refl _
insert-perm up w (v ∷ vs) = elim (Bool-cases (at_most up w v)) [
  | inl first ↦ rw first (Perm.refl _)
  | inr later ↦ rw later (Perm.trans (Perm.cons v (insert-perm up w vs)) (Perm.swap w v vs))
]

sort-perm : (up : Bool) (ws : List Workload) → Perm (sort_workloads_by_wave up ws) ws
unfolding sort_workloads_by_wave
sort-perm up [] = Perm.refl _
sort-perm up (w ∷ ws) =
    Perm.trans (insert-perm up w (sort_workloads_by_wave up ws)) (Perm.cons w (sort-perm up ws))

sort-IsOrdered : (up : Bool) (ws : List Workload) → IsOrdered up (sort_workloads_by_wave up ws)
unfolding sort_workloads_by_wave
sort-IsOrdered up [] = tt
sort-IsOrdered up (w ∷ ws) = insert-IsOrdered up w _ (sort-IsOrdered up ws)

-- Sorting by wave keeps every workload, as often, and puts no wave in front of one that the
-- direction processes before it.
pub sort_waves :
    (up : Bool) (ws : List Workload)
    → Perm (sort_workloads_by_wave up ws) ws × IsOrdered up (sort_workloads_by_wave up ws)
sort_waves up ws = (sort-perm up ws, sort-IsOrdered up ws)

length-insert :
    (up : Bool) (w : Workload) (vs : List Workload)
    → length (insert_workload up w vs) ≡ suc (length vs)
unfolding insert_workload
length-insert up w [] = refl
length-insert up w (v ∷ vs) = ground (arith, length-insert up w vs)

pub length-sort :
    (up : Bool) (ws : List Workload) → length (sort_workloads_by_wave up ws) ≡ length ws
unfolding sort_workloads_by_wave
length-sort up [] = refl
length-sort up (w ∷ ws) = length-insert up w _ ∙ ap suc (length-sort up ws)

how_many-insert :
    (k : WorkloadType) (up : Bool) (w : Workload) (vs : List Workload)
    → how_many_of k (insert_workload up w vs) ≡ is_one k (kind w) + how_many_of k vs
unfolding insert_workload
how_many-insert k up w [] = refl
how_many-insert k up w (v ∷ vs) = elim (Bool-cases (at_most up w v)) [
  | inl first ↦ rw first refl
  | inr after ↦ rw after (omega (arith, how_many-insert k up w vs))
]

pub how_many-sort :
    (k : WorkloadType) (up : Bool) (ws : List Workload)
    → how_many_of k (sort_workloads_by_wave up ws) ≡ how_many_of k ws
unfolding sort_workloads_by_wave
how_many-sort k up [] = refl
how_many-sort k up (w ∷ ws) =
    how_many-insert k up w (sort_workloads_by_wave up ws)
    ∙ ap (λ n. is_one k (kind w) + n) (how_many-sort k up ws)
