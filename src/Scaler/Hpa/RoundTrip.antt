-- ===== src/Scaler/Hpa/RoundTrip.antt =====
-- An HPA gets its scale-up policy back.
use lightsout.Base.{
  String, ◌≡◌, refl, ◌∙◌, ap, sym, inl, inr, false, none, some, [], ◌∷◌, arith, ok, err, Result,
  Bool-cases, Option-cases, ◌==◌, String-discrete,
}
use lightsout.Base.Dict.{lookup, get, value}
use lightsout.Constants.{managed_by_annotation, original_hpa_scale_up_policy_annotation}
use lightsout.Json.{Json, dig}
use lightsout.Kube.Objects.{Hpa, HpaList, Replicated}
use lightsout.Kube.Patch.{build}
use lightsout.Kube.Patch.Build.{dig_spec-build}
use lightsout.Kube.Client.{Client, apply_merge_patch, IsMergePatch, merged_policy, annotation_after}
use lightsout.Scaler.Hpa.{
  hpa_scale_up_disabled, find_hpa, write_hpa, downscale_patch, original_policy, restore_patch,
  scale_up_policy_spec, write_back, patch_hpa_for_downscale, restore_hpa,
}

-- An HPA that the schedule keeps from scaling up, with the policy that it had.
pub record IsDisabled (schedule_name policy : String) (h : Hpa) : Type 0 where
  pub select_policy : h.select_policy ≡ hpa_scale_up_disabled
  pub original : lookup original_hpa_scale_up_policy_annotation h.meta.annotations ≡ some policy
  pub managed_by : lookup managed_by_annotation h.meta.annotations ≡ some schedule_name

-- An HPA with that policy and without a mark of a schedule.
pub record IsEnabled (policy : String) (h : Hpa) : Type 0 where
  pub select_policy : h.select_policy ≡ policy
  pub original : lookup original_hpa_scale_up_policy_annotation h.meta.annotations ≡ none
  pub managed_by : lookup managed_by_annotation h.meta.annotations ≡ none

merged_policy-original_policy :
    (policy old : String) → merged_policy (some (original_policy policy)) old ≡ policy
merged_policy-original_policy policy old = elim (Bool-cases (policy == "")) [
  | inl absent ↦ rw absent (ground arith)
  | inr there ↦ rw there refl
]

module _ (c : Client) (kind name schedule_name : String) where
  write_back-ok :
      (hpas : HpaList) (x : Result Hpa × c.State)
      → (write_back c hpas kind name x).0 ≡ ok tt
      → (h : Hpa) × (s : c.State) × (x ≡ (ok h, s))
        × ((write_back c hpas kind name x).1 ≡ write_hpa hpas kind name h)
  write_back-ok hpas (ok h, s) e = (h, s, refl, refl)
  write_back-ok hpas (err x, s) e = cc

  down-eq-write_back :
      (hpas : HpaList) (h : Hpa) (s : c.State)
      → find_hpa hpas kind name ≡ some h
      → get managed_by_annotation h.meta.annotations ≡ ""
      → (schedule_name == "") ≡ false
      → (h.select_policy == hpa_scale_up_disabled) ≡ false
      → patch_hpa_for_downscale c hpas kind name schedule_name s
        ≡ write_back c hpas kind name
            (apply_merge_patch c.hpas h (downscale_patch h.select_policy schedule_name) s)
  unfolding patch_hpa_for_downscale
  down-eq-write_back hpas h s found free named allowed =
      rw (found, patch_hpa_for_downscale) (ground arith)

  up-eq-write_back :
      (hpas : HpaList) (h : Hpa) (policy : String) (s : c.State)
      → find_hpa hpas kind name ≡ some h
      → (schedule_name == "") ≡ false
      → get managed_by_annotation h.meta.annotations ≡ schedule_name
      → lookup original_hpa_scale_up_policy_annotation h.meta.annotations ≡ some policy
      → restore_hpa c hpas kind name schedule_name s
        ≡ write_back c hpas kind name (apply_merge_patch c.hpas h (restore_patch policy) s)
  unfolding restore_hpa
  up-eq-write_back hpas h policy s found named managed orig =
      rw (found, restore_hpa) (rw orig (ground arith))

module _ (c : Client) (law : IsMergePatch c) where
  downscale_patch-IsDisabled :
      (schedule_name policy : String) (h h' : Hpa) (s s' : c.State)
      → apply_merge_patch c.hpas h (downscale_patch policy schedule_name) s ≡ (ok h', s')
      → IsDisabled schedule_name policy h'
  unfolding apply_merge_patch lookup String-discrete dig scale_up_policy_spec
  downscale_patch-IsDisabled schedule_name policy h h' s s' e =
      let p = downscale_patch policy schedule_name in
      let (m, r) = law.hpas h h' _ s s' e in
      record {
        select_policy =
            r
            ∙ ap (λ x. merged_policy x (c.hpas.current s h).select_policy)
                (dig_spec-build p "behavior" ("scaleUp" ∷ "selectPolicy" ∷ []));
        original = annotation_after p m original_hpa_scale_up_policy_annotation;
        managed_by = annotation_after p m managed_by_annotation;
      }

  restore_patch-IsEnabled :
      (policy : String) (h h' : Hpa) (s s' : c.State)
      → apply_merge_patch c.hpas h (restore_patch policy) s ≡ (ok h', s')
      → IsEnabled policy h'
  unfolding apply_merge_patch lookup String-discrete dig scale_up_policy_spec
  restore_patch-IsEnabled policy h h' s s' e =
      let p = restore_patch policy in
      let (m, r) = law.hpas h h' _ s s' e in
      record {
        select_policy =
            r
            ∙ ap (λ x. merged_policy x (c.hpas.current s h).select_policy)
                (dig_spec-build p "behavior" ("scaleUp" ∷ "selectPolicy" ∷ []))
            ∙ merged_policy-original_policy policy (c.hpas.current s h).select_policy;
        original = annotation_after p m original_hpa_scale_up_policy_annotation;
        managed_by = annotation_after p m managed_by_annotation;
      }

  -- A downscale that the server accepts keeps the HPA of a workload from scaling it up, where no
  -- schedule holds it and it scales up, and records its policy. A restore that the server accepts, of
  -- any later copy `h2` on which the two annotations stand, gives the policy back, an absent one too,
  -- and removes both annotations. Each writes its HPA back into the list that it was found in.
  pub hpa_round_trip :
      (kind name schedule_name : String) (hpas hpas2 : HpaList) (h h2 : Hpa) (s s2 : c.State)
      → (schedule_name == "") ≡ false
      → find_hpa hpas kind name ≡ some h
      → get managed_by_annotation h.meta.annotations ≡ ""
      → (h.select_policy == hpa_scale_up_disabled) ≡ false
      → (patch_hpa_for_downscale c hpas kind name schedule_name s).0 ≡ ok tt
      → find_hpa hpas2 kind name ≡ some h2
      → lookup original_hpa_scale_up_policy_annotation h2.meta.annotations ≡ some h.select_policy
      → lookup managed_by_annotation h2.meta.annotations ≡ some schedule_name
      → (restore_hpa c hpas2 kind name schedule_name s2).0 ≡ ok tt
      → ((down : Hpa) × IsDisabled schedule_name h.select_policy down
          × ((patch_hpa_for_downscale c hpas kind name schedule_name s).1
              ≡ write_hpa hpas kind name down))
        × ((up : Hpa) × IsEnabled h.select_policy up
            × ((restore_hpa c hpas2 kind name schedule_name s2).1 ≡ write_hpa hpas2 kind name up))
  unfolding get
  hpa_round_trip kind name schedule_name hpas hpas2 h h2 s s2 named found free allowed done found2
        orig managed undone =
      let down = down-eq-write_back c kind name schedule_name hpas h s found free named allowed in
      let up =
        up-eq-write_back c kind name schedule_name hpas2 h2 h.select_policy s2 found2 named
          (ap value managed) orig in
      let (h', s', e, at) =
        write_back-ok c kind name schedule_name hpas _ (ap (λ x. x.0) (sym down) ∙ done) in
      let (h3, s3, e3, at3) =
        write_back-ok c kind name schedule_name hpas2 _ (ap (λ x. x.0) (sym up) ∙ undone) in
      (
        (
          h',
          downscale_patch-IsDisabled schedule_name h.select_policy h h' s s' e,
          ap (λ x. x.1) down ∙ at,
        ),
        (h3, restore_patch-IsEnabled h.select_policy h2 h3 s2 s3 e3, ap (λ x. x.1) up ∙ at3),
      )

-- The server keeps workloads apart from HPAs: a patch of an HPA changes no copy of a workload.
abbrev pub KeepsWorkloads : Client → Type 0
KeepsWorkloads c =
    (h : Hpa) (p : Json) (s : c.State) (o : Replicated)
    → c.replicated.current (c.hpas.patch h p s).1 o ≡ c.replicated.current s o

module _ (c : Client) (apart : KeepsWorkloads c) (kind name schedule_name : String) where
  write_back-state :
      (hpas : HpaList) (x : Result Hpa × c.State) → (write_back c hpas kind name x).2 ≡ x.1
  write_back-state hpas (ok h, s) = refl
  write_back-state hpas (err e, s) = refl

  restored_state :
      (hpas : HpaList) (h : Hpa) (policy : String) (s : c.State) (o : Replicated)
      → c.replicated.current
          (write_back c hpas kind name (apply_merge_patch c.hpas h (restore_patch policy) s)).2
          o
        ≡ c.replicated.current s o
  unfolding apply_merge_patch
  restored_state hpas h policy s o =
      rw (write_back-state hpas (c.hpas.patch h (build (restore_patch policy)) s))
        (apart h (build (restore_patch policy)) s o)

  -- Restoring an HPA changes no workload of the server.
  pub restore_hpa-current :
      (hpas : HpaList) (s : c.State) (o : Replicated)
      → c.replicated.current (restore_hpa c hpas kind name schedule_name s).2 o
        ≡ c.replicated.current s o
  unfolding restore_hpa
  restore_hpa-current hpas s o = elim (Option-cases (find_hpa hpas kind name)) [
    | inl nothing ↦ rw (nothing, restore_hpa) refl
    | inr (h, found) ↦
        elim (Option-cases (lookup original_hpa_scale_up_policy_annotation h.meta.annotations)) [
          | inl bare ↦ rw (found, restore_hpa) (rw bare (ground arith))
          | inr (policy, recorded) ↦
              rw (found, restore_hpa)
                (rw recorded (ground (arith, restored_state hpas h policy s o)))
        ]
  ]
