-- ===== src/Webhook/Overlap/Laws.antt =====
-- What the warnings of the webhooks are worth: which clashes of the controller's discovery they
-- foresee.
use lightsout.Base.{
  String, ◌≡◌, refl, ◌∙◌, sym, Bool, true, false, not, ◌&&◌, ◌||◌, Option, none, some, List, [],
  ◌∷◌, ◌++◌, arith, contains, any, inl, inr, Bool-cases, Option-cases, Result, ok,
}
use lightsout.Kube.Cluster.{LabelSelector}
use lightsout.Api.{Schedule, NamespaceSchedule}
use lightsout.Namespaces.{NamespaceChoice, selected, discover_namespaces}
use lightsout.Namespaces.Laws.{discovered_namespaces}
use lightsout.Webhook.Fields.{is_empty}
use lightsout.Webhook.Fields.Laws.{append-eq-nil}
use lightsout.Webhook.Overlap.{
  is_some, selectors_overlap, is_catch_all, schedules_overlap, claims_of,
  check_global_schedule_overlap,
}

any_nil : (ys : List String) → any (contains []) ys ≡ false
any_nil [] = refl
any_nil (y ∷ ys) = any_nil ys

any_cons :
    (x : String) (xs ys : List String)
    → any (contains (x ∷ xs)) ys ≡ (contains ys x || any (contains xs) ys)
any_cons x xs [] = refl
any_cons x xs (y ∷ ys) = ground (arith, any_cons x xs ys)

common_sym : (xs ys : List String) → any (contains xs) ys ≡ any (contains ys) xs
common_sym [] ys = any_nil ys
common_sym (x ∷ xs) ys = ground (arith, any_cons x xs ys, common_sym xs ys)

-- What two lists share is common.
common_lem :
    (xs ys : List String) (k : String)
    → contains xs k ≡ true
    → contains ys k ≡ true
    → any (contains xs) ys ≡ true
common_lem xs [] k h m = cc
common_lem xs (y ∷ ys) k h m = ground (arith, common_lem xs ys k)

is_empty-contains : (xs : List String) (k : String) → contains xs k ≡ true → is_empty xs ≡ false
is_empty-contains [] k h = cc
is_empty-contains (x ∷ xs) k h = refl

selectors_lem : (a b : Option LabelSelector) → selectors_overlap a b ≡ (is_some a && is_some b)
selectors_lem none none = refl
selectors_lem none (some b) = refl
selectors_lem (some a) none = refl
selectors_lem (some a) (some b) = ground arith

-- The overlap, by what it depends on.
overlap_lem :
    (a b : Schedule)
    → schedules_overlap a b ≡ (
        any (contains a.choice.namespaces) b.choice.namespaces
        || (is_some a.choice.namespace_selector && is_some b.choice.namespace_selector)
        || (is_catch_all a.choice.namespace_selector && not (is_empty b.choice.namespaces))
        || (is_catch_all b.choice.namespace_selector && not (is_empty a.choice.namespaces)))
unfolding schedules_overlap
overlap_lem a b =
    rw (selectors_lem a.choice.namespace_selector b.choice.namespace_selector) (ground arith)

-- Whether two schedules overlap does not depend on which of them is new.
pub overlap_symmetric : (a b : Schedule) → schedules_overlap a b ≡ schedules_overlap b a
overlap_symmetric a b =
    ground
      (arith, overlap_lem a b, overlap_lem b a, common_sym a.choice.namespaces b.choice.namespaces)

-- One schedule selects by a selector that is not empty, and the other by names alone.
abbrev pub is_one_selective : Schedule → Schedule → Bool
is_one_selective a b =
    is_some a.choice.namespace_selector
    && not (is_catch_all a.choice.namespace_selector)
    && not (is_some b.choice.namespace_selector)

ok-injective : {A : Type 0} {x y : A} → ◌≡◌ {A = Result A} (ok x) (ok y) → x ≡ y
ok-injective h = cc

module _ {S : Type 0} (select : LabelSelector → S → Result (List String)) (s : S) where
  -- What a schedule without selector discovers it names.
  chosen_lem :
      (choice : NamespaceChoice) (result : List String) (ns : String)
      → discover_namespaces select choice s ≡ ok result
      → contains result ns ≡ true
      → (contains choice.namespaces ns || is_some choice.namespace_selector) ≡ true
  chosen_lem choice result ns h m = elim (Option-cases choice.namespace_selector) [
    | inr (l, e) ↦ rw e (ground arith)
    | inl e ↦
        let found : selected select choice s ≡ ok [] = unfold selected in rw e refl in
        let (result', same, q) = discovered_namespaces select choice s [] ns found in
        let equal = ok-injective (sym same ∙ h) in ground (arith, rw equal at q)
  ]

  -- Where two schedules discover the same namespace and no overlap is reported, one of them selects
  -- by a selector that is not empty, and the other by names alone. All other clashes are reported.
  pub overlap_missed :
      (a b : Schedule) (ra rb : List String) (ns : String)
      → discover_namespaces select a.choice s ≡ ok ra
      → discover_namespaces select b.choice s ≡ ok rb
      → contains ra ns ≡ true
      → contains rb ns ≡ true
      → schedules_overlap a b ≡ false
      → (is_one_selective a b || is_one_selective b a) ≡ true
  overlap_missed a b ra rb ns da db ma mb h = ground (
    arith,
    overlap_lem a b,
    chosen_lem a.choice ra ns da ma,
    chosen_lem b.choice rb ns db mb,
    common_lem a.choice.namespaces b.choice.namespaces ns,
    is_empty-contains a.choice.namespaces ns,
    is_empty-contains b.choice.namespaces ns,
  )

  unclaimed :
      (before after : List Schedule) (g : Schedule) (ns : String)
      → claims_of (before ++ (g ∷ after)) ns ≡ []
      → (contains g.choice.namespaces ns || is_some g.choice.namespace_selector) ≡ false
  unclaimed [] after g ns h = ground arith
  unclaimed (x ∷ before) after g ns h = unclaimed before after g ns (append-eq-nil _ _ h).1

  -- A namespace schedule that is admitted without a warning lies in a namespace that no listed
  -- global schedule discovers.
  pub unwarned_not_discovered :
      (before after : List Schedule) (g : Schedule) (schedule : NamespaceSchedule)
      (result : List String)
      → check_global_schedule_overlap (ok (before ++ (g ∷ after))) schedule ≡ []
      → discover_namespaces select g.choice s ≡ ok result
      → contains result schedule.namespace ≡ false
  unfolding check_global_schedule_overlap
  unwarned_not_discovered before after g schedule result h d =
      elim (Bool-cases (contains result schedule.namespace)) [
        | inr out ↦ out
        | inl member ↦
            let chosen = chosen_lem g.choice result schedule.namespace d member in
            let free = unclaimed before after g schedule.namespace h in cc
      ]
