-- ===== src/Namespaces/Laws.antt =====
-- Which namespaces are discovered, and which of them the filter keeps.
use lightsout.Base.{
  ℕ, String, ◌≡◌, refl, ◌∙◌, Bool, true, false, not, ◌&&◌, ◌||◌, none, some, List, [], ◌∷◌, arith,
  inl, inr, contains, Result, ok, err, Result-cases, eqb,
}
use lightsout.Base.Dict.{Dict, lookup, insert, erase, lookup-insert, lookup-erase}
use lightsout.Kube.Cluster.{LabelSelector}
use lightsout.Base.Names.{sort_names, contains-sort_names}
use lightsout.Namespaces.{
  NamespaceChoice, system_namespaces, add_all, remove_all, keys, selected, discover_namespaces,
  filter_namespaces_with_local_schedules,
}

abbrev pub has : Dict Bool → String → Bool
has d k = elim (lookup k d) [ none ↦ false | some b ↦ true ]

has-add_all :
    (ns : List String) (d : Dict Bool) (k : String)
    → has (add_all ns d) k ≡ (contains ns k || has d k)
unfolding add_all
has-add_all [] d k = refl
has-add_all (n ∷ ns) d k =
    ground (arith, has-add_all ns (insert n true d) k, lookup-insert n k true d)

has-remove_all :
    (ns : List String) (d : Dict Bool) (k : String)
    → has (remove_all ns d) k ≡ (has d k && not (contains ns k))
unfolding remove_all
has-remove_all [] d k = ground arith
has-remove_all (n ∷ ns) d k = ground (arith, has-remove_all ns (erase n d) k, lookup-erase n k d)

pub contains-keys : (d : Dict Bool) (k : String) → contains (keys d) k ≡ has d k
unfolding keys lookup
contains-keys [] k = refl
contains-keys ((j, b) ∷ d) k = ground (arith, contains-keys d k)

pub has_nil : (k : String) → has [] k ≡ false
unfolding lookup
has_nil k = refl

module _ {S : Type 0} (select : LabelSelector → S → Result (List String)) where
  -- Where the selector's list succeeds the discovery does, and a namespace is discovered exactly if
  -- the selector lists it or the schedule names it, and it is neither excluded nor a namespace of
  -- the system.
  pub discovered_namespaces :
      (spec : NamespaceChoice) (s : S) (names : List String) (ns : String)
      → selected select spec s ≡ ok names
      → (result : List String) × (discover_namespaces select spec s ≡ ok result)
        × (contains result ns ≡ (
            (contains spec.namespaces ns || contains names ns)
            && not (contains spec.exclude_namespaces ns)
            && not (contains system_namespaces ns)))
  unfolding discover_namespaces
  discovered_namespaces spec s names ns found =
      let wanted = add_all spec.namespaces (add_all names []) in
      let rest = remove_all spec.exclude_namespaces wanted in
      let left = remove_all system_namespaces rest in
      (
        sort_names (keys left),
        rw (found, discover_namespaces) refl,
        contains-sort_names (keys left) ns
            ∙ contains-keys left ns
            ∙ ground (
              arith,
              has-remove_all system_namespaces rest ns,
              has-remove_all spec.exclude_namespaces wanted ns,
              has-add_all spec.namespaces (add_all names []) ns,
              has-add_all names [] ns,
              has_nil ns,
            ),
      )

module _ {S : Type 0} (local_schedules : String → S → Result ℕ) where
  -- The filter keeps exactly the namespaces of its list that hold no schedule of their own.
  pub kept_namespaces :
      (namespaces : List String) (s : S) (result : List String) (ns : String)
      → filter_namespaces_with_local_schedules local_schedules namespaces s ≡ ok result
      → contains result ns ≡ (
          contains namespaces ns
          && (elim (local_schedules ns s) [ err e ↦ false | ok n ↦ eqb n 0 ]))
  unfolding filter_namespaces_with_local_schedules
  kept_namespaces [] s result ns h = ground arith
  kept_namespaces (n ∷ more) s result ns h =
      elim (Result-cases (filter_namespaces_with_local_schedules local_schedules more s)) [
        | inl (kept, e) ↦ ground (arith, kept_namespaces more s kept ns e)
        | inr (x, e) ↦ ground arith
      ]
