-- ===== src/JsonPointer/Expand.antt =====
-- `Expand` of internal/jsonpointer/jsonpointer.go: the concrete paths that a pointer with wildcards
-- matches in a value.
use mathlib.Core.List.{append-nil, append_assoc}
use lightsout.Base.{
  ℕ, suc, String, ◌≡◌, refl, Bool, true, false, ◌&&◌, ◌||◌, none, some, List, [], ◌∷◌, ◌++◌, arith,
  contains, all, inl, inr, Bool-cases, Option-cases, Result-cases,
}
use lightsout.Base.{◌==◌, ==_refl, if◌then◌else◌, ok, err}
use lightsout.Base.Int.{pos}
use lightsout.Base.Decimal.{itoa}
use lightsout.Base.Names.{sort_names}
use lightsout.Json.{
  Json, null, bool, int, float, str, arr, obj, Elems, nil, cons, Members, end, member, get_member,
}
use lightsout.JsonPointer.Values.{element}

abbrev pub wildcard_token : String
wildcard_token = "*"

unfoldable pub member_keys : Members → List String
member_keys end = []
member_keys (member k v m) = k ∷ member_keys m

abbrev Walk : Type 0
Walk = Json → List String → List (List String)

-- The loop over the keys of an object, in their order.
unfoldable pub each_key : Walk → Members → List String → List String → List (List String)
each_key walk m [] prefix = []
each_key walk m (k ∷ ks) prefix =
    (elim (get_member k m) [ none ↦ [] | some v ↦ walk v (prefix ++ (k ∷ [])) ])
    ++ each_key walk m ks prefix

-- The loop over the elements of an array, from an index on.
unfoldable pub each_element : Walk → ℕ → Elems → List String → List (List String)
each_element walk i nil prefix = []
each_element walk i (cons v es) prefix =
    walk v (prefix ++ (itoa (pos i) ∷ [])) ++ each_element walk (suc i) es prefix

-- `walkPointer`, which returns what it appends to `out`
unfoldable pub walk_pointer : List String → Json → List String → List (List String)
walk_pointer [] node prefix = prefix ∷ []
walk_pointer (token ∷ rest) (obj m) prefix = elim (token == wildcard_token) [
  | true ↦ each_key (λ v p. walk_pointer rest v p) m (sort_names (member_keys m)) prefix
  | false ↦ elim (get_member token m) [
    | none ↦ if contains rest wildcard_token then [] else (prefix ++ (token ∷ rest)) ∷ []
    | some child ↦ walk_pointer rest child (prefix ++ (token ∷ []))
  ]
]
walk_pointer (token ∷ rest) (arr es) prefix = elim (token == wildcard_token) [
  | true ↦ each_element (λ v p. walk_pointer rest v p) 0 es prefix
  | false ↦ elim (element token es) [
    | err e ↦ []
    | ok r ↦ walk_pointer rest r.1 (prefix ++ (token ∷ []))
  ]
]
walk_pointer (token ∷ rest) node prefix = []

-- `Expand`
unfoldable pub expand : Json → List String → List (List String)
unfolding walk_pointer
expand root tokens = walk_pointer tokens root []

-- Whether a path comes from a pointer by putting tokens for its wildcards.
abbrev pub is_instance : List String → List String → Bool
is_instance [] [] = true
is_instance (t ∷ ts) (p ∷ ps) = (t == wildcard_token || t == p) && is_instance ts ps
is_instance _ _ = false

is_instance_self : (p : List String) → is_instance p p ≡ true
is_instance_self [] = refl
is_instance_self (t ∷ ts) = ground (arith, ==_refl t, is_instance_self ts)

-- A wildcard in the place of a token matches what the token matched.
is_instance-wildcard :
    (before rest : List String) (k : String) (path : List String)
    → is_instance (before ++ (k ∷ rest)) path ≡ true
    → is_instance (before ++ (wildcard_token ∷ rest)) path ≡ true
is_instance-wildcard [] rest k [] h = cc
is_instance-wildcard [] rest k (p ∷ ps) h = ground (arith, ==_refl wildcard_token)
is_instance-wildcard (b ∷ before) rest k [] h = cc
is_instance-wildcard (b ∷ before) rest k (p ∷ ps) h =
    ground (arith, is_instance-wildcard before rest k ps)

all-append :
    (P : List String → Bool) (ps qs : List (List String))
    → all P (ps ++ qs) ≡ (all P ps && all P qs)
all-append P [] qs = refl
all-append P (p ∷ ps) qs = ground (arith, all-append P ps qs)

all-weaken :
    (P Q : List String → Bool) (ps : List (List String))
    → ((p : List String) → P p ≡ true → Q p ≡ true)
    → all P ps ≡ true
    → all Q ps ≡ true
all-weaken P Q [] w h = refl
all-weaken P Q (p ∷ ps) w h = ground (arith, w p, all-weaken P Q ps w)

module _ (P : List String → Bool) (walk : Walk) (prefix : List String)
    (fits : (v : Json) (k : String) → all P (walk v (prefix ++ (k ∷ []))) ≡ true) where
  all-each_key : (m : Members) (ks : List String) → all P (each_key walk m ks prefix) ≡ true
  unfolding each_key
  all-each_key m [] = refl
  all-each_key m (k ∷ ks) = elim (Option-cases (get_member k m)) [
    | inl e ↦ rw (e, each_key) (all-each_key m ks)
    | inr (v, e) ↦
        rw (e, each_key, all-append P (walk v (prefix ++ (k ∷ []))) (each_key walk m ks prefix))
          (ground (arith, fits v k, all-each_key m ks))
  ]

  all-each_element : (i : ℕ) (es : Elems) → all P (each_element walk i es prefix) ≡ true
  unfolding each_element
  all-each_element i nil = refl
  all-each_element i (cons v es) = ground (
    arith,
    all-append P (walk v (prefix ++ (itoa (pos i) ∷ []))) (each_element walk (suc i) es prefix),
    fits v (itoa (pos i)),
    all-each_element (suc i) es,
  )

through_child :
    (prefix rest : List String) (k : String) (ps : List (List String))
    → all (is_instance ((prefix ++ (k ∷ [])) ++ rest)) ps ≡ true
    → all (is_instance (prefix ++ (k ∷ rest))) ps ≡ true
through_child prefix rest k ps h = rw (append_assoc prefix (k ∷ []) rest) at h

through_wildcard :
    (prefix rest : List String) (token k : String) (ps : List (List String))
    → (token == wildcard_token) ≡ true
    → all (is_instance ((prefix ++ (k ∷ [])) ++ rest)) ps ≡ true
    → all (is_instance (prefix ++ (token ∷ rest))) ps ≡ true
through_wildcard prefix rest token k ps wild h =
    let named : token ≡ wildcard_token = ground arith in
    rw named (
      all-weaken (is_instance (prefix ++ (k ∷ rest)))
        (is_instance (prefix ++ (wildcard_token ∷ rest))) ps
        (λ p. is_instance-wildcard prefix rest k p) (through_child prefix rest k ps h))

walk_lem :
    (tokens : List String) (node : Json) (prefix : List String)
    → all (is_instance (prefix ++ tokens)) (walk_pointer tokens node prefix) ≡ true
unfolding walk_pointer
walk_lem [] node prefix =
    let same = is_instance_self prefix in rw (append-nil prefix) (ground (arith, same))
walk_lem (token ∷ rest) null prefix = refl
walk_lem (token ∷ rest) (bool b) prefix = refl
walk_lem (token ∷ rest) (int z) prefix = refl
walk_lem (token ∷ rest) (float m e) prefix = refl
walk_lem (token ∷ rest) (str x) prefix = refl
walk_lem (token ∷ rest) (obj m) prefix = elim (Bool-cases (token == wildcard_token)) [
  | inl wild ↦
      rw (wild, walk_pointer)
        (all-each_key (is_instance (prefix ++ (token ∷ rest))) (λ v p. walk_pointer rest v p) prefix
          (λ v k.
            through_wildcard prefix rest token k _ wild (walk_lem rest v (prefix ++ (k ∷ []))))
          m (sort_names (member_keys m)))
  | inr plain ↦ elim (Option-cases (get_member token m)) [
    | inr (child, e) ↦
        rw (plain, e, walk_pointer)
          (through_child prefix rest token _ (walk_lem rest child (prefix ++ (token ∷ []))))
    | inl e ↦ elim (Bool-cases (contains rest wildcard_token)) [
      | inl more ↦ rw (plain, e, more, walk_pointer) refl
      | inr none_left ↦
          rw (plain, e, none_left, walk_pointer)
            (let same = is_instance_self (prefix ++ (token ∷ rest)) in ground (arith, same))
    ]
  ]
]
walk_lem (token ∷ rest) (arr es) prefix = elim (Bool-cases (token == wildcard_token)) [
  | inl wild ↦
      rw (wild, walk_pointer)
        (all-each_element (is_instance (prefix ++ (token ∷ rest))) (λ v p. walk_pointer rest v p)
          prefix
          (λ v k.
            through_wildcard prefix rest token k _ wild (walk_lem rest v (prefix ++ (k ∷ []))))
          0 es)
  | inr plain ↦ elim (Result-cases (element token es)) [
    | inl (r, e) ↦
        rw (plain, e, walk_pointer)
          (through_child prefix rest token _ (walk_lem rest r.1 (prefix ++ (token ∷ []))))
    | inr (x, e) ↦ rw (plain, e, walk_pointer) refl
  ]
]

-- Each path that an expansion returns comes from the pointer by putting keys or indices for its
-- wildcards.
expand_instances :
    (root : Json) (tokens : List String) → all (is_instance tokens) (expand root tokens) ≡ true
unfolding expand
expand_instances root tokens = walk_lem tokens root []
