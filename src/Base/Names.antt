-- ===== src/Base/Names.antt =====
-- `sort.Strings`, by insertion, and what it keeps.
use Prim.Native.String
use Prim.Native.String.{String}
use Prim.Native.Nat.{suc, Ordering}
use mathlib.Core.Path.{◌≡◌, refl}
use mathlib.Core.Bool.{◌||◌}
use mathlib.Core.List.{List, [], ◌∷◌}
use native.Mathlib.Omega.{arith}
use lightsout.Base.Tests.{◌==◌}
use lightsout.Base.Lists.{length, contains}

insert_name : String → List String → List String
insert_name s [] = s ∷ []
insert_name s (t ∷ ts) =
    let rest = insert_name s ts in
    elim (String.compare s t) [ Ordering.gt ↦ t ∷ rest | _ ↦ s ∷ t ∷ ts ]

-- `sort.Strings`
unfoldable pub sort_names : List String → List String
unfolding insert_name
sort_names [] = []
sort_names (s ∷ ss) = insert_name s (sort_names ss)

length-insert_name : (s : String) (ts : List String) → length (insert_name s ts) ≡ suc (length ts)
unfolding insert_name
length-insert_name s [] = refl
length-insert_name s (t ∷ ts) = ground (arith, length-insert_name s ts)

pub length-sort_names : (ss : List String) → length (sort_names ss) ≡ length ss
unfolding sort_names
length-sort_names [] = refl
length-sort_names (s ∷ ss) =
    ground (arith, length-insert_name s (sort_names ss), length-sort_names ss)

contains-insert_name :
    (s : String) (ts : List String) (k : String)
    → contains (insert_name s ts) k ≡ (s == k || contains ts k)
unfolding insert_name
contains-insert_name s [] k = refl
contains-insert_name s (t ∷ ts) k = ground (arith, contains-insert_name s ts k)

pub contains-sort_names :
    (ss : List String) (k : String) → contains (sort_names ss) k ≡ contains ss k
unfolding sort_names
contains-sort_names [] k = refl
contains-sort_names (s ∷ ss) k =
    ground (arith, contains-insert_name s (sort_names ss) k, contains-sort_names ss k)
