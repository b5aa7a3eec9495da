-- ===== src/Tests/Strong.antt =====
-- The theorems on the tables of strong handles, over a map that is an association list: a thread
-- that has read the empty map finds 5 in it when it comes to insert 5.
use hirpdag.Base.{ℕ, ◌+◌, ◌≡◌, refl, true, Option, none, some, List, [], ◌∷◌, arith, ◌==◌, Returns}
use hirpdag.Base.HashMap
use hirpdag.Key.{BuildHasher}
use hirpdag.Ref.{Heap, new}
use hirpdag.Table.Interface.{CreationMeta}
use hirpdag.Table.Strong.{Extends, Retained}
use hirpdag.Table.Strong.ArcSwap
use hirpdag.Table.Strong.ArcSwap.{StdMap, TableSharedArcSwap, arc_swap-Retained}
use hirpdag.Table.Strong.Flurry as flurry_table
use hirpdag.Table.Strong.Flurry.{Flurry, TableSharedFlurry, flurry-Retained}
use hirpdag.Tests.Preset.{nat_key, no_objects}

abbrev Assoc : Type 0
Assoc = List (ℕ × ℕ)

abbrev hashers : BuildHasher ℕ
hashers = record { default = 0; clone = λ n. n }

abbrev counted : CreationMeta ℕ ℕ
counted d g = (d, g + 1)

abbrev five : Heap ℕ
five = (new 5 no_objects).1

get-empty : (d : ℕ) → HashMap.lookup {V = ℕ} d [] ≡ none
unfolding HashMap.lookup
get-empty d = refl

get-insert :
    (m : Assoc) (d p : ℕ)
    → Extends (λ e. HashMap.lookup e m) d p (λ e. HashMap.lookup e (HashMap.insert d p m))
get-insert m d p e = HashMap.lookup-insert d e p m

get-equal_lem : (m : Assoc) (d e : ℕ) → d == e ≡ true → HashMap.lookup d m ≡ HashMap.lookup e m
get-equal_lem m d e same = let eq : d ≡ e = ground arith in rw eq refl

std_map : StdMap ℕ Assoc ℕ nat_key
unfolding HashMap.lookup
std_map = record {
  with_hasher = λ b. [];
  get = λ m d. HashMap.lookup d m;
  insert = λ m d p. HashMap.insert d p m;
  get-with_hasher = λ b d. refl;
  get-insert = get-insert;
}

abbrev try_insert : Assoc → ℕ → ℕ → Assoc × Option ℕ
try_insert m d p = elim (HashMap.lookup d m) [
  | none ↦ (HashMap.insert d p m, none)
  | some q ↦ (m, some q)
]

try_insert_free_lem :
    (m : Assoc) (d p : ℕ)
    → HashMap.lookup d m ≡ none
    → ((try_insert m d p).1 ≡ none)
      × Extends (λ e. HashMap.lookup e m) d p (λ e. HashMap.lookup e (try_insert m d p).0)
try_insert_free_lem m d p free = rw (try_insert, free) (refl, get-insert m d p)

flurry : Flurry ℕ Assoc ℕ nat_key
unfolding HashMap.lookup
flurry = record {
  with_hasher = λ b. [];
  get = λ m d. HashMap.lookup d m;
  try_insert = try_insert;
  clear = λ m. [];
  get-with_hasher = λ b d. refl;
  get-clear = λ m d. refl;
  try_insert_taken = λ m d p q taken. rw (try_insert, taken) refl;
  try_insert_free = try_insert_free_lem;
  get-equal = get-equal_lem;
}

flurry-Retained_example :
    Returns
      (flurry_table.get_or_insert hashers flurry
        (record { map = [] })
        (record { map = (5, 0) ∷ [] })
        5
        counted
        five
        3)
      (Retained
        (flurry_table.lookup hashers flurry (record { map = [] }) 5 ≡ none)
        (flurry_table.lookup hashers flurry)
        (record { map = (5, 0) ∷ [] })
        5
        counted
        five
        3)
unfolding flurry HashMap.lookup
flurry-Retained_example =
    flurry-Retained hashers flurry (record { map = [] }) (record { map = (5, 0) ∷ [] }) 5 counted
      five 3 (λ p e. cc) refl

arc_swap-Retained_example :
    Returns
      (ArcSwap.get_or_insert hashers std_map
        (record { map = [] })
        (record { map = (5, 0) ∷ [] })
        5
        counted
        five
        3)
      (Retained ⊥ (ArcSwap.lookup hashers std_map) (record { map = (5, 0) ∷ [] }) 5 counted five 3)
unfolding std_map HashMap.lookup
arc_swap-Retained_example =
    arc_swap-Retained hashers std_map (record { map = [] }) (record { map = (5, 0) ∷ [] }) 5 counted
      five 3 (λ p e. cc) refl
