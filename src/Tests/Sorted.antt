-- ===== src/Tests/Sorted.antt =====
-- The theorems on the sorted vector, at entries with the hashes 1, 1 and 2, and a search from the
-- front.
use mathlib.Core.Path.{subst}
use hirpdag.Base.{
  ℕ, zero, suc, ◌+◌, ◌≤◌, ◌<◌, ◌≡◌, inl, inr, refl, some, List, [], ◌∷◌, length, get_elem?, arith,
  ltb, ◌==◌, if◌then◌else◌, Bool-cases, Returns,
}
use hirpdag.Ref.{Heap, new}
use hirpdag.Table.Interface.{CreationMeta, Interns}
use hirpdag.Table.VecSorted
use hirpdag.Table.VecSorted.{TableVecSortedWeak, IsSorted, Found, at, gap, BinarySearch}
use hirpdag.Table.VecSorted.Interns.{Found-cases, vec_sorted-Interns}
use hirpdag.Table.VecSorted.Search.{Kept}
use hirpdag.Table.WeakEntry.{WeakEntry}
use hirpdag.Tests.Preset.{no_objects, nat_key}

abbrev shift : Found → Found
shift (at i) = at (i + 1)
shift (gap i) = gap (i + 1)

abbrev search : List WeakEntry → ℕ → Found
search [] hash = gap 0
search (e ∷ v) hash =
    let rest = shift (search v hash) in
    if e.hash == hash then at 0 else if ltb hash e.hash then gap 0 else rest

IsSorted-rest : (e : WeakEntry) (v : List WeakEntry) → IsSorted (e ∷ v) → IsSorted v
IsSorted-rest e v sorted i j a b le at_i at_j = sorted (suc i) (suc j) a b (omega arith) at_i at_j

AtEntry : List WeakEntry → ℕ → ℕ → Type 0
AtEntry v hash i = (e : WeakEntry) × (get_elem? v i ≡ some e) × (e.hash ≡ hash) × (i < length v)

GapAt : List WeakEntry → ℕ → ℕ → Type 0
GapAt v hash i =
    (i ≤ length v)
    × ((j : ℕ) (e : WeakEntry) → j < i → get_elem? v j ≡ some e → e.hash < hash)
    × ((j : ℕ) (e : WeakEntry) → i ≤ j → get_elem? v j ≡ some e → hash < e.hash)

search-at_lem :
    (v : List WeakEntry) (hash i : ℕ) → IsSorted v → search v hash ≡ at i → AtEntry v hash i
unfolding AtEntry
search-at_lem [] hash i sorted eq = cc
search-at_lem (e ∷ v) hash i sorted eq = elim (Bool-cases (e.hash == hash)) [
  | inl same ↦
      let here : 0 ≡ i = ground arith in
      subst (AtEntry (e ∷ v) hash) here (e, refl, ground arith, omega arith)
  | inr other ↦ elim (Bool-cases (ltb hash e.hash)) [
    | inl less ↦ absurd (ground arith)
    | inr more ↦ elim (Found-cases (search v hash)) [
      | inr (k, r) ↦ absurd (ground arith)
      | inl (k, r) ↦
          let (a, at_k, same, lt) = search-at_lem v hash k (IsSorted-rest e v sorted) r in
          let there : suc k ≡ i = ground arith in
          subst (AtEntry (e ∷ v) hash) there (a, at_k, same, omega arith)
    ]
  ]
]

before_cons :
    (e : WeakEntry) (v : List WeakEntry) (hash k : ℕ)
    → e.hash < hash
    → ((j : ℕ) (a : WeakEntry) → j < k → get_elem? v j ≡ some a → a.hash < hash)
    → (j : ℕ) (a : WeakEntry) → j < suc k
    → get_elem? (e ∷ v) j ≡ some a
    → a.hash < hash
before_cons e v hash k less before zero a lt at_j = ground arith
before_cons e v hash k less before (suc j) a lt at_j = before j a (omega arith) at_j

after_cons :
    (e : WeakEntry) (v : List WeakEntry) (hash k : ℕ)
    → ((j : ℕ) (a : WeakEntry) → k ≤ j → get_elem? v j ≡ some a → hash < a.hash)
    → (j : ℕ) (a : WeakEntry) → suc k ≤ j
    → get_elem? (e ∷ v) j ≡ some a
    → hash < a.hash
after_cons e v hash k after zero a le at_j = absurd (omega arith)
after_cons e v hash k after (suc j) a le at_j = after j a (omega arith) at_j

search-gap_lem :
    (v : List WeakEntry) (hash i : ℕ) → IsSorted v → search v hash ≡ gap i → GapAt v hash i
unfolding GapAt
search-gap_lem [] hash i sorted eq =
    let here : 0 ≡ i = ground arith in
    subst (GapAt [] hash) here (omega arith, λ j e lt _. absurd (omega arith), λ j e le x. cc)
search-gap_lem (e ∷ v) hash i sorted eq = elim (Bool-cases (e.hash == hash)) [
  | inl same ↦ absurd (ground arith)
  | inr other ↦ elim (Bool-cases (ltb hash e.hash)) [
    | inl less ↦
        let here : 0 ≡ i = ground arith in
        subst (GapAt (e ∷ v) hash) here (
          omega arith,
          λ j a lt _. absurd (omega arith),
          λ j a le at_j. ground (arith, sorted 0 j e a le refl at_j),
        )
    | inr more ↦ elim (Found-cases (search v hash)) [
      | inl (k, r) ↦ absurd (ground arith)
      | inr (k, r) ↦
          let (le, before, after) = search-gap_lem v hash k (IsSorted-rest e v sorted) r in
          let there : suc k ≡ i = ground arith in
          let less : e.hash < hash = ground arith in
          subst (GapAt (e ∷ v) hash) there
            (omega arith, before_cons e v hash k less before, after_cons e v hash k after)
    ]
  ]
]

from_front : BinarySearch
unfolding AtEntry GapAt
from_front = record { search = search; search_at = search-at_lem; search_gap = search-gap_lem }

abbrev counted : CreationMeta ℕ ℕ
counted d g = (d, g + 1)

abbrev three : Heap ℕ
three = (new 6 (new 9 (new 5 no_objects).1).1).1

abbrev three_entries : TableVecSortedWeak
three_entries = record {
  v =
      record { hash = 1; weak = 0 }
      ∷ record { hash = 1; weak = 1 }
      ∷ record { hash = 2; weak = 2 }
      ∷ [];
}

hash_at :
    (i : ℕ) (a : WeakEntry)
    → get_elem? three_entries.v i ≡ some a
    → a.hash ≡ (if ltb i 2 then 1 else 2)
hash_at zero a e = ground arith
hash_at (suc zero) a e = ground arith
hash_at (suc (suc zero)) a e = ground arith
hash_at (suc (suc (suc i))) a e = cc

three_entries-IsSorted : IsSorted three_entries.v
three_entries-IsSorted i j a b le at_i at_j = ground (arith, hash_at i a at_i, hash_at j b at_j)

vec_sorted-Interns_example :
    Returns
      (VecSorted.get_or_insert from_front three_entries 1 13 counted three 7)
      (Interns (λ s. Kept s.v) (λ s. IsSorted s.v) three_entries three 7 1 13 counted)
vec_sorted-Interns_example =
    vec_sorted-Interns from_front three_entries 1 13 counted three 7 three_entries-IsSorted
