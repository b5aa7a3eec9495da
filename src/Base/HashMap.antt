-- ===== src/Base/HashMap.antt =====
-- std's `HashMap` with keys that are numbers, as an association list. The program never reads the
-- order of the entries.
use hirpdag.Base.{
  ℕ, ◌+◌, ◌≤◌, ◌≡◌, refl, inl, inr, Bool, Option, none, some, List, [], ◌∷◌, arith, ◌==◌,
  if◌then◌else◌, Bool-cases, length,
}

module _ {ℓ} {V : Type ℓ} where
  unfoldable pub lookup : ℕ → List (ℕ × V) → Option V
  lookup hash [] = none
  lookup hash ((other, here) ∷ rest) = if other == hash then some here else lookup hash rest

  -- `retain(|_, v| keep(v))`
  unfoldable pub retain : (V → Bool) → List (ℕ × V) → List (ℕ × V)
  retain keep [] = []
  retain keep ((j, w) ∷ m) = let rest = retain keep m in if keep w then (j, w) ∷ rest else rest

  -- `insert`, and `*entry.get_mut() = v`
  unfoldable pub insert : ℕ → V → List (ℕ × V) → List (ℕ × V)
  insert hash new [] = (hash, new) ∷ []
  insert hash new ((other, here) ∷ rest) =
      if other == hash then (hash, new) ∷ rest else (other, here) ∷ insert hash new rest

  -- No key stands twice.
  abbrev pub IsMap : List (ℕ × V) → Type ℓ
  IsMap [] = Unit
  IsMap ((j, w) ∷ m) = (lookup j m ≡ none) × IsMap m

  -- Only the key that is written changes what it maps to.
  pub lookup-insert :
      (hash key : ℕ) (new : V) (m : List (ℕ × V))
      → lookup key (insert hash new m) ≡ (if hash == key then some new else lookup key m)
  unfolding insert lookup
  lookup-insert hash key new [] = refl
  lookup-insert hash key new (first ∷ rest) = ground (arith, lookup-insert hash key new rest)

  pub insert-IsMap : (k : ℕ) (v : V) (m : List (ℕ × V)) → IsMap m → IsMap (insert k v m)
  unfolding lookup insert
  insert-IsMap k v [] u = (refl, tt)
  insert-IsMap k v ((i, w) ∷ m) u = elim (Bool-cases (i == k)) [
    | inl same ↦ rw same (ground arith)
    | inr other ↦ rw other (ground (arith, lookup-insert k i v m), insert-IsMap k v m u.1)
  ]

  lookup-retain-none :
      (keep : V → Bool) (k : ℕ) (m : List (ℕ × V))
      → lookup k m ≡ none
      → lookup k (retain keep m) ≡ none
  unfolding lookup retain
  lookup-retain-none keep k [] h = refl
  lookup-retain-none keep k ((i, w) ∷ m) h = ground (arith, lookup-retain-none keep k m)

  pub retain-IsMap : (keep : V → Bool) (m : List (ℕ × V)) → IsMap m → IsMap (retain keep m)
  unfolding retain
  retain-IsMap keep [] u = tt
  retain-IsMap keep ((i, w) ∷ m) u = elim (Bool-cases (keep w)) [
    | inl stays ↦ rw stays (lookup-retain-none keep i m u.0, retain-IsMap keep m u.1)
    | inr goes ↦ rw goes (retain-IsMap keep m u.1)
  ]

  pub lookup-retain :
      (keep : V → Bool) (k : ℕ) (m : List (ℕ × V))
      → IsMap m
      → lookup k (retain keep m)
        ≡ (elim (lookup k m) [ none ↦ none | some v ↦ if keep v then some v else none ])
  unfolding lookup retain
  lookup-retain keep k [] u = refl
  lookup-retain keep k ((i, w) ∷ m) u =
      ground (arith, lookup-retain keep k m, lookup-retain-none keep k m)

  pub length-insert : (k : ℕ) (v : V) (m : List (ℕ × V)) → length (insert k v m) ≤ length m + 1
  unfolding insert
  length-insert k v [] = omega arith
  length-insert k v ((i, w) ∷ m) = ground (arith, length-insert k v m)

  pub length-retain : (keep : V → Bool) (m : List (ℕ × V)) → length (retain keep m) ≤ length m
  unfolding retain
  length-retain keep [] = omega arith
  length-retain keep ((i, w) ∷ m) = ground (arith, length-retain keep m)
