-- ===== src/Derive/Builder.antt =====
-- The builder that hirpdag_derive/src/lib.rs generates for a struct: its fields by their position, each
-- set or not. `make` is the handle's `new`, which the user's normalizer may replace.
use mathlib.Core.Path.{subst}
use hirpdag.Base.{
  ℕ, zero, suc, ◌<◌, ◌≡◌, ◌↔◌, refl, sym, ap, ◌∙◌, List, [], ◌∷◌, map, length, get_elem?, set,
  length-set, replicate, Option, none, some, ◌==◌, if◌then◌else◌, Option-cases, inl, inr, arith,
}

abbrev pub Builder : Type 0 → Type 0
Builder V = List (Option V)

-- `Builder::new`, of a struct with `n` fields
abbrev pub new : {V : Type 0} → ℕ → Builder V
new n = replicate n none

module _ {V : Type 0} where
  -- the setter of the field at `i`
  unfoldable pub setter : ℕ → V → Builder V → Builder V
  setter i value builder = set builder i (some value)

  -- `From<&Ref>`, of the fields of a node
  unfoldable pub from : List V → Builder V
  from fields = map some fields

  -- `self.a.expect("Builder field 'a' not set")` for each field; `none` is the panic
  unfoldable pub build_args : Builder V → Option (List V)
  build_args [] = some []
  build_args (none ∷ builder) = none
  build_args (some v ∷ builder) = elim (build_args builder) [
    | none ↦ none
    | some vs ↦ some (v ∷ vs)
  ]

  unfoldable pub build : {R : Type 0} → (List V → Option R) → Builder V → Option R
  unfolding build_args
  build make builder = elim (build_args builder) [ none ↦ none | some vs ↦ make vs ]

  -- setters that are called one after another
  unfoldable pub set_all : List (ℕ × V) → Builder V → Builder V
  set_all [] builder = builder
  set_all ((i, v) ∷ settings) builder = set_all settings (setter i v builder)

  abbrev pub slot : Builder V → ℕ → Option V
  slot builder i = elim (get_elem? builder i) [ none ↦ none | some o ↦ o ]

  -- what the field at `i` is set to at the end
  unfoldable pub last_set : ℕ → List (ℕ × V) → Option V → Option V
  last_set i [] before = before
  last_set i ((j, v) ∷ settings) before = last_set i settings (if j == i then some v else before)

  slot-set :
      (b : Builder V) (i j : ℕ) (o : Option V)
      → j < length b
      → slot (set b i o) j ≡ (if i == j then o else slot b j)
  slot-set [] i j o h = absurd (omega arith)
  slot-set (x ∷ b) zero zero o h = refl
  slot-set (x ∷ b) zero (suc j) o h = ground arith
  slot-set (x ∷ b) (suc i) zero o h = ground arith
  slot-set (x ∷ b) (suc i) (suc j) o h = ground (arith, slot-set b i j o)

  length-set_all : (s : List (ℕ × V)) (b : Builder V) → length (set_all s b) ≡ length b
  unfolding set_all setter
  length-set_all [] b = refl
  length-set_all ((i, v) ∷ s) b = length-set_all s (set b i (some v)) ∙ length-set b i (some v)

  slot-set_all :
      (s : List (ℕ × V)) (b : Builder V) (j : ℕ)
      → j < length b
      → slot (set_all s b) j ≡ last_set j s (slot b j)
  unfolding set_all setter last_set
  slot-set_all [] b j h = refl
  slot-set_all ((i, v) ∷ s) b j h =
      slot-set_all s (set b i (some v)) j (omega (arith, length-set b i (some v)))
      ∙ ap (last_set j s) (slot-set b i j (some v) h)

  Filled : Builder V → List V → Type 0
  Filled b vs = (length vs ≡ length b) × ((j : ℕ) → j < length b → slot b j ≡ get_elem? vs j)

  cons-Filled : (v : V) (b : Builder V) (us : List V) → Filled b us → Filled (some v ∷ b) (v ∷ us)
  unfolding Filled
  cons-Filled v b us f = (
    omega (arith, f.0),
    λ j h.
        elim j as (λ j. j < suc (length b) → slot (some v ∷ b) j ≡ get_elem? (v ∷ us) j) [
          | zero ↦ λ h. refl
          | suc i ↦ λ h. f.1 i (omega arith)
        ]
          h,
  )

  build_args-Filled : (b : Builder V) (vs : List V) → build_args b ≡ some vs → Filled b vs
  unfolding build_args Filled
  build_args-Filled [] vs e = let f : vs ≡ [] = cc in (ap length f, λ j h. absurd (omega arith))
  build_args-Filled (none ∷ b) vs e = cc
  build_args-Filled (some v ∷ b) vs e = elim (Option-cases (build_args b)) [
    | inl n ↦ let f = rw n at e in cc
    | inr (us, n) ↦
        let f = rw n at e in
        let same : v ∷ us ≡ vs = cc in
        subst (Filled (some v ∷ b)) same (cons-Filled v b us (build_args-Filled b us n))
  ]

  Filled-build_args : (b : Builder V) (vs : List V) → Filled b vs → build_args b ≡ some vs
  unfolding build_args Filled
  Filled-build_args [] [] f = refl
  Filled-build_args [] (v ∷ vs) f = absurd (omega (arith, f.0))
  Filled-build_args (o ∷ b) [] f = absurd (omega (arith, f.0))
  Filled-build_args (none ∷ b) (v ∷ vs) f = let e = f.1 0 (omega arith) in cc
  Filled-build_args (some w ∷ b) (v ∷ vs) f =
      let e = f.1 0 (omega arith) in
      let rest = Filled-build_args b vs (omega (arith, f.0), λ j h. f.1 (suc j) (omega arith)) in
      let same : w ≡ v = cc in rw rest (λ i. some (same i ∷ vs))

  -- Whatever setters are called, in whatever order and however often, on a new builder or on that of
  -- a node: `build` passes `vs` on to `new` exactly if each field was set at last, or else
  -- stood in the builder before, as `vs` has it; a field that is never set is a panic.
  pub build_args_iff :
      (settings : List (ℕ × V)) (builder : Builder V) (vs : List V)
      → (build_args (set_all settings builder) ≡ some vs) ↔ (
          (length vs ≡ length builder)
          × ((j : ℕ) → j < length builder → last_set j settings (slot builder j) ≡ get_elem? vs j))
  unfolding Filled
  build_args_iff settings builder vs = (
    (λ e.
        let (n, f) = build_args-Filled (set_all settings builder) vs e in
        let m = length-set_all settings builder in
        (n ∙ m, λ j h. sym (slot-set_all settings builder j h) ∙ f j (omega (arith, m)))),
    (λ (n, f).
        let m = length-set_all settings builder in
        Filled-build_args (set_all settings builder) vs (
          n ∙ sym m,
          λ j h. slot-set_all settings builder j (omega (arith, m)) ∙ f j (omega (arith, m)),
        )),
  )
