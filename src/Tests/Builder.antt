-- ===== src/Tests/Builder.antt =====
-- The theorem on builders, for a struct with two fields: the second is set twice.
use hirpdag.Base.{ℕ, ◌<◌, ◌≡◌, ◌↔◌, refl, none, some, List, [], ◌∷◌, length, get_elem?}
use hirpdag.Derive.Builder.{
  new, from, setter, set_all, slot, last_set, build_args, build, build_args_iff,
}

abbrev settings : List (ℕ × ℕ)
settings = (1, 5) ∷ (0, 3) ∷ (1, 6) ∷ []

abbrev values : List ℕ
values = 3 ∷ 6 ∷ []

build_args_iff_example : (build_args (set_all settings (new 2)) ≡ some values) ↔ (
    (length values ≡ length (new {V = ℕ} 2))
    × ((j : ℕ)
        → j < length (new {V = ℕ} 2)
        → last_set j settings (slot (new 2) j) ≡ get_elem? values j))
build_args_iff_example = build_args_iff settings (new 2) values

built : build (λ vs. some (length vs)) (set_all settings (new 2)) ≡ some 2
unfolding build set_all setter
built = refl

-- A field that is never set is a panic; a builder of a node has every field.
unset : build_args (setter 0 4 (new {V = ℕ} 2)) ≡ none
unfolding build_args setter
unset = refl

kept : build_args {V = ℕ} (setter 0 4 (from (1 ∷ 2 ∷ []))) ≡ some (4 ∷ 2 ∷ [])
unfolding build_args setter from
kept = refl
