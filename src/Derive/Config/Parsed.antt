-- ===== src/Derive/Config/Parsed.antt =====
-- Configurations from parsed arguments: `HirpdagConfig::from` on what `HirpdagArgs::parse` returns.
use Prim.Native.String.{String}
use text.Mathlib.Text.{◌==◌}
use text.Mathlib.TextEquality.{eq_iff}
use mathlib.Core.Path.{subst}
use hirpdag.Base.{
  ◌≡◌, refl, sym, ◌⊎◌, inl, inr, Bool, true, false, Option, none, some, List, [], ◌∷◌, map, arith,
  Bool-cases, Option-cases, Returns, if◌then◌else◌,
}
use hirpdag.Derive.Config.{
  HirpdagArg, normalizer_arg, root_arg, reference_type_arg, reference_weak_type_arg, table_type_arg,
  tableshared_type_arg, build_tableshared_type_arg, preset_arg, presets, ConfigTypes, set_in,
  set_alias, preset_arms, match_name, preset_types, Parse, ok, err, ArgError, Handler, no_handler,
  flag, string, build_preset, handler_arms, arg_handler, run_handler, parse, HirpdagConfig, default,
  apply_arg, apply_args, from, ArgTokens, parse_args, Lit, str, other_lit,
}

abbrev pub contains : String → List String → Bool
contains name [] = false
contains name (n ∷ ns) = let rest = contains name ns in if n == name then true else rest

abbrev pub is_some : {A : Type 0} → Option A → Bool
is_some none = false
is_some (some a) = true

match_name-contains :
    {A : Type 0} (name : String) (arms : List (String × A))
    → is_some (match_name name arms) ≡ contains name (map (λ a. a.0) arms)
unfolding match_name
match_name-contains name [] = refl
match_name-contains name ((n, a) ∷ arms) = elim (Bool-cases (n == name)) [
  | inl same ↦ rw same refl
  | inr other ↦ rw other (match_name-contains name arms)
]

-- The names that `preset_types` knows are those that the error message for an unknown preset lists.
pub preset_types-presets : (name : String) → is_some (preset_types name) ≡ contains name presets
unfolding preset_types
preset_types-presets name = match_name-contains name preset_arms

module _ {A : Type 0} (P : A → Type 0) where
  abbrev AllArms : List (String × A) → Type 0
  AllArms [] = Unit
  AllArms ((n, a) ∷ arms) = P a × AllArms arms

  match_name-AllArms :
      (name : String) (arms : List (String × A)) (a : A)
      → AllArms arms
      → match_name name arms ≡ some a
      → P a
  unfolding match_name
  match_name-AllArms name [] a all e = cc
  match_name-AllArms name ((n, b) ∷ arms) a all e = elim (Bool-cases (n == name)) [
    | inl same ↦ let eq : b ≡ a = ground arith in subst P eq all.0
    | inr other ↦ match_name-AllArms name arms a all.1 (ground arith)
  ]

-- An argument that parsing can return: a preset is one that `preset_types` knows.
abbrev pub IsKnown : HirpdagArg → Type 0
IsKnown (preset_arg name) = (t : ConfigTypes) × (preset_types name ≡ some t)
IsKnown _ = Unit

abbrev KnownHandler : Handler → Type 0
KnownHandler no_handler = Unit
KnownHandler (flag a) = IsKnown a
KnownHandler (string f) = (s : String) (a : HirpdagArg) → f s ≡ ok a → IsKnown a

ok-IsKnown : (b a : HirpdagArg) → IsKnown b → ok b ≡ ok a → IsKnown a
ok-IsKnown b a k e = let eq : b ≡ a = cc in subst IsKnown eq k

build_preset-IsKnown : KnownHandler (string build_preset)
unfolding build_preset
build_preset-IsKnown s a e = elim (Option-cases (preset_types s)) [
  | inl unknown ↦ absurd (ground arith)
  | inr (t, known) ↦ ok-IsKnown (preset_arg s) a (t, known) (ground arith)
]

arg_handler-KnownHandler : (name : String) → KnownHandler (arg_handler name)
unfolding arg_handler
arg_handler-KnownHandler name = elim (Option-cases (match_name name handler_arms)) [
  | inl e ↦
      let eq : arg_handler name ≡ no_handler = rw (arg_handler, e) refl in
      subst KnownHandler (sym eq) tt
  | inr (f, e) ↦
      let eq : arg_handler name ≡ f = rw (arg_handler, e) refl in
      subst KnownHandler (sym eq) (
        match_name-AllArms KnownHandler name handler_arms f
          (
            tt,
            (
              tt,
              (
                λ s a. ok-IsKnown (reference_type_arg s) a tt,
                (
                  λ s a. ok-IsKnown (reference_weak_type_arg s) a tt,
                  (
                    λ s a. ok-IsKnown (table_type_arg s) a tt,
                    (
                      λ s a. ok-IsKnown (tableshared_type_arg s) a tt,
                      (
                        λ s a. ok-IsKnown (build_tableshared_type_arg s) a tt,
                        (build_preset-IsKnown, tt),
                      ),
                    ),
                  ),
                ),
              ),
            ),
          )
          e)
]

run_handler-IsKnown :
    (f : Handler) (name : String) (opeq : Bool) (value_lit : Option Lit) (a : HirpdagArg)
    → KnownHandler f
    → run_handler f name opeq value_lit ≡ ok a
    → IsKnown a
unfolding run_handler
run_handler-IsKnown no_handler name opeq value_lit a k e = cc
run_handler-IsKnown (flag b) name opeq value_lit a k e = let eq : b ≡ a = cc in subst IsKnown eq k
run_handler-IsKnown (string f) name false value_lit a k e = cc
run_handler-IsKnown (string f) name true (some (str s)) a k e = k s a e
run_handler-IsKnown (string f) name true (some other_lit) a k e = cc
run_handler-IsKnown (string f) name true none a k e = cc

-- The helper aliases of a configuration: at most the one named `ImplTable`.
abbrev pub IsImplTable : List (String × String) → Type 0
IsImplTable [] = Unit
IsImplTable ((n, r) ∷ rest) = (n ≡ "ImplTable") × (rest ≡ [])

abbrev pub HasAliases : ConfigTypes → Type 0
HasAliases t = IsImplTable t.aliases

set_in-IsImplTable :
    (rhs : String) (aliases : List (String × String))
    → IsImplTable aliases
    → IsImplTable (set_in "ImplTable" rhs aliases)
unfolding set_in
set_in-IsImplTable rhs [] a = (refl, refl)
set_in-IsImplTable rhs ((n, r) ∷ rest) a =
    let same : n == "ImplTable" ≡ true = (eq_iff n "ImplTable").1 a.0 in rw same a

preset_types-HasAliases :
    (name : String) (t : ConfigTypes) → preset_types name ≡ some t → HasAliases t
unfolding preset_types
preset_types-HasAliases name t e =
    match_name-AllArms HasAliases name preset_arms t
      (
        (refl, refl),
        (
          (refl, refl),
          (
            (refl, refl),
            (
              (refl, refl),
              (
                (refl, refl),
                ((refl, refl), ((refl, refl), ((refl, refl), (tt, (tt, (tt, (tt, tt))))))),
              ),
            ),
          ),
        ),
      )
      e

apply_arg-HasAliases :
    (a : HirpdagArg) (c : HirpdagConfig)
    → IsKnown a
    → HasAliases c.types
    → Returns (apply_arg a c) λ r. HasAliases r.types
unfolding apply_arg set_alias
apply_arg-HasAliases normalizer_arg c k h = (_, refl, h)
apply_arg-HasAliases root_arg c k h = (_, refl, h)
apply_arg-HasAliases (reference_type_arg s) c k h = (_, refl, h)
apply_arg-HasAliases (reference_weak_type_arg s) c k h = (_, refl, h)
apply_arg-HasAliases (table_type_arg s) c k h = (_, refl, set_in-IsImplTable s c.types.aliases h)
apply_arg-HasAliases (tableshared_type_arg s) c k h = (_, refl, h)
apply_arg-HasAliases (build_tableshared_type_arg s) c k h = (_, refl, h)
apply_arg-HasAliases (preset_arg s) c (t, known) h =
    (record c { types = t }, rw (apply_arg, known) refl, preset_types-HasAliases s t known)

AllKnown : List HirpdagArg → Type 0
AllKnown [] = Unit
AllKnown (a ∷ args) = IsKnown a × AllKnown args

Parse-cases : {A : Type 0} (r : Parse A) → ((e : ArgError) × (r ≡ err e)) ⊎ ((a : A) × (r ≡ ok a))
Parse-cases (ok a) = inr (a, refl)
Parse-cases (err e) = inl (e, refl)

parse_args-AllKnown :
    (ts : List ArgTokens) (args : List HirpdagArg) → parse_args ts ≡ ok args → AllKnown args
unfolding parse_args parse AllKnown
parse_args-AllKnown [] args e = let eq : [] ≡ args = cc in subst AllKnown eq tt
parse_args-AllKnown (t ∷ ts) args e = elim (Parse-cases (parse t.arg_name t.opeq t.value_lit)) [
  | inl (x, bad) ↦ absurd (ground arith)
  | inr (a, good) ↦ elim (Parse-cases (parse_args ts)) [
    | inl (x, bad) ↦ absurd (ground arith)
    | inr (rest, good_rest) ↦
        let eq : a ∷ rest ≡ args = ground arith in
        subst AllKnown eq (
          run_handler-IsKnown (arg_handler t.arg_name) t.arg_name t.opeq t.value_lit a
              (arg_handler-KnownHandler t.arg_name) good,
          parse_args-AllKnown ts rest good_rest,
        )
  ]
]

apply_args-HasAliases :
    (args : List HirpdagArg) (c : HirpdagConfig)
    → AllKnown args
    → HasAliases c.types
    → Returns (apply_args args c) λ r. HasAliases r.types
unfolding apply_args AllKnown
apply_args-HasAliases [] c k h = (c, refl, h)
apply_args-HasAliases (a ∷ args) c k h =
    let (c', run, h') = apply_arg-HasAliases a c k.0 h in
    let (r, run', h'') = apply_args-HasAliases args c' k.1 h' in (r, rw (apply_args, run) run', h'')

-- A configuration made from parsed arguments, in whatever order: no `expect` panics, and the only
-- helper alias that it declares, at most once, is `ImplTable`.
pub from-parse_args :
    (ts : List ArgTokens) (args : List HirpdagArg)
    → parse_args ts ≡ ok args
    → Returns (from args) λ c. HasAliases c.types
unfolding from default preset_types match_name
from-parse_args ts args e =
    apply_args-HasAliases args _ (parse_args-AllKnown ts args e) (refl, refl)
