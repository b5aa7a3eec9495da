-- ===== src/Derive/Config.antt =====
-- hirpdag_derive/src/config.rs: the arguments of the macro, the presets, and the configuration.
-- `format!` is concatenation, `D` and the other type parameters stay in the text. syn's tokens of an
-- argument are its name, whether `=` follows, and the literal after it.
pub mod Parsed
use Prim.Native.String.{String, ◌++◌ as ◌<>◌}
use text.Mathlib.Text.{◌==◌}
use hirpdag.Base.{Bool, true, false, Option, none, some, List, [], ◌∷◌, if◌then◌else◌}

pub data HirpdagArg : Type 0 where
  normalizer_arg : HirpdagArg
  root_arg : HirpdagArg
  reference_type_arg : String → HirpdagArg
  reference_weak_type_arg : String → HirpdagArg
  table_type_arg : String → HirpdagArg
  tableshared_type_arg : String → HirpdagArg
  build_tableshared_type_arg : String → HirpdagArg
  preset_arg : String → HirpdagArg

abbrev pub default_preset : String
default_preset = "arc_hash_linear"

abbrev pub presets : List String
presets =
    "arc_hash_linear" ∷ "arc_hash_sorted" ∷ "leak_hash_linear" ∷ "sep_hash_linear"
    ∷ "seppad_hash_linear" ∷ "sepu32_hash_linear" ∷ "tlc_hash_linear" ∷ "arc_tovweaktable"
    ∷ "arc_dashmap" ∷ "arc_flurry" ∷ "arc_skipmap" ∷ "arc_arcswap" ∷ []

pub record ConfigTypes : Type 0 where
  pub reference_type : String
  pub reference_weak_type : String
  pub aliases : List (String × String)
  pub tableshared_type : String
  pub build_tableshared_type : String

unfoldable pub set_in : String → String → List (String × String) → List (String × String)
set_in name rhs [] = (name, rhs) ∷ []
set_in name rhs ((n, r) ∷ rest) =
    let rest' = set_in name rhs rest in if n == name then (n, rhs) ∷ rest else (n, r) ∷ rest'

unfoldable pub set_alias : String → String → ConfigTypes → ConfigTypes
set_alias name rhs types = record types { aliases = set_in name rhs types.aliases }

abbrev pub crate_path : String
crate_path = "hirpdag::hirpdag_hashconsing::"

abbrev pub default_hasher : String
default_hasher = "std::hash::BuildHasherDefault<std::collections::hash_map::DefaultHasher>"

abbrev pub hashmap_fallback : String → String
hashmap_fallback inner_table =
    crate_path <> "TableHashmapFallbackWeak<D, ImplRef<D>, ImplRefWeak<D>, " <> crate_path
    <> inner_table <> "<D, ImplRef<D>, ImplRefWeak<D>>>"

abbrev pub sharded : String → String → ConfigTypes
sharded base inner_table = record {
  reference_type = crate_path <> base <> "<D>";
  reference_weak_type = crate_path <> base <> "Weak<D>";
  aliases = ("ImplTable", inner_table) ∷ [];
  tableshared_type = crate_path <> "TableSharedSharded<D, ImplRef<D>, ImplTable<D>>";
  build_tableshared_type =
      crate_path <> "BuildTableSharedSharded<D, ImplRef<D>, ImplTable<D>, " <> crate_path
      <> "BuildThreadUnsafeTableDefault<ImplTable<D>>, " <> default_hasher <> ">";
}

abbrev pub concurrent : String → String → Bool → ConfigTypes
concurrent base shared_base hashed = record {
  reference_type = crate_path <> base <> "<D>";
  reference_weak_type = crate_path <> base <> "Weak<D>";
  aliases = [];
  tableshared_type = crate_path <> "TableShared" <> shared_base <> "<D, ImplRef<D>>";
  build_tableshared_type =
      crate_path
      <> "BuildTableShared"
      <> shared_base
      <> "<D, ImplRef<D>"
      <> (if hashed then ", " <> default_hasher else "")
      <> ">";
}

abbrev pub tovweaktable : String
tovweaktable = crate_path <> "TableTovWeakTable<D, ImplRef<D>, ImplRefWeak<D>>"

-- the arms of `match name`
abbrev pub preset_arms : List (String × ConfigTypes)
preset_arms =
    ("arc_hash_linear", sharded "RefArc" (hashmap_fallback "TableVecLinearWeak"))
    ∷ ("arc_hash_sorted", sharded "RefArc" (hashmap_fallback "TableVecSortedWeak"))
    ∷ ("leak_hash_linear", sharded "RefLeak" (hashmap_fallback "TableVecLinearWeak"))
    ∷ ("sep_hash_linear", sharded "RefSep" (hashmap_fallback "TableVecLinearWeak"))
    ∷ ("seppad_hash_linear", sharded "RefSepPad" (hashmap_fallback "TableVecLinearWeak"))
    ∷ ("sepu32_hash_linear", sharded "RefSepU32" (hashmap_fallback "TableVecLinearWeak"))
    ∷ ("tlc_hash_linear", sharded "RefTlc" (hashmap_fallback "TableVecLinearWeak"))
    ∷ ("arc_tovweaktable", sharded "RefArc" tovweaktable)
    ∷ ("arc_dashmap", concurrent "RefArc" "DashMap" true)
    ∷ ("arc_flurry", concurrent "RefArc" "Flurry" true)
    ∷ ("arc_skipmap", concurrent "RefArc" "SkipMap" false)
    ∷ ("arc_arcswap", concurrent "RefArc" "ArcSwap" true)
    ∷ []

unfoldable pub match_name : {A : Type 0} → String → List (String × A) → Option A
match_name name [] = none
match_name name ((n, a) ∷ arms) =
    let rest = match_name name arms in if n == name then some a else rest

unfoldable pub preset_types : String → Option ConfigTypes
preset_types name = match_name name preset_arms

pub data ArgError : Type 0 where
  not_recognised : String → ArgError
  expected_eq : ArgError
  requires_string : String → ArgError
  unknown_preset : String → List String → ArgError

pub data Parse (A : Type 0) : Type 0 where
  ok : A → Parse A
  err : ArgError → Parse A

pub data Lit : Type 0 where
  str : String → Lit
  other_lit : Lit

pub data Handler : Type 0 where
  no_handler : Handler
  flag : HirpdagArg → Handler
  string : (String → Parse HirpdagArg) → Handler

unfoldable pub build_preset : String → Parse HirpdagArg
build_preset name = elim (preset_types name) [
  | none ↦ err (unknown_preset name presets)
  | some _ ↦ ok (preset_arg name)
]

abbrev pub handler_arms : List (String × Handler)
handler_arms =
    ("normalizer", flag normalizer_arg)
    ∷ ("root", flag root_arg)
    ∷ ("reference_type", string (λ s. ok (reference_type_arg s)))
    ∷ ("reference_weak_type", string (λ s. ok (reference_weak_type_arg s)))
    ∷ ("table_type", string (λ s. ok (table_type_arg s)))
    ∷ ("tableshared_type", string (λ s. ok (tableshared_type_arg s)))
    ∷ ("build_tableshared_type", string (λ s. ok (build_tableshared_type_arg s)))
    ∷ ("preset", string build_preset)
    ∷ []

unfoldable pub arg_handler : String → Handler
unfolding build_preset
arg_handler arg_name = elim (match_name arg_name handler_arms) [ none ↦ no_handler | some h ↦ h ]

unfoldable pub run_handler : Handler → String → Bool → Option Lit → Parse HirpdagArg
run_handler no_handler arg_name opeq value_lit = err (not_recognised arg_name)
run_handler (string build_arg) arg_name false value_lit = err expected_eq
run_handler (string build_arg) arg_name true (some (str s)) = build_arg s
run_handler (string build_arg) arg_name true (some other_lit) = err (requires_string arg_name)
run_handler (string build_arg) arg_name true none = err (requires_string arg_name)
run_handler (flag arg) arg_name opeq value_lit = ok arg

unfoldable pub parse : String → Bool → Option Lit → Parse HirpdagArg
parse arg_name opeq value_lit = run_handler (arg_handler arg_name) arg_name opeq value_lit

pub record HirpdagConfig : Type 0 where
  pub normalizer : Bool
  pub root : Bool
  pub types : ConfigTypes

-- `none` is the panic of an `expect`
unfoldable pub default : Option HirpdagConfig
default = elim (preset_types default_preset) [
  | none ↦ none
  | some t ↦ some (record { normalizer = false; root = false; types = t })
]

-- the body of the loop of `from`
unfoldable pub apply_arg : HirpdagArg → HirpdagConfig → Option HirpdagConfig
apply_arg normalizer_arg c = some (record c { normalizer = true })
apply_arg root_arg c = some (record c { root = true })
apply_arg (reference_type_arg name) c =
    some (record c { types = record c.types { reference_type = name } })
apply_arg (reference_weak_type_arg name) c =
    some (record c { types = record c.types { reference_weak_type = name } })
apply_arg (table_type_arg name) c = some (record c { types = set_alias "ImplTable" name c.types })
apply_arg (tableshared_type_arg name) c =
    some (record c { types = record c.types { tableshared_type = name } })
apply_arg (build_tableshared_type_arg name) c =
    some (record c { types = record c.types { build_tableshared_type = name } })
apply_arg (preset_arg name) c = elim (preset_types name) [
  | none ↦ none
  | some t ↦ some (record c { types = t })
]

unfoldable pub apply_args : List HirpdagArg → HirpdagConfig → Option HirpdagConfig
apply_args [] config = some config
apply_args (a ∷ args) config = elim (apply_arg a config) [
  | none ↦ none
  | some config' ↦ apply_args args config'
]

unfoldable pub from : List HirpdagArg → Option HirpdagConfig
from args = elim default [ none ↦ none | some config ↦ apply_args args config ]

-- the tokens of one argument
pub record ArgTokens : Type 0 where
  pub arg_name : String
  pub opeq : Bool
  pub value_lit : Option Lit

-- `Punctuated::parse_terminated`: each argument in order, up to the first error
unfoldable pub parse_args : List ArgTokens → Parse (List HirpdagArg)
parse_args [] = ok []
parse_args (t ∷ ts) = elim (parse t.arg_name t.opeq t.value_lit) [
  | err e ↦ err e
  | ok a ↦ elim (parse_args ts) [ err e ↦ err e | ok rest ↦ ok (a ∷ rest) ]
]
