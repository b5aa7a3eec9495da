-- ===== src/Tests/Macro.antt =====
-- The theorems on the macro's configuration, at `preset = "arc_hash_sorted", table_type = "Mine<D>",
-- root`.
use hirpdag.Base.{◌≡◌, refl, true, false, none, some, [], ◌∷◌, List, Returns}
use hirpdag.Derive.Config
use hirpdag.Derive.Config.{
  HirpdagArg, root_arg, table_type_arg, preset_arg, ArgTokens, str, ok, parse_args, from,
  preset_types, presets,
}
use hirpdag.Derive.Config.Parsed.{HasAliases, from-parse_args}

abbrev tokens : List ArgTokens
tokens =
    record { arg_name = "preset"; opeq = true; value_lit = some (str "arc_hash_sorted") }
    ∷ record { arg_name = "table_type"; opeq = true; value_lit = some (str "Mine<D>") }
    ∷ record { arg_name = "root"; opeq = false; value_lit = none }
    ∷ []

abbrev args : List HirpdagArg
args = preset_arg "arc_hash_sorted" ∷ table_type_arg "Mine<D>" ∷ root_arg ∷ []

tokens-args : parse_args tokens ≡ ok args
unfolding parse_args Config.parse Config.arg_handler Config.run_handler Config.match_name
    Config.build_preset preset_types
tokens-args = refl

from-parse_args_example : Returns (from args) λ c. HasAliases c.types
from-parse_args_example = from-parse_args tokens args tokens-args
