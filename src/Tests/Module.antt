-- ===== src/Tests/Module.antt =====
-- The theorem on the expansion of a module, which has a root struct, another item, and an enum with an
-- attribute before the mark; and a module that has an enum as a root.
use hirpdag.Base.{◌≡◌, refl, false, none, List, [], ◌∷◌}
use hirpdag.Derive.Config
use hirpdag.Derive.Config.{HirpdagConfig}
use hirpdag.Derive.Module
use hirpdag.Derive.Module.{
  path_only, list, Attribute, named, Item, struct_item, enum_item, other_item, expand_module_items,
}
use hirpdag.Derive.Module.Listed.{Listed}

abbrev root_mark : Attribute
root_mark = record {
  path = "hirpdag";
  meta = list (record { arg_name = "root"; opeq = false; value_lit = none } ∷ []);
}

abbrev mark : Attribute
mark = record { path = "hirpdag"; meta = path_only }

abbrev doc : Attribute
doc = record { path = "doc"; meta = path_only }

abbrev items : List Item
items =
    struct_item (root_mark ∷ []) (b'N' ∷ []) (named [])
    ∷ other_item (b'x' ∷ [])
    ∷ enum_item (doc ∷ mark ∷ []) (b'E' ∷ []) []
    ∷ []

root_enum_run : expand_module_items (enum_item (root_mark ∷ []) (b'E' ∷ []) [] ∷ []) [] ≡ none
unfolding expand_module_items Module.take_hirpdag_attr Module.parse_hirpdag_args Module.expand_data
    Config.parse_args Config.parse Config.run_handler Config.arg_handler Config.match_name
    Config.from Config.default Config.apply_args Config.apply_arg Config.preset_types
root_enum_run = refl
