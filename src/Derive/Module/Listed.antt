-- ===== src/Derive/Module/Listed.antt =====
-- The expansion of a module lists the marked items, and passes on the others.
use text.Mathlib.Text.{◌==◌}
use hirpdag.Base.{ℕ, ◌≡◌, Bool, true, false, Option, none, some, List, [], ◌∷◌, ◌++◌, if◌then◌else◌}
use hirpdag.Derive.Config.{HirpdagArg, HirpdagConfig, from}
use hirpdag.Derive.Module.{
  named, Attribute, Item, struct_item, enum_item, other_item, Piece, struct_piece, enum_piece,
  passed, Expand, done, take_hirpdag_attr, parse_hirpdag_args, get_fields_named,
}
use hirpdag.Derive.Schema.{
  DataTypeEntry, Described, get_definition_string_struct, get_definition_string_enum,
}

-- it has the attribute `hirpdag`
abbrev pub has_attr : List Attribute → Bool
has_attr [] = false
has_attr (a ∷ attrs) = let rest = has_attr attrs in if a.path == "hirpdag" then true else rest

abbrev pub is_marked : Item → Bool
is_marked (struct_item attrs name fields) = has_attr attrs
is_marked (enum_item attrs name variants) = has_attr attrs
is_marked (other_item tokens) = false

-- the first of them
abbrev pub first_mark : List Attribute → Option Attribute
first_mark [] = none
first_mark (a ∷ attrs) = let rest = first_mark attrs in if a.path == "hirpdag" then some a else rest

-- the configuration that the attribute `hirpdag` gives
pub record Configures (attrs : List Attribute) (config : HirpdagConfig) : Type 0 where
  pub mark : Attribute
  pub args : List HirpdagArg
  pub is_first : first_mark attrs ≡ some mark
  pub parses : parse_hirpdag_args mark ≡ done args
  pub configures : from args ≡ some config

-- The pieces and the entries of these items, in their order: an item that is not marked is passed on
-- as it is; a struct or an enum that is marked becomes a piece of its kind, under the configuration of
-- its own attribute, and has an entry with its kind, whether it is a root, and its definition.
pub data Listed : List Item → List Piece → List DataTypeEntry → Type 0 where
  none_left : Listed [] [] []
  plain_item :
      (item : Item) {items : List Item} {body : List Piece} {entries : List DataTypeEntry}
      → is_marked item ≡ false
      → Listed items body entries
      → Listed (item ∷ items) (passed item ∷ body) entries
  marked_struct :
      (attrs : List Attribute) (name : List ℕ) (fields : Described) (config : HirpdagConfig)
      {items : List Item} {body : List Piece} {entries : List DataTypeEntry}
      → Configures attrs config
      → Listed items body entries
      → Listed
          (struct_item attrs name (named fields) ∷ items)
          (struct_piece config name fields ∷ body)
          (record {
            type_name = name;
            is_struct = true;
            is_root = config.root;
            definition = get_definition_string_struct name config.root fields;
          }
            ∷ entries)
  marked_enum :
      (attrs : List Attribute) (name : List ℕ) (variants : Described) (config : HirpdagConfig)
      {items : List Item} {body : List Piece} {entries : List DataTypeEntry}
      → Configures attrs config
      → Listed items body entries
      → Listed (enum_item attrs name variants ∷ items) (enum_piece config name variants ∷ body) (
          record {
            type_name = name;
            is_struct = false;
            is_root = false;
            definition = get_definition_string_enum name variants;
          }
          ∷ entries)

-- A struct has named fields, and an enum is not marked as a root.
abbrev pub HasShape : HirpdagConfig → Item → Type 0
HasShape config (struct_item attrs name fields) =
    (f : Described) × (get_fields_named fields ≡ some f)
HasShape config (enum_item attrs name variants) = config.root ≡ false
HasShape config (other_item tokens) = ⊥

abbrev pub ExpandableAs : Option (Attribute × Item) → Type 0
ExpandableAs none = Unit
ExpandableAs (some (attr, item)) =
    (args : List HirpdagArg) × (config : HirpdagConfig) × (parse_hirpdag_args attr ≡ done args)
    × (from args ≡ some config)
    × HasShape config item

-- If it is marked, then its arguments parse, to a configuration that it has the shape for.
abbrev pub IsExpandable : Item → Type 0
IsExpandable item = ExpandableAs (take_hirpdag_attr item)

abbrev pub AllExpandable : List Item → Type 0
AllExpandable [] = Unit
AllExpandable (item ∷ items) = IsExpandable item × AllExpandable items

-- what one round of the loop adds
record Adds (item : Item) (types : List DataTypeEntry)
    (result : Option (Expand (Piece × List DataTypeEntry))) : Type 0 where
  piece : Piece
  entries : List DataTypeEntry
  expands : result ≡ some (done (piece, types ++ entries))
  lists :
      {items : List Item} {body : List Piece} {rest : List DataTypeEntry}
      → Listed items body rest
      → Listed (item ∷ items) (piece ∷ body) (entries ++ rest)
