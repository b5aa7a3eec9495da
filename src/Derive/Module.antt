-- ===== src/Derive/Module.antt =====
-- The expansion of the items of a module, of hirpdag_derive/src/lib.rs: which become data types, which
-- pass through, and where it stops. The code that is generated for an item is a piece, named by what
-- it is made from. `none` is a panic; syn reads the tokens.
use Prim.Native.String.{String}
use text.Mathlib.Text.{◌==◌}
use hirpdag.Base.{ℕ, Bool, true, false, Option, none, some, List, [], ◌∷◌, ◌++◌, if◌then◌else◌}
use hirpdag.Derive.Config
use hirpdag.Derive.Config.{HirpdagArg, ArgError, ArgTokens, HirpdagConfig, Parse, parse_args, from}
use hirpdag.Derive.Schema.{
  DataTypeEntry, Described, get_definition_string_struct, get_definition_string_enum,
}
pub mod Listed

-- `#[path]`, `#[path(tokens)]`, `#[path = ..]`
pub data Meta : Type 0 where
  path_only : Meta
  list : List ArgTokens → Meta
  name_value : Meta

pub record Attribute : Type 0 where
  pub path : String
  pub meta : Meta

-- the fields of a struct: named, or unnamed or none
pub data Fields : Type 0 where
  named : Described → Fields
  other_fields : Fields

-- an item, with its attributes and its name; others are their tokens
pub data Item : Type 0 where
  struct_item : List Attribute → List ℕ → Fields → Item
  enum_item : List Attribute → List ℕ → Described → Item
  other_item : List ℕ → Item

-- what an item expands to
pub data Piece : Type 0 where
  struct_piece : HirpdagConfig → List ℕ → Described → Piece
  enum_piece : HirpdagConfig → List ℕ → Described → Piece
  passed : Item → Piece

pub data ExpandError : Type 0 where
  bad_args : ArgError → ExpandError
  unexpected_name_value : ExpandError

-- `syn::Result`
pub data Expand (A : Type 0) : Type 0 where
  done : A → Expand A
  failed : ExpandError → Expand A

-- the first attribute that is `hirpdag`, and the others
unfoldable pub take_attr : List Attribute → Option (Attribute × List Attribute)
take_attr [] = none
take_attr (a ∷ attrs) =
    let rest = take_attr attrs in
    if a.path == "hirpdag"
    then some (a, attrs)
    else (elim rest [ none ↦ none | some (b, others) ↦ some (b, a ∷ others) ])

unfoldable pub take_hirpdag_attr : Item → Option (Attribute × Item)
unfolding take_attr
take_hirpdag_attr (struct_item attrs name fields) = elim (take_attr attrs) [
  | none ↦ none
  | some (a, others) ↦ some (a, struct_item others name fields)
]
take_hirpdag_attr (enum_item attrs name variants) = elim (take_attr attrs) [
  | none ↦ none
  | some (a, others) ↦ some (a, enum_item others name variants)
]
take_hirpdag_attr (other_item tokens) = none

unfoldable pub of_parse : Parse (List HirpdagArg) → Expand (List HirpdagArg)
of_parse (Config.ok args) = done args
of_parse (Config.err e) = failed (bad_args e)

unfoldable pub parse_meta : Meta → Expand (List HirpdagArg)
unfolding of_parse
parse_meta path_only = of_parse (parse_args [])
parse_meta (list tokens) = of_parse (parse_args tokens)
parse_meta name_value = failed unexpected_name_value

unfoldable pub parse_hirpdag_args : Attribute → Expand (List HirpdagArg)
unfolding parse_meta
parse_hirpdag_args attr = parse_meta attr.meta

unfoldable pub get_fields_named : Fields → Option Described
get_fields_named (named fields) = some fields
get_fields_named other_fields = none

unfoldable pub expand_hirpdag_struct :
    HirpdagConfig → List ℕ → Fields → List DataTypeEntry → Option (Piece × List DataTypeEntry)
unfolding get_fields_named
expand_hirpdag_struct config name fields types = elim (get_fields_named fields) [
  | none ↦ none
  | some fields_named ↦ some (
    struct_piece config name fields_named,
    types
        ++ record {
          type_name = name;
          is_struct = true;
          is_root = config.root;
          definition = get_definition_string_struct name config.root fields_named;
        }
          ∷ [],
  )
]

-- a root must be a struct
unfoldable pub expand_hirpdag_enum :
    HirpdagConfig → List ℕ → Described → List DataTypeEntry → Option (Piece × List DataTypeEntry)
expand_hirpdag_enum config name variants types =
    if config.root
    then none
    else some (
      enum_piece config name variants,
      types
          ++ record {
            type_name = name;
            is_struct = false;
            is_root = false;
            definition = get_definition_string_enum name variants;
          }
            ∷ [],
    )

unfoldable pub expand_data :
    HirpdagConfig → Item → List DataTypeEntry → Option (Piece × List DataTypeEntry)
unfolding expand_hirpdag_struct expand_hirpdag_enum
expand_data config (struct_item attrs name fields) types =
    expand_hirpdag_struct config name fields types
expand_data config (enum_item attrs name variants) types =
    expand_hirpdag_enum config name variants types
expand_data config (other_item tokens) types = none

unfoldable pub expand_marked :
    Attribute → Item → List DataTypeEntry → Option (Expand (Piece × List DataTypeEntry))
unfolding expand_data parse_hirpdag_args
expand_marked attr item types = elim (parse_hirpdag_args attr) [
  | failed e ↦ some (failed e)
  | done args ↦ elim (from args) [
    | none ↦ none
    | some config ↦ elim (expand_data config item types) [ none ↦ none | some r ↦ some (done r) ]
  ]
]

-- one round of the loop
unfoldable pub expand_item :
    Item → List DataTypeEntry → Option (Expand (Piece × List DataTypeEntry))
unfolding expand_marked take_hirpdag_attr
expand_item item types = elim (take_hirpdag_attr item) [
  | none ↦ some (done (passed item, types))
  | some (attr, item') ↦ expand_marked attr item' types
]

abbrev pub push_front :
    Piece
    → Option (Expand (List Piece × List DataTypeEntry))
    → Option (Expand (List Piece × List DataTypeEntry))
push_front piece none = none
push_front piece (some (failed e)) = some (failed e)
push_front piece (some (done (body, types))) = some (done (piece ∷ body, types))

-- `for item in items`, and the types; what `expand_hirpdag_end` generates from these comes after the body
unfoldable pub expand_module_items :
    List Item → List DataTypeEntry → Option (Expand (List Piece × List DataTypeEntry))
unfolding expand_item
expand_module_items [] types = some (done ([], types))
expand_module_items (item ∷ items) types = elim (expand_item item types) [
  | none ↦ none
  | some (failed e) ↦ some (failed e)
  | some (done (piece, types')) ↦ push_front piece (expand_module_items items types')
]
