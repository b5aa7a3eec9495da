-- ===== src/Derive/Schema.antt =====
-- The schema fingerprint that hirpdag_derive/src/lib.rs computes when a module is expanded: the
-- canonical text of each definition, its hash, and a name that is cut off. A text is its UTF-8 bytes.
pub mod Names
use hirpdag.Base.{
  ℕ, zero, suc, ◌+◌, ◌-◌, ◌*◌, ◌%◌, ◌^◌, Bool, true, false, not, ◌&&◌, List, [], ◌∷◌, ◌++◌, map,
  length, get_elem?, Option, none, some, bit_xor, leb, ltb, ◌==◌, if◌then◌else◌,
}

-- a definition, in declaration order
pub record DataTypeEntry : Type 0 where
  pub type_name : List ℕ
  pub is_struct : Bool
  pub is_root : Bool
  pub definition : List ℕ

-- `fnv1a_64`, from the hash so far
unfoldable pub fnv1a_from : ℕ → List ℕ → ℕ
fnv1a_from hash [] = hash
fnv1a_from hash (byte ∷ bytes) = fnv1a_from (bit_xor hash byte * 0x100000001b3 % 2 ^ 64) bytes

unfoldable pub fnv1a_64 : List ℕ → ℕ
unfolding fnv1a_from
fnv1a_64 bytes = fnv1a_from 0xcbf29ce484222325 bytes

-- a field: its name, and its type as `to_token_stream` prints it; the variants of an enum likewise,
-- with their payload
abbrev pub Described : Type 0
Described = List (List ℕ × List ℕ)

-- `";{}:{}"`
unfoldable pub describe_fields : Described → List ℕ
describe_fields [] = []
describe_fields ((name, ty) ∷ fields) = b';' ∷ (name ++ b':' ∷ (ty ++ describe_fields fields))

-- `";{}{}"`
unfoldable pub describe_variants : Described → List ℕ
describe_variants [] = []
describe_variants ((name, payload) ∷ variants) =
    b';' ∷ (name ++ (payload ++ describe_variants variants))

abbrev root_text : List ℕ
root_text = b'r' ∷ b'o' ∷ b'o' ∷ b't' ∷ b' ' ∷ []

abbrev struct_text : List ℕ
struct_text = b's' ∷ b't' ∷ b'r' ∷ b'u' ∷ b'c' ∷ b't' ∷ b' ' ∷ []

abbrev enum_text : List ℕ
enum_text = b'e' ∷ b'n' ∷ b'u' ∷ b'm' ∷ b' ' ∷ []

unfoldable pub get_definition_string_struct : List ℕ → Bool → Described → List ℕ
unfolding describe_fields
get_definition_string_struct name is_root fields =
    (if is_root then root_text else []) ++ (struct_text ++ (name ++ describe_fields fields))

unfoldable pub get_definition_string_enum : List ℕ → Described → List ℕ
unfolding describe_variants
get_definition_string_enum name variants = enum_text ++ (name ++ describe_variants variants)

-- `[_]::join`
unfoldable pub join : ℕ → List (List ℕ) → List ℕ
join sep [] = []
join sep (s ∷ []) = s
join sep (s ∷ r ∷ rest) = s ++ sep ∷ join sep (r ∷ rest)

abbrev newline : ℕ
newline = 10

unfoldable pub schema_hash : List DataTypeEntry → ℕ
unfolding fnv1a_64 join
schema_hash types = fnv1a_64 (join newline (map (λ entry. entry.definition) types))

-- `is_char_boundary`: the ends of the text, and a byte that does not go on with a character
abbrev pub goes_on : ℕ → Bool
goes_on byte = leb 128 byte && ltb byte 192

unfoldable pub is_char_boundary : List ℕ → ℕ → Bool
is_char_boundary text zero = true
is_char_boundary text (suc i) = elim (get_elem? text (suc i)) [
  | none ↦ length text == suc i
  | some byte ↦ not (goes_on byte)
]

-- `while !name.is_char_boundary(cut) { cut -= 1; }`
unfoldable pub back_off : List ℕ → ℕ → ℕ
unfolding is_char_boundary
back_off text zero = zero
back_off text (suc cut) =
    let rest = back_off text cut in if is_char_boundary text (suc cut) then suc cut else rest

unfoldable pub truncate : ℕ → List ℕ → List ℕ
truncate zero text = []
truncate (suc n) [] = []
truncate (suc n) (b ∷ text) = b ∷ truncate n text

abbrev pub schema_name_max : ℕ
schema_name_max = 128

abbrev pub ellipsis : List ℕ
ellipsis = b'.' ∷ b'.' ∷ b'.' ∷ []

-- `if name.len() > SCHEMA_NAME_MAX { .. }`
unfoldable pub shorten : List ℕ → List ℕ
unfolding back_off truncate
shorten name =
    if ltb schema_name_max (length name)
    then truncate (back_off name (schema_name_max - length ellipsis)) name ++ ellipsis
    else name

-- `format!("{}:{}", pkg, type_names.join(","))`
unfoldable pub full_name : List ℕ → List DataTypeEntry → List ℕ
unfolding join
full_name pkg types = pkg ++ (b':' ∷ join b',' (map (λ entry. entry.type_name) types))

unfoldable pub schema_name : List ℕ → List DataTypeEntry → List ℕ
unfolding full_name shorten
schema_name pkg types = shorten (full_name pkg types)

abbrev is_ascii_uppercase : ℕ → Bool
is_ascii_uppercase c = leb b'A' c && leb c b'Z'

-- `to_snake_case`, from the character number `i` on
unfoldable pub snake_from : ℕ → List ℕ → List ℕ
snake_from i [] = []
snake_from i (c ∷ name) =
    let rest = snake_from (i + 1) name in
    if is_ascii_uppercase c
    then (if not (i == 0) then b'_' ∷ (c + 32) ∷ rest else (c + 32) ∷ rest)
    else c ∷ rest

unfoldable pub to_snake_case : List ℕ → List ℕ
unfolding snake_from
to_snake_case name = snake_from 0 name
