-- ===== src/Serialize/Wire.antt =====
-- Values as serde sees them. `Serialize` of a handle writes its index, and `Deserialize` looks the
-- index up among the nodes that are there already; both need the session of the thread. The other
-- types have the implementations of serde and of its derive macros.
use hirpdag.Base.{
  ℕ, zero, suc, Option, none, some, List, get_elem?, length, ◌==◌, leb, if◌then◌else◌, Result, ok,
  err, and_then, ok_or,
}
use hirpdag.Base.HashMap
use hirpdag.Value.{Value, Values, number, text, absent, present, vec, variant, node, nil, cons}

-- serde's data model, as far as it is used
mutual
  pub data Wire : Type 0 where
    uint : ℕ → Wire
    str : List ℕ → Wire
    none_wire : Wire
    some_wire : Wire → Wire
    seq : Wires → Wire
    newtype_variant : ℕ → Wire → Wire

  pub data Wires : Type 0 where
    nil_wires : Wires
    cons_wires : Wire → Wires → Wires

-- a field's type: a number, a string, `Option`, `Vec`, an enum with its payloads, or a struct type's
-- handle
mutual
  pub data FieldType : Type 0 where
    number_type : FieldType
    string_type : FieldType
    option_type : FieldType → FieldType
    vec_type : FieldType → FieldType
    enum_type : FieldTypes → FieldType
    ref_type : ℕ → FieldType

  pub data FieldTypes : Type 0 where
    nil_types : FieldTypes
    cons_types : FieldType → FieldTypes → FieldTypes

unfoldable pub payload_type : FieldTypes → ℕ → Option FieldType
payload_type nil_types i = none
payload_type (cons_types ft fts) zero = some ft
payload_type (cons_types ft fts) (suc i) = payload_type fts i

-- the messages of the generated code, and one for the format's own
pub data Message : Type 0 where
  outside_ser_session : Message
  not_collected : Message
  outside_de_session : Message
  invalid_index : ℕ → Message
  node_type_mismatch : Message
  unsupported_version : ℕ → Message
  other_format_error : Message

-- a reconstructed node: its struct type and its address
pub record HirpdagNodeRef : Type 0 where
  pub ref_struct : ℕ
  pub address : ℕ

-- `Serialize` of a handle with the creation id `id`
unfoldable pub serialize_ref : Option (List (ℕ × ℕ)) → ℕ → Result Message Wire
serialize_ref session id = and_then (ok_or outside_ser_session session) λ index_map.
    and_then (ok_or not_collected (HashMap.lookup id index_map)) λ index. ok (uint index)

unfoldable pub ref_of_type : ℕ → Option HirpdagNodeRef → Result Message Value
ref_of_type t none = err node_type_mismatch
ref_of_type t (some r) = if r.ref_struct == t then ok (node t r.address) else err node_type_mismatch

-- `Deserialize` of a handle to a node of the type `t`, from its index
unfoldable pub deserialize_ref : Option (List HirpdagNodeRef) → ℕ → ℕ → Result Message Value
unfolding ref_of_type
deserialize_ref session t index = and_then (ok_or outside_de_session session) λ nodes.
    if leb (length nodes) index
    then err (invalid_index index)
    else ref_of_type t (get_elem? nodes index)

unfoldable mutual
  unfolding serialize_ref

  pub serialize : (ℕ → ℕ → ℕ) → Option (List (ℕ × ℕ)) → Value → Result Message Wire
  serialize creation_id session (number n) = ok (uint n)
  serialize creation_id session (text s) = ok (str s)
  serialize creation_id session absent = ok none_wire
  serialize creation_id session (present v) =
      and_then (serialize creation_id session v) λ x. ok (some_wire x)
  serialize creation_id session (vec vs) =
      and_then (serialize_each creation_id session vs) λ xs. ok (seq xs)
  serialize creation_id session (variant i v) =
      and_then (serialize creation_id session v) λ x. ok (newtype_variant i x)
  serialize creation_id session (node t p) = serialize_ref session (creation_id t p)

  -- the items of a `Vec`, or the fields of a struct
  pub serialize_each : (ℕ → ℕ → ℕ) → Option (List (ℕ × ℕ)) → Values → Result Message Wires
  serialize_each creation_id session nil = ok nil_wires
  serialize_each creation_id session (cons v vs) =
      and_then (serialize creation_id session v)
        λ x. and_then (serialize_each creation_id session vs) λ xs. ok (cons_wires x xs)

unfoldable mutual
  unfolding deserialize_ref payload_type

  pub deserialize : Option (List HirpdagNodeRef) → FieldType → Wire → Result Message Value
  deserialize session number_type (uint n) = ok (number n)
  deserialize session string_type (str s) = ok (text s)
  deserialize session (option_type ft) none_wire = ok absent
  deserialize session (option_type ft) (some_wire x) =
      and_then (deserialize session ft x) λ v. ok (present v)
  deserialize session (vec_type ft) (seq xs) =
      and_then (deserialize_each session ft xs) λ vs. ok (vec vs)
  deserialize session (enum_type fts) (newtype_variant i x) =
      and_then (ok_or other_format_error (payload_type fts i))
        λ ft. and_then (deserialize session ft x) λ v. ok (variant i v)
  deserialize session (ref_type t) (uint index) = deserialize_ref session t index
  deserialize session _ _ = err other_format_error

  pub deserialize_each : Option (List HirpdagNodeRef) → FieldType → Wires → Result Message Values
  deserialize_each session ft nil_wires = ok nil
  deserialize_each session ft (cons_wires x xs) =
      and_then (deserialize session ft x)
        λ v. and_then (deserialize_each session ft xs) λ vs. ok (cons v vs)

-- the fields of a struct, each of its own type
unfoldable pub deserialize_fields :
    Option (List HirpdagNodeRef) → FieldTypes → Wires → Result Message Values
unfolding deserialize
deserialize_fields session nil_types nil_wires = ok nil
deserialize_fields session (cons_types ft fts) (cons_wires x xs) =
    and_then (deserialize session ft x)
      λ v. and_then (deserialize_fields session fts xs) λ vs. ok (cons v vs)
deserialize_fields session _ _ = err other_format_error
