-- ===== src/Serialize/Typed.antt =====
-- The values of a field type.
use hirpdag.Base.{ℕ, ◌≡◌, some, List}
use hirpdag.Serialize.Wire.{
  FieldType, FieldTypes, number_type, string_type, option_type, vec_type, enum_type, ref_type,
  nil_types, cons_types, payload_type,
}
use hirpdag.Value.{Value, Values, number, text, absent, present, vec, variant, node, nil, cons}

mutual
  pub data HasType : FieldType → Value → Type 0 where
    number_ok : (n : ℕ) → HasType number_type (number n)
    text_ok : (s : List ℕ) → HasType string_type (text s)
    absent_ok : (ft : FieldType) → HasType (option_type ft) absent
    present_ok : {ft : FieldType} {v : Value} → HasType ft v → HasType (option_type ft) (present v)
    vec_ok : {ft : FieldType} {vs : Values} → EachHasType ft vs → HasType (vec_type ft) (vec vs)
    variant_ok :
        {fts : FieldTypes} (i : ℕ) (ft : FieldType) {v : Value}
        → payload_type fts i ≡ some ft
        → HasType ft v
        → HasType (enum_type fts) (variant i v)
    ref_ok : (t p : ℕ) → HasType (ref_type t) (node t p)

  pub data EachHasType : FieldType → Values → Type 0 where
    nil_ok : (ft : FieldType) → EachHasType ft nil
    cons_ok :
        {ft : FieldType} {v : Value} {vs : Values}
        → HasType ft v
        → EachHasType ft vs
        → EachHasType ft (cons v vs)

-- The fields of a struct, each of its type.
pub data HasTypes : FieldTypes → Values → Type 0 where
  no_fields : HasTypes nil_types nil
  field_ok :
      {ft : FieldType} {fts : FieldTypes} {v : Value} {vs : Values}
      → HasType ft v
      → HasTypes fts vs
      → HasTypes (cons_types ft fts) (cons v vs)
