-- ===== src/Serialize/Flat.antt =====
-- serde_json writes `None` as `null` and `Some(x)` as `x`, so `Some(None)` reads back as `None`. No value
-- of a field type without an `Option` of an `Option` is written so.
use hirpdag.Base.{
  ℕ, zero, suc, ◌≡◌, sym, ◌∙◌, refl, some, List, [], ◌∷◌, map, get_elem?, get_elem?-lt,
}
use mathlib.Core.Path.{subst}
use hirpdag.Serialize.Archive.{ArchiveWire, NodeWire}
use hirpdag.Serialize.Collect.{HirpdagArchiveNode}
use hirpdag.Serialize.Collected.{IsCollected, entry_of}
use hirpdag.Serialize.Nodes.{Nodes}
use hirpdag.Serialize.NodeTable.{node_wire}
use hirpdag.Serialize.RoundTrip.{archive_of}
use hirpdag.Serialize.Typed.{
  HasType, EachHasType, HasTypes, number_ok, text_ok, absent_ok, present_ok, vec_ok, variant_ok,
  ref_ok, nil_ok, cons_ok, no_fields, field_ok,
}
use hirpdag.Serialize.Wire.{
  Wire, Wires, uint, str, none_wire, some_wire, seq, newtype_variant, nil_wires, cons_wires,
  FieldType, FieldTypes, number_type, string_type, option_type, vec_type, enum_type, ref_type,
  nil_types, cons_types, payload_type,
}
use hirpdag.Serialize.Written.{wire_of, wires_of}
use hirpdag.Value.{Values}

abbrev pub IsOption : FieldType → Type 0
IsOption (option_type ft) = Unit
IsOption _ = ⊥

-- no `Option` of an `Option`
mutual
  pub data IsFlat : FieldType → Type 0 where
    number_flat : IsFlat number_type
    string_flat : IsFlat string_type
    option_flat : {ft : FieldType} → ¬ IsOption ft → IsFlat ft → IsFlat (option_type ft)
    vec_flat : {ft : FieldType} → IsFlat ft → IsFlat (vec_type ft)
    enum_flat : {fts : FieldTypes} → AllFlat fts → IsFlat (enum_type fts)
    ref_flat : (t : ℕ) → IsFlat (ref_type t)

  pub data AllFlat : FieldTypes → Type 0 where
    nil_flat : AllFlat nil_types
    cons_flat :
        {ft : FieldType} {fts : FieldTypes} → IsFlat ft → AllFlat fts → AllFlat (cons_types ft fts)

abbrev pub IsNone : Wire → Type 0
IsNone none_wire = Unit
IsNone _ = ⊥

-- no `Some(None)`
mutual
  pub data IsPlain : Wire → Type 0 where
    uint_plain : (n : ℕ) → IsPlain (uint n)
    str_plain : (s : List ℕ) → IsPlain (str s)
    none_plain : IsPlain none_wire
    some_plain : {x : Wire} → ¬ IsNone x → IsPlain x → IsPlain (some_wire x)
    seq_plain : {xs : Wires} → AllPlain xs → IsPlain (seq xs)
    variant_plain : (i : ℕ) {x : Wire} → IsPlain x → IsPlain (newtype_variant i x)

  pub data AllPlain : Wires → Type 0 where
    nil_plain : AllPlain nil_wires
    cons_plain : {x : Wire} {xs : Wires} → IsPlain x → AllPlain xs → AllPlain (cons_wires x xs)

abbrev pub NodesPlain : List NodeWire → Type 0
NodesPlain [] = Unit
NodesPlain (n ∷ ns) = AllPlain n.field_wires × NodesPlain ns

abbrev pub IsPlainArchive : ArchiveWire → Type 0
IsPlainArchive archive = NodesPlain archive.node_wires × AllPlain archive.root_wires

payload-IsFlat :
    (fts : FieldTypes) (i : ℕ) (ft : FieldType)
    → AllFlat fts
    → payload_type fts i ≡ some ft
    → IsFlat ft
unfolding payload_type
payload-IsFlat nil_types i ft a e = cc
payload-IsFlat (cons_types x fts) zero ft (cons_flat f a) e =
    let same : x ≡ ft = cc in subst IsFlat same f
payload-IsFlat (cons_types x fts) (suc i) ft (cons_flat f a) e = payload-IsFlat fts i ft a e

module _ (nodes : Nodes) (seen : List (ℕ × ℕ)) where
  not-IsNone :
      {ft : FieldType} {v : _} → HasType ft v → ¬ IsOption ft → ¬ IsNone (wire_of nodes seen v)
  unfolding wire_of
  not-IsNone (number_ok n) f h = h
  not-IsNone (text_ok s) f h = h
  not-IsNone (absent_ok ft) f h = f tt
  not-IsNone (present_ok t) f h = h
  not-IsNone (vec_ok t) f h = h
  not-IsNone (variant_ok i ft e t) f h = h
  not-IsNone (ref_ok t p) f h = h

  mutual
    unfolding wire_of

    wire_of-IsPlain :
        {ft : FieldType} {v : _} → HasType ft v → IsFlat ft → IsPlain (wire_of nodes seen v)
    wire_of-IsPlain (number_ok n) f = uint_plain n
    wire_of-IsPlain (text_ok s) f = str_plain s
    wire_of-IsPlain (absent_ok ft) f = none_plain
    wire_of-IsPlain (present_ok t) (option_flat single f) =
        some_plain (not-IsNone t single) (wire_of-IsPlain t f)
    wire_of-IsPlain (vec_ok t) (vec_flat f) = seq_plain (each-AllPlain t f)
    wire_of-IsPlain (variant_ok {fts} i ft e t) (enum_flat a) =
        variant_plain i (wire_of-IsPlain t (payload-IsFlat fts i ft a e))
    wire_of-IsPlain (ref_ok t p) f = uint_plain _

    each-AllPlain :
        {ft : FieldType} {vs : Values}
        → EachHasType ft vs
        → IsFlat ft
        → AllPlain (wires_of nodes seen vs)
    each-AllPlain (nil_ok ft) f = nil_plain
    each-AllPlain (cons_ok t ts) f = cons_plain (wire_of-IsPlain t f) (each-AllPlain ts f)

  fields-AllPlain :
      {fts : FieldTypes} {vs : Values}
      → HasTypes fts vs
      → AllFlat fts
      → AllPlain (wires_of nodes seen vs)
  unfolding wires_of
  fields-AllPlain no_fields a = nil_plain
  fields-AllPlain (field_ok t ts) (cons_flat f a) =
      cons_plain (wire_of-IsPlain t f) (fields-AllPlain ts a)

  module _ (schema : ℕ → FieldTypes) (flat : (t : ℕ) → AllFlat (schema t)) where
    entries-NodesPlain :
        (es : List HirpdagArchiveNode)
        → ((i : ℕ) (e : HirpdagArchiveNode)
            → get_elem? es i ≡ some e
            → HasTypes (schema e.struct_type) e.data_fields)
        → NodesPlain (map (node_wire nodes seen) es)
    entries-NodesPlain [] h = tt
    entries-NodesPlain (e ∷ es) h = (
      fields-AllPlain (h 0 e refl) (flat e.struct_type),
      entries-NodesPlain es (λ i x m. h (suc i) x m),
    )

    -- what the collect phase makes of typed nodes and roots
    pub archive_of-IsPlainArchive :
        (root_types : FieldTypes) (entries : List HirpdagArchiveNode) (roots : Values)
        → AllFlat root_types
        → HasTypes root_types roots
        → ((t p : ℕ) → nodes.IsLive t p → HasTypes (schema t) (nodes.fields t p))
        → IsCollected nodes seen entries
        → IsPlainArchive (archive_of nodes entries seen roots)
    archive_of-IsPlainArchive root_types entries roots roots_flat roots_typed typed k = (
      entries-NodesPlain entries (λ i e m.
          let (a, l) = k.named i (get_elem?-lt entries i e m) in
          let (t, p, live, id, at, lt) = k.indexed a i l in
          let same : entry_of nodes t p ≡ e =
            let both : some (entry_of nodes t p) ≡ some e = sym at ∙ m in cc in
          subst (λ x. HasTypes (schema x.struct_type) x.data_fields) same (typed t p live)),
      fields-AllPlain roots_typed roots_flat,
    )
