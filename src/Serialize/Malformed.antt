-- ===== src/Serialize/Malformed.antt =====
-- Reading an archive that need not have been written by anyone: it ends with a value or an error,
-- and with every node still there.
use hirpdag.Base.{
  ℕ, ◌≡◌, refl, Option, none, some, List, length, get_elem?, arith, Result, ok, err, and_then,
  ok_or, inl, inr, Option-cases, Bool-cases, leb, ◌==◌,
}
use mathlib.Core.Path.{subst}
use hirpdag.Serialize.Nodes.{Nodes, AllNodes, AllNodesIn}
use hirpdag.Serialize.Typed.{
  HasType, EachHasType, HasTypes, number_ok, text_ok, absent_ok, present_ok, vec_ok, variant_ok,
  ref_ok, nil_ok, cons_ok, no_fields, field_ok,
}
use hirpdag.Serialize.Wire.{
  Wire, Wires, uint, str, none_wire, some_wire, seq, newtype_variant, nil_wires, cons_wires,
  FieldType, FieldTypes, number_type, string_type, option_type, vec_type, enum_type, ref_type,
  nil_types, cons_types, payload_type, other_format_error, HirpdagNodeRef, Message, deserialize,
  deserialize_each, deserialize_fields, deserialize_ref, ref_of_type,
}
use hirpdag.Value.{Value, Values, number, text, absent, present, vec, variant, node, nil, cons}

-- All nodes that were reconstructed are live.
abbrev pub AllLive : Nodes → List HirpdagNodeRef → Type 0
AllLive nodes refs =
    (i : ℕ) (r : HirpdagNodeRef) → get_elem? refs i ≡ some r → nodes.IsLive r.ref_struct r.address

module _ (nodes : Nodes) (refs : List HirpdagNodeRef) (live : AllLive nodes refs) where
  abbrev Good : FieldType → Value → Type 0
  Good ft v = AllNodes nodes.IsLive v × HasType ft v

  ref_Good : (t i : ℕ) (v : Value) → deserialize_ref (some refs) t i ≡ ok v → Good (ref_type t) v
  unfolding deserialize_ref ref_of_type AllNodes
  ref_Good t i v e = elim (Bool-cases (leb (length refs) i)) [
    | inl out ↦ ground arith
    | inr inside ↦ elim (Option-cases (get_elem? refs i)) [
      | inl n ↦ ground (arith, n)
      | inr (r, at) ↦ elim (Bool-cases (r.ref_struct == t)) [
        | inr f ↦ ground (arith, at)
        | inl same ↦
            let is : node t r.address ≡ v = ground (arith, at) in
            let st : r.ref_struct ≡ t = ground arith in
            subst (Good (ref_type t)) is
              (subst (λ u. nodes.IsLive u r.address) st (live i r at), ref_ok t r.address)
      ]
    ]
  ]

  ok_or-some :
      (o : Option FieldType) (ft : FieldType) → ok_or other_format_error o ≡ ok ft → o ≡ some ft
  ok_or-some none ft e = cc
  ok_or-some (some x) ft e = cc

  and_then_ok :
      {A B : Type 0} (r : Result Message A) (f : A → Result Message B) (b : B)
      → and_then r f ≡ ok b
      → (a : A) × (r ≡ ok a) × (f a ≡ ok b)
  and_then_ok (ok a) f b e = (a, refl, e)
  and_then_ok (err m) f b e = cc

  mutual
    unfolding deserialize deserialize_each AllNodes AllNodesIn

    deserialize-Good :
        (ft : FieldType) (x : Wire) (v : Value) → deserialize (some refs) ft x ≡ ok v → Good ft v
    deserialize-Good number_type (uint n) v e =
        let is : number n ≡ v = cc in subst (Good number_type) is (tt, number_ok n)
    deserialize-Good string_type (str s) v e =
        let is : text s ≡ v = cc in subst (Good string_type) is (tt, text_ok s)
    deserialize-Good (option_type ft) none_wire v e =
        let is : absent ≡ v = cc in subst (Good (option_type ft)) is (tt, absent_ok ft)
    deserialize-Good (option_type ft) (some_wire x) v e =
        let (w, f, g) = and_then_ok (deserialize (some refs) ft x) (λ w. ok (present w)) v e in
        let (l, h) = deserialize-Good ft x w f in
        let is : present w ≡ v = cc in subst (Good (option_type ft)) is (l, present_ok h)
    deserialize-Good (vec_type ft) (seq xs) v e =
        let (ws, f, g) = and_then_ok (deserialize_each (some refs) ft xs) (λ ws. ok (vec ws)) v e in
        let (l, h) = deserialize_each-Good ft xs ws f in
        let is : vec ws ≡ v = cc in subst (Good (vec_type ft)) is (l, vec_ok h)
    deserialize-Good (enum_type fts) (newtype_variant i x) v e =
        let (ft, f, g) =
          and_then_ok (ok_or other_format_error (payload_type fts i))
            (λ ft. and_then (deserialize (some refs) ft x) λ w. ok (variant i w)) v e in
        let (w, f', g') = and_then_ok (deserialize (some refs) ft x) (λ w. ok (variant i w)) v g in
        let (l, h) = deserialize-Good ft x w f' in
        let is : variant i w ≡ v = cc in
        subst (Good (enum_type fts)) is
          (l, variant_ok i ft (ok_or-some (payload_type fts i) ft f) h)
    deserialize-Good (ref_type t) (uint i) v e = ref_Good t i v e
    deserialize-Good _ _ v e = cc

    deserialize_each-Good :
        (ft : FieldType) (xs : Wires) (vs : Values)
        → deserialize_each (some refs) ft xs ≡ ok vs
        → AllNodesIn nodes.IsLive vs × EachHasType ft vs
    deserialize_each-Good ft nil_wires vs e =
        let is : nil ≡ vs = cc in
        subst (λ z. AllNodesIn nodes.IsLive z × EachHasType ft z) is (tt, nil_ok ft)
    deserialize_each-Good ft (cons_wires x xs) vs e =
        let (w, f, g) =
          and_then_ok (deserialize (some refs) ft x)
            (λ w. and_then (deserialize_each (some refs) ft xs) λ ws. ok (cons w ws)) vs e in
        let (ws, f', g') =
          and_then_ok (deserialize_each (some refs) ft xs) (λ ws. ok (cons w ws)) vs g in
        let (l, h) = deserialize-Good ft x w f in
        let (ls, hs) = deserialize_each-Good ft xs ws f' in
        let is : cons w ws ≡ vs = cc in
        subst (λ z. AllNodesIn nodes.IsLive z × EachHasType ft z) is ((l, ls), cons_ok h hs)

  pub deserialize_fields-HasTypes :
      (fts : FieldTypes) (xs : Wires) (vs : Values)
      → deserialize_fields (some refs) fts xs ≡ ok vs
      → AllNodesIn nodes.IsLive vs × HasTypes fts vs
  unfolding deserialize_fields AllNodesIn
  deserialize_fields-HasTypes nil_types nil_wires vs e =
      let is : nil ≡ vs = cc in
      subst (λ z. AllNodesIn nodes.IsLive z × HasTypes nil_types z) is (tt, no_fields)
  deserialize_fields-HasTypes (cons_types ft fts) (cons_wires x xs) vs e =
      let (w, f, g) =
        and_then_ok (deserialize (some refs) ft x)
          (λ w. and_then (deserialize_fields (some refs) fts xs) λ ws. ok (cons w ws)) vs e in
      let (ws, f', g') =
        and_then_ok (deserialize_fields (some refs) fts xs) (λ ws. ok (cons w ws)) vs g in
      let (l, h) = deserialize-Good ft x w f in
      let (ls, hs) = deserialize_fields-HasTypes fts xs ws f' in
      let is : cons w ws ≡ vs = cc in
      subst (λ z. AllNodesIn nodes.IsLive z × HasTypes (cons_types ft fts) z) is
        ((l, ls), field_ok h hs)
  deserialize_fields-HasTypes _ _ vs e = cc
