-- ===== src/Serialize/ReadBack.antt =====
-- Reading back what was written for a value.
use hirpdag.Base.{
  ℕ, ◌<◌, ◌≤◌, ◌≡◌, refl, true, false, some, List, length, get_elem?, arith, ok, leb, ◌==◌,
  Succeeds,
}
use hirpdag.Base.HashMap
use hirpdag.Serialize.Collected.{IndexBelow}
use hirpdag.Serialize.Nodes.{
  Nodes, AllNodes, AllNodesIn, Tree, Trees, Denotes, DenoteAll, number_denotes, text_denotes,
  absent_denotes, present_denotes, vec_denotes, variant_denotes, node_denotes, nil_denotes,
  cons_denotes,
}
use hirpdag.Serialize.Typed.{
  HasType, EachHasType, HasTypes, number_ok, text_ok, absent_ok, present_ok, vec_ok, variant_ok,
  ref_ok, nil_ok, cons_ok, no_fields, field_ok,
}
use hirpdag.Serialize.Wire.{
  FieldType, FieldTypes, HirpdagNodeRef, deserialize, deserialize_each, deserialize_fields,
  deserialize_ref, ref_of_type,
}
use hirpdag.Serialize.Written.{index_of-lookup, wire_of, wires_of}
use hirpdag.Value.{Value, Values, number, text, absent, present, vec, variant, node, nil, cons}

deserialize_ref_lem :
    (refs : List HirpdagNodeRef) (t i p : ℕ)
    → i < length refs
    → get_elem? refs i ≡ some (record { ref_struct = t; address = p })
    → deserialize_ref (some refs) t i ≡ ok (node t p)
unfolding deserialize_ref ref_of_type
deserialize_ref_lem refs t i p l e =
    let b : leb (length refs) i ≡ false = ground arith in
    let c : t == t ≡ true = ground arith in rw (b, e, ref_of_type, c) refl

module _ (nodes : Nodes) (seen : List (ℕ × ℕ)) (other : Nodes) (refs : List HirpdagNodeRef) where
  -- The nodes that are there already stand for the same trees as those with their indices.
  abbrev pub Matches : Type 0
  Matches =
      (u q i : ℕ) (a : Tree)
      → HashMap.lookup (nodes.creation_id u q) seen ≡ some i
      → i < length refs
      → Denotes nodes (node u q) a
      → (p : ℕ) × (get_elem? refs i ≡ some (record { ref_struct = u; address = p }))
        × Denotes other (node u p) a

  module _ (k : ℕ) (le : k ≤ length refs) (matches : Matches) where
    mutual
      unfolding deserialize deserialize_each wire_of wires_of AllNodes AllNodesIn

      pub deserialize-wire_of :
          {ft : FieldType} {v : Value} {a : Tree}
          → HasType ft v
          → Denotes nodes v a
          → AllNodes (IndexBelow nodes seen k) v
          → Succeeds
              (deserialize (some refs) ft (wire_of nodes seen v))
              (λ v'. Denotes other v' a × HasType ft v')
      deserialize-wire_of (number_ok n) (number_denotes n') h =
          (number n, refl, (number_denotes n, number_ok n))
      deserialize-wire_of (text_ok s) (text_denotes s') h =
          (text s, refl, (text_denotes s, text_ok s))
      deserialize-wire_of (absent_ok ft) absent_denotes h =
          (absent, refl, (absent_denotes, absent_ok ft))
      deserialize-wire_of (present_ok w) (present_denotes d) h =
          let (v', e, (d', w')) = deserialize-wire_of w d h in
          (present v', rw e refl, (present_denotes d', present_ok w'))
      deserialize-wire_of (vec_ok w) (vec_denotes d) h =
          let (vs', e, (d', w')) = deserialize_each-wires_of w d h in
          (vec vs', rw e refl, (vec_denotes d', vec_ok w'))
      deserialize-wire_of (variant_ok i ft same w) (variant_denotes j d) h =
          let (v', e, (d', w')) = deserialize-wire_of w d h in
          (variant i v', rw (same, e) refl, (variant_denotes i d', variant_ok i ft same w'))
      deserialize-wire_of (ref_ok t p) (node_denotes u q l ds) (i, e, below) =
          let (p', at, d') = matches t p i _ e (omega arith) (node_denotes t p l ds) in
          (
            node t p',
            rw (index_of-lookup nodes seen (nodes.creation_id t p) i e)
                (deserialize_ref_lem refs t i p' (omega arith) at),
            (d', ref_ok t p'),
          )

      deserialize_each-wires_of :
          {ft : FieldType} {vs : Values} {ts : Trees}
          → EachHasType ft vs
          → DenoteAll nodes vs ts
          → AllNodesIn (IndexBelow nodes seen k) vs
          → Succeeds
              (deserialize_each (some refs) ft (wires_of nodes seen vs))
              (λ vs'. DenoteAll other vs' ts × EachHasType ft vs')
      deserialize_each-wires_of (nil_ok ft) nil_denotes h = (nil, refl, (nil_denotes, nil_ok ft))
      deserialize_each-wires_of (cons_ok w ws) (cons_denotes d ds) h =
          let (v', e, (d', w')) = deserialize-wire_of w d h.0 in
          let (vs', f, (ds', ws')) = deserialize_each-wires_of ws ds h.1 in
          (cons v' vs', rw (e, f) refl, (cons_denotes d' ds', cons_ok w' ws'))

    pub deserialize_fields-wires_of :
        {fts : FieldTypes} {vs : Values} {ts : Trees}
        → HasTypes fts vs
        → DenoteAll nodes vs ts
        → AllNodesIn (IndexBelow nodes seen k) vs
        → Succeeds
            (deserialize_fields (some refs) fts (wires_of nodes seen vs))
            (λ vs'. DenoteAll other vs' ts × HasTypes fts vs')
    unfolding deserialize_fields wires_of AllNodesIn
    deserialize_fields-wires_of no_fields nil_denotes h = (nil, refl, (nil_denotes, no_fields))
    deserialize_fields-wires_of (field_ok w ws) (cons_denotes d ds) h =
        let (v', e, (d', w')) = deserialize-wire_of w d h.0 in
        let (vs', f, (ds', ws')) = deserialize_fields-wires_of ws ds h.1 in
        (cons v' vs', rw (e, f) refl, (cons_denotes d' ds', field_ok w' ws'))
