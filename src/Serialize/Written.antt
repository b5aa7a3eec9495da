-- ===== src/Serialize/Written.antt =====
-- What a collected value is written as.
use hirpdag.Base.{ℕ, ◌≡◌, refl, sym, ◌∙◌, ap, none, some, List, ok}
use hirpdag.Base.HashMap
use hirpdag.Serialize.Collected.{IndexBelow}
use hirpdag.Serialize.Nodes.{Nodes, AllNodes, AllNodesIn}
use hirpdag.Serialize.Wire.{
  Wire, Wires, uint, str, none_wire, some_wire, seq, newtype_variant, nil_wires, cons_wires,
  serialize, serialize_each, serialize_ref,
}
use hirpdag.Value.{Value, Values, number, text, absent, present, vec, variant, node, nil, cons}

unfoldable pub index_of : List (ℕ × ℕ) → ℕ → ℕ
index_of seen a = elim (HashMap.lookup a seen) [ none ↦ 0 | some i ↦ i ]

module _ (nodes : Nodes) (seen : List (ℕ × ℕ)) where
  unfoldable mutual
    unfolding index_of

    pub wire_of : Value → Wire
    wire_of (number n) = uint n
    wire_of (text s) = str s
    wire_of absent = none_wire
    wire_of (present v) = some_wire (wire_of v)
    wire_of (vec vs) = seq (wires_of vs)
    wire_of (variant i v) = newtype_variant i (wire_of v)
    wire_of (node t p) = uint (index_of seen (nodes.creation_id t p))

    pub wires_of : Values → Wires
    wires_of nil = nil_wires
    wires_of (cons v vs) = cons_wires (wire_of v) (wires_of vs)

  pub index_of-lookup : (a i : ℕ) → HashMap.lookup a seen ≡ some i → index_of seen a ≡ i
  unfolding index_of
  index_of-lookup a i e = rw (index_of, e) refl

  serialize_ref-lookup :
      (a i : ℕ) → HashMap.lookup a seen ≡ some i → serialize_ref (some seen) a ≡ ok (uint i)
  unfolding serialize_ref
  serialize_ref-lookup a i e = rw (serialize_ref, e) refl

  module _ (k : ℕ) where
    mutual
      unfolding serialize serialize_each wire_of wires_of AllNodes AllNodesIn

      pub serialize-wire_of :
          (v : Value)
          → AllNodes (IndexBelow nodes seen k) v
          → serialize nodes.creation_id (some seen) v ≡ ok (wire_of v)
      serialize-wire_of (number n) h = refl
      serialize-wire_of (text s) h = refl
      serialize-wire_of absent h = refl
      serialize-wire_of (present v) h = rw (serialize-wire_of v h) refl
      serialize-wire_of (vec vs) h = rw (serialize_each-wires_of vs h) refl
      serialize-wire_of (variant i v) h = rw (serialize-wire_of v h) refl
      serialize-wire_of (node t p) (i, e, l) =
          serialize_ref-lookup (nodes.creation_id t p) i e
          ∙ ap (λ j. ok (uint j)) (sym (index_of-lookup (nodes.creation_id t p) i e))

      pub serialize_each-wires_of :
          (vs : Values)
          → AllNodesIn (IndexBelow nodes seen k) vs
          → serialize_each nodes.creation_id (some seen) vs ≡ ok (wires_of vs)
      serialize_each-wires_of nil h = refl
      serialize_each-wires_of (cons v vs) h =
          rw (serialize-wire_of v h.0, serialize_each-wires_of vs h.1) refl
