-- ===== src/Serialize/Closed.antt =====
-- The nodes of one heap as serialization sees them, and how a clone and a new node change them.
use hirpdag.Base.{
  ℕ, ◌<◌, ◌≡◌, refl, sym, ◌∙◌, Option, none, some, arith, inl, inr, Bool-cases, ◌==◌,
}
use mathlib.Core.Path.{subst}
use hirpdag.Hashcons.{HirpdagStorage, storage_key}
use hirpdag.Ref.{Heap, new, strong_deref}
use hirpdag.Ref.Laws.{Live, retain, strong_deref-retain, next-retain, strong_deref-new, next-new}
use hirpdag.Serialize.Archive.{Keeps}
use hirpdag.Serialize.Collect.{HirpdagArchiveNode}
use hirpdag.Serialize.Nodes.{Nodes, AllNodesIn, map-AllNodesIn}
use hirpdag.Value.{Values, nil}

abbrev pub Stored : Type 0
Stored = HirpdagStorage HirpdagArchiveNode

abbrev pub id_of : Option Stored → ℕ
id_of none = 0
id_of (some s) = s.hirpdag_creation_id

abbrev pub fields_of : Option Stored → Values
fields_of none = nil
fields_of (some s) = s.hirpdag_data.data_fields

abbrev pub LiveNode : Heap Stored → ℕ → ℕ → Type 0
LiveNode h t p = (s : Stored) × Live h p s × (s.hirpdag_data.struct_type ≡ t)

abbrev pub heap_nodes : Heap Stored → Nodes
heap_nodes h = record {
  IsLive = LiveNode h;
  creation_id = λ t p. id_of (strong_deref h p);
  fields = λ t p. fields_of (strong_deref h p);
}

-- The handles of a live node point to live nodes that were made before it.
pub record IsClosed (h : Heap Stored) : Type 0 where
  pub addresses : (p : ℕ) (s : Stored) → Live h p s → p < h.next
  pub older :
      (p : ℕ) (s : Stored)
      → Live h p s
      → AllNodesIn
          (λ u q. LiveNode h u q × (id_of (strong_deref h q) < s.hirpdag_creation_id))
          s.hirpdag_data.data_fields

pub retain-IsClosed :
    (h : Heap Stored) (p : ℕ) (s : Stored)
    → Live h p s
    → IsClosed h
    → IsClosed (retain p h) × Keeps (heap_nodes h) (heap_nodes (retain p h))
retain-IsClosed h p s l c =
    let same = λ (q : ℕ). strong_deref-retain h p q (λ z. cc) in
    (
      record {
        addresses = λ q x m. omega (arith, c.addresses q x (sym (same q) ∙ m), next-retain h p);
        older = λ q x m.
            map-AllNodesIn x.hirpdag_data.data_fields
              (λ u k ((y, ly, ty), lt). ((y, same k ∙ ly, ty), rw (same k) lt))
              (c.older q x (sym (same q) ∙ m));
      },
      record {
        still_live = λ t q (x, m, e). (x, same q ∙ m, e);
        same_fields = λ t q m. rw (same q) refl;
      },
    )

pub new-IsClosed :
    (h : Heap Stored) (s : Stored)
    → AllNodesIn
        (λ u q. LiveNode h u q × (id_of (strong_deref h q) < s.hirpdag_creation_id))
        s.hirpdag_data.data_fields
    → IsClosed h
    → IsClosed (new s h).1
      × Keeps (heap_nodes h) (heap_nodes (new s h).1)
      × (strong_deref (new s h).1 h.next ≡ some s)
new-IsClosed h s below c =
    let at = λ (q : ℕ). strong_deref-new s h q in
    let old : (q : ℕ) (x : Stored) → Live h q x → strong_deref (new s h).1 q ≡ strong_deref h q =
      λ q x m. ground (arith, at q, c.addresses q x m) in
    let here_now : strong_deref (new s h).1 h.next ≡ some s = ground (arith, at h.next) in
    let child : (bound u q : ℕ)
        → LiveNode h u q × (id_of (strong_deref h q) < bound)
        → LiveNode (new s h).1 u q × (id_of (strong_deref (new s h).1 q) < bound) =
      λ bound u q ((y, ly, ty), lt). ((y, old q y ly ∙ ly, ty), rw (old q y ly) lt) in
    (
      record {
        addresses = λ q x m. elim (Bool-cases (h.next == q)) [
          | inl same ↦ ground (arith, next-new s h)
          | inr other ↦ ground (arith, at q, c.addresses q x, next-new s h)
        ];
        older = λ q x m. elim (Bool-cases (h.next == q)) [
          | inl same ↦
              let eq : s ≡ x = ground (arith, at q) in
              subst
                (λ z.
                  AllNodesIn
                    (λ u k.
                      LiveNode (new s h).1 u k
                      × (id_of (strong_deref (new s h).1 k) < z.hirpdag_creation_id))
                    z.hirpdag_data.data_fields)
                eq (map-AllNodesIn s.hirpdag_data.data_fields (child s.hirpdag_creation_id) below)
          | inr other ↦
              map-AllNodesIn x.hirpdag_data.data_fields (child x.hirpdag_creation_id)
                (c.older q x (ground (arith, at q)))
        ];
      },
      record {
        still_live = λ t q (x, m, e). (x, old q x m ∙ m, e);
        same_fields = λ t q (x, m, e). rw (old q x m) refl;
      },
      here_now,
    )
