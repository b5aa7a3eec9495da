-- ===== src/Serialize/Hashconsed.antt =====
-- The interning of hirpdag/src/base/reference.rs as the interner of serialization. The tables of the
-- struct types are taken as one, over the data with their struct types.
use hirpdag.Base.{
  ℕ, suc, ◌+◌, ◌<◌, ◌^◌, ◌≡◌, refl, sym, ◌∙◌, ap, true, Option, none, some, arith, Returns, ◌⊎◌,
  inl, inr, Bool-cases, ◌==◌,
}
use mathlib.Core.Path.{subst}
use hirpdag.Hashcons.{storage_key, storage_hasher, hirpdag_hashcons}
use hirpdag.Hashcons.Created.{existing, created, hirpdag_hashcons-Consed}
use hirpdag.Hashcons.Numbered.{IsHashconsed, hashconsed, here, next, Calls-IsHashconsed}
use hirpdag.Key.{Key, Hasher}
use hirpdag.Meta.{HirpdagMeta}
use hirpdag.Ref.{Heap, new, strong_deref}
use hirpdag.Ref.Laws.{Live, retain, strong_deref-retain, strong_deref-new}
use hirpdag.Serialize.Archive.{Interner, Keeps}
use hirpdag.Serialize.Collect.{HirpdagArchiveNode}
use hirpdag.Serialize.Nodes.{IsDag, AllNodesIn, map-AllNodesIn}
use hirpdag.Serialize.Typed.{HasTypes}
use hirpdag.Serialize.Wire.{FieldTypes}
use hirpdag.Table.Canonical.{World}
use hirpdag.Table.Canonical.Interned.{IsInterned-unique}
use hirpdag.Table.Shared.{Table}
use hirpdag.Value.{Values}
use hirpdag.Serialize.Closed.{
  Stored, id_of, fields_of, LiveNode, heap_nodes, IsClosed, retain-IsClosed, new-IsClosed,
}

module _ (schema : ℕ → FieldTypes) ⦃key : Key HirpdagArchiveNode⦄
    (hasher : Hasher HirpdagArchiveNode key) {TS : Type 0}
    (ops : Table Stored ℕ storage_key (storage_hasher hasher) TS)
    (compute : HirpdagArchiveNode → HirpdagMeta)
    (equal_eq : (a b : HirpdagArchiveNode) → key.equal a b ≡ true → a ≡ b) where
  abbrev pub St : Type 0
  St = World TS Stored ℕ

  pub record Ready (n : ℕ) (w : St) : Type 0 where
    pub hashconsed_nodes : IsHashconsed hasher ops w
    pub closed : IsClosed w.heap
    pub well_typed :
        (p : ℕ) (s : Stored)
        → Live w.heap p s
        → HasTypes (schema s.hirpdag_data.struct_type) s.hirpdag_data.data_fields
    pub room : w.state + n < 2 ^ 64

  unfoldable pub intern : ℕ → Values → St → Option (ℕ × St)
  intern t vs w =
      elim (hirpdag_hashcons hasher ops w.table compute
        (record { struct_type = t; data_fields = vs }) w.heap w.state) [
          | none ↦ none
          | some (p, table, heap, counter) ↦
              some (p, record { table = table; heap = heap; state = counter })
        ]

  pub Ready-fewer : (n : ℕ) (w : St) → Ready (suc n) w → Ready n w
  Ready-fewer n w r = record {
    hashconsed_nodes = r.hashconsed_nodes;
    closed = r.closed;
    well_typed = r.well_typed;
    room = omega (arith, r.room);
  }

  pub ready-HasTypes :
      (n t p : ℕ) (w : St)
      → Ready n w
      → LiveNode w.heap t p
      → HasTypes (schema t) (fields_of (strong_deref w.heap p))
  ready-HasTypes n t p w r (s, l, e) =
      rw l (subst (λ u. HasTypes (schema u) s.hirpdag_data.data_fields) e (r.well_typed p s l))

  pub ready-IsDag : (n : ℕ) (w : St) → Ready n w → IsDag (heap_nodes w.heap)
  ready-IsDag n w r = record {
    below = λ t p (s, l, e). rw l (r.closed.older p s l);
    distinct = λ t p u q (s, l, e) (x, m, f) same.
        let ids : s.hirpdag_creation_id ≡ x.hirpdag_creation_id =
          ap id_of (sym l) ∙ same ∙ ap id_of m in
        let eq : p ≡ q = r.hashconsed_nodes.numbered.distinct p q s x l m ids in
        let one : s ≡ x = cc in (cc, eq);
  }

  -- Live nodes of one type with the same fields are one node.
  pub Ready-unique :
      (n t p q : ℕ) (w : St)
      → Ready n w
      → LiveNode w.heap t p
      → LiveNode w.heap t q
      → fields_of (strong_deref w.heap p) ≡ fields_of (strong_deref w.heap q)
      → p ≡ q
  Ready-unique n t p q w r (s, l, e) (x, m, f) same =
      let fields : s.hirpdag_data.data_fields ≡ x.hirpdag_data.data_fields =
        ap fields_of (sym l) ∙ same ∙ ap fields_of m in
      let types : s.hirpdag_data.struct_type ≡ x.hirpdag_data.struct_type = e ∙ sym f in
      let content : s.hirpdag_data ≡ x.hirpdag_data =
        λ i. record { struct_type = types i; data_fields = fields i } in
      IsInterned-unique ops w p q s x r.hashconsed_nodes.canonical r.hashconsed_nodes.interned_nodes
        l m (subst (λ d. key.equal s.hirpdag_data d ≡ true) content (key.equal_refl s.hirpdag_data))

  -- what interning leaves of a world that is ready for one more node
  abbrev pub Interned : ℕ → ℕ → Values → St → ℕ × St → Type 0
  Interned n t vs w r =
      Ready n r.1
      × LiveNode r.1.heap t r.0
      × (fields_of (strong_deref r.1.heap r.0) ≡ vs)
      × Keeps (heap_nodes w.heap) (heap_nodes r.1.heap)

  intern_run :
      (t : ℕ) (vs : Values) (w : St) (r : ℕ × TS × Heap Stored × ℕ)
      → hirpdag_hashcons hasher ops w.table compute
          (record { struct_type = t; data_fields = vs })
          w.heap
          w.state
        ≡ some r
      → intern t vs w ≡ some (r.0, record { table = r.1; heap = r.2; state = r.3 })
  unfolding intern
  intern_run t vs w r e = rw (intern, e) refl

  Interned-at :
      (n t : ℕ) (vs : Values) (w u : St) (p : ℕ) (h : Heap Stored) (s : Stored)
      → h ≡ u.heap
      → IsHashconsed hasher ops u
      → u.state + n < 2 ^ 64
      → IsClosed h
      → Keeps (heap_nodes w.heap) (heap_nodes h)
      → ((q : ℕ) (x : Stored)
          → Live h q x
          → Live w.heap q x ⊎ (x.hirpdag_data ≡ record { struct_type = t; data_fields = vs }))
      → Ready (suc n) w
      → HasTypes (schema t) vs
      → Live h p s
      → s.hirpdag_data ≡ record { struct_type = t; data_fields = vs }
      → Interned n t vs w (p, u)
  Interned-at n t vs w u p h s eq c room closed keeps only ready typed l content =
      let live : Live u.heap p s = subst (λ g. Live g p s) eq l in
      (
        record {
          hashconsed_nodes = c;
          closed = subst IsClosed eq closed;
          room = room;
          well_typed = λ q x m. elim (only q x (subst (λ g. Live g q x) (sym eq) m)) [
            | inl old ↦ ready.well_typed q x old
            | inr is ↦ rw is typed
          ];
        },
        (s, live, ap (λ d. d.struct_type) content),
        ap fields_of live ∙ ap (λ d. d.data_fields) content,
        subst (λ g. Keeps (heap_nodes w.heap) (heap_nodes g)) eq keeps,
      )

  -- In a world that is ready for one more node, interning fields of their types, with handles to live
  -- nodes, does not panic: it returns a live node that has the fields, loses no node, and leaves the
  -- world ready, with handles that point to older live nodes.
  pub intern-Interned :
      (n t : ℕ) (vs : Values) (w : St)
      → Ready (suc n) w
      → AllNodesIn (LiveNode w.heap) vs
      → HasTypes (schema t) vs
      → Returns (intern t vs w) (Interned n t vs w)
  intern-Interned n t vs w ready live typed =
      let entry : HirpdagArchiveNode = record { struct_type = t; data_fields = vs } in
      let c = ready.hashconsed_nodes in
      let (r, run, post) = hirpdag_hashcons-Consed hasher ops w compute entry c.canonical in
      let u : St = record { table = r.1; heap = r.2; state = r.3 } in
      let c' : IsHashconsed hasher ops u =
        Calls-IsHashconsed hasher ops w u c
          (next here (hashconsed compute entry r.0 (omega (arith, ready.room)) run)) in
      (
        (r.0, u),
        intern_run t vs w r run,
        elim post [
          | existing p s e l same eq ↦
              let d : s.hirpdag_data ≡ entry = equal_eq s.hirpdag_data entry same in
              let (closed, keeps) = retain-IsClosed w.heap p s l ready.closed in
              let still : Live (retain p w.heap) p s =
                strong_deref-retain w.heap p p (λ z. cc) ∙ l in
              Interned-at n t vs w u r.0 (retain p w.heap) s (ground arith) c'
                (ground (arith, ready.room)) closed keeps
                (λ q x m. inl (sym (strong_deref-retain w.heap p q (λ z. cc)) ∙ m)) ready typed
                (subst (λ q. Live (retain p w.heap) q s) (ground arith) still) d
          | created table s absent grows meta id content eq ↦
              let below : AllNodesIn
                  (λ x q.
                    LiveNode w.heap x q × (id_of (strong_deref w.heap q) < s.hirpdag_creation_id))
                  s.hirpdag_data.data_fields =
                rw content (
                  map-AllNodesIn vs
                    (λ x q (y, ly, ty).
                      ((y, ly, ty), rw ly (omega (arith, c.numbered.below q y ly, id))))
                    live) in
              let (closed, keeps, at) = new-IsClosed w.heap s below ready.closed in
              Interned-at n t vs w u r.0 (new s w.heap).1 s (ground arith) c'
                (ground (arith, ready.room)) closed keeps
                (λ q x m. elim (Bool-cases (w.heap.next == q)) [
                  | inl same ↦
                      let is : s ≡ x = ground (arith, strong_deref-new s w.heap q) in
                      inr (rw (← is) content)
                  | inr other ↦ inl (ground (arith, strong_deref-new s w.heap q))
                ])
                ready typed (subst (λ q. Live (new s w.heap).1 q s) (ground arith) at) content
        ],
      )

  -- The interner of a module whose nodes are interned by `hirpdag_hashcons`.
  abbrev pub interner : Interner schema St
  interner = record {
    view = λ w. heap_nodes w.heap;
    Valid = Ready;
    valid_fewer = Ready-fewer;
    valid-IsDag = ready-IsDag;
    valid-HasTypes = ready-HasTypes;
    valid_unique = Ready-unique;
    hirpdag_hashcons = intern;
    hashcons_lem = intern-Interned;
  }
