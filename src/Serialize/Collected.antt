-- ===== src/Serialize/Collected.antt =====
-- What the collect phase leaves: each node that is reached has one entry in the node table, behind
-- the entries of the nodes that it points to.
use hirpdag.Base.{
  ℕ, zero, suc, ◌+◌, ◌<◌, ◌≤◌, ◌≡◌, refl, false, none, some, List, [], ◌∷◌, ◌++◌, length, get_elem?,
  arith, ◌⊎◌, inl, inr, ap, sym, ◌∙◌, get_elem?-lt, Returns, length-append, ◌==◌, Bool-cases,
}
use hirpdag.Base.HashMap
use hirpdag.Serialize.Nodes.{Nodes, AllNodes, AllNodesIn, map-AllNodes, map-AllNodesIn}
use hirpdag.Serialize.Collect.{
  HirpdagArchiveNode, HirpdagCollectCtx, Visit, collect, collect_each, push_node,
}
use hirpdag.Value.{Value, Values, number, text, absent, present, vec, variant, node, nil, cons}

pub get_elem?-append_left {ℓ} :
    {A : Type ℓ} (xs ys : List A) (i : ℕ) → i < length xs → get_elem? (xs ++ ys) i ≡ get_elem? xs i
get_elem?-append_left [] ys i h = elim h [ ]
get_elem?-append_left (x ∷ xs) ys zero h = refl
get_elem?-append_left (x ∷ xs) ys (suc i) h = get_elem?-append_left xs ys i (omega arith)

pub get_elem?-append_end {ℓ} :
    {A : Type ℓ} (xs : List A) (y : A) → get_elem? (xs ++ y ∷ []) (length xs) ≡ some y
get_elem?-append_end [] y = refl
get_elem?-append_end (x ∷ xs) y = get_elem?-append_end xs y

collect_each_cons :
    (visit : Visit) (x : Value) (xs : Values) (ctx ctx' : HirpdagCollectCtx)
    → collect visit x ctx ≡ some ctx'
    → collect_each visit (cons x xs) ctx ≡ collect_each visit xs ctx'
unfolding collect collect_each
collect_each_cons visit x xs ctx ctx' e =
    ap (λ o. elim o [ none ↦ none | some c ↦ collect_each visit xs c ]) e

module _ (nodes : Nodes) where
  -- The handle's node has an index below `k`.
  abbrev pub IndexBelow : List (ℕ × ℕ) → ℕ → ℕ → ℕ → Type 0
  IndexBelow seen k u q = (i : ℕ) × (HashMap.lookup (nodes.creation_id u q) seen ≡ some i) × (i < k)

  abbrev pub entry_of : ℕ → ℕ → HirpdagArchiveNode
  entry_of t p = record { struct_type = t; data_fields = nodes.fields t p }

  -- The index map numbers the entries, each of which is a live node's; and an entry's handles have
  -- smaller indices than it.
  pub record IsCollected (seen : List (ℕ × ℕ)) (entries : List HirpdagArchiveNode) : Type 0 where
    pub indexed :
        (a i : ℕ)
        → HashMap.lookup a seen ≡ some i
        → (t : ℕ) × (p : ℕ) × nodes.IsLive t p
          × (nodes.creation_id t p ≡ a)
          × (get_elem? entries i ≡ some (entry_of t p))
          × (i < length entries)
    pub named : (i : ℕ) → i < length entries → (a : ℕ) × (HashMap.lookup a seen ≡ some i)
    pub single :
        (a b i : ℕ) → HashMap.lookup a seen ≡ some i → HashMap.lookup b seen ≡ some i → a ≡ b
    pub children_first :
        (i : ℕ) (e : HirpdagArchiveNode)
        → get_elem? entries i ≡ some e
        → AllNodesIn (IndexBelow seen i) e.data_fields

  -- The collect phase has gone on from `ctx` to `ctx'`, below the creation id `bound`.
  pub record Grows (bound : ℕ) (ctx ctx' : HirpdagCollectCtx) : Type 0 where
    pub valid : IsCollected ctx'.seen ctx'.nodes
    pub keeps : (a i : ℕ) → HashMap.lookup a ctx.seen ≡ some i → HashMap.lookup a ctx'.seen ≡ some i
    pub only_below :
        (a i : ℕ)
        → HashMap.lookup a ctx'.seen ≡ some i
        → (HashMap.lookup a ctx.seen ≡ some i) ⊎ (a < bound)

  abbrev pub IsSeen : HirpdagCollectCtx → ℕ → ℕ → Type 0
  IsSeen ctx u q = IndexBelow ctx.seen (length ctx.nodes) u q

  abbrev pub Child : ℕ → ℕ → ℕ → Type 0
  Child bound u q = nodes.IsLive u q × (nodes.creation_id u q < bound)

  -- What a visit of a handle does, if its creation id is below the fuel.
  abbrev pub Visits : ℕ → Visit → Type 0
  Visits fuel visit =
      (t p : ℕ) (ctx : HirpdagCollectCtx)
      → nodes.IsLive t p
      → nodes.creation_id t p < fuel
      → IsCollected ctx.seen ctx.nodes
      → Returns (visit t p ctx)
          (λ ctx'. Grows (nodes.creation_id t p + 1) ctx ctx' × IsSeen ctx' t p)

  pub Grows-refl :
      (bound : ℕ) (ctx : HirpdagCollectCtx) → IsCollected ctx.seen ctx.nodes → Grows bound ctx ctx
  Grows-refl bound ctx k = record { valid = k; keeps = λ a i e. e; only_below = λ a i e. inl e }

  pub Grows-trans :
      (b c : ℕ) (x y z : HirpdagCollectCtx) → b ≤ c → Grows b x y → Grows c y z → Grows c x z
  Grows-trans b c x y z h f g = record {
    valid = g.valid;
    keeps = λ a i e. g.keeps a i (f.keeps a i e);
    only_below = λ a i e. elim (g.only_below a i e) [
      | inl old ↦ elim (f.only_below a i old) [ inl e ↦ inl e | inr l ↦ inr (omega arith) ]
      | inr l ↦ inr l
    ];
  }

  Grows-IsSeen :
      (b : ℕ) (x y : HirpdagCollectCtx) → Grows b x y → (u q : ℕ) → IsSeen x u q → IsSeen y u q
  Grows-IsSeen b x y g u q (i, e, h) =
      let f = g.keeps (nodes.creation_id u q) i e in
      let (t, p, l, same, at, below) = g.valid.indexed (nodes.creation_id u q) i f in (i, f, below)

  module _ (fuel : ℕ) (visit : Visit) (v : Visits fuel visit) (bound : ℕ) (le : bound ≤ fuel) where
    mutual
      unfolding collect collect_each AllNodes AllNodesIn

      collect-Grows :
          (x : Value) (ctx : HirpdagCollectCtx)
          → AllNodes (Child bound) x
          → IsCollected ctx.seen ctx.nodes
          → Returns (collect visit x ctx) (λ ctx'. Grows bound ctx ctx' × AllNodes (IsSeen ctx') x)
      collect-Grows (number n) ctx h k = (ctx, refl, (Grows-refl bound ctx k, tt))
      collect-Grows (text s) ctx h k = (ctx, refl, (Grows-refl bound ctx k, tt))
      collect-Grows absent ctx h k = (ctx, refl, (Grows-refl bound ctx k, tt))
      collect-Grows (present x) ctx h k = collect-Grows x ctx h k
      collect-Grows (vec xs) ctx h k = collect_each-Grows xs ctx h k
      collect-Grows (variant i x) ctx h k = collect-Grows x ctx h k
      collect-Grows (node t p) ctx h k =
          let (ctx', run, (g, s)) = v t p ctx h.0 (omega arith) k in
          (
            ctx',
            run,
            (
              Grows-trans (nodes.creation_id t p + 1) bound ctx ctx' ctx' (omega arith) g
                  (Grows-refl bound ctx' g.valid),
              s,
            ),
          )

      pub collect_each-Grows :
          (xs : Values) (ctx : HirpdagCollectCtx)
          → AllNodesIn (Child bound) xs
          → IsCollected ctx.seen ctx.nodes
          → Returns
              (collect_each visit xs ctx)
              (λ ctx'. Grows bound ctx ctx' × AllNodesIn (IsSeen ctx') xs)
      collect_each-Grows nil ctx h k = (ctx, refl, (Grows-refl bound ctx k, tt))
      collect_each-Grows (cons x xs) ctx h k =
          let (ctx1, run1, (g1, s1)) = collect-Grows x ctx h.0 k in
          let (ctx2, run2, (g2, s2)) = collect_each-Grows xs ctx1 h.1 g1.valid in
          (
            ctx2,
            collect_each_cons visit x xs ctx ctx1 run1 ∙ run2,
            (
              Grows-trans bound bound ctx ctx1 ctx2 (omega arith) g1 g2,
              (map-AllNodes x (Grows-IsSeen bound ctx1 ctx2 g2) s1, s2),
            ),
          )

  seen_cases :
      (id n a i : ℕ) (seen : List (ℕ × ℕ))
      → HashMap.lookup a (HashMap.insert id n seen) ≡ some i
      → ((a ≡ id) × (i ≡ n)) ⊎ ((HashMap.lookup a seen ≡ some i) × ((id == a) ≡ false))
  seen_cases id n a i seen e =
      let look = HashMap.lookup-insert id a n seen in
      elim (Bool-cases (id == a)) [
        | inl same ↦ inl (ground (arith, look), ground (arith, look))
        | inr other ↦ inr (ground (arith, look), other)
      ]

  module _ (t p : ℕ) (ctx : HirpdagCollectCtx) (k : IsCollected ctx.seen ctx.nodes)
      (new : HashMap.lookup (nodes.creation_id t p) ctx.seen ≡ none) where
    abbrev pub pushed : HirpdagCollectCtx
    pushed = push_node (nodes.creation_id t p) (entry_of t p) ctx

    pushed_keeps :
        (a i : ℕ) → HashMap.lookup a ctx.seen ≡ some i → HashMap.lookup a pushed.seen ≡ some i
    unfolding push_node
    pushed_keeps a i e =
        ground (arith, HashMap.lookup-insert (nodes.creation_id t p) a (length ctx.nodes) ctx.seen)

    -- the entries of the larger table: the last one, and those that were there
    entry_cases :
        (i : ℕ) (e : HirpdagArchiveNode)
        → get_elem? pushed.nodes i ≡ some e
        → ((i ≡ length ctx.nodes) × (e ≡ entry_of t p)) ⊎ (get_elem? ctx.nodes i ≡ some e)
    unfolding push_node
    entry_cases i e f =
        let last = get_elem?-append_end ctx.nodes (entry_of t p) in
        let below = get_elem?-lt pushed.nodes i e f in
        let long = length-append ctx.nodes (entry_of t p ∷ []) in
        elim (Bool-cases (i == length ctx.nodes)) [
          | inl same ↦ let eq : i ≡ length ctx.nodes = ground arith in inl (eq, cc)
          | inr other ↦
              let left = get_elem?-append_left ctx.nodes (entry_of t p ∷ []) i (ground arith) in
              inr cc
        ]

    pushed-IsCollected :
        nodes.IsLive t p
        → AllNodesIn (IsSeen ctx) (nodes.fields t p)
        → IsCollected pushed.seen pushed.nodes
    unfolding push_node
    pushed-IsCollected l s =
        let id = nodes.creation_id t p in
        let n = length ctx.nodes in
        let cases = λ (a i : ℕ). seen_cases id n a i ctx.seen in
        let long = length-append ctx.nodes (entry_of t p ∷ []) in
        record {
          indexed = λ a i e. elim (cases a i e) [
            | inl (same, at) ↦
                let last = get_elem?-append_end ctx.nodes (entry_of t p) in
                (t, p, l, sym same, rw at last, omega arith)
            | inr (old, other) ↦
                let (u, q, m, f, at, below) = k.indexed a i old in
                let left = get_elem?-append_left ctx.nodes (entry_of t p ∷ []) i below in
                (u, q, m, f, left ∙ at, omega arith)
          ];
          named = λ i h. elim (Bool-cases (i == n)) [
            | inl same ↦ (id, ground (arith, HashMap.lookup-insert id id n ctx.seen))
            | inr other ↦ let (a, e) = k.named i (ground arith) in (a, pushed_keeps a i e)
          ];
          single = λ a b i e f. elim (cases a i e) [
            | inl (same, at) ↦ elim (cases b i f) [
              | inl (same', at') ↦ same ∙ sym same'
              | inr (old, other) ↦
                  let (u, q, m, g, h, below) = k.indexed b i old in absurd (omega arith)
            ]
            | inr (old, other) ↦ elim (cases b i f) [
              | inl (same, at) ↦
                  let (u, q, m, g, h, below) = k.indexed a i old in absurd (omega arith)
              | inr (old', other') ↦ k.single a b i old old'
            ]
          ];
          children_first = λ i e f. elim (entry_cases i e f) [
            | inl (at, same) ↦
                let h : AllNodesIn (IndexBelow pushed.seen n) (nodes.fields t p) =
                  map-AllNodesIn (nodes.fields t p)
                    (λ u q (j, g, b). (j, pushed_keeps (nodes.creation_id u q) j g, b)) s in
                rw (at, same) h
            | inr old ↦
                map-AllNodesIn e.data_fields
                  (λ u q (j, g, b). (j, pushed_keeps (nodes.creation_id u q) j g, b))
                  (k.children_first i e old)
          ];
        }

    pub pushed-Grows :
        nodes.IsLive t p
        → AllNodesIn (IsSeen ctx) (nodes.fields t p)
        → Grows (nodes.creation_id t p + 1) ctx pushed × IsSeen pushed t p
    unfolding push_node
    pushed-Grows l s =
        let id = nodes.creation_id t p in
        let n = length ctx.nodes in
        let long = length-append ctx.nodes (entry_of t p ∷ []) in
        (
          record {
            valid = pushed-IsCollected l s;
            keeps = pushed_keeps;
            only_below = λ a i e. elim (seen_cases id n a i ctx.seen e) [
              | inl (same, at) ↦ inr (omega arith)
              | inr (old, other) ↦ inl old
            ];
          },
          (n, ground (arith, HashMap.lookup-insert id id n ctx.seen), omega (arith, long)),
        )
