-- ===== src/Table/Canonical/Interned.antt =====
-- A heap whose objects were all made by one shared table: each object that is there is an entry of the
-- table, so equal data have one object.
use hirpdag.Base.{ℕ, ◌≡◌, ◌∙◌, sym, true, some, inl, inr, arith, Bool-cases, ◌==◌}
use mathlib.Core.Path.{subst}
use hirpdag.Key.{Key, Hasher}
use hirpdag.Ref.{new}
use hirpdag.Ref.Laws.{Live, retain, strong_deref-retain, strong_deref-new}
use hirpdag.Table.Canonical.{World}
use hirpdag.Table.Canonical.Steps.{IsCanonical, Live-alive, World-ext, deref_equal_inv}
use hirpdag.Table.Interface.{CreationMeta, old, fresh}
use hirpdag.Table.Shared.{Table}

module _ {D G : Type 0} ⦃key : Key D⦄ {hasher : Hasher D key} {TS : Type 0}
    (ops : Table D G key hasher TS) where
  abbrev pub IsInterned : World TS D G → Type 0
  IsInterned w = (p : ℕ) (x : D) → Live w.heap p x → (k : ℕ) × ops.Entry w.table k p

  pub IsInterned-unique :
      (w : World TS D G) (p q : ℕ) (x y : D)
      → IsCanonical ops w
      → IsInterned w
      → Live w.heap p x
      → Live w.heap q y
      → key.equal x y ≡ true
      → p ≡ q
  IsInterned-unique w p q x y c i l m e =
      let (j, a) = i p x l in let (k, b) = i q y m in c.entries.unique j p k q x y a b l m e

  -- Fewer live objects, and the same table
  pub IsInterned-mono :
      (w u : World TS D G)
      → u.table ≡ w.table
      → ((p : ℕ) (x : D) → Live u.heap p x → Live w.heap p x)
      → IsInterned w
      → IsInterned u
  IsInterned-mono w u same sub i p x l =
      let (k, e) = i p x (sub p x l) in (k, subst (λ t. ops.Entry t k p) (sym same) e)

  pub get_or_insert-IsInterned :
      (m : CreationMeta D G) (w u : World TS D G) (d : D) (p : ℕ)
      → IsCanonical ops w
      → IsInterned w
      → ops.get_or_insert w.table d m w.heap w.state ≡ some (p, u.table, u.heap, u.state)
      → IsInterned u
  get_or_insert-IsInterned m w u d p c i run =
      let (r, run', post) =
        ops.get_or_insert_interns w.table d m w.heap w.state c.valid c.entries.bounded in
      elim post [
        | old q e same eq ↦
            subst IsInterned
              (World-ext ops (record w { heap = retain q w.heap }) u (ground arith) (ground arith)
                (ground arith))
              λ k x l. i k x (
                sym (
                  strong_deref-retain w.heap q k
                    (λ z. let (y, n, f) = deref_equal_inv w.heap q d same in cc))
                ∙ l)
        | fresh t absent v grows eq ↦
            subst IsInterned
              (World-ext ops
                (record {
                  table = t;
                  heap = (new (m d w.state).0 w.heap).1;
                  state = (m d w.state).1;
                })
                u (ground arith) (ground arith) (ground arith))
              λ k x l. elim (Bool-cases (w.heap.next == k)) [
                | inl e ↦
                    let same : w.heap.next ≡ k = ground arith in
                    (hasher.hash_one d, subst (ops.Entry t (hasher.hash_one d)) same grows.added)
                | inr e ↦
                    let before : Live w.heap k x =
                      ground (arith, strong_deref-new (m d w.state).0 w.heap k) in
                    let (j, a) = i k x before in
                    (j, grows.kept j k a (Live-alive w.heap k x before))
              ]
      ]
