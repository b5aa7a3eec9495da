-- ===== src/Serialize/Safe.antt =====
-- `visit_seq` on a node table of any kind.
use hirpdag.Base.{
  ℕ, zero, suc, ◌+◌, ◌≡◌, refl, sym, ◌∙◌, Option, some, List, [], ◌∷◌, ◌++◌, length, get_elem?-lt,
  length-append, arith, Result, ok, err, Returns, inl, inr, Result-cases, Bool-cases, ◌==◌,
}
use mathlib.Core.Path.{subst}
use hirpdag.Serialize.Archive.{Interner, Keeps, NodeWire, Thread, visit_seq}
use hirpdag.Serialize.Collected.{get_elem?-append_left, get_elem?-append_end}
use hirpdag.Serialize.Malformed.{AllLive, deserialize_fields-HasTypes}
use hirpdag.Serialize.Nodes.{Nodes}
use hirpdag.Serialize.Visit.{reading, visit_seq_ok, Keeps_refl, Keeps_trans}
use hirpdag.Serialize.Wire.{FieldTypes, HirpdagNodeRef, Message, deserialize_fields}

module _ {St : Type 0} {schema : ℕ → FieldTypes} (interner : Interner schema St) where
  valid_left : (k left : ℕ) (st : St) → interner.Valid (k + left) st → interner.Valid left st
  valid_left zero left st v = subst (λ n. interner.Valid n st) (omega arith) v
  valid_left (suc k) left st v =
      valid_left k left st
        (interner.valid_fewer (k + left) st (subst (λ n. interner.Valid n st) (omega arith) v))

  -- The thread while an archive is read: its nodes are live, and none is lost.
  pub record Reads (left : ℕ) (ser : Option (List (ℕ × ℕ))) (st : St) (thread : Thread St)
      : Type 0 where
    pub refs' : List HirpdagNodeRef
    pub after : St
    pub is_thread : thread ≡ reading ser refs' after
    pub valid : interner.Valid left after
    pub keeps : Keeps (interner.view st) (interner.view after)
    pub all_live : AllLive (interner.view after) refs'

  more_live :
      (before after : Nodes) (refs : List HirpdagNodeRef) (t p : ℕ)
      → Keeps before after
      → AllLive before refs
      → after.IsLive t p
      → AllLive after (refs ++ record { ref_struct = t; address = p } ∷ [])
  more_live before after refs t p keeps live l i r at =
      let entry : HirpdagNodeRef = record { ref_struct = t; address = p } in
      let long = length-append refs (entry ∷ []) in
      let below = get_elem?-lt (refs ++ entry ∷ []) i r at in
      elim (Bool-cases (i == length refs)) [
        | inl same ↦
            let last = get_elem?-append_end refs entry in
            let here : i ≡ length refs = ground arith in
            let is : entry ≡ r = cc in subst (λ x. after.IsLive x.ref_struct x.address) is l
        | inr other ↦
            let left = get_elem?-append_left refs (entry ∷ []) i (ground arith) in
            keeps.still_live r.ref_struct r.address (live i r (sym left ∙ at))
      ]

  visit_seq_err :
      (elements : List (Result Message NodeWire)) (n : NodeWire) (ser : Option (List (ℕ × ℕ)))
      (refs : List HirpdagNodeRef) (st : St) (m : Message)
      → deserialize_fields (some refs) (schema n.node_type) n.field_wires ≡ err m
      → visit_seq interner (ok n ∷ elements) (reading ser refs st)
        ≡ some (err m, reading ser refs st)
  unfolding visit_seq
  visit_seq_err elements n ser refs st m e = rw (visit_seq, e) refl

  visit_seq_stop :
      (elements : List (Result Message NodeWire)) (ser : Option (List (ℕ × ℕ)))
      (refs : List HirpdagNodeRef) (st : St) (m : Message)
      → visit_seq interner (err m ∷ elements) (reading ser refs st)
        ≡ some (err m, reading ser refs st)
  unfolding visit_seq
  visit_seq_stop elements ser refs st m = refl

  visit_seq_end :
      (ser : Option (List (ℕ × ℕ))) (refs : List HirpdagNodeRef) (st : St)
      → visit_seq interner [] (reading ser refs st) ≡ some (ok tt, reading ser refs st)
  unfolding visit_seq
  visit_seq_end ser refs st = refl

  pub unread :
      (k left : ℕ) (ser : Option (List (ℕ × ℕ))) (refs : List HirpdagNodeRef) (st : St)
      → interner.Valid (k + left) st
      → AllLive (interner.view st) refs
      → Reads left ser st (reading ser refs st)
  unread k left ser refs st valid live = record {
    refs' = refs;
    after = st;
    is_thread = refl;
    valid = valid_left k left st valid;
    keeps = Keeps_refl (interner.view st);
    all_live = live;
  }

  pub visit_seq-Reads :
      (elements : List (Result Message NodeWire)) (left : ℕ) (ser : Option (List (ℕ × ℕ)))
      (refs : List HirpdagNodeRef) (st : St)
      → interner.Valid (length elements + left) st
      → AllLive (interner.view st) refs
      → Returns (visit_seq interner elements (reading ser refs st)) (λ r. Reads left ser st r.1)
  visit_seq-Reads [] left ser refs st valid live = (
    (ok tt, reading ser refs st),
    visit_seq_end ser refs st,
    unread 0 left ser refs st valid live,
  )
  visit_seq-Reads (err m ∷ elements) left ser refs st valid live = (
    (err m, reading ser refs st),
    visit_seq_stop elements ser refs st m,
    unread (suc (length elements)) left ser refs st valid live,
  )
  visit_seq-Reads (ok n ∷ elements) left ser refs st valid live =
      let fields = deserialize_fields (some refs) (schema n.node_type) n.field_wires in
      elim (Result-cases fields) [
        | inr (m, e) ↦ (
          (err m, reading ser refs st),
          visit_seq_err elements n ser refs st m e,
          unread (suc (length elements)) left ser refs st valid live,
        )
        | inl (vs, e) ↦
            let (l, h) =
              deserialize_fields-HasTypes (interner.view st) refs live (schema n.node_type)
                n.field_wires vs e in
            let (made, run, (valid', l', same, keeps)) =
              interner.hashcons_lem (length elements + left) n.node_type vs st
                (subst (λ k. interner.Valid k st) (omega arith) valid) l h in
            let entry : HirpdagNodeRef = record { ref_struct = n.node_type; address = made.0 } in
            let (r, run', rest) =
              visit_seq-Reads elements left ser (refs ++ entry ∷ []) made.1 valid' (
                more_live (interner.view st) (interner.view made.1) refs n.node_type made.0 keeps
                  live l') in
            (
              r,
              visit_seq_ok interner ser refs st n elements vs made e run ∙ run',
              record {
                refs' = rest.refs';
                after = rest.after;
                is_thread = rest.is_thread;
                valid = rest.valid;
                keeps =
                    Keeps_trans (interner.view st) (interner.view made.1) (interner.view rest.after)
                      keeps rest.keeps;
                all_live = rest.all_live;
              },
            )
      ]
