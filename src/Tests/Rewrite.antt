-- ===== src/Tests/Rewrite.antt =====
-- The theorems on rewriting, on the nodes of Tests.Archive.
use mathlib.Core.Path.{subst}
use hirpdag.Base.{ℕ, zero, suc, ◌≡◌, ◌<◌, refl, ap, some, arith, Returns}
use hirpdag.Rewrite.{Rewriter, default_rewrite, default_rewriter}
use hirpdag.Rewrite.Rewritten.{Rewritten, default_rewrite-Rewritten}
use hirpdag.Rewrite.Typed.{GivesLive, values_cost}
use hirpdag.Serialize.Typed.{number_ok, no_fields, field_ok}
use hirpdag.Serialize.Visit.{Keeps_refl}
use hirpdag.Value.{number, nil, cons}
use hirpdag.Rewrite.Default.{default_rewriter_same}
use hirpdag.Serialize.Nodes.{AllNodes, AllNodesIn}
use hirpdag.Tests.Archive.{
  nodes_of, pair, pair-Ready, fields-pair, roots_below, values_eq, values_eq_refl, values_eq_sound,
  State,
}

pair_live : (nodes_of.view pair.1).IsLive 1 pair.0
unfolding AllNodesIn AllNodes
pair_live = roots_below.0.0.0

pair_below : ((nodes_of.view pair.1).creation_id 1 pair.0) < pair.1.state
unfolding AllNodesIn AllNodes
pair_below = roots_below.0.0.1

default_rewriter_same_example :
    default_rewriter values_eq nodes_of.hirpdag_hashcons
      (nodes_of.view pair.1)
      pair.1.state
      1
      pair.0
      pair.1
    ≡ some (pair.0, pair.1)
default_rewriter_same_example =
    default_rewriter_same values_eq values_eq_refl nodes_of.hirpdag_hashcons (nodes_of.view pair.1)
      pair.1.state 1 pair.0 pair.1 (nodes_of.valid-IsDag 8 pair.1 pair-Ready) pair_live pair_below

-- every node of type 0 becomes the one with the number 6
abbrev to_six : Rewriter State
to_six zero p st = nodes_of.hirpdag_hashcons 0 (cons (number 6) nil) st
to_six (suc t) p st = some (p, st)

abbrev one_each : ℕ → ℕ → ℕ
one_each t p = 1

to_six-GivesLive : GivesLive nodes_of one_each to_six
unfolding AllNodesIn AllNodes
to_six-GivesLive zero p left st valid l =
    let (r, run, (valid', l', same, keeps)) =
      nodes_of.hashcons_lem left 0 (cons (number 6) nil) st
        (subst (λ k. nodes_of.Valid k st) (omega arith) valid) (tt, tt)
        (field_ok (number_ok 6) no_fields) in
    (r, run, (valid', keeps, l'))
to_six-GivesLive (suc t) p left st valid l = (
  (p, st),
  refl,
  (
    nodes_of.valid_fewer left st (subst (λ k. nodes_of.Valid k st) (omega arith) valid),
    Keeps_refl (nodes_of.view st),
    l,
  ),
)

two_leaves : values_cost one_each ((nodes_of.view pair.1).fields 1 pair.0) ≡ 2
unfolding values_cost
two_leaves = ap (values_cost one_each) fields-pair

default_rewrite-Rewritten_example :
    Returns
      (default_rewrite values_eq nodes_of.hirpdag_hashcons
        (nodes_of.view pair.1)
        to_six
        1
        pair.0
        pair.1)
      (Rewritten nodes_of to_six 1 pair.0 5 pair.1)
default_rewrite-Rewritten_example =
    default_rewrite-Rewritten nodes_of values_eq values_eq_sound to_six one_each to_six-GivesLive 1
      pair.0 5 pair.1 (subst (λ k. nodes_of.Valid k pair.1) (omega (arith, two_leaves)) pair-Ready)
      pair_live
