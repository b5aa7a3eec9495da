-- ===== src/Tests/Metadata.antt =====
-- The theorems on metadata, at a node with two children.
use hirpdag.Base.{ℕ, ◌+◌, ◌-◌, ◌^◌, ◌≡◌, refl, min}
use hirpdag.Meta.{HirpdagMeta, count_max, height_max}
use hirpdag.Meta.Compute.{compute_struct_meta}
use hirpdag.Meta.Exact.{tree_counts, tree_heights, compute_struct_meta_exact}
use hirpdag.Value.{Values, number, vec, node, nil, cons}

abbrev cached : ℕ → ℕ → HirpdagMeta
cached t p = record { count = 2 ^ 32 - 1; height = 3; flags = 4 }

-- `Pair { tag: u32, children: Vec<Pair> }` with two children, each of 2 ^ 40 nodes
abbrev fields : Values
fields = cons (number 8) (cons (vec (cons (node 0 1) (cons (node 0 2) nil))) nil)

compute_struct_meta_exact_example :
    ((compute_struct_meta cached 1 fields).count
      ≡ min count_max (tree_counts (λ t p. 2 ^ 40) fields + 1))
    × ((compute_struct_meta cached 1 fields).height
        ≡ min height_max (tree_heights (λ t p. 3) fields + 1))
compute_struct_meta_exact_example =
    compute_struct_meta_exact cached (λ t p. 2 ^ 40) (λ t p. 3) (λ t p. refl) (λ t p. refl) 1 fields
