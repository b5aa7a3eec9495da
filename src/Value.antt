-- ===== src/Value.antt =====
-- The values that the fields of a `#[hirpdag]` struct hold: numbers, strings, `Option`, `Vec`, enum
-- variants with their payload, and handles to nodes (the struct type and the node's address).
use hirpdag.Base.{ℕ, List}

mutual
  pub data Value : Type 0 where
    number : ℕ → Value
    text : List ℕ → Value
    absent : Value
    present : Value → Value
    vec : Values → Value
    variant : ℕ → Value → Value
    node : ℕ → ℕ → Value

  pub data Values : Type 0 where
    nil : Values
    cons : Value → Values → Values
