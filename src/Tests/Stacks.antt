-- ===== src/Tests/Stacks.antt =====
-- The lock-free stack, with two nodes at 16 and 32.
use new_name_auction.Prelude.{ℕ, ◌≡◌, refl, arith, true, List, [], ◌∷◌, ◌==◌, if◌then◌else◌}
use new_name_auction.LockFreeStack.{Node, Stack, pop_try}
use new_name_auction.LockFreeStack.Chain.{IsStack}
use new_name_auction.LockFreeStack.Pop.{no_other, other_count, pop_try_lem}
use new_name_auction.LockFreeStack.PushPop.{}

abbrev two_nodes : ℕ → Node
two_nodes b =
    if b == 16 then record { next = 32; data_of = 5 } else record { next = 0; data_of = 6 }

abbrev two : Stack
two = record { heap = two_nodes; top = 16; node_count = 2 }

two-IsStack : IsStack two (16 ∷ 32 ∷ [])
two-IsStack = record {
  linked = (refl, omega arith, omega arith, (refl, omega arith, omega arith, refl));
  distinct = ((omega arith, tt), (tt, tt));
  word = omega arith;
}

-- The counter changes between the reads and the exchange.
pop_try_lem_example :
    ((pop_try 16 32 (record two { node_count = 1 })).0 ≡ true)
    × (ys : List ℕ) × IsStack (record two { node_count = 1 }) (16 ∷ ys)
    × IsStack (pop_try 16 32 (record two { node_count = 1 })).1 ys
pop_try_lem_example =
    pop_try_lem two two (record two { node_count = 1 }) (16 ∷ 32 ∷ []) 0 0 two-IsStack (omega arith)
      no_other (other_count 0 two 1 no_other) (omega arith) refl
