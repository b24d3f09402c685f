-- ===== src/LockFreeQueue.antt =====
-- LockFreeQueue of NewNameAuction/LockFreeQueue.h, with nobody between the steps of an operation; where
-- `rear` stands behind the last node, as another thread may have left it, is up to the state. A node
-- is its address, 0 for NULL. `front` and `rear` are words as in LockFreeStack.h, and `front` names the
-- node before the first value. The nodes are those of NodePool.
pub mod Chain
pub mod Loop
pub mod Enqueue
pub mod Dequeue
pub mod Start
use new_name_auction.Prelude.{
  ℕ, zero, suc, Bool, true, false, Option, none, some, ◌==◌, if◌then◌else◌, add32, sub32, sle32,
  slt32,
}
use new_name_auction.LockFreeStack.{Node, ptr_of, store, pop_word}
use new_name_auction.MemoryPool.{Pool, pool_alloc, pool_free}

pub record Queue : Type 0 where
  pub nodes : ℕ → Node
  pub front : ℕ
  pub rear : ℕ
  pub node_count : ℕ
  pub pool : Pool

-- The constructor, on the pool and the memory that it finds.
unfoldable pub construct_queue : ℕ → (ℕ → Node) → Pool → Queue
construct_queue fresh memory pool =
    let (node, pool') = pool_alloc fresh pool in
    record {
      nodes = store node (record (memory node) { next = 0 }) memory;
      front = node;
      rear = node;
      node_count = 0;
      pool = pool';
    }

-- InterlockedCompareExchange64 on `front` and on `rear`, with the stamp raised.
abbrev pub exchange_front : ℕ → ℕ → Queue → Queue
exchange_front next expected q =
    if q.front == expected then record q { front = pop_word next expected } else q

abbrev pub exchange_rear : ℕ → ℕ → Queue → Queue
exchange_rear next expected q =
    if q.rear == expected then record q { rear = pop_word next expected } else q

-- The node behind that of `rear`, or the new one `a` linked behind it.
abbrev pub link : ℕ → ℕ → Queue → Queue
link r a q = record q { nodes = store r (record (q.nodes r) { next = a }) q.nodes }

-- The loop of Enqueue on the new node `a`; `none` where the fuel runs out.
unfoldable pub enqueue_loop : ℕ → ℕ → Queue → Option Queue
enqueue_loop zero a q = none
enqueue_loop (suc fuel) a q =
    let r = ptr_of q.rear in
    let next = (q.nodes r).next in
    let again = enqueue_loop fuel a (exchange_rear next q.rear q) in
    if next == 0 then some (exchange_rear a q.rear (link r a q)) else again

-- The node that Enqueue prepares, from the pool.
unfoldable pub new_node : ℕ → ℕ → Queue → ℕ × Queue
new_node value fresh q =
    let (a, pool') = pool_alloc fresh q.pool in
    (a, record q { nodes = store a (record { next = 0; data_of = value }) q.nodes; pool = pool' })

unfoldable pub enqueue_value : ℕ → ℕ → ℕ → Queue → Option Queue
enqueue_value fuel value fresh q =
    let (a, q1) = new_node value fresh q in
    elim (enqueue_loop fuel a q1) [
      | none ↦ none
      | some q2 ↦ some (record q2 { node_count = add32 q2.node_count 1 })
    ]

-- Dequeue after its exchange: `rear` is moved where it stands on the node before, and the old front is
-- given back.
unfoldable pub leave_front : ℕ → ℕ → Queue → Queue
leave_front old next q =
    let helped =
      if (q.nodes (ptr_of q.rear)).next == next then exchange_rear next q.rear q else q in
    record helped { pool = pool_free old helped.pool }

-- The loop of Dequeue; `none` where the fuel runs out, on a queue without the node that its counter
-- promises.
unfoldable pub dequeue_loop : ℕ → Queue → Option (Option ℕ × Queue)
dequeue_loop zero q = none
dequeue_loop (suc fuel) q =
    let old = ptr_of q.front in
    let next = (q.nodes old).next in
    let again = dequeue_loop fuel q in
    if next == 0
    then (if slt32 q.node_count 0
        then some (none, record q { node_count = add32 q.node_count 1 })
        else again)
    else some (some (q.nodes next).data_of, leave_front old next (exchange_front next q.front q))

unfoldable pub dequeue_value : ℕ → Queue → Option (Option ℕ × Queue)
dequeue_value fuel q =
    if sle32 q.node_count 0
    then some (none, q)
    else dequeue_loop fuel (record q { node_count = sub32 q.node_count 1 })
