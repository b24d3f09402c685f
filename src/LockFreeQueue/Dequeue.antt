-- ===== src/LockFreeQueue/Dequeue.antt =====
-- Dequeue of LockFreeQueue.h.
use new_name_auction.Prelude.{
  ℕ, suc, ◌+◌, ◌-◌, ◌^◌, ◌≤◌, ◌<◌, ◌≡◌, refl, sym, ap, subst, ◌∙◌, inl, inr, true, false, Option,
  none, some, List, [], ◌∷◌, ◌++◌, map, arith, ◌==◌, if◌then◌else◌, Bool-cases, length, drop, count,
  remove, count-remove, length-remove, sub32, sle32,
}
use new_name_auction.LockFreeStack.{ptr_of, pop_word}
use new_name_auction.LockFreeStack.Chain.{Linked}
use new_name_auction.MemoryPool.{Pool, pool_free}
use new_name_auction.MemoryPool.Blocks.{pool_free-IsPool}
use new_name_auction.LockFreeQueue.{Queue, exchange_front, leave_front, dequeue_loop, dequeue_value}
use new_name_auction.LockFreeQueue.Chain.{
  exchange_rear-moved, IsChain, Owns, IsQueue, data_at, ptr_of-pop_word, pop_word-lt,
}

-- The pool when the node `d` of the front has been given back.
module _ (p : Pool) (d : ℕ) (chain : List ℕ) (o : Owns p (d ∷ chain)) where
  abbrev block : ℕ
  block = d - 24

  block_of : block + 24 ≡ d
  block_of = omega (arith, o.above d (ground arith))

  mine : count block o.used ≡ 1
  mine = once_there (o.same block) (o.is.once block)
    where
      once_there :
          count block o.used ≡ count (block + 24) (d ∷ chain)
          → count block o.free + count block o.used ≤ 1
          → count block o.used ≡ 1
      once_there same once =
          let at : (block + 24 == d) ≡ true = ground (arith, block_of) in
          ground (arith, same, once, at)

  one_fewer :
      (c : ℕ)
      → count c o.used ≡ count (c + 24) (d ∷ chain)
      → count c (remove block o.used) ≡ (if block == c then count c o.used - 1 else count c o.used)
      → count c (remove block o.used) ≡ count (c + 24) chain
  one_fewer c same removed = elim (Bool-cases (block == c)) [
    | inl here ↦
        let at : (c + 24 == d) ≡ true = ground (arith, here, block_of) in
        ground (arith, same, removed, here, at)
    | inr other ↦
        let at : (c + 24 == d) ≡ false = ground (arith, other, block_of) in
        ground (arith, same, removed, other, at)
  ]

  was_there :
      (c : ℕ)
      → 1 ≤ count c (block ∷ o.free) + count c (remove block o.used)
      → count c (remove block o.used) ≡ (if block == c then count c o.used - 1 else count c o.used)
      → 1 ≤ count c o.free + count c o.used
  was_there c h removed = elim (Bool-cases (block == c)) [
    | inl here ↦
        let eq : block ≡ c = ground (arith, here) in
        omega (arith, subst (λ x. count x o.used ≡ 1) eq mine)
    | inr other ↦ ground (arith, h, removed, other)
  ]

  pub Owns-fewer : Owns (pool_free d p) chain
  Owns-fewer =
      let fit = o.fits block (omega (arith, mine)) in
      subst (λ x. Owns (pool_free x p) chain) block_of
        (record {
          free = block ∷ o.free;
          used = remove block o.used;
          is = pool_free-IsPool block p o.free o.used o.is (fit.0, omega (arith, fit.1)) mine;
          same = λ c. one_fewer c (o.same c) (count-remove block c o.used);
          as_many = omega (arith, length-remove block o.used (omega (arith, mine)), o.as_many);
          above = λ a h. o.above a (ground (arith, h));
          fits = λ c h. o.fits c (was_there c h (count-remove block c o.used));
        })

exchange_front-moved :
    (next : ℕ) (q : Queue)
    → exchange_front next q.front q ≡ record q { front = pop_word next q.front }
exchange_front-moved next q = let self : (q.front == q.front) ≡ true = ground arith in rw self refl

-- The queue after Dequeue has moved the front from `d` to `x`.
abbrev moved : ℕ → Queue → Queue
moved x q = record q { front = pop_word x q.front }

record IsLeft (q q' : Queue) (d : ℕ) (chain : List ℕ) : Type 0 where
  is : IsChain q' chain
  pool_at : q'.pool ≡ pool_free d q.pool
  nodes_same : q'.nodes ≡ q.nodes
  count_same : q'.node_count ≡ q.node_count

leave_front-IsLeft :
    (d x : ℕ) (xs : List ℕ) (q : Queue)
    → IsChain q (d ∷ x ∷ xs)
    → IsLeft q (leave_front d x (moved x q)) d (x ∷ xs)
unfolding leave_front
leave_front-IsLeft d x xs q is =
    let l = is.linked in
    let low : x < 2 ^ 48 = l.3.2 in
    let at : ptr_of (pop_word x q.front) ≡ x = ptr_of-pop_word x q.front low in
    let linked : Linked q.nodes (ptr_of (pop_word x q.front)) (x ∷ xs) = (at, l.3.1, low, l.3.3) in
    elim (Bool-cases ((q.nodes (ptr_of q.rear)).next == x)) [
      | inl helped ↦
          rw (helped, exchange_rear-moved x (moved x q))
            (record {
              is = record {
                linked = linked;
                distinct = is.distinct.1;
                front_word = pop_word-lt x q.front low;
                rear_word = pop_word-lt x q.rear low;
                before = [];
                behind = xs;
                rear_at = ap (λ y. y ∷ xs) (sym (ptr_of-pop_word x q.rear low));
              };
              pool_at = refl;
              nodes_same = refl;
              count_same = refl;
            })
      | inr stays ↦
          let (before, rear_at) = rear_behind is.before is.behind is.rear_at stays in
          rw stays (record {
            is = record {
              linked = linked;
              distinct = is.distinct.1;
              front_word = pop_word-lt x q.front low;
              rear_word = is.rear_word;
              before = before;
              behind = is.behind;
              rear_at = rear_at;
            };
            pool_at = refl;
            nodes_same = refl;
            count_same = refl;
          })
    ]
  where
    rear_behind :
        (before behind : List ℕ)
        → d ∷ x ∷ xs ≡ before ++ (ptr_of q.rear ∷ behind)
        → ((q.nodes (ptr_of q.rear)).next == x) ≡ false
        → (ys : List ℕ) × (x ∷ xs ≡ ys ++ (ptr_of q.rear ∷ behind))
    rear_behind [] behind e stays =
        let here : d ≡ ptr_of q.rear = cc in
        let next : (q.nodes (ptr_of q.rear)).next ≡ x =
          subst (λ r. (q.nodes r).next ≡ x) here is.linked.3.0 in
        absurd (ground (arith, next, stays))
    rear_behind (y ∷ ys) behind e stays = (ys, ap (drop 1) e)

dequeue_value-run :
    (fuel d x : ℕ) (q : Queue)
    → sle32 q.node_count 0 ≡ false
    → ptr_of q.front ≡ d
    → (q.nodes d).next ≡ x
    → (x == 0) ≡ false
    → dequeue_value (suc fuel) q
      ≡ some (
        some (data_at q.nodes x),
        leave_front d x (moved x (record q { node_count = sub32 q.node_count 1 })),
      )
unfolding dequeue_value dequeue_loop
dequeue_value-run fuel d x q counted at next some_node =
    let q1 : Queue = record q { node_count = sub32 q.node_count 1 } in
    rw (counted, at, next, some_node, exchange_front-moved x q1) refl

abbrev pub first? : List ℕ → Option ℕ
first? [] = none
first? (v ∷ values) = some v

IsChain-count :
    (q : Queue) (chain : List ℕ) (counter : ℕ)
    → IsChain q chain
    → IsChain (record q { node_count = counter }) chain
IsChain-count q chain counter is = record {
  linked = is.linked;
  distinct = is.distinct;
  front_word = is.front_word;
  rear_word = is.rear_word;
  before = is.before;
  behind = is.behind;
  rear_at = is.rear_at;
}

dequeue_value-empty :
    (fuel : ℕ) (q : Queue) → q.node_count ≡ 0 → dequeue_value (suc fuel) q ≡ some (none, q)
unfolding dequeue_value
dequeue_value-empty fuel q e =
    let test : sle32 q.node_count 0 ≡ true = ground (arith, e) in rw test refl

module _ (fuel d : ℕ) (q : Queue) where
  from_nodes :
      (nodes : List ℕ)
      → IsChain q (d ∷ nodes)
      → Owns q.pool (d ∷ nodes)
      → q.node_count ≡ length nodes
      → length nodes < 2 ^ 31
      → (q' : Queue) × (dequeue_value (suc fuel) q
          ≡ some (first? (map (data_at q.nodes) nodes), q'))
        × IsQueue q' (drop 1 (map (data_at q.nodes) nodes))
  from_nodes [] chain owns counted small = (
    q,
    dequeue_value-empty fuel q counted,
    record {
      dummy = d;
      nodes = [];
      chain = chain;
      owns = owns;
      counted = counted;
      small = small;
      values_at = refl;
    },
  )
  from_nodes (x ∷ xs) chain owns counted small =
      let q1 : Queue = record q { node_count = sub32 q.node_count 1 } in
      let positive : sle32 q.node_count 0 ≡ false = ground (arith, counted, small) in
      let some_node : (x == 0) ≡ false = ground (arith, chain.linked.3.1) in
      let left = leave_front-IsLeft d x xs q1 (IsChain-count q (d ∷ x ∷ xs) q1.node_count chain) in
      (
        leave_front d x (moved x q1),
        dequeue_value-run fuel d x q positive chain.linked.0 chain.linked.3.0 some_node,
        record {
          dummy = x;
          nodes = xs;
          chain = left.is;
          owns =
              subst (λ p. Owns p (x ∷ xs)) (sym left.pool_at) (Owns-fewer q.pool d (x ∷ xs) owns);
          counted = left.count_same ∙ omega (arith, counted, small);
          small = omega (arith, small);
          values_at = ap (λ heap. map (data_at heap) xs) (sym left.nodes_same);
        },
      )

-- Dequeue on a queue of values, whose `rear` may stand behind, ends in its first round: it returns the first
-- value, which the queue then holds no longer, and its node is given back to the pool with `rear` moved
-- off it, or it returns nothing and changes nothing where there is none.
pub dequeue_value_lem :
    (fuel : ℕ) (q : Queue) (values : List ℕ)
    → IsQueue q values
    → (q' : Queue) × (dequeue_value (suc fuel) q ≡ some (first? values, q'))
      × IsQueue q' (drop 1 values)
dequeue_value_lem fuel q values is =
    let (q', run, after) =
      from_nodes fuel is.dummy q is.nodes is.chain is.owns is.counted is.small in
    (
      q',
      run ∙ ap (λ vs. some (first? vs, q')) (sym is.values_at),
      subst (λ vs. IsQueue q' (drop 1 vs)) (sym is.values_at) after,
    )
