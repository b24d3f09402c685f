-- ===== src/LockFreeQueue/Enqueue.antt =====
-- Enqueue of LockFreeQueue.h.
use new_name_auction.Prelude.{
  ℕ, ◌+◌, ◌^◌, ◌≤◌, ◌<◌, ◌≡◌, ◌≢◌, refl, sym, ap, ap₂, subst, ◌∙◌, inl, inr, true, false, some,
  List, [], ◌∷◌, ◌++◌, map, arith, ◌==◌, Bool-cases, length, length-append, count, count-append,
  add32,
}
use mathlib.Core.List.{map-append}
use new_name_auction.LockFreeStack.{ptr_of, store}
use new_name_auction.LockFreeStack.Chain.{NotIn, Linked-store}
use new_name_auction.MemoryPool.{Pool, pool_alloc}
use new_name_auction.MemoryPool.Blocks.{count-NotIn, next_block, Allocates, pool_alloc-Allocates}
use new_name_auction.LockFreeQueue.{Queue, enqueue_loop, new_node, enqueue_value}
use new_name_auction.LockFreeQueue.Chain.{
  IsChain, Owns, IsQueue, data_at, map-store, length-map_data,
}
use new_name_auction.LockFreeQueue.Loop.{enqueue_loop-IsLinked}

-- The block that new returns is an address at which a node fits, and no block of the pool.
pub record IsFresh (fresh : ℕ) (free used : List ℕ) : Type 0 where
  pub some_block : fresh ≢ 0
  pub fits : fresh + 24 < 2 ^ 48
  pub new : count fresh free + count fresh used ≡ 0

next_block_fits :
    (fresh : ℕ) (free used : List ℕ)
    → (fresh ≢ 0) × (fresh + 24 < 2 ^ 48)
    → ((b : ℕ) → 1 ≤ count b free + count b used → (b ≢ 0) × (b + 24 < 2 ^ 48))
    → (next_block fresh free ≢ 0) × (next_block fresh free + 24 < 2 ^ 48)
next_block_fits fresh [] used h all = h
next_block_fits fresh (a ∷ free) used h all = all a (ground arith)

-- The node that Enqueue prepares.
record IsPrepared (value : ℕ) (q q1 : Queue) (chain : List ℕ) (node : ℕ) : Type 0 where
  some_node : node ≢ 0
  low : node < 2 ^ 48
  out : NotIn node chain
  is : IsChain q1 chain
  end : (q1.nodes node).next ≡ 0
  value_at : data_at q1.nodes node ≡ value
  data_same : (xs : List ℕ) → NotIn node xs → map (data_at q1.nodes) xs ≡ map (data_at q.nodes) xs
  rear_same : q1.rear ≡ q.rear
  count_same : q1.node_count ≡ q.node_count
  owns : Owns q1.pool (chain ++ (node ∷ []))

new_node-run :
    (value fresh a : ℕ) (q : Queue)
    → (pool_alloc fresh q.pool).0 ≡ a
    → new_node value fresh q ≡ (
      a,
      record q {
        nodes = store a (record { next = 0; data_of = value }) q.nodes;
        pool = (pool_alloc fresh q.pool).1;
      },
    )
unfolding new_node
new_node-run value fresh a q at = rw at refl

one_more :
    (b c : ℕ) (used chain : List ℕ)
    → count c used ≡ count (c + 24) chain
    → count c (b ∷ used) ≡ count (c + 24) (chain ++ ((b + 24) ∷ []))
one_more b c used chain same =
    let split = count-append chain ((b + 24) ∷ []) (c + 24) in
    elim (Bool-cases (c == b)) [
      | inl here ↦
          let there : (c + 24 == b + 24) ≡ true = ground (arith, here) in
          ground (arith, same, split, here, there)
      | inr other ↦
          let there : (c + 24 == b + 24) ≡ false = ground (arith, other) in
          ground (arith, same, split, other, there)
    ]

Owns-more :
    (fresh : ℕ) (p : Pool) (chain : List ℕ) (o : Owns p chain)
    → (a : Allocates fresh p o.free o.used) → (a.block ≢ 0) × (a.block + 24 < 2 ^ 48)
    → Owns (pool_alloc fresh p).1 (chain ++ ((a.block + 24) ∷ []))
Owns-more fresh p chain o a ok = record {
  free = a.rest;
  used = a.block ∷ o.used;
  is = a.is;
  same = λ c. one_more a.block c o.used chain (o.same c);
  as_many = omega (arith, length-append chain ((a.block + 24) ∷ []), o.as_many);
  above = λ x h. from_above x h (count-append chain ((a.block + 24) ∷ []) x);
  fits = λ c h. elim (Bool-cases (c == a.block)) [
    | inl here ↦ subst (λ x. (x ≢ 0) × (x + 24 < 2 ^ 48)) (sym (ground (arith, here))) ok
    | inr other ↦ o.fits c (was_there c h other (a.fewer c))
  ];
}
  where
    from_above :
        (x : ℕ)
        → 1 ≤ count x (chain ++ ((a.block + 24) ∷ []))
        → count x (chain ++ ((a.block + 24) ∷ [])) ≡ count x chain + count x ((a.block + 24) ∷ [])
        → 24 ≤ x
    from_above x h split = elim (Bool-cases (x == a.block + 24)) [
      | inl here ↦ ground (arith, here)
      | inr other ↦ o.above x (ground (arith, h, split, other))
    ]

    was_there :
        (c : ℕ)
        → 1 ≤ count c a.rest + count c (a.block ∷ o.used)
        → (c == a.block) ≡ false
        → count c a.rest ≤ count c o.free
        → 1 ≤ count c o.free + count c o.used
    was_there c h other fewer = ground (arith, h, other, fewer)

prepared :
    (value fresh : ℕ) (q : Queue) (chain : List ℕ)
    → IsChain q chain
    → (o : Owns q.pool chain) → IsFresh fresh o.free o.used
    → (node : ℕ) × (q1 : Queue) × (new_node value fresh q ≡ (node, q1))
      × IsPrepared value q q1 chain node
prepared value fresh q chain is o f =
    let a =
      pool_alloc-Allocates fresh q.pool o.free o.used o.is (f.some_block, omega (arith, f.fits))
        f.new in
    let ok =
      subst (λ b. (b ≢ 0) × (b + 24 < 2 ^ 48)) (sym a.chosen)
        (next_block_fits fresh o.free o.used (f.some_block, f.fits) o.fits) in
    let node = a.block + 24 in
    let out : NotIn node chain =
      count-NotIn node chain (nobody a.block a.rest o.used (a.is.once a.block) (o.same a.block)) in
    let run = new_node-run value fresh node q a.given in
    let self : (node == node) ≡ true = ground arith in
    (
      node,
      _,
      run,
      record {
        some_node = omega arith;
        low = ok.1;
        out = out;
        is = record {
          linked = Linked-store node _ q.nodes (ptr_of q.front) chain out is.linked;
          distinct = is.distinct;
          front_word = is.front_word;
          rear_word = is.rear_word;
          before = is.before;
          behind = is.behind;
          rear_at = is.rear_at;
        };
        end = rw self refl;
        value_at = rw (self, data_at) refl;
        data_same = λ xs. map-store node (record { next = 0; data_of = value }) q.nodes xs;
        rear_same = refl;
        count_same = refl;
        owns = Owns-more fresh q.pool chain o a ok;
      },
    )
  where
    nobody :
        (b : ℕ) (rest used : List ℕ)
        → count b rest + count b (b ∷ used) ≤ 1
        → count b used ≡ count (b + 24) chain
        → count (b + 24) chain ≡ 0
    nobody b rest used once same = ground (arith, once, same)

enqueue_value-run :
    (fuel value fresh node : ℕ) (q q1 q2 : Queue)
    → new_node value fresh q ≡ (node, q1)
    → enqueue_loop fuel node q1 ≡ some q2
    → enqueue_value fuel value fresh q ≡ some (record q2 { node_count = add32 q2.node_count 1 })
unfolding enqueue_value
enqueue_value-run fuel value fresh node q q1 q2 prepares loops =
    rw (enqueue_value, prepares, loops) refl

-- Enqueue on a queue of values whose `rear` may stand behind: with a round for each of them and one, the
-- loop ends, and the queue holds the value behind those from before, in a new node of the pool; with the
-- counter not at its end and a new block that is none of the pool's.
pub enqueue_value_lem :
    (fuel value fresh : ℕ) (q : Queue) (values : List ℕ)
    → (is : IsQueue q values) → IsFresh fresh is.owns.free is.owns.used
    → length values + 1 < 2 ^ 31
    → length values < fuel
    → (q' : Queue) × (enqueue_value fuel value fresh q ≡ some q')
      × IsQueue q' (values ++ (value ∷ []))
enqueue_value_lem fuel value fresh q values is f small enough =
    let chain = is.dummy ∷ is.nodes in
    let as_many : length values ≡ length is.nodes =
      ap length is.values_at ∙ length-map_data (data_at q.nodes) is.nodes in
    let (node, q1, prepares, p) = prepared value fresh q chain is.chain is.owns f in
    let at : chain ≡ is.chain.before ++ (ptr_of q1.rear ∷ is.chain.behind) =
      is.chain.rear_at
      ∙ ap (λ r. is.chain.before ++ (ptr_of r ∷ is.chain.behind)) (sym p.rear_same) in
    let rounds : length is.chain.behind < fuel = omega (
      arith,
      ap length is.chain.rear_at,
      length-append is.chain.before (ptr_of q.rear ∷ is.chain.behind),
      as_many,
      enough,
    ) in
    let (q2, loops, linked) =
      enqueue_loop-IsLinked is.chain.behind fuel node q1 chain is.chain.before p.is at rounds
        p.some_node p.low p.out p.end in
    (
      _,
      enqueue_value-run fuel value fresh node q q1 q2 prepares loops,
      record {
        dummy = is.dummy;
        nodes = is.nodes ++ (node ∷ []);
        chain = record {
          linked = linked.is.linked;
          distinct = linked.is.distinct;
          front_word = linked.is.front_word;
          rear_word = linked.is.rear_word;
          before = linked.is.before;
          behind = linked.is.behind;
          rear_at = linked.is.rear_at;
        };
        owns = subst (λ pool. Owns pool (chain ++ (node ∷ []))) (sym linked.pool_same) p.owns;
        counted = omega (
          arith,
          linked.count_same,
          p.count_same,
          is.counted,
          as_many,
          small,
          length-append is.nodes (node ∷ []),
        );
        small = omega (arith, as_many, small, length-append is.nodes (node ∷ []));
        values_at =
            ap₂ ◌++◌ (is.values_at ∙ sym (p.data_same is.nodes p.out.1))
              (ap (λ v. v ∷ []) (sym p.value_at))
            ∙ (sym (map-append (data_at q1.nodes) is.nodes (node ∷ []))
                ∙ sym (linked.data_same (is.nodes ++ (node ∷ []))));
      },
    )
