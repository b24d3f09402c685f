-- ===== src/LockFreeQueue/Start.antt =====
-- The constructor of LockFreeQueue.h.
use new_name_auction.Prelude.{
  ℕ, ◌+◌, ◌^◌, ◌≤◌, ◌<◌, ◌≡◌, ◌≢◌, true, false, ◌∙◌, refl, sym, ap, subst, inl, inr, Bool, List, [],
  ◌∷◌, arith, ◌==◌, Bool-cases, count,
}
use new_name_auction.LockFreeStack.{Node, store}
use new_name_auction.MemoryPool.{empty_pool, pool_alloc}
use new_name_auction.MemoryPool.Blocks.{IsPool, pool_alloc-Allocates}
use new_name_auction.LockFreeQueue.{construct_queue}
use new_name_auction.LockFreeQueue.Chain.{IsQueue}

pub empty_pool-IsPool : (memory : ℕ → Node) (alloc : Bool) → IsPool (empty_pool memory alloc) [] []
empty_pool-IsPool memory alloc = record {
  stack = record { linked = refl; distinct = tt; word = omega arith };
  once = λ b. omega arith;
  counted = refl;
  sized = refl;
}

construct_queue-run :
    (fresh a : ℕ) (memory blocks : ℕ → Node) (alloc : Bool)
    → (pool_alloc fresh (empty_pool blocks alloc)).0 ≡ a
    → construct_queue fresh memory (empty_pool blocks alloc) ≡ record {
      nodes = store a (record (memory a) { next = 0 }) memory;
      front = a;
      rear = a;
      node_count = 0;
      pool = (pool_alloc fresh (empty_pool blocks alloc)).1;
    }
unfolding construct_queue
construct_queue-run fresh a memory blocks alloc at = rw at refl

-- On a pool without blocks the constructor makes a queue without values.
pub construct_queue-IsQueue :
    (fresh : ℕ) (memory blocks : ℕ → Node) (alloc : Bool)
    → fresh ≢ 0
    → fresh + 24 < 2 ^ 48
    → IsQueue (construct_queue fresh memory (empty_pool blocks alloc)) []
construct_queue-IsQueue fresh memory blocks alloc some_block fits =
    let a =
      pool_alloc-Allocates fresh (empty_pool blocks alloc) [] [] (empty_pool-IsPool blocks alloc)
        (some_block, omega (arith, fits)) (omega arith) in
    let node = fresh + 24 in
    let self : (node == node) ≡ true = ground arith in
    let given = a.given ∙ ap (λ b. b + 24) a.chosen in
    let is : IsPool (pool_alloc fresh (empty_pool blocks alloc)).1 a.rest (fresh ∷ []) =
      subst (λ b. IsPool (pool_alloc fresh (empty_pool blocks alloc)).1 a.rest (b ∷ [])) a.chosen
        a.is in
    subst (λ q. IsQueue q []) (sym (construct_queue-run fresh node memory blocks alloc given))
      (record {
        dummy = node;
        nodes = [];
        chain = record {
          linked = (omega (arith, fits), omega arith, fits, rw self refl);
          distinct = (tt, tt);
          front_word = omega (arith, fits);
          rear_word = omega (arith, fits);
          before = [];
          behind = [];
          rear_at = ap (λ r. r ∷ []) (omega (arith, fits));
        };
        owns = record {
          free = a.rest;
          used = fresh ∷ [];
          is = is;
          same = λ b. one_block b;
          as_many = refl;
          above = λ x h. only x h;
          fits = λ b h. only_block b a.rest (a.fewer b) h;
        };
        counted = refl;
        small = omega arith;
        values_at = refl;
      })
  where
    one_block : (b : ℕ) → count b (fresh ∷ []) ≡ count (b + 24) ((fresh + 24) ∷ [])
    one_block b = elim (Bool-cases (b == fresh)) [
      | inl here ↦
          let there : (b + 24 == fresh + 24) ≡ true = ground (arith, here) in rw (here, there) refl
      | inr other ↦
          let there : (b + 24 == fresh + 24) ≡ false = ground (arith, other) in
          rw (other, there) refl
    ]

    only : (x : ℕ) → 1 ≤ count x ((fresh + 24) ∷ []) → 24 ≤ x
    only x h = ground (arith, h)

    only_block :
        (b : ℕ) (rest : List ℕ)
        → count b rest ≤ 0
        → 1 ≤ count b rest + count b (fresh ∷ [])
        → (b ≢ 0) × (b + 24 < 2 ^ 48)
    only_block b rest fewer h = elim (Bool-cases (b == fresh)) [
      | inl here ↦
          subst (λ c. (c ≢ 0) × (c + 24 < 2 ^ 48)) (sym (ground (arith, here))) (some_block, fits)
      | inr other ↦ absurd (ground (arith, h, fewer, other))
    ]
