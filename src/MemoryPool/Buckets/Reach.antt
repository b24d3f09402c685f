-- ===== src/MemoryPool/Buckets/Reach.antt =====
-- The calls that threads make of a CMemoryPoolBucket (MemoryPoolBucket.h), one after the other.
use new_name_auction.Prelude.{
  ℕ, ◌+◌, ◌-◌, ◌%◌, ◌^◌, ◌≤◌, ◌≡◌, refl, sym, ap, subst, ◌∙◌, inl, inr, true, List, [], ◌∷◌, arith,
  length, count, remove, count-remove, ◌==◌, Bool-cases, if◌then◌else◌,
}
use new_name_auction.LockFreeStack.{Node}
use new_name_auction.MemoryPool.{construct_pool, add_blocks, get_use_size}
use new_name_auction.MemoryPool.Blocks.{IsBlockAddress}
use new_name_auction.MemoryPool.Buckets.{BucketPool, bucket_alloc, bucket_free, bucket_use_size}
use new_name_auction.MemoryPool.Buckets.Items.{
  IsBucketPool, item_of, bucket_alloc-HandsOut, bucket_free-IsBucketPool,
}

-- The constructor with its default arguments: no block yet, and no bucket in any thread.
abbrev pub construct_buckets : (ℕ → Node) → (ℕ → ℕ) → ℕ → BucketPool
construct_buckets memory words stride = record {
  shared = construct_pool [] memory true;
  tls = λ thread. 0;
  alloc_count = words;
  use_count = words;
  bucket_of = words;
  stride = stride;
}

-- An address that new can return: that of no block of the pool.
abbrev pub IsNew : ℕ → BucketPool → List ℕ → Type 0
IsNew fresh p used =
    (free : List ℕ) → IsBucketPool p free used → count fresh free + count fresh used ≡ 0

-- The calls from the constructor on, with the blocks whose items the callers have: nobody gives back what
-- it has not.
pub data PoolReach (memory : ℕ → Node) (words : ℕ → ℕ) (stride : ℕ)
    : BucketPool → List ℕ → Type 0 where
  constructed : PoolReach memory words stride (construct_buckets memory words stride) []
  allocs :
      (p : BucketPool) (used : List ℕ) (thread fresh b : ℕ)
      → PoolReach memory words stride p used
      → IsBlockAddress fresh
      → IsNew fresh p used
      → (bucket_alloc thread fresh p).0 ≡ item_of b
      → PoolReach memory words stride (bucket_alloc thread fresh p).1 (b ∷ used)
  frees :
      (p : BucketPool) (used : List ℕ) (b : ℕ)
      → PoolReach memory words stride p used
      → count b used ≡ 1
      → PoolReach memory words stride (bucket_free (item_of b) p) (remove b used)

-- A state of the pool, with the blocks in use at addresses of blocks.
record IsReached (p : BucketPool) (used : List ℕ) : Type 0 where
  free : List ℕ
  is : IsBucketPool p free used
  addresses : (b : ℕ) → count b used ≡ 1 → IsBlockAddress b

construct_buckets-IsBucketPool :
    (memory : ℕ → Node) (words : ℕ → ℕ) (stride : ℕ)
    → IsBucketPool (construct_buckets memory words stride) [] []
unfolding add_blocks
construct_buckets-IsBucketPool memory words stride = record {
  pool = record {
    stack = record { linked = refl; distinct = tt; word = omega arith };
    once = λ b. omega arith;
    counted = refl;
    sized = refl;
  };
  no_bucket = λ thread. refl;
  one_use = λ b e. absurd (omega (arith, e));
  known = λ b e. absurd (omega (arith, e));
}

item_of-injective : (a b : ℕ) → item_of a ≡ item_of b → a ≡ b
item_of-injective a b e = omega (arith, e)

PoolReach-IsReached :
    (memory : ℕ → Node) (words : ℕ → ℕ) (stride : ℕ) (p : BucketPool) (used : List ℕ)
    → PoolReach memory words stride p used
    → IsReached p used
PoolReach-IsReached memory words stride _ _ constructed = record {
  free = [];
  is = construct_buckets-IsBucketPool memory words stride;
  addresses = λ b e. absurd (omega (arith, e));
}
PoolReach-IsReached memory words stride _ _ (allocs p used thread fresh b r address new given) =
    let before = PoolReach-IsReached memory words stride p used r in
    let h =
      bucket_alloc-HandsOut thread fresh p before.free used before.is address
        (new before.free before.is) in
    let same : h.block ≡ b = item_of-injective h.block b (sym h.given ∙ given) in
    record {
      free = h.rest;
      is = subst (λ a. IsBucketPool (bucket_alloc thread fresh p).1 h.rest (a ∷ used)) same h.is;
      addresses = λ c e. elim (Bool-cases (c == b)) [
        | inl eq ↦ subst IsBlockAddress (same ∙ sym (ground (arith, eq))) h.address
        | inr other ↦ before.addresses c (ground (arith, e, other))
      ];
    }
PoolReach-IsReached memory words stride _ _ (frees p used b r mine) =
    let before = PoolReach-IsReached memory words stride p used r in
    record {
      free = b ∷ before.free;
      is = bucket_free-IsBucketPool b p before.free used before.is (before.addresses b mine) mine;
      addresses = λ c e.
          before.addresses c
            (in_use c e (count-remove b c used) (omega (arith, before.is.pool.once c)));
    }
  where
    in_use :
        (c : ℕ)
        → count c (remove b used) ≡ 1
        → count c (remove b used) ≡ (if b == c then count c used - 1 else count c used)
        → count c used ≤ 1
        → count c used ≡ 1
    in_use c e removed once = ground (arith, e, removed, once)

nobody_has : (b : ℕ) (used rest : List ℕ) → count b rest + count b (b ∷ used) ≤ 1 → count b used ≡ 0
nobody_has b used rest once = ground (arith, once)

-- In every state of the pool that is reached by mAlloc and by mFree of items handed out, the next mAlloc of
-- a thread hands out an item of a block that nobody has, where new does not return a block of the pool,
-- and getUseSize is the number of items that the callers have, modulo 2 ^ 32.
pub PoolReach-fresh :
    (memory : ℕ → Node) (words : ℕ → ℕ) (stride : ℕ) (p : BucketPool) (used : List ℕ)
    (thread fresh : ℕ)
    → PoolReach memory words stride p used
    → IsBlockAddress fresh
    → IsNew fresh p used
    → (b : ℕ) × ((bucket_alloc thread fresh p).0 ≡ item_of b)
      × (count b used ≡ 0)
      × (bucket_use_size p ≡ length used % 2 ^ 32)
unfolding bucket_use_size get_use_size
PoolReach-fresh memory words stride p used thread fresh r address new =
    let before = PoolReach-IsReached memory words stride p used r in
    let h =
      bucket_alloc-HandsOut thread fresh p before.free used before.is address
        (new before.free before.is) in
    (
      h.block,
      h.given,
      nobody_has h.block used h.rest (h.is.pool.once h.block),
      before.is.pool.counted,
    )

-- In every such state an item that is given back is the next to be handed out, to any thread.
pub PoolReach-reuse :
    (memory : ℕ → Node) (words : ℕ → ℕ) (stride : ℕ) (p : BucketPool) (used : List ℕ)
    (b thread fresh : ℕ)
    → PoolReach memory words stride p used
    → count b used ≡ 1
    → IsBlockAddress fresh
    → IsNew fresh p used
    → (bucket_alloc thread fresh (bucket_free (item_of b) p)).0 ≡ item_of b
PoolReach-reuse memory words stride p used b thread fresh r mine address new =
    let before = PoolReach-IsReached memory words stride p used r in
    let is =
      bucket_free-IsBucketPool b p before.free used before.is (before.addresses b mine) mine in
    let h =
      bucket_alloc-HandsOut thread fresh (bucket_free (item_of b) p) (b ∷ before.free)
        (remove b used) is address
        (still_new before.free (new before.free before.is) (count-remove b fresh used)) in
    h.given ∙ ap item_of h.chosen
  where
    still_new :
        (free : List ℕ)
        → count fresh free + count fresh used ≡ 0
        → count fresh (remove b used)
          ≡ (if b == fresh then count fresh used - 1 else count fresh used)
        → count fresh (b ∷ free) + count fresh (remove b used) ≡ 0
    still_new free none_there removed = elim (Bool-cases (fresh == b)) [
      | inl same ↦
          let eq : b ≡ fresh = ground (arith, same) in
          absurd (ground (arith, none_there, subst (λ c. count c used ≡ 1) eq mine))
      | inr other ↦ ground (arith, none_there, removed, other)
    ]
