-- ===== src/Tests/Pools.antt =====
-- The memory pool and the lock-free queue, from their constructors.
use new_name_auction.Prelude.{
  ℕ, ◌+◌, ◌≡◌, refl, sym, ap, ap₂, map, ◌∙◌, arith, true, List, [], ◌∷◌, some, count,
}
use new_name_auction.LockFreeStack.{Node}
use new_name_auction.LockFreeStack.Chain.{Linked}
use new_name_auction.MemoryPool.{empty_pool, pool_alloc, add_blocks}
use new_name_auction.MemoryPool.Buckets.{
  BucketPool, bucket_alloc, bucket_free, bucket_use_size, borrow_bucket, mark_elements,
}
use new_name_auction.MemoryPool.Buckets.Items.{item_of}
use new_name_auction.MemoryPool.Buckets.Reach.{
  construct_buckets, PoolReach, constructed, allocs, IsNew, PoolReach-fresh, PoolReach-reuse,
}
use new_name_auction.LockFreeQueue.{Queue, construct_queue, enqueue_value, dequeue_value}
use new_name_auction.LockFreeQueue.Chain.{IsQueue, data_at}
use new_name_auction.LockFreeQueue.Enqueue.{IsFresh, enqueue_value_lem}
use new_name_auction.LockFreeQueue.Dequeue.{dequeue_value_lem}
use new_name_auction.LockFreeQueue.Start.{construct_queue-IsQueue}

abbrev memory : ℕ → Node
memory b = record { next = 0; data_of = 0 }

abbrev no_words : ℕ → ℕ
no_words b = 0

no_free : (heap : ℕ → Node) (free : List ℕ) → Linked heap 0 free → free ≡ []
no_free heap [] l = refl
no_free heap (x ∷ free) l = absurd (l.1 (sym l.0))

abbrev buckets : BucketPool
buckets = construct_buckets memory no_words 16

buckets-IsNew : IsNew 4096 buckets []
unfolding add_blocks
buckets-IsNew free is = ap (λ xs. count 4096 xs + 0) (no_free memory free is.pool.stack.linked)

PoolReach-fresh_example :
    (b : ℕ) × ((bucket_alloc 1 4096 buckets).0 ≡ item_of b)
    × (count b [] ≡ 0)
    × (bucket_use_size buckets ≡ 0)
PoolReach-fresh_example =
    PoolReach-fresh memory no_words 16 buckets [] 1 4096 constructed (omega arith, omega arith)
      buckets-IsNew

abbrev lent : BucketPool
lent = (bucket_alloc 1 4096 buckets).1

lent_reached : PoolReach memory no_words 16 lent (4096 ∷ [])
unfolding bucket_alloc borrow_bucket pool_alloc add_blocks mark_elements
lent_reached =
    allocs buckets [] 1 4096 4096 constructed (omega arith, omega arith) buckets-IsNew refl

lent-IsNew : IsNew 8192 lent (4096 ∷ [])
unfolding bucket_alloc borrow_bucket pool_alloc add_blocks mark_elements
lent-IsNew free is = ap (λ xs. count 8192 xs + 0) (no_free memory free is.pool.stack.linked)

PoolReach-reuse_example : (bucket_alloc 2 8192 (bucket_free (item_of 4096) lent)).0 ≡ item_of 4096
PoolReach-reuse_example =
    PoolReach-reuse memory no_words 16 lent (4096 ∷ []) 4096 2 8192 lent_reached refl
      (omega arith, omega arith) lent-IsNew

abbrev queue : Queue
queue = construct_queue 4096 memory (empty_pool memory true)

abbrev queue_is : IsQueue queue []
queue_is = construct_queue-IsQueue 4096 memory memory true (omega arith) (omega arith)

no_nodes : (f : ℕ → ℕ) (nodes : List ℕ) → [] ≡ map f nodes → nodes ≡ []
no_nodes f [] e = refl
no_nodes f (x ∷ xs) e = cc

-- 8192 is none of the blocks of the pool.
queue_new : (is : IsQueue queue []) → count 8192 is.owns.free + count 8192 is.owns.used ≡ 0
unfolding construct_queue pool_alloc
queue_new is =
    let no_block : count 8192 is.owns.free ≡ 0 =
      ap (count 8192) (no_free memory is.owns.free is.owns.is.stack.linked) in
    let used : count 8192 is.owns.used ≡ count 8216 (4120 ∷ []) =
      is.owns.same 8192
      ∙ ap₂ (λ d xs. count 8216 (d ∷ xs)) (sym is.chain.linked.0)
          (no_nodes (data_at queue.nodes) is.nodes is.values_at) in
    omega (arith, no_block, used)

queue-IsFresh : IsFresh 8192 queue_is.owns.free queue_is.owns.used
queue-IsFresh = record { some_block = omega arith; fits = omega arith; new = queue_new queue_is }

enqueue_value_lem_example :
    (q' : Queue) × (enqueue_value 1 7 8192 queue ≡ some q') × IsQueue q' (7 ∷ [])
enqueue_value_lem_example =
    enqueue_value_lem 1 7 8192 queue [] queue_is queue-IsFresh (omega arith) (omega arith)

-- A queue with a value.
abbrev filled : (q' : Queue) × (enqueue_value 1 7 8192 queue ≡ some q') × IsQueue q' (7 ∷ [])
filled = enqueue_value_lem 1 7 8192 queue [] queue_is queue-IsFresh (omega arith) (omega arith)

dequeue_value_lem_example :
    (q' : Queue) × (dequeue_value 1 filled.0 ≡ some (some 7, q')) × IsQueue q' []
dequeue_value_lem_example = dequeue_value_lem 0 filled.0 (7 ∷ []) filled.2
