-- ===== src/MemoryPool/Buckets.antt =====
-- CMemoryPoolBucket of NewNameAuction/MemoryPoolBucket.h. A bucket is the address of its data in the shared
-- pool, 0 for NULL; its array starts there, with `stride` bytes to an element, and the item of an
-- element is the address 8 above it.
pub mod Items
pub mod Reach
use new_name_auction.Prelude.{ℕ, zero, suc, ◌+◌, ◌-◌, ◌*◌, ◌==◌, if◌then◌else◌, add32, sub32}
use new_name_auction.MemoryPool.{Pool, pool_alloc, pool_free, get_use_size}

-- POOL_BUCKET_SIZE
abbrev pub bucket_size : ℕ
bucket_size = 1

-- `tls` is what TlsGetValue returns in each thread, `bucket_of` the word bucketAddress of each element.
pub record BucketPool : Type 0 where
  pub shared : Pool
  pub tls : ℕ → ℕ
  pub alloc_count : ℕ → ℕ
  pub use_count : ℕ → ℕ
  pub bucket_of : ℕ → ℕ
  pub stride : ℕ

abbrev pub put : ℕ → ℕ → (ℕ → ℕ) → ℕ → ℕ
put a v f b = if b == a then v else f b

-- The loop of borrowBucket over the elements.
unfoldable pub mark_elements : ℕ → ℕ → ℕ → (ℕ → ℕ) → ℕ → ℕ
mark_elements zero bucket stride f = f
mark_elements (suc k) bucket stride f =
    put (bucket + k * stride) bucket (mark_elements k bucket stride f)

unfoldable pub borrow_bucket : ℕ → ℕ → BucketPool → BucketPool
borrow_bucket thread fresh p =
    let (bucket, shared) = pool_alloc fresh p.shared in
    record p {
      shared = shared;
      bucket_of = mark_elements bucket_size bucket p.stride p.bucket_of;
      alloc_count = put bucket 0 p.alloc_count;
      use_count = put bucket bucket_size p.use_count;
      tls = put thread bucket p.tls;
    }

-- mAlloc by a thread: the item, where the pool would get `fresh` from new.
unfoldable pub bucket_alloc : ℕ → ℕ → BucketPool → ℕ × BucketPool
bucket_alloc thread fresh p =
    let held = if p.tls thread == 0 then borrow_bucket thread fresh p else p in
    let bucket = held.tls thread in
    let temp = held.alloc_count bucket in
    let counted = record held { alloc_count = put bucket (add32 temp 1) held.alloc_count } in
    let left =
      if counted.alloc_count bucket == bucket_size
      then record counted { tls = put thread 0 counted.tls }
      else counted in
    (bucket + temp * p.stride + 8, left)

unfoldable pub bucket_free : ℕ → BucketPool → BucketPool
bucket_free item p =
    let bucket = p.bucket_of (item - 8) in
    let left = sub32 (p.use_count bucket) 1 in
    let counted = record p { use_count = put bucket left p.use_count } in
    if left == 0 then record counted { shared = pool_free bucket counted.shared } else counted

unfoldable pub bucket_use_size : BucketPool → ℕ
bucket_use_size p = get_use_size p.shared
