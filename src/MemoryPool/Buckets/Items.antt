-- ===== src/MemoryPool/Buckets/Items.antt =====
-- The items that CMemoryPoolBucket (MemoryPoolBucket.h) hands out and takes back.
use new_name_auction.Prelude.{
  ℕ, ◌+◌, ◌-◌, ◌*◌, ◌≡◌, refl, sym, ap, subst, ◌∙◌, inl, inr, true, false, List, ◌∷◌, arith, ◌==◌,
  if◌then◌else◌, Bool-cases, count, remove, count-remove,
}
use new_name_auction.MemoryPool.{pool_alloc, pool_free}
use new_name_auction.MemoryPool.Blocks.{
  IsPool, IsBlockAddress, next_block, pool_alloc-Allocates, pool_free-IsPool,
}
use new_name_auction.MemoryPool.Buckets.{
  BucketPool, put, mark_elements, borrow_bucket, bucket_alloc, bucket_free,
}

-- No thread keeps a bucket between two calls, and the bucket of a block in use has its one item given out,
-- which knows it.
pub record IsBucketPool (p : BucketPool) (free used : List ℕ) : Type 0 where
  pub pool : IsPool p.shared free used
  pub no_bucket : (thread : ℕ) → p.tls thread ≡ 0
  pub one_use : (b : ℕ) → count b used ≡ 1 → p.use_count (b + 24) ≡ 1
  pub known : (b : ℕ) → count b used ≡ 1 → p.bucket_of (b + 24) ≡ b + 24

-- The item of a block.
abbrev pub item_of : ℕ → ℕ
item_of b = b + 24 + 8

-- mAlloc where the thread has no bucket: one is borrowed, its first element given out, and it is left.
bucket_alloc-run :
    (thread fresh b : ℕ) (p : BucketPool)
    → p.tls thread ≡ 0
    → (pool_alloc fresh p.shared).0 ≡ b + 24
    → bucket_alloc thread fresh p ≡ (
      item_of b,
      record p {
        shared = (pool_alloc fresh p.shared).1;
        bucket_of = put (b + 24) (b + 24) p.bucket_of;
        alloc_count = put (b + 24) 1 (put (b + 24) 0 p.alloc_count);
        use_count = put (b + 24) 1 p.use_count;
        tls = put thread 0 (put thread (b + 24) p.tls);
      },
    )
unfolding bucket_alloc borrow_bucket mark_elements
bucket_alloc-run thread fresh b p none_held given =
    let self : (thread == thread) ≡ true = ground arith in
    let self' : (b + 24 == b + 24) ≡ true = ground arith in
    let first : 0 * p.stride ≡ 0 = omega arith in
    let at : b + 24 + 0 ≡ b + 24 = omega arith in rw (none_held, given, self, self', first, at) refl

-- A word that is put at the data of one block, read at that of another.
put_at : (b c v : ℕ) (f : ℕ → ℕ) → put (b + 24) v f (c + 24) ≡ (if c == b then v else f (c + 24))
put_at b c v f = elim (Bool-cases (c == b)) [
  | inl same ↦ let test : (c + 24 == b + 24) ≡ true = ground (arith, same) in rw (same, test) refl
  | inr other ↦
      let test : (c + 24 == b + 24) ≡ false = ground (arith, other) in rw (other, test) refl
]

put_back : (thread v t : ℕ) (f : ℕ → ℕ) → f t ≡ 0 → put thread 0 (put thread v f) t ≡ 0
put_back thread v t f e = ground (arith, e)

-- What mAlloc hands out and leaves.
pub record HandsOut (thread fresh : ℕ) (p : BucketPool) (free used : List ℕ) : Type 0 where
  pub block : ℕ
  pub rest : List ℕ
  pub chosen : block ≡ next_block fresh free
  pub given : (bucket_alloc thread fresh p).0 ≡ item_of block
  pub is : IsBucketPool (bucket_alloc thread fresh p).1 rest (block ∷ used)
  pub address : IsBlockAddress block

pub bucket_alloc-HandsOut :
    (thread fresh : ℕ) (p : BucketPool) (free used : List ℕ)
    → IsBucketPool p free used
    → IsBlockAddress fresh
    → count fresh free + count fresh used ≡ 0
    → HandsOut thread fresh p free used
bucket_alloc-HandsOut thread fresh p free used is address new =
    let a = pool_alloc-Allocates fresh p.shared free used is.pool address new in
    let run = bucket_alloc-run thread fresh a.block p (is.no_bucket thread) a.given in
    let after : IsBucketPool
        (record p {
          shared = (pool_alloc fresh p.shared).1;
          bucket_of = put (a.block + 24) (a.block + 24) p.bucket_of;
          alloc_count = put (a.block + 24) 1 (put (a.block + 24) 0 p.alloc_count);
          use_count = put (a.block + 24) 1 p.use_count;
          tls = put thread 0 (put thread (a.block + 24) p.tls);
        })
        a.rest (a.block ∷ used) =
      record {
        pool = a.is;
        no_bucket = λ t. put_back thread (a.block + 24) t p.tls (is.no_bucket t);
        one_use = λ c e. one c a.block e;
        known = λ c e. own c a.block e;
      } in
    record {
      block = a.block;
      rest = a.rest;
      chosen = a.chosen;
      given = ap (λ r. r.0) run;
      is = subst (λ r. IsBucketPool r.1 a.rest (a.block ∷ used)) (sym run) after;
      address = a.address;
    }
  where
    one : (c b : ℕ) → count c (b ∷ used) ≡ 1 → put (b + 24) 1 p.use_count (c + 24) ≡ 1
    one c b e = put_at b c 1 p.use_count ∙ elim (Bool-cases (c == b)) [
      | inl same ↦ rw same refl
      | inr other ↦ rw other (is.one_use c (ground (arith, e, other)))
    ]

    own : (c b : ℕ) → count c (b ∷ used) ≡ 1 → put (b + 24) (b + 24) p.bucket_of (c + 24) ≡ c + 24
    own c b e = put_at b c (b + 24) p.bucket_of ∙ elim (Bool-cases (c == b)) [
      | inl same ↦ rw same (ground (arith, same))
      | inr other ↦ rw other (is.known c (ground (arith, e, other)))
    ]

bucket_free-run :
    (b : ℕ) (p : BucketPool)
    → p.bucket_of (b + 24) ≡ b + 24
    → p.use_count (b + 24) ≡ 1
    → bucket_free (item_of b) p
      ≡ record p { use_count = put (b + 24) 0 p.use_count; shared = pool_free (b + 24) p.shared }
unfolding bucket_free
bucket_free-run b p known one =
    let at : b + 24 + 8 - 8 ≡ b + 24 = omega arith in rw (at, known, one) refl

-- mFree of an item that has been handed out.
pub bucket_free-IsBucketPool :
    (b : ℕ) (p : BucketPool) (free used : List ℕ)
    → IsBucketPool p free used
    → IsBlockAddress b
    → count b used ≡ 1
    → IsBucketPool (bucket_free (item_of b) p) (b ∷ free) (remove b used)
bucket_free-IsBucketPool b p free used is address mine =
    subst (λ p'. IsBucketPool p' (b ∷ free) (remove b used))
      (sym (bucket_free-run b p (is.known b mine) (is.one_use b mine)))
      (record {
        pool = pool_free-IsPool b p.shared free used is.pool address mine;
        no_bucket = is.no_bucket;
        one_use = λ c e.
            (let (other, still) = left c e (count-remove b c used) in
              put_at b c 0 p.use_count ∙ rw other (is.one_use c still));
        known = λ c e. is.known c (left c e (count-remove b c used)).1;
      })
  where
    left :
        (c : ℕ)
        → count c (remove b used) ≡ 1
        → count c (remove b used) ≡ (if b == c then count c used - 1 else count c used)
        → ((c == b) ≡ false) × (count c used ≡ 1)
    left c e removed = elim (Bool-cases (b == c)) [
      | inl same ↦
          let eq : c ≡ b = ground (arith, same) in
          absurd (ground (arith, removed, e, same, subst (λ x. count x used ≡ 1) (sym eq) mine))
      | inr other ↦ (ground (arith, other), ground (arith, removed, e, other))
    ]
