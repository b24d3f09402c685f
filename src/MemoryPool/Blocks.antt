-- ===== src/MemoryPool/Blocks.antt =====
-- Which blocks of CMemoryPool (MemoryPoolBucket.h) are free, and which are in use.
use new_name_auction.Prelude.{
  ℕ, ◌+◌, ◌-◌, ◌%◌, ◌^◌, ◌≤◌, ◌<◌, ◌≡◌, ◌≢◌, refl, sym, ap, subst, inl, inr, false, List, [], ◌∷◌,
  arith, ◌==◌, if◌then◌else◌, Bool-cases, length, add32, sub32, count, remove, count-remove,
  length-remove,
}
use new_name_auction.LockFreeStack.{ptr_of, store, push_link, push_try, pop_try}
use new_name_auction.LockFreeStack.Chain.{NotIn, IsStack, Linked-store}
use new_name_auction.LockFreeStack.Pop.{push_round-IsStack, pop_try-IsStack}
use new_name_auction.MemoryPool.{Pool, free_stack, with_stack, pool_alloc, pool_free}

-- The free blocks, the next to be given out first, and those in use: no block is both or twice either, and
-- the counters count them.
pub record IsPool (p : Pool) (free used : List ℕ) : Type 0 where
  pub stack : IsStack (free_stack p) free
  pub once : (b : ℕ) → count b free + count b used ≤ 1
  pub counted : p.use_size ≡ length used % 2 ^ 32
  pub sized : p.capacity ≡ (length free + length used) % 2 ^ 32

pub count-NotIn : (b : ℕ) (xs : List ℕ) → count b xs ≡ 0 → NotIn b xs
count-NotIn b [] h = tt
count-NotIn b (x ∷ xs) h = (λ e. ground (arith, h, e), count-NotIn b xs (omega (arith, h)))

-- An address of a block.
abbrev pub IsBlockAddress : ℕ → Type 0
IsBlockAddress b = (b ≢ 0) × (b < 2 ^ 48)

-- A free stack without its first block, which stays out of it when its mark is written.
abbrev taken : ℕ → Pool → Pool
taken a p = with_stack p (pop_try p.free_node (p.blocks a).next (free_stack p)).1

pool_alloc-some :
    (fresh a : ℕ) (p : Pool)
    → ptr_of p.free_node ≡ a
    → a ≢ 0
    → pool_alloc fresh p ≡ (
      a + 24,
      record (taken a p) {
        blocks = store a (record ((taken a p).blocks a) { data_of = 1 }) (taken a p).blocks;
        use_size = add32 p.use_size 1;
      },
    )
unfolding pool_alloc
pool_alloc-some fresh a p at some_block =
    let test : (a == 0) ≡ false = ground (arith, some_block) in rw (at, test) refl

pool_alloc-none :
    (fresh : ℕ) (p : Pool)
    → ptr_of p.free_node ≡ 0
    → pool_alloc fresh p
      ≡ (fresh + 24, record p { capacity = add32 p.capacity 1; use_size = add32 p.use_size 1 })
unfolding pool_alloc
pool_alloc-none fresh p at = rw at refl

-- The block freed last, or the new one if none is free.
abbrev pub next_block : ℕ → List ℕ → ℕ
next_block fresh [] = fresh
next_block fresh (a ∷ free) = a

-- What mAlloc gives and leaves.
pub record Allocates (fresh : ℕ) (p : Pool) (free used : List ℕ) : Type 0 where
  pub block : ℕ
  pub rest : List ℕ
  pub chosen : block ≡ next_block fresh free
  pub fewer : (b : ℕ) → count b rest ≤ count b free
  pub given : (pool_alloc fresh p).0 ≡ block + 24
  pub is : IsPool (pool_alloc fresh p).1 rest (block ∷ used)
  pub address : IsBlockAddress block

-- A block that neither list has joins one of them.
once_more :
    (a b : ℕ) (free used : List ℕ)
    → count a free + count a used ≡ 0
    → count b free + count b used ≤ 1
    → count b free + count b (a ∷ used) ≤ 1
once_more a b free used new once = elim (Bool-cases (b == a)) [
  | inl same ↦ let e : b ≡ a = ground arith in rw e (ground (arith, new))
  | inr other ↦ ground (arith, other, once)
]

pub pool_alloc-Allocates :
    (fresh : ℕ) (p : Pool) (free used : List ℕ)
    → IsPool p free used
    → IsBlockAddress fresh
    → count fresh free + count fresh used ≡ 0
    → Allocates fresh p free used
pool_alloc-Allocates fresh p [] used is address new =
    let run = pool_alloc-none fresh p is.stack.linked in
    record {
      block = fresh;
      rest = [];
      chosen = refl;
      fewer = λ b. omega arith;
      given = ap (λ r. r.0) run;
      is =
          subst (λ r. IsPool r.1 [] (fresh ∷ used)) (sym run)
            (record {
              stack = record {
                linked = is.stack.linked;
                distinct = is.stack.distinct;
                word = is.stack.word;
              };
              once = λ b. once_more fresh b [] used new (is.once b);
              counted = omega (arith, is.counted);
              sized = omega (arith, is.sized);
            });
      address = address;
    }
pool_alloc-Allocates fresh p (a ∷ free) used is address new =
    let l = is.stack.linked in
    let run = pool_alloc-some fresh a p l.0 l.1 in
    let (_, popped, _) = pop_try-IsStack a (p.blocks a).next (free_stack p) free is.stack refl in
    record {
      block = a;
      rest = free;
      chosen = refl;
      fewer = λ b. omega arith;
      given = ap (λ r. r.0) run;
      is =
          subst (λ r. IsPool r.1 free (a ∷ used)) (sym run)
            (record {
              stack = record {
                linked = Linked-store a _ _ _ free is.stack.distinct.0 popped.linked;
                distinct = popped.distinct;
                word = popped.word;
              };
              once = λ b. omega (arith, is.once b);
              counted = omega (arith, is.counted);
              sized = omega (arith, is.sized);
            });
      address = (l.1, l.2);
    }

pool_free-run :
    (a : ℕ) (p : Pool)
    → pool_free (a + 24) p
      ≡ record (with_stack p (push_try a p.free_node (push_link a p.free_node (free_stack p))).1) {
        use_size = sub32 p.use_size 1;
      }
unfolding pool_free
pool_free-run a p =
    ap
      (λ b.
        record (with_stack p (push_try b p.free_node (push_link b p.free_node (free_stack p))).1) {
          use_size = sub32 p.use_size 1;
        })
      (omega arith)

-- mFree of a block in use.
pub pool_free-IsPool :
    (a : ℕ) (p : Pool) (free used : List ℕ)
    → IsPool p free used
    → IsBlockAddress a
    → count a used ≡ 1
    → IsPool (pool_free (a + 24) p) (a ∷ free) (remove a used)
pool_free-IsPool a p free used is address mine =
    let out : NotIn a free = count-NotIn a free (omega (arith, is.once a, mine)) in
    let pushed = push_round-IsStack a (free_stack p) free is.stack address.0 address.1 out in
    let fewer = length-remove a used (omega (arith, mine)) in
    subst (λ p'. IsPool p' (a ∷ free) (remove a used)) (sym (pool_free-run a p))
      (record {
        stack = record { linked = pushed.linked; distinct = pushed.distinct; word = pushed.word };
        once = λ b. moved b (count-remove a b used);
        counted = omega (arith, is.counted, fewer);
        sized = omega (arith, is.sized, fewer);
      })
  where
    moved :
        (b : ℕ)
        → count b (remove a used) ≡ (if a == b then count b used - 1 else count b used)
        → count b (a ∷ free) + count b (remove a used) ≤ 1
    moved b e = elim (Bool-cases (a == b)) [
      | inl same ↦
          let eq : b ≡ a = ground arith in
          rw eq (
            ground (
              arith,
              subst
                  (λ c.
                    count c (remove a used) ≡ (if a == c then count c used - 1 else count c used))
                  eq e,
              mine,
              is.once a,
            ))
      | inr other ↦ ground (arith, e, other, is.once b)
    ]
