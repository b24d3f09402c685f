-- ===== src/MemoryPool.antt =====
-- CMemoryPool of NewNameAuction/MemoryPoolBucket.h, built without ERROR_CHECK_FLAG. The free blocks are a
-- stack like that of LockFreeStack.h: a `Node` stands for what the code reads of a block, `data_of` for
-- isUse. A block is its address, and a pointer to its data the address 24 above it. Whether the
-- constructor and the destructor of the data run depends on `alloc` and changes nothing here.
pub mod Blocks
pub mod Buckets
use new_name_auction.Prelude.{ℕ, ◌+◌, ◌-◌, Bool, List, [], ◌∷◌, ◌==◌, if◌then◌else◌, add32, sub32}
use new_name_auction.LockFreeStack.{Node, Stack, ptr_of, store, push_link, push_try, pop_try}

pub record Pool : Type 0 where
  pub blocks : ℕ → Node
  pub free_node : ℕ
  pub use_size : ℕ
  pub capacity : ℕ
  pub alloc : Bool

-- The free blocks as the stack that they are.
abbrev pub free_stack : Pool → Stack
free_stack p = record { heap = p.blocks; top = p.free_node; node_count = 0 }

abbrev pub with_stack : Pool → Stack → Pool
with_stack p s = record p { blocks = s.heap; free_node = s.top }

-- The constructor, given what stands in memory before and the addresses that new or malloc return.
abbrev pub empty_pool : (ℕ → Node) → Bool → Pool
empty_pool memory alloc = record {
  blocks = memory;
  free_node = 0;
  use_size = 0;
  capacity = 0;
  alloc = alloc;
}

abbrev pub add_block : ℕ → Pool → Pool
add_block b p = record p {
  blocks = store b (record (p.blocks b) { next = p.free_node }) p.blocks;
  free_node = b;
  capacity = p.capacity + 1;
}

unfoldable pub add_blocks : List ℕ → Pool → Pool
add_blocks [] p = p
add_blocks (b ∷ bs) p = add_blocks bs (add_block b p)

abbrev pub construct_pool : List ℕ → (ℕ → Node) → Bool → Pool
construct_pool bs memory alloc = add_blocks bs (empty_pool memory alloc)

-- mAlloc with nobody between: `fresh` is the block that new or malloc would return.
unfoldable pub pool_alloc : ℕ → Pool → ℕ × Pool
pool_alloc fresh p =
    let top = ptr_of p.free_node in
    if top == 0
    then (fresh + 24, record p { capacity = add32 p.capacity 1; use_size = add32 p.use_size 1 })
    else (let taken = with_stack p (pop_try p.free_node (p.blocks top).next (free_stack p)).1 in
        (
          top + 24,
          record taken {
            blocks = store top (record (taken.blocks top) { data_of = 1 }) taken.blocks;
            use_size = add32 taken.use_size 1;
          },
        ))

-- mFree with nobody between.
unfoldable pub pool_free : ℕ → Pool → Pool
pool_free ptr p =
    let b = ptr - 24 in
    let back = with_stack p (push_try b p.free_node (push_link b p.free_node (free_stack p))).1 in
    record back { use_size = sub32 back.use_size 1 }

unfoldable pub get_use_size : Pool → ℕ
get_use_size p = p.use_size
