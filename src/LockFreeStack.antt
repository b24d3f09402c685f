-- ===== src/LockFreeStack.antt =====
-- LockFreeStack of NewNameAuction/LockFreeStack.h. A node is its address, 0 for NULL, and the heap says
-- what stands there, also in a node that has been given back. `top` is the 64-bit word: the address in
-- the low 48 bits, the stamp above them.
pub mod Chain
pub mod Pop
pub mod PushPop
use new_name_auction.Prelude.{
  ℕ, ◌+◌, ◌*◌, ◌/◌, ◌%◌, ◌^◌, Bool, true, false, Option, none, some, ◌==◌, if◌then◌else◌, add32,
  sub32, sle32,
}

pub record Node : Type 0 where
  pub next : ℕ
  pub data_of : ℕ

pub record Stack : Type 0 where
  pub heap : ℕ → Node
  pub top : ℕ
  pub node_count : ℕ

abbrev pub ptr_of : ℕ → ℕ
ptr_of word = word % 2 ^ 48

abbrev pub stamp_of : ℕ → ℕ
stamp_of word = word / 2 ^ 48

abbrev pub store : ℕ → Node → (ℕ → Node) → ℕ → Node
store a node heap b = if b == a then node else heap b

-- InterlockedCompareExchange64 on `top`, and whether it exchanged.
unfoldable pub compare_exchange : ℕ → ℕ → Stack → Bool × Stack
compare_exchange expected word s =
    if s.top == expected then (true, record s { top = word }) else (false, s)

-- The words that push and pop put: a push keeps the stamp, a pop raises it.
abbrev pub push_word : ℕ → ℕ → ℕ
push_word a temp = a + 2 ^ 48 * stamp_of temp

abbrev pub pop_word : ℕ → ℕ → ℕ
pop_word next temp = next + 2 ^ 48 * ((stamp_of temp + 1) % 2 ^ 16)

-- A round of push on the node `a`: after `tempTop = top`, and the exchange.
unfoldable pub push_link : ℕ → ℕ → Stack → Stack
push_link a temp s = record s { heap = store a (record (s.heap a) { next = ptr_of temp }) s.heap }

unfoldable pub push_try : ℕ → ℕ → Stack → Bool × Stack
push_try a temp s = compare_exchange temp (push_word a temp) s

-- The exchange of a round of pop, after the top and the next of its node have been read.
unfoldable pub pop_try : ℕ → ℕ → Stack → Bool × Stack
pop_try temp next s = compare_exchange temp (pop_word next temp) s

-- push and pop with nobody between: `a` is the node of the pool.
unfoldable pub push : ℕ → ℕ → Stack → Stack
push a value s =
    let filled = record s { heap = store a (record (s.heap a) { data_of = value }) s.heap } in
    let pushed = (push_try a s.top (push_link a s.top filled)).1 in
    record pushed { node_count = add32 pushed.node_count 1 }

unfoldable pub pop : Stack → Option ℕ × Stack
pop s =
    if sle32 s.node_count 0
    then (none, s)
    else (let taken = record s { node_count = sub32 s.node_count 1 } in
        if ptr_of s.top == 0
        then (none, record taken { node_count = add32 taken.node_count 1 })
        else (let node = s.heap (ptr_of s.top) in
            (some node.data_of, (pop_try s.top node.next taken).1)))
