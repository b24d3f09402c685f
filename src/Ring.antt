-- ===== src/Ring.antt =====
-- CRingBuffer of NewNameAuction/ringbuffer.h and ringbuffer.cpp: the bytes that a session has received
-- and the server has not taken yet. A pointer is its offset from `begin`; `front` and `rear` stand on
-- the last byte taken and the last byte put, so that the byte at `begin` is never used. Sizes of type
-- `int` are 32-bit patterns.
pub mod Contents
pub mod Enqueue
pub mod Dequeue
pub mod Peek
pub mod Sizes
use new_name_auction.Prelude.{
  ℕ, ◌+◌, ◌-◌, Bool, List, ◌++◌, Option, none, some, ltb, leb, ◌==◌, if◌then◌else◌, take, drop,
  read_at, write_at, sub32, slt32, sle32, minus_one,
}

pub record Ring : Type 0 where
  pub size : ℕ
  pub cells : List ℕ
  pub front : ℕ
  pub rear : ℕ

-- The offset of `end`.
abbrev pub end_of : Ring → ℕ
end_of r = r.size - 1

-- The size of the default constructor.
abbrev pub default_size : ℕ
default_size = 80001

-- The constructor: `memory` is what VirtualAlloc returned, `size` bytes.
unfoldable pub construct_ring : ℕ → List ℕ → Ring
construct_ring size memory = record { size = size; cells = memory; front = 0; rear = 0 }

-- `usableSize`
unfoldable pub ring_size : Ring → ℕ
ring_size r = end_of r

-- A pointer that stands on the last byte goes on from `begin`.
abbrev pub wrapped : Ring → ℕ → ℕ
wrapped r p = if p == end_of r then 0 else p

unfoldable pub use_size : Ring → ℕ
use_size r =
    if r.front == r.rear
    then 0
    else if leb (wrapped r r.front) r.rear
    then sub32 r.rear (wrapped r r.front)
    else sub32 (end_of r) (sub32 (wrapped r r.front) r.rear)

unfoldable pub free_size : Ring → ℕ
free_size r =
    if r.front == 0 then sub32 (end_of r) (use_size r) else sub32 (sub32 (end_of r) 1) (use_size r)

unfoldable pub direct_enqueue_size : Ring → ℕ
direct_enqueue_size r =
    if leb r.front r.rear
    then if r.rear == end_of r then sub32 r.front 1 else sub32 (end_of r) r.rear
    else sub32 (sub32 r.front r.rear) 1

unfoldable pub direct_dequeue_size : Ring → ℕ
direct_dequeue_size r =
    if r.front == end_of r
    then if r.rear == end_of r then 0 else r.rear
    else if leb r.front r.rear
    then sub32 r.rear r.front
    else sub32 (end_of r) r.front

-- The copies of `Enqueue` behind the position `p`, up to the last byte and then from the second.
abbrev pub put_bytes : ℕ → List ℕ → ℕ → Ring → Ring
put_bytes p source n r = record r { cells = write_at (p + 1) (take n source) r.cells; rear = p + n }

abbrev pub put_around : ℕ → List ℕ → ℕ → Ring → Ring
put_around p source n r =
    let first = end_of r - p in
    let second = n - first in
    record r {
      cells =
          write_at 1 (take second (drop first source))
            (write_at (p + 1) (take first source) r.cells);
      rear = second;
    }

-- `Enqueue`: the source holds at least `n` bytes.
unfoldable pub enqueue : List ℕ → ℕ → Ring → ℕ × Ring
enqueue source n r =
    let f = wrapped r r.front in
    let p = wrapped r r.rear in
    if sle32 n 0
    then (0, r)
    else if slt32 (free_size r) n
    then (minus_one, r)
    else if leb f p
    then if leb n (end_of r - p) then (n, put_bytes p source n r) else (n, put_around p source n r)
    else (n, put_bytes p source n r)

-- What the copies of `Dequeue` and `Peek` take from behind the position `f`.
abbrev pub bytes_around : ℕ → ℕ → Ring → List ℕ
bytes_around f n r =
    let first = end_of r - f in read_at (f + 1) first r.cells ++ read_at 1 (n - first) r.cells

-- `Dequeue`: the returned `int`, the bytes copied out (none on the early returns), the buffer.
unfoldable pub dequeue : ℕ → Ring → ℕ × Option (List ℕ) × Ring
dequeue n r =
    let f = wrapped r r.front in
    if sle32 n 0
    then (0, none, r)
    else if slt32 (use_size r) n
    then (minus_one, none, r)
    else if r.front == r.rear
    then (0, none, r)
    else if leb f r.rear
    then (n, some (read_at (f + 1) n r.cells), record r { front = f + n })
    else if leb n (end_of r - f)
    then (n, some (read_at (f + 1) n r.cells), record r { front = f + n })
    else (n, some (bytes_around f n r), record r { front = n - (end_of r - f) })

-- `Peek` tests the size after the use, and does not wrap the front.
unfoldable pub peek : ℕ → Ring → ℕ × Option (List ℕ)
peek n r =
    if slt32 (use_size r) n
    then (minus_one, none)
    else if sle32 n 0
    then (0, none)
    else if leb r.front r.rear
    then (n, some (read_at (r.front + 1) n r.cells))
    else if leb n (end_of r - r.front)
    then (n, some (read_at (r.front + 1) n r.cells))
    else (n, some (bytes_around r.front n r))

-- `MoveRear` looks at the room up to the last byte only.
unfoldable pub move_rear : ℕ → Ring → ℕ × Ring
move_rear n r =
    let p = wrapped r r.rear in
    if sle32 n 0
    then (0, r)
    else if leb n (end_of r - p)
    then (n, record r { rear = p + n })
    else (n, record r { rear = n - (end_of r - p) })

unfoldable pub move_front : ℕ → Ring → ℕ × Ring
move_front n r =
    let f = wrapped r r.front in
    if sle32 n 0
    then (0, r)
    else if slt32 r.size n
    then (minus_one, r)
    else if leb n (end_of r - f)
    then (n, record r { front = f + n })
    else (n, record r { front = n - (end_of r - f) })

-- `IfEndMoveToFront`, on a pointer of the caller.
unfoldable pub if_end_move_to_front : Ring → ℕ → ℕ
if_end_move_to_front r p = if leb (end_of r) p then 1 else p

unfoldable pub clear_buffer : Ring → Ring
clear_buffer r = record r { front = 0; rear = 0 }

unfoldable pub front_buffer_ptr : Ring → ℕ
front_buffer_ptr r = wrapped r r.front + 1

unfoldable pub rear_buffer_ptr : Ring → ℕ
rear_buffer_ptr r = wrapped r r.rear + 1

unfoldable pub begin_ptr : Ring → ℕ
begin_ptr r = 1
