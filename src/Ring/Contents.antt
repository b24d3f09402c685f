-- ===== src/Ring/Contents.antt =====
-- The bytes that a ring buffer (ringbuffer.cpp) holds, oldest first, and what its sizes say of them.
use new_name_auction.Prelude.{
  ℕ, ◌+◌, ◌-◌, ◌^◌, ◌≤◌, ◌<◌, ◌≡◌, ap, false, List, [], ◌++◌, arith, leb, ◌==◌, if◌then◌else◌,
  length, read_at, length-read_at, length-append,
}
use Prim.Native.Nat.{min}
use new_name_auction.Ring.{Ring, end_of, wrapped, use_size, free_size}

-- Both positions are inside the memory, and `rear` leaves the first byte before `front` does.
pub record IsRing (r : Ring) : Type 0 where
  pub sized : length r.cells ≡ r.size
  pub small : r.size < 2 ^ 31
  pub some_room : 2 ≤ r.size
  pub front_in : r.front ≤ end_of r
  pub rear_in : r.rear ≤ end_of r
  pub begun : min 1 r.front ≤ r.rear

-- The bytes behind position `f` up to position `p`, going round.
abbrev pub chunk : ℕ → ℕ → Ring → List ℕ
chunk f p r =
    if leb f p
    then read_at (f + 1) (p - f) r.cells
    else read_at (f + 1) (end_of r - f) r.cells ++ read_at 1 p r.cells

abbrev pub held : Ring → List ℕ
held r = if r.front == r.rear then [] else chunk (wrapped r r.front) r.rear r

-- The number of bytes held, as a natural number.
abbrev pub used : Ring → ℕ
used r =
    if r.front == r.rear
    then 0
    else if leb (wrapped r r.front) r.rear
    then r.rear - wrapped r r.front
    else end_of r - wrapped r r.front + r.rear

pub use_size-used : (r : Ring) → IsRing r → use_size r ≡ used r
unfolding use_size
use_size-used r v = ground arith

pub used-lt : (r : Ring) → IsRing r → used r < r.size
used-lt r v = ground arith

pub length-chunk :
    (f p : ℕ) (r : Ring)
    → IsRing r
    → f ≤ end_of r
    → p ≤ end_of r
    → length (chunk f p r) ≡ (if leb f p then p - f else end_of r - f + p)
length-chunk f p r v hf hp = ground (
  arith,
  length-append (read_at (f + 1) (end_of r - f) r.cells) (read_at 1 p r.cells),
  length-read_at (f + 1) (end_of r - f) r.cells,
  length-read_at 1 p r.cells,
  length-read_at (f + 1) (p - f) r.cells,
)

wrapped-le : (p : ℕ) (r : Ring) → p ≤ end_of r → wrapped r p ≤ end_of r
wrapped-le p r h = ground arith

pub length-held : (r : Ring) → IsRing r → length (held r) ≡ used r
length-held r v =
    ground (arith, length-chunk (wrapped r r.front) r.rear r v, wrapped-le r.front r v.front_in)

-- The room, as a natural number: one byte less once `front` has left the first byte.
abbrev pub room : Ring → ℕ
room r = if r.front == 0 then end_of r - used r else end_of r - 1 - used r

pub free_size-room : (r : Ring) → IsRing r → free_size r ≡ room r
unfolding free_size
free_size-room r v = ground (arith, use_size-used r v)

pub read_at-none : (a k : ℕ) (xs : List ℕ) → k ≡ 0 → read_at a k xs ≡ []
read_at-none a k xs e = ap (λ i. read_at a i xs) e

pub held_of_ne :
    (r : Ring) → (r.front == r.rear) ≡ false → held r ≡ chunk (wrapped r r.front) r.rear r
held_of_ne r e = rw e
