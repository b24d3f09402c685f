-- ===== src/Ring/Sizes.antt =====
-- The sizes of ringbuffer.cpp: of the bytes held, of the room, and of their parts in one piece.
use new_name_auction.Prelude.{
  ℕ, ◌+◌, ◌-◌, ◌≤◌, ◌≡◌, ◌∙◌, sym, arith, leb, ◌==◌, if◌then◌else◌, length, minus_one, ◌&&◌,
}
use new_name_auction.Ring.{
  Ring, end_of, use_size, free_size, ring_size, direct_enqueue_size, direct_dequeue_size,
}
use new_name_auction.Ring.Contents.{IsRing, held, use_size-used, free_size-room, length-held}

-- The room in one piece, behind the rear.
abbrev pub direct_room : Ring → ℕ
direct_room r =
    if leb r.front r.rear
    then if r.rear == end_of r then r.front - 1 else end_of r - r.rear
    else r.front - r.rear - 1

-- The sizes of a buffer in use: GetUseSize is the number of bytes held, GetFreeSize the room, which
-- with them makes the whole, less one byte once a byte has been taken; DirectDequeueSize is at most
-- the one; DirectEnqueueSize is at most the other, except that it is -1 for a buffer that is full from
-- the start.
pub sizes_lem :
    (r : Ring)
    → IsRing r
    → (use_size r ≡ length (held r))
      × (use_size r + free_size r + (if r.front == 0 then 0 else 1) ≡ ring_size r)
      × (direct_dequeue_size r ≤ use_size r)
      × (direct_enqueue_size r
          ≡ (if (r.front == 0) && (r.rear == end_of r) then minus_one else direct_room r))
      × (direct_room r ≤ free_size r)
unfolding ring_size direct_dequeue_size direct_enqueue_size
sizes_lem r v =
    let u = use_size-used r v in
    let f = free_size-room r v in
    (
      u ∙ sym (length-held r v),
      ground (arith, u, f),
      ground (arith, u),
      ground arith,
      ground (arith, f),
    )
