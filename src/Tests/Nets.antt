-- ===== src/Tests/Nets.antt =====
-- The network server: what arrives, and the sessions.
use new_name_auction.Prelude.{
  ℕ, ◌≡◌, refl, arith, minus_one, false, [], ◌∷◌, ◌++◌, List, replicate, ok, fault,
}
use new_name_auction.Packet.{}
use new_name_auction.Packet.Stream.{}
use new_name_auction.Ring.{
  Ring, construct_ring, move_rear, rear_buffer_ptr, begin_ptr, free_size, direct_enqueue_size,
  enqueue,
}
use new_name_auction.Ring.Contents.{IsRing, held}
use new_name_auction.Ring.Sizes.{}
use new_name_auction.Ring.Enqueue.{enqueue_lem}
use new_name_auction.Net.Receive.{recv_buffers, frame_round, frame_loop, Framed, wrong}
use new_name_auction.Net.Receive.Frames.{Wire, wire_bytes, Bodies, frame_loop_lem}
use new_name_auction.Net.Receive.Errors.{frame_round-header, take_message_overruns}
use new_name_auction.Net.Receive.Buffers.{Filled, recv_buffers_lem, move_rear_lem}
use new_name_auction.Tests.Fixtures.{block}
use new_name_auction.Tests.Messages.{block-IsBlock}
use new_name_auction.Tests.Rings.{four, four-IsRing}

-- A message of two letters, and behind it the first byte of the next.
abbrev pub hello : Wire
hello = record { key = 9; checksum = 9; body = 65 ∷ 66 ∷ [] }

abbrev pub line : Ring
line = record {
  size = 12;
  cells = 0 ∷ 119 ∷ 2 ∷ 0 ∷ 9 ∷ 9 ∷ 65 ∷ 66 ∷ 119 ∷ 0 ∷ 0 ∷ 0 ∷ [];
  front = 0;
  rear = 8;
}

line-IsRing : IsRing line
line-IsRing = record {
  sized = refl;
  small = omega arith;
  some_room = omega arith;
  front_in = omega arith;
  rear_in = omega arith;
  begun = omega arith;
}

frame_loop_lem_example :
    (f : Framed) × (frame_loop block 0 1 7 line ≡ ok f)
    × Bodies f.packets (hello ∷ [])
    × (f.dropped ≡ false)
    × IsRing f.queue
    × (held f.queue ≡ 119 ∷ [])
frame_loop_lem_example =
    frame_loop_lem block 0 1 (hello ∷ []) (119 ∷ []) line block-IsBlock (omega arith, tt)
      line-IsRing refl (omega arith)

-- A header of another network.
abbrev foreign : Ring
foreign = record line { cells = 0 ∷ 118 ∷ 2 ∷ 0 ∷ 9 ∷ 9 ∷ 65 ∷ 66 ∷ 119 ∷ 0 ∷ 0 ∷ 0 ∷ [] }

foreign-IsRing : IsRing foreign
foreign-IsRing = record {
  sized = refl;
  small = omega arith;
  some_room = omega arith;
  front_in = omega arith;
  rear_in = omega arith;
  begun = omega arith;
}

frame_round-header_example : frame_round block 0 8 foreign ≡ ok (wrong foreign)
frame_round-header_example =
    frame_round-header foreign foreign-IsRing 118 2 0 9 9 (65 ∷ 66 ∷ 119 ∷ []) refl block 0 8 refl

-- A message of 1996 bytes in a buffer that was empty.
abbrev huge : Wire
huge = record { key = 9; checksum = 9; body = replicate 1996 7 }

abbrev empty_ring : Ring
empty_ring = construct_ring 3000 (replicate 3000 0)

empty_ring-IsRing : IsRing empty_ring
unfolding construct_ring
empty_ring-IsRing = record {
  sized = refl;
  small = omega arith;
  some_room = omega arith;
  front_in = omega arith;
  rear_in = omega arith;
  begun = omega arith;
}

abbrev huge_ring : Ring
huge_ring = (enqueue (wire_bytes huge) 2001 empty_ring).1

huge_ring_holds : IsRing huge_ring × (held huge_ring ≡ wire_bytes huge ++ [])
unfolding construct_ring
huge_ring_holds =
    let (valid, _, bytes) =
      enqueue_lem (wire_bytes huge) 2001 empty_ring empty_ring-IsRing (omega arith) (omega arith)
        (omega arith) in
    (valid, bytes)

take_message_overruns_example : frame_round block 0 2001 huge_ring ≡ fault
take_message_overruns_example =
    take_message_overruns block huge [] huge_ring 0 2001 block-IsBlock huge_ring_holds.0
      huge_ring_holds.1 (omega arith) (omega arith) refl

-- A buffer that is full from the start.
abbrev full : Ring
full = record four { front = 0; rear = 7 }

full-IsRing : IsRing full
full-IsRing = record {
  sized = refl;
  small = omega arith;
  some_room = omega arith;
  front_in = omega arith;
  rear_in = omega arith;
  begun = omega arith;
}

-- Two bytes arrive behind the four.
abbrev arrived : List ℕ
arrived = 0 ∷ 21 ∷ 22 ∷ 31 ∷ 32 ∷ 0 ∷ 11 ∷ 12 ∷ []

arrived-Filled : Filled four (31 ∷ 32 ∷ []) arrived
unfolding recv_buffers rear_buffer_ptr begin_ptr free_size direct_enqueue_size
arrived-Filled = refl

recv_buffers_lem_example :
    ((recv_buffers full).first_len ≡ minus_one) × ((recv_buffers full).second_len ≡ 1)
recv_buffers_lem_example = recv_buffers_lem full full-IsRing

move_rear_lem_example :
    let q' = (move_rear 2 (record four { cells = arrived })).1 in
    (q' ≡ (enqueue (31 ∷ 32 ∷ []) 2 four).1)
    × IsRing q'
    × (held q' ≡ 11 ∷ 12 ∷ 21 ∷ 22 ∷ 31 ∷ 32 ∷ [])
move_rear_lem_example =
    move_rear_lem four (31 ∷ 32 ∷ []) arrived four-IsRing (omega arith) (omega arith) arrived-Filled
