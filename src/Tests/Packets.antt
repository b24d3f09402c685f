-- ===== src/Tests/Packets.antt =====
-- Packets and session sets at concrete inputs.
use new_name_auction.Prelude.{
  ◌+◌, leb, ◌≡◌, refl, [], ◌∷◌, ◌++◌, some, arith, take, replicate, false,
}
use new_name_auction.Packet.{Packet, end_pos, put_scalar, get_scalar}
use new_name_auction.Packet.Fifo.{IsValid, contents}
use new_name_auction.Packet.Fifo.Store.{put_scalar_lem}
use new_name_auction.Packet.Fifo.Load.{SameBlock, get_scalar_lem}
use new_name_auction.SessionSet.{session_set_size, set_clear, set_sessions}
use new_name_auction.SessionSet.Broadcast.{set_sessions_first}
use new_name_auction.Tests.Fixtures.{}

-- A packet of eight bytes with three that are written and not read.
abbrev packet : Packet
packet = record {
  data_size = 3;
  buffer_size = 8;
  ref_count = 1;
  buffer = 9 ∷ 1 ∷ 2 ∷ 3 ∷ 0 ∷ 0 ∷ 0 ∷ 0 ∷ [];
  read_pos = 1;
  write_pos = 4;
  encode_flag = false;
}

packet-IsValid : IsValid packet
packet-IsValid = record {
  sized = refl;
  small = omega arith;
  ordered = omega arith;
  within = omega arith;
  counted = refl;
}

-- The fourth byte of the second store would be the last of the buffer.
put_scalar_fits : contents (put_scalar 2 258 packet) ≡ 1 ∷ 2 ∷ 3 ∷ 2 ∷ 1 ∷ []
unfolding put_scalar
put_scalar_fits = refl

put_scalar_full : put_scalar 4 258 packet ≡ packet
unfolding put_scalar
put_scalar_full = refl

put_scalar_lem_example :
    IsValid (put_scalar 2 258 packet)
    × (contents (put_scalar 2 258 packet) ≡ 1 ∷ 2 ∷ 3 ∷ 2 ∷ 1 ∷ [])
    × ((put_scalar 2 258 packet).buffer_size ≡ 8)
    × ((put_scalar 2 258 packet).ref_count ≡ 1)
    × ((put_scalar 2 258 packet).encode_flag ≡ false)
    × (leb (4 + 2) (end_pos packet) ≡ false → put_scalar 2 258 packet ≡ packet)
put_scalar_lem_example = put_scalar_lem 2 258 packet packet-IsValid (omega arith)

get_scalar_lem_example :
    IsValid (get_scalar 2 packet).1
    × ((get_scalar 2 packet).0 ≡ some 513)
    × (contents (get_scalar 2 packet).1 ≡ 3 ∷ [])
    × SameBlock packet (get_scalar 2 packet).1
    × (leb 2 3 ≡ false → (get_scalar 2 packet).1 ≡ packet)
get_scalar_lem_example = get_scalar_lem 2 packet packet-IsValid

-- Of 1002 sessions the last two are not told.
set_sessions_first_example :
    (set_sessions (replicate 1000 4 ++ (5 ∷ 6 ∷ [])) set_clear).session_array
    ≡ take session_set_size (replicate 1000 4 ++ (5 ∷ 6 ∷ []))
set_sessions_first_example = set_sessions_first (replicate 1000 4 ++ (5 ∷ 6 ∷ []))
