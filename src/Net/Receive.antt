-- ===== src/Net/Receive.antt =====
-- The reception of messages in WorkerThread of NewNameAuction/CNetServer.cpp: what has arrived stands
-- in the ring buffer of the session, and the loop takes the complete messages out of it.
pub mod Frames
pub mod Errors
pub mod Buffers
pub mod Split
pub mod Fuel
use new_name_auction.Prelude.{
  ℕ, zero, suc, ◌+◌, ◌*◌, ◌^◌, Bool, true, false, not, List, [], ◌∷◌, Option, none, some, Outcome,
  ok, fault, ◌>>=◌, ltb, leb, ◌==◌, if◌then◌else◌, length, write_at, sub32, slt32, sle32,
}
use new_name_auction.Packet.{
  Packet, header_size, network_code, buffer_default, m_alloc, add_ref, clear_network,
  move_write_pos, decode, move_read_pos,
}
use new_name_auction.Ring.{
  free_size, direct_enqueue_size, rear_buffer_ptr, begin_ptr, Ring, use_size, peek, dequeue,
}

-- The two stretches of memory that recvPost hands to WSARecv: a pointer and a length each.
pub record RecvBuffers : Type 0 where
  pub first_ptr : ℕ
  pub first_len : ℕ
  pub second_ptr : ℕ
  pub second_len : ℕ

unfoldable pub recv_buffers : Ring → RecvBuffers
recv_buffers q =
    let free = free_size q in
    let direct = direct_enqueue_size q in
    record {
      first_ptr = rear_buffer_ptr q;
      first_len = direct;
      second_ptr = begin_ptr q;
      second_len = if slt32 direct free then sub32 free direct else 0;
    }

-- `header.code` and `header.len` after the Peek: where fewer bytes are held than a header has, the
-- code is what the stack held and the length what it was set to before.
unfoldable pub header_of : ℕ → Option (List ℕ) → ℕ × ℕ
header_of stale none = (stale, 0)
header_of stale (some (code ∷ low ∷ high ∷ rest)) = (code, low + 256 * high)
header_of stale (some bytes) = (stale, 0)

-- A round of the loop: it stops, the session is disconnected, or a message is handed to OnRecv.
pub data Round : Type 0 where
  stop : Round
  wrong : Ring → Round
  message : Packet → ℕ → Ring → Round

-- The copy into the block at its write position; past the end of the block it overruns the heap.
unfoldable pub fill_packet : List ℕ → Packet → Outcome Packet
fill_packet bytes p =
    if leb (p.write_pos + length bytes) p.buffer_size
    then ok (record p { buffer = write_at p.write_pos bytes p.buffer })
    else fault

-- The packet that a message arrives in, its header skipped.
unfoldable pub received_packet : Packet → List ℕ → ℕ → Outcome Packet
received_packet block bytes n = do
  p ← fill_packet bytes (clear_network (add_ref 1 (m_alloc block)))
  ok (move_read_pos header_size (decode (move_write_pos n p).1).1).1

-- The message that the header announces, taken from the queue.
unfoldable pub take_message : Packet → ℕ → ℕ → Ring → Outcome Round
take_message block n left q =
    let (r, bytes, q') = dequeue n q in
    if sle32 r 0 then ok (wrong q') else elim bytes [
      | none ↦ ok (wrong q')
      | some bs ↦ received_packet block bs r >>= λ p. ok (message p (sub32 left n) q')
    ]

unfoldable pub frame_round : Packet → ℕ → ℕ → Ring → Outcome Round
frame_round block stale left q =
    if left == 0
    then ok stop
    else (let (code, len) = header_of stale (peek header_size q).1 in
        if not (code == network_code)
        then ok (wrong q)
        else if ltb buffer_default len
        then ok (wrong q)
        else if slt32 (use_size q) (len + header_size)
        then ok stop
        else take_message block (len + header_size) left q)

-- What the loop leaves: the packets handed to OnRecv, whether the session was disconnected, the queue.
pub record Framed : Type 0 where
  pub packets : List Packet
  pub dropped : Bool
  pub queue : Ring

abbrev pub with_packet : Packet → Framed → Framed
with_packet p f = record f { packets = p ∷ f.packets }

-- The loop. Each message has a header at least, so that the bytes held are fuel enough. `stale` is what
-- the stack holds under `header.code`.
unfoldable pub frame_loop : Packet → ℕ → ℕ → ℕ → Ring → Outcome Framed
frame_loop block stale zero left q = ok (record { packets = []; dropped = false; queue = q })
frame_loop block stale (suc fuel) left q = frame_round block stale left q >>= λ round. elim round [
  | stop ↦ ok (record { packets = []; dropped = false; queue = q })
  | wrong q' ↦ ok (record { packets = []; dropped = true; queue = q' })
  | message p left' q' ↦ frame_loop block stale fuel left' q' >>= λ rest. ok (with_packet p rest)
]
