-- ===== src/Net/Receive/Split.antt =====
-- A message that arrives in two parts (the loop of WorkerThread in CNetServer.cpp).
use new_name_auction.Prelude.{
  sym, if◌then◌else◌, not, ◌<◌, inl, inr, Bool-cases, none, append-nil, ℕ, ◌+◌, ◌≤◌, ◌≡◌, refl, ap,
  ◌∙◌, true, false, [], ◌∷◌, ◌++◌, arith, ok, leb, ◌==◌, length, sub32, slt32,
}
use new_name_auction.Packet.{Packet, header_size, network_code}
use new_name_auction.Packet.Fifo.{}
use new_name_auction.Packet.Stream.{IsBlock}
use new_name_auction.Ring.{Ring, use_size, peek}
use new_name_auction.Ring.Contents.{IsRing, held, use_size-used, length-held}
use new_name_auction.Ring.Dequeue.{}
use new_name_auction.Ring.Peek.{peek_lem}
use new_name_auction.Net.Receive.{
  header_of, stop, wrong, frame_round, Framed, with_packet, frame_loop,
}
use new_name_auction.Net.Receive.Frames.{
  Wire, wire_bytes, Fits, Bodies, arrived, left_ring, dequeue-wire, frame_round-wire,
  frame_loop-message, arrived-IsReceived,
}

-- A round with fewer bytes in the buffer than a header has, where `left` says that there are more.
frame_round-short :
    (block : Packet) (stale left : ℕ) (q : Ring)
    → IsRing q
    → held q ≡ []
    → (left == 0) ≡ false
    → frame_round block stale left q ≡ ok (if stale == network_code then stop else wrong q)
unfolding frame_round header_of
frame_round-short block stale left q v e more =
    let empty : length (held q) ≡ 0 = ap length e in
    let few : leb 5 (length (held q)) ≡ false = ground (arith, empty) in
    let nothing : (peek header_size q).1 ≡ none =
      ap (λ r. r.1) (peek_lem 5 q v (omega arith) (omega arith)) ∙ rw few refl in
    let size : slt32 (use_size q) 5 ≡ true =
      ground (arith, use_size-used q v, length-held q v, empty) in
    rw (more, nothing, size)
      (elim (Bool-cases (stale == network_code)) [
        | inl same ↦ rw same refl
        | inr other ↦ rw other refl
      ])

frame_loop-short :
    (block : Packet) (stale left : ℕ) (q : Ring)
    → IsRing q
    → held q ≡ []
    → (left == 0) ≡ false
    → frame_loop block stale 1 left q
      ≡ ok (record { packets = []; dropped = not (stale == network_code); queue = q })
unfolding frame_loop
frame_loop-short block stale left q v e more =
    rw (frame_round-short block stale left q v e more) (elim (Bool-cases (stale == network_code)) [
      | inl same ↦ rw same refl
      | inr other ↦ rw other refl
    ])

-- A message with a body of at most 1994 bytes, of which some bytes had arrived before, is completed by those
-- that arrive now, with nothing behind it: it is handed out, but the count of the bytes left falls below
-- zero, and the next round reads a header that is not there: the session is then disconnected unless the
-- stack holds the code of the network there.
pub split_message_lem :
    (block : Packet) (stale left : ℕ) (w : Wire) (q : Ring)
    → IsBlock block
    → Fits w
    → IsRing q
    → held q ≡ wire_bytes w
    → 1 ≤ left
    → left < length (wire_bytes w)
    → (f : Framed) × (frame_loop block stale 2 left q ≡ ok f)
      × Bodies f.packets (w ∷ [])
      × (f.dropped ≡ not (stale == network_code))
      × (held f.queue ≡ [])
split_message_lem block stale left w q b fits v e some_left part =
    let e' : held q ≡ wire_bytes w ++ [] = e ∙ sym (append-nil (wire_bytes w)) in
    let total = length w.body + 5 in
    let q' = left_ring block w [] q b fits v e' in
    let (valid, _, _, left_none) = dequeue-wire block w [] q b fits v e' in
    let more : (left == 0) ≡ false = ground arith in
    let below : (sub32 left total == 0) ≡ false = ground arith in
    let p = arrived block (wire_bytes w) total in
    let is = arrived-IsReceived block w total b fits refl in
    (
      with_packet p (record { packets = []; dropped = not (stale == network_code); queue = q' }),
      frame_loop-message block stale 1 left (sub32 left total) p q q' _
          (frame_round-wire block w [] q b fits v e' stale left more)
          (frame_loop-short block stale (sub32 left total) q' valid left_none below),
      ((is.valid, is.bytes_in), tt),
      refl,
      left_none,
    )
