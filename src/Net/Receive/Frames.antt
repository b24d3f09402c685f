-- ===== src/Net/Receive/Frames.antt =====
-- The messages that the reception loop of WorkerThread (CNetServer.cpp) hands out, and what it leaves.
use new_name_auction.Prelude.{
  ℕ, zero, suc, ◌+◌, ◌-◌, ◌≤◌, ◌≡◌, refl, ap, ap₂, ◌∙◌, true, false, List, [], ◌∷◌, ◌++◌,
  append_assoc, some, arith, ok, leb, ltb, ◌==◌, length, take, drop, le_bytes, length-append,
  length-write_at, write_at, take-length-append, drop-length-append, add32, sub32, slt32, sle32,
  All,
}
use new_name_auction.Packet.{
  Packet, header_size, network_code, buffer_default, m_alloc, add_ref, clear_network,
  move_write_pos, decode, move_read_pos,
}
use new_name_auction.Packet.Fifo.{IsValid, contents}
use new_name_auction.Packet.Stream.{IsBlock}
use new_name_auction.Ring.{Ring, use_size, peek, dequeue}
use new_name_auction.Ring.Contents.{IsRing, held, use_size-used, length-held, used-lt}
use new_name_auction.Ring.Dequeue.{dequeue_lem}
use new_name_auction.Ring.Peek.{peek_lem}
use new_name_auction.Net.Receive.{
  header_of, message, fill_packet, received_packet, take_message, frame_round, Framed, with_packet,
  frame_loop,
}

-- A message on the wire: the header's code, length, key and checksum, then the body.
pub record Wire : Type 0 where
  pub key : ℕ
  pub checksum : ℕ
  pub body : List ℕ

abbrev pub wire_bytes : Wire → List ℕ
wire_bytes w = network_code ∷ (le_bytes 2 (length w.body) ++ (w.key ∷ w.checksum ∷ w.body))

abbrev pub wires : List Wire → List ℕ
wires [] = []
wires (w ∷ ws) = wire_bytes w ++ wires ws

-- The body fits into a packet before its last byte.
abbrev pub Fits : Wire → Type 0
Fits w = length w.body ≤ 1994

-- The packet that a message is received in.
pub record IsReceived (p : Packet) (body : List ℕ) : Type 0 where
  pub valid : IsValid p
  pub bytes_in : contents p ≡ body

-- The packet after the copy and the two moves.
abbrev pub arrived : Packet → List ℕ → ℕ → Packet
arrived block bytes n = record block {
  ref_count = 1;
  encode_flag = false;
  buffer = write_at 0 bytes block.buffer;
  read_pos = 5;
  write_pos = n;
  data_size = sub32 n 5;
}

module _ (block : Packet) (w : Wire) (n : ℕ) (b : IsBlock block) (fits : Fits w)
    (e : n ≡ length w.body + 5) where
  pub received_packet-arrived :
      received_packet block (wire_bytes w) n ≡ ok (arrived block (wire_bytes w) n)
  unfolding received_packet fill_packet m_alloc add_ref clear_network move_write_pos decode
      move_read_pos
  received_packet-arrived =
      rw (room, some_bytes, inside, header, short)
        (ap₂ (λ d k. ok (record (arrived block (wire_bytes w) n) { data_size = d; write_pos = k }))
          sizes end)
    where
      room : leb (0 + length (wire_bytes w)) block.buffer_size ≡ true
      room = ground (arith, b.whole)

      some_bytes : sle32 n 0 ≡ false
      some_bytes = ground arith

      inside : ltb (block.buffer_size - 1) (0 + n) ≡ false
      inside = ground (arith, b.whole)

      header : sle32 5 0 ≡ false
      header = refl

      sizes : sub32 (add32 0 n) 5 ≡ sub32 n 5
      sizes = omega arith

      end : 0 + n ≡ n
      end = omega arith

      short : ltb (0 + n) (0 + 5) ≡ false
      short = ground arith

  pub arrived-IsReceived : IsReceived (arrived block (wire_bytes w) n) w.body
  arrived-IsReceived = record {
    valid = record {
      sized =
          length-write_at 0 (wire_bytes w) block.buffer (omega (arith, b.sized, b.whole)) ∙ b.sized;
      small = omega (arith, b.whole);
      ordered = omega arith;
      within = omega (arith, b.whole);
      counted = omega arith;
    };
    bytes_in =
        ap (λ k. take k (w.body ++ drop (0 + length (wire_bytes w)) block.buffer)) (omega arith)
        ∙ take-length-append w.body (drop (0 + length (wire_bytes w)) block.buffer);
  }

-- A round at whose start a whole message stands in front.
module _ (block : Packet) (w : Wire) (rest : List ℕ) (q : Ring) (b : IsBlock block) (fits : Fits w)
    (v : IsRing q) (e : held q ≡ wire_bytes w ++ rest) where
  abbrev pub total : ℕ
  total = length w.body + 5

  pub length-held-wire : length (held q) ≡ total + length rest
  length-held-wire = ap length e ∙ omega (arith, length-append (wire_bytes w) rest)

  peek-wire : (peek header_size q).1 ≡ some (take 5 (wire_bytes w ++ rest))
  peek-wire =
      let enough : leb 5 (length (held q)) ≡ true = ground (arith, length-held-wire) in
      ap (λ r. r.1) (peek_lem 5 q v (omega arith) (omega arith))
      ∙ rw enough (ap (λ bytes. some (take 5 bytes)) e)

  header_of-wire :
      (stale : ℕ)
      → header_of stale (some (take 5 (wire_bytes w ++ rest))) ≡ (network_code, length w.body)
  unfolding header_of
  header_of-wire stale = ap (λ k. (network_code, k)) (omega arith)

  -- The ring after the message is taken.
  abbrev pub left_ring : Ring
  left_ring = (dequeue total q).2

  pub dequeue-wire :
      IsRing left_ring
      × ((dequeue total q).0 ≡ total)
      × ((dequeue total q).1 ≡ some (wire_bytes w))
      × (held left_ring ≡ rest)
  dequeue-wire =
      let (valid, r, bytes, left) = dequeue_lem total q v (omega arith) (omega arith) in
      let enough : leb total (length (held q)) ≡ true = ground (arith, length-held-wire) in
      let size : total ≡ length (wire_bytes w) = omega arith in
      let start : take total (wire_bytes w ++ rest) ≡ wire_bytes w =
        ap (λ k. take k (wire_bytes w ++ rest)) size ∙ take-length-append (wire_bytes w) rest in
      let end : drop total (wire_bytes w ++ rest) ≡ rest =
        ap (λ k. drop k (wire_bytes w ++ rest)) size ∙ drop-length-append (wire_bytes w) rest in
      (
        valid,
        r ∙ rw enough refl,
        bytes ∙ rw enough (ap some (ap (take total) e ∙ start)),
        left ∙ rw enough (ap (drop total) e ∙ end),
      )

  take_message-wire :
      (left : ℕ)
      → take_message block total left q
        ≡ ok (message (arrived block (wire_bytes w) total) (sub32 left total) left_ring)
  unfolding take_message
  take_message-wire left =
      let (_, r, bytes, _) = dequeue-wire in
      let positive : sle32 total 0 ≡ false = ground arith in
      rw (r, positive, bytes, r, received_packet-arrived block w total b fits refl) refl

  pub frame_round-wire :
      (stale left : ℕ)
      → (left == 0) ≡ false
      → frame_round block stale left q
        ≡ ok (message (arrived block (wire_bytes w) total) (sub32 left total) left_ring)
  unfolding frame_round
  frame_round-wire stale left more =
      let fine : ltb buffer_default (length w.body) ≡ false = ground arith in
      let whole : slt32 (use_size q) (length w.body + header_size) ≡ false =
        ground (arith, use_size-used q v, length-held q v, used-lt q v, length-held-wire) in
      rw (more, peek-wire, header_of-wire stale, fine, whole) (take_message-wire left)

-- The bodies of the messages are those of the packets, in their order.
abbrev pub Bodies : List Packet → List Wire → Type 0
Bodies [] [] = Unit
Bodies [] (w ∷ ws) = ⊥
Bodies (p ∷ ps) [] = ⊥
Bodies (p ∷ ps) (w ∷ ws) = (IsValid p × (contents p ≡ w.body)) × Bodies ps ws

pub frame_loop-stop :
    (block : Packet) (stale fuel : ℕ) (q : Ring)
    → frame_loop block stale fuel 0 q ≡ ok (record { packets = []; dropped = false; queue = q })
unfolding frame_loop frame_round
frame_loop-stop block stale zero q = refl
frame_loop-stop block stale (suc fuel) q = refl

pub frame_loop-message :
    (block : Packet) (stale fuel left left' : ℕ) (p : Packet) (q q' : Ring) (f : Framed)
    → frame_round block stale left q ≡ ok (message p left' q')
    → frame_loop block stale fuel left' q' ≡ ok f
    → frame_loop block stale (suc fuel) left q ≡ ok (with_packet p f)
unfolding frame_loop
frame_loop-message block stale fuel left left' p q q' f e run = rw e (rw run refl)

-- A buffer that holds whole messages, and something behind them: if the bytes that have arrived are as
-- many as those of the messages, the loop ends, hands exactly these messages out in their order, each
-- in a valid packet with its body, disconnects nobody, and leaves what stands behind them in the
-- buffer, also where that is another whole message.
pub frame_loop_lem :
    (block : Packet) (stale fuel : ℕ) (ws : List Wire) (rest : List ℕ) (q : Ring)
    → IsBlock block
    → All Fits ws
    → IsRing q
    → held q ≡ wires ws ++ rest
    → length ws ≤ fuel
    → (f : Framed) × (frame_loop block stale fuel (length (wires ws)) q ≡ ok f)
      × Bodies f.packets ws
      × (f.dropped ≡ false)
      × IsRing f.queue
      × (held f.queue ≡ rest)
frame_loop_lem block stale fuel [] rest q b fits v e h = (
  record { packets = []; dropped = false; queue = q },
  frame_loop-stop block stale fuel q,
  tt,
  refl,
  v,
  e,
)
frame_loop_lem block stale zero (w ∷ ws) rest q b fits v e h = absurd (omega arith)
frame_loop_lem block stale (suc fuel) (w ∷ ws) rest q b fits v e h =
    let behind = wires ws ++ rest in
    let e' : held q ≡ wire_bytes w ++ behind = e ∙ append_assoc (wire_bytes w) (wires ws) rest in
    let q' = left_ring block w behind q b fits.0 v e' in
    let (valid, _, _, left) = dequeue-wire block w behind q b fits.0 v e' in
    let size = length-append (wire_bytes w) (wires ws) in
    let all = length-held-wire block w behind q b fits.0 v e' in
    let round =
      frame_round-wire block w behind q b fits.0 v e' stale (length (wires (w ∷ ws)))
        (ground (arith, size)) in
    let (f, run, bodies, kept, valid', rest') =
      frame_loop_lem block stale fuel ws rest q' b fits.1 valid left (omega arith) in
    let next : sub32 (length (wires (w ∷ ws))) (length w.body + 5) ≡ length (wires ws) =
      omega (arith, size, all, length-append (wires ws) rest, length-held q v, used-lt q v) in
    let got = arrived-IsReceived block w (length w.body + 5) b fits.0 refl in
    (
      with_packet (arrived block (wire_bytes w) (length w.body + 5)) f,
      frame_loop-message block stale fuel (length (wires (w ∷ ws))) _ _ q q' f round (rw next run),
      ((got.valid, got.bytes_in), bodies),
      kept,
      valid',
      rest',
    )
