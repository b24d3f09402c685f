-- ===== src/Net/Receive/Errors.antt =====
-- The ways in which the reception loop of WorkerThread (CNetServer.cpp) does not get to a message.
use new_name_auction.Prelude.{
  ℕ, ◌+◌, ◌*◌, ◌/◌, ◌%◌, ◌≤◌, ◌≡◌, refl, ap, ◌∙◌, inl, inr, true, false, not, List, [], ◌∷◌, ◌++◌,
  some, arith, ok, fault, leb, ltb, ◌==◌, if◌then◌else◌, Bool-cases, length, take, length-append,
  take-length-append, slt32, sle32,
}
use new_name_auction.Packet.{
  Packet, header_size, network_code, buffer_default, m_alloc, add_ref, clear_network,
}
use new_name_auction.Packet.Stream.{IsBlock}
use new_name_auction.Ring.{Ring, use_size, peek}
use new_name_auction.Ring.Contents.{IsRing, held, use_size-used, length-held, used-lt}
use new_name_auction.Ring.Dequeue.{dequeue_lem}
use new_name_auction.Ring.Peek.{peek_lem}
use new_name_auction.Net.Receive.{
  header_of, stop, wrong, fill_packet, received_packet, take_message, frame_round,
}
use new_name_auction.Net.Receive.Frames.{Wire, wire_bytes}

module _ (q : Ring) (v : IsRing q) (code low high key checksum : ℕ) (rest : List ℕ)
    (e : held q ≡ code ∷ low ∷ high ∷ key ∷ checksum ∷ rest) where
  peek-header : (peek header_size q).1 ≡ some (code ∷ low ∷ high ∷ key ∷ checksum ∷ [])
  peek-header =
      let enough : leb 5 (length (held q)) ≡ true = ground (arith, ap length e) in
      ap (λ r. r.1) (peek_lem 5 q v (omega arith) (omega arith))
      ∙ rw enough (ap (λ bytes. some (take 5 bytes)) e)

  header_of-held : (stale : ℕ) → header_of stale (peek header_size q).1 ≡ (code, low + 256 * high)
  unfolding header_of
  header_of-held stale = rw peek-header refl

  use_size-held : use_size q ≡ length rest + 5
  use_size-held = use_size-used q v ∙ omega (arith, length-held q v, ap length e)

  -- A round with a whole header in front: the session is disconnected if the code is not that of the
  -- network or the length is above the size of a packet, nothing is done while the body is not complete,
  -- and only otherwise is a message taken.
  pub frame_round-header :
      (block : Packet) (stale left : ℕ)
      → (left == 0) ≡ false
      → frame_round block stale left q ≡ (
          if not (code == network_code)
          then ok (wrong q)
          else if ltb buffer_default (low + 256 * high)
          then ok (wrong q)
          else if ltb (length rest) (low + 256 * high)
          then ok stop
          else take_message block (low + 256 * high + header_size) left q)
  unfolding frame_round
  frame_round-header block stale left more =
      rw (more, header_of-held stale)
        (elim (Bool-cases (ltb buffer_default (low + 256 * high))) [
          | inl big ↦ rw big refl
          | inr fine ↦
              let same : slt32 (use_size q) (low + 256 * high + header_size)
                  ≡ ltb (length rest) (low + 256 * high) =
                ground (arith, use_size-held, used-lt q v, length-held q v, ap length e) in
              rw (fine, same) refl
        ])

-- A message whose header announces 1996 to 2000 bytes passes the tests, and its copy overruns the block.
pub take_message_overruns :
    (block : Packet) (w : Wire) (rest : List ℕ) (q : Ring) (stale left : ℕ)
    → IsBlock block
    → IsRing q
    → held q ≡ wire_bytes w ++ rest
    → 1996 ≤ length w.body
    → length w.body ≤ 2000
    → (left == 0) ≡ false
    → frame_round block stale left q ≡ fault
unfolding take_message received_packet fill_packet m_alloc add_ref clear_network
take_message_overruns block w rest q stale left b v e low high more =
    let n = length w.body in
    let code = n % 256 + 256 * (n / 256 % 256) in
    let whole : n ≡ code = omega arith in
    let header =
      frame_round-header q v network_code (n % 256) (n / 256 % 256) w.key w.checksum
        (w.body ++ rest) e block stale left more in
    let enough : leb (n + 5) (length (held q)) ≡ true =
      ground (arith, ap length e, length-append w.body rest) in
    let (_, r, bytes, _) = dequeue_lem (n + 5) q v (omega arith) (omega arith) in
    let size : n + 5 ≡ length (wire_bytes w) = omega arith in
    let start : take (n + 5) (held q) ≡ wire_bytes w =
      ap (take (n + 5)) e
      ∙ (ap (λ k. take k (wire_bytes w ++ rest)) size ∙ take-length-append (wire_bytes w) rest) in
    let fine : ltb buffer_default code ≡ false = ground arith in
    let complete : ltb (length (w.body ++ rest)) code ≡ false =
      ground (arith, length-append w.body rest) in
    let positive : sle32 (n + 5) 0 ≡ false = ground arith in
    let over : leb (0 + length (wire_bytes w)) block.buffer_size ≡ false =
      ground (arith, b.whole) in
    header ∙ rw (fine, complete, ← whole, r, enough, positive, bytes, enough, start, over) refl
