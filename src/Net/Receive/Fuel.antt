-- ===== src/Net/Receive/Fuel.antt =====
-- The fuel of the reception loop of WorkerThread (CNetServer.cpp).
use new_name_auction.Prelude.{
  ℕ, zero, suc, ◌+◌, ◌^◌, ◌≤◌, ◌<◌, ◌≡◌, refl, sym, ap, ◌∙◌, inl, inr, true, false, not, List, [],
  none, some, Outcome, ok, ◌>>=◌, arith, leb, ltb, ◌==◌, Bool-cases, length, drop, length-drop,
  sle32, slt32, Ensures, Ensures-bind, Ensures-eq, Ensures-if, Ensures-option, >>=-congr,
}
use new_name_auction.Packet.{Packet, header_size, network_code, buffer_default}
use new_name_auction.Ring.{Ring, dequeue, peek, use_size}
use new_name_auction.Ring.Contents.{IsRing, held}
use new_name_auction.Ring.Dequeue.{dequeue_lem}
use new_name_auction.Net.Receive.{
  header_of, Round, stop, wrong, message, received_packet, take_message, frame_round, Framed,
  with_packet, frame_loop,
}

-- A message that is taken leaves fewer bytes.
abbrev Shrinks : Ring → Round → Type 0
Shrinks q stop = Unit
Shrinks q (wrong q') = Unit
Shrinks q (message p left q') = IsRing q' × (length (held q') < length (held q))

dequeue-shorter :
    (n : ℕ) (q : Ring) (bytes : List ℕ)
    → IsRing q
    → 1 ≤ n
    → n < 2 ^ 31
    → (dequeue n q).1 ≡ some bytes
    → IsRing (dequeue n q).2 × (length (held (dequeue n q).2) < length (held q))
dequeue-shorter n q bytes v pos small e =
    let (valid, _, taken, left) = dequeue_lem n q v pos small in
    elim (Bool-cases (leb n (length (held q)))) [
      | inl enough ↦
          let left' : held (dequeue n q).2 ≡ drop n (held q) = left ∙ rw enough refl in
          (valid, ground (arith, ap length left', length-drop n (held q), enough, pos))
      | inr short ↦
          let nothing : (dequeue n q).1 ≡ none = taken ∙ rw short refl in
          absurd (none_some (sym nothing ∙ e))
    ]
  where
    none_some : none ≡ some bytes → ⊥
    none_some e = cc

take_message-Shrinks :
    (block : Packet) (n left : ℕ) (q : Ring)
    → IsRing q
    → 1 ≤ n
    → n < 2 ^ 31
    → Ensures (Shrinks q) (take_message block n left q)
unfolding take_message
take_message-Shrinks block n left q v pos small =
    Ensures-if (Shrinks q) (sle32 (dequeue n q).0 0) _ _ (λ _. tt)
      λ _.
        Ensures-option (Shrinks q) (dequeue n q).1 _ _ (λ _. tt)
          λ bytes e.
            Ensures-bind (Shrinks q) (received_packet block bytes (dequeue n q).0) _
              λ p _. dequeue-shorter n q bytes v pos small e

frame_round-Shrinks :
    (block : Packet) (stale left : ℕ) (q : Ring)
    → IsRing q
    → Ensures (Shrinks q) (frame_round block stale left q)
unfolding frame_round
frame_round-Shrinks block stale left q v =
    let header = header_of stale (peek header_size q).1 in
    Ensures-if (Shrinks q) (left == 0) _ _ (λ _. tt)
      λ _.
        Ensures-if (Shrinks q) (not (header.0 == network_code)) _ _ (λ _. tt)
          λ _.
            Ensures-if (Shrinks q) (ltb buffer_default header.1) _ _ (λ _. tt)
              λ fine.
                Ensures-if (Shrinks q) (slt32 (use_size q) (header.1 + header_size)) _ _ (λ _. tt)
                  λ _.
                    take_message-Shrinks block (header.1 + header_size) left q v (omega arith)
                      (ground (arith, fine))

-- What the loop does after a round, given the loop from there on.
abbrev after_round : Ring → (ℕ → Ring → Outcome Framed) → Round → Outcome Framed
after_round q again stop = ok (record { packets = []; dropped = false; queue = q })
after_round q again (wrong q') = ok (record { packets = []; dropped = true; queue = q' })
after_round q again (message p left q') = again left q' >>= λ rest. ok (with_packet p rest)

after_round_eq :
    (q : Ring) (again again' : ℕ → Ring → Outcome Framed) (round : Round)
    → Shrinks q round
    → ((left : ℕ) (q' : Ring)
        → IsRing q'
        → length (held q') < length (held q)
        → again left q' ≡ again' left q')
    → after_round q again round ≡ after_round q again' round
after_round_eq q again again' stop shrinks same = refl
after_round_eq q again again' (wrong q') shrinks same = refl
after_round_eq q again again' (message p left q') shrinks same =
    ap (λ m. m >>= λ rest. ok (with_packet p rest)) (same left q' shrinks.0 shrinks.1)

frame_loop-run :
    (block : Packet) (stale fuel left : ℕ) (q : Ring)
    → frame_loop block stale (suc fuel) left q ≡ (
        frame_round block stale left q >>= λ round.
        after_round q (frame_loop block stale fuel) round)
unfolding frame_loop
frame_loop-run block stale fuel left q =
    >>=-congr (frame_round block stale left q) _ _ λ round e. same_round round
  where
    same_round :
        (round : Round)
        → (elim round [
          | stop ↦ ok (record { packets = []; dropped = false; queue = q })
          | wrong q' ↦ ok (record { packets = []; dropped = true; queue = q' })
          | message p left' q' ↦
              frame_loop block stale fuel left' q' >>= λ rest. ok (with_packet p rest)
        ])
          ≡ after_round q (frame_loop block stale fuel) round
    same_round stop = refl
    same_round (wrong q') = refl
    same_round (message p left' q') = refl

-- More fuel than bytes held gives one result, whatever the bytes are.
pub frame_loop-enough :
    (block : Packet) (stale fuel fuel' left : ℕ) (q : Ring)
    → IsRing q
    → length (held q) < fuel
    → length (held q) < fuel'
    → frame_loop block stale fuel left q ≡ frame_loop block stale fuel' left q
frame_loop-enough block stale zero fuel' left q v h h' = absurd (omega (arith, h))
frame_loop-enough block stale (suc fuel) zero left q v h h' = absurd (omega (arith, h'))
frame_loop-enough block stale (suc fuel) (suc fuel') left q v h h' =
    frame_loop-run block stale fuel left q
    ∙ (>>=-congr (frame_round block stale left q) _ _ (λ round e.
          after_round_eq q (frame_loop block stale fuel) (frame_loop block stale fuel') round
            (Ensures-eq (Shrinks q) _ round (frame_round-Shrinks block stale left q v) e)
            λ left' q' v' shorter.
              frame_loop-enough block stale fuel fuel' left' q' v' (omega (arith, shorter, h))
                (omega (arith, shorter, h')))
        ∙ sym (frame_loop-run block stale fuel' left q))
