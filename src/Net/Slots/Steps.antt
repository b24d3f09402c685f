-- ===== src/Net/Slots/Steps.antt =====
-- The operations of CNetServer.cpp that leave every slot with whom it is.
use new_name_auction.Prelude.{
  ℕ, ◌≡◌, refl, inl, inr, Bool, true, false, not, List, [], ◌∷◌, ok, leb, ◌==◌, if◌then◌else◌,
  Bool-cases, length, Ensures, Ensures-bind, Ensures-then, Ensures-if, Ensures-option,
}
use new_name_auction.Packet.{Packet, add_ref}
use new_name_auction.Ring.{move_rear}
use new_name_auction.Net.Receive.{Framed}
use new_name_auction.Net.State.{
  Session, NetServer, max_session_slots, slot_of, session_at, put_session, io_up, io_down, io_drop,
  is_disconnected, DisconnectStep, normal, send_packet_last, send_post_last, disconnected,
  post_send,
}
use new_name_auction.Net.Sessions.{find_session, disconnect_slot, disconnect_session}
use new_name_auction.Net.Sending.{
  encoded, queue_packet, send_packet, send_packets, send_post, send_failed, send_done, last_sent,
  cancel_disconnected, batch,
}
use new_name_auction.Net.Worker.{recv_post, recv_done, deliveries, framed_done, take_frames}
use new_name_auction.Net.Reuse.{io_drop-at}
use new_name_auction.Net.Slots.{Kept, Kept-put, Kept-calls}

module _ (n0 : NetServer) where
  io_drop-Kept :
      (i : ℕ) (n : NetServer) (s s' : Session)
      → Kept n0 n
      → session_at i n ≡ ok s
      → s'.valid ≡ s.valid
      → Kept n0 (io_drop i s' n)
  unfolding io_drop
  io_drop-Kept i n s s' k e v =
      let k' : Kept n0 (put_session i (io_down s') n) = Kept-put n0 n i s (io_down s') k e v in
      elim (Bool-cases ((io_down s').io_count == 0)) [
        | inl last ↦ rw last (record { pool = k'.pool; limit = k'.limit; valids = k'.valids })
        | inr used ↦ rw used k'
      ]

  find_session-Kept :
      (sid : ℕ) (n : NetServer) → Kept n0 n → Ensures (λ r. Kept n0 r.1) (find_session sid n)
  unfolding find_session
  find_session-Kept sid n k =
      Ensures-if (λ r. Kept n0 r.1) (leb max_session_slots (slot_of sid)) _ _ (λ _. k)
        λ _.
          Ensures-bind (λ r. Kept n0 r.1) (session_at (slot_of sid) n) _
            λ s e.
              Ensures-if (λ r. Kept n0 r.1) (not s.valid) _ _ (λ _. k)
                λ _.
                  Ensures-if (λ r. Kept n0 r.1) s.released _ _
                    (λ _. io_drop-Kept (slot_of sid) n s (io_up s) k e refl)
                    λ _.
                      Ensures-if (λ r. Kept n0 r.1) (not (sid == s.session_id)) _ _
                        (λ _. io_drop-Kept (slot_of sid) n s (io_up s) k e refl)
                        λ _. Kept-put n0 n (slot_of sid) s (io_up s) k e refl

  pub disconnect_slot-Kept :
      (i : ℕ) (n : NetServer) → Kept n0 n → Ensures (Kept n0) (disconnect_slot i n)
  unfolding disconnect_slot
  disconnect_slot-Kept i n k =
      Ensures-bind (Kept n0) (session_at i n) _
        λ s e. Kept-calls n0 _ _ (Kept-put n0 n i s (record s { step = disconnected }) k e refl)

  pub disconnect_session-Kept :
      (sid : ℕ) (n : NetServer) → Kept n0 n → Ensures (Kept n0) (disconnect_session sid n)
  unfolding disconnect_session
  disconnect_session-Kept sid n k =
      Ensures-then (λ r. Kept n0 r.1) (Kept n0) (find_session sid n) _ (find_session-Kept sid n k)
        λ r k1.
          Ensures-option (Kept n0) r.0 _ _ (λ _. k1)
            λ i _.
              Ensures-then (Kept n0) (Kept n0) (disconnect_slot i r.1) _
                (disconnect_slot-Kept i r.1 k1)
                λ n2 k2.
                  Ensures-bind (Kept n0) (session_at i n2) _ λ s e. io_drop-Kept i n2 s s k2 e refl

  queue_packet-Kept :
      (p : Packet) (last posted : Bool) (i : ℕ) (s : Session) (n : NetServer)
      → Kept n0 n
      → session_at i n ≡ ok s
      → Kept n0 (queue_packet p last posted i s n)
  unfolding queue_packet
  queue_packet-Kept p last true i s n k e =
      io_drop-Kept i _ s _ (Kept-calls n0 n (post_send i ∷ []) k) e refl
  queue_packet-Kept p last false i s n k e =
      io_drop-Kept i _ _ _ (io_drop-Kept i n s _ k e refl) (io_drop-at i s _ n e) refl

  pub send_packet-Kept :
      (sid : ℕ) (p : Packet) (last posted : Bool) (n : NetServer)
      → Kept n0 n
      → Ensures (λ r. Kept n0 r.1) (send_packet sid p last posted n)
  unfolding send_packet
  send_packet-Kept sid p last posted n k =
      let P : Packet × NetServer → Type 0 = λ r. Kept n0 r.1 in
      Ensures-then (λ r. Kept n0 r.1) P (find_session sid n) _ (find_session-Kept sid n k)
        λ r k1.
          Ensures-option P r.0 _ _ (λ _. k1)
            λ i _. Ensures-bind P (session_at i r.1) _ λ s e.
              Ensures-if P (is_disconnected s.step) _ _ (λ _. io_drop-Kept i r.1 s s k1 e refl)
                λ _.
                  Ensures-bind P (encoded (add_ref 1 p)) _
                    λ p1 _. queue_packet-Kept p1 last posted i s r.1 k1 e

  pub send_packets-Kept :
      (sids : List ℕ) (p : Packet) (last : Bool) (n : NetServer)
      → Kept n0 n
      → Ensures (λ r. Kept n0 r.1) (send_packets sids p last n)
  unfolding send_packets
  send_packets-Kept [] p last n k = k
  send_packets-Kept (sid ∷ sids) p last n k =
      Ensures-then (λ r. Kept n0 r.1) (λ r. Kept n0 r.1) (send_packet sid p last true n) _
        (send_packet-Kept sid p last true n k) λ r k1. send_packets-Kept sids r.0 last r.1 k1

  cancel_disconnected-Kept :
      (i : ℕ) (n : NetServer) → Kept n0 n → Ensures (Kept n0) (cancel_disconnected i n)
  unfolding cancel_disconnected
  cancel_disconnected-Kept i n k =
      Ensures-bind (Kept n0) (session_at i n) _
        λ s _. Ensures-if (Kept n0) (is_disconnected s.step) _ _ (λ _. Kept-calls n0 n _ k) (λ _. k)

  send_failed-Kept : (i : ℕ) (n : NetServer) → Kept n0 n → Ensures (Kept n0) (send_failed i n)
  unfolding send_failed
  send_failed-Kept i n k = Ensures-bind (Kept n0) (session_at i n) _ λ s _.
      Ensures-then (Kept n0) (Kept n0) _ _ (disconnect_slot-Kept i _ (Kept-calls n0 n _ k)) λ n1 k1.
        Ensures-bind (Kept n0) (session_at i n1) _ λ s1 e1. Kept-put n0 n1 i s1 _ k1 e1 refl

  pub send_post-Kept :
      (failed : Bool) (i : ℕ) (n : NetServer) → Kept n0 n → Ensures (Kept n0) (send_post failed i n)
  unfolding send_post batch
  send_post-Kept failed i n k = Ensures-bind (Kept n0) (session_at i n) _ λ s e.
      Ensures-if (Kept n0) s.sending _ _ (λ _. k)
        λ _.
          Ensures-if (Kept n0) (is_disconnected s.step) _ _ (λ _. k)
            λ _.
              Ensures-if (Kept n0) (length s.send_queue == 0) _ _ (λ _. k)
                λ _.
                  (let k1 = Kept-calls n0 _ _ (Kept-put n0 n i s (batch s) k e refl) in
                    Ensures-then (Kept n0) (Kept n0) _ _
                      (Ensures-if (Kept n0) failed _ _ (λ _. send_failed-Kept i _ k1) (λ _. k1))
                      λ n2 k2. cancel_disconnected-Kept i n2 k2)

  send_done-step :
      (i : ℕ) (n : NetServer) (step : DisconnectStep)
      → Kept n0 n
      → Ensures (Kept n0) (last_sent step i n)
  unfolding last_sent
  send_done-step i n normal k = k
  send_done-step i n send_packet_last k = k
  send_done-step i n send_post_last k = disconnect_slot-Kept i n k
  send_done-step i n disconnected k = k

  pub send_done-Kept :
      (failed : Bool) (i : ℕ) (n : NetServer) → Kept n0 n → Ensures (Kept n0) (send_done failed i n)
  unfolding send_done
  send_done-Kept failed i n k = Ensures-bind (Kept n0) (session_at i n) _ λ s _.
      Ensures-then (Kept n0) (Kept n0) _ _ (send_done-step i n s.step k) λ n1 k1.
        Ensures-bind (Kept n0) (session_at i n1) _ λ s1 e1.
          (let k2 = Kept-calls n0 _ _ (Kept-put n0 n1 i s1 _ k1 e1 refl) in
            Ensures-if (Kept n0) (length s1.send_queue == 0) _ _ (λ _. k2)
              (λ _. send_post-Kept failed i _ k2))

  recv_post-Kept :
      (failed : Bool) (i : ℕ) (n : NetServer) → Kept n0 n → Ensures (Kept n0) (recv_post failed i n)
  unfolding recv_post
  recv_post-Kept failed i n k = Ensures-bind (Kept n0) (session_at i n) _ λ s e.
      Ensures-if (Kept n0) (is_disconnected s.step) _ _ (λ _. k)
        λ _.
          cancel_disconnected-Kept i _
            (Kept-calls n0 _ _ (Kept-put n0 n i s _ k e (asked_valid failed s)))
    where
      asked_valid :
          (failed : Bool) (s : Session)
          → (if failed then io_down (io_up s) else io_up s).valid ≡ s.valid
      asked_valid true s = refl
      asked_valid false s = refl

  framed_done-Kept :
      (failed : Bool) (i : ℕ) (s : Session) (f : Framed) (n : NetServer)
      → Kept n0 n
      → session_at i n ≡ ok s
      → Ensures (Kept n0) (framed_done failed i s f n)
  unfolding framed_done
  framed_done-Kept failed i s f n k e =
      let k1 : Kept n0 _ =
        Kept-calls n0 _ (deliveries s.session_id f.packets) (Kept-put n0 n i s _ k e refl) in
      Ensures-then (Kept n0) (Kept n0) _ _
        (Ensures-if (Kept n0) f.dropped _ (ok _) (λ _. disconnect_slot-Kept i _ k1) (λ _. k1))
        λ n2 k2. recv_post-Kept failed i n2 k2

  pub recv_done-Kept :
      (block : Packet) (stale : ℕ) (cells : List ℕ) (transferred : ℕ) (failed : Bool) (i : ℕ)
      (n : NetServer)
      → Kept n0 n
      → Ensures (Kept n0) (recv_done block stale cells transferred failed i n)
  unfolding recv_done
  recv_done-Kept block stale cells transferred failed i n k =
      Ensures-bind (Kept n0) (session_at i n) _ λ s e.
        Ensures-bind (Kept n0)
          (take_frames block stale transferred
            (move_rear transferred (record s.recv_queue { cells = cells })).1)
          _ λ f _. framed_done-Kept failed i s f n k e
