-- ===== src/Net/Reception.antt =====
-- A reception of CNetServer.cpp as a whole: the bytes that WSARecv has put into the buffer, the messages
-- handed to OnRecv and the next recvPost.
use new_name_auction.Prelude.{
  ℕ, suc, ◌≤◌, ◌≡◌, refl, sym, ap, ◌∙◌, false, List, [], ◌∷◌, ◌++◌, ok, arith, length, add32,
  append-nil, length-append, All,
}
use new_name_auction.Packet.{Packet}
use new_name_auction.Packet.Stream.{IsBlock}
use new_name_auction.Ring.{Ring, move_rear, use_size}
use new_name_auction.Ring.Contents.{IsRing, held, room, use_size-used, length-held}
use new_name_auction.Net.State.{
  Session, NetServer, wsa_recv, is_disconnected, session_at, put_session, call, calls_of, io_up,
}
use new_name_auction.Net.Receive.{recv_buffers, Framed}
use new_name_auction.Net.Receive.Frames.{Wire, wire_bytes, wires, Fits, Bodies, frame_loop_lem}
use new_name_auction.Net.Receive.Buffers.{Filled, move_rear_lem}
use new_name_auction.Net.Sending.{cancel_disconnected}
use new_name_auction.Net.Worker.{recv_post, recv_done, framed_done, deliveries, take_frames}
use new_name_auction.Net.Reuse.{session_at-put}

length-wires : (ws : List Wire) → length ws ≤ length (wires ws)
length-wires [] = omega arith
length-wires (w ∷ ws) = omega (arith, length-wires ws, length-append (wire_bytes w) (wires ws))

-- recvPost on a session that is not disconnected.
recv_post-asked :
    (i : ℕ) (s : Session) (n : NetServer)
    → session_at i n ≡ ok s
    → is_disconnected s.step ≡ false
    → recv_post false i n
      ≡ ok (call (wsa_recv i (recv_buffers s.recv_queue)) (put_session i (io_up s) n))
unfolding recv_post cancel_disconnected
recv_post-asked i s n at open_step =
    rw (at, open_step, session_at-put i s (io_up s) n at, open_step) refl

-- The session after the loop.
abbrev served : Session → Framed → Session
served s f = record s { recv_queue = f.queue; recv_count = add32 s.recv_count (length f.packets) }

abbrev handed : ℕ → Session → Framed → NetServer → NetServer
handed i s f n = calls_of (deliveries s.session_id f.packets) (put_session i (served s f) n)

framed_done-open :
    (i : ℕ) (s : Session) (f : Framed) (n : NetServer)
    → session_at i n ≡ ok s
    → f.dropped ≡ false
    → is_disconnected s.step ≡ false
    → framed_done false i s f n
      ≡ ok (
          call
            (wsa_recv i (recv_buffers f.queue))
            (put_session i (io_up (served s f)) (handed i s f n)))
unfolding framed_done
framed_done-open i s f n at stays open_step = rw stays (
    recv_post-asked i (served s f) (handed i s f n) (session_at-put i s (served s f) n at)
      open_step)

recv_done-run :
    (block : Packet) (stale : ℕ) (cells : List ℕ) (transferred i : ℕ) (s : Session) (f : Framed)
    (n : NetServer)
    → session_at i n ≡ ok s
    → take_frames block stale transferred
        (move_rear transferred (record s.recv_queue { cells = cells })).1
      ≡ ok f
    → recv_done block stale cells transferred false i n ≡ framed_done false i s f n
unfolding recv_done
recv_done-run block stale cells transferred i s f n at framed = rw (at, framed) refl

-- Whole messages arrive in the empty buffer of a session that is not disconnected, with bodies of at most
-- 1994 bytes and all in the room that recvPost offered: OnRecv is called for each of them, in their order,
-- with a packet that holds its body, then WSARecv is asked for more; where it does not refuse, the buffer is
-- empty again and well formed, and the session has one more use and as many more received messages.
pub recv_done_lem :
    (block : Packet) (stale : ℕ) (cells : List ℕ) (ws : List Wire) (i : ℕ) (s : Session)
    (n : NetServer)
    → IsBlock block
    → All Fits ws
    → session_at i n ≡ ok s
    → is_disconnected s.step ≡ false
    → IsRing s.recv_queue
    → held s.recv_queue ≡ []
    → 1 ≤ length ws
    → length (wires ws) ≤ room s.recv_queue
    → Filled s.recv_queue (wires ws) cells
    → (ps : List Packet) × (q : Ring) × (n' : NetServer) × (recv_done block stale cells
          (length (wires ws))
          false
          i
          n
        ≡ ok n')
      × Bodies ps ws
      × (n'.calls ≡ (n.calls ++ deliveries s.session_id ps) ++ (wsa_recv i (recv_buffers q) ∷ []))
      × (session_at i n'
          ≡ ok (record (io_up s) { recv_queue = q; recv_count = add32 s.recv_count (length ps) }))
      × IsRing q
      × (held q ≡ [])
recv_done_lem block stale cells ws i s n b fits at open_step v none_held some_message room_for
      filled =
    let size = length-wires ws in
    let moved = (move_rear (length (wires ws)) (record s.recv_queue { cells = cells })).1 in
    let (_, valid, holds) =
      move_rear_lem s.recv_queue (wires ws) cells v (omega arith) room_for filled in
    let holds' : held moved ≡ wires ws ++ [] =
      holds ∙ (ap (λ bytes. bytes ++ wires ws) none_held ∙ sym (append-nil (wires ws))) in
    let enough : length ws ≤ suc (use_size moved) = omega (
      arith,
      use_size-used moved valid,
      length-held moved valid,
      ap length holds',
      length-append (wires ws) [],
    ) in
    let (f, run, bodies, stays, valid', rest) =
      frame_loop_lem block stale (suc (use_size moved)) ws [] moved b fits valid holds' enough in
    (
      f.packets,
      f.queue,
      _,
      recv_done-run block stale cells (length (wires ws)) i s f n at run
          ∙ framed_done-open i s f n at stays open_step,
      bodies,
      refl,
      session_at-put i (served s f) _ (handed i s f n) (session_at-put i s (served s f) n at),
      valid',
      rest,
    )
