-- ===== src/Net/Worker.antt =====
-- WorkerThread of NewNameAuction/CNetServer.cpp on each kind of completion, recvPost, and the counts of
-- ControlThread.
use new_name_auction.Prelude.{
  ℕ, zero, suc, Bool, List, [], ◌∷◌, Outcome, ok, fault, ◌>>=◌, ◌==◌, if◌then◌else◌, length, add32,
}
use new_name_auction.Packet.{Packet}
use new_name_auction.Ring.{Ring, move_rear, use_size}
use new_name_auction.Net.Receive.{Framed, recv_buffers, frame_loop}
use new_name_auction.Net.State.{
  Session, NetServer, Call, wsa_recv, client_recv, is_disconnected, session_at, put_session, call,
  calls_of, io_up, io_down, slot_of,
}
use new_name_auction.Net.Sessions.{disconnect_slot, release_session}
use new_name_auction.Net.Sending.{send_post, send_done, cancel_disconnected}

-- recvPost, given whether WSARecv fails.
unfoldable pub recv_post : Bool → ℕ → NetServer → Outcome NetServer
recv_post failed i n = session_at i n >>= λ s.
    if is_disconnected s.step
    then ok n
    else (let s' = if failed then io_down (io_up s) else io_up s in
        let asked = call (wsa_recv i (recv_buffers s.recv_queue)) (put_session i s' n) in
        cancel_disconnected i asked)

-- The calls of OnRecv for the packets that the loop took out.
unfoldable pub deliveries : ℕ → List Packet → List Call
deliveries sid [] = []
deliveries sid (p ∷ ps) = client_recv sid p ∷ deliveries sid ps

-- What the loop hands out and leaves, and the next recvPost.
unfoldable pub framed_done : Bool → ℕ → Session → Framed → NetServer → Outcome NetServer
framed_done failed i s f n =
    let s' = record s {
      recv_queue = f.queue;
      recv_count = add32 s.recv_count (length f.packets);
    } in
    let n1 = calls_of (deliveries s.session_id f.packets) (put_session i s' n) in
    (if f.dropped then disconnect_slot i n1 else ok n1) >>= λ n2. recv_post failed i n2

-- The bytes held are fuel for the loop: each message has a header at least.
abbrev pub take_frames : Packet → ℕ → ℕ → Ring → Outcome Framed
take_frames block stale transferred q = frame_loop block stale (suc (use_size q)) transferred q

-- WSARecv has completed: `cells` is the buffer with the bytes that have arrived. `block` is the packet of
-- the pool and `stale` what the stack holds, as in the loop.
unfoldable pub recv_done : Packet → ℕ → List ℕ → ℕ → Bool → ℕ → NetServer → Outcome NetServer
recv_done block stale cells transferred failed i n = session_at i n >>= λ s.
    take_frames block stale transferred
      (move_rear transferred (record s.recv_queue { cells = cells })).1
    >>= λ f. framed_done failed i s f n

-- What GetQueuedCompletionStatus returns for a session: an error or no bytes, the requests of sendPacket and
-- of releaseRequest, and the ends of WSARecv and of WSASend. The Boolean tells whether the call of
-- WSARecv or WSASend that is made next fails.
pub data Completion : Type 0 where
  broken : Completion
  send_request : Bool → Completion
  release_request : Completion
  received : Packet → ℕ → List ℕ → ℕ → Bool → Completion
  sent_all : Bool → Completion

-- The use that the completion had is given back; the last one releases the session.
unfoldable pub give_back_use : ℕ → NetServer → Outcome NetServer
give_back_use i n = do
  s ← session_at i n
  let n' = put_session i (io_down s) n
  if (io_down s).io_count == 0 then release_session 2 s.session_id n' else ok n'

unfoldable pub work : Completion → ℕ → NetServer → Outcome NetServer
work broken i n = give_back_use i n
work (send_request failed) i n = send_post failed i n >>= λ n1. give_back_use i n1
work release_request i n = session_at i n >>= λ s. release_session 2 s.session_id n
work (received block stale cells transferred failed) i n =
    recv_done block stale cells transferred failed i n >>= λ n1. give_back_use i n1
work (sent_all failed) i n = send_done failed i n >>= λ n1. give_back_use i n1

-- A round of ControlThread: the sums over the slots, whose counts start again from 0.
pub record Counts : Type 0 where
  pub valid_num : ℕ
  pub disconnects : ℕ
  pub sends : ℕ
  pub recvs : ℕ

abbrev pub add_session : Session → Counts → Counts
add_session s c = record {
  valid_num = if s.valid then add32 c.valid_num 1 else c.valid_num;
  disconnects = add32 c.disconnects s.disconnect_count;
  sends = add32 c.sends s.send_count;
  recvs = add32 c.recvs s.recv_count;
}

abbrev pub reset_counts : Session → Session
reset_counts s = record s { disconnect_count = 0; send_count = 0; recv_count = 0 }

unfoldable pub count_sessions : ℕ → List Session → Counts → Outcome (Counts × List Session)
count_sessions zero ss c = ok (c, ss)
count_sessions (suc k) [] c = fault
count_sessions (suc k) (s ∷ ss) c =
    count_sessions k ss (add_session s c) >>= λ (c', ss'). ok (c', reset_counts s ∷ ss')

unfoldable pub control_round : NetServer → Outcome NetServer
control_round n = do
  (c, ss) ←
      count_sessions n.max_session n.sessions
        (record { valid_num = 0; disconnects = 0; sends = 0; recvs = 0 })
  ok (record n {
    sessions = ss;
    accept_tps = n.accept_count;
    accept_count = 0;
    send_tps = c.sends;
    recv_tps = c.recvs;
    disconnect_tps = c.disconnects;
    session_num = c.valid_num;
  })

-- getSessionIP.
abbrev pub get_session_ip : ℕ → NetServer → Outcome ℕ
get_session_ip sid n = session_at (slot_of sid) n >>= λ s. ok s.ip
