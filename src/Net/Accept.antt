-- ===== src/Net/Accept.antt =====
-- AcceptThread of NewNameAuction/CNetServer.cpp: a connection that accept has returned.
use new_name_auction.Prelude.{
  ℕ, Bool, true, false, [], ◌∷◌, Option, none, some, Outcome, ok, ◌>>=◌, if◌then◌else◌, add32,
  add64,
}
use new_name_auction.Ring.{clear_buffer, rear_buffer_ptr, direct_enqueue_size}
use new_name_auction.Net.State.{
  Session, NetServer, close_socket, wsa_recv_first, bind_port, client_join, normal, make_session_id,
  session_at, put_session, call, calls_of, unrefs, io_up, io_down,
}

abbrev pub count_accept : NetServer → NetServer
count_accept n = record n {
  accept_sum = add64 n.accept_sum 1;
  accept_count = add32 n.accept_count 1;
}

-- The session that takes the slot: SOCKET `sock` from address `ip`.
unfoldable pub fresh_session : ℕ → ℕ → ℕ → Session → Session
fresh_session sid sock ip s = record (io_up s) {
  session_id = sid;
  valid = true;
  released = false;
  ip = ip;
  sock = sock;
  sending = false;
  recv_queue = clear_buffer s.recv_queue;
  step = normal;
  send_queue = [];
}

-- WSARecv on the new session: a failure other than WSA_IO_PENDING takes the use back.
unfoldable pub first_recv : Bool → ℕ → Session → NetServer → NetServer
first_recv failed i s n =
    let asked =
      call (wsa_recv_first i (rear_buffer_ptr s.recv_queue) (direct_enqueue_size s.recv_queue)) n in
    if failed then put_session i (io_down s) asked else asked

-- The session of slot `i`, from its identifier to OnClientJoin and the first WSARecv.
unfoldable pub open_session : ℕ → ℕ → ℕ → Bool → ℕ → NetServer → Outcome NetServer
open_session sock ip join_flag failed i n = do
  s ← session_at i n
  let sid = make_session_id n.alloc_num i
  let s' = fresh_session sid sock ip s
  let bound = call (bind_port sock i) (put_session i s' n)
  let joined = call (client_join sid join_flag) (calls_of (unrefs s.send_queue) bound)
  ok (first_recv failed i s' (record joined { alloc_num = add64 n.alloc_num 1 }))

-- `request` is what OnConnectionRequest answered, with JoinFlag where it agreed.
unfoldable pub accept : ℕ → ℕ → Option ℕ → Bool → NetServer → Outcome NetServer
accept sock ip request failed n = elim request [
  | none ↦ ok (call (close_socket sock) (count_accept n))
  | some join_flag ↦ elim n.empty_index [
    | [] ↦ ok (call (close_socket sock) (count_accept n))
    | i ∷ rest ↦
        open_session sock ip join_flag failed i (record (count_accept n) { empty_index = rest })
  ]
]
