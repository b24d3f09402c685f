-- ===== src/Net/Sessions.antt =====
-- The sessions of CNetServer.cpp: Start, findSession, disconnectSession and releaseSession, each as
-- one step.
use new_name_auction.Prelude.{
  ℕ, zero, suc, ◌+◌, true, false, not, List, [], ◌∷◌, ◌++◌, Option, none, some, Outcome, ok, fault,
  ◌>>=◌, leb, ◌==◌, if◌then◌else◌, minus_one, add32,
}
use new_name_auction.Ring.{}
use new_name_auction.Net.Receive.{}
use new_name_auction.Net.State.{
  Session, NetServer, cancel_io, close_socket, client_leave, normal, disconnected,
  max_session_slots, slot_of, session_at, put_session, call, calls_of, unrefs, io_up, io_down,
  io_drop,
}

-- The first loop of Start, on a slot, and the second, from index `i` on.
abbrev pub start_session : Session → Session
start_session s = record s {
  released = false;
  valid = false;
  recv_count = 0;
  send_count = 0;
  disconnect_count = 0;
  io_count = 0;
  sent = [];
  step = normal;
}

unfoldable pub start_sessions : ℕ → List Session → List Session
start_sessions zero ss = ss
start_sessions (suc k) [] = []
start_sessions (suc k) (s ∷ ss) = start_session s ∷ start_sessions k ss

unfoldable pub push_slots : ℕ → ℕ → List ℕ → List ℕ
push_slots zero i stack = stack
push_slots (suc k) i stack = push_slots k (i + 1) (i ∷ stack)

unfoldable pub start_server : NetServer → NetServer
start_server n = record n {
  sessions = start_sessions n.max_session n.sessions;
  empty_index = push_slots n.max_session 0 n.empty_index;
}

-- findSession: the session's count of uses is raised where it is found.
unfoldable pub find_session : ℕ → NetServer → Outcome (Option ℕ × NetServer)
find_session sid n =
    if leb max_session_slots (slot_of sid)
    then ok (none, n)
    else session_at (slot_of sid) n >>= λ s.
        if not s.valid
        then ok (none, n)
        else if s.released
        then ok (none, io_drop (slot_of sid) (io_up s) n)
        else if not (sid == s.session_id)
        then ok (none, io_drop (slot_of sid) (io_up s) n)
        else ok (some (slot_of sid), put_session (slot_of sid) (io_up s) n)

-- disconnectSession on a pointer, and on an identifier.
unfoldable pub disconnect_slot : ℕ → NetServer → Outcome NetServer
disconnect_slot i n = do
  s ← session_at i n
  ok (call (cancel_io i) (put_session i (record s { step = disconnected }) n))

unfoldable pub disconnect_session : ℕ → NetServer → Outcome NetServer
disconnect_session sid n = do
  (found, n1) ← find_session sid n
  elim found [
    | none ↦ ok n1
    | some i ↦ disconnect_slot i n1 >>= λ n2. session_at i n2 >>= λ s. ok (io_drop i s n2)
  ]

-- The value of releaseFlag.
abbrev pub release_flag : Session → ℕ
release_flag s = if s.released then minus_one else 0

-- The clean-up of releaseSession.
unfoldable pub clean_up : ℕ → ℕ → Session → NetServer → NetServer
clean_up sid i s n =
    let s' = record s {
      released = true;
      valid = false;
      disconnect_count = add32 s.disconnect_count 1;
      send_queue = [];
      sent = [];
    } in
    let closed = call (close_socket s.sock) (put_session i s' n) in
    let freed = calls_of (unrefs (s.send_queue ++ s.sent)) closed in
    let left = call (client_leave sid) freed in record left { empty_index = i ∷ left.empty_index }

-- releaseSession: the compare-and-swap on releaseFlag takes the count of uses for the expected value. It
-- calls itself where the slot has another session by now, so that `fuel` bounds the calls.
unfoldable pub release_session : ℕ → ℕ → NetServer → Outcome NetServer
release_session zero sid n = fault
release_session (suc fuel) sid n =
    if leb max_session_slots (slot_of sid)
    then ok n
    else session_at (slot_of sid) n >>= λ s.
        let back = io_down (io_up (record s { released = false })) in
        let again = release_session fuel s.session_id (put_session (slot_of sid) back n) in
        if not s.valid
        then ok n
        else if not (release_flag s == s.io_count)
        then ok n
        else if sid == s.session_id
        then ok (clean_up sid (slot_of sid) s n)
        else if back.io_count == 0
        then again
        else ok (put_session (slot_of sid) back n)
