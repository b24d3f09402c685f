-- ===== src/Net/Sending.antt =====
-- The sending of packets in NewNameAuction/CNetServer.cpp: sendPacket, sendPost and what WorkerThread does
-- when WSASend has completed.
use new_name_auction.Prelude.{
  ℕ, Bool, true, false, List, [], ◌∷◌, ◌++◌, none, some, Outcome, ok, fault, ◌>>=◌, ◌==◌,
  if◌then◌else◌, length, take, drop, add32,
}
use new_name_auction.Packet.{Packet, add_ref, encode}
use new_name_auction.Net.State.{
  Session, NetServer, post_send, cancel_io, wsa_send, DisconnectStep, normal, send_packet_last,
  send_post_last, disconnected, is_disconnected, max_packet, session_at, put_session, call,
  calls_of, unrefs, io_up, io_down, io_drop,
}
use new_name_auction.Net.Sessions.{find_session, disconnect_slot}

-- The packet is encoded where it was not before; a failure crashes the server.
unfoldable pub encoded : Packet → Outcome Packet
encoded p =
    if p.encode_flag then ok p else (let (done, p') = encode p in if done then ok p' else fault)

-- The two compare-and-swaps on disconnectStep.
abbrev pub last_packet : Bool → DisconnectStep → DisconnectStep
last_packet true normal = send_packet_last
last_packet true send_packet_last = send_packet_last
last_packet true send_post_last = send_post_last
last_packet true disconnected = disconnected
last_packet false step = step

abbrev pub last_post : DisconnectStep → DisconnectStep
last_post normal = normal
last_post send_packet_last = send_post_last
last_post send_post_last = send_post_last
last_post disconnected = disconnected

-- sendPacket on a session in use: the packet goes to the end of the queue and the completion port is asked
-- for a sendPost, which has a use of its own if `posted`, and gives it back otherwise. Enqueue of LockFreeQueue always succeeds.
unfoldable pub queue_packet : Packet → Bool → Bool → ℕ → Session → NetServer → NetServer
queue_packet p last posted i s n =
    let s' = record s { send_queue = s.send_queue ++ (p ∷ []); step = last_packet last s.step } in
    let s'' = if posted then io_up s' else io_down (io_up s') in
    let n' = if posted then call (post_send i) n else io_drop i (io_up s') n in io_drop i s'' n'

unfoldable pub send_packet : ℕ → Packet → Bool → Bool → NetServer → Outcome (Packet × NetServer)
send_packet sid p last posted n = do
  (found, n1) ← find_session sid n
  elim found [
    | none ↦ ok (p, n1)
    | some i ↦ session_at i n1 >>= λ s.
        if is_disconnected s.step
        then ok (p, io_drop i s n1)
        else encoded (add_ref 1 p) >>= λ p1. ok (p1, queue_packet p1 last posted i s n1)
  ]

-- sendPacket on a set of sessions, every request to the completion port taken.
unfoldable pub send_packets : List ℕ → Packet → Bool → NetServer → Outcome (Packet × NetServer)
send_packets [] p last n = ok (p, n)
send_packets (sid ∷ sids) p last n =
    send_packet sid p last true n >>= λ (p1, n1). send_packets sids p1 last n1

-- CancelIoEx after the request, where the session is disconnected by then.
unfoldable pub cancel_disconnected : ℕ → NetServer → Outcome NetServer
cancel_disconnected i n = do
  s ← session_at i n
  if is_disconnected s.step then ok (call (cancel_io i) n) else ok n

-- What sendPost does where WSASend has failed.
unfoldable pub send_failed : ℕ → NetServer → Outcome NetServer
send_failed i n = do
  s ← session_at i n
  n1 ← disconnect_slot i (calls_of (unrefs s.sent) n)
  s1 ← session_at i n1
  ok (put_session i (io_down (record s1 { sent = []; sending = false })) n1)

-- The packets that WSASend is given: those that are first in the queue, up to dfMAX_PACKET.
unfoldable pub batch : Session → Session
batch s = record (io_up s) {
  sending = true;
  send_queue = drop max_packet s.send_queue;
  sent = take max_packet s.send_queue;
  send_count = add32 s.send_count (length (take max_packet s.send_queue));
  step = last_post s.step;
}

unfoldable pub send_post : Bool → ℕ → NetServer → Outcome NetServer
send_post failed i n = session_at i n >>= λ s.
    if s.sending
    then ok n
    else if is_disconnected s.step
    then ok n
    else if length s.send_queue == 0
    then ok n
    else (let n1 = call (wsa_send i (batch s).sent) (put_session i (batch s) n) in
        (if failed then send_failed i n1 else ok n1) >>= λ n2. cancel_disconnected i n2)

-- The end of what was sent last disconnects the session.
unfoldable pub last_sent : DisconnectStep → ℕ → NetServer → Outcome NetServer
last_sent normal i n = ok n
last_sent send_packet_last i n = ok n
last_sent send_post_last i n = disconnect_slot i n
last_sent disconnected i n = ok n

-- WorkerThread on a WSASend that has completed.
unfoldable pub send_done : Bool → ℕ → NetServer → Outcome NetServer
send_done failed i n = do
  s ← session_at i n
  n1 ← last_sent s.step i n
  s1 ← session_at i n1
  let n2 = calls_of (unrefs s1.sent) (put_session i (record s1 { sent = []; sending = false }) n1)
  if length s1.send_queue == 0 then ok n2 else send_post failed i n2
