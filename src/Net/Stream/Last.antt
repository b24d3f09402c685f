-- ===== src/Net/Stream/Last.antt =====
-- A session that is sent its last packet (CNetServer.cpp).
use new_name_auction.Prelude.{
  ℕ, Bool, ◌≤◌, ◌≡◌, refl, ap, ◌∙◌, inl, inr, true, false, [], ◌∷◌, ◌++◌, ok, arith, ◌==◌,
  Bool-cases, length, take, drop,
}
use new_name_auction.Packet.{}
use new_name_auction.Net.State.{
  Session, NetServer, cancel_io, send_packet_last, send_post_last, disconnected, is_disconnected,
  max_packet, session_at, put_session, call, calls_of, unrefs,
}
use new_name_auction.Net.Sending.{send_post, send_done, batch, last_sent, last_post}
use new_name_auction.Net.Sessions.{disconnect_slot}
use new_name_auction.Net.Reuse.{session_at-put}
use new_name_auction.Net.Stream.{
  on_wire, on_wire-quiet, on_wire-unrefs, send_done-run, posted, posted-at, posted-on_wire,
  send_post-posted,
}

-- The session after the completion of its last WSASend.
abbrev last_cleared : ℕ → Session → NetServer → NetServer
last_cleared i s n =
    let s1 = record s { step = disconnected } in
    let n1 = call (cancel_io i) (put_session i s1 n) in
    calls_of (unrefs s.sent) (put_session i (record s1 { sent = []; sending = false }) n1)

last_cleared-at :
    (i : ℕ) (s : Session) (n : NetServer)
    → session_at i n ≡ ok s
    → session_at i (last_cleared i s n)
      ≡ ok (record s { step = disconnected; sent = []; sending = false })
last_cleared-at i s n at =
    session_at-put i (record s { step = disconnected })
      (record s { step = disconnected; sent = []; sending = false })
      (put_session i (record s { step = disconnected }) n)
      (session_at-put i s (record s { step = disconnected }) n at)

send_post-refused :
    (failed : Bool) (i : ℕ) (s : Session) (n : NetServer)
    → session_at i n ≡ ok s
    → is_disconnected s.step ≡ true
    → send_post failed i n ≡ ok n
unfolding send_post
send_post-refused failed i s n at gone = elim (Bool-cases s.sending) [
  | inl busy ↦ rw (at, busy) refl
  | inr idle ↦ rw (at, idle, gone) refl
]

last_sent-last :
    (i : ℕ) (s : Session) (n : NetServer)
    → session_at i n ≡ ok s
    → last_sent send_post_last i n
      ≡ ok (call (cancel_io i) (put_session i (record s { step = disconnected }) n))
unfolding last_sent disconnect_slot
last_sent-last i s n at = rw at refl

send_done-last :
    (i : ℕ) (s : Session) (n : NetServer)
    → session_at i n ≡ ok s
    → s.step ≡ send_post_last
    → send_done false i n ≡ ok (last_cleared i s n)
send_done-last i s n at last =
    send_done-run i n (call (cancel_io i) (put_session i (record s { step = disconnected }) n)) s
      (record s { step = disconnected }) at
      (ap (λ d. last_sent d i n) last ∙ last_sent-last i s n at)
      (session_at-put i s (record s { step = disconnected }) n at)
    ∙ elim (Bool-cases (length s.send_queue == 0)) [
      | inl no_queue ↦ rw no_queue refl
      | inr some_queue ↦
          rw some_queue
            (send_post-refused false i _ (last_cleared i s n) (last_cleared-at i s n at) refl)
    ]

-- A session whose last packet is asked for and waits: sendPost, where WSASend is not refused, and its
-- completion send the first 950 packets that wait and disconnect the session; what waits behind them, and
-- so the last packet if there are more, stays in the queue, and sendPost changes nothing in any state in
-- which the session is disconnected.
pub last_packet_lem :
    (i : ℕ) (s : Session) (n : NetServer)
    → session_at i n ≡ ok s
    → s.sending ≡ false
    → s.step ≡ send_packet_last
    → 1 ≤ length s.send_queue
    → (n1 n2 : NetServer) × (s2 : Session) × (send_post false i n ≡ ok n1)
      × (send_done false i n1 ≡ ok n2)
      × (session_at i n2 ≡ ok s2)
      × (s2.step ≡ disconnected)
      × (s2.send_queue ≡ drop max_packet s.send_queue)
      × (on_wire i n2.calls ≡ on_wire i n.calls ++ take max_packet s.send_queue)
      × ((failed : Bool) (n3 : NetServer) (s3 : Session)
          → session_at i n3 ≡ ok s3
          → s3.step ≡ disconnected
          → send_post failed i n3 ≡ ok n3)
unfolding batch
last_packet_lem i s n at idle last pos =
    let n1 = posted i n s at in
    let after : (batch s).step ≡ send_post_last = ap last_post last in
    let at1 = posted-at i n s at in
    let n2 = last_cleared i (batch s) n1 in
    let quiet : on_wire i n2.calls ≡ on_wire i n1.calls =
      on_wire-quiet i (n1.calls ++ (cancel_io i ∷ [])) (unrefs (batch s).sent)
        (on_wire-unrefs i (batch s).sent)
      ∙ on_wire-quiet i n1.calls (cancel_io i ∷ []) refl in
    (
      n1,
      n2,
      record (batch s) { step = disconnected; sent = []; sending = false },
      send_post-posted i n s at idle (ap is_disconnected last) (ground arith)
          (ap is_disconnected after),
      send_done-last i (batch s) n1 at1 after,
      last_cleared-at i (batch s) n1 at1,
      refl,
      refl,
      quiet ∙ posted-on_wire i n s at,
      λ failed n3 s3 at3 gone. send_post-refused failed i s3 n3 at3 (ap is_disconnected gone),
    )
