-- ===== src/Net/Stream/Enqueue.antt =====
-- A packet that is given to a session (sendPacket of CNetServer.cpp).
use new_name_auction.Prelude.{
  ℕ, ◌<◌, ◌≡◌, refl, ap, ◌∙◌, inl, inr, Bool, true, false, List, [], ◌∷◌, ◌++◌, some, ok, arith,
  leb, ◌==◌, Bool-cases,
}
use new_name_auction.Packet.{Packet, add_ref}
use new_name_auction.Net.State.{
  Session, NetServer, post_send, post_release, normal, is_disconnected, session_at, put_session,
  io_up, io_down, io_drop, slot_of, max_session_slots, call,
}
use new_name_auction.Net.Sending.{encoded, queue_packet, send_packet}
use new_name_auction.Net.Sessions.{find_session}
use new_name_auction.Net.Reuse.{session_at-put}
use new_name_auction.Net.Stream.{Sends, on_wire, on_wire-quiet}

-- A session that can be found by its identifier.
pub record IsFound (sid : ℕ) (s : Session) : Type 0 where
  pub in_table : slot_of sid < max_session_slots
  pub valid : s.valid ≡ true
  pub kept : s.released ≡ false
  pub named : s.session_id ≡ sid

pub find_session-IsFound :
    (sid : ℕ) (s : Session) (n : NetServer)
    → session_at (slot_of sid) n ≡ ok s
    → IsFound sid s
    → find_session sid n ≡ ok (some (slot_of sid), put_session (slot_of sid) (io_up s) n)
unfolding find_session
find_session-IsFound sid s n at f =
    let inside : leb max_session_slots (slot_of sid) ≡ false = ground (arith, f.in_table) in
    let same : (sid == s.session_id) ≡ true = ground (arith, f.named) in
    rw (inside, at, f.valid, f.kept, same) refl

module _ (i : ℕ) (wire queue : List Packet) (busy : Bool) (n : NetServer) where
  io_drop-Sends :
      (s0 s : Session)
      → session_at i n ≡ ok s0
      → s.sending ≡ busy
      → s.step ≡ normal
      → s.send_queue ≡ queue
      → on_wire i n.calls ≡ wire
      → Sends i (io_drop i s n) wire queue busy
  unfolding io_drop
  io_drop-Sends s0 s at flag fine waiting before =
      let kept : Sends i (put_session i (io_down s) n) wire queue busy = record {
        session = io_down s;
        at = session_at-put i s0 (io_down s) n at;
        flag = flag;
        fine = fine;
        waiting = waiting;
        sent_before = before;
      } in
      elim (Bool-cases ((io_down s).io_count == 0)) [
        | inr used ↦ rw used kept
        | inl last ↦ rw last (record {
          session = kept.session;
          at = kept.at;
          flag = kept.flag;
          fine = kept.fine;
          waiting = kept.waiting;
          sent_before = on_wire-quiet i n.calls (post_release i ∷ []) refl ∙ kept.sent_before;
        })
      ]

send_packet-run :
    (sid : ℕ) (p p1 : Packet) (last posted : Bool) (s : Session) (n : NetServer)
    → session_at (slot_of sid) n ≡ ok s
    → IsFound sid s
    → is_disconnected s.step ≡ false
    → encoded (add_ref 1 p) ≡ ok p1
    → send_packet sid p last posted n
      ≡ ok (
        p1,
        queue_packet p1 last posted (slot_of sid) (io_up s) (put_session (slot_of sid) (io_up s) n),
      )
unfolding send_packet
send_packet-run sid p p1 last posted s n at f fine e =
    rw (find_session-IsFound sid s n at f, session_at-put (slot_of sid) s (io_up s) n at, fine, e)
      refl

-- sendPacket of a packet that is not the last, to a session that is found by its identifier and not to be
-- disconnected: the packet, encoded, waits behind those that waited before, nothing is sent by it, and
-- the packet goes on with its count of references raised, whether the request is posted or not.
pub send_packet_lem :
    (sid : ℕ) (p p1 : Packet) (posted busy : Bool) (n : NetServer) (wire queue : List Packet)
    → (h : Sends (slot_of sid) n wire queue busy) → IsFound sid h.session
    → encoded (add_ref 1 p) ≡ ok p1
    → (n' : NetServer) × (send_packet sid p false posted n ≡ ok (p1, n'))
      × Sends (slot_of sid) n' wire (queue ++ (p1 ∷ [])) busy
unfolding queue_packet
send_packet_lem sid p p1 true busy n wire queue h f e =
    let i = slot_of sid in
    let s = h.session in
    let n1 = put_session i (io_up s) n in
    (
      _,
      send_packet-run sid p p1 false true s n h.at f (ap is_disconnected h.fine) e,
      io_drop-Sends i wire (queue ++ (p1 ∷ [])) busy (call (post_send i) n1) (io_up s) _
          (session_at-put i s (io_up s) n h.at) h.flag h.fine (ap (λ q. q ++ (p1 ∷ [])) h.waiting)
          (on_wire-quiet i n.calls (post_send i ∷ []) refl ∙ h.sent_before),
    )
send_packet_lem sid p p1 false busy n wire queue h f e =
    let i = slot_of sid in
    let s = h.session in
    let raised : Session = io_up (record (io_up s) { send_queue = s.send_queue ++ (p1 ∷ []) }) in
    let given =
      io_drop-Sends i wire (queue ++ (p1 ∷ [])) busy (put_session i (io_up s) n) (io_up s) raised
        (session_at-put i s (io_up s) n h.at) h.flag h.fine (ap (λ q. q ++ (p1 ∷ [])) h.waiting)
        h.sent_before in
    (
      _,
      send_packet-run sid p p1 false false s n h.at f (ap is_disconnected h.fine) e,
      io_drop-Sends i wire (queue ++ (p1 ∷ [])) busy _ given.session _ given.at h.flag h.fine
          (ap (λ q. q ++ (p1 ∷ [])) h.waiting) given.sent_before,
    )
