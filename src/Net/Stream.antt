-- ===== src/Net/Stream.antt =====
-- The packets of a session (CNetServer.cpp), from sendPacket to WSASend.
pub mod Drain
pub mod Last
pub mod Enqueue
use new_name_auction.Prelude.{
  ℕ, zero, suc, ◌+◌, ◌-◌, ◌*◌, ◌≤◌, ◌<◌, ◌≡◌, refl, sym, ap, ap₂, subst, ◌∙◌, inl, inr, Bool, true,
  false, not, List, [], ◌∷◌, ◌++◌, Option, none, some, Outcome, ok, fault, ◌>>=◌, arith, leb, ltb,
  ◌==◌, if◌then◌else◌, Bool-cases, length, take, drop, append-nil, append_assoc, take-drop_self,
  length-drop,
}
use new_name_auction.Packet.{Packet}
use new_name_auction.Net.State.{
  Session, NetServer, Call, post_send, post_release, cancel_io, close_socket, wsa_send, wsa_recv,
  wsa_recv_first, bind_port, client_join, client_leave, client_recv, unref, DisconnectStep, normal,
  send_packet_last, send_post_last, disconnected, is_disconnected, max_packet, session_at,
  put_session, call, calls_of, unrefs,
}
use new_name_auction.Net.Sending.{
  send_post, send_done, send_failed, batch, cancel_disconnected, last_sent, last_post,
}
use new_name_auction.Net.Sessions.{disconnect_slot}
use new_name_auction.Net.Reuse.{session_at-put}

-- The packets that WSASend has been given for a slot.
abbrev pub batch_of : ℕ → Call → List Packet
batch_of i (post_send j) = []
batch_of i (post_release j) = []
batch_of i (cancel_io j) = []
batch_of i (close_socket s) = []
batch_of i (wsa_send j ps) = if i == j then ps else []
batch_of i (wsa_recv j b) = []
batch_of i (wsa_recv_first j p l) = []
batch_of i (bind_port s j) = []
batch_of i (client_join s f) = []
batch_of i (client_leave s) = []
batch_of i (client_recv s p) = []
batch_of i (unref p) = []

abbrev pub on_wire : ℕ → List Call → List Packet
on_wire i [] = []
on_wire i (c ∷ cs) = batch_of i c ++ on_wire i cs

pub on_wire-append :
    (i : ℕ) (cs ds : List Call) → on_wire i (cs ++ ds) ≡ on_wire i cs ++ on_wire i ds
on_wire-append i [] ds = refl
on_wire-append i (c ∷ cs) ds =
    ap (◌++◌ (batch_of i c)) (on_wire-append i cs ds)
    ∙ sym (append_assoc (batch_of i c) (on_wire i cs) (on_wire i ds))

pub on_wire-unrefs : (i : ℕ) (ps : List Packet) → on_wire i (unrefs ps) ≡ []
unfolding unrefs
on_wire-unrefs i [] = refl
on_wire-unrefs i (p ∷ ps) = on_wire-unrefs i ps

pub on_wire-quiet :
    (i : ℕ) (cs ds : List Call) → on_wire i ds ≡ [] → on_wire i (cs ++ ds) ≡ on_wire i cs
on_wire-quiet i cs ds e =
    on_wire-append i cs ds ∙ (ap (◌++◌ (on_wire i cs)) e ∙ append-nil (on_wire i cs))

-- A session that is not to be disconnected, with what has been sent, what waits, and whether a WSASend is
-- under way.
pub record Sends (i : ℕ) (n : NetServer) (wire queue : List Packet) (busy : Bool) : Type 0 where
  pub session : Session
  pub at : session_at i n ≡ ok session
  pub flag : session.sending ≡ busy
  pub fine : session.step ≡ normal
  pub waiting : session.send_queue ≡ queue
  pub sent_before : on_wire i n.calls ≡ wire

module _ (i : ℕ) (n : NetServer) (s : Session) (at : session_at i n ≡ ok s) where
  -- What sendPost leaves where it sends.
  abbrev pub posted : NetServer
  posted = call (wsa_send i (batch s).sent) (put_session i (batch s) n)

  pub posted-at : session_at i posted ≡ ok (batch s)
  posted-at = session_at-put i s (batch s) n at

  pub posted-on_wire : on_wire i posted.calls ≡ on_wire i n.calls ++ (batch s).sent
  posted-on_wire =
      let same : (i == i) ≡ true = ground arith in
      on_wire-append i n.calls (wsa_send i (batch s).sent ∷ [])
      ∙ ap (◌++◌ (on_wire i n.calls)) (rw same (append-nil (batch s).sent))

  pub send_post-posted :
      s.sending ≡ false
      → is_disconnected s.step ≡ false
      → (length s.send_queue == 0) ≡ false
      → is_disconnected (batch s).step ≡ false
      → send_post false i n ≡ ok posted
  unfolding send_post cancel_disconnected batch
  send_post-posted idle fine some_queue fine' =
      rw (at, idle, fine, some_queue, posted-at, fine') refl

last_sent-normal : (i : ℕ) (n : NetServer) → last_sent normal i n ≡ ok n
unfolding last_sent
last_sent-normal i n = refl

pub send_done-run :
    (i : ℕ) (n n1 : NetServer) (s s1 : Session)
    → session_at i n ≡ ok s
    → last_sent s.step i n ≡ ok n1
    → session_at i n1 ≡ ok s1
    → send_done false i n ≡ (
        let n' =
          calls_of (unrefs s1.sent) (put_session i (record s1 { sent = []; sending = false }) n1) in
        if length s1.send_queue == 0 then ok n' else send_post false i n')
unfolding send_done
send_done-run i n n1 s s1 at moves at1 = rw (at, moves, at1) refl

pub nil_of_length : (ps : List Packet) → length ps ≡ 0 → ps ≡ []
nil_of_length [] e = refl
nil_of_length (p ∷ ps) e = absurd (omega (arith, e))

module _ (i : ℕ) (wire queue : List Packet) (n : NetServer) where
  -- sendPost sends the first packets that wait, up to 950.
  pub send_post_stream :
      Sends i n wire queue false
      → (length queue == 0) ≡ false
      → (n' : NetServer) × (send_post false i n ≡ ok n')
        × Sends i n' (wire ++ take max_packet queue) (drop max_packet queue) true
  unfolding batch
  send_post_stream h some_queue =
      let s = h.session in
      let first : (batch s).sent ≡ take max_packet queue = ap (take max_packet) h.waiting in
      let left : (length s.send_queue == 0) ≡ false =
        ap (λ q. length q == 0) h.waiting ∙ some_queue in
      let open_step : is_disconnected s.step ≡ false = ap is_disconnected h.fine in
      let open_after : is_disconnected (batch s).step ≡ false =
        ap (λ d. is_disconnected (last_post d)) h.fine in
      (
        posted i n s h.at,
        send_post-posted i n s h.at h.flag open_step left open_after,
        record {
          session = batch s;
          at = posted-at i n s h.at;
          flag = refl;
          fine = ap last_post h.fine;
          waiting = ap (drop max_packet) h.waiting;
          sent_before = posted-on_wire i n s h.at ∙ ap₂ ◌++◌ h.sent_before first;
        },
      )

module _ (i : ℕ) (wire queue : List Packet) (n : NetServer) where
  -- The session after a completion, before the next sendPost.
  module _ (h : Sends i n wire queue true) where
    abbrev cleared : NetServer
    cleared =
        calls_of (unrefs h.session.sent)
          (put_session i (record h.session { sent = []; sending = false }) n)

    cleared-Sends : Sends i cleared wire queue false
    cleared-Sends = record {
      session = record h.session { sent = []; sending = false };
      at = session_at-put i h.session _ n h.at;
      flag = refl;
      fine = h.fine;
      waiting = h.waiting;
      sent_before =
          on_wire-quiet i n.calls (unrefs h.session.sent) (on_wire-unrefs i h.session.sent)
          ∙ h.sent_before;
    }

    send_done-cleared :
        send_done false i n ≡ (if length queue == 0 then ok cleared else send_post false i cleared)
    send_done-cleared =
        send_done-run i n n h.session h.session h.at
          (ap (λ d. last_sent d i n) h.fine ∙ last_sent-normal i n) h.at
        ∙ ap (λ q. if length q == 0 then ok cleared else send_post false i cleared) h.waiting

  -- After a completion the next packets that wait are sent, if there are any.
  pub send_done_stream :
      Sends i n wire queue true
      → (n' : NetServer) × (send_done false i n ≡ ok n')
        × Sends i n'
            (wire ++ take max_packet queue)
            (drop max_packet queue)
            (not (length queue == 0))
  send_done_stream h = elim (Bool-cases (length queue == 0)) [
    | inl no_queue ↦
        let empty : queue ≡ [] = nil_of_length queue (ground (arith, no_queue)) in
        (
          cleared h,
          send_done-cleared h ∙ rw no_queue refl,
          subst
              (λ q.
                Sends i (cleared h) (wire ++ take max_packet q) (drop max_packet q)
                  (not (length q == 0)))
              (sym empty)
              (subst (λ w. Sends i (cleared h) w [] false) (sym (append-nil wire))
                (subst (λ q. Sends i (cleared h) wire q false) empty (cleared-Sends h))),
        )
    | inr some_queue ↦
        let (n', sent, after) =
          send_post_stream i wire queue (cleared h) (cleared-Sends h) some_queue in
        (n', send_done-cleared h ∙ (rw some_queue refl ∙ sent), rw some_queue after)
  ]
