-- ===== src/Net/Stream/Drain.antt =====
-- The completions of the WSASends of a session (CNetServer.cpp), one after the other.
use new_name_auction.Prelude.{
  ℕ, zero, suc, ◌*◌, ◌≤◌, ◌≡◌, refl, sym, ap, subst, ◌∙◌, inl, inr, true, false, not, List, [],
  ◌++◌, Outcome, ok, ◌>>=◌, arith, ◌==◌, if◌then◌else◌, Bool-cases, length, take, drop,
  append_assoc, take-drop_self, length-drop,
}
use new_name_auction.Packet.{Packet}
use new_name_auction.Net.State.{NetServer, max_packet, session_at}
use new_name_auction.Net.Sending.{send_done}
use new_name_auction.Net.Sessions.{}
use new_name_auction.Net.Reuse.{}
use new_name_auction.Net.Stream.{Sends, send_done_stream, nil_of_length}

-- The completions of one WSASend after the other, until none is under way.
unfoldable pub send_all : ℕ → ℕ → NetServer → Outcome NetServer
send_all zero i n = ok n
send_all (suc k) i n = session_at i n >>= λ s.
    let next = send_done false i n >>= λ n'. send_all k i n' in if s.sending then next else ok n

send_all-idle :
    (k i : ℕ) (n : NetServer) (wire queue : List Packet)
    → Sends i n wire queue false
    → send_all k i n ≡ ok n
unfolding send_all
send_all-idle zero i n wire queue h = refl
send_all-idle (suc k) i n wire queue h = rw (h.at, h.flag) refl

send_all-busy :
    (k i : ℕ) (n n' : NetServer) (wire queue : List Packet)
    → Sends i n wire queue true
    → send_done false i n ≡ ok n'
    → send_all (suc k) i n ≡ send_all k i n'
unfolding send_all
send_all-busy k i n n' wire queue h e = rw (h.at, h.flag, e) refl

-- Nothing waits behind the WSASend.
send_all-last :
    (k i : ℕ) (n : NetServer) (wire queue : List Packet)
    → Sends i n wire queue true
    → length queue ≡ 0
    → (n' : NetServer) × (send_all (suc k) i n ≡ ok n') × Sends i n' (wire ++ queue) [] false
send_all-last k i n wire queue h no_queue =
    let (n', done, after) = send_done_stream i wire queue n h in
    let empty : queue ≡ [] = nil_of_length queue no_queue in
    let after' : Sends i n' (wire ++ []) [] false =
      subst (λ q. Sends i n' (wire ++ take max_packet q) (drop max_packet q) (not (length q == 0)))
        empty after in
    (
      n',
      send_all-busy k i n n' wire queue h done ∙ send_all-idle k i n' _ _ after',
      subst (λ q. Sends i n' (wire ++ q) [] false) (sym empty) after',
    )

-- A WSASend is under way for a session that is not to be disconnected: after as many completions as the
-- packets that wait fill batches of 950, and one, all of them have been sent, in their order, and the
-- session is idle.
pub send_all_lem :
    (k i : ℕ) (n : NetServer) (wire queue : List Packet)
    → Sends i n wire queue true
    → length queue ≤ max_packet * k
    → (n' : NetServer) × (send_all (suc k) i n ≡ ok n') × Sends i n' (wire ++ queue) [] false
send_all_lem zero i n wire queue h bound =
    send_all-last zero i n wire queue h (omega (arith, bound))
send_all_lem (suc k) i n wire queue h bound = elim (Bool-cases (length queue == 0)) [
  | inl no_queue ↦ send_all-last (suc k) i n wire queue h (ground (arith, no_queue))
  | inr some_queue ↦
      let (n1, done, after) = send_done_stream i wire queue n h in
      let after' : Sends i n1 (wire ++ take max_packet queue) (drop max_packet queue) true =
        subst (λ b. Sends i n1 (wire ++ take max_packet queue) (drop max_packet queue) (not b))
          some_queue after in
      let (n', all, final) =
        send_all_lem k i n1 (wire ++ take max_packet queue) (drop max_packet queue) after'
          (omega (arith, length-drop max_packet queue, bound)) in
      (
        n',
        send_all-busy (suc k) i n n1 wire queue h done ∙ all,
        subst (λ w. Sends i n' w [] false)
            (append_assoc wire (take max_packet queue) (drop max_packet queue)
              ∙ ap (◌++◌ wire) (take-drop_self max_packet queue))
            final,
      )
]
