-- ===== src/Net/Slots/Reach.antt =====
-- The states that the threads of CNetServer.cpp and its callers reach after Start.
use new_name_auction.Prelude.{
  ℕ, zero, suc, ◌+◌, ◌≤◌, ◌≡◌, refl, ap, ◌∙◌, inl, inr, Bool, List, [], ◌∷◌, Option, ok, arith, leb,
  ltb, ◌&&◌, if◌then◌else◌, Bool-cases, Ensures, Ensures-then, Ensures-eq,
}
use new_name_auction.Packet.{Packet}
use new_name_auction.Net.State.{Session, NetServer}
use new_name_auction.Net.Sessions.{disconnect_session, start_server, start_sessions, push_slots}
use new_name_auction.Net.Accept.{accept}
use new_name_auction.Net.Sending.{send_packet, send_packets}
use new_name_auction.Net.Worker.{
  Completion, work, control_round, count_sessions, Counts, add_session, reset_counts,
}
use new_name_auction.Net.Slots.{in_pool, in_use, IsPartition, Kept, Kept-refl, Kept-IsPartition}
use new_name_auction.Net.Slots.Steps.{disconnect_session-Kept, send_packet-Kept, send_packets-Kept}
use new_name_auction.Net.Slots.Partition.{accept-IsPartition, work-IsPartition}

-- A step: AcceptThread has a connection, a WorkerThread a completion, ControlThread its turn, or the
-- handler's code sends or disconnects.
pub data NetStep (n n' : NetServer) : Type 0 where
  accepts :
      (sock ip : ℕ) (request : Option ℕ) (failed : Bool)
      → accept sock ip request failed n ≡ ok n'
      → NetStep n n'
  works : (c : Completion) (i : ℕ) → work c i n ≡ ok n' → NetStep n n'
  counts : control_round n ≡ ok n' → NetStep n n'
  sends :
      (sid : ℕ) (p p' : Packet) (last posted : Bool)
      → send_packet sid p last posted n ≡ ok (p', n')
      → NetStep n n'
  sends_all :
      (sids : List ℕ) (p p' : Packet) (last : Bool)
      → send_packets sids p last n ≡ ok (p', n')
      → NetStep n n'
  disconnects : (sid : ℕ) → disconnect_session sid n ≡ ok n' → NetStep n n'

pub data NetReach (n0 : NetServer) : NetServer → Type 0 where
  started : NetReach n0 (start_server n0)
  then_step : (n n' : NetServer) → NetReach n0 n → NetStep n n' → NetReach n0 n'

count_sessions_uses :
    (k : ℕ) (ss : List Session) (c : Counts)
    → Ensures (λ r. (i : ℕ) → in_use i r.1 ≡ in_use i ss) (count_sessions k ss c)
unfolding count_sessions
count_sessions_uses zero ss c = λ i. refl
count_sessions_uses (suc k) [] c = tt
count_sessions_uses (suc k) (s ∷ ss) c =
    let Uses : Counts × List Session → Type 0 = λ r. (i : ℕ) → in_use i r.1 ≡ in_use i ss in
    let All : Counts × List Session → Type 0 = λ r. (i : ℕ) → in_use i r.1 ≡ in_use i (s ∷ ss) in
    Ensures-then Uses All (count_sessions k ss (add_session s c)) _
      (count_sessions_uses k ss (add_session s c)) λ r h. below r.1 h
  where
    below :
        (ss' : List Session)
        → ((i : ℕ) → in_use i ss' ≡ in_use i ss)
        → (i : ℕ) → in_use i (reset_counts s ∷ ss') ≡ in_use i (s ∷ ss)
    below ss' h zero = refl
    below ss' h (suc i) = h i

control_round-Kept : (n : NetServer) → Ensures (Kept n) (control_round n)
unfolding control_round
control_round-Kept n =
    Ensures-then (λ r. (i : ℕ) → in_use i r.1 ≡ in_use i n.sessions) (Kept n) _ _
      (count_sessions_uses n.max_session n.sessions
        (record { valid_num = 0; disconnects = 0; sends = 0; recvs = 0 }))
      λ r h. record { pool = refl; limit = refl; valids = h }

NetStep-IsPartition : (n n' : NetServer) → IsPartition n → NetStep n n' → IsPartition n'
NetStep-IsPartition n n' p (accepts sock ip request failed e) =
    Ensures-eq IsPartition _ n' (accept-IsPartition sock ip request failed n p) e
NetStep-IsPartition n n' p (works c i e) = Ensures-eq IsPartition _ n' (work-IsPartition c i n p) e
NetStep-IsPartition n n' p (counts e) =
    Kept-IsPartition n n' (Ensures-eq (Kept n) _ n' (control_round-Kept n) e) p
NetStep-IsPartition n n' p (sends sid q q' last posted e) =
    Kept-IsPartition n n'
      (Ensures-eq (λ r. Kept n r.1) _ (q', n')
        (send_packet-Kept n sid q last posted n (Kept-refl n)) e)
      p
NetStep-IsPartition n n' p (sends_all sids q q' last e) =
    Kept-IsPartition n n'
      (Ensures-eq (λ r. Kept n r.1) _ (q', n') (send_packets-Kept n sids q last n (Kept-refl n)) e)
      p
NetStep-IsPartition n n' p (disconnects sid e) =
    Kept-IsPartition n n'
      (Ensures-eq (Kept n) _ n' (disconnect_session-Kept n sid n (Kept-refl n)) e) p

in_pool-push_slots :
    (k j i : ℕ) (stack : List ℕ)
    → in_pool i (push_slots k j stack)
      ≡ (if leb j i && ltb i (j + k) then 1 else 0) + in_pool i stack
unfolding push_slots
in_pool-push_slots zero j i stack = ground arith
in_pool-push_slots (suc k) j i stack = in_pool-push_slots k (j + 1) i (j ∷ stack) ∙ ground arith

in_use-start_sessions :
    (k i : ℕ) (ss : List Session)
    → in_use i (start_sessions k ss) ≡ (if ltb i k then 0 else in_use i ss)
unfolding start_sessions
in_use-start_sessions zero i ss = ground arith
in_use-start_sessions (suc k) i [] = ground arith
in_use-start_sessions (suc k) zero (s ∷ ss) = ground arith
in_use-start_sessions (suc k) (suc i) (s ∷ ss) = in_use-start_sessions k i ss ∙ ground arith

start_server-IsPartition :
    (n : NetServer)
    → n.empty_index ≡ []
    → ((i : ℕ) → n.max_session ≤ i → in_use i n.sessions ≡ 0)
    → IsPartition (start_server n)
unfolding start_server
start_server-IsPartition n empty above i =
    let pool : in_pool i (push_slots n.max_session 0 n.empty_index)
        ≡ (if leb 0 i && ltb i (0 + n.max_session) then 1 else 0) + in_pool i n.empty_index =
      in_pool-push_slots n.max_session 0 i n.empty_index in
    let none_in : in_pool i n.empty_index ≡ 0 = ap (in_pool i) empty in
    let uses = in_use-start_sessions n.max_session i n.sessions in
    elim (Bool-cases (ltb i n.max_session)) [
      | inl low ↦ ground (arith, pool, none_in, uses, low)
      | inr high ↦ ground (arith, pool, none_in, uses, high, above i (ground (arith, high)))
    ]

-- In every state that is reached from Start, with an empty stack and no valid session above the limit
-- before it, each slot below the limit is in the stack once or has a valid session, and not both, and
-- no slot above the limit is either.
pub NetReach-IsPartition :
    (n0 n : NetServer)
    → n0.empty_index ≡ []
    → ((i : ℕ) → n0.max_session ≤ i → in_use i n0.sessions ≡ 0)
    → NetReach n0 n
    → IsPartition n
NetReach-IsPartition n0 n empty above started = start_server-IsPartition n0 empty above
NetReach-IsPartition n0 _ empty above (then_step n n' r step) =
    NetStep-IsPartition n n' (NetReach-IsPartition n0 n empty above r) step
