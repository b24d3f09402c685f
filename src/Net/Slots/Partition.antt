-- ===== src/Net/Slots/Partition.antt =====
-- Who has each slot of CNetServer.cpp over every step of its threads.
use new_name_auction.Prelude.{
  ℕ, zero, suc, ◌+◌, ◌≡◌, refl, sym, ap, ◌∙◌, inl, inr, Bool, true, false, not, List, [], ◌∷◌, ◌++◌,
  Option, some, Outcome, ok, ◌>>=◌, arith, leb, ltb, ◌==◌, if◌then◌else◌, Bool-cases, get_elem?,
  set, need, add64, get_elem?-set_self, lt-length_of_get_elem?, Ensures, Ensures-bind, Ensures-then,
  Ensures-if, Ensures-option, Ensures-list,
}
use new_name_auction.Packet.{}
use new_name_auction.Net.State.{
  Session, NetServer, max_session_slots, slot_of, session_at, put_session, make_session_id,
  bind_port, client_join, unrefs, io_up, io_down,
}
use new_name_auction.Net.Sessions.{release_flag, clean_up, release_session}
use new_name_auction.Net.Accept.{accept, open_session, fresh_session, first_recv, count_accept}
use new_name_auction.Net.Sending.{send_post, send_done}
use new_name_auction.Net.Worker.{
  Completion, broken, send_request, release_request, received, sent_all, give_back_use, work,
  recv_done,
}
use new_name_auction.Net.Slots.{
  in_pool, in_use, validity, IsPartition, Kept, Kept-refl, Kept-IsPartition, Kept-put, Kept-calls,
  in_use-set, some_of_session_at,
}
use new_name_auction.Net.Slots.Steps.{send_post-Kept, send_done-Kept, recv_done-Kept}

-- The clean-up gives the slot back.
clean_up-IsPartition :
    (sid i : ℕ) (s : Session) (n : NetServer)
    → IsPartition n
    → get_elem? n.sessions i ≡ some s
    → s.valid ≡ true
    → IsPartition (clean_up sid i s n)
unfolding clean_up
clean_up-IsPartition sid i s n p e v j =
    let was : in_use i n.sessions ≡ 1 = ap validity e ∙ rw v refl in
    let is : in_use j (clean_up sid i s n).sessions ≡ (if j == i then 0 else in_use j n.sessions) =
      in_use-set i j n.sessions s _ e in
    elim (Bool-cases (j == i)) [
      | inl same ↦ let at : j ≡ i = ground arith in rw at (ground (arith, p i, was, is, at))
      | inr other ↦ ground (arith, p j, is, other)
    ]

release_session-IsPartition :
    (fuel sid : ℕ) (n : NetServer)
    → IsPartition n
    → Ensures IsPartition (release_session fuel sid n)
unfolding release_session
release_session-IsPartition zero sid n p = tt
release_session-IsPartition (suc fuel) sid n p =
    Ensures-if IsPartition (leb max_session_slots (slot_of sid)) _ _ (λ _. p)
      λ _. Ensures-bind IsPartition (session_at (slot_of sid) n) _ λ s e.
        (let back = io_down (io_up (record s { released = false })) in
          let n1 = put_session (slot_of sid) back n in
          let p1 =
            Kept-IsPartition n n1 (Kept-put n n (slot_of sid) s back (Kept-refl n) e refl) p in
          Ensures-if IsPartition (not s.valid) _ _ (λ _. p)
            λ v.
              Ensures-if IsPartition (not (release_flag s == s.io_count)) _ _ (λ _. p)
                λ _.
                  Ensures-if IsPartition (sid == s.session_id) _ _
                    (λ _.
                      clean_up-IsPartition sid (slot_of sid) s n p
                        (some_of_session_at (slot_of sid) n s e) (ground (arith, v)))
                    λ _.
                      Ensures-if IsPartition (back.io_count == 0) _ _
                        (λ _. release_session-IsPartition fuel s.session_id n1 p1) (λ _. p1))

first_recv-Kept :
    (n0 n : NetServer) (failed : Bool) (i : ℕ) (s : Session)
    → Kept n0 n
    → session_at i n ≡ ok s
    → Kept n0 (first_recv failed i s n)
unfolding first_recv
first_recv-Kept n0 n true i s k e = Kept-put n0 _ i s (io_down s) (Kept-calls n0 n _ k) e refl
first_recv-Kept n0 n false i s k e = Kept-calls n0 n _ k

-- A slot that is taken from the stack is then that of a valid session.
taken-IsPartition :
    (i : ℕ) (rest : List ℕ) (s s' : Session) (n n' : NetServer)
    → IsPartition n
    → n.empty_index ≡ i ∷ rest
    → get_elem? n.sessions i ≡ some s
    → s'.valid ≡ true
    → n'.empty_index ≡ rest
    → n'.sessions ≡ set n.sessions i s'
    → n'.max_session ≡ n.max_session
    → IsPartition n'
taken-IsPartition i rest s s' n n' p e at v pool ss limit j =
    let was : in_pool i (i ∷ rest) + in_use i n.sessions ≡ (if ltb i n.max_session then 1 else 0) =
      ap (λ js. in_pool i js + in_use i n.sessions) (sym e) ∙ p i in
    let other : in_pool j (i ∷ rest) + in_use j n.sessions
        ≡ (if ltb j n.max_session then 1 else 0) =
      ap (λ js. in_pool j js + in_use j n.sessions) (sym e) ∙ p j in
    let is : in_use j n'.sessions ≡ (if j == i then 1 else in_use j n.sessions) =
      ap (in_use j) ss ∙ (in_use-set i j n.sessions s s' at ∙ rw v refl) in
    rw (pool, limit)
      (elim (Bool-cases (j == i)) [
        | inl same ↦ let eq : j ≡ i = ground arith in ground (arith, was, is, eq)
        | inr differ ↦ ground (arith, other, is, differ)
      ])

fresh_session_valid : (sid sock ip : ℕ) (s : Session) → (fresh_session sid sock ip s).valid ≡ true
unfolding fresh_session
fresh_session_valid sid sock ip s = refl

open_session-IsPartition :
    (sock ip join_flag : ℕ) (failed : Bool) (i : ℕ) (rest : List ℕ) (n : NetServer)
    → IsPartition n
    → n.empty_index ≡ i ∷ rest
    → Ensures IsPartition
        (open_session sock ip join_flag failed i (record (count_accept n) { empty_index = rest }))
unfolding open_session
open_session-IsPartition sock ip join_flag failed i rest n p e =
    Ensures-bind IsPartition (session_at i (record (count_accept n) { empty_index = rest })) _
      λ s e'.
        (let at : get_elem? n.sessions i ≡ some s = some_of_session_at i n s e' in
          let s' = fresh_session (make_session_id n.alloc_num i) sock ip s in
          let opened : NetServer = record (count_accept n) {
            empty_index = rest;
            sessions = set n.sessions i s';
          } in
          let k : Kept opened _ =
            first_recv-Kept opened
              (record opened {
                alloc_num = add64 n.alloc_num 1;
                calls =
                    n.calls
                    ++ (bind_port sock i ∷ [])
                    ++ unrefs s.send_queue
                    ++ (client_join (make_session_id n.alloc_num i) join_flag ∷ []);
              })
              failed i s' (record { pool = refl; limit = refl; valids = λ j. refl })
              (ap need
                (get_elem?-set_self n.sessions i s' (lt-length_of_get_elem? n.sessions i s at))) in
          Kept-IsPartition opened _ k (
            taken-IsPartition i rest s s' n opened p e at
              (fresh_session_valid (make_session_id n.alloc_num i) sock ip s) refl refl refl))

pub accept-IsPartition :
    (sock ip : ℕ) (request : Option ℕ) (failed : Bool) (n : NetServer)
    → IsPartition n
    → Ensures IsPartition (accept sock ip request failed n)
unfolding accept
accept-IsPartition sock ip request failed n p =
    Ensures-option IsPartition request _ _ (λ _. p)
      λ join_flag _.
        Ensures-list IsPartition n.empty_index _ _ (λ _. p)
          λ i rest e. open_session-IsPartition sock ip join_flag failed i rest n p e

give_back_use-IsPartition :
    (i : ℕ) (n : NetServer) → IsPartition n → Ensures IsPartition (give_back_use i n)
unfolding give_back_use
give_back_use-IsPartition i n p = Ensures-bind IsPartition (session_at i n) _ λ s e.
    (let p1 = Kept-IsPartition n _ (Kept-put n n i s (io_down s) (Kept-refl n) e refl) p in
      Ensures-if IsPartition ((io_down s).io_count == 0) _ _
        (λ _. release_session-IsPartition 2 s.session_id _ p1) (λ _. p1))

-- An operation that keeps the slots, and what gives the use back after it.
then_give_back :
    (m : Outcome NetServer) (i : ℕ) (n : NetServer)
    → IsPartition n
    → Ensures (Kept n) m
    → Ensures IsPartition (m >>= λ n1. give_back_use i n1)
then_give_back m i n p k =
    Ensures-then (Kept n) IsPartition m _ k
      λ n1 k1. give_back_use-IsPartition i n1 (Kept-IsPartition n n1 k1 p)

pub work-IsPartition :
    (c : Completion) (i : ℕ) (n : NetServer) → IsPartition n → Ensures IsPartition (work c i n)
unfolding work
work-IsPartition broken i n p = give_back_use-IsPartition i n p
work-IsPartition (send_request failed) i n p =
    then_give_back (send_post failed i n) i n p (send_post-Kept n failed i n (Kept-refl n))
work-IsPartition release_request i n p =
    Ensures-bind IsPartition (session_at i n) _
      λ s _. release_session-IsPartition 2 s.session_id n p
work-IsPartition (received block stale cells transferred failed) i n p =
    then_give_back (recv_done block stale cells transferred failed i n) i n p
      (recv_done-Kept n block stale cells transferred failed i n (Kept-refl n))
work-IsPartition (sent_all failed) i n p =
    then_give_back (send_done failed i n) i n p (send_done-Kept n failed i n (Kept-refl n))
