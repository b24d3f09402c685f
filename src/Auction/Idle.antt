-- ===== src/Auction/Idle.antt =====
-- A server without an auction, whose logic thread is posted jobs of the network threads only, over
-- the cycles of LogicThread (AuctionServer.cpp).
use new_name_auction.Prelude.{
  ℕ, zero, suc, Bool, true, false, not, ◌≡◌, refl, sym, subst, ◌∙◌, List, [], ◌∷◌, some, arith,
  get_elem?, Outcome, ok, need, Ensures, Ensures-bind, Ensures-eq, Ensures-if, Ensures-option,
  Ensures-list, Ensures-of, All, ◌==◌, find, nat_eq,
}
use new_name_auction.Packet.{Packet}
use new_name_auction.Auction.State.{
  Server, Player, Auction, JobItem, JobType, on_client_join, on_recv, on_client_leave,
  nickname_change_check, nickname_change_able, nickname_register, nickname_register_check,
  nickname_register_able, nickname_sold, call_net, pool_block,
}
use new_name_auction.Auction.Text.{null_name, store_text}
use new_name_auction.Auction.Message.{
  type_req_sale, type_req_search, type_req_bid, type_req_change_nickname, type_res_player_info,
}
use new_name_auction.Auction.Handlers.{proc_req_bid}
use new_name_auction.Auction.InitPackets.{packet_proc}
use new_name_auction.Auction.Bid.{Outcomes, refused, ignored, placed, bid-Outcomes}
use new_name_auction.Auction.Update.{update_server}
use new_name_auction.Auction.Update.Rule.{IsKept, update_server-kept}
use new_name_auction.Auction.Logic.{
  Env, client_join, client_leave, client_recv, seen_player, see_player, read_type, settle, run_job,
  take_job, process_job, drain_jobs, logic_cycle,
}
use new_name_auction.Auction.Db.{}
use new_name_auction.Auction.Growth.Handlers.{Same, sale-Same, search-Same, change-Same}
use new_name_auction.Auction.Growth.Jobs.{info-Same}

-- The kinds of job that the network threads post.
abbrev pub IsNetJob : JobType → Type 0
IsNetJob on_client_join = Unit
IsNetJob on_recv = Unit
IsNetJob on_client_leave = Unit
IsNetJob nickname_change_check = ⊥
IsNetJob nickname_change_able = ⊥
IsNetJob nickname_register = ⊥
IsNetJob nickname_register_check = ⊥
IsNetJob nickname_register_able = ⊥
IsNetJob nickname_sold = ⊥

-- No auction, and jobs of the network threads only.
pub record IsIdle (s : Server) : Type 0 where
  pub no_auction : s.auctions ≡ []
  pub net_jobs : All (λ j. IsNetJob j.job_type) s.job_queue

pub Same-IsIdle : (s s' : Server) → IsIdle s → Same s s' → IsIdle s'
Same-IsIdle s s' v (same, queue) = record {
  no_auction = same ∙ v.no_auction;
  net_jobs = subst (All (λ (j : JobItem). IsNetJob j.job_type)) (sym queue) v.net_jobs;
}

no_element : (xs : List Auction) (i : ℕ) (a : Auction) → xs ≡ [] → get_elem? xs i ≡ some a → ⊥
no_element [] i a e h = cc
no_element (x ∷ xs) i a e h = cc

-- Without an auction no bid is placed.
bid-IsIdle :
    (sid : ℕ) (player : Player) (p : Packet) (s : Server)
    → IsIdle s
    → Ensures (λ r. IsIdle r.1) (proc_req_bid sid player p s)
bid-IsIdle sid player p s v =
    Ensures-of (λ r. IsIdle r.1) _
      λ r e. outcome r (Ensures-eq (Outcomes sid player p s) _ r (bid-Outcomes sid player p s) e)
  where
    outcome : (r : Bool × Server) → Outcomes sid player p s r → IsIdle r.1
    outcome r (refused price ep ne er) = Same-IsIdle s r.1 v (ground arith)
    outcome r (ignored er) = Same-IsIdle s r.1 v (ground arith)
    outcome r (placed array name price i a ok' er) =
        absurd (no_element s.auctions i a v.no_auction ok'.held)

packet_proc-IsIdle :
    (stack : List ℕ) (sid : ℕ) (player : Player) (type : ℕ) (p : Packet) (s : Server)
    → IsIdle s
    → Ensures (λ r. IsIdle r.1) (packet_proc stack sid player type p s)
unfolding packet_proc
packet_proc-IsIdle stack sid player type p s v =
    Ensures-if P (type == type_req_sale) _ _ (λ _. weaken _ (sale-Same sid player p s))
      λ _.
        Ensures-if P (type == type_req_search) _ _ (λ _. weaken _ (search-Same sid player p s))
          λ _.
            Ensures-if P (type == type_req_bid) _ _ (λ _. bid-IsIdle sid player p s v)
              λ _.
                Ensures-if P (type == type_req_change_nickname) _ _
                  (λ _. weaken _ (change-Same sid player p s))
                  λ _.
                    Ensures-if P (type == type_res_player_info) _ _
                      (λ _. weaken _ (info-Same stack p s)) (λ _. v)
  where
    P : Bool × Server → Type 0
    P r = IsIdle r.1

    weaken : (m : Outcome (Bool × Server)) → Ensures (λ r. Same s r.1) m → Ensures P m
    weaken m h = Ensures-of P m λ r e. Same-IsIdle s r.1 v (Ensures-eq (λ t. Same s t.1) m r h e)

recv-IsIdle :
    (env : Env) (sid : ℕ) (p : Packet) (s : Server)
    → IsIdle s
    → Ensures IsIdle (client_recv env sid p s)
unfolding client_recv read_type settle call_net
recv-IsIdle env sid p s v =
    Ensures-option IsIdle (find s.player_list sid) _ _ (λ _. plain)
      λ player _.
        Ensures-if IsIdle (not (player.session_id == sid)) _ _ (λ _. plain)
          λ _.
            Ensures-if IsIdle (not player.is_valid) _ _ (λ _. plain)
              λ _. Ensures-bind IsIdle (need (read_type p s).1.packet_type) _ λ type _.
                let (q, s1) = read_type p s in
                Ensures-bind IsIdle
                  (packet_proc env.stack sid (seen_player env player) type q
                    (see_player env sid player s1))
                  _
                  λ r e. finish player.session_id r (
                    Ensures-eq (λ r. IsIdle r.1) _ r
                      (packet_proc-IsIdle env.stack sid (seen_player env player) type q
                        (see_player env sid player s1) (Same-IsIdle s _ v (refl, refl)))
                      e)
  where
    plain : IsIdle (read_type p s).1
    plain = Same-IsIdle s (read_type p s).1 v (refl, refl)

    finish : (sid : ℕ) (r : Bool × Server) → IsIdle r.1 → IsIdle (settle sid r)
    finish sid (true, s') h = h
    finish sid (false, s') h = Same-IsIdle s' _ h (refl, refl)

run_job-IsIdle :
    (env : Env) (j : JobItem) (t : JobType) (s : Server)
    → IsNetJob t
    → IsIdle s
    → Ensures IsIdle (run_job env j t s)
unfolding run_job client_join client_leave
run_job-IsIdle env j on_client_join s n v =
    Ensures-bind IsIdle (store_text null_name (pool_block s.player_pool s.fresh.player).nick_name) _
      λ nick_name _. Same-IsIdle s _ v (refl, refl)
run_job-IsIdle env j on_client_leave s n v = Same-IsIdle s _ v (ground arith)
run_job-IsIdle env j on_recv s n v =
    Ensures-bind IsIdle (need j.packet) _ λ p _. recv-IsIdle env j.session_id p s v
run_job-IsIdle env j _ s n v = absurd n

drain-IsIdle :
    (env : Env) (fuel : ℕ) (s : Server) → IsIdle s → Ensures IsIdle (drain_jobs env fuel s)
unfolding drain_jobs process_job take_job
drain-IsIdle env zero s v = v
drain-IsIdle env (suc fuel) s v =
    Ensures-list IsIdle s.job_queue _ _ (λ _. v)
      λ j rest e.
        let jobs = subst (All (λ (k : JobItem). IsNetJob k.job_type)) e v.net_jobs in
        Ensures-bind IsIdle (process_job env j (record s { job_queue = rest })) _ λ s1 e1.
          drain-IsIdle env fuel s1 (
            Ensures-eq IsIdle _ s1
              (run_job-IsIdle env j j.job_type (take_job j (record s { job_queue = rest })) jobs.0
                (record { no_auction = v.no_auction; net_jobs = jobs.1 }))
              e1)

IsIdle-kept : IsKept IsIdle
IsIdle-kept = record {
  to_imminent = λ s name i extra a v e. absurd (no_element s.auctions i a v.no_auction e);
  cells = λ s d v. Same-IsIdle s _ v (refl, refl);
  imminents = λ s d v. Same-IsIdle s _ v (refl, refl);
  order = λ s l v. Same-IsIdle s _ v (refl, refl);
  timer = λ s now v. Same-IsIdle s _ v (refl, refl);
  expiry = λ sids name i a s s' v e run. absurd (no_element s.auctions i a v.no_auction e);
}

pub cycle-IsIdle :
    (env : Env) (fuel : ℕ) (draws : List ℕ) (s s' : Server)
    → IsIdle s
    → logic_cycle env fuel draws s ≡ ok s'
    → IsIdle s'
unfolding logic_cycle
cycle-IsIdle env fuel draws s s' v e =
    Ensures-eq IsIdle _ s'
      (Ensures-bind IsIdle (drain_jobs env fuel s) _ λ s1 e1.
        Ensures-bind IsIdle (update_server env.now draws s1) _ λ s2 e2.
          Same-IsIdle s2 _
            (Ensures-eq IsIdle _ s2
              (update_server-kept IsIdle IsIdle-kept env.now draws s1
                (Ensures-eq IsIdle _ s1 (drain-IsIdle env fuel s v) e1))
              e2)
            (refl, refl))
      e
