-- ===== src/Auction/Growth/Cycle.antt =====
-- Growth of the auctions through the periodic update and whole cycles of the logic thread.
use new_name_auction.Prelude.{
  ℕ, zero, suc, ◌≡◌, refl, List, arith, get_elem?, set, ok, Ensures, Ensures-bind, Ensures-eq,
  Ensures-list, some,
}
use new_name_auction.Auction.State.{Server, Auction, call_net, enqueue_db, pool_block}
use new_name_auction.Auction.Message.{send_res_expire}
use new_name_auction.Auction.Text.{Text, wcscpy_s}
use new_name_auction.Auction.Update.{make_imminent, finish, expire, update_server}
use new_name_auction.Auction.Update.Rule.{IsKept, update_server-kept}
use new_name_auction.Auction.Logic.{Env, process_job, drain_jobs, logic_cycle}
use new_name_auction.Auction.Growth.{Advances, Grows, Grows-refl, Grows-trans, Grows-set}
use new_name_auction.Auction.Growth.Jobs.{process_job-Grows}

abbrev From : Server → Server → Type 0
From s0 s = Grows s0.auctions s.auctions

expire_grows :
    (s0 : Server) (sids : List ℕ) (name : Text) (i : ℕ) (a : Auction) (s : Server)
    → From s0 s
    → get_elem? s.auctions i ≡ some a
    → Ensures (From s0) (expire sids name i a s)
unfolding expire send_res_expire call_net enqueue_db
expire_grows s0 sids name i a s g e =
    Ensures-bind (From s0)
      (wcscpy_s (pool_block s.db_job_pool s.fresh.db_job).my_nick_name a.nick_name) _
      λ nick_name _.
        Grows-trans s0.auctions s.auctions (set s.auctions i (finish a)) g
          (Grows-set s.auctions i a (finish a) e (ground arith))

From-kept : (s0 : Server) → IsKept (From s0)
From-kept s0 = record {
  to_imminent = λ s name i extra a g e.
      Grows-trans s0.auctions s.auctions (set s.auctions i (make_imminent extra a)) g
        (Grows-set s.auctions i a (make_imminent extra a) e (ground arith));
  cells = λ s d g. g;
  imminents = λ s d g. g;
  order = λ s l g. g;
  timer = λ s now g. g;
  expiry = λ sids name i a s s' g e run.
      Ensures-eq (From s0) _ s' (expire_grows s0 sids name i a s g e) run;
}

drain_grows :
    (s0 : Server) (env : Env) (fuel : ℕ) (s : Server)
    → From s0 s
    → Ensures (From s0) (drain_jobs env fuel s)
unfolding drain_jobs
drain_grows s0 env zero s g = g
drain_grows s0 env (suc fuel) s g =
    Ensures-list (From s0) s.job_queue _ _ (λ _. g)
      λ j rest _.
        Ensures-bind (From s0) (process_job env j (record s { job_queue = rest })) _ λ s1 e.
          drain_grows s0 env fuel s1
            (Grows-trans s0.auctions s.auctions s1.auctions g (process_job-Grows env j _ s1 e))

cycle_grows :
    (env : Env) (fuel : ℕ) (draws : List ℕ) (s : Server)
    → Ensures (From s) (logic_cycle env fuel draws s)
unfolding logic_cycle
cycle_grows env fuel draws s = Ensures-bind (From s) (drain_jobs env fuel s) _ λ s1 e1.
    Ensures-bind (From s) (update_server env.now draws s1) _ λ s2 e2.
      Grows-trans s.auctions s1.auctions s2.auctions
        (Ensures-eq (From s) _ s1 (drain_grows s env fuel s (Grows-refl s.auctions s.auctions refl))
          e1)
        (Ensures-eq (From s1) _ s2
          (update_server-kept (From s1) (From-kept s1) env.now draws s1
            (Grows-refl s1.auctions s1.auctions refl))
          e2)

-- A whole cycle of the logic thread, whatever jobs its queue holds: an auction that was there is
-- there still, with its owner, its nickname and its start, and its price has not fallen.
pub logic_cycle_grows :
    (env : Env) (fuel : ℕ) (draws : List ℕ) (s s' : Server)
    → logic_cycle env fuel draws s ≡ ok s'
    → (i : ℕ) (a : Auction) → get_elem? s.auctions i ≡ some a
    → (b : Auction) × (get_elem? s'.auctions i ≡ some b) × Advances a b
logic_cycle_grows env fuel draws s s' e = Ensures-eq (From s) _ s' (cycle_grows env fuel draws s) e
