-- ===== src/Auction/QueueKept.antt =====
-- The jobs of LogicThread (AuctionServer.cpp) and the queue they are taken from.
use new_name_auction.Prelude.{
  ℕ, Bool, true, false, not, ◌≡◌, refl, ◌∙◌, List, arith, Outcome, ok, need, Ensures, Ensures-bind,
  Ensures-eq, Ensures-if, Ensures-of, Ensures-option, ◌==◌, find, insert, nat_eq, leb,
}
use new_name_auction.Packet.{Packet}
use new_name_auction.Auction.Text.{wcscpy_s, c_string, store_text, null_name}
use new_name_auction.Auction.State.{
  Server, Player, JobItem, JobType, InitData, on_client_join, on_client_leave, on_recv,
  nickname_change_able, nickname_register_able, max_user_slot, max_server_slot, call_net,
  enqueue_db, pool_block,
}
use new_name_auction.Auction.Message.{
  send_res_sale, type_req_sale, type_req_search, type_req_bid, type_req_change_nickname,
  type_res_player_info,
}
use new_name_auction.Auction.OwnList.{empty_entry, own_entry, release_slots}
use new_name_auction.Auction.Handlers.{proc_req_bid}
use new_name_auction.Auction.InitPackets.{packet_proc}
use new_name_auction.Auction.Register.{list_auction, put_up, register_able}
use new_name_auction.Auction.Logic.{
  Env, client_join, client_leave, client_recv, seen_player, see_player, read_type, settle,
  change_able, run_job, take_job, process_job,
}
use new_name_auction.Auction.Growth.Handlers.{Same, sale-Same, search-Same, change-Same, bid_queue}
use new_name_auction.Auction.Growth.Jobs.{info-Same}

-- The queue of the second server is that of the first.
record IsQueueKept (s s' : Server) : Type 0 where
  kept : s'.job_queue ≡ s.job_queue

packet_proc-IsQueueKept :
    (stack : List ℕ) (sid : ℕ) (player : Player) (type : ℕ) (p : Packet) (s : Server)
    → Ensures (λ r. IsQueueKept s r.1) (packet_proc stack sid player type p s)
unfolding packet_proc
packet_proc-IsQueueKept stack sid player type p s =
    Ensures-if P (type == type_req_sale) _ _ (λ _. weaken _ (sale-Same sid player p s))
      λ _.
        Ensures-if P (type == type_req_search) _ _ (λ _. weaken _ (search-Same sid player p s))
          λ _.
            Ensures-if P (type == type_req_bid) _ _ (λ _. of_bid)
              λ _.
                Ensures-if P (type == type_req_change_nickname) _ _
                  (λ _. weaken _ (change-Same sid player p s))
                  λ _.
                    Ensures-if P (type == type_res_player_info) _ _
                      (λ _. weaken _ (info-Same stack p s)) (λ _. record { kept = refl })
  where
    P : Bool × Server → Type 0
    P r = IsQueueKept s r.1

    weaken : (m : Outcome (Bool × Server)) → Ensures (λ r. Same s r.1) m → Ensures P m
    weaken m h = Ensures-of P m λ r e. record { kept = (Ensures-eq (λ t. Same s t.1) m r h e).1 }

    of_bid : Ensures P (proc_req_bid sid player p s)
    of_bid = Ensures-of P _ λ r e. record {
      kept = Ensures-eq (λ r. r.1.job_queue ≡ s.job_queue) _ r (bid_queue sid player p s) e;
    }

settle-IsQueueKept : (sid : ℕ) (r : Bool × Server) → IsQueueKept r.1 (settle sid r)
unfolding settle call_net
settle-IsQueueKept sid (true, s) = record { kept = refl }
settle-IsQueueKept sid (false, s) = record { kept = refl }

recv-IsQueueKept :
    (env : Env) (sid : ℕ) (p : Packet) (s : Server)
    → Ensures (IsQueueKept s) (client_recv env sid p s)
unfolding client_recv read_type
recv-IsQueueKept env sid p s =
    Ensures-option P (find s.player_list sid) _ _ (λ _. same)
      λ player _.
        Ensures-if P (not (player.session_id == sid)) _ _ (λ _. same)
          λ _.
            Ensures-if P (not player.is_valid) _ _ (λ _. same)
              λ _. Ensures-bind P (need (read_type p s).1.packet_type) _ λ type _.
                let (q, s1) = read_type p s in
                let s2 = see_player env sid player s1 in
                Ensures-bind P (packet_proc env.stack sid (seen_player env player) type q s2) _
                  λ r e.
                    let before =
                      Ensures-eq (λ r. IsQueueKept s2 r.1) _ r
                        (packet_proc-IsQueueKept env.stack sid (seen_player env player) type q s2)
                        e in
                    record { kept = (settle-IsQueueKept player.session_id r).kept ∙ before.kept }
  where
    P : Server → Type 0
    P = IsQueueKept s

    same : IsQueueKept s (read_type p s).1
    same = record { kept = refl }

put_up-IsQueueKept :
    (now sid account : ℕ) (d : InitData) (player : Player) (s : Server)
    → Ensures (IsQueueKept s) (put_up now sid account d player s)
unfolding put_up list_auction send_res_sale call_net enqueue_db
put_up-IsQueueKept now sid account d player s =
    Ensures-bind (IsQueueKept s) (wcscpy_s s.fresh.auction.nick_name player.nick_name) _
      λ nick_name _. Ensures-bind (IsQueueKept s) (need (c_string nick_name)) _ λ name _.
        Ensures-bind (IsQueueKept s)
          (wcscpy_s (pool_block s.db_job_pool s.fresh.db_job).my_nick_name nick_name) _
          λ my_nick_name _. record { kept = refl }

register_able-IsQueueKept :
    (now sid account : ℕ) (s : Server) → Ensures (IsQueueKept s) (register_able now sid account s)
unfolding register_able send_res_sale call_net
register_able-IsQueueKept now sid account s =
    Ensures-if P
      (leb max_user_slot (own_entry account (insert account empty_entry s.own_list)).count) _ _
      (λ _. record { kept = refl })
      λ _.
        Ensures-if P (leb max_server_slot s.num_of_sales) _ _ (λ _. record { kept = refl })
          λ _.
            Ensures-option P (find s.waiting account) _ _ (λ _. record { kept = refl })
              λ d _.
                Ensures-option P (find s.player_list account) _ _ (λ _. record { kept = refl })
                  λ player _. Ensures-of P _ λ s' e. record {
                    kept =
                        (Ensures-eq (IsQueueKept _) _ s'
                          (put_up-IsQueueKept now sid account d player _) e).kept;
                  }
  where
    P : Server → Type 0
    P = IsQueueKept s

change_able-IsQueueKept :
    (account : ℕ) (s : Server) → Ensures (IsQueueKept s) (change_able account s)
unfolding change_able
change_able-IsQueueKept account s =
    Ensures-bind (IsQueueKept s) (need (find s.own_list account)) _ λ entry _.
      Ensures-bind (IsQueueKept s) (release_slots entry.count 0 entry) _
        λ entry' _. record { kept = refl }

run_job-IsQueueKept :
    (env : Env) (j : JobItem) (t : JobType) (s : Server)
    → Ensures (IsQueueKept s) (run_job env j t s)
unfolding run_job client_join client_leave
run_job-IsQueueKept env j on_client_join s =
    Ensures-bind (IsQueueKept s)
      (store_text null_name (pool_block s.player_pool s.fresh.player).nick_name) _
      λ nick_name _. record { kept = refl }
run_job-IsQueueKept env j on_client_leave s = record { kept = ground arith }
run_job-IsQueueKept env j on_recv s =
    Ensures-bind (IsQueueKept s) (need j.packet) _ λ p _. recv-IsQueueKept env j.session_id p s
run_job-IsQueueKept env j nickname_change_able s = change_able-IsQueueKept j.account_no s
run_job-IsQueueKept env j nickname_register_able s =
    register_able-IsQueueKept env.now j.session_id j.account_no s
run_job-IsQueueKept env j _ s = record { kept = refl }

pub process_job_queue :
    (env : Env) (j : JobItem) (s s' : Server)
    → process_job env j s ≡ ok s'
    → s'.job_queue ≡ s.job_queue
unfolding process_job take_job
process_job_queue env j s s' e =
    (Ensures-eq (IsQueueKept (take_job j s)) _ s'
      (run_job-IsQueueKept env j j.job_type (take_job j s)) e).kept
