-- ===== src/Auction/Growth/Jobs.antt =====
-- Growth of the auctions through the jobs of the logic thread.
use new_name_auction.Prelude.{
  ℕ, zero, suc, Bool, true, false, not, ◌≡◌, refl, List, [], ◌∷◌, arith, get_elem?, leb, Outcome,
  ok, need, Ensures, Ensures-bind, Ensures-eq, Ensures-of, Ensures-if, Ensures-option, find, nat_eq,
  ◌==◌, insert,
}
use new_name_auction.Packet.{Packet, get_int, get_int64}
use new_name_auction.Auction.State.{
  Server, Player, InitData, call_net, enqueue_db, pool_block, max_user_slot, max_server_slot,
  JobItem, JobType, on_client_join, on_client_leave, on_recv, nickname_change_able,
  nickname_register_able,
}
use new_name_auction.Auction.Message.{
  send_res_search, send_res_sale, type_req_sale, type_req_search, type_req_bid,
  type_req_change_nickname, type_res_player_info,
}
use new_name_auction.Auction.Text.{Text, null_name, store_text, wcscpy_s, c_string}
use new_name_auction.Auction.Handlers.{get_name}
use new_name_auction.Auction.OwnList.{empty_entry, own_entry, release_slots}
use new_name_auction.Auction.InitPackets.{
  slot_auction, send_slot, send_slots, send_recent, send_own_slots, send_init_packets,
  proc_res_player_info, packet_proc, known_player, know_player,
}
use new_name_auction.Auction.Register.{put_up, register_able, list_auction, new_auction}
use new_name_auction.Auction.Logic.{
  Env, client_join, client_leave, client_recv, seen_player, see_player, read_type, settle,
  change_able, run_job, take_job, process_job,
}
use new_name_auction.Auction.Growth.{Grows, Grows-refl, Grows-append}
use new_name_auction.Auction.Growth.Handlers.{Same, sale-Same, change-Same, search-Same, bid-Grows}

send_slot-Same :
    (s0 : Server) (stack : List ℕ) (player : Player) (name : Text) (s : Server)
    → Same s0 s
    → Ensures (Same s0) (send_slot stack player name s)
unfolding send_slot send_res_search call_net
send_slot-Same s0 stack player name s e =
    Ensures-option (Same s0) (slot_auction name s) _ _
      (λ _. Ensures-bind (Same s0) (store_text name stack) _ λ array _. e)
      λ i _. Ensures-bind (Same s0) (need (get_elem? s.auctions i)) _ λ a _. e

send_slots-Same :
    (s0 : Server) (stack : List ℕ) (player : Player) (n : ℕ) (names : List Text) (s : Server)
    → Same s0 s
    → Ensures (Same s0) (send_slots stack player n names s)
unfolding send_slots
send_slots-Same s0 stack player zero names s e = e
send_slots-Same s0 stack player (suc n) [] s e = tt
send_slots-Same s0 stack player (suc n) (name ∷ names) s e =
    Ensures-bind (Same s0) (send_slot stack player name s) _ λ s' e'.
      send_slots-Same s0 stack player n names s'
        (Ensures-eq (Same s0) _ s' (send_slot-Same s0 stack player name s e) e')

send_recent-Same :
    (s0 : Server) (player : Player) (cnt : ℕ) (is : List ℕ) (s : Server)
    → Same s0 s
    → Ensures (Same s0) (send_recent player cnt is s)
unfolding send_recent send_res_search call_net
send_recent-Same s0 player zero is s e = e
send_recent-Same s0 player (suc cnt) [] s e = e
send_recent-Same s0 player (suc cnt) (i ∷ is) s e =
    Ensures-bind (Same s0) (need (get_elem? s.auctions i)) _
      λ a _. send_recent-Same s0 player cnt is _ e

init_packets-Same :
    (s0 : Server) (stack : List ℕ) (player : Player) (s : Server)
    → Same s0 s
    → Ensures (Same s0) (send_init_packets stack player s)
unfolding send_init_packets send_own_slots
init_packets-Same s0 stack player s e =
    Ensures-bind (Same s0) (send_own_slots stack player s) _ λ s1 e1.
      Ensures-bind (Same s0) (send_recent player _ s1.time_order48 s1) _ λ s2 e2.
        send_recent-Same s0 player _ s2.fin_list s2 (
          Ensures-eq (Same s0) _ s2
            (send_recent-Same s0 player _ s1.time_order48 s1 (Ensures-eq (Same s0) _ s1 slots e1))
            e2)
  where
    slots : Ensures (Same s0) (send_own_slots stack player s)
    slots =
        Ensures-option (Same s0) (find s.own_list player.account_no) _ _ (λ _. e)
          λ l _. send_slots-Same s0 stack player l.count l.nick_names s e

pub info-Same :
    (stack : List ℕ) (p : Packet) (s : Server)
    → Ensures (λ r. Same s r.1) (proc_res_player_info stack p s)
unfolding proc_res_player_info
info-Same stack p s = Ensures-bind P (need (get_int64 p).0) _ λ account _.
    Ensures-option P (find s.player_list account) _ _ (λ _. (refl, refl))
      λ other _. Ensures-bind P (need (get_int (get_int64 p).1).0) _ λ point _.
        Ensures-bind P (need (get_name (get_int (get_int64 p).1).1).0) _ λ array _.
          Ensures-bind P (wcscpy_s other.nick_name array) _ λ nick_name _.
            let known = known_player point nick_name other in
            let s1 = know_player account known s in
            Ensures-bind P (send_init_packets stack known s1) _
              λ s' e. Ensures-eq (Same s) _ s' (init_packets-Same s stack known s1 (refl, refl)) e
  where
    P : Bool × Server → Type 0
    P r = Same s r.1

packet_proc-Grows :
    (stack : List ℕ) (sid : ℕ) (player : Player) (type : ℕ) (p : Packet) (s : Server)
    → Ensures (λ r. Grows s.auctions r.1.auctions) (packet_proc stack sid player type p s)
unfolding packet_proc
packet_proc-Grows stack sid player type p s =
    Ensures-if P (type == type_req_sale) _ _ (λ _. weaken _ (sale-Same sid player p s))
      λ _.
        Ensures-if P (type == type_req_search) _ _ (λ _. weaken _ (search-Same sid player p s))
          λ _.
            Ensures-if P (type == type_req_bid) _ _ (λ _. bid-Grows sid player p s)
              λ _.
                Ensures-if P (type == type_req_change_nickname) _ _
                  (λ _. weaken _ (change-Same sid player p s))
                  λ _.
                    Ensures-if P (type == type_res_player_info) _ _
                      (λ _. weaken _ (info-Same stack p s))
                      λ _. Grows-refl s.auctions s.auctions refl
  where
    P : Bool × Server → Type 0
    P r = Grows s.auctions r.1.auctions

    weaken : (m : Outcome (Bool × Server)) → Ensures (λ r. Same s r.1) m → Ensures P m
    weaken m h =
        Ensures-of P m
          λ r e. Grows-refl s.auctions r.1.auctions (Ensures-eq (λ t. Same s t.1) m r h e).0

put_up-Grows :
    (now sid account : ℕ) (d : InitData) (player : Player) (s : Server)
    → Ensures (λ s'. Grows s.auctions s'.auctions) (put_up now sid account d player s)
unfolding put_up list_auction send_res_sale call_net enqueue_db
put_up-Grows now sid account d player s =
    Ensures-bind P (wcscpy_s s.fresh.auction.nick_name player.nick_name) _ λ nick_name _.
      Ensures-bind P (need (c_string nick_name)) _ λ name _.
        Ensures-bind P (wcscpy_s (pool_block s.db_job_pool s.fresh.db_job).my_nick_name nick_name) _
          λ my_nick_name _.
            Grows-append s.auctions (new_auction s.fresh.auction now account d nick_name ∷ [])
  where
    P : Server → Type 0
    P s' = Grows s.auctions s'.auctions

pub register_able-Grows :
    (now sid account : ℕ) (s : Server)
    → Ensures (λ s'. Grows s.auctions s'.auctions) (register_able now sid account s)
unfolding register_able send_res_sale call_net
register_able-Grows now sid account s =
    Ensures-if P
      (leb max_user_slot (own_entry account (insert account empty_entry s.own_list)).count) _ _
      (λ _. unchanged)
      λ _.
        Ensures-if P (leb max_server_slot s.num_of_sales) _ _ (λ _. unchanged)
          λ _.
            Ensures-option P (find s.waiting account) _ _ (λ _. unchanged)
              λ d _.
                Ensures-option P (find s.player_list account) _ _ (λ _. unchanged)
                  λ player _. put_up-Grows now sid account d player _
  where
    P : Server → Type 0
    P s' = Grows s.auctions s'.auctions

    unchanged : Grows s.auctions s.auctions
    unchanged = Grows-refl s.auctions s.auctions refl

recv-Grows :
    (env : Env) (sid : ℕ) (p : Packet) (s : Server)
    → Ensures (λ s'. Grows s.auctions s'.auctions) (client_recv env sid p s)
unfolding client_recv read_type settle call_net
recv-Grows env sid p s =
    Ensures-option P (find s.player_list sid) _ _ (λ _. unchanged)
      λ player _.
        Ensures-if P (not (player.session_id == sid)) _ _ (λ _. unchanged)
          λ _.
            Ensures-if P (not player.is_valid) _ _ (λ _. unchanged)
              λ _. Ensures-bind P (need (read_type p s).1.packet_type) _ λ type _.
                let (q, s1) = read_type p s in
                Ensures-bind P
                  (packet_proc env.stack sid (seen_player env player) type q
                    (see_player env sid player s1))
                  _
                  λ r e. finish player.session_id r (
                    Ensures-eq (λ r. Grows s.auctions r.1.auctions) _ r
                      (packet_proc-Grows env.stack sid (seen_player env player) type q
                        (see_player env sid player s1))
                      e)
  where
    P : Server → Type 0
    P s' = Grows s.auctions s'.auctions

    unchanged : Grows s.auctions s.auctions
    unchanged = Grows-refl s.auctions s.auctions refl

    finish :
        (sid : ℕ) (r : Bool × Server)
        → Grows s.auctions r.1.auctions
        → Grows s.auctions (settle sid r).auctions
    finish sid (true, s') g = g
    finish sid (false, s') g = g

change_able-Grows :
    (account : ℕ) (s : Server)
    → Ensures (λ s'. Grows s.auctions s'.auctions) (change_able account s)
unfolding change_able
change_able-Grows account s = Ensures-bind P (need (find s.own_list account)) _ λ entry _.
    Ensures-bind P (release_slots entry.count 0 entry) _
      λ entry' _. Grows-refl s.auctions s.auctions refl
  where
    P : Server → Type 0
    P s' = Grows s.auctions s'.auctions

run_job-Grows :
    (env : Env) (j : JobItem) (t : JobType) (s : Server)
    → Ensures (λ s'. Grows s.auctions s'.auctions) (run_job env j t s)
unfolding run_job client_join client_leave
run_job-Grows env j on_client_join s =
    Ensures-bind (λ s'. Grows s.auctions s'.auctions)
      (store_text null_name (pool_block s.player_pool s.fresh.player).nick_name) _
      λ nick_name _. Grows-refl s.auctions s.auctions refl
run_job-Grows env j on_client_leave s = Grows-refl s.auctions _ (ground arith)
run_job-Grows env j on_recv s =
    Ensures-bind (λ s'. Grows s.auctions s'.auctions) (need j.packet) _
      λ p _. recv-Grows env j.session_id p s
run_job-Grows env j nickname_change_able s = change_able-Grows j.account_no s
run_job-Grows env j nickname_register_able s =
    register_able-Grows env.now j.session_id j.account_no s
run_job-Grows env j _ s = Grows-refl s.auctions s.auctions refl

-- Whatever the job, where it returns every auction stays, with its owner, nickname and start, at no lower price.
pub process_job-Grows :
    (env : Env) (j : JobItem) (s s' : Server)
    → process_job env j s ≡ ok s'
    → Grows s.auctions s'.auctions
unfolding process_job take_job
process_job-Grows env j s s' e =
    Ensures-eq (λ s'. Grows s.auctions s'.auctions) _ s'
      (run_job-Grows env j j.job_type (take_job j s)) e
