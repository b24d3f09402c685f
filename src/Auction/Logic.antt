-- ===== src/Auction/Logic.antt =====
-- LogicThread of AuctionServer.cpp, and the callbacks of CContentsHandler that feed its queue.
-- A packet is released when its job is done; the count of references is in Packet.
use new_name_auction.Prelude.{
  ℕ, zero, suc, ◌+◌, Bool, true, false, not, List, [], ◌∷◌, ◌++◌, none, some, Outcome, ok, need,
  ◌>>=◌, ◌==◌, if◌then◌else◌, nat_eq, find, insert, update, erase,
}
use new_name_auction.Packet.{Packet, get_ushort, add_ref}
use new_name_auction.Auction.Text.{null_name, store_text}
use new_name_auction.Auction.State.{
  Server, Player, JobItem, JobType, on_client_join, on_recv, on_client_leave, nickname_change_able,
  nickname_register_able, disconnect, pool_block, pool_rest, call_net,
}
use new_name_auction.Auction.OwnList.{release_slots}
use new_name_auction.Auction.InitPackets.{packet_proc}
use new_name_auction.Auction.Register.{register_able}
use new_name_auction.Auction.Update.{update_server}

-- What a job reads of its surroundings: GetTickCount64, the clock, and what the stack holds where
-- SendInitPackets keeps its local array.
pub record Env : Type 0 where
  pub tick_count : ℕ
  pub now : ℕ
  pub stack : List ℕ

-- EN_JOB_ON_CLIENT_JOIN
unfoldable pub client_join : Env → ℕ → Server → Outcome Server
client_join env sid s = do
  let block = pool_block s.player_pool s.fresh.player
  nick_name ← store_text null_name block.nick_name
  ok (record s {
    player_pool = pool_rest s.player_pool;
    player_list =
        insert sid
          (record {
            is_valid = true;
            account_no = 0;
            session_id = sid;
            nick_name = nick_name;
            point = 0;
            last_time = env.tick_count;
          })
          s.player_list;
  })

-- EN_JOB_ON_CLIENT_LEAVE
unfoldable pub client_leave : ℕ → Server → Server
client_leave sid s = elim (find s.player_list sid) [
  | none ↦ s
  | some player ↦ record s {
    waiting = erase player.account_no s.waiting;
    player_list = erase sid s.player_list;
    player_pool = record player { is_valid = false } ∷ s.player_pool;
  }
]

-- `*pPacket >> packetType`, into the variable that the thread keeps.
unfoldable pub read_type : Packet → Server → Packet × Server
read_type p s =
    let (type, q) = get_ushort p in
    (q, record s { packet_type = elim type [ none ↦ s.packet_type | some t ↦ some t ] })

-- A session is thrown out when its packet is refused.
unfoldable pub settle : ℕ → Bool × Server → Server
settle sid (accepted, s) = if accepted then s else call_net (disconnect sid) s

-- `player.lastTime = GetTickCount64()`
abbrev pub seen_player : Env → Player → Player
seen_player env player = record player { last_time = env.tick_count }

abbrev pub see_player : Env → ℕ → Player → Server → Server
see_player env sid player s = record s {
  player_list = update sid (seen_player env player) s.player_list;
}

-- EN_JOB_ON_RECV
unfoldable pub client_recv : Env → ℕ → Packet → Server → Outcome Server
client_recv env sid p s0 =
    let (q, s) = read_type p s0 in
    elim (find s.player_list sid) [
      | none ↦ ok s
      | some player ↦
          if not (player.session_id == sid)
          then ok s
          else if not player.is_valid
          then ok s
          else need s.packet_type >>= λ type.
              packet_proc env.stack sid (seen_player env player) type q
                (see_player env sid player s)
              >>= λ r. ok (settle player.session_id r)
    ]

-- EN_JOB_NICKNAME_CHANGE_ABLE: the entry of the account has to be there.
unfoldable pub change_able : ℕ → Server → Outcome Server
change_able account s = do
  entry ← need (find s.own_list account)
  entry' ← release_slots entry.count 0 entry
  ok (record s { own_list = update account entry' s.own_list })

-- The switch on the kind of a job.
unfoldable pub run_job : Env → JobItem → JobType → Server → Outcome Server
run_job env j on_client_join s = client_join env j.session_id s
run_job env j on_client_leave s = ok (client_leave j.session_id s)
run_job env j on_recv s = need j.packet >>= λ p. client_recv env j.session_id p s
run_job env j nickname_change_able s = change_able j.account_no s
run_job env j nickname_register_able s = register_able env.now j.session_id j.account_no s
run_job env j _ s = ok s

-- One job, taken from the queue: it is counted, and its block goes back to the pool.
unfoldable pub take_job : JobItem → Server → Server
take_job j s = record s {
  temp_job_count = s.temp_job_count + 1;
  temp_job_count_per_cycle = s.temp_job_count_per_cycle + 1;
  job_pool = j ∷ s.job_pool;
}

unfoldable pub process_job : Env → JobItem → Server → Outcome Server
process_job env j s = run_job env j j.job_type (take_job j s)

-- The inner loop: the jobs of the queue in their order. The fuel is the number of jobs it may run.
unfoldable pub drain_jobs : Env → ℕ → Server → Outcome Server
drain_jobs env zero s = ok s
drain_jobs env (suc fuel) s = elim s.job_queue [
  | [] ↦ ok s
  | j ∷ rest ↦ process_job env j (record s { job_queue = rest }) >>= drain_jobs env fuel
]

-- One round of the outer loop: the jobs, the periodic update, the counters.
unfoldable pub logic_cycle : Env → ℕ → List ℕ → Server → Outcome Server
logic_cycle env fuel draws s = do
  s1 ← drain_jobs env fuel s
  s2 ← update_server env.now draws s1
  ok (record s2 { job_count_per_cycle = s2.temp_job_count_per_cycle; temp_job_count_per_cycle = 0 })

-- A job for the queue, in the block that the pool hands out; Enqueue never fails.
unfoldable pub enqueue_job : JobItem → Server → Server
enqueue_job j s = record s { job_pool = pool_rest s.job_pool; job_queue = s.job_queue ++ (j ∷ []) }

-- OnClientJoin, OnClientLeave and OnRecv.
unfoldable pub on_client_join_event : ℕ → Server → Server
on_client_join_event sid s =
    enqueue_job
      (record (pool_block s.job_pool s.fresh.job) {
        job_type = on_client_join;
        session_id = sid;
        packet = none;
      })
      s

unfoldable pub on_client_leave_event : ℕ → Server → Server
on_client_leave_event sid s =
    enqueue_job
      (record (pool_block s.job_pool s.fresh.job) {
        job_type = on_client_leave;
        session_id = sid;
        packet = none;
      })
      s

unfoldable pub on_recv_event : ℕ → Packet → Server → Server
on_recv_event sid p s =
    enqueue_job
      (record (pool_block s.job_pool s.fresh.job) {
        job_type = on_recv;
        session_id = sid;
        packet = some (add_ref 1 p);
      })
      s

-- updateJobCount and the counters that the monitor reads.
unfoldable pub update_job_count : Server → Server
update_job_count s = record s {
  job_count = s.temp_job_count;
  temp_job_count = 0;
  num_of_wfso = s.temp_num_of_wfso;
  temp_num_of_wfso = 0;
}
