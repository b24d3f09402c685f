-- ===== src/Auction/Reach/Idle.antt =====
-- The jobs that the threads post for the logic thread, and the auctions they lead to.
use new_name_auction.Prelude.{
  Bool, true, false, ◌≡◌, refl, List, [], ◌∷◌, ◌++◌, arith, ok, ◌>>=◌, Ensures, Ensures-bind,
  Ensures-eq, Ensures-list, All, nat_eq,
}
use new_name_auction.Packet.{}
use new_name_auction.Auction.State.{Server, Fresh, DbJob, JobItem, init_server, call_net}
use new_name_auction.Auction.Reach.{
  System, Step, join, leave, recv, cycle, database, Reach, here, next, init_system,
}
use new_name_auction.Auction.Text.{}
use new_name_auction.Auction.Message.{send_res_sale, send_res_change_nickname}
use new_name_auction.Auction.Handlers.{}
use new_name_auction.Auction.InitPackets.{}
use new_name_auction.Auction.Bid.{}
use new_name_auction.Auction.Update.{}
use new_name_auction.Auction.Update.Rule.{}
use new_name_auction.Auction.Logic.{
  enqueue_job, on_client_join_event, on_client_leave_event, on_recv_event,
}
use new_name_auction.Auction.Db.{
  Answers, DbThread, process_db_job, change_check, register_check, take_job_block, db_step,
}
use new_name_auction.Auction.Growth.Handlers.{Same}
use new_name_auction.Auction.Growth.Jobs.{}
use new_name_auction.Auction.Idle.{IsNetJob, IsIdle, Same-IsIdle, cycle-IsIdle}

db_job-Same :
    (answers : Answers) (j : DbJob) (s : Server)
    → Ensures (λ r. Same s r.1) (process_db_job answers j s)
unfolding process_db_job change_check register_check take_job_block send_res_sale
    send_res_change_nickname call_net
db_job-Same answers j s = ground arith

db_step-IsIdle :
    (answers : Answers) (t t' : DbThread) (s s' : Server)
    → IsIdle s
    → db_step answers t s ≡ ok (t', s')
    → IsIdle s'
unfolding db_step
db_step-IsIdle answers t t' s s' v e = Ensures-eq P _ (t', s') (tried t.running) e
  where
    P : DbThread × Server → Type 0
    P r = IsIdle r.1

    worked :
        (j : DbJob) (rest : List DbJob)
        → Ensures P (
            process_db_job answers j (record s { db_job_queue = rest }) >>= λ (asked, s').
            ok (record t { queries = t.queries ++ asked }, s'))
    worked j rest =
        Ensures-bind P (process_db_job answers j (record s { db_job_queue = rest })) _ λ r e.
          Same-IsIdle (record s { db_job_queue = rest }) r.1 (Same-IsIdle s _ v (refl, refl))
            (Ensures-eq (λ r. Same (record s { db_job_queue = rest }) r.1) _ r
              (db_job-Same answers j (record s { db_job_queue = rest })) e)

    tried :
        (b : Bool)
        → Ensures P (elim b [
          | false ↦ ok (t, s)
          | true ↦ elim s.db_job_queue [
            | [] ↦ ok (record t { running = false }, s)
            | j ∷ rest ↦
                process_db_job answers j (record s { db_job_queue = rest }) >>= λ (asked, s').
                ok (record t { queries = t.queries ++ asked }, s')
          ]
        ])
    tried false = v
    tried true = Ensures-list P s.db_job_queue _ _ (λ _. v) (λ j rest _. worked j rest)

All-append_one :
    (js : List JobItem) (j : JobItem)
    → All (λ (k : JobItem). IsNetJob k.job_type) js
    → IsNetJob j.job_type
    → All (λ (k : JobItem). IsNetJob k.job_type) (js ++ (j ∷ []))
All-append_one [] j h n = (n, tt)
All-append_one (k ∷ js) j h n = (h.0, All-append_one js j h.1 n)

enqueue-IsIdle :
    (j : JobItem) (s : Server) → IsNetJob j.job_type → IsIdle s → IsIdle (enqueue_job j s)
unfolding enqueue_job
enqueue-IsIdle j s n v = record {
  no_auction = v.no_auction;
  net_jobs = All-append_one s.job_queue j v.net_jobs n;
}

Step-IsIdle : (x y : System) → Step x y → IsIdle x.server → IsIdle y.server
unfolding on_client_join_event on_client_leave_event on_recv_event
Step-IsIdle x y (join sid) v = enqueue-IsIdle _ x.server tt v
Step-IsIdle x y (leave sid) v = enqueue-IsIdle _ x.server tt v
Step-IsIdle x y (recv sid p) v = enqueue-IsIdle _ x.server tt v
Step-IsIdle x y (cycle env fuel draws s e) v = cycle-IsIdle env fuel draws x.server s v e
Step-IsIdle x y (database answers t s e) v = db_step-IsIdle answers x.db t x.server s v e

-- From the start of the program, whatever clients send, whatever the database answers and however the
-- threads interleave, no auction is ever put up, and the queue of the logic thread never holds a job
-- of another kind than a join, a leave or a packet.
pub Reach-IsIdle : (fresh : Fresh) (x : System) → Reach (init_system fresh) x → IsIdle x.server
unfolding init_system init_server
Reach-IsIdle fresh x here = record { no_auction = refl; net_jobs = tt }
Reach-IsIdle fresh x (next {y} r st) = Step-IsIdle y x st (Reach-IsIdle fresh y r)
