-- ===== src/Auction/Db.antt =====
-- DBAccessThread of AuctionServer.cpp: the jobs that ask the database. What the database answers is
-- a parameter of the job: the first column of the fetched row, or `none` if there is no row.
use new_name_auction.Prelude.{
  ℕ, Bool, true, false, List, [], ◌∷◌, ◌++◌, Option, none, some, Outcome, ok, need, ◌>>=◌, ◌==◌,
  if◌then◌else◌,
}
use new_name_auction.Auction.Text.{Text, c_string}
use new_name_auction.Auction.State.{
  Server, DbJob, nickname_change_check, nickname_register, nickname_register_check, nickname_sold,
  register_fail_sold, change_nickname_fail, pool_rest,
}
use new_name_auction.Auction.Message.{send_res_sale, send_res_change_nickname}

-- The statements sent to the database, with the values that their formats take.
pub data Query : Type 0 where
  select_owner : Text → Query
  select_sold : Text → Query
  insert_selling : Text → ℕ → ℕ → ℕ → Query
  delete_selling : Text → Query
  insert_sold : Text → ℕ → ℕ → ℕ → Query

-- The answer to a statement: the first column of its first row as a number, if it has one.
abbrev pub Answers : Type 0
Answers = Query → Option ℕ

-- A job item is taken from the pool and filled, and no call of Enqueue follows.
unfoldable pub take_job_block : Server → Server
take_job_block s = record s { job_pool = pool_rest s.job_pool }

-- `sql_row != NULL && atoll(sql_row[0]) == AccountNo`
abbrev pub is_owner : Option ℕ → ℕ → Bool
is_owner none account = false
is_owner (some owner) account = owner == account

-- EN_JOB_NICKNAME_CHANGE_CHECK
unfoldable pub change_check : Answers → DbJob → Server → Outcome (List Query × Server)
change_check answers j s = do
  target ← need (c_string j.target_nick_name)
  ok (
    select_owner target ∷ [],
    if is_owner (answers (select_owner target)) j.account_no
        then take_job_block s
        else send_res_change_nickname j.session_id change_nickname_fail s,
  )

-- EN_JOB_NICKNAME_REGISTER_CHECK
unfoldable pub register_check : Answers → DbJob → Server → Outcome (List Query × Server)
register_check answers j s = do
  target ← need (c_string j.target_nick_name)
  ok (
    select_sold target ∷ [],
    elim (answers (select_sold target)) [
      | some row ↦ send_res_sale j.session_id register_fail_sold s
      | none ↦ take_job_block s
    ],
  )

-- One job: its names are copied out first, and its block goes back to the pool.
unfoldable pub process_db_job : Answers → DbJob → Server → Outcome (List Query × Server)
process_db_job answers j s0 = do
  my_name ← need (c_string j.my_nick_name)
  target ← need (c_string j.target_nick_name)
  let s = record s0 { db_job_pool = j ∷ s0.db_job_pool }
  elim j.job_type [
    | nickname_change_check ↦ change_check answers j s
    | nickname_register_check ↦ register_check answers j s
    | nickname_register ↦ ok (insert_selling my_name j.account_no j.end_time j.count ∷ [], s)
    | nickname_sold ↦ ok (
      delete_selling my_name
          ∷ (if j.account_no == 0
              then []
              else insert_sold my_name j.account_no j.end_time j.count ∷ []),
      s,
    )
    | _ ↦ ok ([], s)
  ]

-- The thread: it runs, or it has left its loop and closed the connection. One call is one try of
-- Dequeue: an empty queue ends the thread.
pub record DbThread : Type 0 where
  pub running : Bool
  pub queries : List Query

unfoldable pub db_step : Answers → DbThread → Server → Outcome (DbThread × Server)
db_step answers t s = elim t.running [
  | false ↦ ok (t, s)
  | true ↦ elim s.db_job_queue [
    | [] ↦ ok (record t { running = false }, s)
    | j ∷ rest ↦ process_db_job answers j (record s { db_job_queue = rest }) >>= λ (asked, s').
        ok (record t { queries = t.queries ++ asked }, s')
  ]
]
