-- ===== src/Auction/Reach/Stopped.antt =====
-- The end of DBAccessThread (AuctionServer.cpp), and the states after it.
use new_name_auction.Prelude.{arith, false, ◌≡◌, refl, ◌∙◌, ap, [], ok}
use new_name_auction.Auction.State.{Server}
use new_name_auction.Auction.Db.{Answers, DbThread, db_step}
use new_name_auction.Auction.Reach.{
  System, Step, join, leave, recv, cycle, database, Reach, here, next,
}

db_step-stopped :
    (answers : Answers) (t t' : DbThread) (s s' : Server)
    → t.running ≡ false
    → db_step answers t s ≡ ok (t', s')
    → t' ≡ t
unfolding db_step
db_step-stopped answers t t' s s' stopped e = ground arith

Step-stopped : (x y : System) → Step x y → x.db.running ≡ false → y.db ≡ x.db
Step-stopped x y (join sid) stopped = refl
Step-stopped x y (leave sid) stopped = refl
Step-stopped x y (recv sid p) stopped = refl
Step-stopped x y (cycle env fuel draws s e) stopped = refl
Step-stopped x y (database answers t s e) stopped =
    db_step-stopped answers x.db t x.server s stopped e

-- The thread as it was.
stays_stopped : (x z : System) → Reach x z → x.db.running ≡ false → z.db ≡ x.db
stays_stopped x z here stopped = refl
stays_stopped x z (next {y} r st) stopped =
    let same = stays_stopped x y r stopped in
    Step-stopped y z st (ap (λ d. d.running) same ∙ stopped) ∙ same

db_step-empty :
    (answers : Answers) (t t' : DbThread) (s s' : Server)
    → s.db_job_queue ≡ []
    → db_step answers t s ≡ ok (t', s')
    → (t'.running ≡ false) × (t'.queries ≡ t.queries)
unfolding db_step
db_step-empty answers t t' s s' e run = ground arith

-- A try of Dequeue on an empty queue ends the database thread: whatever jobs are posted for it later
-- and however the threads interleave, it never runs again and sends no further statement.
pub Reach-stopped :
    (answers : Answers) (t t' : DbThread) (s s' : Server) (z : System)
    → s.db_job_queue ≡ []
    → db_step answers t s ≡ ok (t', s')
    → Reach (record { server = s'; db = t' }) z
    → (z.db.running ≡ false) × (z.db.queries ≡ t.queries)
Reach-stopped answers t t' s s' z e run r =
    let (stopped, asked) = db_step-empty answers t t' s s' e run in
    let same = stays_stopped (record { server = s'; db = t' }) z r stopped in
    (ap (λ d. d.running) same ∙ stopped, ap (λ d. d.queries) same ∙ asked)
