-- ===== src/Auction/Reach.antt =====
-- The server as a system of three parties: the network threads that post jobs, the logic thread and
-- the database thread. A step is a step of one of them.
pub mod Idle
pub mod Stopped
use new_name_auction.Prelude.{ℕ, true, List, [], ◌≡◌, ok}
use new_name_auction.Packet.{Packet}
use new_name_auction.Auction.State.{Server, Fresh, init_server}
use new_name_auction.Auction.Logic.{
  Env, logic_cycle, on_client_join_event, on_client_leave_event, on_recv_event,
}
use new_name_auction.Auction.Db.{Answers, DbThread, db_step}

pub record System : Type 0 where
  pub server : Server
  pub db : DbThread

pub data Step (x : System) : System → Type 0 where
  join : (sid : ℕ) → Step x (record x { server = on_client_join_event sid x.server })
  leave : (sid : ℕ) → Step x (record x { server = on_client_leave_event sid x.server })
  recv : (sid : ℕ) (p : Packet) → Step x (record x { server = on_recv_event sid p x.server })
  cycle :
      (env : Env) (fuel : ℕ) (draws : List ℕ) (s : Server)
      → logic_cycle env fuel draws x.server ≡ ok s
      → Step x (record x { server = s })
  database :
      (answers : Answers) (t : DbThread) (s : Server)
      → db_step answers x.db x.server ≡ ok (t, s)
      → Step x (record { server = s; db = t })

pub data Reach (x : System) : System → Type 0 where
  here : Reach x x
  next : {y z : System} → Reach x y → Step y z → Reach x z

-- The start of the program.
unfoldable pub init_system : Fresh → System
init_system fresh = record {
  server = init_server fresh;
  db = record { running = true; queries = [] };
}
