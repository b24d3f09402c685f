-- ===== src/Auction/State.antt =====
-- The state of AuctionServer (AuctionServer.h): its records, containers, queues and pools, and the
-- calls that it has made of the network server, oldest first.
-- An st_AuctionData* is the index of its block in `auctions`: the pool's blocks are never given
-- back. An st_Player* is held by one entry of PlayerList only, so the player stands in the entry.
use new_name_auction.Prelude.{ℕ, Bool, List, [], ◌∷◌, ◌++◌, Option, Dict}
use new_name_auction.Packet.{Packet}
use new_name_auction.Auction.Text.{Text}

-- en_Auction_Status: the status of an auction, 0 to 3 on the wire.
pub data Status : Type 0 where
  sale imminent fin fin_fail : Status

abbrev pub status_code : Status → ℕ
status_code sale = 0
status_code imminent = 1
status_code fin = 2
status_code fin_fail = 3

abbrev pub register_success : ℕ
register_success = 0

abbrev pub register_fail_sold : ℕ
register_fail_sold = 1

abbrev pub register_fail_server_slot : ℕ
register_fail_server_slot = 2

abbrev pub register_fail_user_slot : ℕ
register_fail_user_slot = 3

abbrev pub change_nickname_fail : ℕ
change_nickname_fail = 1

abbrev pub max_server_slot : ℕ
max_server_slot = 20000

abbrev pub max_user_slot : ℕ
max_user_slot = 5

abbrev pub its_mine : ℕ
its_mine = 0

abbrev pub its_others : ℕ
its_others = 1

abbrev pub bidder_me : ℕ
bidder_me = 0

abbrev pub bidder_other : ℕ
bidder_other = 1

-- en_JobType
pub data JobType : Type 0 where
  on_client_join on_recv on_client_leave : JobType
  nickname_change_check nickname_change_able : JobType
  nickname_register nickname_register_check nickname_register_able nickname_sold : JobType

-- st_Player
pub record Player : Type 0 where
  pub is_valid : Bool
  pub account_no : ℕ
  pub session_id : ℕ
  pub nick_name : List ℕ
  pub point : ℕ
  pub last_time : ℕ

-- st_JobItem
pub record JobItem : Type 0 where
  pub job_type : JobType
  pub session_id : ℕ
  pub account_no : ℕ
  pub packet : Option Packet

-- st_JobItem_DBCheck
pub record DbJob : Type 0 where
  pub job_type : JobType
  pub account_no : ℕ
  pub session_id : ℕ
  pub end_time : ℕ
  pub count : ℕ
  pub my_nick_name : List ℕ
  pub target_nick_name : List ℕ

-- st_Auction_InitData
pub record InitData : Type 0 where
  pub time : ℕ
  pub price : ℕ

-- st_AuctionData
pub record Auction : Type 0 where
  pub start_time : ℕ
  pub end_time : ℕ
  pub status : Status
  pub owner_id : ℕ
  pub bidder_id : ℕ
  pub nick_name : List ℕ
  pub price : ℕ
  pub count : ℕ

-- st_NickNameList. `count` counts slots, and is not the size of the vector.
pub record NickNameList : Type 0 where
  pub count : ℕ
  pub request_nick_name : Text
  pub nick_names : List Text

-- A call of the network server: sendPacket to a session or a set of sessions, and the disconnection
-- of a session whose packet was refused.
pub data NetCall : Type 0 where
  send : ℕ → Packet → NetCall
  send_set : List ℕ → Packet → NetCall
  disconnect : ℕ → NetCall

-- What a block holds that no one has written: of new blocks of each pool, and of the packets that
-- CPacket::mAlloc hands out.
pub record Fresh : Type 0 where
  pub job : JobItem
  pub db_job : DbJob
  pub player : Player
  pub auction : Auction
  pub packet : Packet

pub record Server : Type 0 where
  pub fresh : Fresh
  pub last_update_ms : ℕ
  pub num_of_sales : ℕ
  pub job_count : ℕ
  pub num_of_wfso : ℕ
  pub job_count_per_cycle : ℕ
  pub temp_job_count : ℕ
  pub temp_num_of_wfso : ℕ
  pub temp_job_count_per_cycle : ℕ
  pub player_list : Dict ℕ Player
  pub cell_list : Dict Text ℕ
  pub imminent_list : Dict Text ℕ
  pub own_list : Dict ℕ NickNameList
  pub time_order24 : List ℕ
  pub time_order48 : List ℕ
  pub price_order : List (ℕ × ℕ)
  pub fin_list : List ℕ
  pub fin_map : Dict Text ℕ
  pub waiting : Dict ℕ InitData
  pub job_queue : List JobItem
  pub db_job_queue : List DbJob
  pub job_pool : List JobItem
  pub db_job_pool : List DbJob
  pub player_pool : List Player
  pub auctions : List Auction
  pub net : List NetCall
  -- The local variable `packetType` of LogicThread, `none` until a packet sets it.
  pub packet_type : Option ℕ

-- The block that a pool hands out: the one freed last, or a new one.
abbrev pub pool_block {ℓ} : {A : Type ℓ} → List A → A → A
pool_block [] new_block = new_block
pool_block (b ∷ bs) new_block = b

abbrev pub pool_rest {ℓ} : {A : Type ℓ} → List A → List A
pool_rest [] = []
pool_rest (b ∷ bs) = bs

-- A call of the network server.
unfoldable pub call_net : NetCall → Server → Server
call_net c s = record s { net = s.net ++ (c ∷ []) }

-- Enqueue on the queue of the database thread, from a block whose pool entry is taken.
unfoldable pub enqueue_db : DbJob → Server → Server
enqueue_db j s = record s {
  db_job_pool = pool_rest s.db_job_pool;
  db_job_queue = s.db_job_queue ++ (j ∷ []);
}

-- The constructor: every container is empty.
unfoldable pub init_server : Fresh → Server
init_server fresh = record {
  fresh = fresh;
  last_update_ms = 0;
  num_of_sales = 0;
  job_count = 0;
  num_of_wfso = 0;
  job_count_per_cycle = 0;
  temp_job_count = 0;
  temp_num_of_wfso = 0;
  temp_job_count_per_cycle = 0;
  player_list = [];
  cell_list = [];
  imminent_list = [];
  own_list = [];
  time_order24 = [];
  time_order48 = [];
  price_order = [];
  fin_list = [];
  fin_map = [];
  waiting = [];
  job_queue = [];
  db_job_queue = [];
  job_pool = [];
  db_job_pool = [];
  player_pool = [];
  auctions = [];
  net = [];
  packet_type = Option.none;
}
