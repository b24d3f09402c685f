-- ===== src/Tests/Fixtures.antt =====
-- A server for the tests, with one player who can bid on the one auction of another account.
use new_name_auction.Prelude.{ℕ, true, false, [], ◌∷◌, List, none, replicate}
use new_name_auction.Packet.{Packet}
use new_name_auction.Auction.Text.{Text}
use new_name_auction.Auction.State.{
  Fresh, Server, Player, Auction, JobItem, DbJob, on_recv, nickname_sold, sale,
}
use new_name_auction.Auction.Db.{DbThread}
use new_name_auction.Auction.Logic.{Env}

abbrev pub blank : List ℕ
blank = replicate 10 0

-- The array of a nickname of two letters, and the nickname.
abbrev pub ab_array : List ℕ
ab_array = 97 ∷ 98 ∷ replicate 8 0

abbrev pub ab : Text
ab = 97 ∷ 98 ∷ []

abbrev pub buffer : List ℕ
buffer = replicate 2000 0

abbrev pub block : Packet
block = record {
  data_size = 0;
  buffer_size = 2000;
  ref_count = 0;
  buffer = buffer;
  read_pos = 0;
  write_pos = 0;
  encode_flag = false;
}

abbrev pub bidder : Player
bidder = record {
  is_valid = true;
  account_no = 7;
  session_id = 3;
  nick_name = ab_array;
  point = 50;
  last_time = 0;
}

abbrev pub for_sale : Auction
for_sale = record {
  start_time = 0;
  end_time = 1000;
  status = sale;
  owner_id = 8;
  bidder_id = 0;
  nick_name = ab_array;
  price = 20;
  count = 0;
}

abbrev pub job : JobItem
job = record { job_type = on_recv; session_id = 3; account_no = 0; packet = none }

abbrev pub db_job : DbJob
db_job = record {
  job_type = nickname_sold;
  account_no = 0;
  session_id = 0;
  end_time = 0;
  count = 0;
  my_nick_name = blank;
  target_nick_name = blank;
}

abbrev pub fresh : Fresh
fresh = record {
  job = job;
  db_job = db_job;
  player = record bidder { nick_name = blank };
  auction = record for_sale { nick_name = blank };
  packet = block;
}

abbrev pub idle : Server
idle = record {
  fresh = fresh;
  last_update_ms = 100;
  num_of_sales = 0;
  job_count = 0;
  num_of_wfso = 0;
  job_count_per_cycle = 0;
  temp_job_count = 0;
  temp_num_of_wfso = 0;
  temp_job_count_per_cycle = 0;
  player_list = (3, bidder) ∷ [];
  cell_list = (ab, 0) ∷ [];
  imminent_list = [];
  own_list = [];
  time_order24 = 0 ∷ [];
  time_order48 = [];
  price_order = (20, 0) ∷ [];
  fin_list = [];
  fin_map = [];
  waiting = [];
  job_queue = [];
  db_job_queue = [];
  job_pool = [];
  db_job_pool = [];
  player_pool = [];
  auctions = for_sale ∷ [];
  net = [];
  packet_type = none;
}

abbrev pub env : Env
env = record { tick_count = 5; now = 200; stack = blank }

abbrev pub stopped : DbThread
stopped = record { running = false; queries = [] }
