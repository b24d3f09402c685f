-- ===== src/Tests/Auctions.antt =====
-- The operations of AuctionServer at concrete inputs.
use new_name_auction.Prelude.{
  ℕ, ◌≡◌, refl, true, false, List, [], ◌∷◌, none, replicate, ◌⊎◌, some, arith, ok, fault, get_elem?,
  find, nat_eq, str_eq,
}
use new_name_auction.Packet.{
  Packet, get_ushort, get_int, get_data, get_scalar, move_read_pos, put_data, put_scalar,
  put_ushort, put_schar, put_int, m_alloc, clear, add_ref,
}
use new_name_auction.Auction.Text.{c_string, wchar_bytes, wchars_of_bytes, wcscpy_s, store_text}
use new_name_auction.Auction.State.{
  JobItem, Server, Auction, NickNameList, init_server, call_net, enqueue_db,
}
use new_name_auction.Auction.Message.{
  req_bid_packet, start, put_name, res_bid_packet, send_res_bid, send_res_bid_set, send_res_sale,
  res_sale_packet,
}
use new_name_auction.Auction.Message.RoundTrip.{payload, req_bid_round_trip}
use new_name_auction.Auction.OwnList.{
  empty_entry, own_entry, push_name, own_list_check_and_insert, release_slots, listed,
}
use new_name_auction.Auction.OwnList.Slots.{
  IsCounted, has_name, check_and_insert_lem, release_slots_halves,
}
use new_name_auction.Auction.Handlers.{
  find_auction, get_name, proc_req_bid, bid_told, place_bid, other_sessions,
}
use new_name_auction.Auction.Register.{
  price_insert, register_able, put_up, list_auction, end_time_of,
}
use new_name_auction.Auction.Register.Bounds.{IsBounded, register_able-IsBounded}
use new_name_auction.Auction.Update.{update_server}
use new_name_auction.Auction.Update.Stall.{update_calls, update_calls_stall}
use new_name_auction.Auction.Bid.{Accepted, Outcomes, proc_req_bid-Outcomes}
use new_name_auction.Auction.Bid.Placed.{proc_req_bid_lem}
use new_name_auction.Auction.Logic.{
  logic_cycle, on_client_join_event, drain_jobs, process_job, run_job, take_job, client_recv,
  read_type, settle,
}
use new_name_auction.Auction.Drain.{drain_jobs_lem}
use new_name_auction.Auction.Growth.{Advances}
use new_name_auction.Auction.Growth.Cycle.{logic_cycle_grows}
use new_name_auction.Auction.InitPackets.{packet_proc}
use new_name_auction.SessionSet.{set_clear, set_sessions, set_session}
use new_name_auction.Auction.Reach.{System, join, here, next, init_system}
use new_name_auction.Auction.Reach.Stopped.{Reach-stopped}
use new_name_auction.Auction.Db.{db_step}
use new_name_auction.Auction.Idle.{IsIdle}
use new_name_auction.Auction.Reach.Idle.{Reach-IsIdle}
use new_name_auction.Tests.Fixtures.{ab, ab_array, block, job, bidder, for_sale, fresh, idle, env}
use new_name_auction.Tests.Messages.{block-IsBlock, ab_array-IsArray}

-- What the server reads of a bid of 50 points, behind the type.
bid_packet : Packet
bid_packet = (get_ushort (payload (req_bid_packet block ab_array 50))).1

bid-Accepted : Accepted bidder bid_packet idle ab_array ab 50 0 for_sale
unfolding bid_packet c_string find_auction
bid-Accepted =
    let (_, name, price, _) =
      req_bid_round_trip block ab_array 50 block-IsBlock ab_array-IsArray (omega arith) in
    record {
      array_read = name;
      name_read = refl;
      price_read = price;
      listed = refl;
      held = refl;
      paid = refl;
      raised = refl;
      not_owner = λ e. omega (arith, e);
    }

proc_req_bid_lem_example :
    (s' : Server) × (proc_req_bid 3 bidder bid_packet idle ≡ ok (true, s'))
    × (s'.auctions ≡ record for_sale { bidder_id = 7; price = 50; count = 1 } ∷ [])
    × (get_elem? s'.auctions 0 ≡ some (record for_sale { bidder_id = 7; price = 50; count = 1 }))
    × (find s'.player_list 3 ≡ some (record bidder { point = 0 }))
    × (find s'.own_list 7 ≡ some (push_name ab empty_entry))
    × (has_name (ab ∷ []) ab ≡ true)
unfolding own_entry
proc_req_bid_lem_example =
    proc_req_bid_lem 3 bidder bid_packet idle ab_array ab 50 0 for_sale bid-Accepted refl
      (omega arith) (record { counted = refl })

-- A player with other points than the price is thrown out.
proc_req_bid-Outcomes_example :
    Outcomes 3 (record bidder { point = 10 }) bid_packet idle (false, idle)
unfolding proc_req_bid bid_packet
proc_req_bid-Outcomes_example =
    let (_, _, price_read, _) =
      req_bid_round_trip block ab_array 50 block-IsBlock ab_array-IsArray (omega arith) in
    proc_req_bid-Outcomes 3 (record bidder { point = 10 }) bid_packet idle (false, idle)
      (rw price_read refl)

check_and_insert_lem_example :
    (s' : Server) × (own_list_check_and_insert 7 ab idle ≡ ok s')
    × (find s'.own_list 7 ≡ some (push_name ab empty_entry))
    × IsCounted (push_name ab empty_entry)
    × (has_name (ab ∷ []) ab ≡ true)
unfolding own_entry
check_and_insert_lem_example = check_and_insert_lem 7 ab idle 7 (record { counted = refl })

-- Three slots, and a name that is in none of them: one slot is left.
three_slots : NickNameList
three_slots = record { count = 3; request_nick_name = 99 ∷ []; nick_names = ab ∷ ab ∷ ab ∷ [] }

release_slots_halves_example :
    (l' : NickNameList) × (release_slots 3 0 three_slots ≡ ok l') × (l'.count ≡ 1)
unfolding three_slots
release_slots_halves_example = release_slots_halves three_slots (record { counted = refl })

-- The auction is over at 1000, and three calls later it still is in CellList.
update_calls_stall_example :
    update_calls ((4_000, []) ∷ (8_000, []) ∷ (12_000, []) ∷ []) idle
    ≡ ok (record idle { last_update_ms = 12_000 })
update_calls_stall_example =
    update_calls_stall ((4_000, []) ∷ (8_000, []) ∷ (12_000, []) ∷ []) idle (omega arith)

-- One bid in the queue of the logic thread.
bid_job : JobItem
bid_job = record job { packet = some (payload (req_bid_packet block ab_array 50)) }

waiting_bid : Server
waiting_bid = record idle { job_queue = bid_job ∷ [] }

after_cycle : Server
after_cycle = elim (logic_cycle env 1 [] waiting_bid) [ ok s ↦ s | fault ↦ idle ]

one_cycle : logic_cycle env 1 [] waiting_bid ≡ ok after_cycle
unfolding after_cycle waiting_bid bid_job logic_cycle drain_jobs process_job run_job take_job
    client_recv read_type settle packet_proc proc_req_bid get_name find_auction bid_told place_bid
    other_sessions get_data get_ushort get_int get_scalar move_read_pos put_data put_scalar
    put_ushort put_schar put_int m_alloc clear add_ref req_bid_packet start put_name res_bid_packet
    send_res_bid send_res_bid_set own_list_check_and_insert listed own_entry c_string wchar_bytes
    wchars_of_bytes call_net update_server set_clear set_sessions set_session
one_cycle = refl

drain_jobs_lem_example :
    (drain_jobs env 5 waiting_bid ≡ drain_jobs env 1 waiting_bid)
    × ((drain_jobs env 5 waiting_bid ≡ fault)
        ⊎ ((s' : Server) × (drain_jobs env 5 waiting_bid ≡ ok s') × (s'.job_queue ≡ [])))
unfolding waiting_bid
drain_jobs_lem_example = drain_jobs_lem env 5 waiting_bid (omega arith)

logic_cycle_grows_example :
    (b : Auction) × (get_elem? after_cycle.auctions 0 ≡ some b) × Advances for_sale b
unfolding waiting_bid
logic_cycle_grows_example =
    logic_cycle_grows env 1 [] waiting_bid after_cycle one_cycle 0 for_sale refl

Reach-IsIdle_example : IsIdle (on_client_join_event 3 (init_server fresh))
unfolding init_system
Reach-IsIdle_example =
    Reach-IsIdle fresh
      (record (init_system fresh) { server = on_client_join_event 3 (init_server fresh) })
      (next here (join 3))

-- The system after the database thread has ended and a client has joined.
started : System
started = record {
  server = on_client_join_event 4 idle;
  db = record { running = false; queries = [] };
}

-- A search for the letter b.
abbrev b_array : List ℕ
b_array = 98 ∷ replicate 9 0

search_packet : Packet
search_packet = record block { buffer = 98 ∷ replicate 1999 0; write_pos = 20; data_size = 20 }

-- The database thread finds its queue empty when it starts.
Reach-stopped_example : (started.db.running ≡ false) × (started.db.queries ≡ [])
unfolding db_step started
Reach-stopped_example =
    Reach-stopped (λ q. none) (record { running = true; queries = [] })
      (record { running = false; queries = [] }) idle idle started refl refl (next here (join 4))

-- An account that has put up four auctions puts up a fifth.
seller : Server
seller = record idle {
  own_list =
      (7, record { count = 4; request_nick_name = []; nick_names = ab ∷ ab ∷ ab ∷ ab ∷ [] }) ∷ [];
  num_of_sales = 1;
  player_list = (7, bidder) ∷ [];
  waiting = (7, record { time = 24; price = 10 }) ∷ [];
}

after_sale : Server
after_sale = elim (register_able 200 3 7 seller) [ ok s ↦ s | fault ↦ idle ]

one_sale : register_able 200 3 7 seller ≡ ok after_sale
unfolding register_able after_sale seller put_up list_auction own_entry wcscpy_s store_text c_string
    send_res_sale res_sale_packet start call_net enqueue_db put_ushort put_schar put_scalar m_alloc
    clear add_ref price_insert end_time_of
one_sale = refl

register_able-IsBounded_example : IsBounded 7 after_sale
unfolding seller own_entry
register_able-IsBounded_example =
    register_able-IsBounded 200 3 7 seller after_sale
      (record { tracked = refl; server_slots = omega arith; user_slots = omega arith }) one_sale
