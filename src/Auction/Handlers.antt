-- ===== src/Auction/Handlers.antt =====
-- The packet procedures of AuctionServer.cpp. `sid` is the key of the player's entry in PlayerList,
-- `player` what that entry holds; a result beside the state is the `bool` of the procedure.
-- A variable that a short packet leaves unset is a fault where the code reads it.
use new_name_auction.Prelude.{
  ℕ, ◌*◌, Bool, true, false, List, [], ◌∷◌, Option, none, some, Outcome, ok, need, ◌>>=◌, sle32,
  sub32, add32, ◌==◌, not, if◌then◌else◌, nat_eq, str_eq, Dict, find, insert, update, get_elem?,
  set, ◌||◌,
}
use new_name_auction.Packet.{Packet, get_data, get_schar, get_int}
use new_name_auction.SessionSet.{set_clear, set_sessions}
use new_name_auction.Auction.Text.{
  Text, nick_name_max, c_string, wcs_equal, wcscpy_s, occurs_in, wchars_of_bytes,
}
use new_name_auction.Auction.State.{
  Server, Player, Auction, nickname_register_check, nickname_change_check, its_mine, its_others,
  bidder_me, bidder_other, status_code, pool_block, enqueue_db,
}
use new_name_auction.Auction.Message.{send_res_search, send_res_bid, send_res_bid_set}
use new_name_auction.Auction.OwnList.{own_list_check_and_insert}

-- `GetData((char*)NickName, sizeof(WCHAR) * en_NICKNAME_MAX_LENGTH)`.
unfoldable pub get_name : Packet → Option (List ℕ) × Packet
get_name p =
    let (r, bytes, q) = get_data (nick_name_max * 2) p in
    (elim bytes [ none ↦ none | some bs ↦ some (wchars_of_bytes bs) ], q)

-- packetProc_CS_AUCTION_REQ_SALE
unfoldable pub proc_req_sale : ℕ → Player → Packet → Server → Outcome (Bool × Server)
proc_req_sale sid player p s = do
  let name_read = get_name p
  let time_read = get_schar name_read.1
  let price_read = get_int time_read.1
  name ← need name_read.0
  same ← need (wcs_equal player.nick_name name)
  if same
      then (do
        time ← need time_read.0
        price ← need price_read.0
        let block = pool_block s.db_job_pool s.fresh.db_job
        my_nick_name ← wcscpy_s block.my_nick_name name
        ok (
          true,
          enqueue_db
              (record block {
                job_type = nickname_register_check;
                account_no = player.account_no;
                session_id = sid;
                my_nick_name = my_nick_name;
              })
              (record s {
                waiting =
                    insert player.account_no (record { time = time; price = price }) s.waiting;
              }),
        ))
      else ok (false, s)

-- What a search reports of one auction.
unfoldable pub send_search_result : ℕ → Player → Auction → Server → Server
send_search_result sid player a s =
    send_res_search sid a.nick_name
      (if a.owner_id == player.account_no then its_mine else its_others)
      (if a.bidder_id == player.account_no then bidder_me else bidder_other) (status_code a.status)
      a.price a.end_time s

-- One of the two loops of the search, over a list of auctions by name.
unfoldable pub search_list : ℕ → Player → Text → Dict Text ℕ → Server → Outcome Server
search_list sid player name [] s = ok s
search_list sid player name ((key, i) ∷ rest) s = elim (occurs_in name key) [
  | true ↦ need (get_elem? s.auctions i) >>= λ a.
      search_list sid player name rest (send_search_result sid player a s)
  | false ↦ search_list sid player name rest s
]

-- packetProc_CS_AUCTION_REQ_SEARCH
unfoldable pub proc_req_search : ℕ → Player → Packet → Server → Outcome (Bool × Server)
proc_req_search sid player p s = do
  array ← need (get_name p).0
  name ← need (c_string array)
  s' ← search_list sid player name s.cell_list s
  s'' ← search_list sid player name s'.imminent_list s'
  ok (true, s'')

-- The auction that a bid is for: ImminentList first, then CellList.
unfoldable pub find_auction : Text → Server → Option ℕ
find_auction name s = elim (find s.imminent_list name) [
  | some i ↦ some i
  | none ↦ find s.cell_list name
]

-- The sessions of the players of other accounts.
unfoldable pub other_sessions : ℕ → Dict ℕ Player → List ℕ
other_sessions account [] = []
other_sessions account ((sid, player) ∷ rest) =
    if player.account_no == account
    then other_sessions account rest
    else player.session_id ∷ other_sessions account rest

-- An auction after a bid.
abbrev pub bid_on : ℕ → ℕ → Auction → Auction
bid_on account price a = record a { bidder_id = account; price = price; count = add32 a.count 1 }

-- A bid that has passed the checks: the points are taken, the auction is changed, the bidder and the
-- players of other accounts are told.
unfoldable pub bid_told : ℕ → Player → List ℕ → ℕ → ℕ → Auction → Server → Server
bid_told sid player array price i a s =
    let paid = record s {
      player_list = update sid (record player { point = sub32 player.point price }) s.player_list;
      auctions = set s.auctions i (bid_on player.account_no price a);
    } in
    let told = send_res_bid player.session_id array bidder_me price paid in
    let others = set_sessions (other_sessions player.account_no paid.player_list) set_clear in
    send_res_bid_set others.session_array array bidder_other price told

-- Then the nickname enters the bidder's list.
unfoldable pub place_bid :
    ℕ → Player → List ℕ → Text → ℕ → ℕ → Auction → Server → Outcome (Bool × Server)
place_bid sid player array name price i a s = do
  s' ← own_list_check_and_insert player.account_no name (bid_told sid player array price i a s)
  ok (true, s')

-- packetProc_CS_AUCTION_REQ_BID
unfoldable pub proc_req_bid : ℕ → Player → Packet → Server → Outcome (Bool × Server)
proc_req_bid sid player p s = do
  let name_read = get_name p
  price ← need (get_int name_read.1).0
  if not (player.point == price) then ok (false, s) else (do
    array ← need name_read.0
    name ← need (c_string array)
    elim (find_auction name s) [
      | none ↦ ok (true, s)
      | some i ↦ need (get_elem? s.auctions i) >>= λ a.
          if sle32 price a.price || (a.owner_id == player.account_no)
          then ok (true, s)
          else place_bid sid player array name price i a s
    ])

-- packetProc_CS_AUCTION_REQ_CHANGE_NICKNAME
unfoldable pub proc_req_change_nickname : ℕ → Player → Packet → Server → Outcome (Bool × Server)
proc_req_change_nickname sid player p s = do
  let name_read = get_name p
  entry ← need (find s.own_list player.account_no)
  array ← need name_read.0
  name ← need (c_string array)
  let block = pool_block s.db_job_pool s.fresh.db_job
  my_nick_name ← wcscpy_s block.my_nick_name player.nick_name
  target_nick_name ← wcscpy_s block.target_nick_name array
  ok (
    true,
    enqueue_db
        (record block {
          job_type = nickname_change_check;
          account_no = player.account_no;
          session_id = sid;
          my_nick_name = my_nick_name;
          target_nick_name = target_nick_name;
        })
        (record s {
          own_list =
              update player.account_no (record entry { request_nick_name = name }) s.own_list;
        }),
  )
