-- ===== src/Auction/InitPackets.antt =====
-- SendInitPackets and the player information of AuctionServer.cpp, and the switch on packet types.
use new_name_auction.Prelude.{
  ℕ, zero, suc, Bool, true, false, List, [], ◌∷◌, Option, none, some, Outcome, ok, fault, need,
  ◌>>=◌, ◌==◌, if◌then◌else◌, nat_eq, str_eq, find, update, get_elem?,
}
use new_name_auction.Packet.{Packet, get_int, get_int64}
use new_name_auction.Auction.Text.{Text, store_text, wcscpy_s}
use new_name_auction.Auction.State.{
  Server, Player, Auction, sale, fin_fail, status_code, its_mine, its_others, bidder_me,
  bidder_other,
}
use new_name_auction.Auction.Message.{
  send_res_search, type_req_sale, type_req_search, type_req_bid, type_req_change_nickname,
  type_res_player_info,
}
use new_name_auction.Auction.Handlers.{
  get_name, proc_req_sale, proc_req_search, proc_req_bid, proc_req_change_nickname,
}

-- The auction that a slot is reported by: ImminentList and FinList_UMap are asked only about names
-- that CellList has.
unfoldable pub slot_auction : Text → Server → Option ℕ
slot_auction name s = elim (find s.cell_list name) [
  | none ↦ none
  | some i ↦ elim (find s.fin_map name) [
    | some k ↦ some k
    | none ↦ elim (find s.imminent_list name) [ some j ↦ some j | none ↦ some i ]
  ]
]

-- `pData->Status == en_AUCTION_SALE` decides whether the end of the auction is told.
abbrev pub slot_end_time : Auction → ℕ
slot_end_time a = elim a.status [ sale ↦ a.end_time | _ ↦ 0 ]

-- What a player is told of one of the slots. The local array of a failed auction is filled over
-- what the stack holds.
unfoldable pub send_slot : List ℕ → Player → Text → Server → Outcome Server
send_slot stack player name s = elim (slot_auction name s) [
  | none ↦ store_text name stack >>= λ array.
      ok (send_res_search player.session_id array its_mine 0 (status_code fin_fail) 0 0 s)
  | some i ↦ need (get_elem? s.auctions i) >>= λ a. ok (
      send_res_search player.session_id a.nick_name
        (if a.owner_id == player.account_no then its_mine else its_others)
        (if a.bidder_id == player.account_no then bidder_me else bidder_other)
        (status_code a.status) a.price (slot_end_time a) s)
]

-- The loop over the first `count` names of the account.
unfoldable pub send_slots : List ℕ → Player → ℕ → List Text → Server → Outcome Server
send_slots stack player zero names s = ok s
send_slots stack player (suc n) [] s = fault
send_slots stack player (suc n) (name ∷ names) s =
    send_slot stack player name s >>= send_slots stack player n names

-- The loops over the most recent auctions: at most `cnt` of the list.
unfoldable pub send_recent : Player → ℕ → List ℕ → Server → Outcome Server
send_recent player zero is s = ok s
send_recent player (suc cnt) [] s = ok s
send_recent player (suc cnt) (i ∷ is) s = need (get_elem? s.auctions i) >>= λ a.
    send_recent player cnt is (
      send_res_search player.session_id a.nick_name
        (if a.owner_id == player.account_no then its_mine else its_others)
        (if a.bidder_id == player.account_no then bidder_me else bidder_other)
        (status_code a.status) a.price a.end_time s)

abbrev pub recent_max : ℕ
recent_max = 200

-- The slots of the player's account, where OwnList has it.
unfoldable pub send_own_slots : List ℕ → Player → Server → Outcome Server
send_own_slots stack player s = elim (find s.own_list player.account_no) [
  | none ↦ ok s
  | some l ↦ send_slots stack player l.count l.nick_names s
]

-- SendInitPackets
unfoldable pub send_init_packets : List ℕ → Player → Server → Outcome Server
send_init_packets stack player s = do
  s1 ← send_own_slots stack player s
  s2 ← send_recent player recent_max s1.time_order48 s1
  send_recent player recent_max s2.fin_list s2

abbrev pub known_player : ℕ → List ℕ → Player → Player
known_player point nick_name player = record player { point = point; nick_name = nick_name }

abbrev pub know_player : ℕ → Player → Server → Server
know_player account player s = record s { player_list = update account player s.player_list }

-- packetProc_SS_AUCTION_RES_PLAYER_INFO: PlayerList is asked for the account number.
unfoldable pub proc_res_player_info : List ℕ → Packet → Server → Outcome (Bool × Server)
proc_res_player_info stack p s = do
  let account_read = get_int64 p
  let point_read = get_int account_read.1
  let name_read = get_name point_read.1
  account ← need account_read.0
  elim (find s.player_list account) [
    | none ↦ ok (true, s)
    | some other ↦ need point_read.0 >>= λ point. need name_read.0 >>= λ array.
        wcscpy_s other.nick_name array >>= λ nick_name.
        send_init_packets stack (known_player point nick_name other)
          (know_player account (known_player point nick_name other) s)
        >>= λ s'. ok (true, s')
  ]

-- PacketProc
unfoldable pub packet_proc : List ℕ → ℕ → Player → ℕ → Packet → Server → Outcome (Bool × Server)
packet_proc stack sid player type p s =
    if type == type_req_sale
    then proc_req_sale sid player p s
    else if type == type_req_search
    then proc_req_search sid player p s
    else if type == type_req_bid
    then proc_req_bid sid player p s
    else if type == type_req_change_nickname
    then proc_req_change_nickname sid player p s
    else if type == type_res_player_info
    then proc_res_player_info stack p s
    else ok (false, s)
