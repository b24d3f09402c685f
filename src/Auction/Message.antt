-- ===== src/Auction/Message.antt =====
-- The messages of CommonProtocol.h as AuctionServer.cpp writes them: each SendPacket function builds
-- its packet in a block of the packet pool, and hands it to the network server.
pub mod RoundTrip
use new_name_auction.Prelude.{ℕ, ◌*◌, List}
use new_name_auction.Packet.{
  Packet, m_alloc, clear, add_ref, put_ushort, put_schar, put_int, put_int64, put_data,
}
use new_name_auction.Auction.Text.{wchar_bytes, nick_name_max}
use new_name_auction.Auction.State.{Server, send, send_set, call_net}

-- en_PROTOCOL_TYPE
abbrev pub type_req_sale : ℕ
type_req_sale = 1

abbrev pub type_res_sale : ℕ
type_res_sale = 2

abbrev pub type_req_search : ℕ
type_req_search = 3

abbrev pub type_res_search : ℕ
type_res_search = 4

abbrev pub type_req_bid : ℕ
type_req_bid = 5

abbrev pub type_res_bid : ℕ
type_res_bid = 6

abbrev pub type_res_expire : ℕ
type_res_expire = 7

abbrev pub type_req_change_nickname : ℕ
type_req_change_nickname = 8

abbrev pub type_res_change_nickname : ℕ
type_res_change_nickname = 9

abbrev pub type_res_player_info : ℕ
type_res_player_info = 10

-- The start of every message: an allocated, cleared and referenced packet with its type.
unfoldable pub start : Packet → ℕ → Packet
start block type = put_ushort type (add_ref 1 (clear (m_alloc block)))

-- `PutData((char*)NickName, en_NICKNAME_MAX_LENGTH * sizeof(WCHAR))`.
unfoldable pub put_name : List ℕ → Packet → Packet
put_name name p = (put_data (wchar_bytes name) (nick_name_max * 2) p).1

unfoldable pub req_sale_packet : Packet → List ℕ → ℕ → ℕ → Packet
req_sale_packet block name time price =
    put_int price (put_schar time (put_name name (start block type_req_sale)))

unfoldable pub res_sale_packet : Packet → ℕ → Packet
res_sale_packet block flag = put_schar flag (start block type_res_sale)

unfoldable pub req_search_packet : Packet → List ℕ → Packet
req_search_packet block name = put_name name (start block type_req_search)

unfoldable pub res_search_packet : Packet → List ℕ → ℕ → ℕ → ℕ → ℕ → ℕ → Packet
res_search_packet block name mine bidder status price end_time = put_int64 end_time (
    put_int price (
      put_schar status
        (put_schar bidder (put_schar mine (put_name name (start block type_res_search))))))

unfoldable pub req_bid_packet : Packet → List ℕ → ℕ → Packet
req_bid_packet block name price = put_int price (put_name name (start block type_req_bid))

unfoldable pub res_bid_packet : Packet → List ℕ → ℕ → ℕ → Packet
res_bid_packet block name bidder price =
    put_int price (put_schar bidder (put_name name (start block type_res_bid)))

unfoldable pub res_expire_packet : Packet → List ℕ → ℕ → Packet
res_expire_packet block name status = put_schar status (put_name name (start block type_res_expire))

unfoldable pub req_change_nickname_packet : Packet → List ℕ → Packet
req_change_nickname_packet block name = put_name name (start block type_req_change_nickname)

unfoldable pub res_change_nickname_packet : Packet → ℕ → Packet
res_change_nickname_packet block status = put_schar status (start block type_res_change_nickname)

unfoldable pub res_player_info_packet : Packet → List ℕ → ℕ → ℕ → Packet
res_player_info_packet block name account point =
    put_int point (put_int64 account (put_name name (start block type_res_player_info)))

-- The functions that AuctionServer itself calls.
unfoldable pub send_res_sale : ℕ → ℕ → Server → Server
send_res_sale sid flag s = call_net (send sid (res_sale_packet s.fresh.packet flag)) s

unfoldable pub send_res_search : ℕ → List ℕ → ℕ → ℕ → ℕ → ℕ → ℕ → Server → Server
send_res_search sid name mine bidder status price end_time s =
    call_net (send sid (res_search_packet s.fresh.packet name mine bidder status price end_time)) s

unfoldable pub send_res_bid : ℕ → List ℕ → ℕ → ℕ → Server → Server
send_res_bid sid name bidder price s =
    call_net (send sid (res_bid_packet s.fresh.packet name bidder price)) s

unfoldable pub send_res_bid_set : List ℕ → List ℕ → ℕ → ℕ → Server → Server
send_res_bid_set sids name bidder price s =
    call_net (send_set sids (res_bid_packet s.fresh.packet name bidder price)) s

unfoldable pub send_res_expire : List ℕ → List ℕ → ℕ → Server → Server
send_res_expire sids name status s =
    call_net (send_set sids (res_expire_packet s.fresh.packet name status)) s

unfoldable pub send_res_change_nickname : ℕ → ℕ → Server → Server
send_res_change_nickname sid status s =
    call_net (send sid (res_change_nickname_packet s.fresh.packet status)) s
