-- ===== src/Tests/Messages.antt =====
-- Messages written and read at concrete inputs.
use new_name_auction.Prelude.{
  ◌≡◌, refl, [], some, none, ok, true, arith, find, nat_eq, of_le_bytes, take,
}
use new_name_auction.Packet.{get_ushort, get_int}
use new_name_auction.Packet.Fifo.{contents}
use new_name_auction.Auction.Text.{wchar_bytes}
use new_name_auction.Auction.Handlers.{get_name}
use new_name_auction.Auction.InitPackets.{proc_res_player_info}
use new_name_auction.Auction.Message.{req_bid_packet, res_player_info_packet, type_req_bid}
use new_name_auction.Packet.Stream.{IsBlock}
use new_name_auction.Auction.Message.RoundTrip.{
  IsArray, payload, req_bid_round_trip, player_info_misread,
}
use new_name_auction.Tests.Fixtures.{ab_array, block, blank, idle}

pub block-IsBlock : IsBlock block
block-IsBlock = record { sized = refl; whole = refl }

pub ab_array-IsArray : IsArray ab_array
ab_array-IsArray = omega arith

req_bid_round_trip_example :
    let p0 = payload (req_bid_packet block ab_array 50) in
    let (type, p1) = get_ushort p0 in
    let (array, p2) = get_name p1 in
    let (bid, p3) = get_int p2 in
    (type ≡ some type_req_bid) × (array ≡ some ab_array) × (bid ≡ some 50) × (contents p3 ≡ [])
req_bid_round_trip_example =
    req_bid_round_trip block ab_array 50 block-IsBlock ab_array-IsArray (omega arith)

-- Account 7 is read as 0x620061, so that the player with it is not found.
no_such_player : find idle.player_list (of_le_bytes (take 8 (wchar_bytes ab_array))) ≡ none
unfolding wchar_bytes
no_such_player = refl

player_info_misread_example :
    proc_res_player_info blank
      (get_ushort (payload (res_player_info_packet block ab_array 7 50))).1
      idle
    ≡ ok (true, idle)
player_info_misread_example =
    player_info_misread block ab_array 7 50 blank idle block-IsBlock ab_array-IsArray no_such_player
