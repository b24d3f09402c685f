-- ===== src/Auction/Search.antt =====
-- What packetProc_CS_AUCTION_REQ_SEARCH of AuctionServer.cpp answers.
use new_name_auction.Prelude.{
  ℕ, ◌<◌, List, [], ◌∷◌, none, some, get_elem?, length, All, Dict, ◌==◌, if◌then◌else◌,
}
use new_name_auction.Packet.{Packet}
use new_name_auction.Auction.Text.{Text, occurs_in}
use new_name_auction.Auction.State.{
  Player, Auction, NetCall, send, its_mine, its_others, bidder_me, bidder_other, status_code,
}
use new_name_auction.Auction.Message.{res_search_packet}

-- The auctions of a list by name whose key has the name in it, in the order of iteration.
unfoldable pub matching : List Auction → Text → Dict Text ℕ → List Auction
matching auctions name [] = []
matching auctions name ((key, i) ∷ rest) =
    let left = matching auctions name rest in
    if occurs_in name key
    then elim (get_elem? auctions i) [ none ↦ left | some a ↦ a ∷ left ]
    else left

-- The answer to one search about one auction.
abbrev pub answer : Packet → ℕ → Player → Auction → NetCall
answer block sid player a = send sid (
    res_search_packet block a.nick_name
      (if a.owner_id == player.account_no then its_mine else its_others)
      (if a.bidder_id == player.account_no then bidder_me else bidder_other) (status_code a.status)
      a.price a.end_time)

-- The indices of a list by name are those of auctions.
abbrev pub Indexed : List Auction → Dict Text ℕ → Type 0
Indexed auctions d = All (λ (key, i). i < length auctions) d
