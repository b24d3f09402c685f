-- ===== src/Auction/Bid/Placed.antt =====
-- The bids that pass the checks of packetProc_CS_AUCTION_REQ_BID.
use new_name_auction.Prelude.{
  ℕ, ◌<◌, ◌^◌, ◌≡◌, refl, sym, subst, ◌∙◌, true, List, some, arith, get_elem?, set,
  get_elem?-set_self, lt-length_of_get_elem?, ok, Ensures, Ensures-eq, ==_iff, ◌==◌, sub32, add32,
  nat_eq, find, update, find-update_self,
}
use new_name_auction.Packet.{Packet}
use new_name_auction.Auction.State.{Server, Player, Auction, call_net}
use new_name_auction.Auction.Text.{Text}
use new_name_auction.Auction.Message.{send_res_bid, send_res_bid_set}
use new_name_auction.Auction.Handlers.{bid_on, bid_told, place_bid, proc_req_bid}
use new_name_auction.Auction.OwnList.{own_entry, own_list_check_and_insert}
use new_name_auction.Auction.OwnList.Slots.{IsCounted, entered, has_name, check_and_insert_lem}
use new_name_auction.Auction.Bid.{Accepted}

-- The procedure comes to the bid.
proc_req_bid-place :
    (sid : ℕ) (player : Player) (p : Packet) (s : Server) (array : List ℕ) (name : Text)
    (price i : ℕ) (a : Auction)
    → Accepted player p s array name price i a
    → proc_req_bid sid player p s ≡ place_bid sid player array name price i a s
unfolding proc_req_bid
proc_req_bid-place sid player p s array name price i a c = ground arith

-- What a placed bid leaves: `s'` is the state before the names are entered.
bid_told-parts :
    (sid : ℕ) (player : Player) (array : List ℕ) (price i : ℕ) (a : Auction) (s : Server)
    → let s' = bid_told sid player array price i a s in
      (s'.own_list ≡ s.own_list)
      × (s'.auctions ≡ set s.auctions i (bid_on player.account_no price a))
      × (s'.player_list
          ≡ update sid (record player { point = sub32 player.point price }) s.player_list)
unfolding bid_told send_res_bid send_res_bid_set call_net
bid_told-parts sid player array price i a s = (refl, refl, refl)

check_and_insert_rest :
    (account : ℕ) (name : Text) (s : Server)
    → Ensures
        (λ s'. (s'.auctions ≡ s.auctions) × (s'.player_list ≡ s.player_list))
        (own_list_check_and_insert account name s)
unfolding own_list_check_and_insert
check_and_insert_rest account name s = ground arith

-- A bid of all the points of a player, above the price of somebody else's auction, goes through: the
-- procedure accepts the packet, the auction has the bidder, the price and one bid more and no other
-- auction changes, the player has no points left, and the nickname is in the player's list.
pub proc_req_bid_lem :
    (sid : ℕ) (player : Player) (p : Packet) (s : Server) (array : List ℕ) (name : Text)
    (price i : ℕ) (a : Auction)
    → Accepted player p s array name price i a
    → find s.player_list sid ≡ some player
    → price < 2 ^ 32
    → IsCounted (own_entry player.account_no s.own_list)
    → (s' : Server) × (proc_req_bid sid player p s ≡ ok (true, s'))
      × (s'.auctions
          ≡ set s.auctions i
              (record a { bidder_id = player.account_no; price = price; count = add32 a.count 1 }))
      × (get_elem? s'.auctions i
          ≡ some
              (record a { bidder_id = player.account_no; price = price; count = add32 a.count 1 }))
      × (find s'.player_list sid ≡ some (record player { point = 0 }))
      × (find s'.own_list player.account_no
          ≡ some (entered name (own_entry player.account_no s.own_list)))
      × (has_name (entered name (own_entry player.account_no s.own_list)).nick_names name ≡ true)
unfolding place_bid
proc_req_bid_lem sid player p s array name price i a c here' fits v =
    let told = bid_told sid player array price i a s in
    let (own, auctions, players) = bid_told-parts sid player array price i a s in
    let (s', run, found, counted, listed) =
      check_and_insert_lem player.account_no name told player.account_no
        (subst (λ d. IsCounted (own_entry player.account_no d)) (sym own) v) in
    let (same, same_players) =
      Ensures-eq (λ s'. (s'.auctions ≡ told.auctions) × (s'.player_list ≡ told.player_list)) _ s'
        (check_and_insert_rest player.account_no name told) run in
    let spent : sub32 player.point price ≡ 0 = omega (arith, c.paid) in
    let self : (player.account_no == player.account_no) ≡ true =
      (==_iff player.account_no player.account_no).1 refl in
    (
      s',
      proc_req_bid-place sid player p s array name price i a c ∙ rw run refl,
      same ∙ auctions,
      rw (same, auctions)
          (get_elem?-set_self s.auctions i (bid_on player.account_no price a)
            (lt-length_of_get_elem? s.auctions i a c.held)),
      rw (same_players, players, spent)
          (find-update_self sid (record player { point = 0 }) player s.player_list here'),
      found ∙ rw (self, own) refl,
      rw (← own) listed,
    )
