-- ===== src/Auction/Bid.antt =====
-- packetProc_CS_AUCTION_REQ_BID of AuctionServer.cpp: every outcome of a bid.
pub mod Placed
use new_name_auction.Prelude.{
  ℕ, Bool, true, false, ◌≡◌, ◌≢◌, refl, inl, inr, ◌⊎◌, List, Option, none, some, arith, sle32, ◌||◌,
  ◌==◌, not, get_elem?, Outcome, ok, need, ◌>>=◌, Ensures, Ensures-bind, Ensures-if, Ensures-option,
  Ensures-eq, Ensures-of, if◌then◌else◌,
}
use new_name_auction.Packet.{Packet, get_int}
use new_name_auction.Auction.State.{Server, Player, Auction}
use new_name_auction.Auction.Text.{Text, c_string}
use new_name_auction.Auction.Handlers.{get_name, find_auction, place_bid, proc_req_bid}

-- A bid that the checks let through: `i` is the auction of that name, `a` what it holds.
pub record Accepted (player : Player) (p : Packet) (s : Server) (array : List ℕ) (name : Text)
    (price i : ℕ) (a : Auction) : Type 0 where
  pub array_read : (get_name p).0 ≡ some array
  pub name_read : c_string array ≡ some name
  pub price_read : (get_int (get_name p).1).0 ≡ some price
  pub listed : find_auction name s ≡ some i
  pub held : get_elem? s.auctions i ≡ some a
  pub paid : player.point ≡ price
  pub raised : sle32 price a.price ≡ false
  pub not_owner : a.owner_id ≢ player.account_no

-- The session is thrown out with nothing changed, nothing happens, or the bid is placed.
pub data Outcomes (sid : ℕ) (player : Player) (p : Packet) (s : Server) (r : Bool × Server)
    : Type 0 where
  refused :
      (price : ℕ)
      → (get_int (get_name p).1).0 ≡ some price
      → player.point ≢ price
      → r ≡ (false, s)
      → Outcomes sid player p s r
  ignored : r ≡ (true, s) → Outcomes sid player p s r
  placed :
      (array : List ℕ) (name : Text) (price i : ℕ) (a : Auction)
      → Accepted player p s array name price i a
      → place_bid sid player array name price i a s ≡ ok r
      → Outcomes sid player p s r

pub bid-Outcomes :
    (sid : ℕ) (player : Player) (p : Packet) (s : Server)
    → Ensures (Outcomes sid player p s) (proc_req_bid sid player p s)
unfolding proc_req_bid
bid-Outcomes sid player p s = Ensures-bind P (need (get_int (get_name p).1).0) _ λ price ep.
    Ensures-if P (not (player.point == price)) _ _
      (λ e. refused price (ground arith) (ground arith) refl)
      λ e. Ensures-bind P (need (get_name p).0) _ λ array ea.
        Ensures-bind P (need (c_string array)) _ λ name en.
          Ensures-option P (find_auction name s) _ _ (λ _. ignored refl)
            λ i ei. Ensures-bind P (need (get_elem? s.auctions i)) _ λ a eg.
              Ensures-if P (sle32 price a.price || (a.owner_id == player.account_no)) _ _
                (λ _. ignored refl)
                λ pass. Ensures-of P _ λ r er.
                  placed array name price i a
                    (record {
                      array_read = ground arith;
                      name_read = ground arith;
                      price_read = ground arith;
                      listed = ei;
                      held = ground arith;
                      paid = ground arith;
                      raised = ground arith;
                      not_owner = ground arith;
                    })
                    er
  where
    P : Bool × Server → Type 0
    P = Outcomes sid player p s

-- Where the procedure of a bid returns, the player's points are not the price and the session is thrown
-- out with nothing changed, or nothing changes, or the bid has passed all the checks and is placed.
pub proc_req_bid-Outcomes :
    (sid : ℕ) (player : Player) (p : Packet) (s : Server) (r : Bool × Server)
    → proc_req_bid sid player p s ≡ ok r
    → Outcomes sid player p s r
proc_req_bid-Outcomes sid player p s r e =
    Ensures-eq (Outcomes sid player p s) _ r (bid-Outcomes sid player p s) e
