-- ===== src/Auction/Growth/Handlers.antt =====
-- Growth of the auctions through the packet procedures and the jobs of the logic thread.
use new_name_auction.Prelude.{
  ℕ, ◌≤◌, Bool, false, ◌≡◌, refl, sym, subst, inl, inr, List, [], ◌∷◌, some, arith, bias32, sle32,
  get_elem?, need, Ensures, Ensures-bind, Ensures-eq, Ensures-of, Dict, Bool-cases,
}
use new_name_auction.Packet.{Packet}
use new_name_auction.Auction.State.{Server, Player, Auction, call_net, enqueue_db}
use new_name_auction.Auction.Message.{send_res_search, send_res_bid, send_res_bid_set}
use new_name_auction.Auction.OwnList.{own_list_check_and_insert}
use new_name_auction.Auction.Text.{Text, c_string, occurs_in}
use new_name_auction.Auction.Handlers.{
  proc_req_sale, proc_req_search, search_list, send_search_result, bid_told, place_bid,
  proc_req_bid, proc_req_change_nickname, get_name, bid_on,
}
use new_name_auction.Auction.Bid.{Outcomes, refused, ignored, placed, bid-Outcomes}
use new_name_auction.Auction.Growth.{Grows, Grows-refl, Grows-set}

-- An operation that changes neither the auctions nor the queue of the logic thread.
abbrev pub Same : Server → Server → Type 0
Same s s' = (s'.auctions ≡ s.auctions) × (s'.job_queue ≡ s.job_queue)

pub sale-Same :
    (sid : ℕ) (player : Player) (p : Packet) (s : Server)
    → Ensures (λ r. Same s r.1) (proc_req_sale sid player p s)
unfolding proc_req_sale enqueue_db
sale-Same sid player p s = ground arith

pub change-Same :
    (sid : ℕ) (player : Player) (p : Packet) (s : Server)
    → Ensures (λ r. Same s r.1) (proc_req_change_nickname sid player p s)
unfolding proc_req_change_nickname enqueue_db
change-Same sid player p s = ground arith

check_and_insert-Same :
    (account : ℕ) (name : Text) (s : Server)
    → Ensures (Same s) (own_list_check_and_insert account name s)
unfolding own_list_check_and_insert
check_and_insert-Same account name s = ground arith

search_list-Same :
    (s0 : Server) (sid : ℕ) (player : Player) (name : Text) (d : Dict Text ℕ) (s : Server)
    → Same s0 s
    → Ensures (Same s0) (search_list sid player name d s)
unfolding search_list send_search_result send_res_search call_net
search_list-Same s0 sid player name [] s e = e
search_list-Same s0 sid player name ((key, i) ∷ d) s e = elim (Bool-cases (occurs_in name key)) [
  | inl hit ↦
      rw (hit, search_list)
        (Ensures-bind (Same s0) (need (get_elem? s.auctions i)) _
          λ a _. search_list-Same s0 sid player name d (send_search_result sid player a s) e)
  | inr miss ↦ rw (miss, search_list) (search_list-Same s0 sid player name d s e)
]

pub search-Same :
    (sid : ℕ) (player : Player) (p : Packet) (s : Server)
    → Ensures (λ r. Same s r.1) (proc_req_search sid player p s)
unfolding proc_req_search
search-Same sid player p s =
    Ensures-bind (λ r. Same s r.1) (need (get_name p).0) _
      λ array _.
        Ensures-bind (λ r. Same s r.1) (need (c_string array)) _
          λ name _.
            Ensures-bind (λ r. Same s r.1) (search_list sid player name s.cell_list s) _
              λ s' e.
                Ensures-bind (λ r. Same s r.1) (search_list sid player name s'.imminent_list s') _
                  λ s'' e'.
                    Ensures-eq (Same s) _ s''
                      (search_list-Same s sid player name s'.imminent_list s' (
                        Ensures-eq (Same s) _ s'
                          (search_list-Same s sid player name s.cell_list s (refl, refl)) e))
                      e'

-- A bid that passed the checks raises the price of its auction and changes no other.
place_bid-Grows :
    (sid : ℕ) (player : Player) (array : List ℕ) (name : Text) (price i : ℕ) (a : Auction)
    (s : Server)
    → get_elem? s.auctions i ≡ some a
    → bias32 a.price ≤ bias32 price
    → Ensures (λ r. Grows s.auctions r.1.auctions) (place_bid sid player array name price i a s)
unfolding place_bid bid_told send_res_bid send_res_bid_set call_net
place_bid-Grows sid player array name price i a s found raised =
    Ensures-bind (λ r. Grows s.auctions r.1.auctions)
      (own_list_check_and_insert player.account_no name told) _
      λ s' e.
        subst (Grows s.auctions)
          (sym
            (Ensures-eq (Same told) _ s' (check_and_insert-Same player.account_no name told) e).0)
          (Grows-set s.auctions i a (bid_on player.account_no price a) found (ground arith))
  where
    told : Server
    told = bid_told sid player array price i a s

pub bid-Grows :
    (sid : ℕ) (player : Player) (p : Packet) (s : Server)
    → Ensures (λ r. Grows s.auctions r.1.auctions) (proc_req_bid sid player p s)
bid-Grows sid player p s =
    Ensures-of (λ r. Grows s.auctions r.1.auctions) _
      λ r e. outcome r (Ensures-eq (Outcomes sid player p s) _ r (bid-Outcomes sid player p s) e)
  where
    raises : (price : ℕ) (a : Auction) → sle32 price a.price ≡ false → bias32 a.price ≤ bias32 price
    raises price a e = ground arith

    outcome : (r : Bool × Server) → Outcomes sid player p s r → Grows s.auctions r.1.auctions
    outcome r (refused price ep ne er) = Grows-refl s.auctions r.1.auctions (ground arith)
    outcome r (ignored er) = Grows-refl s.auctions r.1.auctions (ground arith)
    outcome r (placed array name price i a ok' er) =
        Ensures-eq (λ t. Grows s.auctions t.1.auctions) _ r
          (place_bid-Grows sid player array name price i a s ok'.held (raises price a ok'.raised))
          er

-- A bid leaves the queue alone.
pub bid_queue :
    (sid : ℕ) (player : Player) (p : Packet) (s : Server)
    → Ensures (λ r. r.1.job_queue ≡ s.job_queue) (proc_req_bid sid player p s)
unfolding place_bid bid_told send_res_bid send_res_bid_set call_net
bid_queue sid player p s =
    Ensures-of (λ r. r.1.job_queue ≡ s.job_queue) _
      λ r e. outcome r (Ensures-eq (Outcomes sid player p s) _ r (bid-Outcomes sid player p s) e)
  where
    told : List ℕ → ℕ → ℕ → Auction → Server
    told array price i a = bid_told sid player array price i a s

    outcome : (r : Bool × Server) → Outcomes sid player p s r → r.1.job_queue ≡ s.job_queue
    outcome r (refused price ep ne er) = ground arith
    outcome r (ignored er) = ground arith
    outcome r (placed array name price i a ok' er) =
        Ensures-eq (λ t. t.1.job_queue ≡ s.job_queue) _ r
          (Ensures-bind (λ t. t.1.job_queue ≡ s.job_queue)
            (own_list_check_and_insert player.account_no name (told array price i a)) _
            λ s' e'.
              (Ensures-eq (Same (told array price i a)) _ s'
                (check_and_insert-Same player.account_no name (told array price i a)) e').1)
          er
