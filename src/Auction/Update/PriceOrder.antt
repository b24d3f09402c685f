-- ===== src/Auction/Update/PriceOrder.antt =====
-- The sweep of CellList_PriceOrder (AuctionServer.cpp).
use new_name_auction.Prelude.{
  ℕ, ◌≤◌, ◌≡◌, inl, inr, false, List, [], ◌∷◌, some, arith, bias32, get_elem?, ok, need, Ensures,
  Ensures-bind, Ensures-eq, Bool-cases, All, if◌then◌else◌,
}
use new_name_auction.Auction.State.{Auction}
use new_name_auction.Auction.Update.{finished, trim_price_order}

-- No key is above `top`, and none is above the key before it.
abbrev pub Descending : ℕ → List (ℕ × ℕ) → Type 0
Descending top [] = Unit
Descending top ((key, i) ∷ rest) = (bias32 key ≤ top) × Descending (bias32 key) rest

Descending-mono : (x y : ℕ) (l : List (ℕ × ℕ)) → x ≤ y → Descending x l → Descending y l
Descending-mono x y [] h d = tt
Descending-mono x y ((key, i) ∷ l) h d = (omega arith, d.1)

-- The entry is of an auction that is not over.
abbrev pub IsOpen : List Auction → ℕ × ℕ → Type 0
IsOpen auctions (key, i) =
    (a : Auction) × (get_elem? auctions i ≡ some a) × (finished a.status ≡ false)

-- A swept list.
abbrev Trimmed : List Auction → ℕ → List (ℕ × ℕ) → Type 0
Trimmed auctions top kept = Descending top kept × All (IsOpen auctions) kept

trim_one :
    (auctions : List Auction) (top key i : ℕ) (a : Auction) (kept : List (ℕ × ℕ))
    → bias32 key ≤ top
    → get_elem? auctions i ≡ some a
    → Trimmed auctions (bias32 key) kept
    → Trimmed auctions top (if finished a.status then kept else (key, i) ∷ kept)
trim_one auctions top key i a kept h e t = elim (Bool-cases (finished a.status)) [
  | inl over ↦ rw over (Descending-mono (bias32 key) top kept h t.0, t.1)
  | inr running ↦ rw running ((h, t.0), ((a, e, running), t.1))
]

trimmed :
    (auctions : List Auction) (top : ℕ) (l : List (ℕ × ℕ))
    → Descending top l
    → Ensures (Trimmed auctions top) (trim_price_order auctions l)
unfolding trim_price_order
trimmed auctions top [] d = (tt, tt)
trimmed auctions top ((key, i) ∷ l) d =
    Ensures-bind (Trimmed auctions top) (need (get_elem? auctions i)) _ λ a e.
      Ensures-bind (Trimmed auctions top) (trim_price_order auctions l) _ λ kept t.
        trim_one auctions top key i a kept d.0 (ground arith) (
          Ensures-eq (Trimmed auctions (bias32 key)) _ kept (trimmed auctions (bias32 key) l d.1) t)

-- What the sweep of CellList_PriceOrder keeps is in order still, and every entry is of an auction that
-- is not over.
pub trim_price_order_lem :
    (auctions : List Auction) (top : ℕ) (l kept : List (ℕ × ℕ))
    → Descending top l
    → trim_price_order auctions l ≡ ok kept
    → Descending top kept × All (IsOpen auctions) kept
trim_price_order_lem auctions top l kept d e =
    Ensures-eq (Trimmed auctions top) _ kept (trimmed auctions top l d) e
