-- ===== src/Auction/Growth.antt =====
-- How an auction may change over the operations of AuctionServer.cpp: not in its owner, its nickname
-- or its start, and not to a lower price.
pub mod Handlers
pub mod Jobs
pub mod Cycle
use new_name_auction.Prelude.{
  ℕ, ◌≤◌, ◌≡◌, ◌∙◌, List, ◌++◌, some, arith, bias32, get_elem?, set, length, get_elem?-append,
  get_elem?-set_self, get_elem?-set_ne, lt-length_of_get_elem?,
}
use native.Mathlib.Decide.{ℕ_discrete}
use new_name_auction.Auction.State.{Auction}

pub record Advances (a b : Auction) : Type 0 where
  pub owner : b.owner_id ≡ a.owner_id
  pub name : b.nick_name ≡ a.nick_name
  pub started : b.start_time ≡ a.start_time
  pub raised : bias32 a.price ≤ bias32 b.price

-- Every auction of the first list has advanced to the one at its place in the second.
abbrev pub Grows : List Auction → List Auction → Type 0
Grows before after =
    (i : ℕ) (a : Auction)
    → get_elem? before i ≡ some a
    → (b : Auction) × (get_elem? after i ≡ some b) × Advances a b

pub Advances-refl : (a : Auction) → Advances a a
Advances-refl a = ground arith

pub Grows-refl : (before after : List Auction) → after ≡ before → Grows before after
Grows-refl before after e i a h = (a, ground arith, Advances-refl a)

pub Grows-trans : (x y z : List Auction) → Grows x y → Grows y z → Grows x z
Grows-trans x y z g h i a e =
    let (b, eb, ab) = g i a e in let (c, ec, bc) = h i b eb in (c, ec, ground arith)

pub Grows-append : (x : List Auction) (y : List Auction) → Grows x (x ++ y)
Grows-append x y i a e = (a, get_elem?-append x y i a e, Advances-refl a)

pub Grows-set :
    (x : List Auction) (k : ℕ) (a b : Auction)
    → get_elem? x k ≡ some a
    → Advances a b
    → Grows x (set x k b)
Grows-set x k a b e h i c q = elim (ℕ_discrete k i) [
  | yes same ↦
      (b, ground (arith, get_elem?-set_self x k b, lt-length_of_get_elem? x k a e), ground arith)
  | no other ↦ (c, get_elem?-set_ne x k i b other ∙ q, Advances-refl c)
]
