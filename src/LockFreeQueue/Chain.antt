-- ===== src/LockFreeQueue/Chain.antt =====
-- The nodes and the values that LockFreeQueue.h holds.
use new_name_auction.Prelude.{
  ℕ, suc, ◌+◌, ◌^◌, ◌≤◌, ◌<◌, ◌≡◌, ◌≢◌, refl, sym, ap, ap₂, ◌∙◌, inl, inr, true, false, List, [],
  ◌∷◌, ◌++◌, map, arith, ◌==◌, if◌then◌else◌, Bool-cases, length, count,
}
use new_name_auction.LockFreeStack.{Node, ptr_of, store, pop_word}
use new_name_auction.LockFreeStack.Chain.{NotIn, Distinct, Linked}
use new_name_auction.MemoryPool.{Pool}
use new_name_auction.MemoryPool.Blocks.{IsPool}
use new_name_auction.LockFreeQueue.{Queue, exchange_rear}

-- The nodes from `front` on are `chain`, and `rear` is one of them.
pub record IsChain (q : Queue) (chain : List ℕ) : Type 0 where
  pub linked : Linked q.nodes (ptr_of q.front) chain
  pub distinct : Distinct chain
  pub front_word : q.front < 2 ^ 64
  pub rear_word : q.rear < 2 ^ 64
  pub before : List ℕ
  pub behind : List ℕ
  pub rear_at : chain ≡ before ++ (ptr_of q.rear ∷ behind)

-- The blocks of the pool in use are those of the chain's nodes.
pub record Owns (p : Pool) (chain : List ℕ) : Type 0 where
  pub free : List ℕ
  pub used : List ℕ
  pub is : IsPool p free used
  pub same : (b : ℕ) → count b used ≡ count (b + 24) chain
  pub as_many : length used ≡ length chain
  pub above : (a : ℕ) → 1 ≤ count a chain → 24 ≤ a
  pub fits : (b : ℕ) → 1 ≤ count b free + count b used → (b ≢ 0) × (b + 24 < 2 ^ 48)

abbrev pub data_at : (ℕ → Node) → ℕ → ℕ
data_at nodes a = (nodes a).data_of

-- A queue of values, with the node before the first and those of the values.
pub record IsQueue (q : Queue) (values : List ℕ) : Type 0 where
  pub dummy : ℕ
  pub nodes : List ℕ
  pub chain : IsChain q (dummy ∷ nodes)
  pub owns : Owns q.pool (dummy ∷ nodes)
  pub counted : q.node_count ≡ length nodes
  pub small : length nodes < 2 ^ 31
  pub values_at : values ≡ map (data_at q.nodes) nodes

pub ptr_of-pop_word : (next temp : ℕ) → next < 2 ^ 48 → ptr_of (pop_word next temp) ≡ next
ptr_of-pop_word next temp low = omega (arith, low)

pub pop_word-lt : (next temp : ℕ) → next < 2 ^ 48 → pop_word next temp < 2 ^ 64
pop_word-lt next temp low = omega (arith, low)

pub NotIn-append_left : (a : ℕ) (xs ys : List ℕ) → NotIn a (xs ++ ys) → NotIn a xs
NotIn-append_left a [] ys out = tt
NotIn-append_left a (x ∷ xs) ys out = (out.0, NotIn-append_left a xs ys out.1)

pub NotIn-append_right : (a : ℕ) (xs ys : List ℕ) → NotIn a (xs ++ ys) → NotIn a ys
NotIn-append_right a [] ys out = out
NotIn-append_right a (x ∷ xs) ys out = NotIn-append_right a xs ys out.1

pub NotIn-append : (a : ℕ) (xs ys : List ℕ) → NotIn a xs → NotIn a ys → NotIn a (xs ++ ys)
NotIn-append a [] ys out out' = out'
NotIn-append a (x ∷ xs) ys out out' = (out.0, NotIn-append a xs ys out.1 out')

pub Distinct-append : (xs : List ℕ) (a : ℕ) → Distinct xs → NotIn a xs → Distinct (xs ++ (a ∷ []))
Distinct-append [] a d out = (tt, tt)
Distinct-append (x ∷ xs) a d out =
    (NotIn-append x xs (a ∷ []) d.0 ((λ e. out.0 (sym e)), tt), Distinct-append xs a d.1 out.1)

-- A node that stands somewhere is an address of 48 bits, and what is behind it follows.
pub Linked-at :
    (heap : ℕ → Node) (p a : ℕ) (ys zs : List ℕ)
    → Linked heap p (ys ++ (a ∷ zs))
    → (a ≢ 0) × (a < 2 ^ 48) × Linked heap (heap a).next zs
Linked-at heap p a [] zs l = (l.1, l.2, l.3)
Linked-at heap p a (y ∷ ys) zs l = Linked-at heap (heap y).next a ys zs l.3

-- The last node gets a successor.
pub Linked-link :
    (heap : ℕ → Node) (p r a : ℕ) (ys : List ℕ)
    → Linked heap p (ys ++ (r ∷ []))
    → Distinct (ys ++ (r ∷ []))
    → a ≢ 0
    → a < 2 ^ 48
    → a ≢ r
    → (heap a).next ≡ 0
    → Linked (store r (record (heap r) { next = a }) heap) p ((ys ++ (r ∷ [])) ++ (a ∷ []))
Linked-link heap p r a [] l d some_node low differ end =
    let self : (r == r) ≡ true = ground arith in
    let other : (a == r) ≡ false = ground (arith, differ) in
    (l.0, l.1, l.2, rw self (refl, some_node, low, rw other end))
Linked-link heap p r a (y ∷ ys) l d some_node low differ end =
    let other : (y == r) ≡ false = ground (arith, (NotIn-append_right y ys (r ∷ []) d.0).0) in
    (
      l.0,
      l.1,
      l.2,
      rw other (Linked-link heap (heap y).next r a ys l.3 d.1 some_node low differ end),
    )

-- What the values are after a write to a node that holds none of them, or of a next.
pub map-store :
    (a : ℕ) (node : Node) (heap : ℕ → Node) (xs : List ℕ)
    → NotIn a xs
    → map (data_at (store a node heap)) xs ≡ map (data_at heap) xs
map-store a node heap [] out = refl
map-store a node heap (x ∷ xs) out =
    let other : (x == a) ≡ false = ground (arith, λ (e : x ≡ a). out.0 (sym e)) in
    ap₂ ◌∷◌ (ap (λ b. (if b then node else heap x).data_of) other) (map-store a node heap xs out.1)

pub map-store_next :
    (r a : ℕ) (heap : ℕ → Node) (xs : List ℕ)
    → map (data_at (store r (record (heap r) { next = a }) heap)) xs ≡ map (data_at heap) xs
map-store_next r a heap [] = refl
map-store_next r a heap (x ∷ xs) = ap₂ ◌∷◌ same (map-store_next r a heap xs)
  where
    same : data_at (store r (record (heap r) { next = a }) heap) x ≡ data_at heap x
    same = elim (Bool-cases (x == r)) [
      | inl here ↦
          ap (λ b. (if b then record (heap r) { next = a } else heap x).data_of) here
          ∙ ap (data_at heap) (sym (ground (arith, here)))
      | inr other ↦ ap (λ b. (if b then record (heap r) { next = a } else heap x).data_of) other
    ]

pub length-map_data : (f : ℕ → ℕ) (xs : List ℕ) → length (map f xs) ≡ length xs
length-map_data f [] = refl
length-map_data f (x ∷ xs) = ap suc (length-map_data f xs)

-- The exchange of `rear` with nobody between.
pub exchange_rear-moved :
    (next : ℕ) (q : Queue) → exchange_rear next q.rear q ≡ record q { rear = pop_word next q.rear }
exchange_rear-moved next q = let self : (q.rear == q.rear) ≡ true = ground arith in rw self refl
