-- ===== src/LockFreeStack/Chain.antt =====
-- The nodes that LockFreeStack.h holds, from the top on.
use new_name_auction.Prelude.{
  ℕ, ◌^◌, ◌<◌, ◌≡◌, ◌≢◌, refl, sym, false, List, [], ◌∷◌, ◌++◌, arith, ◌==◌,
}
use new_name_auction.LockFreeStack.{Node, Stack, ptr_of, store}

abbrev pub NotIn : ℕ → List ℕ → Type 0
NotIn a [] = Unit
NotIn a (x ∷ xs) = (a ≢ x) × NotIn a xs

abbrev pub Distinct : List ℕ → Type 0
Distinct [] = Unit
Distinct (x ∷ xs) = NotIn x xs × Distinct xs

-- From `p` on the nodes are `xs`, each at an address of 48 bits.
abbrev pub Linked : (ℕ → Node) → ℕ → List ℕ → Type 0
Linked heap p [] = p ≡ 0
Linked heap p (x ∷ xs) = (p ≡ x) × (x ≢ 0) × (x < 2 ^ 48) × Linked heap (heap x).next xs

pub record IsStack (s : Stack) (xs : List ℕ) : Type 0 where
  pub linked : Linked s.heap (ptr_of s.top) xs
  pub distinct : Distinct xs
  pub word : s.top < 2 ^ 64

pub Linked-store :
    (a : ℕ) (node : Node) (heap : ℕ → Node) (p : ℕ) (xs : List ℕ)
    → NotIn a xs
    → Linked heap p xs
    → Linked (store a node heap) p xs
Linked-store a node heap p [] out l = l
Linked-store a node heap p (x ∷ xs) out l =
    let other : (x == a) ≡ false = ground (arith, λ (e : x ≡ a). out.0 (sym e)) in
    (l.0, l.1, l.2, rw other (Linked-store a node heap (heap x).next xs out.1 l.3))

-- The address that follows depends on the nodes alone.
abbrev pub first_of : List ℕ → ℕ
first_of [] = 0
first_of (x ∷ xs) = x

pub first_of-Linked : (heap : ℕ → Node) (p : ℕ) (xs : List ℕ) → Linked heap p xs → p ≡ first_of xs
first_of-Linked heap p [] l = l
first_of-Linked heap p (x ∷ xs) l = l.0

pub Linked-next :
    (heap : ℕ → Node) (p a : ℕ) (ys xs : List ℕ)
    → Linked heap p (ys ++ (a ∷ xs))
    → Linked heap (heap a).next xs
Linked-next heap p a [] xs l = l.3
Linked-next heap p a (y ∷ ys) xs l = Linked-next heap (heap y).next a ys xs l.3

pub not-NotIn : (a : ℕ) (ys xs : List ℕ) → NotIn a (ys ++ (a ∷ xs)) → ⊥
not-NotIn a [] xs out = out.0 refl
not-NotIn a (y ∷ ys) xs out = not-NotIn a ys xs out.1
