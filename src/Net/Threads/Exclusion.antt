-- ===== src/Net/Threads/Exclusion.antt =====
-- Which of the threads at a session (CNetServer.cpp) has it to itself: from a successful
-- compare-and-swap of releaseSession until the flag is restored or the index pushed, and from the pop of
-- AcceptThread until it clears the flag.
use new_name_auction.Prelude.{
  ℕ, ◌+◌, ◌≤◌, ◌<◌, ◌^◌, ◌≡◌, ◌≢◌, refl, Bool, true, false, List, [], ◌∷◌, ◌++◌, arith, length, All,
}
use new_name_auction.Net.Threads.{
  Phase, compares, won, took, wrong, restores, cleans, invalidated, logged, opens, named, raised,
  validated, tests, opened, leaves, requested, counted, unflagged, holds, drops, uses,
}

abbrev pub owns : Phase → ℕ
owns (won _) = 1
owns (took _ _) = 1
owns (wrong _) = 1
owns (restores _) = 1
owns (cleans _) = 1
owns (invalidated _) = 1
owns (logged _) = 1
owns (opens _) = 1
owns (named _) = 1
owns (raised _) = 1
owns (validated _) = 1
owns _ = 0

-- The sum over the threads.
unfoldable pub total : (Phase → ℕ) → List Phase → ℕ
total f [] = 0
total f (t ∷ ts) = f t + total f ts

-- What the owner knows of isValid, of releaseFlag and of the identifier.
abbrev pub Fits : Bool → Bool → ℕ → Phase → Type 0
Fits valid released id (won sid) = (valid ≡ true) × (released ≡ true)
Fits valid released id (took sid temp_id) = (valid ≡ true) × (released ≡ true)
Fits valid released id (wrong temp_id) = (valid ≡ true) × (released ≡ true)
Fits valid released id (restores temp_id) = (valid ≡ true) × (released ≡ true)
Fits valid released id (cleans sid) = (id ≡ sid) × (released ≡ true)
Fits valid released id (invalidated sid) = (id ≡ sid) × (released ≡ true) × (valid ≡ false)
Fits valid released id (logged sid) = (released ≡ true) × (valid ≡ false)
Fits valid released id (opens sid) = valid ≡ false
Fits valid released id (named sid) = (valid ≡ false) × (id ≡ sid)
Fits valid released id (raised sid) = (valid ≡ false) × (id ≡ sid)
Fits valid released id (validated sid) = (valid ≡ true) × (id ≡ sid)
Fits valid released id _ = Unit

-- A thread of releaseSession whose comparison cannot succeed on a flag that is clear, while another has
-- the session.
abbrev pub Harmless : Bool → Phase → Type 0
Harmless valid (tests sid) = valid ≡ true
Harmless valid (compares sid temp) = temp ≢ 0
Harmless valid _ = Unit

-- The count that releaseSession has read is not negative.
abbrev pub Bounded : Phase → Type 0
Bounded (compares sid temp) = temp < 2 ^ 31
Bounded _ = Unit

pub none-Fits : (t : Phase) (v r : Bool) (id : ℕ) → owns t ≡ 0 → Fits v r id t
none-Fits (won _) v r id h = absurd (omega (arith, h))
none-Fits (took _ _) v r id h = absurd (omega (arith, h))
none-Fits (wrong _) v r id h = absurd (omega (arith, h))
none-Fits (restores _) v r id h = absurd (omega (arith, h))
none-Fits (cleans _) v r id h = absurd (omega (arith, h))
none-Fits (invalidated _) v r id h = absurd (omega (arith, h))
none-Fits (logged _) v r id h = absurd (omega (arith, h))
none-Fits (opens _) v r id h = absurd (omega (arith, h))
none-Fits (named _) v r id h = absurd (omega (arith, h))
none-Fits (raised _) v r id h = absurd (omega (arith, h))
none-Fits (validated _) v r id h = absurd (omega (arith, h))
none-Fits _ v r id h = tt

-- An owner that finds the session valid and its flag clear has a use of it.
owner_uses : (t : Phase) (id : ℕ) → Fits true false id t → owns t ≤ uses t
owner_uses (won _) id (_, r) = ground (arith, r)
owner_uses (took _ _) id (_, r) = ground (arith, r)
owner_uses (wrong _) id (_, r) = ground (arith, r)
owner_uses (restores _) id _ = omega arith
owner_uses (cleans _) id (_, r) = ground (arith, r)
owner_uses (invalidated _) id (_, r, _) = ground (arith, r)
owner_uses (logged _) id (r, _) = ground (arith, r)
owner_uses (opens _) id v = ground (arith, v)
owner_uses (named _) id (v, _) = ground (arith, v)
owner_uses (raised _) id _ = omega arith
owner_uses (validated _) id _ = omega arith
owner_uses _ id _ = omega arith

pub owners_use :
    (ts : List Phase) (id : ℕ) → All (Fits true false id) ts → total owns ts ≤ total uses ts
unfolding total
owners_use [] id f = omega arith
owners_use (t ∷ ts) id (f, fs) = omega (arith, owner_uses t id f, owners_use ts id fs)

pub none-All : (ts : List Phase) (v r : Bool) (id : ℕ) → total owns ts ≡ 0 → All (Fits v r id) ts
unfolding total
none-All [] v r id h = tt
none-All (t ∷ ts) v r id h =
    (none-Fits t v r id (omega (arith, h)), none-All ts v r id (omega (arith, h)))

open-Harmless : (t : Phase) (v : Bool) → Harmless v t → Harmless true t
open-Harmless (tests _) v h = refl
open-Harmless (compares _ _) v h = h
open-Harmless _ v h = tt

pub All-opened : (ts : List Phase) (v : Bool) → All (Harmless v) ts → All (Harmless true) ts
All-opened [] v h = tt
All-opened (t ∷ ts) v (h, hs) = (open-Harmless t v h, All-opened ts v hs)

uses_once : (t : Phase) → uses t ≤ 1
uses_once (counted _) = omega arith
uses_once (unflagged _) = omega arith
uses_once (holds _) = omega arith
uses_once leaves = omega arith
uses_once requested = omega arith
uses_once (restores _) = omega arith
uses_once (drops _) = omega arith
uses_once (raised _) = omega arith
uses_once (validated _) = omega arith
uses_once opened = omega arith
uses_once _ = omega arith

pub uses_fewer : (ts : List Phase) → total uses ts ≤ length ts
unfolding total
uses_fewer [] = omega arith
uses_fewer (t ∷ ts) = omega (arith, uses_once t, uses_fewer ts)

pub total-append :
    (f : Phase → ℕ) (ts us : List Phase) → total f (ts ++ us) ≡ total f ts + total f us
unfolding total
total-append f [] us = omega arith
total-append f (t ∷ ts) us = omega (arith, total-append f ts us)
