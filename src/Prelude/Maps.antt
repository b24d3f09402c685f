-- ===== src/Prelude/Maps.antt =====
-- `std::unordered_map` as an association list: the order of the list is the order of iteration.
use mathlib.Core.Path.{◌≡◌, refl}
use mathlib.Core.Bool.{false}
use mathlib.Core.Option.{Option, none, some}
use mathlib.Core.List.{List, [], ◌∷◌}
use native.Mathlib.Omega.{arith}
use new_name_auction.Prelude.Tests.{Eq, if◌then◌else◌}

abbrev pub Dict {ℓ κ} : Type ℓ → Type κ → Type (ℓ ⊔ κ)
Dict K V = List (K × V)

module _ {ℓ κ} {K : Type ℓ} {V : Type κ} ⦃e : Eq K⦄ where
  abbrev pub find : Dict K V → K → Option V
  find [] k = none
  find ((j, v) ∷ m) k = if e.beq j k then some v else find m k

  abbrev pub erase : K → Dict K V → Dict K V
  erase k [] = []
  erase k ((j, v) ∷ m) = if e.beq j k then m else (j, v) ∷ erase k m

  -- `insert` of a key that is there changes nothing.
  abbrev pub insert : K → V → Dict K V → Dict K V
  insert k v m = elim (find m k) [ none ↦ (k, v) ∷ m | some _ ↦ m ]

  -- A write through the reference or the pointer that a key leads to.
  abbrev pub update : K → V → Dict K V → Dict K V
  update k v [] = []
  update k v ((j, w) ∷ m) = if e.beq j k then (j, v) ∷ m else (j, w) ∷ update k v m

  pub find-insert_new :
      (k : K) (v : V) (m : Dict K V) → find m k ≡ none → find (insert k v m) k ≡ some v
  find-insert_new k v m h = ground (arith, e.beq_iff k k)

  pub find-update_self :
      (k : K) (v w : V) (m : Dict K V) → find m k ≡ some w → find (update k v m) k ≡ some v
  find-update_self k v w [] h = cc
  find-update_self k v w ((j, u) ∷ m) h = ground (arith, e.beq_iff j k, find-update_self k v w m)

  pub find-update_ne :
      (k l : K) (v : V) (m : Dict K V) → e.beq k l ≡ false → find (update k v m) l ≡ find m l
  find-update_ne k l v [] h = refl
  find-update_ne k l v ((j, u) ∷ m) h =
      ground (arith, e.beq_iff j k, e.beq_iff j l, e.beq_iff k l, find-update_ne k l v m)

  pub find-insert_ne :
      (k l : K) (v : V) (m : Dict K V) → e.beq k l ≡ false → find (insert k v m) l ≡ find m l
  find-insert_ne k l v m h = ground arith
