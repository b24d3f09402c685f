-- ===== src/Prelude/Faults.antt =====
-- Outcomes of code that can go wrong in a way C++ does not define: `fault` is a read of a variable
-- that nothing has written, an iterator past the end, or the abort of a checked string copy.
use mathlib.Core.Path.{◌≡◌, refl, subst}
use mathlib.Core.Option.{Option, none, some}
use mathlib.Core.Bool.{Bool, true, false}
use mathlib.Core.List.{List, [], ◌∷◌}
use new_name_auction.Prelude.Tests.{if◌then◌else◌}

pub data Outcome {ℓ} (A : Type ℓ) : Type ℓ where
  ok : A → Outcome A
  fault : Outcome A

infixl 5 ◌>>=◌
abbrev pub ◌>>=◌ {ℓ κ} : {A : Type ℓ} {R : Type κ} → Outcome A → (A → Outcome R) → Outcome R
fault >>= next = fault
ok value >>= next = next value

-- A value that has to be there.
abbrev pub need {ℓ} : {A : Type ℓ} → Option A → Outcome A
need none = fault
need (some a) = ok a

-- Continuations that agree on the value there is.
pub >>=-congr {ℓ κ} :
    {A : Type ℓ} {R : Type κ} (m : Outcome A) (f g : A → Outcome R)
    → ((a : A) → m ≡ ok a → f a ≡ g a)
    → (m >>= f) ≡ (m >>= g)
>>=-congr (ok a) f g h = h a refl
>>=-congr fault f g h = refl

-- What holds of the value, if there is one.
abbrev pub Ensures {ℓ κ} : {A : Type ℓ} → (A → Type κ) → Outcome A → Type κ
Ensures P (ok a) = P a
Ensures P fault = Unit

pub Ensures-bind {ℓ κ ℓ'} :
    {A : Type ℓ} {B : Type κ} (P : B → Type ℓ') (m : Outcome A) (f : A → Outcome B)
    → ((a : A) → m ≡ ok a → Ensures P (f a))
    → Ensures P (m >>= f)
Ensures-bind P (ok a) f h = h a refl
Ensures-bind P fault f h = tt

pub Ensures-eq {ℓ κ} :
    {A : Type ℓ} (P : A → Type κ) (m : Outcome A) (a : A) → Ensures P m → m ≡ ok a → P a
Ensures-eq P (ok b) a h e = subst P (ok-injective e) h
  where
    ok-injective : ok b ≡ ok a → b ≡ a
    ok-injective e = cc
Ensures-eq P fault a h e = cc

-- What the value of a step satisfies, for the step that follows.
pub Ensures-then {ℓ κ ℓ' κ'} :
    {A : Type ℓ} {B : Type κ} (P : A → Type ℓ') (Q : B → Type κ') (m : Outcome A)
    (f : A → Outcome B)
    → Ensures P m
    → ((a : A) → P a → Ensures Q (f a))
    → Ensures Q (m >>= f)
Ensures-then P Q (ok a) f h k = k a h
Ensures-then P Q fault f h k = tt

pub Ensures-of {ℓ κ} :
    {A : Type ℓ} (P : A → Type κ) (m : Outcome A) → ((a : A) → m ≡ ok a → P a) → Ensures P m
Ensures-of P (ok a) h = h a refl
Ensures-of P fault h = tt

pub Ensures-if {ℓ κ} :
    {A : Type ℓ} (P : A → Type κ) (b : Bool) (m n : Outcome A)
    → (b ≡ true → Ensures P m)
    → (b ≡ false → Ensures P n)
    → Ensures P (if b then m else n)
Ensures-if P true m n h k = h refl
Ensures-if P false m n h k = k refl

pub Ensures-option {ℓ κ ℓ'} :
    {A : Type ℓ} {B : Type ℓ'} (P : A → Type κ) (o : Option B) (m : Outcome A) (f : B → Outcome A)
    → (o ≡ none → Ensures P m)
    → ((b : B) → o ≡ some b → Ensures P (f b))
    → Ensures P (elim o [ none ↦ m | some b ↦ f b ])
Ensures-option P none m f h k = h refl
Ensures-option P (some b) m f h k = k b refl

pub Ensures-list {ℓ κ ℓ'} :
    {A : Type ℓ} {B : Type ℓ'} (P : A → Type κ) (l : List B) (m : Outcome A)
    (f : B → List B → Outcome A)
    → (l ≡ [] → Ensures P m)
    → ((b : B) (r : List B) → l ≡ b ∷ r → Ensures P (f b r))
    → Ensures P (elim l [ [] ↦ m | b ∷ r ↦ f b r ])
Ensures-list P [] m f h k = h refl
Ensures-list P (b ∷ r) m f h k = k b r refl
