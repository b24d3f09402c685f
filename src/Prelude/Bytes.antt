-- ===== src/Prelude/Bytes.antt =====
-- Reads and writes of stretches of a buffer: `read_at` and `write_at`, the copies that memcpy makes.
use Prim.Native.Nat.{ℕ, zero, suc, ◌+◌, ◌-◌, ◌≤◌}
use mathlib.Core.Path.{sym, ◌≡◌, refl, ap, ◌∙◌}
use mathlib.Core.List.{List, [], ◌∷◌, ◌++◌}
use native.Mathlib.Omega.{arith}
use new_name_auction.Prelude.Lists.{
  length, take, drop, read_at, write_at, length-append, length-take, length-drop, take-add-append,
  drop-take-append, take-take, take-nil, drop-nil, drop-drop, drop-take, take-append,
}

module _ {ℓ} {A : Type ℓ} where
  pub length-read_at : (a k : ℕ) (xs : List A) → a + k ≤ length xs → length (read_at a k xs) ≡ k
  length-read_at a k xs h = omega (arith, length-take k (drop a xs), length-drop a xs)

  pub length-write_at :
      (pos : ℕ) (bytes xs : List A)
      → pos + length bytes ≤ length xs
      → length (write_at pos bytes xs) ≡ length xs
  length-write_at pos bytes xs h = omega (
    arith,
    length-append (take pos xs) (bytes ++ drop (pos + length bytes) xs),
    length-append bytes (drop (pos + length bytes) xs),
    length-take pos xs,
    length-drop (pos + length bytes) xs,
  )

  -- A write at the end of a stretch extends what is read from its start on.
  pub read_at-write_at :
      (r w k m : ℕ) (bytes xs : List A)
      → r ≤ w
      → w + k ≤ length xs
      → length bytes ≡ k
      → m ≡ w - r + k
      → read_at r m (write_at w bytes xs) ≡ read_at r (w - r) xs ++ bytes
  read_at-write_at r w k m bytes xs h l e q =
      ap (take m) (drop-take-append r w xs (bytes ++ drop (w + length bytes) xs) h (omega arith))
      ∙ (ap (λ i. take i (take (w - r) (drop r xs) ++ (bytes ++ drop (w + length bytes) xs))) q
          ∙ take-add-append (w - r) k (take (w - r) (drop r xs)) bytes (drop (w + length bytes) xs)
              (omega (arith, length-take (w - r) (drop r xs), length-drop r xs)) e)

  -- A stretch before a write is as it was.
  pub read_at-write_behind :
      (a k w : ℕ) (bytes xs : List A)
      → a + k ≤ w
      → w ≤ length xs
      → read_at a k (write_at w bytes xs) ≡ read_at a k xs
  read_at-write_behind a k w bytes xs h l =
      ap (take k) (drop-take-append a w xs (bytes ++ drop (w + length bytes) xs) (omega arith) l)
      ∙ (take-append k (take (w - a) (drop a xs)) (bytes ++ drop (w + length bytes) xs)
            (omega (arith, length-take (w - a) (drop a xs), length-drop a xs))
          ∙ take-take k (w - a) (drop a xs) (omega arith))

  pub drop-append_le :
      (n : ℕ) (xs ys : List A) → n ≤ length xs → drop n (xs ++ ys) ≡ drop n xs ++ ys
  drop-append_le zero xs ys h = refl
  drop-append_le (suc n) [] ys h = absurd (omega arith)
  drop-append_le (suc n) (x ∷ xs) ys h = drop-append_le n xs ys (omega arith)

  pub drop-append_ge :
      (n m : ℕ) (xs ys : List A) → n ≡ length xs + m → drop n (xs ++ ys) ≡ drop m ys
  drop-append_ge n m [] ys h = ap (λ k. drop k ys) (omega arith)
  drop-append_ge zero m (x ∷ xs) ys h = absurd (omega arith)
  drop-append_ge (suc n) m (x ∷ xs) ys h = drop-append_ge n m xs ys (omega arith)

  pub take-append_ge :
      (n m : ℕ) (xs ys : List A) → n ≡ length xs + m → take n (xs ++ ys) ≡ xs ++ take m ys
  take-append_ge n m [] ys h = ap (λ k. take k ys) (omega arith)
  take-append_ge zero m (x ∷ xs) ys h = absurd (omega arith)
  take-append_ge (suc n) m (x ∷ xs) ys h = ap (◌∷◌ x) (take-append_ge n m xs ys (omega arith))

  -- A stretch behind a write is as it was.
  pub read_at-write_ahead :
      (a k w : ℕ) (bytes xs : List A)
      → w + length bytes ≤ a
      → a ≤ length xs
      → read_at a k (write_at w bytes xs) ≡ read_at a k xs
  read_at-write_ahead a k w bytes xs h l = ap (take k) (
      drop-append_ge a (a - w) (take w xs) (bytes ++ drop (w + length bytes) xs)
        (omega (arith, length-take w xs))
      ∙ (drop-append_ge (a - w) (a - w - length bytes) bytes (drop (w + length bytes) xs)
            (omega arith)
          ∙ drop-drop (w + length bytes) (a - w - length bytes) a xs (omega arith)))

  pub take-read_at : (n a k : ℕ) (xs : List A) → n ≤ k → take n (read_at a k xs) ≡ read_at a n xs
  take-read_at n a k xs h = take-take n k (drop a xs) h

  pub drop-read_at :
      (n a k : ℕ) (xs : List A) → n ≤ k → drop n (read_at a k xs) ≡ read_at (a + n) (k - n) xs
  drop-read_at n a k xs h =
      drop-take n k (drop a xs) h ∙ ap (take (k - n)) (drop-drop a n (a + n) xs refl)

  -- A start in two pieces.
  pub take-add-drop :
      (n k m : ℕ) (xs : List A) → n + k ≡ m → take m xs ≡ take n xs ++ take k (drop n xs)
  take-add-drop zero k m xs h = ap (λ i. take i xs) (omega arith)
  take-add-drop (suc n) k zero xs h = absurd (omega arith)
  take-add-drop (suc n) k (suc m) [] h = sym (take-nil k)
  take-add-drop (suc n) k (suc m) (x ∷ xs) h = ap (◌∷◌ x) (take-add-drop n k m xs (omega arith))

  pub take_all : (n : ℕ) (xs : List A) → length xs ≤ n → take n xs ≡ xs
  take_all n [] h = take-nil n
  take_all zero (x ∷ xs) h = absurd (omega arith)
  take_all (suc n) (x ∷ xs) h = ap (◌∷◌ x) (take_all n xs (omega arith))

  pub drop_all : (n : ℕ) (xs : List A) → length xs ≤ n → drop n xs ≡ []
  drop_all n [] h = drop-nil n
  drop_all zero (x ∷ xs) h = absurd (omega arith)
  drop_all (suc n) (x ∷ xs) h = drop_all n xs (omega arith)

  pub take-drop_self : (n : ℕ) (xs : List A) → take n xs ++ drop n xs ≡ xs
  take-drop_self zero xs = refl
  take-drop_self (suc n) [] = refl
  take-drop_self (suc n) (x ∷ xs) = ap (◌∷◌ x) (take-drop_self n xs)

  -- A write of nothing.
  pub write_at-nil : (p : ℕ) (xs : List A) → write_at p [] xs ≡ xs
  write_at-nil p xs = ap (λ k. take p xs ++ drop k xs) (omega arith) ∙ take-drop_self p xs
