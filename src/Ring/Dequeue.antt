-- ===== src/Ring/Dequeue.antt =====
-- `Dequeue` and `Peek` of ringbuffer.cpp: what they copy out, and what the buffer holds after them.
use new_name_auction.Prelude.{
  ℕ, ◌+◌, ◌-◌, ◌^◌, ◌≤◌, ◌<◌, ◌≡◌, refl, sym, ap, ap₂, ◌∙◌, inl, inr, true, false, List, ◌++◌, some,
  none, arith, leb, ◌==◌, if◌then◌else◌, Bool-cases, length, take, drop, read_at, sle32, slt32,
  minus_one, length-read_at, take-append, take-append_ge, drop-append_le, drop-append_ge,
  take-read_at, drop-read_at,
}
use new_name_auction.Ring.{Ring, end_of, wrapped, use_size, bytes_around, dequeue}
use new_name_auction.Ring.Contents.{
  IsRing, chunk, held, used, use_size-used, length-held, read_at-none, held_of_ne,
}

-- A buffer whose front is not behind its rear.
held_ordered : (r : Ring) → IsRing r → r.front ≤ r.rear → held r ≡ chunk r.front r.rear r
held_ordered r v h = ground (arith, read_at-none (r.front + 1) (r.rear - r.front) r.cells)

module _ (n f p : ℕ) (r : Ring) (v : IsRing r) (hf : f ≤ end_of r) (hp : p ≤ end_of r) where
  -- In one piece, before the last byte.
  pub chunk_ordered :
      f + n ≤ p
      → (take n (chunk f p r) ≡ read_at (f + 1) n r.cells)
        × (drop n (chunk f p r) ≡ chunk (f + n) p r)
  chunk_ordered h =
      let here : leb f p ≡ true = ground arith in
      let after : leb (f + n) p ≡ true = ground arith in
      rw (here, after)
        (
          take-read_at n (f + 1) (p - f) r.cells (omega arith),
          drop-read_at n (f + 1) (p - f) r.cells (omega arith)
              ∙ ap₂ (λ a k. read_at a k r.cells) (omega arith) (omega arith),
        )

  -- In one piece, from the part that ends with the last byte.
  pub chunk_ahead :
      p < f
      → f + n ≤ end_of r
      → (take n (chunk f p r) ≡ read_at (f + 1) n r.cells)
        × (drop n (chunk f p r) ≡ chunk (wrapped r (f + n)) p r)
  chunk_ahead h k =
      let here : leb f p ≡ false = ground arith in
      let first = read_at (f + 1) (end_of r - f) r.cells in
      let second = read_at 1 p r.cells in
      let l : length first ≡ end_of r - f =
        length-read_at (f + 1) (end_of r - f) r.cells (omega (arith, v.sized)) in
      let left = drop-read_at n (f + 1) (end_of r - f) r.cells (omega arith) in
      let rest : drop n first ++ second ≡ chunk (wrapped r (f + n)) p r =
        elim (Bool-cases (f + n == end_of r)) [
          | inl last ↦ rw last (
              ap (λ bytes. bytes ++ second)
                (left ∙ read_at-none (f + 1 + n) (end_of r - f - n) r.cells (ground arith))
              ∙ ground arith)
          | inr more ↦
              let after : leb (f + n) p ≡ false = ground arith in
              rw (more, after)
                (ap (λ bytes. bytes ++ second)
                  (left ∙ ap₂ (λ a k. read_at a k r.cells) (omega arith) (omega arith)))
        ] in
      rw here (
        take-append n first second (omega (arith, l))
            ∙ take-read_at n (f + 1) (end_of r - f) r.cells (omega arith),
        drop-append_le n first second (omega (arith, l)) ∙ rest,
      )

  -- In two pieces.
  pub chunk_around :
      p < f
      → end_of r < f + n
      → n ≤ end_of r - f + p
      → (take n (chunk f p r) ≡ bytes_around f n r)
        × (drop n (chunk f p r) ≡ chunk (n - (end_of r - f)) p r)
  chunk_around h k enough =
      let here : leb f p ≡ false = ground arith in
      let m = n - (end_of r - f) in
      let after : leb m p ≡ true = ground arith in
      let first = read_at (f + 1) (end_of r - f) r.cells in
      let second = read_at 1 p r.cells in
      let l : length first ≡ end_of r - f =
        length-read_at (f + 1) (end_of r - f) r.cells (omega (arith, v.sized)) in
      rw (here, after)
        (
          take-append_ge n m first second (omega (arith, l))
              ∙ ap (◌++◌ first) (take-read_at m 1 p r.cells (omega arith)),
          drop-append_ge n m first second (omega (arith, l))
              ∙ (drop-read_at m 1 p r.cells (omega arith)
                  ∙ ap (λ a. read_at a (p - m) r.cells) (omega arith)),
        )

-- A buffer from which `n` bytes are taken, and where its front stands then.
abbrev Taken : ℕ → Ring → ℕ → List ℕ → Type 0
Taken n r g bytes =
    IsRing (record r { front = g })
    × (bytes ≡ take n (held r))
    × (held (record r { front = g }) ≡ drop n (held r))

module _ (n : ℕ) (r : Ring) (v : IsRing r) (pos : 1 ≤ n) (apart : (r.front == r.rear) ≡ false)
    (enough : n ≤ used r) where
  moved-IsRing : (g : ℕ) → g ≤ end_of r → IsRing (record r { front = g })
  moved-IsRing g h = record {
    sized = v.sized;
    small = v.small;
    some_room = v.some_room;
    front_in = h;
    rear_in = v.rear_in;
    begun = ground arith;
  }

  copied_ordered :
      wrapped r r.front ≤ r.rear
      → Taken n r (wrapped r r.front + n) (read_at (wrapped r r.front + 1) n r.cells)
  copied_ordered h =
      let f = wrapped r r.front in
      let inside : f + n ≤ r.rear = ground arith in
      let valid = moved-IsRing (f + n) (omega (arith, v.rear_in)) in
      let (start, rest) = chunk_ordered n f r.rear r v (ground arith) v.rear_in inside in
      rw (held_of_ne r apart)
        (valid, sym start, held_ordered (record r { front = f + n }) valid inside ∙ sym rest)

  copied_ahead :
      r.rear < wrapped r r.front
      → wrapped r r.front + n ≤ end_of r
      → Taken n r (wrapped r r.front + n) (read_at (wrapped r r.front + 1) n r.cells)
  copied_ahead h k =
      let f = wrapped r r.front in
      let valid = moved-IsRing (f + n) k in
      let (start, rest) = chunk_ahead n f r.rear r v (ground arith) v.rear_in h k in
      rw (held_of_ne r apart)
        (valid, sym start, held_of_ne (record r { front = f + n }) (ground arith) ∙ sym rest)

  copied_around :
      r.rear < wrapped r r.front
      → end_of r < wrapped r r.front + n
      → Taken n r (n - (end_of r - wrapped r r.front)) (bytes_around (wrapped r r.front) n r)
  copied_around h k =
      let f = wrapped r r.front in
      let g = n - (end_of r - f) in
      let inside : g ≤ r.rear = ground arith in
      let valid = moved-IsRing g (omega (arith, v.rear_in)) in
      let (start, rest) = chunk_around n f r.rear r v (ground arith) v.rear_in h k (ground arith) in
      rw (held_of_ne r apart)
        (valid, sym start, held_ordered (record r { front = g }) valid inside ∙ sym rest)

module _ (n : ℕ) (r : Ring) (v : IsRing r) (pos : 1 ≤ n) (small : n < 2 ^ 31) where
  -- What a call promises of its three results.
  abbrev Dequeued : Type 0
  Dequeued =
      IsRing (dequeue n r).2
      × ((dequeue n r).0 ≡ (if leb n (length (held r)) then n else minus_one))
      × ((dequeue n r).1 ≡ (if leb n (length (held r)) then some (take n (held r)) else none))
      × (held (dequeue n r).2 ≡ (if leb n (length (held r)) then drop n (held r) else held r))

  refused : used r < n → Dequeued
  unfolding dequeue
  refused h =
      let positive : sle32 n 0 ≡ false = ground arith in
      let over : slt32 (use_size r) n ≡ true = ground (arith, use_size-used r v) in
      let short : leb n (used r) ≡ false = ground arith in
      rw (length-held r v, positive, over, short) (v, refl, refl, refl)

  delivered :
      (g : ℕ) (bytes : List ℕ)
      → n ≤ used r
      → dequeue n r ≡ (n, some bytes, record r { front = g })
      → Taken n r g bytes
      → Dequeued
  delivered g bytes h run (valid, start, rest) =
      let enough : leb n (used r) ≡ true = ground arith in
      rw (length-held r v, run, enough) (valid, refl, ap some start, rest)

  module _ (h : n ≤ used r) (apart : (r.front == r.rear) ≡ false) where
    accepted : (sle32 n 0 ≡ false) × (slt32 (use_size r) n ≡ false)
    accepted = (ground arith, ground (arith, use_size-used r v))

    dequeue-ordered :
        leb (wrapped r r.front) r.rear ≡ true
        → dequeue n r ≡ (
          n,
          some (read_at (wrapped r r.front + 1) n r.cells),
          record r { front = wrapped r r.front + n },
        )
    unfolding dequeue
    dequeue-ordered e = rw (accepted.0, accepted.1, apart, e) refl

    dequeue-ahead :
        leb (wrapped r r.front) r.rear ≡ false
        → leb n (end_of r - wrapped r r.front) ≡ true
        → dequeue n r ≡ (
          n,
          some (read_at (wrapped r r.front + 1) n r.cells),
          record r { front = wrapped r r.front + n },
        )
    unfolding dequeue
    dequeue-ahead e k = rw (accepted.0, accepted.1, apart, e, k) refl

    dequeue-around :
        leb (wrapped r r.front) r.rear ≡ false
        → leb n (end_of r - wrapped r r.front) ≡ false
        → dequeue n r ≡ (
          n,
          some (bytes_around (wrapped r r.front) n r),
          record r { front = n - (end_of r - wrapped r r.front) },
        )
    unfolding dequeue
    dequeue-around e k = rw (accepted.0, accepted.1, apart, e, k) refl

-- `Dequeue` of a positive number: if so many bytes are held it returns the number, copies the oldest
-- out and leaves the others; otherwise it returns -1, copies nothing and changes nothing.
pub dequeue_lem :
    (n : ℕ) (r : Ring)
    → IsRing r
    → 1 ≤ n
    → n < 2 ^ 31
    → IsRing (dequeue n r).2
      × ((dequeue n r).0 ≡ (if leb n (length (held r)) then n else minus_one))
      × ((dequeue n r).1 ≡ (if leb n (length (held r)) then some (take n (held r)) else none))
      × (held (dequeue n r).2 ≡ (if leb n (length (held r)) then drop n (held r) else held r))
dequeue_lem n r v pos small = elim (Bool-cases (leb n (used r))) [
  | inr short ↦ refused n r v pos small (ground arith)
  | inl enough ↦
      let h : n ≤ used r = ground arith in
      let apart : (r.front == r.rear) ≡ false = ground arith in
      elim (Bool-cases (leb (wrapped r r.front) r.rear)) [
        | inl e ↦
            delivered n r v pos small _ _ h (dequeue-ordered n r v pos small h apart e)
              (copied_ordered n r v pos apart h (ground arith))
        | inr e ↦ elim (Bool-cases (leb n (end_of r - wrapped r r.front))) [
          | inl k ↦
              delivered n r v pos small _ _ h (dequeue-ahead n r v pos small h apart e k)
                (copied_ahead n r v pos apart h (ground arith) (ground arith))
          | inr k ↦
              delivered n r v pos small _ _ h (dequeue-around n r v pos small h apart e k)
                (copied_around n r v pos apart h (ground arith) (ground arith))
        ]
      ]
]
