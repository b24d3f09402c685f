-- ===== src/Ring/Enqueue.antt =====
-- `Enqueue` of ringbuffer.cpp: its effect on the bytes held.
use new_name_auction.Prelude.{
  ℕ, ◌+◌, ◌-◌, ◌^◌, ◌≤◌, ◌<◌, ◌≡◌, refl, sym, ap, ap₂, ◌∙◌, inl, inr, ◌⊎◌, true, false, List, ◌++◌,
  arith, leb, ◌==◌, if◌then◌else◌, Bool-cases, length, take, drop, read_at, write_at, append-nil,
  append_assoc, length-take, length-drop, length-write_at, read_at-write_at, read_at-write_ahead,
  sle32, slt32, minus_one, take-add-drop,
}
use new_name_auction.Ring.{Ring, end_of, wrapped, free_size, put_bytes, put_around, enqueue}
use new_name_auction.Ring.Contents.{
  IsRing, chunk, held, room, free_size-room, read_at-none, held_of_ne,
}

-- With room left, the bytes held reach up to the wrapped rear.
held-chunk :
    (r : Ring) → IsRing r → 1 ≤ room r → held r ≡ chunk (wrapped r r.front) (wrapped r r.rear) r
held-chunk r v h = elim (Bool-cases (r.front == r.rear)) [
  | inl same ↦
      ground
        (arith, read_at-none (wrapped r r.front + 1) (wrapped r r.rear - wrapped r r.front) r.cells)
  | inr other ↦ ground (
    arith,
    append-nil (read_at (wrapped r r.front + 1) (end_of r - wrapped r r.front) r.cells),
    read_at-none 1 (wrapped r r.rear) r.cells,
  )
]

module _ (source : List ℕ) (n : ℕ) (r : Ring) (v : IsRing r) (long : n ≤ length source) where
  length-source : length (take n source) ≡ n
  length-source = omega (arith, length-take n source)

  -- The copy behind `p`, for a chunk that starts at `f` and is not reached.
  chunk-put_bytes :
      (f p : ℕ)
      → f ≤ end_of r
      → p + n ≤ end_of r
      → (leb f p ≡ true) ⊎ (p + n < f)
      → chunk f (p + n) (put_bytes p source n r) ≡ chunk f p r ++ take n source
  chunk-put_bytes f p hf inside (inl before) =
      let after : leb f (p + n) ≡ true = ground arith in
      rw (after, before)
        (read_at-write_at (f + 1) (p + 1) n (p + n - f) (take n source) r.cells (ground arith)
            (omega (arith, v.sized)) length-source (ground arith)
          ∙ ap (λ k. read_at (f + 1) k r.cells ++ take n source) (ground arith))
  chunk-put_bytes f p hf inside (inr behind) =
      let here : leb f p ≡ false = ground arith in
      let after : leb f (p + n) ≡ false = ground arith in
      rw (after, here)
        (ap₂ ◌++◌
            (read_at-write_ahead (f + 1) (end_of r - f) (p + 1) (take n source) r.cells
              (omega (arith, length-source)) (omega (arith, v.sized)))
            (read_at-write_at 1 (p + 1) n (p + n) (take n source) r.cells (omega arith)
                (omega (arith, v.sized)) length-source (omega arith)
              ∙ ap (λ k. read_at 1 k r.cells ++ take n source) (omega arith))
          ∙ sym (
              append_assoc (read_at (f + 1) (end_of r - f) r.cells) (read_at 1 p r.cells)
                (take n source)))

  -- The copy in one piece.
  put_bytes_lem :
      (p : ℕ)
      → 1 ≤ n
      → n ≤ room r
      → p ≡ wrapped r r.rear
      → p + n ≤ end_of r
      → (leb (wrapped r r.front) p ≡ true) ⊎ (p + n < wrapped r r.front)
      → IsRing (put_bytes p source n r) × (held (put_bytes p source n r) ≡ held r ++ take n source)
  put_bytes_lem p pos fits ep inside clear =
      let q = put_bytes p source n r in
      let apart : (q.front == q.rear) ≡ false = ground arith in
      (
        record {
          sized =
              length-write_at (p + 1) (take n source) r.cells
                (omega (arith, length-source, v.sized))
              ∙ v.sized;
          small = v.small;
          some_room = v.some_room;
          front_in = v.front_in;
          rear_in = inside;
          begun = omega arith;
        },
        held_of_ne q apart
            ∙ (chunk-put_bytes (wrapped r r.front) p (ground arith) inside clear
                ∙ ap (λ bytes. bytes ++ take n source)
                    (rw ep (sym (held-chunk r v (omega arith))))),
      )

  -- The copies in two pieces, up to the last byte and on from the second.
  chunk-put_around :
      (f p : ℕ)
      → f ≤ end_of r
      → p ≤ end_of r
      → f ≤ p
      → end_of r - p < n
      → n - (end_of r - p) < f
      → chunk f (n - (end_of r - p)) (put_around p source n r) ≡ chunk f p r ++ take n source
  chunk-put_around f p hf hp before over below =
      let first = end_of r - p in
      let second = n - first in
      let xs = take first source in
      let ys = take second (drop first source) in
      let l_xs : length xs ≡ first = omega (arith, length-take first source) in
      let l_ys : length ys ≡ second =
        omega (arith, length-take second (drop first source), length-drop first source) in
      let once = write_at (p + 1) xs r.cells in
      let l_once : length once ≡ r.size =
        length-write_at (p + 1) xs r.cells (omega (arith, l_xs, v.sized)) ∙ v.sized in
      let here : leb f p ≡ true = ground arith in
      let after : leb f second ≡ false = ground arith in
      let old : read_at (f + 1) (end_of r - f) (write_at 1 ys once)
          ≡ read_at (f + 1) (p - f) r.cells ++ xs =
        read_at-write_ahead (f + 1) (end_of r - f) 1 ys once (omega (arith, l_ys))
          (omega (arith, l_once))
        ∙ (read_at-write_at (f + 1) (p + 1) first (end_of r - f) xs r.cells (omega arith)
              (omega (arith, v.sized)) l_xs (omega arith)
            ∙ ap (λ k. read_at (f + 1) k r.cells ++ xs) (omega arith)) in
      let new : read_at 1 second (write_at 1 ys once) ≡ ys =
        read_at-write_at 1 1 second second ys once (omega arith) (omega (arith, l_once)) l_ys
          (omega arith)
        ∙ ap (λ bytes. bytes ++ ys) (read_at-none 1 (1 - 1) once (omega arith)) in
      rw (after, here)
        (ap₂ ◌++◌ old new
          ∙ (append_assoc (read_at (f + 1) (p - f) r.cells) xs ys
              ∙ ap (◌++◌ (read_at (f + 1) (p - f) r.cells))
                  (sym (take-add-drop first second n source (omega arith)))))

  put_around_lem :
      (p : ℕ)
      → n ≤ room r
      → p ≡ wrapped r r.rear
      → wrapped r r.front ≤ p
      → end_of r - p < n
      → IsRing (put_around p source n r)
        × (held (put_around p source n r) ≡ held r ++ take n source)
  put_around_lem p fits ep before over =
      let q = put_around p source n r in
      let first = end_of r - p in
      let xs = take first source in
      let ys = take (n - first) (drop first source) in
      let l_xs : length xs ≡ first = omega (arith, length-take first source) in
      let l_ys : length ys ≡ n - first =
        omega (arith, length-take (n - first) (drop first source), length-drop first source) in
      let below : n - first < wrapped r r.front = ground arith in
      let apart : (q.front == q.rear) ≡ false = ground arith in
      let l_once : length (write_at (p + 1) xs r.cells) ≡ r.size =
        length-write_at (p + 1) xs r.cells (ground (arith, l_xs, v.sized)) ∙ v.sized in
      (
        record {
          sized =
              length-write_at 1 ys (write_at (p + 1) xs r.cells) (ground (arith, l_ys, l_once))
              ∙ l_once;
          small = v.small;
          some_room = v.some_room;
          front_in = v.front_in;
          rear_in = ground arith;
          begun = omega arith;
        },
        held_of_ne q apart
            ∙ (chunk-put_around (wrapped r r.front) p (ground arith) (ground arith) before over
                  below
                ∙ ap (λ bytes. bytes ++ take n source)
                    (rw ep (sym (held-chunk r v (omega arith))))),
      )

-- `Enqueue` of a positive number of bytes that the source has: where there is room it returns the
-- number and puts the bytes behind those held, otherwise it returns -1 and changes nothing.
pub enqueue_lem :
    (source : List ℕ) (n : ℕ) (r : Ring)
    → IsRing r
    → 1 ≤ n
    → n < 2 ^ 31
    → n ≤ length source
    → IsRing (enqueue source n r).1
      × ((enqueue source n r).0 ≡ (if leb n (room r) then n else minus_one))
      × (held (enqueue source n r).1 ≡ (if leb n (room r) then held r ++ take n source else held r))
unfolding enqueue
enqueue_lem source n r v pos small long = elim (Bool-cases (leb n (room r))) [
  | inr full ↦ rw (positive, refused full, full) (v, refl, refl)
  | inl fits ↦ elim (Bool-cases (leb (wrapped r r.front) (wrapped r r.rear))) [
    | inr behind ↦
        let (valid, bytes) =
          put_bytes_lem source n r v long (wrapped r r.rear) pos (ground arith) refl (ground arith)
            (inr (ground arith)) in
        rw (positive, accepted fits, fits, behind) (valid, refl, bytes)
    | inl before ↦ elim (Bool-cases (leb n (end_of r - wrapped r r.rear))) [
      | inl whole ↦
          let (valid, bytes) =
            put_bytes_lem source n r v long (wrapped r r.rear) pos (ground arith) refl
              (ground arith) (inl before) in
          rw (positive, accepted fits, fits, before, whole) (valid, refl, bytes)
      | inr around ↦
          let (valid, bytes) =
            put_around_lem source n r v long (wrapped r r.rear) (ground arith) refl (ground arith)
              (ground arith) in
          rw (positive, accepted fits, fits, before, around) (valid, refl, bytes)
    ]
  ]
]
  where
    positive : sle32 n 0 ≡ false
    positive = ground arith

    refused : leb n (room r) ≡ false → slt32 (free_size r) n ≡ true
    refused full = ground (arith, free_size-room r v)

    accepted : leb n (room r) ≡ true → slt32 (free_size r) n ≡ false
    accepted fits = ground (arith, free_size-room r v)
