-- ===== src/Ring/Peek.antt =====
-- `Peek` of ringbuffer.cpp, which does not wrap a front that stands on the last byte.
use new_name_auction.Prelude.{
  ℕ, ◌+◌, ◌-◌, ◌^◌, ◌≤◌, ◌<◌, ◌≡◌, refl, sym, ap, ap₂, ◌∙◌, inl, inr, true, false, ◌++◌, some, none,
  arith, leb, ◌==◌, if◌then◌else◌, Bool-cases, length, take, read_at, sle32, slt32, minus_one,
}
use new_name_auction.Ring.{Ring, end_of, wrapped, use_size, bytes_around, peek}
use new_name_auction.Ring.Contents.{
  IsRing, chunk, held, used, use_size-used, length-held, read_at-none, held_of_ne,
}
use new_name_auction.Ring.Dequeue.{chunk_ordered, chunk_ahead, chunk_around}

module _ (n : ℕ) (r : Ring) (v : IsRing r) (pos : 1 ≤ n) (small : n < 2 ^ 31) where
  module _ (h : n ≤ used r) where
    passed : (sle32 n 0 ≡ false) × (slt32 (use_size r) n ≡ false)
    passed = (ground arith, ground (arith, use_size-used r v))

    held_chunk : held r ≡ chunk (wrapped r r.front) r.rear r
    held_chunk = held_of_ne r (ground arith)

    peek-ordered : leb r.front r.rear ≡ true → peek n r ≡ (n, some (take n (held r)))
    unfolding peek
    peek-ordered e =
        let (start, _) = chunk_ordered n r.front r.rear r v v.front_in v.rear_in (ground arith) in
        let same : wrapped r r.front ≡ r.front = ground arith in
        rw (passed.0, passed.1, e)
          (ap (λ bytes. (n, some bytes))
            (sym (ap (take n) (held_chunk ∙ ap (λ f. chunk f r.rear r) same) ∙ start)))

    peek-ahead :
        leb r.front r.rear ≡ false
        → leb n (end_of r - r.front) ≡ true
        → peek n r ≡ (n, some (take n (held r)))
    unfolding peek
    peek-ahead e k =
        let (start, _) =
          chunk_ahead n r.front r.rear r v v.front_in v.rear_in (ground arith) (ground arith) in
        let same : wrapped r r.front ≡ r.front = ground arith in
        rw (passed.0, passed.1, e, k)
          (ap (λ bytes. (n, some bytes))
            (sym (ap (take n) (held_chunk ∙ ap (λ f. chunk f r.rear r) same) ∙ start)))

    around_start :
        leb r.front r.rear ≡ false
        → leb n (end_of r - r.front) ≡ false
        → take n (held r) ≡ bytes_around r.front n r
    around_start e k = elim (Bool-cases (r.front == end_of r)) [
      | inl last ↦
          let one : 0 + 1 ≡ 1 = omega arith in
          let zero_front : wrapped r r.front ≡ 0 = ground arith in
          let (start, _) = chunk_ordered n 0 r.rear r v (omega arith) v.rear_in (ground arith) in
          ap (take n) (held_chunk ∙ ap (λ f. chunk f r.rear r) zero_front)
          ∙ (start
              ∙ (ap (λ a. read_at a n r.cells) one
                  ∙ ap₂ ◌++◌
                      (sym (read_at-none (r.front + 1) (end_of r - r.front) r.cells (ground arith)))
                      (ap (λ k. read_at 1 k r.cells) (ground arith))))
      | inr before ↦
          let same : wrapped r r.front ≡ r.front = ground arith in
          let (start, _) =
            chunk_around n r.front r.rear r v v.front_in v.rear_in (ground arith) (ground arith)
              (ground arith) in
          ap (take n) (held_chunk ∙ ap (λ f. chunk f r.rear r) same) ∙ start
    ]

    peek-around :
        leb r.front r.rear ≡ false
        → leb n (end_of r - r.front) ≡ false
        → peek n r ≡ (n, some (take n (held r)))
    unfolding peek
    peek-around e k =
        rw (passed.0, passed.1, e, k) (ap (λ bytes. (n, some bytes)) (sym (around_start e k)))

  peek-refused : used r < n → peek n r ≡ (minus_one, none)
  unfolding peek
  peek-refused h =
      let over : slt32 (use_size r) n ≡ true = ground (arith, use_size-used r v) in rw over refl

-- `Peek` of a positive number returns the number and copies the oldest bytes out, or returns -1 and
-- copies nothing where fewer are held.
pub peek_lem :
    (n : ℕ) (r : Ring)
    → IsRing r
    → 1 ≤ n
    → n < 2 ^ 31
    → peek n r
      ≡ (if leb n (length (held r)) then (n, some (take n (held r))) else (minus_one, none))
peek_lem n r v pos small = elim (Bool-cases (leb n (used r))) [
  | inr short ↦ rw (length-held r v, short) (peek-refused n r v pos small (ground arith))
  | inl enough ↦
      let h : n ≤ used r = ground arith in
      rw (length-held r v, enough)
        (elim (Bool-cases (leb r.front r.rear)) [
          | inl e ↦ peek-ordered n r v pos small h e
          | inr e ↦ elim (Bool-cases (leb n (end_of r - r.front))) [
            | inl k ↦ peek-ahead n r v pos small h e k
            | inr k ↦ peek-around n r v pos small h e k
          ]
        ])
]
