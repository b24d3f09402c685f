-- ===== src/Net/Receive/Buffers.antt =====
-- The memory that recvPost of CNetServer.cpp offers, and MoveRear after it has been filled.
use new_name_auction.Prelude.{
  ℕ, ◌+◌, ◌-◌, ◌≤◌, ◌<◌, ◌≡◌, refl, sym, ap, ap₂, ◌∙◌, inl, inr, true, false, List, ◌++◌, arith,
  leb, ◌==◌, ◌&&◌, if◌then◌else◌, Bool-cases, length, take, drop, write_at, slt32, sle32, minus_one,
  take-length_self, take_all, drop_all, write_at-nil, length-drop, subst,
}
use new_name_auction.Ring.{
  Ring, end_of, wrapped, free_size, direct_enqueue_size, rear_buffer_ptr, begin_ptr, enqueue,
  move_rear, put_bytes, put_around,
}
use new_name_auction.Ring.Contents.{IsRing, held, room, free_size-room}
use new_name_auction.Ring.Sizes.{direct_room, sizes_lem}
use new_name_auction.Ring.Enqueue.{enqueue_lem}
use new_name_auction.Net.Receive.{recv_buffers}

-- The stretches that recvPost offers of a well-formed buffer: the first is as long as the room in one
-- piece, and the second has the rest of the room; but for a buffer that is full from the start, with front
-- on the first place and rear on the last, the first length is -1 and the second 1.
pub recv_buffers_lem :
    (q : Ring)
    → IsRing q
    → let b = recv_buffers q in
      (b.first_len ≡ (if (q.front == 0) && (q.rear == end_of q) then minus_one else direct_room q))
      × (b.second_len
          ≡ (if (q.front == 0) && (q.rear == end_of q) then 1 else room q - direct_room q))
unfolding recv_buffers
recv_buffers_lem q v =
    let (_, _, _, direct, le) = sizes_lem q v in
    (direct, ground (arith, direct, le, free_size-room q v))

-- What WSARecv documents: the bytes that have arrived fill the first stretch, then the second.
abbrev pub Filled : Ring → List ℕ → List ℕ → Type 0
Filled q bytes cells =
    let b = recv_buffers q in
    cells
    ≡ write_at b.second_ptr (drop b.first_len bytes)
        (write_at b.first_ptr (take b.first_len bytes) q.cells)

module _ (q : Ring) (bytes cells : List ℕ) (v : IsRing q) (pos : 1 ≤ length bytes)
    (fits : length bytes ≤ room q) where
  abbrev place : ℕ
  place = wrapped q q.rear

  pieces :
      Filled q bytes cells
      → cells
        ≡ write_at 1
            (drop (direct_room q) bytes)
            (write_at (place + 1) (take (direct_room q) bytes) q.cells)
  unfolding recv_buffers rear_buffer_ptr begin_ptr
  pieces filled =
      let (_, _, _, direct, _) = sizes_lem q v in
      let first : direct_enqueue_size q ≡ direct_room q = ground (arith, direct) in
      filled
      ∙ ap (λ k. write_at 1 (drop k bytes) (write_at (place + 1) (take k bytes) q.cells)) first

  -- All of it before the last byte.
  module _ (whole : length bytes ≤ direct_room q) where
    cells-whole :
        Filled q bytes cells → cells ≡ write_at (place + 1) (take (length bytes) bytes) q.cells
    cells-whole filled =
        pieces filled
        ∙ (ap₂ (λ xs ys. write_at 1 ys (write_at (place + 1) xs q.cells))
              (take_all (direct_room q) bytes whole ∙ sym (take-length_self bytes))
              (drop_all (direct_room q) bytes whole)
            ∙ write_at-nil 1 (write_at (place + 1) (take (length bytes) bytes) q.cells))

    move_rear-whole :
        (move_rear (length bytes) (record q { cells = cells })).1
        ≡ record q { cells = cells; rear = place + length bytes }
    unfolding move_rear
    move_rear-whole =
        let positive : sle32 (length bytes) 0 ≡ false = ground arith in
        let before : leb (length bytes) (end_of q - place) ≡ true = ground arith in
        rw (positive, before) refl

    enqueue-whole : (enqueue bytes (length bytes) q).1 ≡ put_bytes place bytes (length bytes) q
    unfolding enqueue
    enqueue-whole =
        let positive : sle32 (length bytes) 0 ≡ false = ground arith in
        let accepted : slt32 (free_size q) (length bytes) ≡ false =
          ground (arith, free_size-room q v) in
        let before : leb (length bytes) (end_of q - place) ≡ true = ground arith in
        elim (Bool-cases (leb (wrapped q q.front) place)) [
          | inl ordered ↦ rw (positive, accepted, ordered, before) refl
          | inr behind ↦ rw (positive, accepted, behind) refl
        ]

  -- Part of it on from the second byte.
  module _ (around : direct_room q < length bytes) where
    direct_room-around : direct_room q ≡ end_of q - place
    direct_room-around = ground arith

    cells-around : Filled q bytes cells → cells ≡ (put_around place bytes (length bytes) q).cells
    cells-around filled =
        pieces filled
        ∙ ap₂ (λ xs ys. write_at 1 ys (write_at (place + 1) xs q.cells))
            (ap (λ k. take k bytes) direct_room-around)
            (ap (λ k. drop k bytes) direct_room-around
              ∙ sym (
                  take_all (length bytes - (end_of q - place)) (drop (end_of q - place) bytes)
                    (omega (arith, length-drop (end_of q - place) bytes))))

    move_rear-around :
        (move_rear (length bytes) (record q { cells = cells })).1
        ≡ record q { cells = cells; rear = length bytes - (end_of q - place) }
    unfolding move_rear
    move_rear-around =
        let positive : sle32 (length bytes) 0 ≡ false = ground arith in
        let over : leb (length bytes) (end_of q - place) ≡ false =
          ground (arith, direct_room-around) in
        rw (positive, over) refl

    enqueue-around : (enqueue bytes (length bytes) q).1 ≡ put_around place bytes (length bytes) q
    unfolding enqueue
    enqueue-around =
        let positive : sle32 (length bytes) 0 ≡ false = ground arith in
        let accepted : slt32 (free_size q) (length bytes) ≡ false =
          ground (arith, free_size-room q v) in
        let over : leb (length bytes) (end_of q - place) ≡ false =
          ground (arith, direct_room-around) in
        let ordered : leb (wrapped q q.front) place ≡ true = ground arith in
        rw (positive, accepted, ordered, over) refl

-- Bytes that fit into the room of a well-formed buffer, at least one, and arrive where recvPost said, moved
-- over by MoveRear, leave the buffer that Enqueue of them leaves, which is well formed and holds them behind
-- what it held.
pub move_rear_lem :
    (q : Ring) (bytes cells : List ℕ)
    → IsRing q
    → 1 ≤ length bytes
    → length bytes ≤ room q
    → Filled q bytes cells
    → let q' = (move_rear (length bytes) (record q { cells = cells })).1 in
      (q' ≡ (enqueue bytes (length bytes) q).1) × IsRing q' × (held q' ≡ held q ++ bytes)
move_rear_lem q bytes cells v pos fits filled =
    let same : (move_rear (length bytes) (record q { cells = cells })).1
        ≡ (enqueue bytes (length bytes) q).1 =
      elim (Bool-cases (leb (length bytes) (direct_room q))) [
        | inl whole ↦
            let h : length bytes ≤ direct_room q = ground arith in
            move_rear-whole q bytes cells v pos fits h
            ∙ (ap (λ c. record q { cells = c; rear = wrapped q q.rear + length bytes })
                  (cells-whole q bytes cells v pos fits h filled)
                ∙ sym (enqueue-whole q bytes cells v pos fits h))
        | inr around ↦
            let h : direct_room q < length bytes = ground arith in
            move_rear-around q bytes cells v pos fits h
            ∙ (ap (λ c. record q { cells = c; rear = length bytes - (end_of q - wrapped q q.rear) })
                  (cells-around q bytes cells v pos fits h filled)
                ∙ sym (enqueue-around q bytes cells v pos fits h))
      ] in
    let (valid, _, more) =
      enqueue_lem bytes (length bytes) q v pos (ground (arith, v.small)) (omega arith) in
    let enough : leb (length bytes) (room q) ≡ true = ground arith in
    (
      same,
      subst IsRing (sym same) valid,
      ap held same ∙ (more ∙ rw enough (ap (◌++◌ (held q)) (take-length_self bytes))),
    )
