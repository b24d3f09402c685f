-- ===== src/Packet/Fifo/Load.antt =====
-- The loads of Packet.cpp: `operator >>` and `GetData`.
use new_name_auction.Prelude.{
  ℕ, ◌+◌, ◌-◌, ◌^◌, Bool-cases, minus_one, sym, inl, inr, true, false, sub64, sub32, ◌≤◌, ◌<◌, ◌≡◌,
  refl, ap, ◌∙◌, none, some, arith, ltb, leb, if◌then◌else◌, length, take, drop, read_at,
  of_le_bytes, take-take, drop-drop, drop-take,
}
use new_name_auction.Packet.{Packet, get_scalar, get_data, not_positive}
use new_name_auction.Packet.Fifo.{IsValid, contents, length-contents}

-- What a load leaves of a packet: all but the position and the counter.
abbrev pub SameBlock : Packet → Packet → Type 0
SameBlock p q =
    (q.buffer ≡ p.buffer)
    × (q.buffer_size ≡ p.buffer_size)
    × (q.ref_count ≡ p.ref_count)
    × (q.encode_flag ≡ p.encode_flag)

-- Moving the read position takes bytes off the front.
drop_bytes :
    (p q : Packet) (k : ℕ)
    → IsValid p
    → p.read_pos + k ≤ p.write_pos
    → q.buffer ≡ p.buffer
    → q.buffer_size ≡ p.buffer_size
    → q.read_pos ≡ p.read_pos + k
    → q.write_pos ≡ p.write_pos
    → q.data_size ≡ p.data_size - k
    → IsValid q
      × (read_at p.read_pos k p.buffer ≡ take k (contents p))
      × (contents q ≡ drop k (contents p))
drop_bytes p q k v h eb es er ew ed = (valid, front, rest)
  where
    valid : IsValid q
    valid = record {
      sized = ap length eb ∙ omega arith;
      small = omega arith;
      ordered = omega arith;
      within = omega arith;
      counted = omega arith;
    }

    front : read_at p.read_pos k p.buffer ≡ take k (contents p)
    front = sym (take-take k (p.write_pos - p.read_pos) (drop p.read_pos p.buffer) (omega arith))

    rest : contents q ≡ drop k (contents p)
    rest =
        rw (eb, er, ew)
          (ap (λ i. take i (drop (p.read_pos + k) p.buffer)) (omega arith)
            ∙ (ap (take (p.write_pos - p.read_pos - k))
                  (sym (drop-drop p.read_pos k (p.read_pos + k) p.buffer refl))
                ∙ sym (
                    drop-take k (p.write_pos - p.read_pos) (drop p.read_pos p.buffer)
                      (omega arith))))

-- A load from a valid packet takes the value of the first bytes off the front if there are enough of them,
-- and leaves the bytes of the buffer, its size, the count of references and the mark of the encoding as
-- they were; otherwise the variable keeps what it held and the packet is the one from before. Either way
-- the packet stays valid.
pub get_scalar_lem :
    (size : ℕ) (p : Packet)
    → IsValid p
    → IsValid (get_scalar size p).1
      × ((get_scalar size p).0 ≡ (
          if leb size (length (contents p))
          then some (of_le_bytes (take size (contents p)))
          else none))
      × (contents (get_scalar size p).1
          ≡ (if leb size (length (contents p)) then drop size (contents p) else contents p))
      × SameBlock p (get_scalar size p).1
      × (leb size (length (contents p)) ≡ false → (get_scalar size p).1 ≡ p)
unfolding get_scalar
get_scalar_lem size p v = elim (Bool-cases (leb size (p.write_pos - p.read_pos))) [
  | inl enough ↦
      let (valid, front, rest) =
        drop_bytes p q size v (ground arith) refl refl refl refl (ground arith) in
      rw (length-contents p v, same, enough)
        (
          valid,
          ap (λ bs. some (of_le_bytes bs)) front,
          rest,
          (refl, refl, refl, refl),
          λ short. ground (arith, short),
        )
  | inr short ↦
      rw (length-contents p v, same, short) (v, refl, refl, (refl, refl, refl, refl), λ _. refl)
]
  where
    same : sub64 p.write_pos p.read_pos ≡ p.write_pos - p.read_pos
    same = omega arith

    q : Packet
    q = record p { read_pos = p.read_pos + size; data_size = sub32 p.data_size size }

-- `GetData` of a positive size takes that many bytes off the front, or returns -1, copies nothing and
-- changes nothing where there are not enough. Either way the packet stays valid.
pub get_data_lem :
    (size : ℕ) (p : Packet)
    → IsValid p
    → 0 < size
    → size < 2 ^ 31
    → IsValid (get_data size p).2
      × ((get_data size p).0 ≡ (if leb size (length (contents p)) then size else minus_one))
      × ((get_data size p).1
          ≡ (if leb size (length (contents p)) then some (take size (contents p)) else none))
      × (contents (get_data size p).2
          ≡ (if leb size (length (contents p)) then drop size (contents p) else contents p))
unfolding get_data
get_data_lem size p v pos small = elim (Bool-cases (leb size (p.write_pos - p.read_pos))) [
  | inl enough ↦
      let (valid, front, rest) =
        drop_bytes p q size v (ground arith) refl refl refl refl (ground arith) in
      rw (length-contents p v, positive, fit enough, enough) (valid, refl, ap some front, rest)
  | inr short ↦ rw (length-contents p v, positive, unfit short, short) (v, refl, refl, refl)
]
  where
    positive : not_positive size ≡ false
    positive = ground arith

    fit : leb size (p.write_pos - p.read_pos) ≡ true → ltb p.write_pos (p.read_pos + size) ≡ false
    fit enough = ground arith

    unfit : leb size (p.write_pos - p.read_pos) ≡ false → ltb p.write_pos (p.read_pos + size) ≡ true
    unfit short = ground arith

    q : Packet
    q = record p { read_pos = p.read_pos + size; data_size = sub32 p.data_size size }
