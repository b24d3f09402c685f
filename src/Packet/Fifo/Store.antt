-- ===== src/Packet/Fifo/Store.antt =====
-- The stores of Packet.cpp: `operator <<` and `PutData`.
use new_name_auction.Prelude.{
  length-write_at, read_at-write_at, ℕ, ◌+◌, ◌-◌, ◌^◌, Bool-cases, minus_one, inl, inr, true, false,
  sub64, add32, ◌≤◌, ◌<◌, ◌≡◌, refl, ap, ◌∙◌, List, ◌++◌, arith, ltb, leb, if◌then◌else◌, length,
  take, read_at, write_at, le_bytes, length-take, length-le_bytes,
}
use new_name_auction.Packet.{Packet, end_pos, put_scalar, put_data, not_positive}
use new_name_auction.Packet.Fifo.{IsValid, contents}

append_bytes :
    (p q : Packet) (bytes : List ℕ) (k : ℕ)
    → IsValid p
    → length bytes ≡ k
    → p.write_pos + k ≤ end_pos p
    → q.buffer ≡ write_at p.write_pos bytes p.buffer
    → q.buffer_size ≡ p.buffer_size
    → q.read_pos ≡ p.read_pos
    → q.write_pos ≡ p.write_pos + k
    → q.data_size ≡ p.data_size + k
    → IsValid q × (contents q ≡ contents p ++ bytes)
append_bytes p q bytes k v e fit eb es er ew ed = (valid, rw (eb, er, ew) body)
  where
    valid : IsValid q
    valid = record {
      sized =
          ap length eb ∙ omega (arith, length-write_at p.write_pos bytes p.buffer (omega arith));
      small = omega arith;
      ordered = omega arith;
      within = omega arith;
      counted = omega arith;
    }

    body :
        read_at p.read_pos (p.write_pos + k - p.read_pos) (write_at p.write_pos bytes p.buffer)
        ≡ contents p ++ bytes
    body =
        read_at-write_at p.read_pos p.write_pos k (p.write_pos + k - p.read_pos) bytes p.buffer
          (omega arith) (omega arith) e (omega arith)

-- A store into a valid packet appends the value's bytes to its contents if they fit before the last byte
-- of the buffer, and leaves the size of the buffer, the count of references and the mark of the encoding
-- as they were; otherwise the packet is the one from before. It stays valid either way.
pub put_scalar_lem :
    (size value : ℕ) (p : Packet)
    → IsValid p
    → size < 2 ^ 31
    → IsValid (put_scalar size value p)
      × (contents (put_scalar size value p) ≡ (
          if leb (p.write_pos + size) (end_pos p)
          then contents p ++ le_bytes size value
          else contents p))
      × ((put_scalar size value p).buffer_size ≡ p.buffer_size)
      × ((put_scalar size value p).ref_count ≡ p.ref_count)
      × ((put_scalar size value p).encode_flag ≡ p.encode_flag)
      × (leb (p.write_pos + size) (end_pos p) ≡ false → put_scalar size value p ≡ p)
unfolding put_scalar
put_scalar_lem size value p v small = elim (Bool-cases (leb (p.write_pos + size) (end_pos p))) [
  | inl fits ↦
      let (valid, last) = appended fits in
      rw (fits, stored fits) (valid, last, refl, refl, refl, λ full. ground (arith, full))
  | inr full ↦ rw (full, kept full) (v, refl, refl, refl, refl, λ _. refl)
]
  where
    stored :
        leb (p.write_pos + size) (end_pos p) ≡ true
        → leb size (sub64 (end_pos p) p.write_pos) ≡ true
    stored fits = ground arith

    kept :
        leb (p.write_pos + size) (end_pos p) ≡ false
        → leb size (sub64 (end_pos p) p.write_pos) ≡ false
    kept full = ground arith

    q : Packet
    q = record p {
      buffer = write_at p.write_pos (le_bytes size value) p.buffer;
      write_pos = p.write_pos + size;
      data_size = add32 p.data_size size;
    }

    appended :
        leb (p.write_pos + size) (end_pos p) ≡ true
        → IsValid q × (contents q ≡ contents p ++ le_bytes size value)
    appended fits =
        append_bytes p q (le_bytes size value) size v (length-le_bytes size value) (ground arith)
          refl refl refl refl (ground arith)

-- `PutData` of a positive size appends that many bytes of its source and returns the size, or
-- returns -1 and changes nothing where they do not fit; it keeps the packet valid either way.
pub put_data_lem :
    (source : List ℕ) (size : ℕ) (p : Packet)
    → IsValid p
    → 0 < size
    → size < 2 ^ 31
    → size ≤ length source
    → IsValid (put_data source size p).1
      × ((put_data source size p).0
          ≡ (if leb (p.write_pos + size) (end_pos p) then size else minus_one))
      × (contents (put_data source size p).1 ≡ (
          if leb (p.write_pos + size) (end_pos p)
          then contents p ++ take size source
          else contents p))
unfolding put_data
put_data_lem source size p v pos small long =
    elim (Bool-cases (leb (p.write_pos + size) (end_pos p))) [
      | inl fits ↦
          let (valid, last) = appended fits in rw (fits, positive, fit fits) (valid, refl, last)
      | inr full ↦ rw (full, positive, unfit full) (v, refl, refl)
    ]
  where
    positive : not_positive size ≡ false
    positive = ground arith

    fit : leb (p.write_pos + size) (end_pos p) ≡ true → ltb (end_pos p) (p.write_pos + size) ≡ false
    fit fits = ground arith

    unfit :
        leb (p.write_pos + size) (end_pos p) ≡ false → ltb (end_pos p) (p.write_pos + size) ≡ true
    unfit full = ground arith

    q : Packet
    q = record p {
      buffer = write_at p.write_pos (take size source) p.buffer;
      write_pos = p.write_pos + size;
      data_size = add32 p.data_size size;
    }

    appended :
        leb (p.write_pos + size) (end_pos p) ≡ true
        → IsValid q × (contents q ≡ contents p ++ take size source)
    appended fits =
        append_bytes p q (take size source) size v (omega (arith, length-take size source))
          (ground arith) refl refl refl refl (ground arith)
