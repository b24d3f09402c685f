-- ===== src/Packet/Fifo.antt =====
-- A packet (NewNameAuction/Packet.cpp) seen as a queue of bytes.
pub mod Store
pub mod Load
use new_name_auction.Prelude.{
  ℕ, ◌+◌, ◌-◌, ◌^◌, Bool-cases, minus_one, sym, inl, inr, true, false, sub64, add32, sub32, ◌≤◌,
  ◌<◌, ◌≡◌, refl, ap, ◌∙◌, List, ◌++◌, none, some, arith, ltb, leb, if◌then◌else◌, length, take,
  drop, read_at, write_at, le_bytes, of_le_bytes, length-take, length-drop, length-append,
  length-le_bytes, drop-take-append, take-add-append, take-take, drop-drop, drop-take,
}
use new_name_auction.Packet.{
  Packet, end_pos, put_scalar, get_scalar, put_data, get_data, clear, not_positive, buffer_default,
  header_size,
}

-- The positions are in order and inside the buffer, whose last byte is never written, and DataSize
-- counts the bytes between them.
pub record IsValid (p : Packet) : Type 0 where
  pub sized : length p.buffer ≡ p.buffer_size
  pub small : p.buffer_size < 2 ^ 31
  pub ordered : p.read_pos ≤ p.write_pos
  pub within : p.write_pos + 1 ≤ p.buffer_size
  pub counted : p.data_size + p.read_pos ≡ p.write_pos

-- The bytes that are written and not yet read.
abbrev pub contents : Packet → List ℕ
contents p = read_at p.read_pos (p.write_pos - p.read_pos) p.buffer

pub length-contents : (p : Packet) → IsValid p → length (contents p) ≡ p.write_pos - p.read_pos
length-contents p v = omega (
  arith,
  length-take (p.write_pos - p.read_pos) (drop p.read_pos p.buffer),
  length-drop p.read_pos p.buffer,
)

-- `Clear` of a packet with its buffer leaves a valid one that holds the five header bytes.
pub clear-IsValid :
    (p : Packet)
    → length p.buffer ≡ p.buffer_size
    → p.buffer_size ≡ buffer_default
    → IsValid (clear p) × (contents (clear p) ≡ take header_size p.buffer)
unfolding clear
clear-IsValid p e b = (
  record {
    sized = e;
    small = omega arith;
    ordered = omega arith;
    within = omega arith;
    counted = omega arith;
  },
  refl,
)
