-- ===== src/Packet/Stream.antt =====
-- Packets written from the start and read from the front, in the form that message proofs chain.
use new_name_auction.Prelude.{
  ℕ, ◌+◌, ◌^◌, ◌≤◌, ◌<◌, ◌≡◌, sym, ap, ◌∙◌, true, List, ◌++◌, some, arith, leb, length, take, drop,
  le_bytes, of_le_bytes, length-le_bytes, of_le_bytes-le_bytes, length-append, take-length-append,
  take-append, drop-length-append,
}
use new_name_auction.Packet.{
  Packet, end_pos, buffer_default, put_scalar, put_data, get_scalar, get_data, move_read_pos,
}
use new_name_auction.Packet.Fifo.{IsValid, contents}
use new_name_auction.Packet.Fifo.Store.{put_scalar_lem, put_data_lem}
use new_name_auction.Packet.Fifo.Load.{get_scalar_lem, get_data_lem}

-- A block of the packet pool: its buffer has the default size.
pub record IsBlock (block : Packet) : Type 0 where
  pub sized : length block.buffer ≡ block.buffer_size
  pub whole : block.buffer_size ≡ buffer_default

-- A valid packet of the default size that holds `bytes`, written up to `pos`.
pub record Wrote (p : Packet) (bytes : List ℕ) (pos : ℕ) : Type 0 where
  pub valid : IsValid p
  pub bytes_in : contents p ≡ bytes
  pub at : p.write_pos ≡ pos
  pub whole : p.buffer_size ≡ buffer_default

-- A valid packet whose unread bytes are `bytes`.
pub record Reads (p : Packet) (bytes : List ℕ) : Type 0 where
  pub valid : IsValid p
  pub bytes_in : contents p ≡ bytes

put_scalar_pos :
    (size v : ℕ) (p : Packet)
    → IsValid p
    → p.write_pos + size ≤ end_pos p
    → ((put_scalar size v p).write_pos ≡ p.write_pos + size)
      × ((put_scalar size v p).buffer_size ≡ p.buffer_size)
unfolding put_scalar
put_scalar_pos size v p h fits = ground arith

put_data_pos :
    (source : List ℕ) (size : ℕ) (p : Packet)
    → 0 < size
    → size < 2 ^ 31
    → p.write_pos + size ≤ end_pos p
    → ((put_data source size p).1.write_pos ≡ p.write_pos + size)
      × ((put_data source size p).1.buffer_size ≡ p.buffer_size)
unfolding put_data
put_data_pos source size p pos small fits = ground arith

pub Wrote-put_scalar :
    (size v : ℕ) (p : Packet) (bytes : List ℕ) (pos : ℕ)
    → Wrote p bytes pos
    → pos + size < 2_000
    → Wrote (put_scalar size v p) (bytes ++ le_bytes size v) (pos + size)
Wrote-put_scalar size v p bytes pos w fits =
    let (valid, last, _, _, _, _) = put_scalar_lem size v p w.valid (omega (arith, w.at)) in
    let (moved, kept) = put_scalar_pos size v p w.valid (omega (arith, w.at, w.whole)) in
    record {
      valid = valid;
      bytes_in = last ∙ ground (arith, w.bytes_in, w.at, w.whole);
      at = omega (arith, w.at);
      whole = omega (arith, w.whole);
    }

pub Wrote-put_data :
    (source : List ℕ) (size : ℕ) (p : Packet) (bytes : List ℕ) (pos : ℕ)
    → Wrote p bytes pos
    → 0 < size
    → length source ≡ size
    → pos + size < 2_000
    → Wrote (put_data source size p).1 (bytes ++ take size source) (pos + size)
Wrote-put_data source size p bytes pos w some' e fits =
    let (valid, _, last) = put_data_lem source size p w.valid some' (omega arith) (omega arith) in
    let (moved, kept) =
      put_data_pos source size p some' (omega arith) (omega (arith, w.at, w.whole)) in
    record {
      valid = valid;
      bytes_in = last ∙ ground (arith, w.bytes_in, w.at, w.whole);
      at = omega (arith, w.at);
      whole = omega (arith, w.whole);
    }

-- A load where the value's bytes stand in front.
pub Reads-get_scalar :
    (size v : ℕ) (p : Packet) (rest : List ℕ)
    → Reads p (le_bytes size v ++ rest)
    → v < 256 ^ size
    → ((get_scalar size p).0 ≡ some v) × Reads (get_scalar size p).1 rest
Reads-get_scalar size v p rest r fits =
    let (valid, value, left, _, _) = get_scalar_lem size p r.valid in
    (
      value ∙ rw (r.bytes_in, enough, front) (ap some (of_le_bytes-le_bytes size v fits)),
      record { valid = valid; bytes_in = left ∙ rw (r.bytes_in, enough) behind },
    )
  where
    front : take size (le_bytes size v ++ rest) ≡ le_bytes size v
    front =
        ap (λ k. take k (le_bytes size v ++ rest)) (sym (length-le_bytes size v))
        ∙ take-length-append (le_bytes size v) rest

    behind : drop size (le_bytes size v ++ rest) ≡ rest
    behind =
        ap (λ k. drop k (le_bytes size v ++ rest)) (sym (length-le_bytes size v))
        ∙ drop-length-append (le_bytes size v) rest

    enough : leb size (length (le_bytes size v ++ rest)) ≡ true
    enough = ground (arith, length-append (le_bytes size v) rest, length-le_bytes size v)

pub Reads-get_data :
    (size : ℕ) (p : Packet) (front rest : List ℕ)
    → Reads p (front ++ rest)
    → length front ≡ size
    → 0 < size
    → size < 2 ^ 31
    → ((get_data size p).1 ≡ some front) × Reads (get_data size p).2 rest
Reads-get_data size p front rest r e pos small =
    let (valid, _, value, left) = get_data_lem size p r.valid pos small in
    (
      value ∙ rw (r.bytes_in, enough) (ap some first),
      record { valid = valid; bytes_in = left ∙ rw (r.bytes_in, enough) behind },
    )
  where
    first : take size (front ++ rest) ≡ front
    first = ap (λ k. take k (front ++ rest)) (sym e) ∙ take-length-append front rest

    behind : drop size (front ++ rest) ≡ rest
    behind = ap (λ k. drop k (front ++ rest)) (sym e) ∙ drop-length-append front rest

    enough : leb size (length (front ++ rest)) ≡ true
    enough = ground (arith, length-append front rest)

-- Skipping bytes is loading them and dropping the result.
move_read_pos-get_data : (size : ℕ) (p : Packet) → (move_read_pos size p).1 ≡ (get_data size p).2
unfolding move_read_pos get_data
move_read_pos-get_data size p = ground arith

pub Reads-move_read_pos :
    (size : ℕ) (p : Packet) (front rest : List ℕ)
    → Reads p (front ++ rest)
    → length front ≡ size
    → 0 < size
    → size < 2 ^ 31
    → Reads (move_read_pos size p).1 rest
Reads-move_read_pos size p front rest r e pos small =
    rw (move_read_pos-get_data size p) (Reads-get_data size p front rest r e pos small).1

-- A load where at least as many bytes stand in front.
pub Reads-get_scalar_front :
    (size : ℕ) (p : Packet) (front rest : List ℕ)
    → Reads p (front ++ rest)
    → size ≤ length front
    → (get_scalar size p).0 ≡ some (of_le_bytes (take size front))
Reads-get_scalar_front size p front rest r h =
    let (valid, value, left, _, _) = get_scalar_lem size p r.valid in
    value
    ∙ rw (r.bytes_in, enough) (ap (λ bs. some (of_le_bytes bs)) (take-append size front rest h))
  where
    enough : leb size (length (front ++ rest)) ≡ true
    enough = ground (arith, length-append front rest)
