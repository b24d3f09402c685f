-- ===== src/Packet.antt =====
-- CPacket of NewNameAuction/Packet.h and Packet.cpp, built without Encode_option: the serialisation
-- buffer in which every message is written, sent, received and read. A pointer into the buffer is
-- its offset from `begin`; `end` is the offset of the last byte. Sizes and counters of type `int`
-- are 32-bit patterns.
pub mod Fifo
pub mod Stream
use new_name_auction.Prelude.{
  ℕ, ◌+◌, ◌-◌, Bool, true, false, List, ◌∷◌, Option, none, some, ltb, leb, if◌then◌else◌, take,
  read_at, write_at, add32, sub32, sub64, sle32, minus_one, le_bytes, of_le_bytes,
}

-- dfNETWORK_HEADER_SIZE, dfNETWORK_CODE and BUFFER_DEFAULT.
abbrev pub header_size : ℕ
header_size = 5

abbrev pub network_code : ℕ
network_code = 0x77

abbrev pub buffer_default : ℕ
buffer_default = 2000

pub record Packet : Type 0 where
  pub data_size : ℕ
  pub buffer_size : ℕ
  pub ref_count : ℕ
  pub buffer : List ℕ
  pub read_pos : ℕ
  pub write_pos : ℕ
  pub encode_flag : Bool

-- The offset of `end`.
abbrev pub end_pos : Packet → ℕ
end_pos p = p.buffer_size - 1

-- The constructor: `buffer` is what malloc returned, BUFFER_DEFAULT bytes.
unfoldable pub construct : List ℕ → Packet
construct buffer = record {
  data_size = 0;
  buffer_size = buffer_default;
  ref_count = 0;
  buffer = buffer;
  read_pos = 0;
  write_pos = 0;
  encode_flag = false;
}

unfoldable pub add_ref : ℕ → Packet → Packet
add_ref n p = record p { ref_count = add32 p.ref_count n }

-- The new count beside the packet.
unfoldable pub sub_ref : Packet → ℕ × Packet
sub_ref p = (sub32 p.ref_count 1, record p { ref_count = sub32 p.ref_count 1 })

unfoldable pub clear : Packet → Packet
clear p = record p { read_pos = 0; write_pos = header_size; data_size = header_size }

unfoldable pub clear_network : Packet → Packet
clear_network p = record p { read_pos = 0; write_pos = 0; data_size = 0 }

unfoldable pub get_buffer_size : Packet → ℕ
get_buffer_size p = p.buffer_size

-- `writePos - readPos`, as an `int`.
unfoldable pub get_data_size : Packet → ℕ
get_data_size p = sub32 p.write_pos p.read_pos

unfoldable pub get_left_usable_size : Packet → ℕ
get_left_usable_size p = sub32 (end_pos p) p.write_pos

unfoldable pub add_data_size : ℕ → Packet → Packet
add_data_size size p = record p { data_size = add32 p.data_size size }

unfoldable pub sub_data_size : ℕ → Packet → Packet
sub_data_size size p = record p { data_size = sub32 p.data_size size }

-- `Size <= 0` on an `int`.
abbrev pub not_positive : ℕ → Bool
not_positive size = sle32 size 0

unfoldable pub move_write_pos : ℕ → Packet → ℕ × Packet
move_write_pos size p =
    if not_positive size
    then (0, p)
    else if ltb (end_pos p) (p.write_pos + size)
    then (minus_one, p)
    else (size, record p { write_pos = p.write_pos + size; data_size = add32 p.data_size size })

unfoldable pub move_read_pos : ℕ → Packet → ℕ × Packet
move_read_pos size p =
    if not_positive size
    then (0, p)
    else if ltb p.write_pos (p.read_pos + size)
    then (minus_one, p)
    else (size, record p { read_pos = p.read_pos + size; data_size = sub32 p.data_size size })

-- `Encode`: the header's code and length; the payload goes out as it is.
unfoldable pub encode : Packet → Bool × Packet
encode p = if sle32 p.data_size 5 then (false, p) else (
  true,
  record p {
    buffer =
        write_at 0 (network_code ∷ le_bytes 2 (sub32 (sub32 p.write_pos p.read_pos) header_size))
          p.buffer;
    encode_flag = true;
  },
)

-- `Decode` checks nothing in this build.
unfoldable pub decode : Packet → Bool × Packet
decode p = (true, p)

-- `mAlloc`, given the block that the pool hands out: what an earlier use left in it stays.
unfoldable pub m_alloc : Packet → Packet
m_alloc block = record block { ref_count = 0; encode_flag = false }

-- Copy assignment: `fresh` is what malloc returned for the copy.
unfoldable pub assign : Packet → Packet → List ℕ → Packet
assign p src fresh = record p {
  buffer_size = src.buffer_size;
  data_size = src.data_size;
  buffer = write_at 0 (take src.buffer_size src.buffer) fresh;
  read_pos = src.read_pos;
  write_pos = src.write_pos;
}

-- The stores of `operator <<`: `end - writePos >= sizeof(T)` compares an unsigned 64-bit number.
unfoldable pub put_scalar : ℕ → ℕ → Packet → Packet
put_scalar size value p =
    if leb size (sub64 (end_pos p) p.write_pos)
    then record p {
      buffer = write_at p.write_pos (le_bytes size value) p.buffer;
      write_pos = p.write_pos + size;
      data_size = add32 p.data_size size;
    }
    else p

unfoldable pub put_uchar : ℕ → Packet → Packet
put_uchar = put_scalar 1

unfoldable pub put_schar : ℕ → Packet → Packet
put_schar = put_scalar 1

unfoldable pub put_char : ℕ → Packet → Packet
put_char = put_scalar 1

unfoldable pub put_short : ℕ → Packet → Packet
put_short = put_scalar 2

unfoldable pub put_ushort : ℕ → Packet → Packet
put_ushort = put_scalar 2

unfoldable pub put_int : ℕ → Packet → Packet
put_int = put_scalar 4

unfoldable pub put_uint : ℕ → Packet → Packet
put_uint = put_scalar 4

-- `long` has four bytes on Windows.
unfoldable pub put_long : ℕ → Packet → Packet
put_long = put_scalar 4

unfoldable pub put_ulong : ℕ → Packet → Packet
put_ulong = put_scalar 4

-- Floating-point values are their bit patterns.
unfoldable pub put_float : ℕ → Packet → Packet
put_float = put_scalar 4

unfoldable pub put_int64 : ℕ → Packet → Packet
put_int64 = put_scalar 8

unfoldable pub put_double : ℕ → Packet → Packet
put_double = put_scalar 8

-- The loads of `operator >>`: `none` is a variable that keeps what it held.
unfoldable pub get_scalar : ℕ → Packet → Option ℕ × Packet
get_scalar size p =
    if leb size (sub64 p.write_pos p.read_pos)
    then (
      some (of_le_bytes (read_at p.read_pos size p.buffer)),
      record p { read_pos = p.read_pos + size; data_size = sub32 p.data_size size },
    )
    else (none, p)

unfoldable pub get_uchar : Packet → Option ℕ × Packet
get_uchar = get_scalar 1

unfoldable pub get_schar : Packet → Option ℕ × Packet
get_schar = get_scalar 1

unfoldable pub get_char : Packet → Option ℕ × Packet
get_char = get_scalar 1

unfoldable pub get_short : Packet → Option ℕ × Packet
get_short = get_scalar 2

unfoldable pub get_ushort : Packet → Option ℕ × Packet
get_ushort = get_scalar 2

unfoldable pub get_int : Packet → Option ℕ × Packet
get_int = get_scalar 4

unfoldable pub get_uint : Packet → Option ℕ × Packet
get_uint = get_scalar 4

unfoldable pub get_long : Packet → Option ℕ × Packet
get_long = get_scalar 4

unfoldable pub get_ulong : Packet → Option ℕ × Packet
get_ulong = get_scalar 4

unfoldable pub get_float : Packet → Option ℕ × Packet
get_float = get_scalar 4

unfoldable pub get_int64 : Packet → Option ℕ × Packet
get_int64 = get_scalar 8

unfoldable pub get_double : Packet → Option ℕ × Packet
get_double = get_scalar 8

-- `GetData`: the returned `int`, the bytes copied out (none are on the early returns), the packet.
unfoldable pub get_data : ℕ → Packet → ℕ × Option (List ℕ) × Packet
get_data size p =
    if not_positive size
    then (0, none, p)
    else if ltb p.write_pos (p.read_pos + size)
    then (minus_one, none, p)
    else (
      size,
      some (read_at p.read_pos size p.buffer),
      record p { read_pos = p.read_pos + size; data_size = sub32 p.data_size size },
    )

-- `PutData`: the source holds at least `size` bytes.
unfoldable pub put_data : List ℕ → ℕ → Packet → ℕ × Packet
put_data source size p =
    if not_positive size
    then (0, p)
    else if ltb (end_pos p) (p.write_pos + size)
    then (minus_one, p)
    else (
      size,
      record p {
        buffer = write_at p.write_pos (take size source) p.buffer;
        write_pos = p.write_pos + size;
        data_size = add32 p.data_size size;
      },
    )
