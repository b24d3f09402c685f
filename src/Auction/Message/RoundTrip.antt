-- ===== src/Auction/Message/RoundTrip.antt =====
-- The messages of AuctionServer.cpp, written and read again.
use new_name_auction.Prelude.{
  ℕ, ◌+◌, ◌*◌, ◌^◌, ◌<◌, ◌≡◌, refl, sym, ap, ap₂, ◌∙◌, List, [], ◌∷◌, ◌++◌, append_assoc,
  append-nil, some, none, Option, Bool, ok, true, find, nat_eq, Outcome, arith, length, take,
  le_bytes, of_le_bytes, length-take, take-length_self, All,
}
use new_name_auction.Packet.{
  Packet, header_size, m_alloc, clear, add_ref, put_ushort, put_schar, put_int, put_int64,
  get_ushort, get_schar, get_int, get_int64, move_read_pos,
}
use new_name_auction.Packet.Fifo.{contents}
use new_name_auction.Packet.Stream.{
  IsBlock, Wrote, Reads, Wrote-put_scalar, Wrote-put_data, Reads-get_scalar, Reads-get_data,
  Reads-move_read_pos, Reads-get_scalar_front,
}
use new_name_auction.Auction.Text.{wchar_bytes, wchars_of_bytes, nick_name_max}
use new_name_auction.Auction.Handlers.{get_name}
use new_name_auction.Auction.InitPackets.{proc_res_player_info}
use new_name_auction.Auction.State.{Server, Player}
use new_name_auction.Auction.Message.{
  start, put_name, req_sale_packet, req_bid_packet, type_req_sale, type_req_bid,
  res_player_info_packet, type_res_player_info,
}

-- A nickname array: ten words of 16 bits.
pub record IsArray (name : List ℕ) : Type 0 where
  pub long : length name ≡ nick_name_max
  pub words : All (λ c. c < 65_536) name

pub length-wchar_bytes : (name : List ℕ) → length (wchar_bytes name) ≡ length name * 2
unfolding wchar_bytes
length-wchar_bytes [] = refl
length-wchar_bytes (c ∷ cs) = omega (arith, length-wchar_bytes cs)

-- The words come back from the bytes.
pub wchars_of_bytes-wchar_bytes :
    (name : List ℕ) → All (λ c. c < 65_536) name → wchars_of_bytes (wchar_bytes name) ≡ name
unfolding wchar_bytes wchars_of_bytes
wchars_of_bytes-wchar_bytes [] h = refl
wchars_of_bytes-wchar_bytes (c ∷ cs) h =
    ap₂ ◌∷◌ (omega (arith, h.0)) (wchars_of_bytes-wchar_bytes cs h.1)

-- A started message: its header and its type.
start-Wrote :
    (block : Packet) (type : ℕ)
    → IsBlock block
    → Wrote (start block type) (take header_size block.buffer ++ le_bytes 2 type) 7
unfolding start m_alloc add_ref put_ushort clear
start-Wrote block type b =
    Wrote-put_scalar 2 type _ (take header_size block.buffer) 5
      (record {
        valid = record {
          sized = b.sized;
          small = omega (arith, b.whole);
          ordered = omega arith;
          within = omega (arith, b.whole);
          counted = omega arith;
        };
        bytes_in = refl;
        at = refl;
        whole = b.whole;
      })
      (omega arith)

put_name-Wrote :
    (name : List ℕ) (p : Packet) (bytes : List ℕ) (pos : ℕ)
    → IsArray name
    → Wrote p bytes pos
    → pos + 20 < 2_000
    → Wrote (put_name name p) (bytes ++ wchar_bytes name) (pos + 20)
unfolding put_name
put_name-Wrote name p bytes pos v w fits = rw (← whole) at (
    Wrote-put_data (wchar_bytes name) 20 p bytes pos w (omega arith)
      (omega (arith, length-wchar_bytes name, v.long)) fits)
  where
    whole : wchar_bytes name ≡ take 20 (wchar_bytes name)
    whole =
        let e : length (wchar_bytes name) ≡ 20 = omega (arith, length-wchar_bytes name, v.long) in
        sym (take-length_self (wchar_bytes name)) ∙ ap (λ k. take k (wchar_bytes name)) e

get_name-Reads :
    (name : List ℕ) (p : Packet) (rest : List ℕ)
    → IsArray name
    → Reads p (wchar_bytes name ++ rest)
    → ((get_name p).0 ≡ some name) × Reads (get_name p).1 rest
unfolding get_name
get_name-Reads name p rest v r =
    let (value, left) =
      Reads-get_data 20 p (wchar_bytes name) rest r (omega (arith, length-wchar_bytes name, v.long))
        (omega arith) (omega arith) in
    (rw (get_name, value) (ap some (wchars_of_bytes-wchar_bytes name v.words)), left)

-- A received packet, its header skipped as the worker thread does.
abbrev pub payload : Packet → Packet
payload p = (move_read_pos header_size p).1

payload-Reads :
    (block p : Packet) (rest bytes : List ℕ) (pos : ℕ)
    → IsBlock block
    → Wrote p bytes pos
    → bytes ≡ take header_size block.buffer ++ rest
    → Reads (payload p) rest
payload-Reads block p rest bytes pos b w e =
    Reads-move_read_pos header_size p (take header_size block.buffer) rest
      (record { valid = w.valid; bytes_in = w.bytes_in ∙ e })
      (omega (arith, length-take header_size block.buffer, b.sized, b.whole)) (omega arith)
      (omega arith)

ruleset regroup = (append_assoc, append-nil)

-- A bid as SendPacket_CS_AUCTION_REQ_BID writes it: behind the header the server reads its type, its
-- nickname and its price, in this order, and then the packet is empty.
pub req_bid_round_trip :
    (block : Packet) (name : List ℕ) (price : ℕ)
    → IsBlock block
    → IsArray name
    → price < 2 ^ 32
    → let p0 = payload (req_bid_packet block name price) in
      let (type, p1) = get_ushort p0 in
      let (array, p2) = get_name p1 in
      let (bid, p3) = get_int p2 in
      (type ≡ some type_req_bid) × (array ≡ some name) × (bid ≡ some price) × (contents p3 ≡ [])
unfolding req_bid_packet put_int get_ushort get_int
req_bid_round_trip block name price b v fits =
    let w1 = start-Wrote block type_req_bid b in
    let w2 = put_name-Wrote name _ _ 7 v w1 (omega arith) in
    let w3 = Wrote-put_scalar 4 price _ _ 27 w2 (omega arith) in
    let r0 =
      payload-Reads block (req_bid_packet block name price)
        (le_bytes 2 type_req_bid ++ (wchar_bytes name ++ (le_bytes 4 price ++ []))) _ 31 b w3
        (simp regroup) in
    let (e1, r1) = Reads-get_scalar 2 type_req_bid _ _ r0 (omega arith) in
    let (e2, r2) = get_name-Reads name _ _ v r1 in
    let (e3, r3) = Reads-get_scalar 4 price _ _ r2 (omega arith) in (e1, e2, e3, r3.bytes_in)

-- A sale request as SendPacket_CS_AUCTION_REQ_SALE writes it is read back field by field.
pub req_sale_round_trip :
    (block : Packet) (name : List ℕ) (time price : ℕ)
    → IsBlock block
    → IsArray name
    → time < 256
    → price < 2 ^ 32
    → let p0 = payload (req_sale_packet block name time price) in
      let (type, p1) = get_ushort p0 in
      let (array, p2) = get_name p1 in
      let (hours, p3) = get_schar p2 in
      let (least, p4) = get_int p3 in
      (type ≡ some type_req_sale)
      × (array ≡ some name)
      × (hours ≡ some time)
      × (least ≡ some price)
      × (contents p4 ≡ [])
unfolding req_sale_packet put_int put_schar get_ushort get_schar get_int
req_sale_round_trip block name time price b v small fits =
    let w1 = start-Wrote block type_req_sale b in
    let w2 = put_name-Wrote name _ _ 7 v w1 (omega arith) in
    let w3 = Wrote-put_scalar 1 time _ _ 27 w2 (omega arith) in
    let w4 = Wrote-put_scalar 4 price _ _ 28 w3 (omega arith) in
    let r0 =
      payload-Reads block (req_sale_packet block name time price)
        (le_bytes 2 type_req_sale
          ++ (wchar_bytes name ++ (le_bytes 1 time ++ (le_bytes 4 price ++ []))))
        _ 32 b w4 (simp regroup) in
    let (e1, r1) = Reads-get_scalar 2 type_req_sale _ _ r0 (omega arith) in
    let (e2, r2) = get_name-Reads name _ _ v r1 in
    let (e3, r3) = Reads-get_scalar 1 time _ _ r2 (omega arith) in
    let (e4, r4) = Reads-get_scalar 4 price _ _ r3 (omega arith) in (e1, e2, e3, e4, r4.bytes_in)

-- The number that is read in place of the account: the first four letters of the nickname.
misread_account :
    (block : Packet) (name : List ℕ) (account point : ℕ)
    → IsBlock block
    → IsArray name
    → let p1 = (get_ushort (payload (res_player_info_packet block name account point))).1 in
      (get_int64 p1).0 ≡ some (of_le_bytes (take 8 (wchar_bytes name)))
unfolding res_player_info_packet put_int put_int64 get_ushort get_int64
misread_account block name account point b v =
    let w1 = start-Wrote block type_res_player_info b in
    let w2 = put_name-Wrote name _ _ 7 v w1 (omega arith) in
    let w3 = Wrote-put_scalar 8 account _ _ 27 w2 (omega arith) in
    let w4 = Wrote-put_scalar 4 point _ _ 35 w3 (omega arith) in
    let rest = le_bytes 8 account ++ (le_bytes 4 point ++ []) in
    let r0 =
      payload-Reads block (res_player_info_packet block name account point)
        (le_bytes 2 type_res_player_info ++ (wchar_bytes name ++ rest)) _ 39 b w4 (simp regroup) in
    let (e1, r1) = Reads-get_scalar 2 type_res_player_info _ _ r0 (omega arith) in
    Reads-get_scalar_front 8 _ (wchar_bytes name) rest r1
      (omega (arith, length-wchar_bytes name, v.long))

nobody_there :
    (s : Server) (found : Option Player)
    → found ≡ none
    → (f : Player → Outcome (Bool × Server))
    → let r : Outcome (Bool × Server) = elim found as (λ x. Outcome (Bool × Server)) [
      | none ↦ ok (true, s)
      | some other ↦ f other
    ] in
      r ≡ ok (true, s)
nobody_there s none e f = refl
nobody_there s (some other) e f = absurd (ground (arith, e))

-- SendPacket_SS_AUCTION_RES_PLAYER_INFO puts the nickname before the account number, and the procedure
-- that receives it takes the account number first. A player information that is written and received so,
-- in a block of the default size, is accepted and changes nothing, whatever its account and its points are,
-- where PlayerList has no entry under the number that the first four letters of the nickname make.
pub player_info_misread :
    (block : Packet) (name : List ℕ) (account point : ℕ) (stack : List ℕ) (s : Server)
    → IsBlock block
    → IsArray name
    → find s.player_list (of_le_bytes (take 8 (wchar_bytes name))) ≡ none
    → proc_res_player_info stack
        (get_ushort (payload (res_player_info_packet block name account point))).1
        s
      ≡ ok (true, s)
unfolding proc_res_player_info
player_info_misread block name account point stack s b v nobody =
    rw (misread_account block name account point b v)
      (nobody_there s (find s.player_list (of_le_bytes (take 8 (wchar_bytes name)))) nobody _)
