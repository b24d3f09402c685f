-- ===== src/Auction/Update.antt =====
-- Update of AuctionServer.cpp: the periodic sweeps over the auctions. `now` is the clock in
-- milliseconds, `draws` what the random generator yields, a number for each use.
pub mod Stall
pub mod PriceOrder
pub mod Rule
use new_name_auction.Prelude.{
  ℕ, ◌*◌, Bool, true, false, List, [], ◌∷◌, ◌++◌, Option, none, some, Outcome, ok, fault, need,
  ◌>>=◌, ltb, add64, sub64, if◌then◌else◌, ◌==◌, str_eq, Dict, insert, get_elem?, set,
}
use new_name_auction.SessionSet.{set_clear, set_sessions}
use new_name_auction.Auction.Text.{Text, wcscpy_s}
use new_name_auction.Auction.State.{
  Server, Player, Auction, Status, sale, imminent, fin, fin_fail, status_code, nickname_sold,
  pool_block, enqueue_db,
}
use new_name_auction.Auction.Message.{send_res_expire}

-- The result of `range(random_generator)`, and the draws that are left.
abbrev pub draw : List ℕ → ℕ
draw [] = 8 * 60_000
draw (d ∷ ds) = d

abbrev pub draws_left : List ℕ → List ℕ
draws_left [] = []
draws_left (d ∷ ds) = ds

-- An auction that enters its last minutes.
abbrev pub make_imminent : ℕ → Auction → Auction
make_imminent extra a = record a { status = imminent; end_time = add64 a.end_time extra }

-- The sweep of CellList: `left` is what the iterator has not reached yet; what has ended moves to
-- ImminentList, the rest is kept.
unfoldable pub sweep_cells : ℕ → List ℕ → Dict Text ℕ → Server → Outcome Server
sweep_cells now draws [] s = ok s
sweep_cells now draws ((name, i) ∷ left) s = need (get_elem? s.auctions i) >>= λ a.
    elim (ltb a.end_time now) [
      | true ↦ sweep_cells now (draws_left draws) left (record s {
        auctions = set s.auctions i (make_imminent (draw draws) a);
        imminent_list = insert name i s.imminent_list;
      })
      | false ↦
          sweep_cells now draws left (record s { cell_list = s.cell_list ++ ((name, i) ∷ []) })
    ]

abbrev pub finished : Status → Bool
finished sale = false
finished imminent = false
finished fin = true
finished fin_fail = true

-- The last element of a list: what `rbegin` leads to.
abbrev pub last_elem? : List ℕ → Option ℕ
last_elem? [] = none
last_elem? (i ∷ []) = some i
last_elem? (i ∷ j ∷ is) = last_elem? (j ∷ is)

-- The loops over the time lists look at the last element. `erase(iter.base())` with `iter` at
-- `rbegin` erases the iterator past the end, which the list does not allow.
unfoldable pub trim_time_order24 : Server → Outcome Server
trim_time_order24 s = elim (last_elem? s.time_order24) [
  | none ↦ ok s
  | some i ↦ need (get_elem? s.auctions i) >>= λ a. if finished a.status then fault else ok s
]

unfoldable pub trim_time_order48 : ℕ → Server → Outcome Server
trim_time_order48 now s = elim (last_elem? s.time_order48) [
  | none ↦ ok s
  | some i ↦ need (get_elem? s.auctions i) >>= λ a.
      if ltb a.end_time (add64 now 86_400_000) then fault else ok s
]

-- CellList_PriceOrder without the auctions that are over.
unfoldable pub trim_price_order : List Auction → List (ℕ × ℕ) → Outcome (List (ℕ × ℕ))
trim_price_order auctions [] = ok []
trim_price_order auctions ((key, i) ∷ rest) = need (get_elem? auctions i) >>= λ a.
    trim_price_order auctions rest >>= λ kept.
    ok (if finished a.status then kept else (key, i) ∷ kept)

-- What runs once a minute.
unfoldable pub minute_sweep : ℕ → List ℕ → Server → Outcome Server
minute_sweep now draws s = do
  s1 ← sweep_cells now draws s.cell_list (record s { cell_list = [] })
  s2 ← trim_time_order24 s1
  s3 ← trim_time_order48 now s2
  order ← trim_price_order s3.auctions s3.price_order
  ok (record s3 { price_order = order })

abbrev pub player_sessions : Dict ℕ Player → List ℕ
player_sessions [] = []
player_sessions ((sid, player) ∷ rest) = player.session_id ∷ player_sessions rest

-- An auction that is over: sold if someone has bid.
abbrev pub finish : Auction → Auction
finish a = record a { status = if a.bidder_id == 0 then fin_fail else fin }

-- The end of one auction: the lists, the message to the sessions, the job for the database.
unfoldable pub expire : List ℕ → Text → ℕ → Auction → Server → Outcome Server
expire sids name i a s = do
  let over = finish a
  let moved = record s {
    auctions = set s.auctions i over;
    fin_list = if a.bidder_id == 0 then s.fin_list else i ∷ s.fin_list;
    fin_map = if a.bidder_id == 0 then s.fin_map else insert name i s.fin_map;
  }
  let block = pool_block moved.db_job_pool moved.fresh.db_job
  my_nick_name ← wcscpy_s block.my_nick_name over.nick_name
  ok (
      enqueue_db
        (record block {
          job_type = nickname_sold;
          account_no = over.bidder_id;
          count = over.count;
          my_nick_name = my_nick_name;
        })
        (send_res_expire sids over.nick_name (status_code over.status) moved))

-- The sweep of ImminentList, as that of CellList.
unfoldable pub sweep_imminent : ℕ → List ℕ → Dict Text ℕ → Server → Outcome Server
sweep_imminent now sids [] s = ok s
sweep_imminent now sids ((name, i) ∷ left) s = need (get_elem? s.auctions i) >>= λ a.
    elim (ltb a.end_time now) [
      | true ↦ expire sids name i a s >>= sweep_imminent now sids left
      | false ↦
          sweep_imminent now sids left
            (record s { imminent_list = s.imminent_list ++ ((name, i) ∷ []) })
    ]

-- What runs every five seconds.
unfoldable pub five_second_sweep : ℕ → Server → Outcome Server
five_second_sweep now s =
    sweep_imminent now (set_sessions (player_sessions s.player_list) set_clear).session_array
      s.imminent_list (record s { imminent_list = [] })

-- Update
unfoldable pub update_server : ℕ → List ℕ → Server → Outcome Server
update_server now draws s = do
  s1 ← (if ltb 60_000 (sub64 now s.last_update_ms) then minute_sweep now draws s else ok s)
  s2 ← (if ltb 5_000 (sub64 now s1.last_update_ms) then five_second_sweep now s1 else ok s1)
  ok (record s2 { last_update_ms = now })
