-- ===== src/Auction/Register.antt =====
-- EN_JOB_NICKNAME_REGISTER_ABLE of LogicThread: an auction is put up for a nickname.
pub mod Bounds
use new_name_auction.Prelude.{
  ℕ, ◌+◌, ◌-◌, Bool, ◌&&◌, ◌*◌, ◌^◌, List, [], ◌∷◌, ◌++◌, none, some, Outcome, ok, need, ◌>>=◌, leb,
  slt32, add64, sub64, if◌then◌else◌, nat_eq, str_eq, find, insert, update, erase, length, ltb,
}
use new_name_auction.Auction.Text.{Text, c_string, wcscpy_s}
use new_name_auction.Auction.State.{
  Server, Player, Auction, InitData, sale, max_user_slot, max_server_slot, register_success,
  register_fail_user_slot, register_fail_server_slot, nickname_change_check, pool_block, enqueue_db,
}
use new_name_auction.Auction.Message.{send_res_sale}
use new_name_auction.Auction.OwnList.{empty_entry, own_entry, push_name}

-- `(uint64_t)Time` of an INT8: the sign is extended.
abbrev pub sign_extend8 : ℕ → ℕ
sign_extend8 t = if ltb t 128 then t else t + (2 ^ 64 - 256)

-- `curTime + (uint64_t)Time * 60 * 60 * 1000 - 10 * 60 * 1000`
unfoldable pub end_time_of : ℕ → ℕ → ℕ
end_time_of now time = sub64 (add64 now (sign_extend8 time * 3_600_000)) 600_000

-- The order of CellList_PriceOrder, greater<int>.
abbrev price_before : ℕ → ℕ → Bool
price_before a b = slt32 b a

-- `multimap::insert` under greater<int>: behind the entries whose key is not below the new one.
unfoldable pub price_insert : ℕ → ℕ → List (ℕ × ℕ) → List (ℕ × ℕ)
price_insert price i [] = (price, i) ∷ []
price_insert price i ((key, j) ∷ rest) =
    if price_before price key
    then (price, i) ∷ (key, j) ∷ rest
    else (key, j) ∷ price_insert price i rest

-- `Time > 24` on an INT8.
abbrev pub long_sale : ℕ → Bool
long_sale time = ltb 24 time && ltb time 128

-- The auction of a sale, in the block that the pool hands out.
abbrev pub new_auction : Auction → ℕ → ℕ → InitData → List ℕ → Auction
new_auction block now account d nick_name = record block {
  bidder_id = 0;
  count = 0;
  start_time = now;
  end_time = end_time_of now d.time;
  owner_id = account;
  price = d.price;
  status = sale;
  nick_name = nick_name;
}

-- The containers after a sale of auction `i`, and the slots of its owner.
unfoldable pub list_auction : ℕ → ℕ → Text → InitData → Auction → Server → Server
list_auction account i name d a s = record s {
  auctions = s.auctions ++ (a ∷ []);
  cell_list = insert name i s.cell_list;
  price_order = price_insert d.price i s.price_order;
  time_order48 = if long_sale d.time then i ∷ s.time_order48 else s.time_order48;
  time_order24 = if long_sale d.time then s.time_order24 else i ∷ s.time_order24;
  own_list = update account (push_name name (own_entry account s.own_list)) s.own_list;
  num_of_sales = s.num_of_sales + 1;
}

-- A sale that has passed the checks, by the player that PlayerList holds for the account.
unfoldable pub put_up : ℕ → ℕ → ℕ → InitData → Player → Server → Outcome Server
put_up now sid account d player s = do
  nick_name ← wcscpy_s s.fresh.auction.nick_name player.nick_name
  name ← need (c_string nick_name)
  let a = new_auction s.fresh.auction now account d nick_name
  let s' = send_res_sale sid register_success (list_auction account (length s.auctions) name d a s)
  let block = pool_block s'.db_job_pool s'.fresh.db_job
  my_nick_name ← wcscpy_s block.my_nick_name nick_name
  ok (
      enqueue_db
        (record block {
          job_type = nickname_change_check;
          account_no = account;
          session_id = sid;
          my_nick_name = my_nick_name;
        })
        s')

-- The checks of the slots, then the sale that waits for the account.
unfoldable pub register_able : ℕ → ℕ → ℕ → Server → Outcome Server
register_able now sid account s0 =
    let s = record s0 { own_list = insert account empty_entry s0.own_list } in
    if leb max_user_slot (own_entry account s.own_list).count
    then ok (send_res_sale sid register_fail_user_slot s)
    else if leb max_server_slot s.num_of_sales
    then ok (send_res_sale sid register_fail_server_slot s)
    else elim (find s.waiting account) [
      | none ↦ ok s
      | some d ↦
          let s' = record s { waiting = erase account s.waiting } in
          elim (find s'.player_list account) [
            | none ↦ ok s'
            | some player ↦ put_up now sid account d player s'
          ]
    ]
