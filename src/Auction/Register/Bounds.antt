-- ===== src/Auction/Register/Bounds.antt =====
-- The numbers of slots that EN_JOB_NICKNAME_REGISTER_ABLE counts.
use new_name_auction.Prelude.{
  ℕ, ◌≡◌, ◌≤◌, refl, sym, ◌∙◌, ap, false, [], ◌∷◌, arith, length, length-append, ok, need, some,
  leb, Ensures, Ensures-bind, Ensures-eq, Ensures-if, Ensures-option, find, insert, update, nat_eq,
  find-update_self, Dict,
}
use new_name_auction.Auction.Text.{wcscpy_s, c_string}
use new_name_auction.Auction.State.{
  Server, Player, InitData, NickNameList, max_user_slot, max_server_slot, call_net, enqueue_db,
  pool_block,
}
use new_name_auction.Auction.Message.{send_res_sale}
use new_name_auction.Auction.OwnList.{empty_entry, own_entry, push_name}
use new_name_auction.Auction.OwnList.Slots.{own_entry-insert, find-own_entry}
use new_name_auction.Auction.Register.{new_auction, list_auction, put_up, register_able}

-- NumOfSales counts the auctions that were put up, and neither it nor the slots of the account are
-- above their limits.
pub record IsBounded (account : ℕ) (s : Server) : Type 0 where
  pub tracked : s.num_of_sales ≡ length s.auctions
  pub server_slots : s.num_of_sales ≤ max_server_slot
  pub user_slots : (own_entry account s.own_list).count ≤ max_user_slot

own_entry-update :
    (account : ℕ) (l l' : NickNameList) (own : Dict ℕ NickNameList)
    → find own account ≡ some l'
    → own_entry account (update account l own) ≡ l
unfolding own_entry
own_entry-update account l l' own e = ground (arith, find-update_self account l l' own)

put_up-IsBounded :
    (now sid account : ℕ) (d : InitData) (player : Player) (s : Server) (l' : NickNameList)
    → IsBounded account s
    → find s.own_list account ≡ some l'
    → leb max_user_slot (own_entry account s.own_list).count ≡ false
    → leb max_server_slot s.num_of_sales ≡ false
    → Ensures (IsBounded account) (put_up now sid account d player s)
unfolding put_up list_auction send_res_sale call_net enqueue_db
put_up-IsBounded now sid account d player s l' v here user server =
    Ensures-bind P (wcscpy_s s.fresh.auction.nick_name player.nick_name) _ λ nick_name _.
      Ensures-bind P (need (c_string nick_name)) _ λ name _.
        Ensures-bind P (wcscpy_s (pool_block s.db_job_pool s.fresh.db_job).my_nick_name nick_name) _
          λ my_nick_name _.
            let a = new_auction s.fresh.auction now account d nick_name in
            record {
              tracked = omega (arith, v.tracked, length-append s.auctions (a ∷ []));
              server_slots = ground arith;
              user_slots =
                  rw
                    (own_entry-update account (push_name name (own_entry account s.own_list)) l'
                      s.own_list here)
                    (ground arith);
            }
  where
    P : Server → Type 0
    P = IsBounded account

IsBounded-subst :
    (account : ℕ) (s s' : Server)
    → IsBounded account s
    → s'.num_of_sales ≡ s.num_of_sales
    → s'.auctions ≡ s.auctions
    → s'.own_list ≡ s.own_list
    → IsBounded account s'
IsBounded-subst account s s' v sales auctions own = record {
  tracked = sales ∙ v.tracked ∙ ap length (sym auctions);
  server_slots = rw sales v.server_slots;
  user_slots = rw own v.user_slots;
}

register_able_kept :
    (now sid account : ℕ) (s : Server)
    → IsBounded account s
    → Ensures (IsBounded account) (register_able now sid account s)
unfolding register_able send_res_sale call_net
register_able_kept now sid account s v =
    Ensures-if P (leb max_user_slot (own_entry account own).count) _ _ (λ _. kept _ refl refl refl)
      λ user.
        Ensures-if P (leb max_server_slot s.num_of_sales) _ _ (λ _. kept _ refl refl refl)
          λ server.
            Ensures-option P (find s.waiting account) _ _ (λ _. plain)
              λ d _.
                Ensures-option P (find s.player_list account) _ _ (λ _. kept _ refl refl refl)
                  λ player _.
                    put_up-IsBounded now sid account d player _ (own_entry account s.own_list)
                      (kept _ refl refl refl) (find-own_entry account s.own_list) user server
  where
    P : Server → Type 0
    P = IsBounded account

    own : Dict ℕ NickNameList
    own = insert account empty_entry s.own_list

    plain : IsBounded account (record s { own_list = own })
    plain = record {
      tracked = v.tracked;
      server_slots = v.server_slots;
      user_slots = rw (own_entry-insert account s.own_list) v.user_slots;
    }

    kept :
        (s' : Server)
        → s'.num_of_sales ≡ s.num_of_sales
        → s'.auctions ≡ s.auctions
        → s'.own_list ≡ own
        → IsBounded account s'
    kept s' = IsBounded-subst account (record s { own_list = own }) s' plain

-- Where the job of a granted sale returns, NumOfSales still counts the auctions put up, and neither it
-- nor the slots of the account are above their limits, if so before.
pub register_able-IsBounded :
    (now sid account : ℕ) (s s' : Server)
    → IsBounded account s
    → register_able now sid account s ≡ ok s'
    → IsBounded account s'
register_able-IsBounded now sid account s s' v e =
    Ensures-eq (IsBounded account) _ s' (register_able_kept now sid account s v) e
