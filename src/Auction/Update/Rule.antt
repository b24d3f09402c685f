-- ===== src/Auction/Update/Rule.antt =====
-- The rule for what Update keeps: a predicate that each of its small steps keeps.
use new_name_auction.Prelude.{
  ℕ, ◌≡◌, sym, subst, inl, inr, List, [], ◌∷◌, some, arith, get_elem?, set, ltb, sub64, Dict,
  str_eq, insert, ok, need, Ensures, Ensures-bind, Ensures-eq, Ensures-if, if◌then◌else◌,
  Bool-cases,
}
use new_name_auction.Auction.State.{Server, Auction}
use new_name_auction.Auction.Text.{Text}
use new_name_auction.Auction.Update.{
  draw, draws_left, make_imminent, sweep_cells, trim_time_order24, trim_time_order48,
  trim_price_order, minute_sweep, expire, sweep_imminent, five_second_sweep, update_server,
}

-- The small steps keep `P`.
pub record IsKept (P : Server → Type 0) : Type 0 where
  pub to_imminent :
      (s : Server) (name : Text) (i extra : ℕ) (a : Auction)
      → P s
      → get_elem? s.auctions i ≡ some a
      → P (record s {
        auctions = set s.auctions i (make_imminent extra a);
        imminent_list = insert name i s.imminent_list;
      })
  pub cells : (s : Server) (d : Dict Text ℕ) → P s → P (record s { cell_list = d })
  pub imminents : (s : Server) (d : Dict Text ℕ) → P s → P (record s { imminent_list = d })
  pub order : (s : Server) (l : List (ℕ × ℕ)) → P s → P (record s { price_order = l })
  pub timer : (s : Server) (now : ℕ) → P s → P (record s { last_update_ms = now })
  pub expiry :
      (sids : List ℕ) (name : Text) (i : ℕ) (a : Auction) (s s' : Server)
      → P s
      → get_elem? s.auctions i ≡ some a
      → expire sids name i a s ≡ ok s'
      → P s'

module _ (P : Server → Type 0) (kept : IsKept P) where
  sweep_cells-kept :
      (now : ℕ) (draws : List ℕ) (left : Dict Text ℕ) (s : Server)
      → P s
      → Ensures P (sweep_cells now draws left s)
  unfolding sweep_cells
  sweep_cells-kept now draws [] s h = h
  sweep_cells-kept now draws ((name, i) ∷ left) s h =
      Ensures-bind P (need (get_elem? s.auctions i)) _ λ a e.
        elim (Bool-cases (ltb a.end_time now)) [
          | inl over ↦ rw over (
              sweep_cells-kept now (draws_left draws) left _
                (kept.to_imminent s name i (draw draws) a h (ground arith)))
          | inr later ↦ rw later (sweep_cells-kept now draws left _ (kept.cells s _ h))
        ]

  minute_sweep-kept :
      (now : ℕ) (draws : List ℕ) (s : Server) → P s → Ensures P (minute_sweep now draws s)
  unfolding minute_sweep trim_time_order24 trim_time_order48
  minute_sweep-kept now draws s h =
      Ensures-bind P (sweep_cells now draws s.cell_list (record s { cell_list = [] })) _ λ s1 e1.
        let h1 =
          Ensures-eq P _ s1
            (sweep_cells-kept now draws s.cell_list (record s { cell_list = [] })
              (kept.cells s [] h))
            e1 in
        Ensures-bind P (trim_time_order24 s1) _ λ s2 e2.
          Ensures-bind P (trim_time_order48 now s2) _ λ s3 e3.
            Ensures-bind P (trim_price_order s3.auctions s3.price_order) _
              λ l _. let same : s3 ≡ s1 = ground arith in kept.order s3 l (subst P (sym same) h1)

  sweep_imminent-kept :
      (now : ℕ) (sids : List ℕ) (left : Dict Text ℕ) (s : Server)
      → P s
      → Ensures P (sweep_imminent now sids left s)
  unfolding sweep_imminent
  sweep_imminent-kept now sids [] s h = h
  sweep_imminent-kept now sids ((name, i) ∷ left) s h =
      Ensures-bind P (need (get_elem? s.auctions i)) _ λ a e.
        elim (Bool-cases (ltb a.end_time now)) [
          | inl over ↦ rw over (
              Ensures-bind P (expire sids name i a s) _ λ s1 e1.
                sweep_imminent-kept now sids left s1
                  (kept.expiry sids name i a s s1 h (ground arith) e1))
          | inr later ↦ rw later (sweep_imminent-kept now sids left _ (kept.imminents s _ h))
        ]

  first_part :
      (now : ℕ) (draws : List ℕ) (s : Server)
      → P s
      → Ensures P
          (if ltb 60_000 (sub64 now s.last_update_ms) then minute_sweep now draws s else ok s)
  first_part now draws s h =
      Ensures-if P (ltb 60_000 (sub64 now s.last_update_ms)) _ _
        (λ _. minute_sweep-kept now draws s h) (λ _. h)

  second_part :
      (now : ℕ) (s : Server)
      → P s
      → Ensures P (if ltb 5_000 (sub64 now s.last_update_ms) then five_second_sweep now s else ok s)
  unfolding five_second_sweep
  second_part now s h =
      Ensures-if P (ltb 5_000 (sub64 now s.last_update_ms)) _ _
        (λ _. sweep_imminent-kept now _ s.imminent_list _ (kept.imminents s [] h)) (λ _. h)

  -- Then a call of Update keeps it.
  pub update_server-kept :
      (now : ℕ) (draws : List ℕ) (s : Server) → P s → Ensures P (update_server now draws s)
  unfolding update_server
  update_server-kept now draws s h =
      Ensures-bind P
        (if ltb 60_000 (sub64 now s.last_update_ms) then minute_sweep now draws s else ok s) _
        λ s1 e1.
          Ensures-bind P
            (if ltb 5_000 (sub64 now s1.last_update_ms) then five_second_sweep now s1 else ok s1) _
            λ s2 e2. kept.timer s2 now (
              Ensures-eq P _ s2
                (second_part now s1 (Ensures-eq P _ s1 (first_part now draws s h) e1)) e2)
