-- ===== src/Auction/Update/Stall.antt =====
-- LastUpdateTime_ms, the timer of Update (AuctionServer.cpp).
use new_name_auction.Prelude.{
  ℕ, ◌+◌, ◌≤◌, ◌<◌, ◌^◌, ◌≡◌, refl, List, [], ◌∷◌, arith, ltb, sub64, Outcome, ok, ◌>>=◌, false,
}
use new_name_auction.Auction.State.{Server}
use new_name_auction.Auction.Update.{update_server}

-- A call at most five seconds after the one before does nothing but move the timer.
update_server_early :
    (now : ℕ) (draws : List ℕ) (s : Server)
    → s.last_update_ms ≤ now
    → now < 2 ^ 64
    → now ≤ s.last_update_ms + 5_000
    → update_server now draws s ≡ ok (record s { last_update_ms = now })
unfolding update_server
update_server_early now draws s after fits soon = rw (minute, five_seconds) refl
  where
    minute : ltb 60_000 (sub64 now s.last_update_ms) ≡ false
    minute = ground arith

    five_seconds : ltb 5_000 (sub64 now s.last_update_ms) ≡ false
    five_seconds = ground arith

-- A run of calls, at the times given.
pub update_calls : List (ℕ × List ℕ) → Server → Outcome Server
update_calls [] s = ok s
update_calls ((now, draws) ∷ calls) s = update_server now draws s >>= update_calls calls

-- Each call comes at most five seconds after the one before, and the clock does not run backwards.
abbrev pub Frequent : ℕ → List (ℕ × List ℕ) → Type 0
Frequent last [] = Unit
Frequent last ((now, draws) ∷ calls) =
    (last ≤ now) × (now < 2 ^ 64) × (now ≤ last + 5_000) × Frequent now calls

abbrev pub last_call : ℕ → List (ℕ × List ℕ) → ℕ
last_call last [] = last
last_call last ((now, draws) ∷ calls) = last_call now calls

-- As long as the calls of Update come no more than five seconds apart, no run of them changes
-- anything but the timer: no auction becomes imminent, none ends, nobody is told.
pub update_calls_stall :
    (calls : List (ℕ × List ℕ)) (s : Server)
    → Frequent s.last_update_ms calls
    → update_calls calls s ≡ ok (record s { last_update_ms = last_call s.last_update_ms calls })
unfolding update_calls
update_calls_stall [] s f = refl
update_calls_stall ((now, draws) ∷ calls) s (after, fits, soon, rest) =
    rw (update_server_early now draws s after fits soon)
      (update_calls_stall calls (record s { last_update_ms = now }) rest)
