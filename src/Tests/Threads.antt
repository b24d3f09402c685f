-- ===== src/Tests/Threads.antt =====
-- The threads at the session of slot 7.
use new_name_auction.Prelude.{◌+◌, ◌≤◌, ◌≡◌, ◌≢◌, refl, true, false, List, [], ◌∷◌, arith}
use new_name_auction.Net.State.{make_session_id}
use new_name_auction.Net.Threads.{
  Shared, Phase, asks, named, opens, holds, compares, uses, advance, start_shared, ThreadReach,
  starts, calls, pops, steps,
}
use new_name_auction.Net.Threads.Exclusion.{owns, total}
use new_name_auction.Net.Threads.Reach.{ThreadReach-exclusive, ThreadReach-unlogged}
use new_name_auction.Net.Threads.Attended.{attends, ThreadReach-attended}
use new_name_auction.Net.Threads.Reuse.{counted_run, held_session_reused}

-- AcceptThread has stored the identifier while findSession is called for another.
abbrev opening : Shared
opening = record (start_shared 5) { session_id = make_session_id 3 7; free = 0 }

abbrev at_opening : List Phase
at_opening = named (make_session_id 3 7) ∷ asks 9 ∷ []

opening_reached : ThreadReach 7 true opening at_opening
unfolding advance
opening_reached = steps _ (opens (make_session_id 3 7)) (asks 9 ∷ []) (
    pops (start_shared 5) 3 0 (asks 9 ∷ []) (calls (start_shared 5) 9 [] (starts 5) (omega arith))
      refl (omega arith))

ThreadReach-exclusive_example :
    (opening.free + total owns at_opening ≤ 1)
    × (opening.free + total owns at_opening ≡ 0
        → (opening.valid ≡ true) × (opening.released ≡ false))
    × (opening.io_count ≡ total uses at_opening)
ThreadReach-exclusive_example = ThreadReach-exclusive 7 true opening at_opening opening_reached

ThreadReach-unlogged_example : (opening.wrong_use ≡ false) × (opening.double_close ≡ false)
ThreadReach-unlogged_example = ThreadReach-unlogged 7 true opening at_opening opening_reached

-- The session of the fourth connection, which nobody uses any more.
abbrev unused : Shared
unused = record (start_shared 5) { session_id = make_session_id 3 7; valid = true; free = 0 }

abbrev at_unused : List Phase
at_unused = compares (make_session_id 3 7) 0 ∷ []

nobody_owns : unused.free + total owns at_unused ≡ 0
unfolding total
nobody_owns = refl

ThreadReach-attended_example : 1 ≤ total attends at_unused
ThreadReach-attended_example =
    ThreadReach-attended 7 unused at_unused (counted_run 7 5 3) nobody_owns refl

held_session_reused_example :
    (s : Shared) × (ts : List Phase) × ThreadReach 7 false s (holds (make_session_id 0 7) ∷ ts)
    × (s.session_id ≡ make_session_id 1 7)
    × (make_session_id 0 7 ≢ make_session_id 1 7)
    × (s.valid ≡ true)
    × (s.released ≡ false)
held_session_reused_example =
    held_session_reused 7 0 1 (omega arith) (omega arith) (omega arith)
      (λ e. absurd (omega (arith, e)))
