-- ===== src/Net/Threads/Attended.antt =====
-- That a session of CNetServer.cpp which nobody uses any more is released, whatever turns its threads take.
use new_name_auction.Prelude.{
  ℕ, ◌+◌, ◌≤◌, ◌≡◌, refl, sym, ap, subst, ◌∙◌, inl, inr, true, false, List, [], ◌∷◌, ◌++◌, arith,
  ◌==◌, ◌||◌, not, if◌then◌else◌, Bool-cases,
}
use new_name_auction.Net.Threads.{
  Shared, Phase, asks, saw_valid, counted, unflagged, holds, leaves, requested, release_posted,
  releases, tests, compares, won, took, wrong, restores, drops, cleans, invalidated, logged, opens,
  named, raised, validated, opened, uses, advance, count_up, count_down, flag_word, ThreadReach,
  starts, turns, steps, calls, requests, gives_back, refused, first_refused, pops,
}
use new_name_auction.Net.State.{make_session_id}
use new_name_auction.Net.Threads.Exclusion.{owns, total}
use new_name_auction.Net.Threads.Steps.{IsConsistent}
use new_name_auction.Net.Threads.Advance.{advance-IsConsistent}
use new_name_auction.Net.Threads.Reach.{ThreadReach-IsConsistent, total-last}

-- Whether a thread is on its way to release the session, and so far nothing is in its way.
abbrev pub attends : Phase → ℕ
attends release_posted = 1
attends (releases _) = 1
attends (tests _) = 1
attends (compares _ temp) = if temp == 0 then 1 else 0
attends _ = 0

-- A session that is live and that nobody uses is attended to.
abbrev pub IsAttended : Shared → List Phase → Type 0
IsAttended s ts = s.free + total owns ts ≡ 0 → s.io_count ≡ 0 → 1 ≤ total attends ts

-- Where somebody owns the session, or uses it, nobody has to attend to it.
owned-IsAttended : (s : Shared) (t : Phase) (ts : List Phase) → owns t ≡ 1 → IsAttended s (t ∷ ts)
unfolding total
owned-IsAttended s t ts own nobody _ = absurd (omega (arith, own, nobody))

used-IsAttended :
    (s : Shared) (t : Phase) (ts : List Phase)
    → IsConsistent s (t ∷ ts)
    → uses t ≡ 1
    → IsAttended s (t ∷ ts)
unfolding total
used-IsAttended s t ts is used _ unused = absurd (omega (arith, is.in_use, used, unused))

-- A thread that does not attend ends, or goes on, with the session as it was.
ended-IsAttended :
    (s : Shared) (t : Phase) (ts : List Phase)
    → IsAttended s (t ∷ ts)
    → owns t ≡ 0
    → attends t ≡ 0
    → IsAttended s ts
unfolding total
ended-IsAttended s t ts before idle away nobody unused =
    omega (arith, before (omega (arith, nobody, idle)) unused, away)

attending-IsAttended :
    (s : Shared) (t : Phase) (ts : List Phase) → attends t ≡ 1 → IsAttended s (t ∷ ts)
unfolding total
attending-IsAttended s t ts one _ _ = omega (arith, one)

-- Whoever lowers the count to 0 attends to the session.
lowered-IsAttended :
    (s : Shared) (t : Phase) (ts : List Phase)
    → attends t ≡ 1
    → let r : List Phase × Shared =
        if (count_down s).io_count == 0 then (t ∷ [], count_down s) else ([], count_down s) in
      IsAttended r.1 (r.0 ++ ts)
lowered-IsAttended s t ts one = elim (Bool-cases ((count_down s).io_count == 0)) [
  | inl last ↦ simp last (attending-IsAttended (count_down s) t ts one)
  | inr more ↦ simp more (λ _ unused. ground (arith, more, unused))
]

compares-IsAttended :
    (sid temp : ℕ) (s : Shared) (ts : List Phase)
    → IsConsistent s (compares sid temp ∷ ts)
    → IsAttended s (compares sid temp ∷ ts)
    → IsAttended (advance (compares sid temp) s).1 ((advance (compares sid temp) s).0 ++ ts)
unfolding advance total
compares-IsAttended sid temp s ts is before = elim (Bool-cases (flag_word s.released == temp)) [
  | inl same ↦ simp same (owned-IsAttended (record s { released = true }) (won sid) ts refl)
  | inr other ↦ simp other λ nobody unused.
      let clear = (is.live (omega (arith, nobody))).1 in
      let away : attends (compares sid temp) ≡ 0 = ground (arith, other, clear) in
      ended-IsAttended s (compares sid temp) ts before refl away nobody unused
]

pub advance-IsAttended :
    (t : Phase) (s : Shared) (ts : List Phase)
    → IsConsistent s (t ∷ ts)
    → IsAttended s (t ∷ ts)
    → IsAttended (advance t s).1 ((advance t s).0 ++ ts)
unfolding advance total
advance-IsAttended (asks sid) s ts is before = elim (Bool-cases s.valid) [
  | inl there ↦ simp there (λ nobody unused. before nobody unused)
  | inr gone ↦ simp gone (ended-IsAttended s (asks sid) ts before refl refl)
]
advance-IsAttended (saw_valid sid) s ts is before =
    used-IsAttended (count_up s) (counted sid) ts (advance-IsConsistent (saw_valid sid) s ts is)
      refl
advance-IsAttended (counted sid) s ts is before = elim (Bool-cases s.released) [
  | inl flagged ↦ simp flagged (λ nobody unused. before nobody unused)
  | inr clear ↦ simp clear (λ nobody unused. before nobody unused)
]
advance-IsAttended (unflagged sid) s ts is before = elim (Bool-cases (sid == s.session_id)) [
  | inl same ↦ simp same (λ nobody unused. before nobody unused)
  | inr other ↦ simp other (λ nobody unused. before nobody unused)
]
advance-IsAttended (holds sid) s ts is before = before
advance-IsAttended requested s ts is before = before
advance-IsAttended leaves s ts is before = lowered-IsAttended s release_posted ts refl
advance-IsAttended release_posted s ts is before = before
advance-IsAttended (releases sid) s ts is before = elim (Bool-cases s.valid) [
  | inl there ↦ simp there (λ nobody unused. before nobody unused)
  | inr gone ↦
      simp gone (λ nobody unused. ground (arith, gone, (is.live (omega (arith, nobody))).0))
]
advance-IsAttended (tests sid) s ts is before = λ nobody unused. ground (arith, unused)
advance-IsAttended (compares sid temp) s ts is before = compares-IsAttended sid temp s ts is before
advance-IsAttended (won sid) s ts is before = owned-IsAttended s (took sid s.session_id) ts refl
advance-IsAttended (took sid temp_id) s ts is before = elim (Bool-cases (sid == s.session_id)) [
  | inl same ↦ simp same (owned-IsAttended s (cleans sid) ts refl)
  | inr other ↦ simp other (owned-IsAttended s (wrong temp_id) ts refl)
]
advance-IsAttended (wrong temp_id) s ts is before =
    owned-IsAttended (count_up s) (restores temp_id) ts refl
advance-IsAttended (restores temp_id) s ts is before =
    used-IsAttended (record s { released = false }) (drops temp_id) ts
      (advance-IsConsistent (restores temp_id) s ts is) refl
advance-IsAttended (drops temp_id) s ts is before = lowered-IsAttended s (releases temp_id) ts refl
advance-IsAttended (cleans sid) s ts is before =
    owned-IsAttended (record s { valid = false }) (invalidated sid) ts refl
advance-IsAttended (invalidated sid) s ts is before =
    owned-IsAttended (record s { double_close = s.double_close || not (sid == s.session_id) })
      (logged sid) ts refl
advance-IsAttended (logged sid) s ts is before = λ nobody _. absurd (omega (arith, nobody))
advance-IsAttended (opens sid) s ts is before =
    owned-IsAttended (record s { session_id = sid }) (named sid) ts refl
advance-IsAttended (named sid) s ts is before = owned-IsAttended (count_up s) (raised sid) ts refl
advance-IsAttended (raised sid) s ts is before =
    owned-IsAttended (record s { valid = true }) (validated sid) ts refl
advance-IsAttended (validated sid) s ts is before =
    used-IsAttended (record s { released = false }) opened ts
      (advance-IsConsistent (validated sid) s ts is) refl
advance-IsAttended opened s ts is before = before

ThreadReach-IsAttended :
    (i : ℕ) (s : Shared) (ts : List Phase) → ThreadReach i false s ts → IsAttended s ts
unfolding total
ThreadReach-IsAttended i _ _ (starts word) = λ nobody _. absurd (omega (arith, nobody))
ThreadReach-IsAttended i _ _ (turns s t ts r) =
    let before = ThreadReach-IsAttended i s (t ∷ ts) r in
    λ nobody unused.
      subst (λ n. 1 ≤ n) (sym (total-last attends t ts))
        (before (ap (λ n. s.free + n) (sym (total-last owns t ts)) ∙ nobody) unused)
ThreadReach-IsAttended i _ _ (steps s t ts r) =
    advance-IsAttended t s ts (ThreadReach-IsConsistent i false s (t ∷ ts) r)
      (ThreadReach-IsAttended i s (t ∷ ts) r)
ThreadReach-IsAttended i _ _ (calls s sid ts r room) =
    let before = ThreadReach-IsAttended i s ts r in
    λ nobody unused. omega (arith, before (omega (arith, nobody)) unused)
ThreadReach-IsAttended i _ _ (gives_back s sid ts r) = ThreadReach-IsAttended i s (holds sid ∷ ts) r
ThreadReach-IsAttended i _ _ (requests s t ts r used room) =
    used-IsAttended (count_up s) requested (t ∷ ts)
      (ThreadReach-IsConsistent i false (count_up s) (requested ∷ t ∷ ts)
        (requests s t ts r used room))
      refl
ThreadReach-IsAttended i _ _ (refused s t ts r used) =
    used-IsAttended (count_down s) t ts
      (ThreadReach-IsConsistent i false (count_down s) (t ∷ ts) (refused s t ts r used)) used
ThreadReach-IsAttended i _ _ (first_refused s ts r refusing) = ground (arith, refusing)
ThreadReach-IsAttended i _ _ (pops s alloc k ts r some_free room) =
    owned-IsAttended (record s { free = k }) (opens (make_session_id alloc i)) ts refl

-- Whatever turns the threads take, as long as no first receive is refused: where nobody has the session to
-- itself and its count of uses is 0, a call of releaseSession for it is posted or under way and has not
-- failed, so that no session that is not used any more is forgotten.
pub ThreadReach-attended :
    (i : ℕ) (s : Shared) (ts : List Phase)
    → ThreadReach i false s ts
    → s.free + total owns ts ≡ 0
    → s.io_count ≡ 0
    → 1 ≤ total attends ts
ThreadReach-attended i s ts r = ThreadReach-IsAttended i s ts r
