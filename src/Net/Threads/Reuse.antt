-- ===== src/Net/Threads/Reuse.antt =====
-- A thread that findSession has given a session (CNetServer.cpp), and the thread that has read its count of
-- uses before.
use new_name_auction.Prelude.{
  ℕ, ◌+◌, ◌<◌, ◌^◌, ◌≡◌, ◌≢◌, refl, subst, Bool, true, false, List, [], ◌∷◌, ◌++◌, arith, length,
  add32, ◌==◌, ◌||◌, not, if◌then◌else◌,
}
use new_name_auction.Net.State.{make_session_id}
use new_name_auction.Net.Threads.{
  Shared, Phase, asks, saw_valid, counted, unflagged, holds, leaves, requested, release_posted,
  releases, tests, compares, won, took, wrong, cleans, invalidated, logged, opens, named, raised,
  validated, opened, advance, count_up, flag_word, start_shared, ThreadReach, starts, turns, steps,
  calls, pops,
}

-- AcceptThread opens the session of the slot, up to the request of its first receive.
opened_run :
    (i alloc : ℕ) (s : Shared) (ts : List Phase)
    → ThreadReach i false s ts
    → s.free ≡ 1
    → length ts + 1 < 2 ^ 31
    → ThreadReach i false
        (record s {
          session_id = make_session_id alloc i;
          valid = true;
          released = false;
          io_count = add32 s.io_count 1;
          free = 0;
        })
        (requested ∷ ts)
unfolding advance
opened_run i alloc s ts r one room =
    let sid = make_session_id alloc i in
    steps _ opened ts (
      steps _ (validated sid) ts (
        steps _ (raised sid) ts
          (steps _ (named sid) ts (steps _ (opens sid) ts (pops s alloc 0 ts r one room)))))

-- A step that branches, where the test is known.
abbrev Taken : ℕ → List Phase → List Phase × Shared → Type 0
Taken i ts o = ThreadReach i false o.1 (o.0 ++ ts)

then_run :
    (i : ℕ) (ts : List Phase) (b : Bool) (x y : List Phase × Shared)
    → b ≡ true
    → Taken i ts (if b then x else y)
    → Taken i ts x
then_run i ts b x y e = subst (λ b. Taken i ts (if b then x else y)) e

else_run :
    (i : ℕ) (ts : List Phase) (b : Bool) (x y : List Phase × Shared)
    → b ≡ false
    → Taken i ts (if b then x else y)
    → Taken i ts y
else_run i ts b x y e = subst (λ b. Taken i ts (if b then x else y)) e

-- findSession finds the session that it asks for, where the flag is clear.
found_run :
    (i sid : ℕ) (s : Shared) (ts : List Phase)
    → ThreadReach i false s ts
    → s.valid ≡ true
    → s.released ≡ false
    → s.session_id ≡ sid
    → length ts + 1 < 2 ^ 31
    → ThreadReach i false (count_up s) (holds sid ∷ ts)
unfolding advance
found_run i sid s ts r there clear same room =
    let seen =
      then_run i ts s.valid (saw_valid sid ∷ [], s) ([], s) there
        (steps s (asks sid) ts (calls s sid ts r room)) in
    let up = count_up s in
    let passed =
      else_run i ts s.released (leaves ∷ [], up) (unflagged sid ∷ [], up) clear
        (steps up (counted sid) ts (steps s (saw_valid sid) ts seen)) in
    then_run i ts (sid == s.session_id) (holds sid ∷ [], up) (leaves ∷ [], up)
      (ground (arith, same)) (steps up (unflagged sid) ts passed)

-- releaseSession, once it has read the count 0, cleans the session up, where the flag is clear still,
-- whatever the count is by then.
cleaned_run :
    (i sid : ℕ) (s : Shared) (ts : List Phase)
    → ThreadReach i false s (compares sid 0 ∷ ts)
    → s.released ≡ false
    → s.session_id ≡ sid
    → s.double_close ≡ false
    → ThreadReach i false (record s { valid = false; released = true; free = s.free + 1 }) ts
unfolding advance
cleaned_run i sid s ts r clear same once =
    let won_s : Shared = record s { released = true } in
    let flagged =
      then_run i ts (flag_word s.released == 0) (won sid ∷ [], won_s) ([], s)
        (ground (arith, clear)) (steps s (compares sid 0) ts r) in
    let own : (sid == s.session_id) ≡ true = ground (arith, same) in
    let cleaning =
      then_run i ts (sid == s.session_id) (cleans sid ∷ [], won_s) (wrong s.session_id ∷ [], won_s)
        own (steps won_s (took sid s.session_id) ts (steps won_s (won sid) ts flagged)) in
    let closed : Shared = record won_s { valid = false } in
    let tested : Shared = record closed {
      double_close = s.double_close || not (sid == s.session_id);
    } in
    let pushed =
      steps tested (logged sid) ts
        (steps closed (invalidated sid) ts (steps won_s (cleans sid) ts cleaning)) in
    let quiet : (s.double_close || not (sid == s.session_id)) ≡ s.double_close =
      rw (once, own) refl in
    subst (λ d. ThreadReach i false (record closed { double_close = d; free = s.free + 1 }) ts)
      quiet pushed

-- A new session that nobody uses any more, with a thread of releaseSession that has read its count, 0.
pub counted_run :
    (i word alloc : ℕ)
    → ThreadReach i false
        (record (start_shared word) {
          session_id = make_session_id alloc i;
          valid = true;
          free = 0;
        })
        (compares (make_session_id alloc i) 0 ∷ [])
unfolding advance
counted_run i word alloc =
    let opened_first = opened_run i alloc (start_shared word) [] (starts word) refl (omega arith) in
    let asked = steps _ release_posted [] (steps _ leaves [] (steps _ requested [] opened_first)) in
    steps _ (tests (make_session_id alloc i)) []
      (steps _ (releases (make_session_id alloc i)) [] asked)

-- A run in which findSession gives out a session for an identifier, and while it is held releaseSession
-- cleans the session up, and AcceptThread opens the slot for another identifier: it is the live session of
-- this one that is held.
pub held_session_reused :
    (i m n : ℕ)
    → i < 2 ^ 16
    → m < 2 ^ 48
    → n < 2 ^ 48
    → m ≢ n
    → (s : Shared) × (ts : List Phase) × ThreadReach i false s (holds (make_session_id m i) ∷ ts)
      × (s.session_id ≡ make_session_id n i)
      × (make_session_id m i ≢ make_session_id n i)
      × (s.valid ≡ true)
      × (s.released ≡ false)
held_session_reused i m n slot small small' other =
    let old = make_session_id m i in
    let s : Shared = record (start_shared 0) { session_id = old; valid = true; free = 0 } in
    let held =
      found_run i old s (compares old 0 ∷ []) (counted_run i 0 m) refl refl refl (omega arith) in
    let up = count_up s in
    let gone =
      cleaned_run i old up (holds old ∷ []) (turns up (holds old) (compares old 0 ∷ []) held) refl
        refl refl in
    let closed : Shared = record up { valid = false; released = true; free = 1 } in
    let again = opened_run i n closed (holds old ∷ []) gone refl (omega arith) in
    (_, requested ∷ [], turns _ requested (holds old ∷ []) again, refl, differ, refl, refl)
  where
    differ : make_session_id m i ≢ make_session_id n i
    differ e = other (omega (arith, e, slot, small, small'))
