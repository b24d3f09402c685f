-- ===== src/Net/Threads.antt =====
-- The threads of CNetServer.cpp that meet at one session, one access of shared memory to a step:
-- findSession, the end of a use, releaseSession and AcceptThread. Of the session only what decides between
-- them is kept. What happens to the queues of the session is not followed, nor the identifiers of other
-- slots.
pub mod Exclusion
pub mod Steps
pub mod Advance
pub mod Reach
pub mod Attended
pub mod Reuse
use new_name_auction.Prelude.{
  ℕ, ◌≡◌, ◌+◌, ◌-◌, ◌≤◌, ◌<◌, ◌^◌, Bool, true, false, not, ◌||◌, List, [], ◌∷◌, ◌++◌, length, ◌==◌,
  if◌then◌else◌, minus_one, add32, sub32, slt32,
}
use new_name_auction.Net.State.{make_session_id}

-- A session, with the number of times that its index stands in emptyIndexStack, and whether
-- releaseSession has logged a wrong count of uses, or a second clean-up.
pub record Shared : Type 0 where
  pub session_id : ℕ
  pub valid : Bool
  pub released : Bool
  pub io_count : ℕ
  pub free : ℕ
  pub wrong_use : Bool
  pub double_close : Bool

-- Where a thread stands; for the request of a send or a receive, that it is under way.
pub data Phase : Type 0 where
  -- findSession
  asks saw_valid counted unflagged : ℕ → Phase
  -- what findSession has found is in use; a use is over
  holds : ℕ → Phase
  leaves : Phase
  requested : Phase
  -- releaseSession is asked for, and its steps
  release_posted : Phase
  releases tests : ℕ → Phase
  compares : ℕ → ℕ → Phase
  won : ℕ → Phase
  took : ℕ → ℕ → Phase
  wrong restores drops : ℕ → Phase
  cleans invalidated logged : ℕ → Phase
  -- AcceptThread from its pop on
  opens named raised validated : ℕ → Phase
  opened : Phase

-- The value of releaseFlag.
abbrev pub flag_word : Bool → ℕ
flag_word released = if released then minus_one else 0

abbrev pub count_up : Shared → Shared
count_up s = record s { io_count = add32 s.io_count 1 }

abbrev pub count_down : Shared → Shared
count_down s = record s { io_count = sub32 s.io_count 1 }

-- A step of a thread: where it stands then, unless it is through, and the session.
unfoldable pub advance : Phase → Shared → List Phase × Shared
advance (asks sid) s = if s.valid then (saw_valid sid ∷ [], s) else ([], s)
advance (saw_valid sid) s = (counted sid ∷ [], count_up s)
advance (counted sid) s = if s.released then (leaves ∷ [], s) else (unflagged sid ∷ [], s)
advance (unflagged sid) s = if sid == s.session_id then (holds sid ∷ [], s) else (leaves ∷ [], s)
advance (holds sid) s = (leaves ∷ [], s)
advance leaves s =
    if (count_down s).io_count == 0 then (release_posted ∷ [], count_down s) else ([], count_down s)
advance requested s = (leaves ∷ [], s)
advance release_posted s = (releases s.session_id ∷ [], s)
advance (releases sid) s = if s.valid then (tests sid ∷ [], s) else ([], s)
advance (tests sid) s =
    (compares sid s.io_count ∷ [], record s { wrong_use = s.wrong_use || slt32 s.io_count 0 })
advance (compares sid temp) s =
    if flag_word s.released == temp then (won sid ∷ [], record s { released = true }) else ([], s)
advance (won sid) s = (took sid s.session_id ∷ [], s)
advance (took sid temp_id) s =
    if sid == s.session_id then (cleans sid ∷ [], s) else (wrong temp_id ∷ [], s)
advance (wrong temp_id) s = (restores temp_id ∷ [], count_up s)
advance (restores temp_id) s = (drops temp_id ∷ [], record s { released = false })
advance (drops temp_id) s =
    if (count_down s).io_count == 0
    then (releases temp_id ∷ [], count_down s)
    else ([], count_down s)
advance (cleans sid) s = (invalidated sid ∷ [], record s { valid = false })
advance (invalidated sid) s =
    (logged sid ∷ [], record s { double_close = s.double_close || not (sid == s.session_id) })
advance (logged sid) s = ([], record s { free = s.free + 1 })
advance (opens sid) s = (named sid ∷ [], record s { session_id = sid })
advance (named sid) s = (raised sid ∷ [], count_up s)
advance (raised sid) s = (validated sid ∷ [], record s { valid = true })
advance (validated sid) s = (opened ∷ [], record s { released = false })
advance opened s = (requested ∷ [], s)

-- Whether a thread has raised the count of uses and not lowered it yet.
abbrev pub uses : Phase → ℕ
uses (counted _) = 1
uses (unflagged _) = 1
uses (holds _) = 1
uses leaves = 1
uses requested = 1
uses (restores _) = 1
uses (drops _) = 1
uses (raised _) = 1
uses (validated _) = 1
uses opened = 1
uses _ = 0

-- The session as Start leaves it, whatever identifier stands in the memory.
abbrev pub start_shared : ℕ → Shared
start_shared word = record {
  session_id = word;
  valid = false;
  released = false;
  io_count = 0;
  free = 1;
  wrong_use = false;
  double_close = false;
}

-- The runs on the session of slot `i`, with the threads and requests that are at it: which of them takes
-- the next step is up to the turns. There are fewer than 2 ^ 31 at a time. `refusing` is whether WSARecv
-- may refuse the first receive of AcceptThread.
pub data ThreadReach (i : ℕ) (refusing : Bool) : Shared → List Phase → Type 0 where
  starts : (word : ℕ) → ThreadReach i refusing (start_shared word) []
  turns :
      (s : Shared) (t : Phase) (ts : List Phase)
      → ThreadReach i refusing s (t ∷ ts)
      → ThreadReach i refusing s (ts ++ (t ∷ []))
  steps :
      (s : Shared) (t : Phase) (ts : List Phase)
      → ThreadReach i refusing s (t ∷ ts)
      → ThreadReach i refusing (advance t s).1 ((advance t s).0 ++ ts)
  -- A call of findSession with any identifier.
  calls :
      (s : Shared) (sid : ℕ) (ts : List Phase)
      → ThreadReach i refusing s ts
      → length ts + 1 < 2 ^ 31
      → ThreadReach i refusing s (asks sid ∷ ts)
  -- The logic thread gives its use back, and is to release the session by the identifier that it has.
  gives_back :
      (s : Shared) (sid : ℕ) (ts : List Phase)
      → ThreadReach i refusing s (holds sid ∷ ts)
      → ThreadReach i refusing s (drops sid ∷ ts)
  -- Who uses the session asks for a send or a receive.
  requests :
      (s : Shared) (t : Phase) (ts : List Phase)
      → ThreadReach i refusing s (t ∷ ts)
      → uses t ≡ 1
      → length (t ∷ ts) + 1 < 2 ^ 31
      → ThreadReach i refusing (count_up s) (requested ∷ t ∷ ts)
  -- A send or a receive that is refused, where the use of the caller is left.
  refused :
      (s : Shared) (t : Phase) (ts : List Phase)
      → ThreadReach i refusing s (requested ∷ t ∷ ts)
      → uses t ≡ 1
      → ThreadReach i refusing (count_down s) (t ∷ ts)
  -- The first receive is refused: the count is lowered, and not looked at.
  first_refused :
      (s : Shared) (ts : List Phase)
      → ThreadReach i refusing s (opened ∷ ts)
      → refusing ≡ true
      → ThreadReach i refusing (count_down s) ts
  -- AcceptThread pops the index, with `alloc` in sessionAllocNum.
  pops :
      (s : Shared) (alloc k : ℕ) (ts : List Phase)
      → ThreadReach i refusing s ts
      → s.free ≡ k + 1
      → length ts + 1 < 2 ^ 31
      → ThreadReach i refusing (record s { free = k }) (opens (make_session_id alloc i) ∷ ts)
