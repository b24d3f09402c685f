-- ===== src/Profiler.antt =====
-- NewNameAuction/profiler.cpp, for one thread: its own table of PROFILER, and the table in
-- g_th_Profilelist that shows its results. A tag is its bytes before the final 0. The counter of
-- QueryPerformanceCounter is a parameter of each call.
pub mod Rounds
use new_name_auction.Prelude.{
  ℕ, zero, suc, ◌+◌, ◌^◌, ◌%◌, Bool, true, false, not, ◌&&◌, List, [], ◌∷◌, ◌==◌, ltb, leb, length,
  map, if◌then◌else◌, Outcome, ok, fault, ◌>>=◌, str_beq, add64, sub64,
}

-- PROFILER; `is_error` is isError as a Boolean.
pub record Profile : Type 0 where
  pub flag : Bool
  pub name : List ℕ
  pub start_time : ℕ
  pub total_time : ℕ
  pub least : ℕ
  pub most : ℕ
  pub calls : ℕ
  pub is_error : Bool

-- The entries of one index in the two tables.
pub record Entry : Type 0 where
  pub own : Profile
  pub shown : Profile

-- The MAX_ARRAY entries of the thread, and whether its own table is there yet.
pub record ThreadProfile : Type 0 where
  pub allocated : Bool
  pub entries : List Entry
  pub thread_id : ℕ

-- `<` on __int64.
abbrev pub slt64 : ℕ → ℕ → Bool
slt64 a b = ltb ((a + 2 ^ 63) % 2 ^ 64) ((b + 2 ^ 63) % 2 ^ 64)

abbrev pub cleared : Profile → Profile
cleared p = record p {
  flag = false;
  is_error = false;
  start_time = 0;
  least = 4294967295;
  most = 0;
  calls = 0;
  total_time = 0;
}

abbrev clear_entry : Entry → Entry
clear_entry e = record { own = cleared e.own; shown = cleared e.shown }

abbrev pub profile_reset : ThreadProfile → ThreadProfile
profile_reset t = record t { entries = map clear_entry t.entries }

abbrev init_entry : Entry → Entry
init_entry e = record e {
  shown = record e.shown {
    start_time = 0;
    least = 4294967295;
    most = 0;
    calls = 0;
    total_time = 0;
  };
}

abbrev pub profile_init : ThreadProfile → ThreadProfile
profile_init t = record t { thread_id = 0; entries = map init_entry t.entries }

abbrev clear_own : Entry → Entry
clear_own e = record e { own = cleared e.own }

-- The first loop of ProfileBegin, where the tag has an entry, and whether it had.
unfoldable pub begin_known : List ℕ → ℕ → List Entry → Bool × List Entry
begin_known tag now [] = (false, [])
begin_known tag now (e ∷ es) =
    let (found, rest) = begin_known tag now es in
    if e.own.flag && str_beq e.own.name tag
    then (
      true,
      record e {
        own = record e.own {
          is_error = if e.own.start_time == 0 then e.own.is_error else true;
          start_time = now;
        };
      }
          ∷ es,
    )
    else (found, e ∷ rest)

-- The second, which takes the first entry that is free.
unfoldable pub begin_new : List ℕ → ℕ → List Entry → Outcome (List Entry)
begin_new tag now [] = ok []
begin_new tag now (e ∷ es) =
    let rest = begin_new tag now es in
    if e.own.flag
    then (rest >>= λ es'. ok (e ∷ es'))
    else if leb 64 (length tag)
    then fault
    else ok (
        record {
          own = record e.own { flag = true; name = tag; start_time = now };
          shown = record e.shown { flag = true; name = tag };
        }
        ∷ es)

unfoldable pub profile_begin : ℕ → List ℕ → ℕ → ThreadProfile → Outcome ThreadProfile
profile_begin thread tag now t =
    let ready =
      if t.allocated
      then t
      else record t { allocated = true; thread_id = thread; entries = map clear_own t.entries } in
    let (found, known) = begin_known tag now ready.entries in
    if found
    then ok (record ready { entries = known })
    else (begin_new tag now ready.entries >>= λ es. ok (record ready { entries = es }))

-- A period that is over.
abbrev pub measured : ℕ → Entry → Entry
measured now e =
    let period = sub64 now e.own.start_time in
    let own = record e.own {
      total_time = add64 e.own.total_time period;
      least = if slt64 period e.own.least then period else e.own.least;
      most = if slt64 e.own.most period then period else e.own.most;
      calls = add64 e.own.calls 1;
      start_time = 0;
    } in
    record {
      own = own;
      shown = record e.shown {
        total_time = own.total_time;
        least = own.least;
        most = own.most;
        calls = own.calls;
      };
    }

unfoldable pub end_entries : List ℕ → ℕ → List Entry → List Entry
end_entries tag now [] = []
end_entries tag now (e ∷ es) =
    if e.own.flag && str_beq e.own.name tag then measured now e ∷ es else e ∷ end_entries tag now es

-- ProfileEnd after a ProfileBegin of the thread.
abbrev pub profile_end : List ℕ → ℕ → ThreadProfile → ThreadProfile
profile_end tag now t = record t { entries = end_entries tag now t.entries }

-- The life of a CProfiler for each of the given readings of the counter.
unfoldable pub profile_rounds : ℕ → List ℕ → List (ℕ × ℕ) → ThreadProfile → Outcome ThreadProfile
profile_rounds thread tag [] t = ok t
profile_rounds thread tag ((start, stop) ∷ rs) t = profile_begin thread tag start t >>= λ t1.
    profile_rounds thread tag rs (profile_end tag stop t1)
