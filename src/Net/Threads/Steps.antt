-- ===== src/Net/Threads/Steps.antt =====
-- What every step of the threads at a session (CNetServer.cpp) keeps.
use new_name_auction.Prelude.{
  ℕ, ◌+◌, ◌≤◌, ◌<◌, ◌^◌, ◌≡◌, Bool, true, false, List, ◌∷◌, arith, length, All,
}
use new_name_auction.Net.Threads.{Shared, Phase, uses}
use new_name_auction.Net.Threads.Exclusion.{
  owns, total, Fits, Harmless, Bounded, none-Fits, none-All,
}

-- The count of uses is that of the threads that have raised it; the index is in the stack or one thread
-- owns the session, and not both, or neither and the session is live; the owner knows the session, and
-- nobody else can become the owner meanwhile; nothing was logged.
pub record IsConsistent (s : Shared) (ts : List Phase) : Type 0 where
  pub small : length ts < 2 ^ 31
  pub in_use : s.io_count ≡ total uses ts
  pub single : s.free + total owns ts ≤ 1
  pub live : s.free + total owns ts ≡ 0 → (s.valid ≡ true) × (s.released ≡ false)
  pub closed : s.free ≡ 1 → s.valid ≡ false
  pub fitting : All (Fits s.valid s.released s.session_id) ts
  pub bounded : All Bounded ts
  pub harmless : s.free + total owns ts ≡ 1 → s.released ≡ false → All (Harmless s.valid) ts
  pub unlogged : (s.wrong_use ≡ false) × (s.double_close ≡ false)

-- The session with another count of uses, and perhaps with that logged.
abbrev pub with_count : ℕ → Bool → Shared → Shared
with_count n w s = record s { io_count = n; wrong_use = w }

-- A thread that is not the owner goes on without becoming it.
pub bystander_goes :
    (t t' : Phase) (n : ℕ) (w : Bool) (s : Shared) (ts : List Phase)
    → IsConsistent s (t ∷ ts)
    → owns t ≡ 0
    → owns t' ≡ 0
    → n + uses t ≡ s.io_count + uses t'
    → w ≡ false
    → Bounded t'
    → (s.free + total owns ts ≡ 1 → s.released ≡ false → Harmless s.valid t')
    → IsConsistent (with_count n w s) (t' ∷ ts)
unfolding total
bystander_goes t t' n w s ts is idle idle' e logged b h = record {
  small = is.small;
  in_use = omega (arith, is.in_use, e);
  single = omega (arith, is.single, idle');
  live = λ nobody. is.live (omega (arith, nobody, idle, idle'));
  closed = is.closed;
  fitting = (none-Fits t' s.valid s.released s.session_id idle', is.fitting.1);
  bounded = (b, is.bounded.1);
  harmless = λ one clear. (
    h (omega (arith, one, idle')) clear,
    (is.harmless (omega (arith, one, idle, idle')) clear).1,
  );
  unlogged = (logged, is.unlogged.1);
}

-- A thread that is not the owner ends.
pub bystander_ends :
    (t : Phase) (n : ℕ) (s : Shared) (ts : List Phase)
    → IsConsistent s (t ∷ ts)
    → owns t ≡ 0
    → n + uses t ≡ s.io_count
    → IsConsistent (with_count n s.wrong_use s) ts
unfolding total
bystander_ends t n s ts is idle e = record {
  small = omega (arith, is.small);
  in_use = omega (arith, is.in_use, e);
  single = omega (arith, is.single, idle);
  live = λ nobody. is.live (omega (arith, nobody, idle));
  closed = is.closed;
  fitting = is.fitting.1;
  bounded = is.bounded.1;
  harmless = λ one clear. (is.harmless (omega (arith, one, idle)) clear).1;
  unlogged = is.unlogged;
}

-- The owner goes on as the owner, with what it then knows.
pub owner_goes :
    (t t' : Phase) (s s' : Shared) (ts : List Phase)
    → IsConsistent s (t ∷ ts)
    → owns t ≡ 1
    → owns t' ≡ 1
    → s'.free ≡ s.free
    → s'.io_count + uses t ≡ s.io_count + uses t'
    → Fits s'.valid s'.released s'.session_id t'
    → Bounded t'
    → (s'.released ≡ false → Harmless s'.valid t' × All (Harmless s'.valid) ts)
    → (s'.wrong_use ≡ false) × (s'.double_close ≡ false)
    → IsConsistent s' (t' ∷ ts)
unfolding total
owner_goes t t' s s' ts is own own' same e f b h logged = record {
  small = is.small;
  in_use = omega (arith, is.in_use, e);
  single = omega (arith, is.single, own, own', same);
  live = λ nobody. absurd (omega (arith, nobody, own'));
  closed = λ pushed. absurd (omega (arith, pushed, same, own, is.single));
  fitting = (f, none-All ts s'.valid s'.released s'.session_id (omega (arith, is.single, own)));
  bounded = (b, is.bounded.1);
  harmless = λ one clear. h clear;
  unlogged = logged;
}

-- The owner leaves the session live.
pub owner_leaves :
    (t t' : Phase) (s s' : Shared) (ts : List Phase)
    → IsConsistent s (t ∷ ts)
    → owns t ≡ 1
    → owns t' ≡ 0
    → s'.free ≡ s.free
    → s'.io_count + uses t ≡ s.io_count + uses t'
    → (s'.valid ≡ true) × (s'.released ≡ false)
    → Bounded t'
    → (s'.wrong_use ≡ false) × (s'.double_close ≡ false)
    → IsConsistent s' (t' ∷ ts)
unfolding total
owner_leaves t t' s s' ts is own idle same e is_live b logged =
    let nobody : s.free + total owns ts ≡ 0 = omega (arith, is.single, own) in
    record {
      small = is.small;
      in_use = omega (arith, is.in_use, e);
      single = omega (arith, nobody, idle, same);
      live = λ _. is_live;
      closed = λ pushed. absurd (omega (arith, pushed, same, nobody));
      fitting = (
        none-Fits t' s'.valid s'.released s'.session_id idle,
        none-All ts s'.valid s'.released s'.session_id (omega (arith, nobody)),
      );
      bounded = (b, is.bounded.1);
      harmless = λ one clear. absurd (omega (arith, one, nobody, idle, same));
      unlogged = logged;
    }
