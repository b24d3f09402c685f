-- ===== src/Net/Threads/Reach.antt =====
-- What holds of a session of CNetServer.cpp whatever turns its threads take.
use new_name_auction.Prelude.{
  ℕ, ◌+◌, ◌≤◌, ◌<◌, ◌^◌, ◌≡◌, refl, sym, ◌∙◌, Bool, true, false, List, [], ◌∷◌, ◌++◌, arith, length,
  length-append, All, add32, sub32,
}
use new_name_auction.Net.State.{make_session_id}
use new_name_auction.Net.Threads.{
  Shared, Phase, asks, requested, opened, opens, uses, start_shared, ThreadReach, starts, turns,
  steps, calls, requests, gives_back, holds, drops, refused, first_refused, pops,
}
use new_name_auction.Net.Threads.Exclusion.{
  owns, total, Fits, Harmless, Bounded, none-Fits, total-append,
}
use new_name_auction.Net.Threads.Steps.{IsConsistent, bystander_ends, with_count}
use new_name_auction.Net.Threads.Advance.{few_uses, keeps, advance-IsConsistent}

All-append :
    (P : Phase → Type 0) (ts : List Phase) (u : Phase) → P u → All P ts → All P (ts ++ (u ∷ []))
All-append P [] u h hs = (h, tt)
All-append P (t ∷ ts) u h (h', hs) = (h', All-append P ts u h hs)

All-last :
    (P : Phase → Type 0) (ts : List Phase) (u : Phase) → P u × All P ts → All P (ts ++ (u ∷ []))
All-last P ts u (h, hs) = All-append P ts u h hs

pub total-last :
    (f : Phase → ℕ) (t : Phase) (ts : List Phase) → total f (ts ++ (t ∷ [])) ≡ total f (t ∷ ts)
unfolding total
total-last f t ts = omega (arith, total-append f ts (t ∷ []))

turned :
    (s : Shared) (t : Phase) (ts : List Phase)
    → IsConsistent s (t ∷ ts)
    → IsConsistent s (ts ++ (t ∷ []))
turned s t ts is =
    let same = total-last owns t ts in
    record {
      small = omega (arith, is.small, length-append ts (t ∷ []));
      in_use = is.in_use ∙ sym (total-last uses t ts);
      single = omega (arith, is.single, same);
      live = λ nobody. is.live (omega (arith, nobody, same));
      closed = is.closed;
      fitting = All-last (Fits s.valid s.released s.session_id) ts t is.fitting;
      bounded = All-last Bounded ts t is.bounded;
      harmless = λ one clear.
          All-last (Harmless s.valid) ts t (is.harmless (omega (arith, one, same)) clear);
      unlogged = is.unlogged;
    }

-- A thread or a request joins that owns nothing.
joins :
    (t : Phase) (n : ℕ) (s : Shared) (ts : List Phase)
    → IsConsistent s ts
    → owns t ≡ 0
    → n ≡ s.io_count + uses t
    → Bounded t
    → Harmless s.valid t
    → length ts + 1 < 2 ^ 31
    → IsConsistent (with_count n s.wrong_use s) (t ∷ ts)
unfolding total
joins t n s ts is idle e b h room = record {
  small = omega (arith, room);
  in_use = omega (arith, is.in_use, e);
  single = omega (arith, is.single, idle);
  live = λ nobody. is.live (omega (arith, nobody, idle));
  closed = is.closed;
  fitting = (none-Fits t s.valid s.released s.session_id idle, is.fitting);
  bounded = (b, is.bounded);
  harmless = λ one clear. (h, is.harmless (omega (arith, one, idle)) clear);
  unlogged = is.unlogged;
}

popped :
    (sid k : ℕ) (s : Shared) (ts : List Phase)
    → IsConsistent s ts
    → s.free ≡ k + 1
    → length ts + 1 < 2 ^ 31
    → IsConsistent (record s { free = k }) (opens sid ∷ ts)
unfolding total
popped sid k s ts is some_free room =
    let one : s.free + total owns ts ≡ 1 = omega (arith, some_free, is.single) in
    record {
      small = omega (arith, room);
      in_use = omega (arith, is.in_use);
      single = omega (arith, is.single, some_free);
      live = λ nobody. absurd (omega (arith, nobody));
      closed = λ twice. absurd (omega (arith, twice, some_free, is.single));
      fitting = (is.closed (omega (arith, one, some_free)), is.fitting);
      bounded = (tt, is.bounded);
      harmless = λ _ clear. (tt, is.harmless one clear);
      unlogged = is.unlogged;
    }

start_shared-IsConsistent : (word : ℕ) → IsConsistent (start_shared word) []
unfolding total
start_shared-IsConsistent word = record {
  small = omega arith;
  in_use = refl;
  single = omega arith;
  live = λ nobody. absurd (omega (arith, nobody));
  closed = λ _. refl;
  fitting = tt;
  bounded = tt;
  harmless = λ _ _. tt;
  unlogged = (refl, refl);
}

pub ThreadReach-IsConsistent :
    (i : ℕ) (refusing : Bool) (s : Shared) (ts : List Phase)
    → ThreadReach i refusing s ts
    → IsConsistent s ts
ThreadReach-IsConsistent i w _ _ (starts word) = start_shared-IsConsistent word
ThreadReach-IsConsistent i w _ _ (turns s t ts r) =
    turned s t ts (ThreadReach-IsConsistent i w s (t ∷ ts) r)
ThreadReach-IsConsistent i w _ _ (steps s t ts r) =
    advance-IsConsistent t s ts (ThreadReach-IsConsistent i w s (t ∷ ts) r)
ThreadReach-IsConsistent i w _ _ (calls s sid ts r room) =
    joins (asks sid) s.io_count s ts (ThreadReach-IsConsistent i w s ts r) refl (omega arith) tt tt
      room
ThreadReach-IsConsistent i w _ _ (gives_back s sid ts r) =
    keeps (holds sid) (drops sid) s ts (ThreadReach-IsConsistent i w s (holds sid ∷ ts) r) refl refl
      refl tt λ _ _. tt
ThreadReach-IsConsistent i w _ _ (requests s t ts r used room) =
    let is = ThreadReach-IsConsistent i w s (t ∷ ts) r in
    let (low, _) = few_uses s t ts is in
    joins requested (add32 s.io_count 1) s (t ∷ ts) is refl (omega (arith, low)) tt tt room
ThreadReach-IsConsistent i w _ _ (refused s t ts r used) =
    let is = ThreadReach-IsConsistent i w s (requested ∷ t ∷ ts) r in
    let (low, some_use) = few_uses s requested (t ∷ ts) is in
    bystander_ends requested (sub32 s.io_count 1) s (t ∷ ts) is refl (omega (arith, low, some_use))
ThreadReach-IsConsistent i w _ _ (first_refused s ts r _) =
    let is = ThreadReach-IsConsistent i w s (opened ∷ ts) r in
    let (low, some_use) = few_uses s opened ts is in
    bystander_ends opened (sub32 s.io_count 1) s ts is refl (omega (arith, low, some_use))
ThreadReach-IsConsistent i w _ _ (pops s alloc k ts r some_free room) =
    popped (make_session_id alloc i) k s ts (ThreadReach-IsConsistent i w s ts r) some_free room

-- Whatever turns the threads take, at most one of three has the session: its index stands in emptyIndexStack
-- once, or AcceptThread opens it, or one thread of releaseSession has set its flag; where none has it, the
-- session is valid and its flag clear. Its count of uses is the number of threads and requests that have
-- raised it.
pub ThreadReach-exclusive :
    (i : ℕ) (refusing : Bool) (s : Shared) (ts : List Phase)
    → ThreadReach i refusing s ts
    → (s.free + total owns ts ≤ 1)
      × (s.free + total owns ts ≡ 0 → (s.valid ≡ true) × (s.released ≡ false))
      × (s.io_count ≡ total uses ts)
ThreadReach-exclusive i w s ts r =
    let is = ThreadReach-IsConsistent i w s ts r in (is.single, is.live, is.in_use)

-- Whatever turns the threads take, releaseSession logs neither a negative count of uses nor that it cleans up
-- another session than it was asked for.
pub ThreadReach-unlogged :
    (i : ℕ) (refusing : Bool) (s : Shared) (ts : List Phase)
    → ThreadReach i refusing s ts
    → (s.wrong_use ≡ false) × (s.double_close ≡ false)
ThreadReach-unlogged i w s ts r = (ThreadReach-IsConsistent i w s ts r).unlogged
