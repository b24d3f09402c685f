-- ===== src/Net/Threads/Advance.antt =====
-- The step of each thread at a session (CNetServer.cpp) keeps what Net.Threads.Steps names.
use new_name_auction.Prelude.{
  ◌||◌, not, ℕ, ◌+◌, ◌≤◌, ◌<◌, ◌^◌, ◌≡◌, ◌≢◌, refl, subst, inl, inr, Bool, true, false, List, [],
  ◌∷◌, ◌++◌, arith, All, Bool-cases, sub32, slt32, ◌==◌, ◌||◌, if◌then◌else◌,
}
use new_name_auction.Net.Threads.{
  Shared, Phase, asks, saw_valid, counted, unflagged, holds, leaves, requested, release_posted,
  releases, tests, compares, won, took, wrong, restores, drops, cleans, invalidated, logged, opens,
  named, raised, validated, opened, uses, advance, count_up, count_down, flag_word,
}
use new_name_auction.Net.Threads.Exclusion.{
  owns, total, Fits, Harmless, Bounded, owners_use, none-All, All-opened, uses_fewer,
}
use new_name_auction.Net.Threads.Steps.{
  IsConsistent, bystander_goes, bystander_ends, owner_goes, owner_leaves,
}

-- The count of uses does not wrap, and is not 0 where the thread has one.
pub few_uses :
    (s : Shared) (t : Phase) (ts : List Phase)
    → IsConsistent s (t ∷ ts)
    → (s.io_count < 2 ^ 31) × (uses t ≤ s.io_count)
unfolding total
few_uses s t ts is =
    (omega (arith, is.in_use, uses_fewer (t ∷ ts), is.small), omega (arith, is.in_use))

abbrev After : Phase → Shared → List Phase → Type 0
After t s ts = IsConsistent (advance t s).1 ((advance t s).0 ++ ts)

-- A thread that is not the owner, with no change of the session.
pub keeps :
    (t t' : Phase) (s : Shared) (ts : List Phase)
    → IsConsistent s (t ∷ ts)
    → owns t ≡ 0
    → owns t' ≡ 0
    → uses t ≡ uses t'
    → Bounded t'
    → (s.free + total owns ts ≡ 1 → s.released ≡ false → Harmless s.valid t')
    → IsConsistent s (t' ∷ ts)
keeps t t' s ts is idle idle' same b h =
    bystander_goes t t' s.io_count s.wrong_use s ts is idle idle' (omega (arith, same))
      is.unlogged.0 b h

ends :
    (t : Phase) (s : Shared) (ts : List Phase)
    → IsConsistent s (t ∷ ts)
    → owns t ≡ 0
    → uses t ≡ 0
    → IsConsistent s ts
ends t s ts is idle unused = bystander_ends t s.io_count s ts is idle (omega (arith, unused))

-- A thread that is not the owner lowers the count, and goes on where it is 0 then.
lowers :
    (t t' : Phase) (s : Shared) (ts : List Phase)
    → IsConsistent s (t ∷ ts)
    → owns t ≡ 0
    → owns t' ≡ 0
    → uses t ≡ 1
    → uses t' ≡ 0
    → Bounded t'
    → ((v : Bool) → Harmless v t')
    → let r : List Phase × Shared =
        if (count_down s).io_count == 0 then (t' ∷ [], count_down s) else ([], count_down s) in
      IsConsistent r.1 (r.0 ++ ts)
lowers t t' s ts is idle idle' used unused b h =
    let (low, some_use) = few_uses s t ts is in
    elim (Bool-cases (sub32 s.io_count 1 == 0)) [
      | inl last ↦ rw last (
          bystander_goes t t' (sub32 s.io_count 1) s.wrong_use s ts is idle idle'
            (omega (arith, low, used, unused, some_use)) is.unlogged.0 b (λ _ _. h s.valid))
      | inr more ↦
          rw more (
            bystander_ends t (sub32 s.io_count 1) s ts is idle (omega (arith, low, used, some_use)))
    ]

raises :
    (t t' : Phase) (s : Shared) (ts : List Phase)
    → IsConsistent s (t ∷ ts)
    → uses t ≡ 0
    → uses t' ≡ 1
    → (count_up s).io_count + uses t ≡ s.io_count + uses t'
raises t t' s ts is unused used =
    let (low, _) = few_uses s t ts is in omega (arith, low, unused, used)

-- The count that releaseSession reads.
tests_advance :
    (sid : ℕ) (s : Shared) (ts : List Phase)
    → IsConsistent s (tests sid ∷ ts)
    → After (tests sid) s ts
unfolding advance total
tests_advance sid s ts is =
    let (low, _) = few_uses s (tests sid) ts is in
    let count_logged : (s.wrong_use || slt32 s.io_count 0) ≡ false =
      rw is.unlogged.0 (ground (arith, low)) in
    bystander_goes (tests sid) (compares sid s.io_count) s.io_count
      (s.wrong_use || slt32 s.io_count 0) s ts is refl refl refl count_logged low
      λ one clear.
        let valid = (is.harmless (omega (arith, one)) clear).0 in
        let pushed : s.free ≢ 1 = λ e. ground (arith, is.closed e, valid) in
        let fits : All (Fits true false s.session_id) ts =
          subst (λ v. All (Fits v false s.session_id) ts) valid
            (subst (λ r. All (Fits s.valid r s.session_id) ts) clear is.fitting.1) in
        ground (arith, owners_use ts s.session_id fits, one, pushed, is.in_use)

-- The compare-and-swap.
compares_advance :
    (sid temp : ℕ) (s : Shared) (ts : List Phase)
    → IsConsistent s (compares sid temp ∷ ts)
    → After (compares sid temp) s ts
unfolding advance total
compares_advance sid temp s ts is = elim (Bool-cases (flag_word s.released == temp)) [
  | inr other ↦ rw other (ends (compares sid temp) s ts is refl refl)
  | inl same ↦
      let clear : s.released ≡ false = ground (arith, same, is.bounded.0) in
      let zero_read : temp ≡ 0 = ground (arith, same, clear) in
      let nobody : s.free + total owns ts ≡ 0 =
        let not_one : s.free + total owns ts ≢ 1 =
          λ one. (is.harmless (omega (arith, one)) clear).0 zero_read in
        ground (arith, is.single, not_one) in
      rw same (record {
        small = is.small;
        in_use = is.in_use;
        single = omega (arith, nobody);
        live = λ none_owns. absurd (omega (arith, none_owns));
        closed = is.closed;
        fitting = (
          ((is.live (omega (arith, nobody))).0, refl),
          none-All ts s.valid true s.session_id (omega (arith, nobody)),
        );
        bounded = (tt, is.bounded.1);
        harmless = λ one set_clear. ground (arith, set_clear);
        unlogged = is.unlogged;
      })
]

-- The index is pushed.
logged_advance :
    (sid : ℕ) (s : Shared) (ts : List Phase)
    → IsConsistent s (logged sid ∷ ts)
    → After (logged sid) s ts
unfolding advance total
logged_advance sid s ts is = record {
  small = omega (arith, is.small);
  in_use = omega (arith, is.in_use);
  single = omega (arith, is.single);
  live = λ nobody. absurd (omega (arith, nobody));
  closed = λ _. is.fitting.0.1;
  fitting = is.fitting.1;
  bounded = is.bounded.1;
  harmless = λ one clear. ground (arith, clear, is.fitting.0.0);
  unlogged = is.unlogged;
}

-- While a thread owns the session nobody else does.
owner_alone :
    (t : Phase) (s : Shared) (ts : List Phase)
    → IsConsistent s (t ∷ ts)
    → owns t ≡ 1
    → s.free + total owns (t ∷ ts) ≡ 1
unfolding total
owner_alone t s ts is own = omega (arith, is.single, own)

pub advance-IsConsistent :
    (t : Phase) (s : Shared) (ts : List Phase)
    → IsConsistent s (t ∷ ts)
    → IsConsistent (advance t s).1 ((advance t s).0 ++ ts)
unfolding advance
advance-IsConsistent (asks sid) s ts is = elim (Bool-cases s.valid) [
  | inl there ↦ simp there (keeps (asks sid) (saw_valid sid) s ts is refl refl refl tt λ _ _. tt)
  | inr gone ↦ simp gone (ends (asks sid) s ts is refl refl)
]
advance-IsConsistent (saw_valid sid) s ts is =
    bystander_goes (saw_valid sid) (counted sid) (count_up s).io_count s.wrong_use s ts is refl refl
      (raises (saw_valid sid) (counted sid) s ts is refl refl) is.unlogged.0 tt (λ _ _. tt)
advance-IsConsistent (counted sid) s ts is = elim (Bool-cases s.released) [
  | inl flagged ↦ simp flagged (keeps (counted sid) leaves s ts is refl refl refl tt λ _ _. tt)
  | inr clear ↦ simp clear (keeps (counted sid) (unflagged sid) s ts is refl refl refl tt λ _ _. tt)
]
advance-IsConsistent (unflagged sid) s ts is = elim (Bool-cases (sid == s.session_id)) [
  | inl same ↦ simp same (keeps (unflagged sid) (holds sid) s ts is refl refl refl tt λ _ _. tt)
  | inr other ↦ simp other (keeps (unflagged sid) leaves s ts is refl refl refl tt λ _ _. tt)
]
advance-IsConsistent (holds sid) s ts is =
    keeps (holds sid) leaves s ts is refl refl refl tt λ _ _. tt
advance-IsConsistent leaves s ts is =
    lowers leaves release_posted s ts is refl refl refl refl tt λ v. tt
advance-IsConsistent requested s ts is = keeps requested leaves s ts is refl refl refl tt λ _ _. tt
advance-IsConsistent release_posted s ts is =
    keeps release_posted (releases s.session_id) s ts is refl refl refl tt λ _ _. tt
advance-IsConsistent (releases sid) s ts is = elim (Bool-cases s.valid) [
  | inl there ↦ simp there (keeps (releases sid) (tests sid) s ts is refl refl refl tt λ _ _. there)
  | inr gone ↦ simp gone (ends (releases sid) s ts is refl refl)
]
advance-IsConsistent (tests sid) s ts is = tests_advance sid s ts is
advance-IsConsistent (compares sid temp) s ts is = compares_advance sid temp s ts is
advance-IsConsistent (won sid) s ts is =
    owner_goes (won sid) (took sid s.session_id) s s ts is refl refl refl refl is.fitting.0 tt
      (λ clear. ground (arith, clear, is.fitting.0.1)) is.unlogged
advance-IsConsistent (took sid temp_id) s ts is = elim (Bool-cases (sid == s.session_id)) [
  | inl same ↦ simp same (
      owner_goes (took sid temp_id) (cleans sid) s s ts is refl refl refl refl
        (ground (arith, same), is.fitting.0.1) tt (λ clear. ground (arith, clear, is.fitting.0.1))
        is.unlogged)
  | inr other ↦ simp other (
      owner_goes (took sid temp_id) (wrong temp_id) s s ts is refl refl refl refl is.fitting.0 tt
        (λ clear. ground (arith, clear, is.fitting.0.1)) is.unlogged)
]
advance-IsConsistent (wrong temp_id) s ts is =
    owner_goes (wrong temp_id) (restores temp_id) s (count_up s) ts is refl refl refl
      (raises (wrong temp_id) (restores temp_id) s ts is refl refl) is.fitting.0 tt
      (λ clear. ground (arith, clear, is.fitting.0.1)) is.unlogged
advance-IsConsistent (restores temp_id) s ts is =
    owner_leaves (restores temp_id) (drops temp_id) s (record s { released = false }) ts is refl
      refl refl refl (is.fitting.0.0, refl) tt is.unlogged
advance-IsConsistent (drops temp_id) s ts is =
    lowers (drops temp_id) (releases temp_id) s ts is refl refl refl refl tt λ v. tt
advance-IsConsistent (cleans sid) s ts is =
    owner_goes (cleans sid) (invalidated sid) s (record s { valid = false }) ts is refl refl refl
      refl (is.fitting.0.0, is.fitting.0.1, refl) tt
      (λ clear. ground (arith, clear, is.fitting.0.1)) is.unlogged
advance-IsConsistent (invalidated sid) s ts is =
    let own : (sid == s.session_id) ≡ true = ground (arith, is.fitting.0.0) in
    owner_goes (invalidated sid) (logged sid) s
      (record s { double_close = s.double_close || not (sid == s.session_id) }) ts is refl refl refl
      refl (is.fitting.0.1, is.fitting.0.2) tt (λ clear. ground (arith, clear, is.fitting.0.1))
      (is.unlogged.0, rw (is.unlogged.1, own) refl)
advance-IsConsistent (logged sid) s ts is = logged_advance sid s ts is
advance-IsConsistent (opens sid) s ts is =
    owner_goes (opens sid) (named sid) s (record s { session_id = sid }) ts is refl refl refl refl
      (is.fitting.0, refl) tt
      (λ clear. (tt, (is.harmless (owner_alone (opens sid) s ts is refl) clear).1)) is.unlogged
advance-IsConsistent (named sid) s ts is =
    owner_goes (named sid) (raised sid) s (count_up s) ts is refl refl refl
      (raises (named sid) (raised sid) s ts is refl refl) is.fitting.0 tt
      (λ clear. (tt, (is.harmless (owner_alone (named sid) s ts is refl) clear).1)) is.unlogged
advance-IsConsistent (raised sid) s ts is =
    owner_goes (raised sid) (validated sid) s (record s { valid = true }) ts is refl refl refl refl
      (refl, is.fitting.0.1) tt
      (λ clear.
        (tt, All-opened ts s.valid (is.harmless (owner_alone (raised sid) s ts is refl) clear).1))
      is.unlogged
advance-IsConsistent (validated sid) s ts is =
    owner_leaves (validated sid) opened s (record s { released = false }) ts is refl refl refl refl
      (is.fitting.0.0, refl) tt is.unlogged
advance-IsConsistent opened s ts is = keeps opened requested s ts is refl refl refl tt λ _ _. tt
