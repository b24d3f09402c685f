-- ===== src/Net/Slots.antt =====
-- The slots of CNetServer.cpp: who has each slot, the stack of free ones or a session.
pub mod Steps
pub mod Partition
pub mod Reach
use new_name_auction.Prelude.{
  ℕ, ◌+◌, ◌≡◌, refl, sym, ap, ◌∙◌, subst, inl, inr, Bool, true, false, List, [], ◌∷◌, Option, none,
  some, Outcome, ok, fault, need, arith, ltb, ◌==◌, if◌then◌else◌, Bool-cases, get_elem?, set,
  get_elem?-set_self, get_elem?-set_ne, lt-length_of_get_elem?,
}
use new_name_auction.Net.State.{Session, NetServer, Call, session_at, put_session, calls_of}

-- How often the slot stands in the stack, and whether a valid session has it, as numbers.
abbrev pub in_pool : ℕ → List ℕ → ℕ
in_pool i [] = 0
in_pool i (j ∷ js) = (if i == j then 1 else 0) + in_pool i js

abbrev pub validity : Option Session → ℕ
validity none = 0
validity (some s) = if s.valid then 1 else 0

abbrev pub in_use : ℕ → List Session → ℕ
in_use i ss = validity (get_elem? ss i)

-- Every slot below the limit is in the stack once or has a valid session, and not both.
abbrev pub IsPartition : NetServer → Type 0
IsPartition n =
    (i : ℕ) → in_pool i n.empty_index + in_use i n.sessions ≡ (if ltb i n.max_session then 1 else 0)

-- The stack, the limit and the validity of every session are the same.
pub record Kept (n n' : NetServer) : Type 0 where
  pub pool : n'.empty_index ≡ n.empty_index
  pub limit : n'.max_session ≡ n.max_session
  pub valids : (i : ℕ) → in_use i n'.sessions ≡ in_use i n.sessions

pub Kept-refl : (n : NetServer) → Kept n n
Kept-refl n = record { pool = refl; limit = refl; valids = λ i. refl }

pub Kept-IsPartition : (n n' : NetServer) → Kept n n' → IsPartition n → IsPartition n'
Kept-IsPartition n n' k p i = rw (k.pool, k.limit, k.valids i) (p i)

pub some_of_session_at :
    (i : ℕ) (n : NetServer) (s : Session) → session_at i n ≡ ok s → get_elem? n.sessions i ≡ some s
some_of_session_at i n s e = of_need (get_elem? n.sessions i) e
  where
    of_need : (o : Option Session) → need o ≡ ok s → o ≡ some s
    of_need none e = cc
    of_need (some t) e = cc

pub in_use-set :
    (i j : ℕ) (ss : List Session) (s s' : Session)
    → get_elem? ss i ≡ some s
    → in_use j (set ss i s') ≡ (if j == i then (if s'.valid then 1 else 0) else in_use j ss)
in_use-set i j ss s s' e = elim (Bool-cases (j == i)) [
  | inl same ↦
      let at : j ≡ i = ground arith in
      rw (same, at) (ap validity (get_elem?-set_self ss i s' (lt-length_of_get_elem? ss i s e)))
  | inr other ↦ rw other (ap validity (get_elem?-set_ne ss i j s' (λ e. ground (arith, e, other))))
]

-- A session is changed without its validity.
pub Kept-put :
    (n0 n : NetServer) (i : ℕ) (s s' : Session)
    → Kept n0 n
    → session_at i n ≡ ok s
    → s'.valid ≡ s.valid
    → Kept n0 (put_session i s' n)
Kept-put n0 n i s s' k e v = record {
  pool = k.pool;
  limit = k.limit;
  valids = λ j. elim (Bool-cases (j == i)) [
    | inl same ↦
        let e' : j ≡ i = ground arith in
        let at : get_elem? n.sessions j ≡ some s = rw e' (some_of_session_at i n s e) in
        in_use-set i j n.sessions s s' (some_of_session_at i n s e)
        ∙ (rw (same, v) (sym (ap validity at)) ∙ k.valids j)
    | inr other ↦
        in_use-set i j n.sessions s s' (some_of_session_at i n s e) ∙ (rw other refl ∙ k.valids j)
  ];
}

pub Kept-calls : (n0 n : NetServer) (cs : List Call) → Kept n0 n → Kept n0 (calls_of cs n)
Kept-calls n0 n cs k = record { pool = k.pool; limit = k.limit; valids = k.valids }
