-- ===== src/SessionSet/Broadcast.antt =====
-- Whom a broadcast reaches.
use new_name_auction.Prelude.{
  ℕ, zero, suc, ◌+◌, ◌-◌, ◌≤◌, ◌≡◌, refl, ◌∙◌, sym, ap, inl, inr, List, [], ◌∷◌, ◌++◌, arith,
  length, length-append, take, leb, true, false, Bool-cases, append-nil, append_assoc, take-nil,
}
use new_name_auction.SessionSet.{SessionSet, session_set_size, set_clear, set_session, set_sessions}

take-cons_pred : (n : ℕ) (x : ℕ) (xs : List ℕ) → 1 ≤ n → take n (x ∷ xs) ≡ x ∷ take (n - 1) xs
take-cons_pred zero x xs h = absurd (omega arith)
take-cons_pred (suc n) x xs h = ap (λ k. x ∷ take k xs) (omega arith)

take-le_zero : (n : ℕ) (xs : List ℕ) → n ≤ 0 → take n xs ≡ []
take-le_zero zero xs h = refl
take-le_zero (suc n) xs h = absurd (omega arith)

record IsFilled (set : SessionSet) : Type 0 where
  counted : set.session_count ≡ length set.session_array
  small : set.session_count ≤ session_set_size

set_session-room :
    (sid : ℕ) (set : SessionSet)
    → leb session_set_size set.session_count ≡ false
    → (set_session sid set).1 ≡ record {
      session_count = set.session_count + 1;
      session_array = set.session_array ++ (sid ∷ []);
    }
unfolding set_session
set_session-room sid set e = rw e

set_session-full :
    (sid : ℕ) (set : SessionSet)
    → leb session_set_size set.session_count ≡ true
    → (set_session sid set).1 ≡ set
unfolding set_session
set_session-full sid set e = rw e

set_sessions-take :
    (sids : List ℕ) (set : SessionSet)
    → IsFilled set
    → (set_sessions sids set).session_array
      ≡ set.session_array ++ take (session_set_size - set.session_count) sids
unfolding set_sessions
set_sessions-take [] set v =
    sym (append-nil set.session_array)
    ∙ ap (◌++◌ set.session_array) (sym (take-nil (session_set_size - set.session_count)))
set_sessions-take (sid ∷ sids) set v = elim (Bool-cases (leb session_set_size set.session_count)) [
  | inl full ↦
      rw (set_sessions, set_session-full sid set full)
        (set_sessions-take sids set v
          ∙ ap (◌++◌ set.session_array) (
              take-le_zero (session_set_size - set.session_count) sids (ground arith)
              ∙ sym (
                  take-le_zero (session_set_size - set.session_count) (sid ∷ sids) (ground arith))))
  | inr room ↦
      rw (set_sessions, set_session-room sid set room)
        (set_sessions-take sids _ (record {
          counted = omega (arith, v.counted, length-append set.session_array (sid ∷ []));
          small = ground arith;
        })
          ∙ (append_assoc set.session_array (sid ∷ []) _
              ∙ ap (◌++◌ set.session_array) (
                  ap (λ k. sid ∷ take k sids) (ground arith)
                  ∙ sym (
                      take-cons_pred (session_set_size - set.session_count) sid sids
                        (ground arith)))))
]

-- A set filled from the empty one holds the first thousand of the sessions, in their order, however
-- many there are.
pub set_sessions_first :
    (sids : List ℕ) → (set_sessions sids set_clear).session_array ≡ take session_set_size sids
unfolding set_clear
set_sessions_first sids =
    set_sessions-take sids set_clear (record { counted = refl; small = omega arith })
