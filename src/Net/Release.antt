-- ===== src/Net/Release.antt =====
-- The calls of releaseSession of itself (CNetServer.cpp).
use new_name_auction.Prelude.{
  ℕ, suc, ◌≡◌, refl, sym, ap, subst, ◌∙◌, true, false, not, Outcome, ok, arith, leb, ◌==◌,
  if◌then◌else◌,
}
use new_name_auction.Net.State.{
  Session, NetServer, max_session_slots, slot_of, session_at, put_session, io_up, io_down,
}
use new_name_auction.Net.Sessions.{release_flag, clean_up, release_session}
use new_name_auction.Net.Reuse.{session_at-put}

-- The session that is put back where the slot has another one by now.
abbrev restored : Session → Session
restored s = io_down (io_up (record s { released = false }))

abbrev restore : ℕ → Session → NetServer → NetServer
restore sid s n = put_session (slot_of sid) (restored s) n

-- releaseSession on the session of the slot, given what its call of itself does.
abbrev release_body : ℕ → Session → NetServer → Outcome NetServer → Outcome NetServer
release_body sid s n again =
    if leb max_session_slots (slot_of sid)
    then ok n
    else if not s.valid
    then ok n
    else if not (release_flag s == s.io_count)
    then ok n
    else if sid == s.session_id
    then ok (clean_up sid (slot_of sid) s n)
    else if (restored s).io_count == 0
    then again
    else ok (restore sid s n)

release_session-run :
    (fuel sid : ℕ) (s : Session) (n : NetServer)
    → session_at (slot_of sid) n ≡ ok s
    → release_session (suc fuel) sid n
      ≡ release_body sid s n (release_session fuel s.session_id (restore sid s n))
unfolding release_session
release_session-run fuel sid s n at = rw at refl

-- One call is enough for the session that has the slot.
pub release_session-own :
    (fuel sid : ℕ) (s : Session) (n : NetServer)
    → session_at (slot_of sid) n ≡ ok s
    → s.session_id ≡ sid
    → release_session (suc fuel) sid n ≡ release_session 1 sid n
release_session-own fuel sid s n at named =
    release_session-run fuel sid s n at
    ∙ (same (release_session fuel s.session_id (restore sid s n))
          (release_session 0 s.session_id (restore sid s n))
        ∙ sym (release_session-run 0 sid s n at))
  where
    same :
        (again again' : Outcome NetServer)
        → release_body sid s n again ≡ release_body sid s n again'
    same again again' =
        let own : (sid == s.session_id) ≡ true = ground (arith, named) in rw own refl

-- Two calls are enough if the identifier of the session that has the slot names this slot.
pub release_session-other :
    (fuel sid : ℕ) (s : Session) (n : NetServer)
    → session_at (slot_of sid) n ≡ ok s
    → slot_of s.session_id ≡ slot_of sid
    → release_session (suc (suc fuel)) sid n ≡ release_session 2 sid n
release_session-other fuel sid s n at slot =
    let at' : session_at (slot_of s.session_id) (restore sid s n) ≡ ok (restored s) =
      subst (λ i. session_at i (restore sid s n) ≡ ok (restored s)) (sym slot)
        (session_at-put (slot_of sid) s (restored s) n at) in
    release_session-run (suc fuel) sid s n at
    ∙ (ap (release_body sid s n)
          (release_session-own fuel s.session_id (restored s) (restore sid s n) at' refl)
        ∙ sym (release_session-run 1 sid s n at))
