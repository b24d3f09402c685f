-- ===== src/Net/Reuse.antt =====
-- The identifiers of sessions (CNetServer.cpp), and a slot that is used again.
use new_name_auction.Prelude.{
  ℕ, ◌/◌, ◌^◌, ◌<◌, ◌≡◌, ◌≢◌, refl, sym, ap, subst, ◌∙◌, Bool, true, false, List, [], ◌∷◌, ◌++◌,
  none, some, ok, arith, leb, ◌==◌, set, need, add64, get_elem?-set_self, Bool-cases, inl, inr,
  lt-length_of_get_elem?,
}
use new_name_auction.Net.State.{
  Session, NetServer, max_session_slots, slot_of, make_session_id, session_at, put_session, unrefs,
  io_up, io_down, io_drop, normal, bind_port, client_join,
}
use new_name_auction.Net.Sessions.{find_session, release_flag, clean_up, release_session}
use new_name_auction.Net.Accept.{accept, open_session, fresh_session, first_recv, count_accept}
use new_name_auction.Net.Slots.{some_of_session_at}

-- The low 16 bits of an identifier are the slot, the others the number of the allocation, which so
-- tells apart the sessions of a slot for 2 ^ 48 acceptances.
pub make_session_id_lem :
    (alloc i : ℕ)
    → alloc < 2 ^ 48
    → i < 2 ^ 16
    → (slot_of (make_session_id alloc i) ≡ i) × (make_session_id alloc i / 2 ^ 16 ≡ alloc)
make_session_id_lem alloc i ha hi = (omega arith, omega arith)

-- A session that has just been opened.
pub record IsOpened (sid sock ip : ℕ) (t : Session) : Type 0 where
  pub valid : t.valid ≡ true
  pub kept : t.released ≡ false
  pub named : t.session_id ≡ sid
  pub sock_of : t.sock ≡ sock
  pub ip_of : t.ip ≡ ip
  pub idle : t.sending ≡ false
  pub fresh_step : t.step ≡ normal
  pub queue_empty : t.send_queue ≡ []

fresh_session-IsOpened :
    (sid sock ip : ℕ) (s : Session) → IsOpened sid sock ip (fresh_session sid sock ip s)
unfolding fresh_session
fresh_session-IsOpened sid sock ip s = record {
  valid = refl;
  kept = refl;
  named = refl;
  sock_of = refl;
  ip_of = refl;
  idle = refl;
  fresh_step = refl;
  queue_empty = refl;
}

pub session_at-put :
    (i : ℕ) (s s' : Session) (n : NetServer)
    → session_at i n ≡ ok s
    → session_at i (put_session i s' n) ≡ ok s'
session_at-put i s s' n e = ap need (
    get_elem?-set_self n.sessions i s'
      (lt-length_of_get_elem? n.sessions i s (some_of_session_at i n s e)))

pub io_drop-at :
    (i : ℕ) (s0 s : Session) (n : NetServer)
    → session_at i n ≡ ok s0
    → session_at i (io_drop i s n) ≡ ok (io_down s)
unfolding io_drop
io_drop-at i s0 s n at = elim (Bool-cases ((io_down s).io_count == 0)) [
  | inl last ↦ rw last (session_at-put i s0 (io_down s) n at)
  | inr used ↦ rw used (session_at-put i s0 (io_down s) n at)
]

first_recv-IsOpened :
    (sid sock ip i : ℕ) (failed : Bool) (s : Session) (n : NetServer)
    → session_at i n ≡ ok s
    → IsOpened sid sock ip s
    → (t : Session) × (session_at i (first_recv failed i s n) ≡ ok t) × IsOpened sid sock ip t
unfolding first_recv
first_recv-IsOpened sid sock ip i true s n e o = (
  io_down s,
  session_at-put i s (io_down s) n e,
  record {
    valid = o.valid;
    kept = o.kept;
    named = o.named;
    sock_of = o.sock_of;
    ip_of = o.ip_of;
    idle = o.idle;
    fresh_step = o.fresh_step;
    queue_empty = o.queue_empty;
  },
)
first_recv-IsOpened sid sock ip i false s n e o = (s, e, o)

-- A connection that the handler admits takes the first slot of the stack, with the next identifier.
accept-IsOpened :
    (sock ip join_flag : ℕ) (failed : Bool) (i : ℕ) (rest : List ℕ) (s : Session) (n : NetServer)
    → n.empty_index ≡ i ∷ rest
    → session_at i n ≡ ok s
    → (n' : NetServer) × (t : Session) × (accept sock ip (some join_flag) failed n ≡ ok n')
      × (session_at i n' ≡ ok t)
      × IsOpened (make_session_id n.alloc_num i) sock ip t
unfolding accept open_session
accept-IsOpened sock ip join_flag failed i rest s n e at =
    let sid = make_session_id n.alloc_num i in
    let s' = fresh_session sid sock ip s in
    let opened : NetServer = record (count_accept n) {
      empty_index = rest;
      alloc_num = add64 n.alloc_num 1;
      sessions = set n.sessions i s';
      calls =
          n.calls
          ++ (bind_port sock i ∷ [])
          ++ unrefs s.send_queue
          ++ (client_join sid join_flag ∷ []);
    } in
    let (t, at', o) =
      first_recv-IsOpened sid sock ip i failed s' opened (session_at-put i s s' n at)
        (fresh_session-IsOpened sid sock ip s) in
    (first_recv failed i s' opened, t, rw (e, at) refl, at', o)

find_session-opened :
    (sid i sock ip : ℕ) (t : Session) (n : NetServer)
    → slot_of sid ≡ i
    → i < max_session_slots
    → session_at i n ≡ ok t
    → IsOpened sid sock ip t
    → find_session sid n ≡ ok (some i, put_session i (io_up t) n)
unfolding find_session
find_session-opened sid i sock ip t n slot low at o =
    let inside : leb max_session_slots i ≡ false = ground arith in
    let same : (sid == sid) ≡ true = ground arith in
    rw (slot, inside, at, o.valid, o.kept, o.named, same) refl

find_session-other :
    (old sid i sock ip : ℕ) (t : Session) (n : NetServer)
    → slot_of old ≡ i
    → i < max_session_slots
    → session_at i n ≡ ok t
    → IsOpened sid sock ip t
    → old ≢ sid
    → find_session old n ≡ ok (none, io_drop i (io_up t) n)
unfolding find_session
find_session-other old sid i sock ip t n slot low at o differ =
    let inside : leb max_session_slots i ≡ false = ground arith in
    let other : (old == sid) ≡ false = ground (arith, differ) in
    rw (slot, inside, at, o.valid, o.kept, o.named, other) refl

release_session-clean_up :
    (sid i : ℕ) (s : Session) (n : NetServer)
    → slot_of sid ≡ i
    → i < max_session_slots
    → session_at i n ≡ ok s
    → s.valid ≡ true
    → s.released ≡ false
    → s.io_count ≡ 0
    → s.session_id ≡ sid
    → release_session 1 sid n ≡ ok (clean_up sid i s n)
unfolding release_session
release_session-clean_up sid i s n slot low at v r io named =
    let inside : leb max_session_slots i ≡ false = ground arith in
    let same : (sid == s.session_id) ≡ true = ground (arith, named) in
    let flag : (release_flag s == s.io_count) ≡ true = rw (r, io) refl in
    rw (slot, inside, at, v, flag, same) refl

clean_up-slot :
    (sid i : ℕ) (s : Session) (n : NetServer)
    → session_at i n ≡ ok s
    → (rest : List ℕ) × (s' : Session) × ((clean_up sid i s n).empty_index ≡ i ∷ rest)
      × (session_at i (clean_up sid i s n) ≡ ok s')
      × ((clean_up sid i s n).alloc_num ≡ n.alloc_num)
unfolding clean_up
clean_up-slot sid i s n at = (n.empty_index, _, refl, session_at-put i s _ n at, refl)

-- A valid session that nobody uses or has released is released, and the next connection that the handler
-- admits takes its slot: its own identifier finds it, the old one finds nobody, if the number of the
-- allocation is below 2 ^ 48 and is not that of the old identifier.
pub reused_slot_lem :
    (sid sock ip join_flag : ℕ) (failed : Bool) (s : Session) (n : NetServer)
    → slot_of sid < max_session_slots
    → session_at (slot_of sid) n ≡ ok s
    → s.valid ≡ true
    → s.released ≡ false
    → s.io_count ≡ 0
    → s.session_id ≡ sid
    → n.alloc_num < 2 ^ 48
    → n.alloc_num ≢ sid / 2 ^ 16
    → (n1 n2 n3 n4 : NetServer) × (release_session 1 sid n ≡ ok n1)
      × (accept sock ip (some join_flag) failed n1 ≡ ok n2)
      × (find_session sid n2 ≡ ok (none, n3))
      × (find_session (make_session_id n.alloc_num (slot_of sid)) n2 ≡ ok (some (slot_of sid), n4))
reused_slot_lem sid sock ip join_flag failed s n low at v r io named small fresh =
    let i = slot_of sid in
    let new = make_session_id n.alloc_num i in
    let n1 = clean_up sid i s n in
    let (rest, s', pool, at1, same) = clean_up-slot sid i s n at in
    let (n2, t, accepted, at2, o) =
      accept-IsOpened sock ip join_flag failed i rest s' n1 pool at1 in
    let o' : IsOpened new sock ip t =
      subst (λ k. IsOpened (make_session_id k i) sock ip t) same o in
    let (slot, number) = make_session_id_lem n.alloc_num i small (omega arith) in
    let differ : sid ≢ new = λ e. fresh (sym number ∙ ap (λ k. k / 2 ^ 16) (sym e)) in
    (
      n1,
      n2,
      _,
      _,
      release_session-clean_up sid i s n refl low at v r io named,
      accepted,
      find_session-other sid new i sock ip t n2 refl low at2 o' differ,
      find_session-opened new i sock ip t n2 slot low at2 o',
    )
