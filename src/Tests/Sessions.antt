-- ===== src/Tests/Sessions.antt =====
-- The sessions of the network server, in a table of two slots.
use new_name_auction.Prelude.{
  Bool, ℕ, zero, suc, ◌≤◌, ◌≡◌, refl, arith, true, false, [], ◌∷◌, ◌++◌, List, none, some, length,
  replicate, Outcome, ok, fault, add32,
}
use new_name_auction.Packet.{Packet, add_ref}
use new_name_auction.Ring.{Ring, rear_buffer_ptr, begin_ptr, free_size, direct_enqueue_size}
use new_name_auction.Ring.Contents.{IsRing, held}
use new_name_auction.Net.State.{
  Session, NetServer, wsa_recv, normal, send_packet_last, disconnected, make_session_id, session_at,
  io_up,
}
use new_name_auction.Net.Receive.{recv_buffers, Framed, frame_loop}
use new_name_auction.Net.Receive.Frames.{wires, Bodies}
use new_name_auction.Net.Receive.Buffers.{Filled}
use new_name_auction.Net.Receive.Split.{split_message_lem}
use new_name_auction.Net.Sessions.{
  find_session, release_session, start_server, start_sessions, push_slots,
}
use new_name_auction.Net.Accept.{accept, open_session, fresh_session, first_recv}
use new_name_auction.Net.Sending.{encoded, send_packet, send_post, send_done}
use new_name_auction.Net.Worker.{recv_done, deliveries}
use new_name_auction.Net.Slots.{IsPartition, in_use}
use new_name_auction.Net.Slots.Reach.{NetReach, started, then_step, accepts, NetReach-IsPartition}
use new_name_auction.Net.Reuse.{reused_slot_lem}
use new_name_auction.Net.Stream.{Sends, on_wire}
use new_name_auction.Net.Stream.Drain.{send_all, send_all_lem}
use new_name_auction.Net.Stream.Last.{last_packet_lem}
use new_name_auction.Net.Stream.Enqueue.{send_packet_lem}
use new_name_auction.Net.Reception.{recv_done_lem}
use new_name_auction.Tests.Fixtures.{block}
use new_name_auction.Tests.Messages.{block-IsBlock}
use new_name_auction.Tests.Nets.{hello, line}

abbrev quiet : Ring
quiet = record { size = 12; cells = replicate 12 0; front = 0; rear = 0 }

quiet-IsRing : IsRing quiet
quiet-IsRing = record {
  sized = refl;
  small = omega arith;
  some_room = omega arith;
  front_in = omega arith;
  rear_in = omega arith;
  begun = omega arith;
}

abbrev unused : Session
unused = record {
  session_id = 0;
  sock = 0;
  ip = 0;
  valid = false;
  released = false;
  io_count = 0;
  sending = false;
  step = normal;
  recv_queue = quiet;
  send_queue = [];
  sent = [];
  send_count = 0;
  recv_count = 0;
  disconnect_count = 0;
}

abbrev table : NetServer
table = record {
  max_session = 2;
  sessions = unused ∷ unused ∷ [];
  empty_index = [];
  alloc_num = 9;
  accept_sum = 0;
  accept_count = 0;
  accept_tps = 0;
  disconnect_tps = 0;
  send_tps = 0;
  recv_tps = 0;
  session_num = 0;
  calls = [];
}

abbrev value_or : NetServer → Outcome NetServer → NetServer
value_or n (ok n') = n'
value_or n fault = n

abbrev accepted : NetServer
accepted = value_or table (accept 5 6 (some 0) false (start_server table))

accepted_reached : NetReach table accepted
unfolding accept open_session fresh_session first_recv start_server start_sessions push_slots
accepted_reached = then_step _ _ started (accepts 5 6 (some 0) false refl)

no_slot_above : (i : ℕ) → 2 ≤ i → in_use i (unused ∷ unused ∷ []) ≡ 0
no_slot_above zero h = absurd (omega (arith, h))
no_slot_above (suc zero) h = absurd (omega (arith, h))
no_slot_above (suc (suc i)) h = refl

NetReach-IsPartition_example : IsPartition accepted
NetReach-IsPartition_example =
    NetReach-IsPartition table accepted refl no_slot_above accepted_reached

-- The session of slot 0 was the seventh.
abbrev seventh : Session
seventh = record unused { session_id = 458752; valid = true }

abbrev in_slot : Session → NetServer
in_slot s = record table { sessions = s ∷ unused ∷ []; empty_index = 1 ∷ [] }

reused_slot_lem_example :
    (n1 n2 n3 n4 : NetServer) × (release_session 1 458752 (in_slot seventh) ≡ ok n1)
    × (accept 5 6 (some 0) false n1 ≡ ok n2)
    × (find_session 458752 n2 ≡ ok (none, n3))
    × (find_session (make_session_id 9 0) n2 ≡ ok (some 0, n4))
reused_slot_lem_example =
    reused_slot_lem 458752 5 6 0 false seventh (in_slot seventh) (omega arith) refl refl refl refl
      refl (omega arith) (omega arith)

-- A WSASend is under way, and one packet waits.
abbrev waiting_one : Session
waiting_one = record seventh { sending = true; sent = block ∷ []; send_queue = block ∷ [] }

abbrev one_waits : Sends 0 (in_slot waiting_one) [] (block ∷ []) true
one_waits = record {
  session = waiting_one;
  at = refl;
  flag = refl;
  fine = refl;
  waiting = refl;
  sent_before = refl;
}

send_all_lem_example :
    (n' : NetServer) × (send_all 2 0 (in_slot waiting_one) ≡ ok n')
    × Sends 0 n' (block ∷ []) [] false
send_all_lem_example =
    send_all_lem 1 0 (in_slot waiting_one) [] (block ∷ []) one_waits (omega arith)

abbrev written : Packet
written = record block { encode_flag = true }

abbrev given : Packet
given = record written { ref_count = 1 }

encoded-written : encoded (add_ref 1 written) ≡ ok given
unfolding encoded add_ref
encoded-written = refl

send_packet_lem_example :
    (n' : NetServer) × (send_packet 458752 written false true (in_slot waiting_one)
      ≡ ok (given, n'))
    × Sends 0 n' [] (block ∷ given ∷ []) true
send_packet_lem_example =
    send_packet_lem 458752 written given true true (in_slot waiting_one) [] (block ∷ []) one_waits
      (record { in_table = omega arith; valid = refl; kept = refl; named = refl }) encoded-written

abbrev leaving : Session
leaving = record seventh { step = send_packet_last; send_queue = block ∷ [] }

last_packet_lem_example :
    (n1 n2 : NetServer) × (s2 : Session) × (send_post false 0 (in_slot leaving) ≡ ok n1)
    × (send_done false 0 n1 ≡ ok n2)
    × (session_at 0 n2 ≡ ok s2)
    × (s2.step ≡ disconnected)
    × (s2.send_queue ≡ [])
    × (on_wire 0 n2.calls ≡ block ∷ [])
    × ((failed : Bool) (n3 : NetServer) (s3 : Session)
        → session_at 0 n3 ≡ ok s3
        → s3.step ≡ disconnected
        → send_post failed 0 n3 ≡ ok n3)
last_packet_lem_example = last_packet_lem 0 leaving (in_slot leaving) refl refl refl (omega arith)

-- The message arrives at once, and in two parts.
abbrev hello_cells : List ℕ
hello_cells = 0 ∷ 119 ∷ 2 ∷ 0 ∷ 9 ∷ 9 ∷ 65 ∷ 66 ∷ 0 ∷ 0 ∷ 0 ∷ 0 ∷ []

hello_cells-Filled : Filled quiet (wires (hello ∷ [])) hello_cells
unfolding recv_buffers rear_buffer_ptr begin_ptr free_size direct_enqueue_size
hello_cells-Filled = refl

recv_done_lem_example :
    (ps : List Packet) × (q : Ring) × (n' : NetServer) × (recv_done block 0 hello_cells 7 false 0
        (in_slot seventh)
      ≡ ok n')
    × Bodies ps (hello ∷ [])
    × (n'.calls ≡ deliveries 458752 ps ++ (wsa_recv 0 (recv_buffers q) ∷ []))
    × (session_at 0 n'
        ≡ ok (record (io_up seventh) { recv_queue = q; recv_count = add32 0 (length ps) }))
    × IsRing q
    × (held q ≡ [])
recv_done_lem_example =
    recv_done_lem block 0 hello_cells (hello ∷ []) 0 seventh (in_slot seventh) block-IsBlock
      (omega arith, tt) refl refl quiet-IsRing refl (omega arith) (omega arith) hello_cells-Filled

abbrev hello_line : Ring
hello_line = record line { rear = 7 }

hello_line-IsRing : IsRing hello_line
hello_line-IsRing = record {
  sized = refl;
  small = omega arith;
  some_room = omega arith;
  front_in = omega arith;
  rear_in = omega arith;
  begun = omega arith;
}

split_message_lem_example :
    (f : Framed) × (frame_loop block 0 2 4 hello_line ≡ ok f)
    × Bodies f.packets (hello ∷ [])
    × (f.dropped ≡ true)
    × (held f.queue ≡ [])
split_message_lem_example =
    split_message_lem block 0 4 hello hello_line block-IsBlock (omega arith) hello_line-IsRing refl
      (omega arith) (omega arith)
