-- ===== src/Net/State.antt =====
-- The state of CNetServer (NewNameAuction/CNetServer.h): the sessions, the stack of free slots, the
-- counters, and the calls made of Windows and of the handler, oldest first. A pointer to a session is its
-- index. The packets of a session stand in its queue and in its array of sent packets by value: a
-- reference that is given back, subRef with the free at zero, is a call `unref`.
use new_name_auction.Prelude.{
  ℕ, ◌+◌, ◌*◌, ◌%◌, ◌^◌, Bool, true, false, List, [], ◌∷◌, ◌++◌, ◌==◌, if◌then◌else◌, Outcome, need,
  set, get_elem?, add32, sub32,
}
use new_name_auction.Packet.{Packet}
use new_name_auction.Ring.{Ring}
use new_name_auction.Net.Receive.{RecvBuffers}

-- dfMAX_SESSION and dfMAX_PACKET
abbrev pub max_session_slots : ℕ
max_session_slots = 30000

abbrev pub max_packet : ℕ
max_packet = 950

-- SESSION_NORMAL_STATE to SESSION_DISCONNECT
pub data DisconnectStep : Type 0 where
  normal send_packet_last send_post_last disconnected : DisconnectStep

abbrev pub is_disconnected : DisconnectStep → Bool
is_disconnected normal = false
is_disconnected send_packet_last = false
is_disconnected send_post_last = false
is_disconnected disconnected = true

-- st_Session. `released` is releaseFlag, `sending` is sendFlag, `sent` the first sendPacketCount entries
-- of sentPacketArray.
pub record Session : Type 0 where
  pub session_id : ℕ
  pub sock : ℕ
  pub ip : ℕ
  pub valid : Bool
  pub released : Bool
  pub io_count : ℕ
  pub sending : Bool
  pub step : DisconnectStep
  pub recv_queue : Ring
  pub send_queue : List Packet
  pub sent : List Packet
  pub send_count : ℕ
  pub recv_count : ℕ
  pub disconnect_count : ℕ

-- The calls: what is posted to the completion port, the socket calls, and those of the handler.
pub data Call : Type 0 where
  post_send : ℕ → Call
  post_release : ℕ → Call
  cancel_io : ℕ → Call
  close_socket : ℕ → Call
  wsa_send : ℕ → List Packet → Call
  wsa_recv : ℕ → RecvBuffers → Call
  wsa_recv_first : ℕ → ℕ → ℕ → Call
  bind_port : ℕ → ℕ → Call
  client_join : ℕ → ℕ → Call
  client_leave : ℕ → Call
  client_recv : ℕ → Packet → Call
  unref : Packet → Call

pub record NetServer : Type 0 where
  pub max_session : ℕ
  pub sessions : List Session
  pub empty_index : List ℕ
  pub alloc_num : ℕ
  pub accept_sum : ℕ
  pub accept_count : ℕ
  pub accept_tps : ℕ
  pub disconnect_tps : ℕ
  pub send_tps : ℕ
  pub recv_tps : ℕ
  pub session_num : ℕ
  pub calls : List Call

-- `(short)SessionID`, as the slot that the low 16 bits name; the negative ones are those from 32768 on.
abbrev pub slot_of : ℕ → ℕ
slot_of sid = sid % 2 ^ 16

-- `AllocNum << 16 | index`
abbrev pub make_session_id : ℕ → ℕ → ℕ
make_session_id alloc i = (alloc * 2 ^ 16 + i) % 2 ^ 64

abbrev pub session_at : ℕ → NetServer → Outcome Session
session_at i n = need (get_elem? n.sessions i)

abbrev pub put_session : ℕ → Session → NetServer → NetServer
put_session i s n = record n { sessions = set n.sessions i s }

abbrev pub call : Call → NetServer → NetServer
call c n = record n { calls = n.calls ++ (c ∷ []) }

abbrev pub io_up : Session → Session
io_up s = record s { io_count = add32 s.io_count 1 }

abbrev pub io_down : Session → Session
io_down s = record s { io_count = sub32 s.io_count 1 }

abbrev pub calls_of : List Call → NetServer → NetServer
calls_of cs n = record n { calls = n.calls ++ cs }

-- The references to packets that are given back.
unfoldable pub unrefs : List Packet → List Call
unrefs [] = []
unrefs (p ∷ ps) = unref p ∷ unrefs ps

-- `if (InterlockedDecrement(&IOcount) == 0) releaseRequest(pSession)`, on the session `s` of slot `i`.
unfoldable pub io_drop : ℕ → Session → NetServer → NetServer
io_drop i s n =
    let n' = put_session i (io_down s) n in
    if (io_down s).io_count == 0 then call (post_release i) n' else n'
