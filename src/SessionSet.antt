-- ===== src/SessionSet.antt =====
-- CSessionSet of NewNameAuction/CNetServer.h: the sessions of a broadcast, at most
-- dfSESSION_SETSIZE of them.
pub mod Broadcast
use new_name_auction.Prelude.{ℕ, ◌+◌, Bool, true, false, List, [], ◌∷◌, ◌++◌, leb, if◌then◌else◌}

abbrev pub session_set_size : ℕ
session_set_size = 1000

-- `session_array` is the filled part of the array.
pub record SessionSet : Type 0 where
  pub session_count : ℕ
  pub session_array : List ℕ

-- The constructor, and `setClear`.
unfoldable pub set_clear : SessionSet
set_clear = record { session_count = 0; session_array = [] }

unfoldable pub set_session : ℕ → SessionSet → Bool × SessionSet
set_session sid set = if leb session_set_size set.session_count then (false, set) else (
  true,
  record { session_count = set.session_count + 1; session_array = set.session_array ++ (sid ∷ []) },
)

-- `setSession` for each of a list of sessions, its result ignored as the callers do.
unfoldable pub set_sessions : List ℕ → SessionSet → SessionSet
set_sessions [] set = set
set_sessions (sid ∷ sids) set = set_sessions sids (set_session sid set).1
