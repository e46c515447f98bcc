-- ===== src/Bc/Race.antt =====
-- The sockets of `BusController` where its threads interleave: the accept thread (`acceptLoop`),
-- a thread that sends (`sendAcyclicFrame`, under `m_apiMutex`, so one at a time) and one that
-- stops the controller (`shutdown`, which takes no mutex). Each move is one access of an atomic
-- member or one system call. A schedule is a list of moves; one that its thread cannot make where
-- it stands changes nothing. Only client sockets are followed.
pub mod Ownership
pub mod Leak
use tcp_1553_bus_analyzer.Prelude.{
  ℕ, zero, suc, ◌+◌, ◌≤◌, ◌≡◌, refl, Bool, true, false, not, ◌&&◌, List, [], ◌∷◌, Option, none,
  some, arith, ◌==◌, if◌then◌else◌,
}

-- Where the accept thread stands: in `accept`; behind it with a new socket; behind the test of
-- `m_isInitialized`; behind the exchange, with the socket that it took out; out of the loop.
pub data AcceptAt : Type 0 where
  in_accept : AcceptAt
  got : ℕ → AcceptAt
  passed : ℕ → AcceptAt
  replaced : Option ℕ → AcceptAt
  left_loop : AcceptAt

-- Where a send stands: nowhere; behind the load; behind a failed write; behind the exchange, with
-- the socket that it had loaded and the one that it took out.
pub data SendAt : Type 0 where
  no_send : SendAt
  loaded : ℕ → SendAt
  failed : ℕ → SendAt
  took : ℕ → Option ℕ → SendAt

-- Where `shutdown` stands: not called; behind `m_isInitialized = false`; behind the exchange.
pub data StopAt : Type 0 where
  not_stopping : StopAt
  flagged : StopAt
  emptied : Option ℕ → StopAt

pub record System : Type 0 where
  pub is_initialized : Bool
  pub client : Option ℕ
  pub is_open : ℕ → Bool
  pub accept_at : AcceptAt
  pub send_at : SendAt
  pub stop_at : StopAt

pub data Move : Type 0 where
  accept_returns : ℕ → Move
  accept_moves : Move
  send_loads : Move
  write_succeeds : Move
  write_fails : Move
  send_moves : Move
  stop_moves : Move

-- The call of `close` that a move makes, if any.
abbrev pub Made : Type 0
Made = System × Option ℕ

abbrev update : (ℕ → Bool) → ℕ → Bool → ℕ → Bool
update f k v i = if k == i then v else f i

abbrev closing : Option ℕ → System → Made
closing none s = (s, none)
closing (some fd) s = (record s { is_open = update s.is_open fd false }, some fd)

-- The operating system hands out no descriptor that is open.
unfoldable pub accept_return : ℕ → AcceptAt → System → Made
accept_return fd in_accept s =
    if s.is_open fd
    then (s, none)
    else (record s { is_open = update s.is_open fd true; accept_at = got fd }, none)
accept_return fd _ s = (s, none)

unfoldable pub accept_move : AcceptAt → System → Made
accept_move in_accept s = (s, none)
accept_move (got fd) s =
    if s.is_initialized
    then (record s { accept_at = passed fd }, none)
    else closing (some fd) (record s { accept_at = left_loop })
accept_move (passed fd) s = (record s { client = some fd; accept_at = replaced s.client }, none)
accept_move (replaced old) s =
    closing old (record s { accept_at = if s.is_initialized then in_accept else left_loop })
accept_move left_loop s = (s, none)

abbrev load : Option ℕ → SendAt
load none = no_send
load (some fd) = loaded fd

unfoldable pub send_load : SendAt → System → Made
send_load no_send s = (record s { send_at = load s.client }, none)
send_load _ s = (s, none)

-- After a write that does not fail the send goes on without touching the sockets.
unfoldable pub write_succeed : SendAt → System → Made
write_succeed (loaded fd) s = (record s { send_at = no_send }, none)
write_succeed _ s = (s, none)

unfoldable pub write_fail : SendAt → System → Made
write_fail (loaded fd) s = (record s { send_at = failed fd }, none)
write_fail _ s = (s, none)

-- `if (fdToClose == currentClientFd) close(currentClientFd);`
abbrev if_same : ℕ → Option ℕ → Option ℕ
if_same fd none = none
if_same fd (some taken) = if taken == fd then some fd else none

unfoldable pub send_move : SendAt → System → Made
send_move no_send s = (s, none)
send_move (loaded fd) s = (s, none)
send_move (failed fd) s = (record s { client = none; send_at = took fd s.client }, none)
send_move (took fd taken) s = closing (if_same fd taken) (record s { send_at = no_send })

unfoldable pub stop_move : StopAt → System → Made
stop_move not_stopping s = (record s { is_initialized = false; stop_at = flagged }, none)
stop_move flagged s = (record s { client = none; stop_at = emptied s.client }, none)
stop_move (emptied old) s = closing old (record s { stop_at = not_stopping })

unfoldable pub step : Move → System → Made
unfolding accept_return accept_move send_load write_succeed write_fail send_move stop_move
step (accept_returns fd) s = accept_return fd s.accept_at s
step accept_moves s = accept_move s.accept_at s
step send_loads s = send_load s.send_at s
step write_succeeds s = write_succeed s.send_at s
step write_fails s = write_fail s.send_at s
step send_moves s = send_move s.send_at s
step stop_moves s = stop_move s.stop_at s

unfoldable pub run : List Move → System → System
run [] s = s
run (m ∷ ms) s = run ms (step m s).0

-- After `initialize`, with nobody connected.
abbrev pub listening : System
listening = record {
  is_initialized = true;
  client = none;
  is_open = λ fd. false;
  accept_at = in_accept;
  send_at = no_send;
  stop_at = not_stopping;
}

abbrev holds : Option ℕ → ℕ → ℕ
holds none fd = 0
holds (some k) fd = if k == fd then 1 else 0

abbrev accept_owns : AcceptAt → ℕ → ℕ
accept_owns in_accept fd = 0
accept_owns (got k) fd = if k == fd then 1 else 0
accept_owns (passed k) fd = if k == fd then 1 else 0
accept_owns (replaced old) fd = holds old fd
accept_owns left_loop fd = 0

abbrev send_owns : SendAt → ℕ → ℕ
send_owns (took k taken) fd = holds (if_same k taken) fd
send_owns _ fd = 0

abbrev stop_owns : StopAt → ℕ → ℕ
stop_owns (emptied old) fd = holds old fd
stop_owns _ fd = 0

-- In how many places a socket is still known, so that somebody may close it.
abbrev pub owners : ℕ → System → ℕ
owners fd s =
    holds s.client fd + accept_owns s.accept_at fd + send_owns s.send_at fd + stop_owns s.stop_at fd

-- A socket that somebody may close is open, and is known in one place only.
abbrev pub IsOwned : ℕ → System → Type 0
IsOwned fd s = owners fd s ≤ (if s.is_open fd then 1 else 0)
