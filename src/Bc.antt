-- ===== src/Bc.antt =====
-- src/core/bc.hpp and src/core/bc.cpp: `BusController`, the TCP server that the simulator connects
-- to. The operating system's answers are arguments, and the calls made of it are listed in order.
-- Messages to the console are left out. `std::atomic` members are plain fields here; how the
-- threads interleave is the subject of `Bc.Race`.
pub mod Send
pub mod Lifecycle
pub mod Sockets
pub mod Race
pub mod Payload
pub mod Status
pub mod Reply
pub mod Written
use tcp_1553_bus_analyzer.Prelude.{
  ℕ, Bool, true, false, not, ◌&&◌, List, [], ◌∷◌, ◌++◌, ◌==◌, if◌then◌else◌,
}
use tcp_1553_bus_analyzer.Prelude.Int.{ℤ, pos, negsuc, is_zero, is_negative, minus_one}
use tcp_1553_bus_analyzer.Protocol.{Bytes}
use tcp_1553_bus_analyzer.Text.{Text, codes, decimal}

-- `accept_thread` says whether `m_acceptThread` is joinable.
pub record BusController : Type 0 where
  pub is_initialized : Bool
  pub host : Text
  pub port : ℕ
  pub server_fd : ℤ
  pub client_fd : ℤ
  pub accept_thread : Bool
  pub last_error : Text

-- What a `BusController` is before its first call.
abbrev pub idle : BusController
idle = record {
  is_initialized = false;
  host = [];
  port = 0;
  server_fd = minus_one;
  client_fd = minus_one;
  accept_thread = false;
  last_error = [];
}

pub data Call : Type 0 where
  socket : Call
  reuse_address : ℤ → Call
  bind_any : ℤ → ℕ → Call
  listen_one : ℤ → Call
  close : ℤ → Call
  shut_down : ℤ → Call
  spawn_accept_loop : Call
  join_accept_loop : Call
  write : ℤ → Bytes → Call
  receive_timeout : ℤ → ℕ → Call
  read : ℤ → ℕ → Call

-- What the four calls of `initialize` return, and `errno` after the one that failed.
pub record ServerAnswers : Type 0 where
  pub socket_fd : ℤ
  pub reuse : ℤ
  pub bound : ℤ
  pub listening : ℤ
  pub errno : ℕ

abbrev pub eaddrinuse : ℕ
eaddrinuse = 98

pub bind_error : (ℕ → Text) → ℕ → ℕ → Text
bind_error strerror port errno =
    if errno == eaddrinuse
    then codes "Cannot bind to port "
      ++ decimal port
      ++ codes ". QEMU is already running and using the bus."
    else codes "BC Server Bind Error: " ++ strerror errno

pub listen_error : (ℕ → Text) → ℕ → Text
listen_error strerror errno = codes "BC Server Listen Error: " ++ strerror errno

abbrev pub ready : Text
ready = codes "Ready"

abbrev Outcome : Type 0
Outcome = BusController × ℤ × List Call

-- `close(m_serverFd); m_serverFd = -1; return -1;`, after the calls made so far.
give_up : BusController → List Call → Outcome
give_up c calls = (record c { server_fd = minus_one }, minus_one, calls ++ close c.server_fd ∷ [])

-- `initialize`; `strerror` is the C library's.
unfoldable pub initialize : (ℕ → Text) → ServerAnswers → Text → ℕ → BusController → Outcome
unfolding give_up
initialize strerror a host port c =
    let fd = a.socket_fd in
    let c1 = record c { host = host; port = port; server_fd = fd } in
    let set = socket ∷ reuse_address fd ∷ [] in
    let tried = socket ∷ reuse_address fd ∷ bind_any fd port ∷ [] in
    let opened = socket ∷ reuse_address fd ∷ bind_any fd port ∷ listen_one fd ∷ [] in
    if c.is_initialized
    then (c, pos 0, [])
    else if is_negative fd
    then (c1, minus_one, socket ∷ [])
    else if not (is_zero a.reuse)
    then give_up c1 set
    else if is_negative a.bound
    then give_up (record c1 { last_error = bind_error strerror port a.errno }) tried
    else if is_negative a.listening
    then give_up (record c1 { last_error = listen_error strerror a.errno }) opened
    else (
      record c1 { last_error = ready; is_initialized = true; accept_thread = true },
      pos 0,
      opened ++ spawn_accept_loop ∷ [],
    )

-- `while (m_isInitialized && m_serverFd >= 0)`.
unfoldable pub accepting : BusController → Bool
accepting c = c.is_initialized && not (is_negative c.server_fd)

-- The body of `acceptLoop` from the return of `accept` on: the state is the one at that moment,
-- and the Boolean says whether the loop tests its condition again.
unfoldable pub accept_round : ℤ → BusController → BusController × Bool × List Call
accept_round new_socket c =
    if not c.is_initialized
    then (c, false, if is_negative new_socket then [] else close new_socket ∷ [])
    else if is_negative new_socket
    then (c, true, [])
    else (
      record c { client_fd = new_socket },
      true,
      if is_negative c.client_fd then [] else close c.client_fd ∷ [],
    )

abbrev hang_up : ℤ → List Call
hang_up fd = if is_negative fd then [] else shut_down fd ∷ close fd ∷ []

-- `shutdown`, which the destructor calls too.
unfoldable pub shutdown : BusController → BusController × List Call
shutdown c = (
  record c {
    is_initialized = false;
    server_fd = if is_negative c.server_fd then c.server_fd else minus_one;
    client_fd = minus_one;
    accept_thread = false;
  },
  hang_up c.server_fd
      ++ hang_up c.client_fd
      ++ (if c.accept_thread then join_accept_loop ∷ [] else []),
)

unfoldable pub is_ready : BusController → Bool
is_ready c = c.is_initialized && not (is_negative c.server_fd)

abbrev pub tcp_error : ℤ → Text
tcp_error ret = codes "TCP Error or Not Connected"

-- `defineFrameResources`, which does nothing.
abbrev pub define_frame_resources : BusController → BusController × ℤ
define_frame_resources c = (c, pos 0)
