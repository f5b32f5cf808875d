-- ===== src/Backend.antt =====
-- The two event backends, src/EpollEventManager.cpp and src/KqueueEventManager.cpp, and what both
-- promise: the calls of `EventManager` on a table that gives each descriptor its interests.
pub mod Epoll
pub mod Kqueue
use irc_relay_server.Prelude.{ℕ, if◌then◌else◌}
use irc_relay_server.Prelude.{◌==◌ as nat_beq}
use irc_relay_server.Events.{EventInterest}

-- How a system call that changes a registration ends; a code other than these two is `failed`.
pub data Outcome : Type 0 where
  done : Outcome
  enoent : Outcome
  ebadf : Outcome
  failed : ℕ → Outcome

-- A call of `EventManager` that changes registrations.
pub data Request : Type 0 where
  add : ℕ → EventInterest → Request
  update : ℕ → EventInterest → Request
  remove : ℕ → Request

-- The table that a client of `EventManager` sees; 0 is no interest.
abbrev pub Watch : Type 0
Watch = ℕ → EventInterest

abbrev pub set_watch : ℕ → EventInterest → Watch → Watch
set_watch fd i watch other = if nat_beq fd other then i else watch other

-- What a call does to the table where it succeeds.
abbrev pub served : Request → Watch → Watch
served (add fd i) watch = if nat_beq i 0 then watch else set_watch fd i watch
served (update fd i) watch = set_watch fd i watch
served (remove fd) watch = set_watch fd 0 watch

-- The descriptor that a call is about.
abbrev pub descriptor : Request → ℕ
descriptor (add fd i) = fd
descriptor (update fd i) = fd
descriptor (remove fd) = fd
