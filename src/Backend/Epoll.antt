-- ===== src/Backend/Epoll.antt =====
-- src/EpollEventManager.cpp. The kernel is a parameter: its registrations and what `epoll_ctl` does
-- to them. A mask of `EPOLL…` flags is the set of the flags, so that no numeric value is assumed; an
-- exception is `false` beside the state that it leaves.
pub mod Refines
pub mod Manager
use irc_relay_server.Prelude.{
  ℕ, ◌≡◌, ◌≢◌, Bool, true, false, ◌||◌, Option, none, some, List, [], ◌∷◌, map, if◌then◌else◌,
  or_default,
}
use irc_relay_server.Prelude.{◌==◌ as nat_beq}
use irc_relay_server.Prelude.Map.{Map, nat_key, find, insert, erase, contains}
use irc_relay_server.Events.{
  EventInterest, Event, no_interest, read_interest, write_interest, union, has_interest,
}
use irc_relay_server.Backend.{
  Outcome, done, enoent, ebadf, failed, Request, add, update, remove, Watch,
}

-- EPOLLIN, EPOLLRDHUP, EPOLLOUT, EPOLLERR and EPOLLHUP.
pub record EpollMask : Type 0 where
  pub epollin : Bool
  pub epollrdhup : Bool
  pub epollout : Bool
  pub epollerr : Bool
  pub epollhup : Bool

pub data Ctl : Type 0 where
  ctl_add : Ctl
  ctl_mod : Ctl
  ctl_del : Ctl

-- One epoll instance of the kernel, as epoll_ctl(2) describes it: a call that succeeds changes the
-- registration of its descriptor and no other, one that fails changes none, and ENOENT and EBADF say
-- that the descriptor is not registered.
pub record EpollKernel : Type 1 where
  pub Kernel : Type 0
  pub watched : Kernel → ℕ → Option EpollMask
  pub epoll_ctl : Kernel → Ctl → ℕ → EpollMask → Kernel × Outcome
  pub ctl_changes :
      (k : Kernel) (op : Ctl) (fd other : ℕ) (m : EpollMask)
      → (epoll_ctl k op fd m).1 ≡ done
      → watched (epoll_ctl k op fd m).0 other ≡ (
          if nat_beq fd other
          then elim op [ ctl_add ↦ some m | ctl_mod ↦ some m | ctl_del ↦ none ]
          else watched k other)
  pub ctl_fails :
      (k : Kernel) (op : Ctl) (fd other : ℕ) (m : EpollMask)
      → (epoll_ctl k op fd m).1 ≢ done
      → watched (epoll_ctl k op fd m).0 other ≡ watched k other
  pub ctl_enoent :
      (k : Kernel) (fd : ℕ) (m : EpollMask)
      → (epoll_ctl k ctl_del fd m).1 ≡ enoent
      → watched k fd ≡ none
  pub ctl_ebadf :
      (k : Kernel) (fd : ℕ) (m : EpollMask)
      → (epoll_ctl k ctl_del fd m).1 ≡ ebadf
      → watched k fd ≡ none

unfoldable pub native_events_for : EventInterest → EpollMask
native_events_for interests = record {
  epollin = has_interest interests read_interest;
  epollrdhup = has_interest interests read_interest;
  epollout = has_interest interests write_interest;
  epollerr = true;
  epollhup = true;
}

-- The event that accompanies EPOLL_CTL_DEL.
abbrev pub no_events : EpollMask
no_events = record {
  epollin = false;
  epollrdhup = false;
  epollout = false;
  epollerr = false;
  epollhup = false;
}

-- What `epoll_wait` reports of one descriptor.
pub record EpollReady : Type 0 where
  pub fd : ℕ
  pub events : EpollMask

pub data EpollWait : Type 0 where
  ready : List EpollReady → EpollWait
  interrupted : EpollWait
  wait_failed : ℕ → EpollWait

-- What `getsockopt` answers for SO_ERROR.
pub data SocketOption : Type 0 where
  option_value : ℕ → SocketOption
  option_failed : ℕ → SocketOption

abbrev pub socket_error_for : SocketOption → ℕ
socket_error_for (option_value error) = error
socket_error_for (option_failed errno) = errno

module _ (getsockopt : ℕ → SocketOption) where
  unfoldable pub epoll_event : EpollReady → Event
  epoll_event r = record {
    fd = r.fd;
    interests =
        union (if r.events.epollin then read_interest else no_interest)
          (if r.events.epollout then write_interest else no_interest);
    error = r.events.epollerr;
    hangup = r.events.epollhup || r.events.epollrdhup;
    error_code = if r.events.epollerr then socket_error_for (getsockopt r.fd) else 0;
  }

  -- `wait`: `none` is the exception; a signal gives an empty round.
  unfoldable pub epoll_events_of : EpollWait → Option (List Event)
  epoll_events_of (ready rs) = some (map epoll_event rs)
  epoll_events_of interrupted = some []
  epoll_events_of (wait_failed e) = none

module _ ⦃k : EpollKernel⦄ where
  pub record EpollState : Type 0 where
    pub interests : Map ℕ EventInterest
    pub kernel : k.Kernel

  unfoldable pub control : EpollState → ℕ → Ctl → EventInterest → EpollState × Outcome
  control s fd op i =
      let (kernel', outcome) = k.epoll_ctl s.kernel op fd (native_events_for i) in
      (record s { kernel = kernel' }, outcome)

  -- Behind a call of `control` that registers: the table is written where it has not thrown.
  abbrev pub store : ℕ → EventInterest → EpollState × Outcome → EpollState × Bool
  store fd i (s, done) = (record s { interests = insert fd i s.interests }, true)
  store fd i (s, enoent) = (s, false)
  store fd i (s, ebadf) = (s, false)
  store fd i (s, failed e) = (s, false)

  -- Behind EPOLL_CTL_DEL: that the descriptor is gone already is no error.
  abbrev pub forget_fd : ℕ → EpollState × Outcome → EpollState × Bool
  forget_fd fd (s, done) = (record s { interests = erase fd s.interests }, true)
  forget_fd fd (s, enoent) = (record s { interests = erase fd s.interests }, true)
  forget_fd fd (s, ebadf) = (record s { interests = erase fd s.interests }, true)
  forget_fd fd (s, failed e) = (s, false)

  unfoldable pub epoll_remove_fd : EpollState → ℕ → EpollState × Bool
  epoll_remove_fd s fd =
      let (kernel', outcome) = k.epoll_ctl s.kernel ctl_del fd no_events in
      if contains fd s.interests
      then forget_fd fd (record s { kernel = kernel' }, outcome)
      else (s, true)

  -- `addFd` and `updateFd` call each other; each call is written out with the test that the other has
  -- made already.
  unfoldable pub epoll_update_fd : EpollState → ℕ → EventInterest → EpollState × Bool
  epoll_update_fd s fd i =
      if nat_beq i 0
      then epoll_remove_fd s fd
      else if contains fd s.interests
      then store fd i (control s fd ctl_mod i)
      else store fd i (control s fd ctl_add i)

  unfoldable pub epoll_add_fd : EpollState → ℕ → EventInterest → EpollState × Bool
  epoll_add_fd s fd i =
      if nat_beq i 0
      then (s, true)
      else if contains fd s.interests
      then epoll_update_fd s fd i
      else store fd i (control s fd ctl_add i)

  abbrev pub epoll_serve : EpollState → Request → EpollState × Bool
  epoll_serve s (add fd i) = epoll_add_fd s fd i
  epoll_serve s (update fd i) = epoll_update_fd s fd i
  epoll_serve s (remove fd) = epoll_remove_fd s fd
