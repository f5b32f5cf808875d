-- ===== src/Backend/Kqueue.antt =====
-- src/KqueueEventManager.cpp. The kernel is a parameter: the filters that it watches and what
-- `kevent` does to them. An exception is `false` beside the state that it leaves.
pub mod Filters
pub mod Refines
use irc_relay_server.Prelude.{
  ℕ, ◌≡◌, ◌≢◌, Bool, true, false, ◌&&◌, Option, none, some, List, [], map, not, if◌then◌else◌,
  or_default,
}
use irc_relay_server.Prelude.{◌==◌ as nat_beq}
use irc_relay_server.Prelude.Map.{Map, nat_key, find, insert, erase, contains}
use irc_relay_server.Events.{
  EventInterest, Event, no_interest, read_interest, write_interest, has_interest,
}
use irc_relay_server.Backend.{Outcome, done, enoent, ebadf, failed, Request, add, update, remove}

-- EVFILT_READ, EVFILT_WRITE and the filters that the server does not use.
pub data Filter : Type 0 where
  evfilt_read : Filter
  evfilt_write : Filter
  evfilt_other : ℕ → Filter

abbrev pub same_filter : Filter → Filter → Bool
same_filter evfilt_read evfilt_read = true
same_filter evfilt_write evfilt_write = true
same_filter (evfilt_other n) (evfilt_other m) = nat_beq n m
same_filter _ _ = false

-- The flags of a change: `EV_ADD | EV_ENABLE`, or `EV_DELETE`.
pub data Change : Type 0 where
  ev_add_enable : Change
  ev_delete : Change

abbrev pub is_add : Change → Bool
is_add ev_add_enable = true
is_add ev_delete = false

-- One kqueue of the kernel, as kqueue(2) describes it: a change that succeeds adds or deletes its
-- filter and no other, one that fails changes none, and a deletion that fails with ENOENT or EBADF
-- finds that the filter is not watched.
pub record KqueueKernel : Type 1 where
  pub Kernel : Type 0
  pub watching : Kernel → ℕ → Filter → Bool
  pub kevent : Kernel → ℕ → Filter → Change → Kernel × Outcome
  pub kevent_changes :
      (k : Kernel) (fd : ℕ) (f : Filter) (c : Change) (other : ℕ) (g : Filter)
      → (kevent k fd f c).1 ≡ done
      → watching (kevent k fd f c).0 other g
        ≡ (if nat_beq fd other && same_filter f g then is_add c else watching k other g)
  pub kevent_fails :
      (k : Kernel) (fd : ℕ) (f : Filter) (c : Change) (other : ℕ) (g : Filter)
      → (kevent k fd f c).1 ≢ done
      → watching (kevent k fd f c).0 other g ≡ watching k other g
  pub kevent_enoent :
      (k : Kernel) (fd : ℕ) (f : Filter)
      → (kevent k fd f ev_delete).1 ≡ enoent
      → watching k fd f ≡ false
  pub kevent_ebadf :
      (k : Kernel) (fd : ℕ) (f : Filter)
      → (kevent k fd f ev_delete).1 ≡ ebadf
      → watching k fd f ≡ false

-- What `kevent` reports of one filter: `ev_error` and `ev_eof` are flags of the event.
pub record KqueueReady : Type 0 where
  pub ident : ℕ
  pub filter : Filter
  pub ev_error : Bool
  pub ev_eof : Bool
  pub data_value : ℕ
  pub fflags : ℕ

pub data KqueueWait : Type 0 where
  ready : List KqueueReady → KqueueWait
  interrupted : KqueueWait
  wait_failed : ℕ → KqueueWait

abbrev pub filter_interest : Filter → EventInterest
filter_interest evfilt_read = read_interest
filter_interest evfilt_write = write_interest
filter_interest (evfilt_other n) = no_interest

unfoldable pub kqueue_event : KqueueReady → Event
kqueue_event r = record {
  fd = r.ident;
  interests = filter_interest r.filter;
  error = r.ev_error;
  hangup = r.ev_eof;
  error_code = if r.ev_error then r.data_value else if r.ev_eof then r.fflags else 0;
}

-- `wait`: `none` is the exception; a signal gives an empty round.
unfoldable pub kqueue_events_of : KqueueWait → Option (List Event)
kqueue_events_of (ready rs) = some (map kqueue_event rs)
kqueue_events_of interrupted = some []
kqueue_events_of (wait_failed e) = none

-- `hadInterest == wantsInterest`.
abbrev pub same_bool : Bool → Bool → Bool
same_bool true b = b
same_bool false b = not b

-- Whether `applyFilterChange` returns.
abbrev pub tolerated : Bool → Outcome → Bool
tolerated ignore_missing done = true
tolerated ignore_missing enoent = ignore_missing
tolerated ignore_missing ebadf = ignore_missing
tolerated ignore_missing (failed e) = false

module _ ⦃k : KqueueKernel⦄ where
  pub record KqueueState : Type 0 where
    pub interests : Map ℕ EventInterest
    pub kernel : k.Kernel

  unfoldable pub apply_filter_change : KqueueState → ℕ → Filter → Change → Bool → KqueueState × Bool
  apply_filter_change s fd filter change ignore_missing =
      let (kernel', outcome) = k.kevent s.kernel fd filter change in
      (record s { kernel = kernel' }, tolerated ignore_missing outcome)

  unfoldable pub update_filter_if_changed :
      KqueueState → ℕ → EventInterest → EventInterest → EventInterest → Filter → KqueueState × Bool
  update_filter_if_changed s fd old new interest filter =
      let had = has_interest old interest in
      let wants = has_interest new interest in
      if same_bool had wants
      then (s, true)
      else apply_filter_change s fd filter (if wants then ev_add_enable else ev_delete) false

  unfoldable pub remove_filter_if_watched :
      KqueueState → ℕ → EventInterest → EventInterest → Filter → KqueueState × Bool
  remove_filter_if_watched s fd interests interest filter =
      if has_interest interests interest
      then apply_filter_change s fd filter ev_delete true
      else (s, true)

  unfoldable pub apply_interest_change :
      KqueueState → ℕ → EventInterest → EventInterest → KqueueState × Bool
  apply_interest_change s fd old new =
      let r = update_filter_if_changed s fd old new read_interest evfilt_read in
      if r.1
      then update_filter_if_changed r.0 fd old new write_interest evfilt_write
      else (r.0, false)

  -- `interests_[fd] = interests`, where the change before it has not thrown.
  abbrev pub store : ℕ → EventInterest → KqueueState × Bool → KqueueState × Bool
  store fd i (s, true) = (record s { interests = insert fd i s.interests }, true)
  store fd i (s, false) = (s, false)

  abbrev pub erase_entry : ℕ → KqueueState × Bool → KqueueState × Bool
  erase_entry fd (s, true) = (record s { interests = erase fd s.interests }, true)
  erase_entry fd (s, false) = (s, false)

  unfoldable pub remove_filters : KqueueState → ℕ → EventInterest → KqueueState × Bool
  remove_filters s fd interests =
      let r = remove_filter_if_watched s fd interests read_interest evfilt_read in
      if r.1
      then remove_filter_if_watched r.0 fd interests write_interest evfilt_write
      else (r.0, false)

  unfoldable pub kqueue_remove_fd : KqueueState → ℕ → KqueueState × Bool
  kqueue_remove_fd s fd = elim (find fd s.interests) [
    | none ↦ (s, true)
    | some interests ↦ erase_entry fd (remove_filters s fd interests)
  ]

  unfoldable pub kqueue_update_fd : KqueueState → ℕ → EventInterest → KqueueState × Bool
  kqueue_update_fd s fd i =
      let old = or_default no_interest (find fd s.interests) in
      if nat_beq i 0 then kqueue_remove_fd s fd else store fd i (apply_interest_change s fd old i)

  unfoldable pub kqueue_add_fd : KqueueState → ℕ → EventInterest → KqueueState × Bool
  kqueue_add_fd s fd i =
      if nat_beq i 0
      then (s, true)
      else if contains fd s.interests
      then kqueue_update_fd s fd i
      else store fd i (apply_interest_change s fd no_interest i)

  abbrev pub kqueue_serve : KqueueState → Request → KqueueState × Bool
  kqueue_serve s (add fd i) = kqueue_add_fd s fd i
  kqueue_serve s (update fd i) = kqueue_update_fd s fd i
  kqueue_serve s (remove fd) = kqueue_remove_fd s fd
