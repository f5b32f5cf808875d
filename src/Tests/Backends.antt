-- ===== src/Tests/Backends.antt =====
-- The two backends, run on kernels that are tables: every change succeeds, except that a descriptor
-- that is not registered cannot be deleted.
use irc_relay_server.Prelude.{
  ℕ, ◌≡◌, refl, sym, ◌≢◌, Bool, true, false, ◌&&◌, Option, none, some, [], ◌∷◌, if◌then◌else◌,
}
use irc_relay_server.Prelude.{◌==◌ as nat_beq}
use irc_relay_server.Prelude.Map.{nat_key, find}
use irc_relay_server.Text.{Str}
use irc_relay_server.RuntimeConfig.{server_config}
use irc_relay_server.Connection.{Connection, connection, wants_write}
use irc_relay_server.World.{World}
use irc_relay_server.Server.{
  find_connection, interests_for, refresh_interest, update_interest, set_events,
}
use irc_relay_server.Backend.Epoll.Manager.{epoll_manager, refresh_interest-watched}
use irc_relay_server.Tests.{empty_app, connection_5}
use irc_relay_server.Backend.{Outcome, done, enoent, ebadf, add, update, served}
use irc_relay_server.Backend.Epoll.{
  EpollMask, Ctl, ctl_add, ctl_mod, ctl_del, EpollKernel, EpollState, native_events_for, control,
  epoll_update_fd, epoll_serve,
}
use irc_relay_server.Backend.Epoll.Refines.{Follows, IsSynced, epoll_watch, epoll_serve-Follows}
use irc_relay_server.Backend.Kqueue.{
  Filter, same_filter, Change, ev_delete, is_add, KqueueKernel, KqueueState, kqueue_serve,
}
use irc_relay_server.Backend.Kqueue.Refines
use irc_relay_server.Backend.Kqueue.Refines.{kqueue_watch, kqueue_serve-Follows, wants_filter-zero}

abbrev Registrations : Type 0
Registrations = ℕ → Option EpollMask

abbrev changed : Registrations → ℕ → Option EpollMask → Registrations
changed k fd m other = if nat_beq fd other then m else k other

abbrev removed : Registrations → ℕ → Option EpollMask → Registrations × Outcome
removed k fd none = (k, enoent)
removed k fd (some m) = (changed k fd none, done)

abbrev control_table : Registrations → Ctl → ℕ → EpollMask → Registrations × Outcome
control_table k ctl_add fd m = (changed k fd (some m), done)
control_table k ctl_mod fd m = (changed k fd (some m), done)
control_table k ctl_del fd m = removed k fd (k fd)

removed-done :
    (k : Registrations) (fd other : ℕ) (o : Option EpollMask)
    → (removed k fd o).1 ≡ done
    → (removed k fd o).0 other ≡ (if nat_beq fd other then none else k other)
removed-done k fd other none e = cc
removed-done k fd other (some m) e = refl

removed-failed :
    (k : Registrations) (fd other : ℕ) (o : Option EpollMask)
    → (removed k fd o).1 ≢ done
    → (removed k fd o).0 other ≡ k other
removed-failed k fd other none e = refl
removed-failed k fd other (some m) e = absurd (e refl)

missing-enoent :
    (k : Registrations) (fd : ℕ) (o : Option EpollMask) → (removed k fd o).1 ≡ enoent → o ≡ none
missing-enoent k fd none e = refl
missing-enoent k fd (some m) e = cc

missing-ebadf :
    (k : Registrations) (fd : ℕ) (o : Option EpollMask) → (removed k fd o).1 ≡ ebadf → o ≡ none
missing-ebadf k fd none e = refl
missing-ebadf k fd (some m) e = cc

control_table-changes :
    (k : Registrations) (op : Ctl) (fd other : ℕ) (m : EpollMask)
    → (control_table k op fd m).1 ≡ done
    → (control_table k op fd m).0 other ≡ (
        if nat_beq fd other
        then elim op [ ctl_add ↦ some m | ctl_mod ↦ some m | ctl_del ↦ none ]
        else k other)
control_table-changes k ctl_add fd other m e = refl
control_table-changes k ctl_mod fd other m e = refl
control_table-changes k ctl_del fd other m e = removed-done k fd other (k fd) e

control_table-fails :
    (k : Registrations) (op : Ctl) (fd other : ℕ) (m : EpollMask)
    → (control_table k op fd m).1 ≢ done
    → (control_table k op fd m).0 other ≡ k other
control_table-fails k ctl_add fd other m e = absurd (e refl)
control_table-fails k ctl_mod fd other m e = absurd (e refl)
control_table-fails k ctl_del fd other m e = removed-failed k fd other (k fd) e

instance abbrev epoll_table : EpollKernel
epoll_table = record {
  Kernel = Registrations;
  watched = λ k fd. k fd;
  epoll_ctl = control_table;
  ctl_changes = control_table-changes;
  ctl_fails = control_table-fails;
  ctl_enoent = λ k fd m e. missing-enoent k fd (k fd) e;
  ctl_ebadf = λ k fd m e. missing-ebadf k fd (k fd) e;
}

abbrev epoll_start : EpollState
epoll_start = record { interests = []; kernel = λ fd. none }

epoll_start-IsSynced : IsSynced epoll_start
unfolding find
epoll_start-IsSynced = record { agrees = λ fd. refl; interested = λ fd i e. cc }

epoll_serve-Follows_example :
    Follows epoll_start
      (served (add 5 1) (epoll_watch epoll_start))
      (epoll_serve epoll_start (add 5 1))
epoll_serve-Follows_example = epoll_serve-Follows epoll_start (add 5 1) epoll_start-IsSynced

abbrev Filters : Type 0
Filters = ℕ → Filter → Bool

abbrev kevent_table : Filters → ℕ → Filter → Change → Filters × Outcome
kevent_table k fd f c =
    ((λ other g. if nat_beq fd other && same_filter f g then is_add c else k other g), done)

kevent_table-enoent :
    (k : Filters) (fd : ℕ) (f : Filter)
    → (kevent_table k fd f ev_delete).1 ≡ enoent
    → k fd f ≡ false
kevent_table-enoent k fd f e = cc

kevent_table-ebadf :
    (k : Filters) (fd : ℕ) (f : Filter) → (kevent_table k fd f ev_delete).1 ≡ ebadf → k fd f ≡ false
kevent_table-ebadf k fd f e = cc

instance abbrev kqueue_table : KqueueKernel
kqueue_table = record {
  Kernel = Filters;
  watching = λ k fd f. k fd f;
  kevent = kevent_table;
  kevent_changes = λ k fd f c other g e. refl;
  kevent_fails = λ k fd f c other g e. absurd (e refl);
  kevent_enoent = λ k fd f e. kevent_table-enoent k fd f e;
  kevent_ebadf = λ k fd f e. kevent_table-ebadf k fd f e;
}

abbrev kqueue_start : KqueueState
kqueue_start = record { interests = []; kernel = λ fd f. false }

kqueue_start-IsSynced : Refines.IsSynced kqueue_start
unfolding find
kqueue_start-IsSynced fd f = sym (wants_filter-zero f)

kqueue_serve-Follows_example :
    Refines.Follows kqueue_start 5
      (served (update 5 3) (kqueue_watch kqueue_start))
      (kqueue_serve kqueue_start (update 5 3))
kqueue_serve-Follows_example = kqueue_serve-Follows kqueue_start (update 5 3) kqueue_start-IsSynced

-- A server on the epoll backend with one connection, which is not registered yet.
abbrev epoll_world : World epoll_manager
epoll_world = record {
  app = empty_app;
  server = record {
    config = server_config;
    listen_fd = none;
    has_manager = true;
    events = (epoll_start, epoll_start-IsSynced);
    connections = (5, connection_5) ∷ [];
    running = true;
    stop_requested = false;
    metrics = record {
      accepted_connections = 1;
      closed_connections = 0;
      lines_received = 0;
      outbound_queue_drops = 0;
    };
  };
}

abbrev ignoring : World epoll_manager → Connection → Str → World epoll_manager
ignoring w c reason = w

refresh_interest-watched_example :
    epoll_table.watched
      (refresh_interest ⦃em = epoll_manager⦄ ignoring epoll_world 5).0.server.events.0.kernel
      5
    ≡ some (native_events_for (interests_for connection_5))
unfolding refresh_interest update_interest find_connection find interests_for wants_write
    epoll_update_fd control set_events native_events_for connection
refresh_interest-watched_example =
    refresh_interest-watched ignoring epoll_world 5 connection_5 refl refl
