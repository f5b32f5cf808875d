-- ===== src/Backend/Epoll/Refines.antt =====
-- The epoll backend (src/EpollEventManager.cpp) against the table of `Backend` and against the
-- kernel's registrations.
use irc_relay_server.Prelude.{
  ℕ, ◌≡◌, ◌≢◌, refl, Bool, true, false, Option, none, some, if◌then◌else◌, or_default, arith,
  Bool-cases, Option-cases, inl, inr, ==_iff,
}
use irc_relay_server.Prelude.{◌==◌ as nat_beq}
use irc_relay_server.Prelude.Map.{nat_key, find, contains, find-insert, find-erase}
use irc_relay_server.Events.{EventInterest}
use irc_relay_server.Backend.{
  Outcome, done, enoent, ebadf, failed, Request, add, update, remove, Watch, set_watch, served,
}
use irc_relay_server.Backend.Epoll.{
  EpollMask, ctl_add, ctl_mod, ctl_del, EpollKernel, EpollState, native_events_for, no_events,
  control, store, forget_fd, epoll_remove_fd, epoll_update_fd, epoll_add_fd, epoll_serve,
}

abbrev pub masked : Option EventInterest → Option EpollMask
masked none = none
masked (some i) = some (native_events_for i)

module _ ⦃k : EpollKernel⦄ where
  -- The table that the backend keeps.
  abbrev pub epoll_watch : EpollState → Watch
  epoll_watch s fd = or_default 0 (find fd s.interests)

  -- The kernel watches exactly the descriptors of the table, each for its interests.
  pub record IsSynced (s : EpollState) : Type 0 where
    pub agrees : (fd : ℕ) → k.watched s.kernel fd ≡ masked (find fd s.interests)
    pub interested : (fd : ℕ) (i : EventInterest) → find fd s.interests ≡ some i → i ≢ 0

  -- A state that follows `watch` where the call has succeeded, and the table before where it has not.
  pub record Follows (s : EpollState) (watch : Watch) (r : EpollState × Bool) : Type 0 where
    pub synced : IsSynced r.0
    pub table : (fd : ℕ) → epoll_watch r.0 fd ≡ (if r.1 then watch fd else epoll_watch s fd)

  module _ (s : EpollState) (h : IsSynced s) (fd : ℕ) where
    unchanged-Follows :
        (watch : Watch) (kernel' : k.Kernel)
        → ((other : ℕ) → k.watched kernel' other ≡ k.watched s.kernel other)
        → Follows s watch (record s { kernel = kernel' }, false)
    unchanged-Follows watch kernel' same = record {
      synced = record {
        agrees = λ other. ground (arith, same other, h.agrees other);
        interested = h.interested;
      };
      table = λ other. refl;
    }

    stored-Follows :
        (i : EventInterest) (kernel' : k.Kernel)
        → i ≢ 0
        → ((other : ℕ)
            → k.watched kernel' other
              ≡ (if nat_beq fd other then some (native_events_for i) else k.watched s.kernel other))
        → Follows s
            (set_watch fd i (epoll_watch s))
            (store fd i (record s { kernel = kernel' }, done))
    stored-Follows i kernel' ne changed = record {
      synced = record {
        agrees = λ other.
            ground (arith, changed other, h.agrees other, find-insert fd other i s.interests);
        interested = λ other j e.
            ground (arith, ne, e, h.interested other j, find-insert fd other i s.interests);
      };
      table = λ other. ground (arith, find-insert fd other i s.interests);
    }

    forgotten-Follows :
        (kernel' : k.Kernel)
        → ((other : ℕ)
            → k.watched kernel' other
              ≡ (if nat_beq fd other then none else k.watched s.kernel other))
        → Follows s
            (set_watch fd 0 (epoll_watch s))
            (forget_fd fd (record s { kernel = kernel' }, done))
    forgotten-Follows kernel' changed = record {
      synced = record {
        agrees =
            λ other. ground (arith, changed other, h.agrees other, find-erase fd other s.interests);
        interested =
            λ other j e. ground (arith, e, h.interested other j, find-erase fd other s.interests);
      };
      table = λ other. ground (arith, find-erase fd other s.interests);
    }

    store-Follows :
        (i : EventInterest) (kernel' : k.Kernel) (o : Outcome)
        → i ≢ 0
        → (o ≡ done
            → (other : ℕ)
            → k.watched kernel' other
              ≡ (if nat_beq fd other then some (native_events_for i) else k.watched s.kernel other))
        → (o ≢ done → (other : ℕ) → k.watched kernel' other ≡ k.watched s.kernel other)
        → Follows s (set_watch fd i (epoll_watch s)) (store fd i (record s { kernel = kernel' }, o))
    store-Follows i kernel' done ne changed same = stored-Follows i kernel' ne (changed refl)
    store-Follows i kernel' enoent ne changed same = unchanged-Follows _ kernel' (same (λ e. cc))
    store-Follows i kernel' ebadf ne changed same = unchanged-Follows _ kernel' (same (λ e. cc))
    store-Follows i kernel' (failed code) ne changed same =
        unchanged-Follows _ kernel' (same (λ e. cc))

    forget_fd-Follows :
        (kernel' : k.Kernel) (o : Outcome)
        → (o ≡ done
            → (other : ℕ)
            → k.watched kernel' other
              ≡ (if nat_beq fd other then none else k.watched s.kernel other))
        → (o ≢ done → (other : ℕ) → k.watched kernel' other ≡ k.watched s.kernel other)
        → (o ≡ enoent → k.watched s.kernel fd ≡ none)
        → (o ≡ ebadf → k.watched s.kernel fd ≡ none)
        → Follows s
            (set_watch fd 0 (epoll_watch s))
            (forget_fd fd (record s { kernel = kernel' }, o))
    forget_fd-Follows kernel' done changed same gone gone' =
        forgotten-Follows kernel' (changed refl)
    forget_fd-Follows kernel' enoent changed same gone gone' =
        forgotten-Follows kernel'
          (λ other. ground (arith, gone refl, same (λ e. cc) other, ==_iff fd other))
    forget_fd-Follows kernel' ebadf changed same gone gone' =
        forgotten-Follows kernel'
          (λ other. ground (arith, gone' refl, same (λ e. cc) other, ==_iff fd other))
    forget_fd-Follows kernel' (failed code) changed same gone gone' =
        unchanged-Follows _ kernel' (same (λ e. cc))

    -- A call that the table answers without the kernel.
    quiet-Follows :
        (watch : Watch)
        → ((other : ℕ) → epoll_watch s other ≡ watch other)
        → Follows s watch (s, true)
    quiet-Follows watch same = record { synced = h; table = same }

    remove_fd-Follows : Follows s (set_watch fd 0 (epoll_watch s)) (epoll_remove_fd s fd)
    unfolding epoll_remove_fd
    remove_fd-Follows = elim (Option-cases (find fd s.interests)) [
      | inl e ↦
          rw (e, epoll_remove_fd)
            (quiet-Follows (set_watch fd 0 (epoll_watch s))
              (λ other. ground (arith, e, ==_iff fd other)))
      | inr (i, e) ↦
          rw (e, epoll_remove_fd)
            (forget_fd-Follows (k.epoll_ctl s.kernel ctl_del fd no_events).0
              (k.epoll_ctl s.kernel ctl_del fd no_events).1
              (λ d other. k.ctl_changes s.kernel ctl_del fd other no_events d)
              (λ d other. k.ctl_fails s.kernel ctl_del fd other no_events d)
              (k.ctl_enoent s.kernel fd no_events) (k.ctl_ebadf s.kernel fd no_events))
    ]

    control-Follows_mod :
        (i : EventInterest)
        → i ≢ 0
        → Follows s (set_watch fd i (epoll_watch s)) (store fd i (control s fd ctl_mod i))
    unfolding control
    control-Follows_mod i ne =
        store-Follows i (k.epoll_ctl s.kernel ctl_mod fd (native_events_for i)).0
          (k.epoll_ctl s.kernel ctl_mod fd (native_events_for i)).1 ne
          (λ d other. k.ctl_changes s.kernel ctl_mod fd other (native_events_for i) d)
          (λ d other. k.ctl_fails s.kernel ctl_mod fd other (native_events_for i) d)

    control-Follows_add :
        (i : EventInterest)
        → i ≢ 0
        → Follows s (set_watch fd i (epoll_watch s)) (store fd i (control s fd ctl_add i))
    unfolding control
    control-Follows_add i ne =
        store-Follows i (k.epoll_ctl s.kernel ctl_add fd (native_events_for i)).0
          (k.epoll_ctl s.kernel ctl_add fd (native_events_for i)).1 ne
          (λ d other. k.ctl_changes s.kernel ctl_add fd other (native_events_for i) d)
          (λ d other. k.ctl_fails s.kernel ctl_add fd other (native_events_for i) d)

    update_fd-Follows :
        (i : EventInterest) → Follows s (set_watch fd i (epoll_watch s)) (epoll_update_fd s fd i)
    unfolding epoll_update_fd
    update_fd-Follows i = elim (Bool-cases (nat_beq i 0)) [
      | inl z ↦ let e : i ≡ 0 = (==_iff i 0).0 z in rw (z, epoll_update_fd) (rw e remove_fd-Follows)
      | inr nz ↦
          let ne : i ≢ 0 = λ e. cc (nz, (==_iff i 0).1 e) in
          elim (Bool-cases (contains fd s.interests)) [
            | inl c ↦ rw (nz, c, epoll_update_fd) (control-Follows_mod i ne)
            | inr c ↦ rw (nz, c, epoll_update_fd) (control-Follows_add i ne)
          ]
    ]

    add_fd-Follows :
        (i : EventInterest) → Follows s (served (add fd i) (epoll_watch s)) (epoll_add_fd s fd i)
    unfolding epoll_add_fd
    add_fd-Follows i = elim (Bool-cases (nat_beq i 0)) [
      | inl z ↦ rw (z, epoll_add_fd) (quiet-Follows (epoll_watch s) (λ other. refl))
      | inr nz ↦
          let ne : i ≢ 0 = λ e. cc (nz, (==_iff i 0).1 e) in
          elim (Bool-cases (contains fd s.interests)) [
            | inl c ↦ rw (nz, c, epoll_add_fd) (update_fd-Follows i)
            | inr c ↦ rw (nz, c, epoll_add_fd) (control-Follows_add i ne)
          ]
    ]

  -- After any call of the interface the kernel watches exactly the table's descriptors, each for its
  -- interests, if it did before; the table is the one that the call asks for where it returns, and
  -- the one before where it throws.
  pub epoll_serve-Follows :
      (s : EpollState) (r : Request)
      → IsSynced s
      → Follows s (served r (epoll_watch s)) (epoll_serve s r)
  epoll_serve-Follows s (add fd i) h = add_fd-Follows s h fd i
  epoll_serve-Follows s (update fd i) h = update_fd-Follows s h fd i
  epoll_serve-Follows s (remove fd) h = remove_fd-Follows s h fd
