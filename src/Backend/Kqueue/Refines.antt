-- ===== src/Backend/Kqueue/Refines.antt =====
-- The kqueue backend (src/KqueueEventManager.cpp) against the table of `Backend` and against the
-- kernel's filters, which a call changes one by one.
use irc_relay_server.Prelude.{
  ℕ, ◌≡◌, refl, ◌⊎◌, Bool, true, false, ◌||◌, if◌then◌else◌, not, or_default, arith, Bool-cases,
  Option-cases, inl, inr, ==_iff,
}
use irc_relay_server.Prelude.{◌==◌ as nat_beq}
use irc_relay_server.Prelude.Map.{nat_key, find, find-insert, find-erase}
use irc_relay_server.Events.{
  EventInterest, no_interest, read_interest, write_interest, has_interest,
}
use irc_relay_server.Backend.{Request, add, update, remove, Watch, set_watch, served, descriptor}
use irc_relay_server.Backend.Kqueue.{
  Filter, evfilt_read, evfilt_write, evfilt_other, KqueueKernel, KqueueState,
  update_filter_if_changed, remove_filter_if_watched, apply_interest_change, remove_filters, store,
  erase_entry, kqueue_remove_fd, kqueue_update_fd, kqueue_add_fd, kqueue_serve,
}
use irc_relay_server.Backend.Kqueue.Filters.{
  Moved, watches, update_filter_if_changed-Moved, remove_filter_if_watched-Moved,
}

-- Whether an interest asks for a filter.
abbrev pub wants_filter : EventInterest → Filter → Bool
wants_filter i evfilt_read = has_interest i read_interest
wants_filter i evfilt_write = has_interest i write_interest
wants_filter i (evfilt_other n) = false

pub wants_filter-zero : (f : Filter) → wants_filter 0 f ≡ false
unfolding has_interest
wants_filter-zero evfilt_read = refl
wants_filter-zero evfilt_write = refl
wants_filter-zero (evfilt_other n) = refl

module _ ⦃k : KqueueKernel⦄ where
  abbrev pub kqueue_watch : KqueueState → Watch
  kqueue_watch s fd = or_default 0 (find fd s.interests)

  -- The kernel watches the filters that the table asks for, and no others.
  abbrev pub IsSynced : KqueueState → Type 0
  IsSynced s = (fd : ℕ) (f : Filter) → watches s fd f ≡ wants_filter (kqueue_watch s fd) f

  -- The filters of `fd` are those that `i` asks for where the calls have returned; where one has
  -- thrown, each is as before or as `i` asks. Nothing else has changed.
  record Turned (s : KqueueState) (fd : ℕ) (i : EventInterest) (r : KqueueState × Bool)
      : Type 0 where
    cached : r.0.interests ≡ s.interests
    others :
        (other : ℕ) (f : Filter)
        → watches r.0 other f ≡ (
            if nat_beq fd other
            then (if r.1 then wants_filter i f else watches r.0 fd f)
            else watches s other f)
    between :
        (f : Filter) → (watches r.0 fd f ≡ watches s fd f) ⊎ (watches r.0 fd f ≡ wants_filter i f)

  -- Both filters in turn.
  module _ (s : KqueueState) (fd : ℕ) (i : EventInterest) (r t : KqueueState × Bool)
      (unused : (n : ℕ) → watches s fd (evfilt_other n) ≡ false)
      (m : Moved s fd evfilt_read (has_interest i read_interest) r)
      (n : Moved r.0 fd evfilt_write (has_interest i write_interest) t) where
    abbrev both : KqueueState × Bool
    both = if r.1 then t else (r.0, false)

    both-filters :
        (other : ℕ) (f : Filter)
        → (watches both.0 other f ≡ (
            if nat_beq fd other
            then (if both.1 then wants_filter i f else watches both.0 fd f)
            else watches s other f))
          × ((watches both.0 fd f ≡ watches s fd f) ⊎ (watches both.0 fd f ≡ wants_filter i f))
    both-filters other evfilt_read = (
      ground (
        arith,
        m.filters other evfilt_read,
        n.filters other evfilt_read,
        m.filters fd evfilt_read,
        n.filters fd evfilt_read,
        ==_iff fd other,
        ==_iff fd fd,
      ),
      ground (arith, m.filters fd evfilt_read, n.filters fd evfilt_read, ==_iff fd fd),
    )
    both-filters other evfilt_write = (
      ground (
        arith,
        m.filters other evfilt_write,
        n.filters other evfilt_write,
        m.filters fd evfilt_write,
        n.filters fd evfilt_write,
        ==_iff fd other,
        ==_iff fd fd,
      ),
      ground (arith, m.filters fd evfilt_write, n.filters fd evfilt_write, ==_iff fd fd),
    )
    both-filters other (evfilt_other j) = (
      ground (
        arith,
        unused j,
        m.filters other (evfilt_other j),
        n.filters other (evfilt_other j),
        m.filters fd (evfilt_other j),
        n.filters fd (evfilt_other j),
        ==_iff fd other,
        ==_iff fd fd,
      ),
      ground (
        arith,
        unused j,
        m.filters fd (evfilt_other j),
        n.filters fd (evfilt_other j),
        ==_iff fd fd,
      ),
    )

    both-Turned : Turned s fd i both
    both-Turned = record {
      cached = ground (arith, m.cached, n.cached);
      others = λ other f. (both-filters other f).0;
      between = λ f. (both-filters fd f).1;
    }

  -- The table is `watch` where the call has returned, and as before where it has thrown. The filters
  -- are those of the table, except where the call has thrown: there each filter of its descriptor is
  -- as before or as requested.
  pub record Follows (s : KqueueState) (fd : ℕ) (watch : Watch) (r : KqueueState × Bool)
      : Type 0 where
    pub table :
        (other : ℕ) → kqueue_watch r.0 other ≡ (if r.1 then watch other else kqueue_watch s other)
    pub filters :
        (other : ℕ) (f : Filter)
        → watches r.0 other f ≡ (
            if r.1 || not (nat_beq fd other)
            then wants_filter (kqueue_watch r.0 other) f
            else watches r.0 fd f)
    pub between :
        (f : Filter)
        → (watches r.0 fd f ≡ wants_filter (kqueue_watch s fd) f)
          ⊎ (watches r.0 fd f ≡ wants_filter (watch fd) f)

  module _ (s : KqueueState) (fd : ℕ) (synced : IsSynced s) where
    quiet-Follows :
        (watch : Watch)
        → ((other : ℕ) → kqueue_watch s other ≡ watch other)
        → Follows s fd watch (s, true)
    quiet-Follows watch same = record {
      table = same;
      filters = synced;
      between = λ f. inl (synced fd f);
    }

    store-Follows :
        (i : EventInterest) (r : KqueueState × Bool)
        → Turned s fd i r
        → Follows s fd (set_watch fd i (kqueue_watch s)) (store fd i r)
    store-Follows i (s', true) t = record {
      table = λ other. ground (arith, t.cached, find-insert fd other i s'.interests);
      filters = λ other f.
          ground (
            arith,
            t.others other f,
            t.cached,
            synced other f,
            find-insert fd other i s'.interests,
          );
      between = λ f. ground (arith, t.between f, synced fd f, ==_iff fd fd);
    }
    store-Follows i (s', false) t = record {
      table = λ other. ground (arith, t.cached);
      filters = λ other f. ground (arith, t.others other f, t.cached, synced other f);
      between = λ f. ground (arith, t.between f, synced fd f, ==_iff fd fd);
    }

    erase_entry-Follows :
        (r : KqueueState × Bool)
        → Turned s fd 0 r
        → Follows s fd (set_watch fd 0 (kqueue_watch s)) (erase_entry fd r)
    erase_entry-Follows (s', true) t = record {
      table = λ other. ground (arith, t.cached, find-erase fd other s'.interests);
      filters = λ other f.
          ground
            (arith, t.others other f, t.cached, synced other f, find-erase fd other s'.interests);
      between = λ f. ground (arith, t.between f, synced fd f, ==_iff fd fd);
    }
    erase_entry-Follows (s', false) t = record {
      table = λ other. ground (arith, t.cached);
      filters = λ other f. ground (arith, t.others other f, t.cached, synced other f);
      between = λ f. ground (arith, t.between f, synced fd f, ==_iff fd fd);
    }

    apply_interest_change-Turned :
        (i : EventInterest) → Turned s fd i (apply_interest_change s fd (kqueue_watch s fd) i)
    unfolding apply_interest_change
    apply_interest_change-Turned i =
        let old = kqueue_watch s fd in
        let r = update_filter_if_changed s fd old i read_interest evfilt_read in
        let m : Moved s fd evfilt_read (has_interest i read_interest) r =
          update_filter_if_changed-Moved s fd evfilt_read old i read_interest
            (synced fd evfilt_read) in
        both-Turned s fd i r (update_filter_if_changed r.0 fd old i write_interest evfilt_write)
          (λ n. synced fd (evfilt_other n)) m
          (update_filter_if_changed-Moved r.0 fd evfilt_write old i write_interest
            (ground (arith, m.filters fd evfilt_write, synced fd evfilt_write)))

    remove_filters-Turned : Turned s fd 0 (remove_filters s fd (kqueue_watch s fd))
    unfolding remove_filters has_interest
    remove_filters-Turned =
        let old = kqueue_watch s fd in
        let r = remove_filter_if_watched s fd old read_interest evfilt_read in
        let m : Moved s fd evfilt_read false r =
          remove_filter_if_watched-Moved s fd evfilt_read old read_interest
            (synced fd evfilt_read) in
        both-Turned s fd 0 r (remove_filter_if_watched r.0 fd old write_interest evfilt_write)
          (λ n. synced fd (evfilt_other n)) m
          (remove_filter_if_watched-Moved r.0 fd evfilt_write old write_interest
            (ground (arith, m.filters fd evfilt_write, synced fd evfilt_write)))

    remove_fd-Follows : Follows s fd (set_watch fd 0 (kqueue_watch s)) (kqueue_remove_fd s fd)
    unfolding kqueue_remove_fd
    remove_fd-Follows = elim (Option-cases (find fd s.interests)) [
      | inl e ↦
          rw (e, kqueue_remove_fd)
            (quiet-Follows (set_watch fd 0 (kqueue_watch s))
              (λ other. ground (arith, e, ==_iff fd other)))
      | inr (i, e) ↦
          let t : Turned s fd 0 (remove_filters s fd i) = rw e at remove_filters-Turned in
          rw (e, kqueue_remove_fd) (erase_entry-Follows (remove_filters s fd i) t)
    ]

    update_fd-Follows :
        (i : EventInterest)
        → Follows s fd (set_watch fd i (kqueue_watch s)) (kqueue_update_fd s fd i)
    unfolding kqueue_update_fd
    update_fd-Follows i = elim (Bool-cases (nat_beq i 0)) [
      | inl z ↦
          let e : i ≡ 0 = (==_iff i 0).0 z in rw (z, kqueue_update_fd) (rw e remove_fd-Follows)
      | inr nz ↦
          rw (nz, kqueue_update_fd)
            (store-Follows i (apply_interest_change s fd (kqueue_watch s fd) i)
              (apply_interest_change-Turned i))
    ]

    add_fd-Follows :
        (i : EventInterest)
        → Follows s fd (served (add fd i) (kqueue_watch s)) (kqueue_add_fd s fd i)
    unfolding kqueue_add_fd
    add_fd-Follows i = elim (Bool-cases (nat_beq i 0)) [
      | inl z ↦ rw (z, kqueue_add_fd) (quiet-Follows (kqueue_watch s) (λ other. refl))
      | inr nz ↦ elim (Option-cases (find fd s.interests)) [
        | inl e ↦
            let t : Turned s fd i (apply_interest_change s fd 0 i) =
              rw e at (apply_interest_change-Turned i) in
            rw (nz, e, kqueue_add_fd) (store-Follows i (apply_interest_change s fd no_interest i) t)
        | inr (old, e) ↦ rw (nz, e, kqueue_add_fd) (update_fd-Follows i)
      ]
    ]

  -- A call of the kqueue backend, from a state in which the kernel watches the filters that the table
  -- asks for, does to the table what the interface promises where it returns, and nothing where it
  -- throws. Behind it the filters are those of the table, except for the descriptor of a call that
  -- has thrown: there each filter is as before or as requested.
  pub kqueue_serve-Follows :
      (s : KqueueState) (r : Request)
      → IsSynced s
      → Follows s (descriptor r) (served r (kqueue_watch s)) (kqueue_serve s r)
  kqueue_serve-Follows s (add fd i) h = add_fd-Follows s fd h i
  kqueue_serve-Follows s (update fd i) h = update_fd-Follows s fd h i
  kqueue_serve-Follows s (remove fd) h = remove_fd-Follows s fd h
