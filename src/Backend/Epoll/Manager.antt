-- ===== src/Backend/Epoll/Manager.antt =====
-- The epoll backend as the `EventManager` that the server takes. Its states are those in which the
-- kernel agrees with the table, so an interest of the table is one that the kernel watches for.
use irc_relay_server.Prelude.{
  ℕ, ◌≡◌, ◌≢◌, Bool, true, Option, some, arith, Option-cases, inl, inr, ==_iff, ap, ◌∙◌,
}
use irc_relay_server.Prelude.Map.{nat_key, find}
use irc_relay_server.Text.{Str}
use irc_relay_server.Connection.{Connection}
use irc_relay_server.Events.{EventInterest, EventManager}
use irc_relay_server.World.{World}
use irc_relay_server.Server.{find_connection, interests_for, refresh_interest}
use irc_relay_server.Server.Interests.{refresh_interest-registered}
use irc_relay_server.Backend.{Request, add, update, remove}
use irc_relay_server.Backend.Epoll.{EpollKernel, EpollState, native_events_for, epoll_serve}
use irc_relay_server.Backend.Epoll.Refines.{IsSynced, masked, epoll_serve-Follows}

module _ ⦃k : EpollKernel⦄ where
  abbrev pub SyncedState : Type 0
  SyncedState = (s : EpollState) × IsSynced s

  abbrev pub serve_synced : SyncedState → Request → SyncedState × Bool
  serve_synced (s, h) r =
      (((epoll_serve s r).0, (epoll_serve-Follows s r h).synced), (epoll_serve s r).1)

  abbrev pub epoll_interest : SyncedState → ℕ → Option EventInterest
  epoll_interest (s, h) fd = find fd s.interests

  pub serve_synced-updated :
      (s : SyncedState) (fd : ℕ) (i : EventInterest)
      → i ≢ 0
      → (serve_synced s (update fd i)).1 ≡ true
      → epoll_interest (serve_synced s (update fd i)).0 fd ≡ some i
  serve_synced-updated (s, h) fd i ne t =
      ground (arith, t, ne, (epoll_serve-Follows s (update fd i) h).table fd, ==_iff fd fd)

  pub serve_synced-other :
      (s : SyncedState) (fd other : ℕ) (i : EventInterest)
      → fd ≢ other
      → epoll_interest (serve_synced s (update fd i)).0 other ≡ epoll_interest s other
  serve_synced-other (s, h) fd other i ne =
      let f = epoll_serve-Follows s (update fd i) h in
      let s' = (epoll_serve s (update fd i)).0 in
      elim (Option-cases (find other s.interests)) [
        | inl e ↦ elim (Option-cases (find other s'.interests)) [
          | inl e' ↦ ground (arith, e, e')
          | inr (j, e') ↦
              ground
                (arith, e, e', ne, f.table other, f.synced.interested other j e', ==_iff fd other)
        ]
        | inr (j, e) ↦ elim (Option-cases (find other s'.interests)) [
          | inl e' ↦
              ground (arith, e, e', ne, f.table other, h.interested other j e, ==_iff fd other)
          | inr (j', e') ↦ ground (arith, e, e', ne, f.table other, ==_iff fd other)
        ]
      ]

  abbrev pub epoll_manager : EventManager
  epoll_manager = record {
    State = SyncedState;
    interest = epoll_interest;
    add_fd = λ s fd i. serve_synced s (add fd i);
    update_fd = λ s fd i. serve_synced s (update fd i);
    remove_fd = λ s fd. serve_synced s (remove fd);
    updated = serve_synced-updated;
    update_other = serve_synced-other;
  }

  -- With the epoll backend, where `refreshInterest` returns true at a connection of the table, the
  -- kernel watches its descriptor for exactly the connection's interests.
  pub refresh_interest-watched :
      (handler : World epoll_manager → Connection → Str → World epoll_manager)
      (w : World epoll_manager) (fd : ℕ) (c : Connection)
      → find_connection ⦃em = epoll_manager⦄ w fd ≡ some c
      → (refresh_interest ⦃em = epoll_manager⦄ handler w fd).1 ≡ true
      → k.watched (refresh_interest ⦃em = epoll_manager⦄ handler w fd).0.server.events.0.kernel fd
        ≡ some (native_events_for (interests_for c))
  refresh_interest-watched handler w fd c e t =
      let s = (refresh_interest ⦃em = epoll_manager⦄ handler w fd).0.server.events in
      s.1.agrees fd
      ∙ ap masked (refresh_interest-registered ⦃em = epoll_manager⦄ handler w fd c e t).0
