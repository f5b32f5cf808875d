-- ===== src/EventLoop/Sound/Rules.antt =====
-- The invariant of the whole program as a property that the event loop (src/Server.cpp) keeps.
use irc_relay_server.Prelude.{ℕ, ◌≡◌, ◌∙◌, refl, true, some}
use irc_relay_server.Prelude.Map.{nat_key, contains}
use irc_relay_server.Text.{Str}
use irc_relay_server.Channel.{empty, add_member, clear_invite}
use irc_relay_server.Connection.{Connection}
use irc_relay_server.Connection.Descriptor.{fd-read_available, fd-flush_pending}
use irc_relay_server.Events.{EventManager}
use irc_relay_server.World.{World}
use irc_relay_server.Server.{find_connection}
use irc_relay_server.App.Relay.{drop_client, fuel_for}
use irc_relay_server.App.Relay.Steps.{drop_client-path, refresh-path, keeps_app}
use irc_relay_server.App.Consistent.{IsConsistent, forget-IsConsistent, drop_client-IsConsistent}
use irc_relay_server.App.Changes.Keeping.{IsConsistent-IsInvariant, counted-IsConsistent}
use irc_relay_server.App.Invariant.{IsInvariant}
use irc_relay_server.App.Support.{modify_channel, ensure_channel}
use irc_relay_server.EventLoop.{refresh, count_line}
use irc_relay_server.EventLoop.Keeps.{IsLoopInvariant}
use irc_relay_server.EventLoop.Seats.Writing.{drop_client-IsSeated, refresh-IsSeated}
use irc_relay_server.EventLoop.Sound.{
  IsSound, nobody, IsFrame, same-IsSound, sends-IsSound, closes-IsSound, modify-IsSound,
  frame-IsSound, modify_channel-IsFrame, take_out-IsFrame, ensure_channel-IsFrame,
  with_client-IsSound, contains-found, renames-IsSound, connects-IsSound, IsLimited-path,
}

module _ ⦃em : EventManager⦄ where
  abbrev rooms : IsInvariant (λ w fd. Unit {0}) (λ (w : World em). IsConsistent w.app)
  rooms = IsConsistent-IsInvariant

  -- A client connects where its descriptor has a connection.
  abbrev pub HasSeat : World em → ℕ → Type 0
  HasSeat w fd = contains fd w.server.connections ≡ true

  entered-IsFrame :
      (w : World em) (name nick : Str) (fd : ℕ)
      → IsFrame w (
          modify_channel name
            (λ d. clear_invite nick (add_member fd (empty (ensure_channel w name).1) d))
            (ensure_channel w name).0)
  entered-IsFrame w name nick fd =
      let v = ensure_channel w name in
      let e = ensure_channel-IsFrame w name in
      let m =
        modify_channel-IsFrame v.0 name (λ d. clear_invite nick (add_member fd (empty v.1) d)) in
      record {
        same_server = m.same_server ∙ e.same_server;
        same_clients = m.same_clients ∙ e.same_clients;
      }

  pub IsSound-IsInvariant : IsInvariant HasSeat IsSound
  IsSound-IsInvariant = record {
    kept = record { sends = sends-IsSound; closes = closes-IsSound };
    counts = λ w app c r h.
        same-IsSound w _ refl (counted-IsConsistent w.app app c r h.consistent) (λ k t. rw r at t)
          h;
    rooms = λ w name f step h.
        frame-IsSound w _ (modify_channel-IsFrame w name f) (rooms.rooms w name f step h.consistent)
          h;
    takes = λ w name fd h.
        frame-IsSound w _ (take_out-IsFrame w name fd) (rooms.takes w name fd h.consistent) h;
    enters = λ w name nick fd known h.
        frame-IsSound w _ (entered-IsFrame w name nick fd)
          (rooms.enters w name nick fd known h.consistent) h;
    clients = λ w fd d known u h.
        with_client-IsSound w fd d known (rooms.clients w fd d known u h.consistent) h;
    gates = λ w fd c e f h.
        with_client-IsSound w fd _ (contains-found w fd c e) (rooms.gates w fd c e f h.consistent)
          h;
    renames = λ w fd nickname known full free h.
        renames-IsSound w fd nickname known
          (rooms.renames w fd nickname known full free h.consistent) h;
    connects = connects-IsSound;
  }

  pub drops-IsSound :
      (w : World em) (fd : ℕ) (reason : Str) → IsSound w → IsSound (drop_client w fd reason)
  drops-IsSound w fd reason h = record {
    consistent = drop_client-IsConsistent w fd reason h.consistent;
    seated = drop_client-IsSeated nobody w fd reason h.seated;
    limited = drop_client-path IsLimited-path w fd reason h.limited;
  }

  pub refreshes-IsSound : (w : World em) (fd : ℕ) → IsSound w → IsSound (refresh w fd).0
  refreshes-IsSound w fd h = record {
    consistent =
        unfold refresh in
        refresh-path (keeps_app IsConsistent forget-IsConsistent) (fuel_for w) w fd h.consistent;
    seated = refresh-IsSeated nobody w fd h.seated;
    limited = unfold refresh in refresh-path IsLimited-path (fuel_for w) w fd h.limited;
  }

  counts_line-IsSound : (w : World em) → IsSound w → IsSound (count_line w)
  unfolding count_line find_connection
  counts_line-IsSound w h = record {
    consistent = h.consistent;
    seated = record { keyed = h.seated.keyed; seats = h.seated.seats };
    limited = h.limited;
  }

  found-HasSeat :
      (w : World em) (fd : ℕ) (c : Connection)
      → find_connection w fd ≡ some c
      → IsSound w
      → HasSeat (count_line w) c.fd
  unfolding count_line find_connection
  found-HasSeat w fd c e h = let same : c.fd ≡ fd = h.seated.keyed fd c e in rw same (rw e refl)

  pub IsSound-IsLoopInvariant : IsLoopInvariant HasSeat IsSound
  IsSound-IsLoopInvariant = record {
    inv = IsSound-IsInvariant;
    drops = drops-IsSound;
    refreshes = refreshes-IsSound;
    reads = λ w fd c results e h.
        modify-IsSound w fd _ (fd-read_available results c ∙ h.seated.keyed fd c e) h;
    flushes = λ w fd c results e h.
        modify-IsSound w fd _ (fd-flush_pending results c ∙ h.seated.keyed fd c e) h;
    counts_line = counts_line-IsSound;
    finds = found-HasSeat;
  }
