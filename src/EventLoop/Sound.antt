-- ===== src/EventLoop/Sound.antt =====
-- The invariant of the whole program: the application's state, the seats of the clients and the
-- limit on the connections.
pub mod Rules
use irc_relay_server.Prelude.{
  ℕ, ◌≡◌, refl, Bool, true, false, ◌||◌, some, leb, ◌==◌, length, arith, if◌then◌else◌,
  Option-cases, inl, inr, ==_iff,
}
use irc_relay_server.Prelude.Map.{
  nat_key, find, contains, find-insert, length-modify, length-erase-le,
}
use irc_relay_server.Text.{Str}
use irc_relay_server.Channel.{Channel, empty, add_member, clear_invite}
use irc_relay_server.Registry.{
  ClientState, MonotonicTime, find_client, contains_client, put_state, set_nickname, state,
}
use irc_relay_server.Connection.{Connection, Recv, Sent, read_available, flush_pending}
use irc_relay_server.Connection.Descriptor.{fd-read_available, fd-flush_pending}
use irc_relay_server.Events.{EventManager}
use irc_relay_server.World.{App, World}
use irc_relay_server.Server.{
  find_connection, modify_connection, set_events, count_drop, drop_connection,
}
use irc_relay_server.App.Relay.{with_app, send_raw, drop_client, fuel_for}
use irc_relay_server.App.Relay.Steps.{
  IsPath, send_raw-path, drop_client-path, refresh-path, keeps_app,
}
use irc_relay_server.App.Consistent.{
  IsConsistent, forget-IsConsistent, send_raw-IsConsistent, drop_client-IsConsistent,
}
use irc_relay_server.App.Changes.Keeping.{IsConsistent-IsInvariant}
use irc_relay_server.App.Invariant.{IsInvariant, contains-put_state}
use irc_relay_server.App.Support.{
  request_close, with_client, modify_channel, take_out, erase_channel_if_empty, ensure_channel,
}
use irc_relay_server.App.Support.Keeps.{IsKept}
use irc_relay_server.App.Dispatch.{on_connect}
use irc_relay_server.EventLoop.{refresh, count_line}
use irc_relay_server.EventLoop.Keeps.{IsLoopInvariant}
use irc_relay_server.EventLoop.Seats.{IsSeated, modify-IsSeated, request_close-IsSeated}
use irc_relay_server.EventLoop.Seats.Writing.{
  send_raw-IsSeated, drop_client-IsSeated, refresh-IsSeated,
}

abbrev pub nobody : ℕ → Bool
nobody fd = false

module _ ⦃em : EventManager⦄ where
  -- At most `maxConnections` connections; 0 is no limit.
  abbrev pub IsLimited : World em → Type 0
  IsLimited w =
      let limit = w.server.config.max_connections in
      (limit == 0 || leb (length w.server.connections) limit) ≡ true

  -- The application's state is consistent, every connection stands under its descriptor, every client
  -- has a connection, and the connections are within the limit.
  pub record IsSound (w : World em) : Type 0 where
    pub consistent : IsConsistent w.app
    pub seated : IsSeated nobody w
    pub limited : IsLimited w

  modify-IsLimited :
      (w : World em) (fd : ℕ) (f : Connection → Connection)
      → IsLimited w
      → IsLimited (modify_connection fd f w)
  unfolding modify_connection
  modify-IsLimited w fd f h = ground (arith, h, length-modify fd f w.server.connections)

  pub IsLimited-path : IsPath (λ w w'. IsLimited w → IsLimited w')
  unfolding modify_connection count_drop set_events drop_connection
  IsLimited-path = record {
    stay = λ w h. h;
    join = λ u v w f g h. g (f h);
    modifies = λ w fd line c e h. modify-IsLimited w fd _ h;
    counts = λ w h. h;
    registers = λ w s h. h;
    drops = λ w fd h. ground (arith, h, length-erase-le fd w.server.connections);
    forgets = λ w fd h. h;
  }

  -- A change of the application's state alone that makes no client.
  pub same-IsSound :
      (w w' : World em)
      → w'.server ≡ w.server
      → IsConsistent w'.app
      → ((k : ℕ) → contains_client w'.app.clients k ≡ true → contains_client w.app.clients k ≡ true)
      → IsSound w
      → IsSound w'
  unfolding find_connection
  same-IsSound w w' same c fewer h = record {
    consistent = c;
    seated = record {
      keyed = rw same h.seated.keyed;
      seats = λ k t. rw same (h.seated.seats k (fewer k t));
    };
    limited = rw same h.limited;
  }

  pub sends-IsSound :
      (w : World em) (fd : ℕ) (line : Str) → IsSound w → IsSound (send_raw w fd line).0
  sends-IsSound w fd line h = record {
    consistent = send_raw-IsConsistent w fd line h.consistent;
    seated = send_raw-IsSeated nobody w fd line h.seated;
    limited = send_raw-path IsLimited-path w fd line h.limited;
  }

  pub modify-IsSound :
      (w : World em) (fd : ℕ) (c : Connection)
      → c.fd ≡ fd
      → IsSound w
      → IsSound (modify_connection fd (λ _. c) w)
  modify-IsSound w fd c same h = record {
    consistent = unfold modify_connection in h.consistent;
    seated = modify-IsSeated nobody w fd c same h.seated;
    limited = modify-IsLimited w fd _ h.limited;
  }

  pub closes-IsSound :
      (w : World em) (fd : ℕ) (reason : Str) → IsSound w → IsSound (request_close w fd reason)
  closes-IsSound w fd reason h = record {
    consistent = IsConsistent-IsInvariant.kept.closes w fd reason h.consistent;
    seated = request_close-IsSeated nobody w fd reason h.seated;
    limited = unfold request_close in modify-IsLimited w fd _ h.limited;
  }

  -- The changes of the channels leave the server and the clients alone.
  pub record IsFrame (w w' : World em) : Type 0 where
    pub same_server : w'.server ≡ w.server
    pub same_clients : w'.app.clients ≡ w.app.clients

  pub modify_channel-IsFrame :
      (w : World em) (name : Str) (f : Channel → Channel) → IsFrame w (modify_channel name f w)
  unfolding modify_channel
  modify_channel-IsFrame w name f = record { same_server = refl; same_clients = refl }

  pub take_out-IsFrame : (w : World em) (name : Str) (fd : ℕ) → IsFrame w (take_out w name fd)
  unfolding take_out erase_channel_if_empty modify_channel
  take_out-IsFrame w name fd = record { same_server = ground arith; same_clients = ground arith }

  pub ensure_channel-IsFrame : (w : World em) (name : Str) → IsFrame w (ensure_channel w name).0
  unfolding ensure_channel
  ensure_channel-IsFrame w name = record { same_server = ground arith; same_clients = ground arith }

  pub frame-IsSound :
      (w w' : World em) → IsFrame w w' → IsConsistent w'.app → IsSound w → IsSound w'
  frame-IsSound w w' f c h = same-IsSound w w' f.same_server c (λ k t. rw f.same_clients at t) h

  -- A new state of a client.
  pub with_client-IsSound :
      (w : World em) (fd : ℕ) (d : ClientState)
      → contains_client w.app.clients fd ≡ true
      → IsConsistent (with_client fd d w).app
      → IsSound w
      → IsSound (with_client fd d w)
  with_client-IsSound w fd d known c h =
      same-IsSound w (with_client fd d w) refl c
        (λ k t. ground (arith, t, known, contains-put_state w.app.clients fd k d, ==_iff fd k)) h

  pub contains-found :
      (w : World em) (fd : ℕ) (c : ClientState)
      → find_client w.app.clients fd ≡ some c
      → contains_client w.app.clients fd ≡ true
  unfolding find_client contains_client
  contains-found w fd c e = rw e refl

  pub renames-IsSound :
      (w : World em) (fd : ℕ) (nickname : Str)
      → contains_client w.app.clients fd ≡ true
      → IsConsistent (record w.app { clients = set_nickname fd nickname w.app.clients })
      → IsSound w
      → IsSound (with_app (record w.app { clients = set_nickname fd nickname w.app.clients }) w)
  unfolding set_nickname contains_client
  renames-IsSound w fd nickname known c h =
      same-IsSound w _ refl c
        (λ k t. ground (
          arith,
          t,
          known,
          find-insert fd k (record (state w.app.clients fd) { nick = nickname; has_nick = true })
              w.app.clients.states,
          ==_iff fd k,
        ))
        h

  -- A client of a connection.
  with_client-IsSeated :
      (w : World em) (fd : ℕ) (d : ClientState)
      → contains fd w.server.connections ≡ true
      → IsSeated nobody w
      → IsSeated nobody (with_client fd d w)
  unfolding find_connection
  with_client-IsSeated w fd d here h = record {
    keyed = h.keyed;
    seats = λ k t.
        ground (arith, t, here, h.seats k, contains-put_state w.app.clients fd k d, ==_iff fd k);
  }

  pub connects-IsSound :
      (w : World em) (c : Connection) (now : MonotonicTime)
      → contains_client w.app.clients c.fd ≡ false
      → contains c.fd w.server.connections ≡ true
      → IsSound w
      → IsSound (on_connect w c now)
  unfolding on_connect
  connects-IsSound w c now new here h = record {
    consistent = IsConsistent-IsInvariant.connects w c now new tt h.consistent;
    seated = with_client-IsSeated w c.fd _ here h.seated;
    limited = h.limited;
  }
