-- ===== src/EventLoop/Seats.antt =====
-- Every client of the application has a connection of the server, under its descriptor: what
-- the changes that the server makes (src/Server.cpp) do to that. While a disconnection is under
-- way, its descriptor has a client and no connection.
pub mod Writing
use irc_relay_server.Prelude.{
  ℕ, zero, suc, ◌≡◌, refl, ◌∙◌, Bool, true, false, ◌&&◌, ◌||◌, none, some, List, [], ◌∷◌, not,
  if◌then◌else◌, arith, is_some, Option-cases, Bool-cases, inl, inr, ==_iff, subst, sym,
}
use irc_relay_server.Prelude.{◌==◌ as nat_beq}
use irc_relay_server.Prelude.Map.{nat_key, find, contains, find-erase, find-modify, modify, mapped}
use irc_relay_server.Text.{Str}
use irc_relay_server.Registry.{ClientState, find_client, contains_client}
use irc_relay_server.Connection.{Connection, wants_write, queue_line}
use irc_relay_server.Connection.Descriptor.{fd-queue_line}
use irc_relay_server.Events.{EventManager, EventInterest}
use irc_relay_server.World.{World}
use irc_relay_server.Server.{
  find_connection, modify_connection, set_events, count_drop, drop_connection, disconnect,
  update_interest, refresh_interest, after_queue, send_to, interests_for,
}
use irc_relay_server.App.Relay.{
  forget, with_app, send_each, notify_quit, remove_client_state, on_disconnect, send_within,
  send_raw, drop_client, fuel_for,
}
use irc_relay_server.App.Channels.Joining.{contains-erase_client}
use irc_relay_server.App.Support.{request_close}
use irc_relay_server.Connection.{request_close as close_connection}

abbrev pub with_seat : ℕ → (ℕ → Bool) → ℕ → Bool
with_seat fd leaving k = nat_beq fd k || leaving k

module _ ⦃em : EventManager⦄ where
  -- A connection stands under its descriptor, and a client has a connection, but for the descriptors
  -- that are leaving.
  pub record IsSeated (leaving : ℕ → Bool) (w : World em) : Type 0 where
    pub keyed : (fd : ℕ) (c : Connection) → find_connection w fd ≡ some c → c.fd ≡ fd
    pub seats :
        (fd : ℕ)
        → contains_client w.app.clients fd ≡ true
        → (contains fd w.server.connections || leaving fd) ≡ true

  pub modify-IsSeated :
      (leaving : ℕ → Bool) (w : World em) (fd : ℕ) (c : Connection)
      → c.fd ≡ fd
      → IsSeated leaving w
      → IsSeated leaving (modify_connection fd (λ _. c) w)
  unfolding modify_connection find_connection
  modify-IsSeated leaving w fd c same h = record {
    keyed = λ k d e.
        ground (
          arith,
          e,
          same,
          h.keyed k d,
          ==_iff fd k,
          find-modify fd k (λ _. c) w.server.connections,
        );
    seats = λ k t. ground (arith, t, h.seats k, find-modify fd k (λ _. c) w.server.connections);
  }

  pub drop-IsSeated :
      (leaving : ℕ → Bool) (w : World em) (fd : ℕ)
      → IsSeated leaving w
      → IsSeated (with_seat fd leaving) (drop_connection fd w)
  unfolding drop_connection find_connection
  drop-IsSeated leaving w fd h = record {
    keyed = λ k d e. ground (arith, e, h.keyed k d, find-erase fd k w.server.connections);
    seats = λ k t. ground (arith, t, h.seats k, find-erase fd k w.server.connections);
  }

  pub forget-IsSeated :
      (leaving : ℕ → Bool) (w : World em) (fd : ℕ)
      → IsSeated (with_seat fd leaving) w
      → IsSeated leaving (with_app (forget fd w.app) w)
  unfolding forget find_connection
  forget-IsSeated leaving w fd h = record {
    keyed = h.keyed;
    seats = λ k t. ground (arith, t, h.seats k, contains-erase_client w.app.clients fd k);
  }

  pub absent-IsSeated :
      (leaving : ℕ → Bool) (w : World em) (fd : ℕ)
      → find_client w.app.clients fd ≡ none
      → IsSeated (with_seat fd leaving) w
      → IsSeated leaving w
  unfolding find_client contains_client
  absent-IsSeated leaving w fd e h = record {
    keyed = h.keyed;
    seats = λ k t. ground (arith, t, e, h.seats k, ==_iff fd k);
  }

  pub request_close-IsSeated :
      (leaving : ℕ → Bool) (w : World em) (fd : ℕ) (reason : Str)
      → IsSeated leaving w
      → IsSeated leaving (request_close w fd reason)
  unfolding request_close close_connection modify_connection find_connection
  request_close-IsSeated leaving w fd reason h = record {
    keyed = λ k d e. elim (Option-cases (find k w.server.connections)) [
      | inl e' ↦ cc (closed k, e', e, absent (nat_beq fd k))
      | inr (c, e') ↦ ground (arith, e, e', h.keyed k c e', closed k)
    ];
    seats = λ k t. ground (arith, t, h.seats k, closed k);
  }
    where
      closed :
          (k : ℕ)
          → find k (modify fd (close_connection reason) w.server.connections) ≡ (
              if nat_beq fd k
              then mapped (close_connection reason) (find k w.server.connections)
              else find k w.server.connections)
      closed k = find-modify fd k (close_connection reason) w.server.connections

      absent : (t : Bool) → (if t then mapped (close_connection reason) none else none) ≡ none
      absent true = refl
      absent false = refl
