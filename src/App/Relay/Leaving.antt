-- ===== src/App/Relay/Leaving.antt =====
-- What is left of a client behind its disconnection.
use irc_relay_server.Prelude.{
  ℕ, ◌≡◌, ◌∙◌, Bool, true, false, none, some, arith, Option-cases, inl, inr, ==_iff,
}
use irc_relay_server.Prelude.Map.{nat_key, find}
use irc_relay_server.Text.{Str, str_key}
use irc_relay_server.Channel.{Channel, has_member}
use irc_relay_server.Registry.{ClientState, find_client}
use irc_relay_server.Registry.Index.{erased-find, erase_client-absent}
use irc_relay_server.Connection.{Connection}
use irc_relay_server.Events.{EventManager}
use irc_relay_server.World.{App, World}
use irc_relay_server.Server.{find_connection, disconnect, drop_connection}
use irc_relay_server.App.Relay.{
  forget, remove_client_state, on_disconnect, send_within, fuel_for, drop_client,
}
use irc_relay_server.App.Rooms.{forget-gone}

find_client-forget : (fd : ℕ) (app : App) → find_client (forget fd app).clients fd ≡ none
unfolding find_client forget
find_client-forget fd app = elim (Option-cases (find fd app.clients.states)) [
  | inl e ↦ rw (erase_client-absent app.clients fd e) e
  | inr (client, e) ↦ erased-find app.clients fd fd client e ∙ ground (arith, ==_iff fd fd)
]

-- Nothing in the application's state names the descriptor.
pub record IsGone (fd : ℕ) (app : App) : Type 0 where
  pub no_client : find_client app.clients fd ≡ none
  pub no_member :
      (name : Str) (c : Channel) → find name app.channels ≡ some c → has_member c fd ≡ false

forget-IsGone : (fd : ℕ) (app : App) → IsGone fd (forget fd app)
forget-IsGone fd app = record {
  no_client = find_client-forget fd app;
  no_member = forget-gone fd app;
}

module _ ⦃em : EventManager⦄ where
  remove_client_state-IsGone :
      (send : World em → ℕ → Str → World em × Bool) (w : World em) (fd : ℕ) (reason : Str)
      (notify_peers : Bool) (client : ClientState)
      → find_client w.app.clients fd ≡ some client
      → IsGone fd (remove_client_state send w fd reason notify_peers).app
  unfolding remove_client_state
  remove_client_state-IsGone send w fd reason notify_peers client e =
      rw (e, remove_client_state) (forget-IsGone fd _)

  -- Behind `disconnect`, no client has the descriptor and no channel has it for a member.
  pub drop_client-IsGone :
      (w : World em) (fd : ℕ) (reason : Str) (c : Connection) (client : ClientState)
      → find_connection w fd ≡ some c
      → c.fd ≡ fd
      → find_client w.app.clients fd ≡ some client
      → IsGone fd (drop_client w fd reason).app
  unfolding drop_client disconnect on_disconnect drop_connection
  drop_client-IsGone w fd reason c client e same known =
      rw (e, disconnect, same)
        (remove_client_state-IsGone (send_within (fuel_for w)) (drop_connection fd w) fd reason true
          client known)
