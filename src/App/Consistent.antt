-- ===== src/App/Consistent.antt =====
-- The invariant of the application's state, and that no write to a client and no disconnection
-- breaks it.
use irc_relay_server.Prelude.{
  ℕ, ◌≡◌, true, some, arith, List, not, ap, sym, ◌∙◌, is_empty, Option-cases, inl, inr,
}
use irc_relay_server.Prelude.Map.{nat_key, find}
use irc_relay_server.Registry.{ClientState, ClientRegistry, find_client, erase_client}
use irc_relay_server.Text.{Str}
use irc_relay_server.Registry.Index.{
  IsIndexed, erase_client-IsIndexed, erased-find, erase_client-absent,
}
use irc_relay_server.Events.{EventManager}
use irc_relay_server.World.{App, World}
use irc_relay_server.App.Relay.{forget, send_raw, send_each, drop_client}
use irc_relay_server.App.Relay.Steps.{keeps_app, send_raw-path, drop_client-path, send_each-path}
use irc_relay_server.App.Rooms.{HasRooms, forget-HasRooms}

-- A registered client has passed the three gates, and a nickname is never empty.
pub record IsClient (c : ClientState) : Type 0 where
  pub gated : c.registered ≡ true → (c.pass_ok ≡ true) × (c.has_nick ≡ true) × (c.has_user ≡ true)
  pub nicked : c.has_nick ≡ not (is_empty c.nick)

abbrev pub HasClients : ClientRegistry → Type 0
HasClients r = (fd : ℕ) (c : ClientState) → find_client r fd ≡ some c → IsClient c

erase_client-HasClients :
    (r : ClientRegistry) (fd : ℕ) → HasClients r → HasClients (erase_client fd r)
unfolding find_client
erase_client-HasClients r fd h k c e = elim (Option-cases (find fd r.states)) [
  | inl e' ↦
      h k c (ap (λ (q : ClientRegistry). find k q.states) (sym (erase_client-absent r fd e')) ∙ e)
  | inr (client, e') ↦ h k c (ground (arith, e', e, erased-find r fd k client e'))
]

-- Every channel is listed under its name and has a member; its operators are members, and its
-- members are registered clients. Every client satisfies `IsClient`. The nickname index is exact.
pub record IsConsistent (app : App) : Type 0 where
  pub rooms : HasRooms app.clients app.channels
  pub clients : HasClients app.clients
  pub indexed : IsIndexed app.clients

pub forget-IsConsistent : (app : App) (fd : ℕ) → IsConsistent app → IsConsistent (forget fd app)
forget-IsConsistent app fd h = record {
  rooms = forget-HasRooms fd app h.rooms;
  clients = unfold forget in erase_client-HasClients app.clients fd h.clients;
  indexed = unfold forget in erase_client-IsIndexed app.clients fd h.indexed;
}

module _ ⦃em : EventManager⦄ where
  -- Whatever a write sets off, the invariant holds behind it.
  pub send_raw-IsConsistent :
      (w : World em) (fd : ℕ) (line : Str)
      → IsConsistent w.app
      → IsConsistent (send_raw w fd line).0.app
  send_raw-IsConsistent w fd line =
      send_raw-path (keeps_app IsConsistent forget-IsConsistent) w fd line

  -- A disconnection, with all that the notice to the peers sets off, leaves the state consistent if it
  -- was before.
  pub drop_client-IsConsistent :
      (w : World em) (fd : ℕ) (reason : Str)
      → IsConsistent w.app
      → IsConsistent (drop_client w fd reason).app
  drop_client-IsConsistent w fd reason =
      drop_client-path (keeps_app IsConsistent forget-IsConsistent) w fd reason

  pub send_each-IsConsistent :
      (w : World em) (line : Str) (fds : List ℕ)
      → IsConsistent w.app
      → IsConsistent (send_each send_raw w line fds).app
  send_each-IsConsistent w line fds =
      send_each-path (keeps_app IsConsistent forget-IsConsistent) send_raw
        (send_raw-path (keeps_app IsConsistent forget-IsConsistent)) w line fds
