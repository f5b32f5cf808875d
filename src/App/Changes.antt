-- ===== src/App/Changes.antt =====
-- The changes that the handlers make to the application's state, and that each keeps the invariant.
pub mod Channels
pub mod Entry
pub mod Keeping
use irc_relay_server.Prelude.{
  ℕ, ◌≡◌, refl, sym, subst, ap, ◌∙◌, ◌≢◌, Bool, true, false, Option, none, some, if◌then◌else◌,
  arith, is_empty, not, Option-cases, Bool-cases, inl, inr, ==_iff, List, [], ◌∷◌, or_default, ◌&&◌,
}
use irc_relay_server.Prelude.{◌==◌ as nat_beq}
use irc_relay_server.Prelude.Map.{
  Map, nat_key, find, insert, erase, modify, mapped, find-insert, find-erase, find-modify, member,
  set_insert, member-set_insert, member-set_erase,
}
use irc_relay_server.Text.{Str, str_key, str_eq, str_eq_iff, str_eq_refl}
use irc_relay_server.Channel.{
  Channel, channel, empty, has_member, is_operator, add_member, remove_member, set_operator,
  clear_invite, invite, set_invite_only, set_topic_protected, set_topic,
}
use irc_relay_server.Registry.{
  ClientState, ClientRegistry, client_state, find_client, state, put_state, set_nickname,
}
use irc_relay_server.Registry.Index.{IsIndexed, put_state-IsIndexed}
use irc_relay_server.Registry.Naming.{IsFree, set_nickname-IsIndexed}
use irc_relay_server.World.{App}
use irc_relay_server.App.Rooms.{
  IsRoom, HasRooms, is_registered, registered_in, has_member-remove, is_operator-remove,
}
use irc_relay_server.App.Consistent.{IsClient, HasClients, IsConsistent}

-- The change of one client's state keeps who is registered.
abbrev pub Grows : ClientRegistry → ClientRegistry → Type 0
Grows r r' = (k : ℕ) → is_registered r k ≡ true → is_registered r' k ≡ true

HasRooms-Grows :
    (r r' : ClientRegistry) (m : Map Str Channel) → Grows r r' → HasRooms r m → HasRooms r' m
HasRooms-Grows r r' m g h name c e = record {
  named = (h name c e).named;
  occupied = (h name c e).occupied;
  known = λ k t. g k ((h name c e).known k t);
  officers = (h name c e).officers;
}

put_state-Grows :
    (r : ClientRegistry) (fd : ℕ) (client : ClientState)
    → ((state r fd).registered ≡ true → client.registered ≡ true)
    → Grows r (put_state fd client r)
unfolding is_registered put_state state client_state
put_state-Grows r fd client up k t =
    rw (find-insert fd k client r.states) (ground (arith, t, ==_iff fd k, up))

put_state-HasClients :
    (r : ClientRegistry) (fd : ℕ) (client : ClientState)
    → IsClient client
    → HasClients r
    → HasClients (put_state fd client r)
unfolding find_client put_state
put_state-HasClients r fd client new h k c e = elim (Bool-cases (nat_beq fd k)) [
  | inl same ↦ subst IsClient (ground (arith, e, same, find-insert fd k client r.states)) new
  | inr other ↦ h k c (ground (arith, e, other, find-insert fd k client r.states))
]

-- A client's new state: the same nickname, still registered if it was.
pub put_client-IsConsistent :
    (app : App) (fd : ℕ) (client : ClientState)
    → client.nick ≡ (state app.clients fd).nick
    → ((state app.clients fd).registered ≡ true → client.registered ≡ true)
    → IsClient client
    → IsConsistent app
    → IsConsistent (record app { clients = put_state fd client app.clients })
put_client-IsConsistent app fd client same up new h = record {
  rooms = HasRooms-Grows _ _ app.channels (put_state-Grows app.clients fd client up) h.rooms;
  clients = put_state-HasClients app.clients fd client new h.clients;
  indexed = put_state-IsIndexed app.clients fd client same h.indexed;
}

-- The state of a client, or the default one, is a client's.
pub state-IsClient : (r : ClientRegistry) (fd : ℕ) → HasClients r → IsClient (state r fd)
unfolding state find_client client_state
state-IsClient r fd h = elim (Option-cases (find fd r.states)) [
  | inl e ↦ rw (e, or_default) (record { gated = λ p. cc; nicked = refl })
  | inr (c, e) ↦ rw (e, or_default) (h fd c e)
]

set_nickname-states :
    (r : ClientRegistry) (fd : ℕ) (nickname : Str)
    → (set_nickname fd nickname r).states
      ≡ (put_state fd (record (state r fd) { nick = nickname; has_nick = true }) r).states
unfolding set_nickname put_state
set_nickname-states r fd nickname = refl

set_nickname-Grows :
    (r : ClientRegistry) (fd : ℕ) (nickname : Str) → Grows r (set_nickname fd nickname r)
unfolding is_registered
set_nickname-Grows r fd nickname k t = rw (set_nickname-states r fd nickname) (
    unfold is_registered in
    put_state-Grows r fd (record (state r fd) { nick = nickname; has_nick = true }) (λ u. u) k t)

set_nickname-HasClients :
    (r : ClientRegistry) (fd : ℕ) (nickname : Str)
    → is_empty nickname ≡ false
    → HasClients r
    → HasClients (set_nickname fd nickname r)
unfolding find_client
set_nickname-HasClients r fd nickname full h k c e =
    put_state-HasClients r fd (record (state r fd) { nick = nickname; has_nick = true })
      (record {
        gated = λ t. let g = (state-IsClient r fd h).gated t in (g.0, refl, g.2);
        nicked = rw full refl;
      })
      h k c (unfold find_client in (rw (set_nickname-states r fd nickname) at e))

pub rename-IsConsistent :
    (app : App) (fd : ℕ) (nickname : Str)
    → is_empty nickname ≡ false
    → IsFree app.clients fd nickname
    → IsConsistent app
    → IsConsistent (record app { clients = set_nickname fd nickname app.clients })
rename-IsConsistent app fd nickname full free h = record {
  rooms = HasRooms-Grows _ _ app.channels (set_nickname-Grows app.clients fd nickname) h.rooms;
  clients = set_nickname-HasClients app.clients fd nickname full h.clients;
  indexed = set_nickname-IsIndexed app.clients fd nickname full free h.indexed;
}
