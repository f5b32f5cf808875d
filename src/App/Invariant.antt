-- ===== src/App/Invariant.antt =====
-- What a property of the world has to survive for every handler of the application to keep it: the
-- changes that the handlers are made of. A property is proved to be an invariant of these once.
use irc_relay_server.Prelude.{ℕ, ◌≡◌, ◌||◌, true, false, some, not, is_empty, if◌then◌else◌, arith}
use irc_relay_server.Prelude.{◌==◌ as nat_beq}
use irc_relay_server.Prelude.Map.{nat_key, find-insert}
use irc_relay_server.Text.{Str}
use irc_relay_server.Channel.{Channel, empty, add_member, clear_invite}
use irc_relay_server.Registry.{
  ClientRegistry, put_state, ClientState, MonotonicTime, find_client, contains_client, state,
  set_nickname,
}
use irc_relay_server.Registry.Naming.{IsFree}
use irc_relay_server.Connection.{Connection}
use irc_relay_server.Events.{EventManager}
use irc_relay_server.World.{App, World}
use irc_relay_server.App.Rooms.{IsRoom, is_registered}
use irc_relay_server.App.Relay.{with_app}
use irc_relay_server.App.Support.{with_client, modify_channel, take_out, ensure_channel}
use irc_relay_server.App.Support.Keeps.{IsKept}
use irc_relay_server.App.Dispatch.{on_connect}

-- A client's state that differs in nothing that the invariant reads.
pub record IsUpdate (c d : ClientState) : Type 0 where
  pub nick_kept : d.nick ≡ c.nick
  pub has_nick_kept : d.has_nick ≡ c.has_nick
  pub registered_kept : d.registered ≡ c.registered
  pub pass_kept : c.pass_ok ≡ true → d.pass_ok ≡ true
  pub user_kept : c.has_user ≡ true → d.has_user ≡ true

pub contains-put_state :
    (r : ClientRegistry) (fd k : ℕ) (c : ClientState)
    → contains_client (put_state fd c r) k ≡ (if nat_beq fd k then true else contains_client r k)
unfolding contains_client put_state
contains-put_state r fd k c = ground (arith, find-insert fd k c r.states)

module _ ⦃em : EventManager⦄ where
  -- `may_connect` is what `on_connect` may rely on beside the property.
  pub record IsInvariant (may_connect : World em → ℕ → Type 0) (P : World em → Type 0)
      : Type 0 where
    pub kept : IsKept P
    pub counts :
        (w : World em) (app : App)
        → app.channels ≡ w.app.channels
        → app.clients ≡ w.app.clients
        → P w
        → P (with_app app w)
    pub rooms :
        (w : World em) (name : Str) (f : Channel → Channel)
        → ((c : Channel) → IsRoom w.app.clients name c → IsRoom w.app.clients name (f c))
        → P w
        → P (modify_channel name f w)
    pub takes : (w : World em) (name : Str) (fd : ℕ) → P w → P (take_out w name fd)
    pub enters :
        (w : World em) (name nick : Str) (fd : ℕ)
        → is_registered w.app.clients fd ≡ true
        → P w
        → P (
            modify_channel name
              (λ d. clear_invite nick (add_member fd (empty (ensure_channel w name).1) d))
              (ensure_channel w name).0)
    pub clients :
        (w : World em) (fd : ℕ) (d : ClientState)
        → contains_client w.app.clients fd ≡ true
        → IsUpdate (state w.app.clients fd) d
        → P w
        → P (with_client fd d w)
    pub gates :
        (w : World em) (fd : ℕ) (c : ClientState)
        → find_client w.app.clients fd ≡ some c
        → (c.registered || not c.pass_ok || not c.has_nick || not c.has_user) ≡ false
        → P w
        → P (with_client fd (record c { registered = true }) w)
    pub renames :
        (w : World em) (fd : ℕ) (nickname : Str)
        → contains_client w.app.clients fd ≡ true
        → is_empty nickname ≡ false
        → IsFree w.app.clients fd nickname
        → P w
        → P (with_app (record w.app { clients = set_nickname fd nickname w.app.clients }) w)
    pub connects :
        (w : World em) (c : Connection) (now : MonotonicTime)
        → contains_client w.app.clients c.fd ≡ false
        → may_connect w c.fd
        → P w
        → P (on_connect w c now)
