-- ===== src/Lifecycle/Nicknames.antt =====
-- The nicknames of the clients (src/ClientRegistry.cpp) while the process runs.
use irc_relay_server.Prelude.{
  ℕ, ◌≡◌, refl, ◌≢◌, ◌∙◌, false, some, is_empty, Option-cases, Bool-cases, inl, inr,
}
use irc_relay_server.Prelude.Map.{nat_key, find}
use irc_relay_server.Text.{str_eq_iff}
use irc_relay_server.Channel.Invitations.{same_nick, canonical_nick-same_nick}
use irc_relay_server.Registry.{ClientRegistry, state, client_state, find_client}
use irc_relay_server.Registry.Index.{IsIndexed}
use irc_relay_server.Registry.Naming.{nickname_unique}
use irc_relay_server.Events.{EventManager}
use irc_relay_server.World.{World}
use irc_relay_server.EventLoop.Sound.{IsSound}
use irc_relay_server.Lifecycle.Reachable.{Reach, Reach-IsSound}

-- A client with a nickname is in the registry.
find_client-state :
    (r : ClientRegistry) (f : ℕ)
    → is_empty (state r f).nick ≡ false
    → find_client r f ≡ some (state r f)
unfolding state find_client client_state
find_client-state r f full = elim (Option-cases (find f r.states)) [
  | inl e ↦ cc (rw e at full)
  | inr (c, e) ↦ rw e refl
]

state-same_nick :
    (r : ClientRegistry) (f g : ℕ)
    → IsIndexed r
    → f ≢ g
    → is_empty (state r f).nick ≡ false
    → is_empty (state r g).nick ≡ false
    → same_nick (state r f).nick (state r g).nick ≡ false
state-same_nick r f g i ne full full' =
    let c = state r f in
    let d = state r g in
    elim (Bool-cases (same_nick c.nick d.nick)) [
      | inr other ↦ other
      | inl same ↦ absurd (
          nickname_unique r f g c d i ne (find_client-state r f full) (find_client-state r g full')
            full full' ((str_eq_iff _ _).0 (canonical_nick-same_nick c.nick d.nick ∙ same)))
    ]

module _ ⦃em : EventManager⦄ where
  -- In every world that the process can reach until `main` clears the server's handlers, two different
  -- clients that have nicknames have nicknames that differ by more than the case of their letters.
  pub Reach-same_nick :
      (w : World em) (f g : ℕ)
      → Reach w
      → f ≢ g
      → is_empty (state w.app.clients f).nick ≡ false
      → is_empty (state w.app.clients g).nick ≡ false
      → same_nick (state w.app.clients f).nick (state w.app.clients g).nick ≡ false
  Reach-same_nick w f g r ne full full' =
      let h : IsSound w = Reach-IsSound w r in
      state-same_nick w.app.clients f g h.consistent.indexed ne full full'
