-- ===== src/App/Changes/Keeping.antt =====
-- The invariant of the application's state, as a property that the handlers keep.
use irc_relay_server.Prelude.{
  ℕ, ◌≡◌, refl, ◌||◌, true, false, some, not, arith, Option-cases, inl, inr, or_default,
}
use irc_relay_server.Prelude.Map.{nat_key, find}
use irc_relay_server.Channel.{empty}
use irc_relay_server.Registry.{
  ClientState, MonotonicTime, client_state, find_client, contains_client, state,
}
use irc_relay_server.Connection.{Connection}
use irc_relay_server.Events.{EventManager}
use irc_relay_server.World.{App, World}
use irc_relay_server.App.Consistent.{IsConsistent, forget-IsConsistent}
use irc_relay_server.App.Changes.{put_client-IsConsistent, rename-IsConsistent, state-IsClient}
use irc_relay_server.App.Changes.Channels.{modify_channel-IsConsistent, take_out-IsConsistent}
use irc_relay_server.App.Changes.Entry.{
  enter-IsConsistent, ensure_channel-IsOpening, clients-ensure_channel,
}
use irc_relay_server.App.Support.{with_client, ensure_channel}
use irc_relay_server.App.Support.Keeps.{app-IsKept}
use irc_relay_server.App.Invariant.{IsInvariant, IsUpdate}
use irc_relay_server.App.Dispatch.{on_connect}

-- What the invariant reads is neither the metrics nor the token counter.
pub counted-IsConsistent :
    (app app' : App)
    → app'.channels ≡ app.channels
    → app'.clients ≡ app.clients
    → IsConsistent app
    → IsConsistent app'
counted-IsConsistent app app' c r h = record {
  rooms = rw (c, r) h.rooms;
  clients = rw r h.clients;
  indexed = rw r h.indexed;
}

state-found :
    (app : App) (fd : ℕ) (client : ClientState)
    → find_client app.clients fd ≡ some client
    → state app.clients fd ≡ client
unfolding find_client state
state-found app fd client e = rw (e, or_default) refl

module _ ⦃em : EventManager⦄ where
  with_client-IsConsistent :
      (w : World em) (fd : ℕ) (d : ClientState)
      → IsUpdate (state w.app.clients fd) d
      → IsConsistent w.app
      → IsConsistent (with_client fd d w).app
  with_client-IsConsistent w fd d u h =
      let old = state-IsClient w.app.clients fd h.clients in
      put_client-IsConsistent w.app fd d u.nick_kept (λ t. rw u.registered_kept t)
        (record {
          gated = λ t.
              let g = old.gated (rw u.registered_kept at t) in
              (u.pass_kept g.0, rw u.has_nick_kept g.1, u.user_kept g.2);
          nicked = rw (u.has_nick_kept, u.nick_kept) old.nicked;
        })
        h

  -- A client that has passed the three gates registers.
  gate-IsConsistent :
      (w : World em) (fd : ℕ) (c : ClientState)
      → find_client w.app.clients fd ≡ some c
      → (c.registered || not c.pass_ok || not c.has_nick || not c.has_user) ≡ false
      → IsConsistent w.app
      → IsConsistent (with_client fd (record c { registered = true }) w).app
  gate-IsConsistent w fd c e f h =
      put_client-IsConsistent w.app fd (record c { registered = true })
        (rw (state-found w.app fd c e) refl) (λ _. refl)
        (record {
          gated = λ _. (ground (arith, f), ground (arith, f), ground (arith, f));
          nicked = (h.clients fd c e).nicked;
        })
        h

  -- A connection whose descriptor has no client yet leaves the application's state consistent if it
  -- was before.
  pub on_connect-IsConsistent :
      (w : World em) (c : Connection) (now : MonotonicTime)
      → contains_client w.app.clients c.fd ≡ false
      → IsConsistent w.app
      → IsConsistent (on_connect w c now).app
  unfolding on_connect contains_client state client_state
  on_connect-IsConsistent w c now new h = elim (Option-cases (find c.fd w.app.clients.states)) [
    | inr (client, e) ↦ cc (e, new)
    | inl e ↦
        put_client-IsConsistent w.app c.fd _ (unfold state client_state in rw (e, or_default) refl)
          (unfold state client_state in λ t. ground (arith, t, e))
          (record { gated = λ t. cc; nicked = refl }) h
  ]

  pub IsConsistent-IsInvariant :
      IsInvariant (λ w fd. Unit {0}) (λ (w : World em). IsConsistent w.app)
  IsConsistent-IsInvariant = record {
    kept = app-IsKept IsConsistent forget-IsConsistent;
    counts = λ w app c r h. counted-IsConsistent w.app app c r h;
    rooms = modify_channel-IsConsistent;
    takes = take_out-IsConsistent;
    enters = λ w name nick fd known h.
        enter-IsConsistent (ensure_channel w name).0 name nick fd (empty (ensure_channel w name).1)
          (rw (clients-ensure_channel w name) known) (ensure_channel-IsOpening w name h);
    clients = λ w fd d known u h. with_client-IsConsistent w fd d u h;
    gates = gate-IsConsistent;
    renames = λ w fd nickname known full free h. rename-IsConsistent w.app fd nickname full free h;
    connects = λ w c now new may h. on_connect-IsConsistent w c now new h;
  }
