-- ===== src/App/Channels/Admission.antt =====
-- Whom a JOIN lets into a channel (`handleJoin` of src/ChannelCommands.cpp).
use irc_relay_server.Prelude.{
  ℕ, ◌≡◌, refl, Bool, true, false, ◌&&◌, ◌||◌, not, none, some, arith, Option-cases, Bool-cases,
  inl, inr, ||-false,
}
use irc_relay_server.Prelude.Map.{nat_key, find}
use irc_relay_server.Text.{Str, str_key}
use irc_relay_server.Channel.{Channel, has_member, is_invited, is_valid_name}
use irc_relay_server.Registry.{find_client}
use irc_relay_server.Events.{EventManager}
use irc_relay_server.World.{App, World}
use irc_relay_server.App.Support.{ensure_channel}
use irc_relay_server.App.Support.Keeps.{send_numeric-keeps, app-IsKept}
use irc_relay_server.App.Channels.{join, join_channel}
use irc_relay_server.App.Channels.Departing.{IsAway, is_in, IsAway-is_in, forget-IsAway}

-- A client with an invitation, under its nickname.
abbrev pub has_invitation : App → Channel → ℕ → Bool
has_invitation app c fd = elim (find_client app.clients fd) [
  | none ↦ false
  | some client ↦ is_invited c client.nick
]

-- The client is a member already, or the name is valid and the channel is new, open to all, or one
-- that it is invited to.
abbrev pub may_join : App → ℕ → Str → Bool
may_join app fd name = elim (find name app.channels) [
  | none ↦ is_valid_name name
  | some c ↦
      has_member c fd || (is_valid_name name && (not c.invite_only || has_invitation app c fd))
]

IsAway-find :
    (app : App) (fd : ℕ) (name : Str) (c : Channel)
    → find name app.channels ≡ some c
    → has_member c fd ≡ false
    → IsAway name fd app
IsAway-find app fd name c e away d e' = ground (arith, e, e', away)

module _ ⦃em : EventManager⦄ where
  refused-IsAway :
      (w : World em) (fd : ℕ) (name : Str)
      → is_valid_name name ≡ false
      → IsAway name fd w.app
      → IsAway name fd (join fd w name).0.app
  unfolding join
  refused-IsAway w fd name bad h =
      rw bad
        (send_numeric-keeps (app-IsKept (IsAway name fd) (forget-IsAway name fd)) w fd 403 _ _ h)

  pub join-found :
      (w : World em) (fd : ℕ) (name : Str) (c : Channel)
      → is_valid_name name ≡ true
      → find name w.app.channels ≡ some c
      → join fd w name ≡ join_channel w fd name c
  unfolding join ensure_channel
  join-found w fd name c good e = rw (good, e, ensure_channel) refl

  join_channel-IsAway :
      (w : World em) (fd : ℕ) (name : Str) (c : Channel)
      → find name w.app.channels ≡ some c
      → has_member c fd ≡ false
      → (not c.invite_only || has_invitation w.app c fd) ≡ false
      → IsAway name fd (join_channel w fd name c).0.app
  unfolding join_channel
  join_channel-IsAway w fd name c e away barred =
      let h = IsAway-find w.app fd name c e away in
      elim (Option-cases (find_client w.app.clients fd)) [
        | inl gone ↦ rw (gone, join_channel, away) h
        | inr (client, here) ↦
            rw
              (
                here,
                join_channel,
                away,
                closed c.invite_only (is_invited c client.nick)
                    (rw (here, has_invitation) at barred),
              )
              (send_numeric-keeps (app-IsKept (IsAway name fd) (forget-IsAway name fd)) w fd 473 _ _
                h)
      ]
    where
      closed : (i v : Bool) → (not i || v) ≡ false → (i && not v) ≡ true
      closed true true t = cc t
      closed true false t = refl
      closed false v t = cc t

  join-IsAway :
      (w : World em) (fd : ℕ) (name : Str)
      → may_join w.app fd name ≡ false
      → IsAway name fd (join fd w name).0.app
  join-IsAway w fd name barred = elim (Option-cases (find name w.app.channels)) [
    | inl e ↦ refused-IsAway w fd name (rw (e, may_join) at barred) (λ d e'. cc (e, e'))
    | inr (c, e) ↦
        let apart = ||-false (has_member c fd) _ (rw (e, may_join) at barred) in
        elim (Bool-cases (is_valid_name name)) [
          | inl good ↦
              rw (join-found w fd name c good e)
                (join_channel-IsAway w fd name c e apart.0 (rw good at apart.1))
          | inr bad ↦ refused-IsAway w fd name bad (IsAway-find w.app fd name c e apart.0)
        ]
  ]

  -- A JOIN leaves a client in a channel only if it was a member already, or the name is valid and the
  -- channel is new, open to all, or one that the client is invited to.
  pub join-may_join :
      (w : World em) (fd : ℕ) (name : Str)
      → is_in (join fd w name).0.app name fd ≡ true
      → may_join w.app fd name ≡ true
  join-may_join w fd name t = elim (Bool-cases (may_join w.app fd name)) [
    | inl may ↦ may
    | inr barred ↦
        cc (t, IsAway-is_in name fd (join fd w name).0.app (join-IsAway w fd name barred))
  ]
