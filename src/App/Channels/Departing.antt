-- ===== src/App/Channels/Departing.antt =====
-- Who has left a channel, by PART or KICK, is no member of it.
use irc_relay_server.Prelude.{
  ℕ, ◌≡◌, refl, Bool, true, false, none, some, arith, Option-cases, Bool-cases, inl, inr, ==_iff,
}
use irc_relay_server.Prelude.Map.{nat_key, find, find-modify, find-erase}
use irc_relay_server.Text.{Str, str_key, str_eq_refl}
use irc_relay_server.Channel.{Channel, has_member, is_operator, remove_member, empty}
use irc_relay_server.Events.{EventManager}
use irc_relay_server.World.{App, World}
use irc_relay_server.App.Relay.{forget}
use irc_relay_server.App.Rooms.{find-forget, has_member-left_by, has_member-remove}
use irc_relay_server.App.Support.{
  take_out, erase_channel_if_empty, modify_channel, part_channel, find_nick,
}
use irc_relay_server.App.Support.Keeps.{send_numeric-keeps, app-IsKept}
use irc_relay_server.App.Channels.{kick}

-- The channel of that name, if there is one, does not have the client for a member.
abbrev pub IsAway : Str → ℕ → App → Type 0
IsAway name fd app = (d : Channel) → find name app.channels ≡ some d → has_member d fd ≡ false

-- The same as a test.
unfoldable pub is_in : App → Str → ℕ → Bool
is_in app name fd = elim (find name app.channels) [ none ↦ false | some c ↦ has_member c fd ]

pub IsAway-is_in :
    (name : Str) (fd : ℕ) (app : App) → IsAway name fd app → is_in app name fd ≡ false
unfolding is_in
IsAway-is_in name fd app h = elim (Option-cases (find name app.channels)) [
  | inl e ↦ rw (e, is_in) refl
  | inr (c, e) ↦ rw (e, is_in) (h c e)
]

pub forget-IsAway :
    (name : Str) (fd : ℕ) (app : App) (k : ℕ) → IsAway name fd app → IsAway name fd (forget k app)
forget-IsAway name fd app k h d e = elim (Option-cases (find name app.channels)) [
  | inl gone ↦ ground (arith, find-forget k app name, gone, e)
  | inr (c, e') ↦ ground (arith, find-forget k app name, e', e, has_member-left_by c k fd, h c e')
]

module _ ⦃em : EventManager⦄ where
  erase_channel_if_empty-IsAway :
      (w : World em) (name : Str) (fd : ℕ)
      → IsAway name fd w.app
      → IsAway name fd (erase_channel_if_empty w name).app
  unfolding erase_channel_if_empty
  erase_channel_if_empty-IsAway w name fd h = elim (Option-cases (find name w.app.channels)) [
    | inl e ↦ rw (e, erase_channel_if_empty) h
    | inr (c, e) ↦ elim (Bool-cases (empty c)) [
      | inl last ↦
          rw (e, erase_channel_if_empty, last)
            (λ d e'. ground (arith, e', find-erase name name w.app.channels, str_eq_refl name))
      | inr more ↦ rw (e, erase_channel_if_empty, more) h
    ]
  ]

  take_out-IsAway : (w : World em) (name : Str) (fd : ℕ) → IsAway name fd (take_out w name fd).app
  unfolding take_out modify_channel
  take_out-IsAway w name fd = elim (Option-cases (find name w.app.channels)) [
    | inl e ↦ rw (e, take_out) (λ d e'. cc (e, e'))
    | inr (c, e) ↦
        rw (e, take_out)
          (erase_channel_if_empty-IsAway (modify_channel name (remove_member fd) w) name fd (λ d e'.
            unfold modify_channel in
            ground (
              arith,
              e,
              e',
              find-modify name name (remove_member fd) w.app.channels,
              str_eq_refl name,
              has_member-remove c fd fd,
              ==_iff fd fd,
            )))
  ]

  part_channel-IsAway :
      (w : World em) (fd : ℕ) (name reason : Str)
      → IsAway name fd (part_channel w fd name reason).app
  unfolding part_channel
  part_channel-IsAway w fd name reason = elim (Option-cases (find name w.app.channels)) [
    | inl e ↦
        rw (e, part_channel)
          (send_numeric-keeps (app-IsKept (IsAway name fd) (forget-IsAway name fd)) w fd 403 _ _
            (λ d e'. cc (e, e')))
    | inr (c, e) ↦ elim (Bool-cases (has_member c fd)) [
      | inl here ↦ rw (e, part_channel, here) (take_out-IsAway _ name fd)
      | inr away ↦
          rw (e, part_channel, away)
            (send_numeric-keeps (app-IsKept (IsAway name fd) (forget-IsAway name fd)) w fd 442 _ _
              (λ d e'. ground (arith, e, e', away)))
    ]
  ]

  -- Behind `partChannel`, whether the client was a member or the channel existed, it is no member.
  pub part_channel-is_in :
      (w : World em) (fd : ℕ) (name reason : Str)
      → is_in (part_channel w fd name reason).app name fd ≡ false
  part_channel-is_in w fd name reason =
      IsAway-is_in name fd (part_channel w fd name reason).app
        (part_channel-IsAway w fd name reason)

  -- Behind a KICK by an operator of a nickname that leads to a member, that member is none any more.
  pub kick-is_in :
      (w : World em) (fd target : ℕ) (nick comment : Str) (c : Channel)
      → is_operator c fd ≡ true
      → find_nick w.app nick ≡ some target
      → has_member c target ≡ true
      → is_in (kick w fd nick comment c).app c.name target ≡ false
  unfolding kick
  kick-is_in w fd target nick comment c may e here =
      rw (may, e, kick, here) (IsAway-is_in c.name target _ (take_out-IsAway _ c.name target))
