-- ===== src/App/Channels/Officers.antt =====
-- Who becomes an operator by a JOIN (`handleJoin` of src/ChannelCommands.cpp).
use irc_relay_server.Prelude.{
  ℕ, ◌≡◌, refl, Bool, true, false, none, some, arith, Option-cases, Bool-cases, inl, inr, [], ◌∷◌,
  not, ◌&&◌, if◌then◌else◌,
}
use irc_relay_server.Prelude.Map.{nat_key, find, find-modify}
use irc_relay_server.Text.{Str, text, str_key, str_eq_refl}
use irc_relay_server.Channel.{
  Channel, has_member, is_operator, empty, add_member, clear_invite, is_valid_name, is_invited,
}
use irc_relay_server.Registry.{find_client, contains_client}
use irc_relay_server.Replies.{format_message}
use irc_relay_server.Events.{EventManager}
use irc_relay_server.World.{App, World}
use irc_relay_server.App.Relay.{forget, prefix_for}
use irc_relay_server.App.Rooms.{find-forget, is_operator-remove, left_by}
use irc_relay_server.App.Support.{
  modify_channel, send_topic_reply, send_names, broadcast_to_channel,
}
use irc_relay_server.App.Support.Keeps.{
  IsKept, send_numeric-keeps, app-IsKept, if-keeps₂, broadcast_to_channel-keeps,
  send_topic_reply-keeps, send_names-keeps,
}
use irc_relay_server.App.Channels.{join, join_channel, enter}
use irc_relay_server.App.Channels.Admission.{join-found}

-- The client is an operator of the channel of that name.
unfoldable pub is_officer : App → Str → ℕ → Bool
is_officer app name k = elim (find name app.channels) [ none ↦ false | some c ↦ is_operator c k ]

abbrev IsPlain : Str → ℕ → App → Type 0
IsPlain name k app = (d : Channel) → find name app.channels ≡ some d → is_operator d k ≡ false

IsPlain-is_officer :
    (name : Str) (k : ℕ) (app : App) → IsPlain name k app → is_officer app name k ≡ false
unfolding is_officer
IsPlain-is_officer name k app h = elim (Option-cases (find name app.channels)) [
  | inl e ↦ rw (e, is_officer) refl
  | inr (c, e) ↦ rw (e, is_officer) (h c e)
]

is_operator-left_by :
    (c : Channel) (fd k : ℕ) → is_operator c k ≡ false → is_operator (left_by fd c) k ≡ false
is_operator-left_by c fd k h = ground (arith, is_operator-remove c fd k, h)

forget-IsPlain :
    (name : Str) (k : ℕ) (app : App) (fd : ℕ) → IsPlain name k app → IsPlain name k (forget fd app)
forget-IsPlain name k app fd h d e = elim (Option-cases (find name app.channels)) [
  | inl gone ↦ ground (arith, find-forget fd app name, gone, e)
  | inr (c, e') ↦
      ground (arith, find-forget fd app name, e', e, is_operator-left_by c fd k (h c e'))
]

module _ ⦃em : EventManager⦄ where
  IsPlain-IsKept : (name : Str) (k : ℕ) → IsKept (λ w. IsPlain name k w.app)
  IsPlain-IsKept name k = app-IsKept (IsPlain name k) (forget-IsPlain name k)

  module _ {P : World em → Type 0} (kept : IsKept P) where
    topic_then_names-keeps :
        (w : World em) (fd : ℕ) (c : Channel) (name : Str)
        → P w
        → P
            (if not (send_topic_reply w fd c).1
              then ((send_topic_reply w fd c).0, false)
              else elim (find name (send_topic_reply w fd c).0.app.channels)
                  as (λ x. World em × Bool) [
                    | none ↦ ((send_topic_reply w fd c).0, false)
                    | some d ↦ send_names (send_topic_reply w fd c).0 fd d
                  ]).0
    topic_then_names-keeps w fd c name h =
        let w' = (send_topic_reply w fd c).0 in
        let h' = send_topic_reply-keeps kept w fd c h in
        elim (Bool-cases (send_topic_reply w fd c).1) [
          | inr failed ↦ rw failed h'
          | inl sent ↦ elim (Option-cases (find name w'.app.channels)) [
            | inl e ↦ rw (sent, e) h'
            | inr (d, e) ↦ rw (sent, e) (send_names-keeps kept w' fd d h')
          ]
        ]

    -- Behind the change of the channel, entering it only writes.
    enter-keeps :
        (w : World em) (fd : ℕ) (c : Channel) (nick name : Str)
        → P (modify_channel name (λ d. clear_invite nick (add_member fd (empty c) d)) w)
        → P (enter w fd c nick name).0
    unfolding enter
    enter-keeps w fd c nick name h =
        let w₁ = modify_channel name (λ d. clear_invite nick (add_member fd (empty c) d)) w in
        let line = format_message (prefix_for w₁.app fd) (text "JOIN") (name ∷ []) in
        let w₂ = broadcast_to_channel w₁ name line none in
        let h₂ = broadcast_to_channel-keeps kept w₁ name line none h in
        elim (Bool-cases (contains_client w₂.app.clients fd)) [
          | inr gone ↦ rw gone h₂
          | inl here ↦ elim (Option-cases (find name w₂.app.channels)) [
            | inl e ↦ rw (here, e) h₂
            | inr (d, e) ↦ rw (here, e) (topic_then_names-keeps w₂ fd d name h₂)
          ]
        ]

  entered-IsPlain :
      (w : World em) (fd k : ℕ) (c : Channel) (nick name : Str)
      → find name w.app.channels ≡ some c
      → empty c ≡ false
      → is_operator c k ≡ false
      → IsPlain name k
          (modify_channel name (λ d. clear_invite nick (add_member fd (empty c) d)) w).app
  unfolding modify_channel clear_invite add_member is_operator
  entered-IsPlain w fd k c nick name e occupied plain d e' = ground (
    arith,
    e,
    e',
    occupied,
    plain,
    str_eq_refl name,
    find-modify name name (λ d. clear_invite nick (add_member fd (empty c) d)) w.app.channels,
  )

  join_channel-IsPlain :
      (w : World em) (fd k : ℕ) (name : Str) (c : Channel)
      → find name w.app.channels ≡ some c
      → empty c ≡ false
      → is_operator c k ≡ false
      → IsPlain name k w.app
      → IsPlain name k (join_channel w fd name c).0.app
  unfolding join_channel
  join_channel-IsPlain w fd k name c e occupied plain h =
      let kept = IsPlain-IsKept name k in
      if-keeps₂ kept (has_member c fd) _ _ (send_names-keeps kept w fd c h)
        (elim (Option-cases (find_client w.app.clients fd)) [
          | inl gone ↦ rw gone h
          | inr (client, here) ↦ rw here (
              if-keeps₂ kept (c.invite_only && not (is_invited c client.nick)) _ _
                (send_numeric-keeps kept w fd 473 _ _ h)
                (enter-keeps kept w fd c client.nick name
                  (entered-IsPlain w fd k c client.nick name e occupied plain)))
        ])

  join-IsPlain :
      (w : World em) (fd k : ℕ) (name : Str) (c : Channel)
      → find name w.app.channels ≡ some c
      → empty c ≡ false
      → is_operator c k ≡ false
      → IsPlain name k (join fd w name).0.app
  unfolding join
  join-IsPlain w fd k name c e occupied plain =
      let h : IsPlain name k w.app = λ d e'. ground (arith, e, e', plain) in
      elim (Bool-cases (is_valid_name name)) [
        | inl good ↦
            rw (join-found w fd name c good e)
              (join_channel-IsPlain w fd k name c e occupied plain h)
        | inr bad ↦ rw bad (send_numeric-keeps (IsPlain-IsKept name k) w fd 403 _ _ h)
      ]

  -- A JOIN of a channel that has members makes nobody an operator of it: who is one behind it was one
  -- before.
  pub join-is_officer :
      (w : World em) (fd k : ℕ) (name : Str) (c : Channel)
      → find name w.app.channels ≡ some c
      → empty c ≡ false
      → is_officer (join fd w name).0.app name k ≡ true
      → is_operator c k ≡ true
  join-is_officer w fd k name c e occupied t = elim (Bool-cases (is_operator c k)) [
    | inl officer ↦ officer
    | inr plain ↦ cc (
      t,
      IsPlain-is_officer name k (join fd w name).0.app
          (join-IsPlain w fd k name c e occupied plain),
    )
  ]
