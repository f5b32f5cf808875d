-- ===== src/App/Channels/Joining.antt =====
-- JOIN keeps the invariant, for a registered client. Its loop goes on only while the client is
-- still there, and so still registered.
use irc_relay_server.App.Invariant.{IsInvariant}
use irc_relay_server.App.Support.Keeps.{send_numeric-keeps, if-keeps, app-IsKept, both-IsKept}
use irc_relay_server.Prelude.{
  ℕ, ◌≡◌, refl, sym, subst, Bool, true, false, none, some, List, [], ◌∷◌, not, arith, Option-cases,
  Bool-cases, inl, inr, if◌then◌else◌, ==_iff, ◌&&◌, ◌⊎◌,
}
use irc_relay_server.Prelude.{◌==◌ as nat_beq}
use irc_relay_server.Prelude.Map.{nat_key, find, member}
use irc_relay_server.Text.{Str, str_key, text}
use irc_relay_server.Message.{IrcMessage}
use irc_relay_server.Replies.{format_message}
use irc_relay_server.Channel.{
  Channel, channel, has_member, empty, add_member, clear_invite, is_invited, is_valid_name,
}
use irc_relay_server.Registry.{ClientRegistry, contains_client, find_client, erase_client}
use irc_relay_server.Registry.Index.{erased-find, erase_client-absent}
use irc_relay_server.Events.{EventManager}
use irc_relay_server.World.{App, World}
use irc_relay_server.App.Relay.{forget, prefix_for}
use irc_relay_server.App.Rooms.{is_registered, is_registered-erase_client}
use irc_relay_server.App.Changes.Entry.{ensure_channel-found, clients-ensure_channel}
use irc_relay_server.App.Channels.Keeps.{part_all_channels-keeps}
use irc_relay_server.App.Support.{
  modify_channel, ensure_channel, broadcast_to_channel, send_names, send_topic_reply, send_numeric,
  split_comma,
}
use irc_relay_server.App.Support.Keeps.{
  send_numeric-keeps, send_names-keeps, send_topic_reply-keeps, broadcast_to_channel-keeps,
  for_each-keeps, send_numeric-true, send_names-true, send_topic_reply-true,
}
use irc_relay_server.App.Channels.{enter, join_channel, join, join_params, handle_join}

pub contains-erase_client :
    (r : ClientRegistry) (fd k : ℕ)
    → contains_client (erase_client fd r) k ≡ (if nat_beq fd k then false else contains_client r k)
unfolding contains_client
contains-erase_client r fd k = elim (Option-cases (find fd r.states)) [
  | inl e ↦ rw (erase_client-absent r fd e) (ground (arith, e, ==_iff fd k))
  | inr (client, e) ↦ ground (arith, e, erased-find r fd k client e)
]

-- The client is registered for as long as it is there.
abbrev Stays : ℕ → App → Type 0
Stays fd app = contains_client app.clients fd ≡ true → is_registered app.clients fd ≡ true

forget-Stays : (fd : ℕ) (app : App) (k : ℕ) → Stays fd app → Stays fd (forget k app)
unfolding forget
forget-Stays fd app k h t = ground (
  arith,
  t,
  h,
  contains-erase_client app.clients k fd,
  is_registered-erase_client app.clients k fd,
)

module _ ⦃em : EventManager⦄ {M : World em → ℕ → Type 0} {P : World em → Type 0}
    (rules : IsInvariant M P) (fd : ℕ) where
  -- What a round of the loop leaves behind: the invariant, and where it goes on, the client.
  abbrev pub Joined : World em × Bool → Type 0
  Joined r = P r.0 × (r.1 ≡ true → is_registered r.0.app.clients fd ≡ true)

  -- The property holds once the client has entered the channel, which may be empty before.
  abbrev Entering : World em → Str → Channel → Type 0
  Entering w name c =
      (nick : Str) → P (modify_channel name (λ d. clear_invite nick (add_member fd (empty c) d)) w)

  -- A write from a world in which the client is registered.
  sent-Joined :
      (w : World em) (r : World em × Bool)
      → is_registered w.app.clients fd ≡ true
      → P r.0
      → (r.1 ≡ true → r.0.app ≡ w.app)
      → Joined r
  sent-Joined w r known kept same =
      (kept, λ t. subst (λ (a : App). is_registered a.clients fd ≡ true) (sym (same t)) known)

  numeric-Joined :
      (w : World em) (code : ℕ) (params : List Str) (trailing : Str)
      → is_registered w.app.clients fd ≡ true
      → P w
      → Joined (send_numeric w fd code params trailing)
  numeric-Joined w code params trailing known h =
      sent-Joined w (send_numeric w fd code params trailing) known
        (send_numeric-keeps rules.kept w fd code params trailing h)
        (send_numeric-true w fd code params trailing)

  names-Joined :
      (w : World em) (c : Channel)
      → is_registered w.app.clients fd ≡ true
      → P w
      → Joined (send_names w fd c)
  names-Joined w c known h =
      sent-Joined w (send_names w fd c) known (send_names-keeps rules.kept w fd c h)
        (send_names-true w fd c)

  stopped-Joined : (w : World em) → P w → Joined (w, false)
  stopped-Joined w h = (h, λ t. cc)

  -- Behind the topic, which was sent or was not.
  after_topic :
      (w : World em) (c : Channel) (name : Str)
      → is_registered w.app.clients fd ≡ true
      → P w
      → Joined (
          if not (send_topic_reply w fd c).1
          then ((send_topic_reply w fd c).0, false)
          else elim (find name (send_topic_reply w fd c).0.app.channels) [
            | none ↦ ((send_topic_reply w fd c).0, false)
            | some c₃ ↦ send_names (send_topic_reply w fd c).0 fd c₃
          ])
  after_topic w c name known h =
      let kept = send_topic_reply-keeps rules.kept w fd c h in
      elim (Bool-cases (send_topic_reply w fd c).1) [
        | inr failed ↦ rw failed (stopped-Joined (send_topic_reply w fd c).0 kept)
        | inl sent ↦
            let known' =
              subst (λ (a : App). is_registered a.clients fd ≡ true)
                (sym (send_topic_reply-true w fd c sent)) known in
            elim (Option-cases (find name (send_topic_reply w fd c).0.app.channels)) [
              | inl e ↦ rw (sent, e) (stopped-Joined (send_topic_reply w fd c).0 kept)
              | inr (d, e) ↦ rw (sent, e) (names-Joined _ d known' kept)
            ]
      ]

  enter-Joined :
      (w : World em) (c : Channel) (nick name : Str)
      → is_registered w.app.clients fd ≡ true
      → Entering w name c
      → Joined (enter w fd c nick name)
  unfolding enter
  enter-Joined w c nick name known o =
      let w₁ = modify_channel name (λ d. clear_invite nick (add_member fd (empty c) d)) w in
      let line = format_message (prefix_for w₁.app fd) (text "JOIN") (name ∷ []) in
      let w₂ = broadcast_to_channel w₁ name line none in
      let h₂ : P w₂ × Stays fd w₂.app =
        broadcast_to_channel-keeps
          (both-IsKept rules.kept (app-IsKept (Stays fd) (forget-Stays fd))) w₁ name line none
          (o nick, λ _. unfold modify_channel in known) in
      elim (Bool-cases (contains_client w₂.app.clients fd)) [
        | inr gone ↦ rw gone (stopped-Joined w₂ h₂.0)
        | inl here ↦ elim (Option-cases (find name w₂.app.channels)) [
          | inl e ↦ rw (here, e) (stopped-Joined w₂ h₂.0)
          | inr (d, e) ↦ rw (here, e) (after_topic w₂ d name (h₂.1 here) h₂.0)
        ]
      ]

  channel-has_member : (name : Str) → has_member (channel name) fd ≡ false
  unfolding has_member member
  channel-has_member name = refl

  join_channel-Joined :
      (w : World em) (name : Str) (c : Channel)
      → is_registered w.app.clients fd ≡ true
      → Entering w name c
      → (P w) ⊎ (c ≡ channel name)
      → Joined (join_channel w fd name c)
  unfolding join_channel
  join_channel-Joined w name c known o (inl h) = elim (Bool-cases (has_member c fd)) [
    | inl here ↦ rw here (names-Joined w c known h)
    | inr away ↦ elim (Option-cases (find_client w.app.clients fd)) [
      | inl e ↦ rw (away, e) (stopped-Joined w h)
      | inr (client, e) ↦ elim (Bool-cases (c.invite_only && not (is_invited c client.nick))) [
        | inl shut ↦ rw (away, e, shut) (numeric-Joined w 473 _ _ known h)
        | inr open' ↦ rw (away, e, open') (enter-Joined w c client.nick name known o)
      ]
    ]
  ]
  join_channel-Joined w name c known o (inr new) =
      subst (λ d. Joined (join_channel w fd name d)) (sym new)
        (elim (Option-cases (find_client w.app.clients fd)) [
          | inl e ↦ absurd (unknown e)
          | inr (client, e) ↦
              rw (channel-has_member name, e)
                (enter-Joined w (channel name) client.nick name known
                  (subst (λ d. Entering w name d) new o))
        ])
    where
      unknown : find_client w.app.clients fd ≡ none → ⊥
      unknown e = unfold find_client is_registered in cc (e, known)

  join-Joined :
      (w : World em) (name : Str)
      → P w
      → is_registered w.app.clients fd ≡ true
      → Joined (join fd w name)
  unfolding join
  join-Joined w name h known = elim (Bool-cases (is_valid_name name)) [
    | inr bad ↦ rw bad (numeric-Joined w 403 _ _ known h)
    | inl good ↦
        let v = ensure_channel w name in
        rw good (
          join_channel-Joined v.0 name v.1 (rw (clients-ensure_channel w name) known)
            (λ nick. rules.enters w name nick fd known h) (origin v (ensure_channel-found w name)))
  ]
    where
      origin :
          (v : World em × Channel)
          → ((v.0 ≡ w) × (find name w.app.channels ≡ some v.1)) ⊎ (v.1 ≡ channel name)
          → (P v.0) ⊎ (v.1 ≡ channel name)
      origin v (inl p) = inl (subst (λ (u : World em). P u) (sym p.0) h)
      origin v (inr p) = inr p

  join_params-keeps :
      (w : World em) (ps : List Str)
      → is_registered w.app.clients fd ≡ true
      → P w
      → P (join_params w fd ps)
  unfolding join_params
  join_params-keeps w [] known h = send_numeric-keeps rules.kept w fd 461 _ _ h
  join_params-keeps w (names ∷ _) known h =
      if-keeps rules.kept _ _ _ (part_all_channels-keeps rules w fd _ h) (
        for_each-keeps (λ v. P v) (λ v. is_registered v.app.clients fd ≡ true) (join fd)
          (λ v name p q. join-Joined v name p q) w (split_comma names) h known)

  pub handle_join-keeps :
      (w : World em) (m : IrcMessage)
      → is_registered w.app.clients fd ≡ true
      → P w
      → P (handle_join w fd m)
  unfolding handle_join
  handle_join-keeps w m known h = join_params-keeps w m.params known h
