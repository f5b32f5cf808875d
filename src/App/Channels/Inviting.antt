-- ===== src/App/Channels/Inviting.antt =====
-- INVITE, LIST and NAMES keep the invariant.
use irc_relay_server.App.Invariant.{IsInvariant}
use irc_relay_server.App.Changes.Channels.{invite-IsRoom}
use irc_relay_server.App.Support.Keeps.{send_numeric-keeps, if-keeps}
use irc_relay_server.Prelude.{
  ℕ, Bool, true, Option, none, some, List, [], ◌∷◌, Option-cases, inl, inr,
}
use irc_relay_server.Prelude.Map.{find}
use irc_relay_server.Text.{Str, str_key}
use irc_relay_server.Message.{IrcMessage}
use irc_relay_server.Channel.{Channel}
use irc_relay_server.Events.{EventManager}
use irc_relay_server.World.{World}
use irc_relay_server.App.Support.{find_nick, split_comma, for_each}
use irc_relay_server.App.Support.Keeps.{
  send_numeric_raw-keeps, if-keeps₂, send_names-keeps, find_channel_for_command-keeps,
  for_each-keeps,
}
use irc_relay_server.App.Channels.{
  invite_to, invite_into, invite_nick, invite_params, handle_invite, list_channel, list_requested,
  requested_by, handle_list, names_at, names_named, names_params, handle_names,
}

module _ ⦃em : EventManager⦄ {M : World em → ℕ → Type 0} {P : World em → Type 0}
    (rules : IsInvariant M P) where
  invite_to-keeps :
      (w : World em) (fd : ℕ) (nick : Str) (target : ℕ) (name : Str) (c : Channel)
      → P w
      → P (invite_to w fd nick target name c)
  unfolding invite_to
  invite_to-keeps w fd nick target name c h =
      if-keeps rules.kept _ _ _ (send_numeric-keeps rules.kept w fd 482 _ _ h) (
        if-keeps rules.kept _ _ _ (send_numeric-keeps rules.kept w fd 443 _ _ h) (
          rules.kept.sends _ target _ (
            rules.kept.sends _ fd _
              (rules.rooms w name _ (invite-IsRoom w.app.clients name nick) h))))

  invite_into-keeps :
      (w : World em) (fd : ℕ) (nick : Str) (target : ℕ) (name : Str) (found : Option Channel)
      → P w
      → P (invite_into w fd nick target name found)
  unfolding invite_into
  invite_into-keeps w fd nick target name none h = h
  invite_into-keeps w fd nick target name (some c) h = invite_to-keeps w fd nick target name c h

  invite_nick-keeps :
      (w : World em) (fd : ℕ) (nick name : Str) (found : Option ℕ)
      → P w
      → P (invite_nick w fd nick name found)
  unfolding invite_nick
  invite_nick-keeps w fd nick name none h = send_numeric-keeps rules.kept w fd 401 _ _ h
  invite_nick-keeps w fd nick name (some target) h =
      invite_into-keeps _ fd nick target name _
        (find_channel_for_command-keeps rules.kept w fd name true h)

  invite_params-keeps : (w : World em) (fd : ℕ) (ps : List Str) → P w → P (invite_params w fd ps)
  unfolding invite_params
  invite_params-keeps w fd (nick ∷ name ∷ _) h =
      invite_nick-keeps w fd nick name (find_nick w.app nick) h
  invite_params-keeps w fd _ h = send_numeric-keeps rules.kept w fd 461 _ _ h

  pub handle_invite-keeps :
      (w : World em) (fd : ℕ) (m : IrcMessage) → P w → P (handle_invite w fd m)
  unfolding handle_invite
  handle_invite-keeps w fd m h = invite_params-keeps w fd m.params h

  -- A loop whose rounds keep the invariant.
  loop-keeps :
      {A : Type 0} (body : World em → A → World em × Bool)
      → ((w : World em) (a : A) → P w → P (body w a).0)
      → (w : World em) (as' : List A) → P w
      → P (for_each body w as').0
  loop-keeps body round w as' h =
      for_each-keeps (λ v. P v) (λ _. Unit {0}) body (λ v a p _. (round v a p, λ _. tt)) w as' h tt

  list_channel-keeps :
      (fd : ℕ) (requested : List Str) (w : World em) (entry : Str × Channel)
      → P w
      → P (list_channel fd requested w entry).0
  unfolding list_channel
  list_channel-keeps fd requested w (name, c) h =
      if-keeps₂ rules.kept _ _ _ h (send_numeric-keeps rules.kept w fd 322 _ _ h)

  pub handle_list-keeps : (w : World em) (fd : ℕ) (m : IrcMessage) → P w → P (handle_list w fd m)
  unfolding handle_list list_requested
  handle_list-keeps w fd m h =
      let h₁ = send_numeric_raw-keeps rules.kept w fd 321 _ h in
      let h₂ =
        loop-keeps (list_channel fd (requested_by m.params))
          (list_channel-keeps fd (requested_by m.params)) _ _ h₁ in
      if-keeps rules.kept _ _ _ h₁
        (if-keeps rules.kept _ _ _ h₂ (send_numeric-keeps rules.kept _ fd 323 _ _ h₂))

  names_named-keeps : (fd : ℕ) (w : World em) (name : Str) → P w → P (names_named fd w name).0
  unfolding names_named
  names_named-keeps fd w name h = elim (Option-cases (find name w.app.channels)) [
    | inl e ↦ rw (e, names_named) (send_numeric-keeps rules.kept w fd 366 _ _ h)
    | inr (c, e) ↦ rw (e, names_named) (send_names-keeps rules.kept w fd c h)
  ]

  names_at-keeps : (fd : ℕ) (w : World em) (entry : Str × Channel) → P w → P (names_at fd w entry).0
  unfolding names_at
  names_at-keeps fd w (name, c) h = send_names-keeps rules.kept w fd c h

  names_params-keeps : (w : World em) (fd : ℕ) (ps : List Str) → P w → P (names_params w fd ps)
  unfolding names_params
  names_params-keeps w fd [] h = loop-keeps (names_at fd) (names_at-keeps fd) w w.app.channels h
  names_params-keeps w fd (names ∷ _) h =
      loop-keeps (names_named fd) (names_named-keeps fd) w (split_comma names) h

  pub handle_names-keeps : (w : World em) (fd : ℕ) (m : IrcMessage) → P w → P (handle_names w fd m)
  unfolding handle_names
  handle_names-keeps w fd m h = names_params-keeps w fd m.params h
