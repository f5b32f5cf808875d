-- ===== src/App/Modes/Keeps.antt =====
-- MODE keeps the invariant.
use irc_relay_server.App.Invariant.{IsInvariant}
use irc_relay_server.App.Changes.Channels.{
  set_operator-IsRoom, set_invite_only-IsRoom, set_topic_protected-IsRoom,
}
use irc_relay_server.App.Support.Keeps.{send_numeric-keeps, if-keeps}
use irc_relay_server.Prelude.{
  ℕ, Bool, true, false, Option, none, some, List, [], ◌∷◌, Option-cases, inl, inr, ◌==◌,
  if◌then◌else◌,
}
use irc_relay_server.Prelude.Map.{find}
use irc_relay_server.Text.{Str, str_key}
use irc_relay_server.Message.{IrcMessage}
use irc_relay_server.Channel.{Channel}
use irc_relay_server.Events.{EventManager}
use irc_relay_server.World.{World}
use irc_relay_server.App.Support.{find_nick, modify_channel, broadcast_mode}
use irc_relay_server.App.Support.Keeps.{
  send_numeric_raw-keeps, broadcast_mode-keeps, if-keeps₂, find_channel_for_command-keeps,
}
use irc_relay_server.App.Rooms.{IsRoom}
use irc_relay_server.App.Modes.{
  ModeState, find_target, change_operator, operator_mode, apply_mode, apply_modes, channel_mode,
  mode_of, handle_channel_mode, user_mode, mode_params, handle_mode,
}

module _ ⦃em : EventManager⦄ {M : World em → ℕ → Type 0} {P : World em → Type 0}
    (rules : IsInvariant M P) where
  change_operator-keeps :
      (w : World em) (fd : ℕ) (c : Channel) (adding : Bool) (nick : Str)
      → P w
      → P (change_operator w fd c adding nick).0
  unfolding change_operator
  change_operator-keeps w fd c adding nick h = elim (Option-cases (find_target w.app nick)) [
    | inl e ↦ rw (e, change_operator) (send_numeric-keeps rules.kept w fd 441 _ _ h)
    | inr ((k, client), e) ↦
        rw (e, change_operator)
          (if-keeps₂ rules.kept _ _ _ (send_numeric-keeps rules.kept w fd 441 _ _ h) (
            broadcast_mode-keeps rules.kept _ fd c _ client.nick
              (rules.rooms w c.name _ (set_operator-IsRoom w.app.clients c.name k adding) h)))
  ]

  operator_mode-keeps :
      (w : World em) (fd : ℕ) (c : Channel) (adding : Bool) (arguments : List Str)
      → P w
      → P (operator_mode w fd c adding arguments).world
  unfolding operator_mode
  operator_mode-keeps w fd c adding [] h = send_numeric-keeps rules.kept w fd 461 _ _ h
  operator_mode-keeps w fd c adding (nick ∷ arguments) h =
      change_operator-keeps w fd c adding nick h

  pick : (b : Bool) (s t : ModeState) → P s.world → P t.world → P (if b then s else t).world
  pick true s t h k = h
  pick false s t h k = k

  apply_mode-keeps :
      (w : World em) (fd : ℕ) (c : Channel) (adding : Bool) (arguments : List Str) (mode : ℕ)
      → P w
      → P (apply_mode w fd c adding arguments mode).world
  unfolding apply_mode
  apply_mode-keeps w fd c adding arguments mode h =
      let changed : (f : Channel → Channel) (line : Str)
          → ((d : Channel) → IsRoom w.app.clients c.name d → IsRoom w.app.clients c.name (f d))
          → P (broadcast_mode (modify_channel c.name f w) fd c line []).0 =
        λ f line step.
          broadcast_mode-keeps rules.kept _ fd c line [] (rules.rooms w c.name f step h) in
      pick (mode == b'+') _ _ h (
        pick (mode == b'-') _ _ h (
          pick (mode == b'i') _ _ (changed _ _ (set_invite_only-IsRoom w.app.clients c.name adding))
            (pick (mode == b't') _ _
              (changed _ _ (set_topic_protected-IsRoom w.app.clients c.name adding))
              (pick (mode == b'o') _ _ (operator_mode-keeps w fd c adding arguments h)
                (send_numeric-keeps rules.kept w fd 472 _ _ h)))))

  apply_modes-keeps :
      (w : World em) (fd : ℕ) (name : Str) (adding : Bool) (arguments : List Str) (modes : Str)
      → P w
      → P (apply_modes w fd name adding arguments modes)
  unfolding apply_modes
  apply_modes-keeps w fd name adding arguments [] h = h
  apply_modes-keeps w fd name adding arguments (mode ∷ modes) h =
      elim (Option-cases (find name w.app.channels)) [
        | inl e ↦ rw (e, apply_modes) h
        | inr (c, e) ↦
            let s = apply_mode w fd c adding arguments mode in
            let kept = apply_mode-keeps w fd c adding arguments mode h in
            rw (e, apply_modes)
              (if-keeps rules.kept s.more _ _
                (apply_modes-keeps s.world fd name s.adding s.arguments modes kept) kept)
      ]

  channel_mode-keeps :
      (w : World em) (fd : ℕ) (c : Channel) (rest : List Str) → P w → P (channel_mode w fd c rest)
  unfolding channel_mode
  channel_mode-keeps w fd c [] h = send_numeric_raw-keeps rules.kept w fd 324 _ h
  channel_mode-keeps w fd c (modes ∷ arguments) h =
      if-keeps rules.kept _ _ _ (send_numeric-keeps rules.kept w fd 442 _ _ h) (
        if-keeps rules.kept _ _ _ (send_numeric-keeps rules.kept w fd 482 _ _ h)
          (apply_modes-keeps w fd c.name true arguments modes h))

  mode_of-keeps :
      (w : World em) (fd : ℕ) (rest : List Str) (found : Option Channel)
      → P w
      → P (mode_of w fd rest found)
  unfolding mode_of
  mode_of-keeps w fd rest none h = h
  mode_of-keeps w fd rest (some c) h = channel_mode-keeps w fd c rest h

  user_mode-keeps :
      (w : World em) (fd : ℕ) (nick : Str) (rest : List Str) (found : Option ℕ)
      → P w
      → P (user_mode w fd nick rest found)
  unfolding user_mode
  user_mode-keeps w fd nick rest none h = send_numeric-keeps rules.kept w fd 401 _ _ h
  user_mode-keeps w fd nick [] (some k) h = send_numeric_raw-keeps rules.kept w fd 221 _ h
  user_mode-keeps w fd nick (_ ∷ _) (some k) h =
      if-keeps rules.kept _ _ _ (send_numeric-keeps rules.kept w fd 502 _ _ h)
        (send_numeric-keeps rules.kept w fd 501 _ _ h)

  mode_params-keeps : (w : World em) (fd : ℕ) (ps : List Str) → P w → P (mode_params w fd ps)
  unfolding mode_params handle_channel_mode
  mode_params-keeps w fd [] h = send_numeric-keeps rules.kept w fd 461 _ _ h
  mode_params-keeps w fd (target ∷ rest) h =
      if-keeps rules.kept _ _ _
        (mode_of-keeps _ fd rest _ (find_channel_for_command-keeps rules.kept w fd target false h))
        (user_mode-keeps w fd target rest (find_nick w.app target) h)

  pub handle_mode-keeps : (w : World em) (fd : ℕ) (m : IrcMessage) → P w → P (handle_mode w fd m)
  unfolding handle_mode
  handle_mode-keeps w fd m h = mode_params-keeps w fd m.params h
