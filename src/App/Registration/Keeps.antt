-- ===== src/App/Registration/Keeps.antt =====
-- The registration commands keep the invariant.
use irc_relay_server.App.Invariant.{IsInvariant}
use irc_relay_server.Registry.{contains_client}
use irc_relay_server.App.Support.Keeps.{send_numeric-keeps, if-keeps, broadcast_to_common-keeps}
use irc_relay_server.Prelude.{
  ℕ, ◌≡◌, refl, true, false, arith, is_empty, not, Option-cases, Bool-cases, inl, inr, ==_iff, List,
  [], ◌∷◌, ◌||◌,
}
use irc_relay_server.Prelude.Map.{nat_key}
use irc_relay_server.Text.{Str}
use irc_relay_server.Message.{IrcMessage}
use irc_relay_server.Registry.{find_client}
use irc_relay_server.Registry.Naming.{IsFree}
use irc_relay_server.Events.{EventManager}
use irc_relay_server.World.{App, World}
use irc_relay_server.App.Registration.{
  is_valid_nickname, is_taken, welcome, maybe_register, handle_pass, rename, handle_nick,
  handle_user, pass_params, nick_params, user_params,
}

-- A nickname that passes the two checks of `handleNick` can be taken.
is_taken-IsFree :
    (app : App) (fd : ℕ) (nickname : Str)
    → is_taken app fd nickname ≡ false
    → IsFree app.clients fd nickname
unfolding is_taken
is_taken-IsFree app fd nickname h g e = ground (arith, h, e, ==_iff g fd)

is_valid_nickname-ne-empty :
    (nickname : Str) → is_valid_nickname nickname ≡ true → is_empty nickname ≡ false
unfolding is_valid_nickname
is_valid_nickname-ne-empty [] h = cc
is_valid_nickname-ne-empty (c ∷ s) h = refl

module _ ⦃em : EventManager⦄ {M : World em → ℕ → Type 0} {P : World em → Type 0}
    (rules : IsInvariant M P) where
  pub welcome-keeps : (w : World em) (fd : ℕ) (nick : Str) → P w → P (welcome w fd nick)
  unfolding welcome
  welcome-keeps w fd nick h =
      let h₁ = send_numeric-keeps rules.kept w fd 1 [] _ h in
      let h₂ = send_numeric-keeps rules.kept _ fd 2 [] _ h₁ in
      if-keeps rules.kept _ _ _ h₁
        (if-keeps rules.kept _ _ _ h₂ (send_numeric-keeps rules.kept _ fd 3 [] _ h₂))

  pub maybe_register-keeps : (w : World em) (fd : ℕ) → P w → P (maybe_register w fd)
  unfolding maybe_register
  maybe_register-keeps w fd h = elim (Option-cases (find_client w.app.clients fd)) [
    | inl e ↦ rw (e, maybe_register) h
    | inr (c, e) ↦
        elim (Bool-cases (c.registered || not c.pass_ok || not c.has_nick || not c.has_user)) [
          | inl t ↦ rw (e, maybe_register, t) h
          | inr f ↦ rw (e, maybe_register, f) (welcome-keeps _ fd c.nick (rules.gates w fd c e f h))
        ]
  ]

  pass_params-keeps :
      (w : World em) (fd : ℕ) (ps : List Str)
      → contains_client w.app.clients fd ≡ true
      → P w
      → P (pass_params w fd ps)
  unfolding pass_params
  pass_params-keeps w fd [] known h = send_numeric-keeps rules.kept w fd 461 _ _ h
  pass_params-keeps w fd (given ∷ _) known h =
      if-keeps rules.kept _ _ _
        (rules.kept.closes _ fd _ (send_numeric-keeps rules.kept w fd 464 [] _ h))
        (maybe_register-keeps _ fd (
          rules.clients w fd _ known
            (record {
              nick_kept = refl;
              has_nick_kept = refl;
              registered_kept = refl;
              pass_kept = λ _. refl;
              user_kept = λ t. t;
            })
            h))

  pub handle_pass-keeps :
      (w : World em) (fd : ℕ) (m : IrcMessage)
      → contains_client w.app.clients fd ≡ true
      → P w
      → P (handle_pass w fd m)
  unfolding handle_pass
  handle_pass-keeps w fd m known h =
      if-keeps rules.kept _ _ _ (send_numeric-keeps rules.kept w fd 462 [] _ h)
        (pass_params-keeps w fd m.params known h)

  rename-keeps :
      (w : World em) (fd : ℕ) (nickname : Str)
      → contains_client w.app.clients fd ≡ true
      → is_empty nickname ≡ false
      → IsFree w.app.clients fd nickname
      → P w
      → P (rename w fd nickname)
  unfolding rename
  rename-keeps w fd nickname known full free h =
      let h₁ = rules.renames w fd nickname known full free h in
      let h₂ = broadcast_to_common-keeps rules.kept _ fd _ true h₁ in
      if-keeps rules.kept _ _ _ (if-keeps rules.kept _ _ _ h₂ (maybe_register-keeps _ fd h₂))
        (maybe_register-keeps _ fd h₁)

  nick_params-keeps :
      (w : World em) (fd : ℕ) (ps : List Str)
      → contains_client w.app.clients fd ≡ true
      → P w
      → P (nick_params w fd ps)
  unfolding nick_params
  nick_params-keeps w fd [] known h = send_numeric-keeps rules.kept w fd 431 _ _ h
  nick_params-keeps w fd (nick ∷ _) known h = elim (Bool-cases (is_valid_nickname nick)) [
    | inr bad ↦ rw bad (send_numeric-keeps rules.kept w fd 432 _ _ h)
    | inl good ↦ elim (Bool-cases (is_taken w.app fd nick)) [
      | inl taken ↦ rw (good, taken) (send_numeric-keeps rules.kept w fd 433 _ _ h)
      | inr free ↦
          rw (good, free)
            (rename-keeps w fd nick known (is_valid_nickname-ne-empty nick good)
              (is_taken-IsFree w.app fd nick free) h)
    ]
  ]

  pub handle_nick-keeps :
      (w : World em) (fd : ℕ) (m : IrcMessage)
      → contains_client w.app.clients fd ≡ true
      → P w
      → P (handle_nick w fd m)
  unfolding handle_nick
  handle_nick-keeps w fd m known h = nick_params-keeps w fd m.params known h

  user_params-keeps :
      (w : World em) (fd : ℕ) (ps : List Str)
      → contains_client w.app.clients fd ≡ true
      → P w
      → P (user_params w fd ps)
  unfolding user_params
  user_params-keeps w fd (a ∷ b ∷ c ∷ d ∷ _) known h = maybe_register-keeps _ fd (
      rules.clients w fd _ known
        (record {
          nick_kept = refl;
          has_nick_kept = refl;
          registered_kept = refl;
          pass_kept = λ t. t;
          user_kept = λ _. refl;
        })
        h)
  user_params-keeps w fd _ known h = send_numeric-keeps rules.kept w fd 461 _ _ h

  pub handle_user-keeps :
      (w : World em) (fd : ℕ) (m : IrcMessage)
      → contains_client w.app.clients fd ≡ true
      → P w
      → P (handle_user w fd m)
  unfolding handle_user
  handle_user-keeps w fd m known h =
      if-keeps rules.kept _ _ _ (send_numeric-keeps rules.kept w fd 462 _ _ h)
        (user_params-keeps w fd m.params known h)
