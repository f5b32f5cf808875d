-- ===== src/App/Support/Keeps.antt =====
-- What only writes to clients keeps every property of the application's state that survives the
-- loss of clients.
use irc_relay_server.Prelude.{
  ℕ, ◌≡◌, Bool, true, false, ◌&&◌, Option, none, some, List, [], ◌∷◌, if◌then◌else◌, not, arith,
  Option-cases, Bool-cases, inl, inr,
}
use irc_relay_server.Prelude.Map.{nat_key, find}
use irc_relay_server.Text.{Str, str_key, text}
use irc_relay_server.Channel.{Channel, has_member}
use irc_relay_server.Events.{EventManager}
use irc_relay_server.World.{App, World}
use irc_relay_server.Server.{modify_connection}
use irc_relay_server.App.Relay.Results.{send_raw-true}
use irc_relay_server.App.Relay.{forget, send_raw, send_each}
use irc_relay_server.App.Relay.Steps.{keeps_app, send_raw-path}
use irc_relay_server.App.Support.{
  send_numeric, send_numeric_raw, request_close, send_topic_reply, send_names, broadcast_to_channel,
  broadcast_to_common, broadcast_mode, find_channel_for_command, for_each, join_words, names_of,
}

-- A property of the world that a write to a client and the request of a close keep.
pub record IsKept ⦃em : EventManager⦄ (P : World em → Type 0) : Type 0 where
  pub sends : (w : World em) (fd : ℕ) (line : Str) → P w → P (send_raw w fd line).0
  pub closes : (w : World em) (fd : ℕ) (reason : Str) → P w → P (request_close w fd reason)

-- A property of the application's state that survives the loss of clients.
pub app-IsKept :
    ⦃em : EventManager⦄ (P : App → Type 0)
    → ((app : App) (fd : ℕ) → P app → P (forget fd app))
    → IsKept (λ (w : World em). P w.app)
unfolding request_close modify_connection
app-IsKept P keep = record {
  sends = λ w fd line. send_raw-path (keeps_app P keep) w fd line;
  closes = λ w fd reason h. h;
}

pub both-IsKept :
    ⦃em : EventManager⦄ {P Q : World em → Type 0} → IsKept P → IsKept Q → IsKept (λ w. P w × Q w)
both-IsKept k l = record {
  sends = λ w fd line h. (k.sends w fd line h.0, l.sends w fd line h.1);
  closes = λ w fd reason h. (k.closes w fd reason h.0, l.closes w fd reason h.1);
}

module _ ⦃em : EventManager⦄ {P : World em → Type 0} (kept : IsKept P) where
  send_each-keeps :
      (w : World em) (line : Str) (fds : List ℕ) → P w → P (send_each send_raw w line fds)
  unfolding send_each
  send_each-keeps w line [] h = h
  send_each-keeps w line (fd ∷ fds) h =
      send_each-keeps (send_raw w fd line).0 line fds (kept.sends w fd line h)

  pub send_numeric-keeps :
      (w : World em) (fd code : ℕ) (params : List Str) (trailing : Str)
      → P w
      → P (send_numeric w fd code params trailing).0
  unfolding send_numeric
  send_numeric-keeps w fd code params trailing h = kept.sends w fd _ h

  pub send_numeric_raw-keeps :
      (w : World em) (fd code : ℕ) (params : List Str)
      → P w
      → P (send_numeric_raw w fd code params).0
  unfolding send_numeric_raw
  send_numeric_raw-keeps w fd code params h = kept.sends w fd _ h

  pub if-keeps : (b : Bool) (u v : World em) → P u → P v → P (if b then u else v)
  if-keeps true u v h k = h
  if-keeps false u v h k = k

  pub if-keeps₂ : (b : Bool) (u v : World em × Bool) → P u.0 → P v.0 → P (if b then u else v).0
  if-keeps₂ true u v h k = h
  if-keeps₂ false u v h k = k

  pub send_topic_reply-keeps :
      (w : World em) (fd : ℕ) (c : Channel) → P w → P (send_topic_reply w fd c).0
  unfolding send_topic_reply
  send_topic_reply-keeps w fd c h =
      if-keeps₂ c.has_topic _ _ (send_numeric-keeps w fd 332 _ _ h)
        (send_numeric-keeps w fd 331 _ _ h)

  pub send_names-keeps : (w : World em) (fd : ℕ) (c : Channel) → P w → P (send_names w fd c).0
  unfolding send_names
  send_names-keeps w fd c h =
      let h₁ = send_numeric-keeps w fd 353 _ _ h in
      if-keeps₂ _ _ _ (send_numeric-keeps _ fd 366 _ _ h₁) h₁

  pub broadcast_to_channel-keeps :
      (w : World em) (name line : Str) (except_fd : Option ℕ)
      → P w
      → P (broadcast_to_channel w name line except_fd)
  unfolding broadcast_to_channel
  broadcast_to_channel-keeps w name line except_fd h =
      elim (Option-cases (find name w.app.channels)) [
        | inl e ↦ rw (e, broadcast_to_channel) h
        | inr (c, e) ↦ rw (e, broadcast_to_channel) (send_each-keeps w line _ h)
      ]

  pub broadcast_to_common-keeps :
      (w : World em) (fd : ℕ) (line : Str) (include_self : Bool)
      → P w
      → P (broadcast_to_common w fd line include_self)
  unfolding broadcast_to_common
  broadcast_to_common-keeps w fd line include_self h = send_each-keeps w line _ h

  pub broadcast_mode-keeps :
      (w : World em) (fd : ℕ) (c : Channel) (mode arg : Str)
      → P w
      → P (broadcast_mode w fd c mode arg).0
  unfolding broadcast_mode
  broadcast_mode-keeps w fd c mode arg h = broadcast_to_channel-keeps w c.name _ none h

  pub find_channel_for_command-keeps :
      (w : World em) (fd : ℕ) (name : Str) (b : Bool)
      → P w
      → P (find_channel_for_command w fd name b).0
  unfolding find_channel_for_command
  find_channel_for_command-keeps w fd name b h = elim (Option-cases (find name w.app.channels)) [
    | inl e ↦ rw (e, find_channel_for_command) (send_numeric-keeps w fd 403 _ _ h)
    | inr (c, e) ↦ elim (Bool-cases (b && not (has_member c fd))) [
      | inl t ↦ rw (e, find_channel_for_command, t) (send_numeric-keeps w fd 442 _ _ h)
      | inr f ↦ rw (e, find_channel_for_command, f) h
    ]
  ]

-- A loop keeps what its body keeps, where `Q` says what a round may rely on, and a round that goes
-- on leaves behind.
pub for_each-keeps :
    ⦃em : EventManager⦄ {A : Type 0} (P Q : World em → Type 0)
    (body : World em → A → World em × Bool)
    → ((w : World em) (a : A) → P w → Q w → P (body w a).0 × ((body w a).1 ≡ true → Q (body w a).0))
    → (w : World em) (as' : List A) → P w
    → Q w
    → P (for_each body w as').0
unfolding for_each
for_each-keeps P Q body round w [] p q = p
for_each-keeps P Q body round w (a ∷ as') p q =
    let (p', q') = round w a p q in
    elim (Bool-cases (body w a).1) [
      | inl t ↦ rw (t, for_each) (for_each-keeps P Q body round (body w a).0 as' p' (q' t))
      | inr f ↦ rw (f, for_each) p'
    ]

-- The channel that a command is given is the one of that name, and the world is as it was.
pub find_channel_for_command-some :
    ⦃em : EventManager⦄ (w : World em) (fd : ℕ) (name : Str) (b : Bool) (c : Channel)
    → (find_channel_for_command w fd name b).1 ≡ some c
    → ((find_channel_for_command w fd name b).0 ≡ w)
      × (find name w.app.channels ≡ some c)
      × (b ≡ true → has_member c fd ≡ true)
unfolding find_channel_for_command
find_channel_for_command-some w fd name b c e = ground arith

-- A write that succeeds leaves the application's state as it was.
module _ ⦃em : EventManager⦄ (w : World em) (fd : ℕ) where
  pub send_numeric-true :
      (code : ℕ) (params : List Str) (trailing : Str)
      → (send_numeric w fd code params trailing).1 ≡ true
      → (send_numeric w fd code params trailing).0.app ≡ w.app
  unfolding send_numeric
  send_numeric-true code params trailing t = (send_raw-true w fd _ t).same_app

  pub send_topic_reply-true :
      (c : Channel) → (send_topic_reply w fd c).1 ≡ true → (send_topic_reply w fd c).0.app ≡ w.app
  unfolding send_topic_reply
  send_topic_reply-true c t = elim (Bool-cases c.has_topic) [
    | inl e ↦ rw e (send_numeric-true 332 _ _ (rw e at t))
    | inr e ↦ rw e (send_numeric-true 331 _ _ (rw e at t))
  ]

pub send_names-true :
    ⦃em : EventManager⦄ (w : World em) (fd : ℕ) (c : Channel)
    → (send_names w fd c).1 ≡ true
    → (send_names w fd c).0.app ≡ w.app
unfolding send_names
send_names-true w fd c t = ground (
  arith,
  t,
  send_numeric-true w fd 353 (text "=" ∷ c.name ∷ [])
      (join_words (names_of w.app c c.members) (text " ")),
  send_numeric-true
      (send_numeric w fd 353 (text "=" ∷ c.name ∷ [])
        (join_words (names_of w.app c c.members) (text " "))).0
      fd 366 (c.name ∷ []) (text "End of /NAMES list"),
)
