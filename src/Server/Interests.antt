-- ===== src/Server/Interests.antt =====
-- What `refreshInterest` registers with the event backend.
use irc_relay_server.Prelude.{
  ℕ, ◌≡◌, refl, ◌≢◌, true, false, ◌&&◌, ◌||◌, some, not, arith, Bool-cases, inl, inr,
}
use irc_relay_server.Text.{Str}
use irc_relay_server.Connection.{Connection, wants_write}
use irc_relay_server.Events.{EventManager, has_interest, read_interest, write_interest}
use irc_relay_server.World.{World}
use irc_relay_server.Server.{
  interests_for, find_connection, update_interest, refresh_interest, set_events,
}

-- A connection is read from exactly as long as its close is not requested, and written to where
-- something is pending or the close is requested.
pub interests_for-has_interest :
    (c : Connection)
    → (has_interest (interests_for c) read_interest ≡ not c.close_requested)
      × (has_interest (interests_for c) write_interest ≡ (c.close_requested || wants_write c))
unfolding interests_for has_interest wants_write
interests_for-has_interest c = elim (Bool-cases c.close_requested) [
  | inl t ↦ elim (Bool-cases (wants_write c)) [
    | inl w ↦ rw (t, w) (refl, refl)
    | inr w ↦ rw (t, w) (refl, refl)
  ]
  | inr t ↦ elim (Bool-cases (wants_write c)) [
    | inl w ↦ rw (t, w) (refl, refl)
    | inr w ↦ rw (t, w) (refl, refl)
  ]
]

interests_for-ne-zero : (c : Connection) → interests_for c ≢ 0
unfolding interests_for wants_write
interests_for-ne-zero c = elim (Bool-cases c.close_requested) [
  | inl t ↦ elim (Bool-cases (wants_write c)) [
    | inl w ↦ rw (t, w) (λ e. omega (arith, e))
    | inr w ↦ rw (t, w) (λ e. omega (arith, e))
  ]
  | inr t ↦ elim (Bool-cases (wants_write c)) [
    | inl w ↦ rw (t, w) (λ e. omega (arith, e))
    | inr w ↦ rw (t, w) (λ e. omega (arith, e))
  ]
]

module _ ⦃em : EventManager⦄ (h : World em → Connection → Str → World em) where
  update_interest-registered :
      (w : World em) (fd : ℕ) (c : Connection)
      → (update_interest h w fd (interests_for c)).1 ≡ true
      → em.interest (update_interest h w fd (interests_for c)).0.server.events fd
        ≡ some (interests_for c)
  unfolding update_interest set_events
  update_interest-registered w fd c t =
      elim (Bool-cases (em.update_fd w.server.events fd (interests_for c)).1) [
        | inl e ↦
            rw (e, update_interest)
              (em.updated w.server.events fd (interests_for c) (interests_for-ne-zero c) e)
        | inr e ↦ absurd (cc (e, t))
      ]

  -- Where `refreshInterest` returns true, the backend has the connection's interests registered, and
  -- the connection is not one that was to be closed with nothing pending.
  pub refresh_interest-registered :
      (w : World em) (fd : ℕ) (c : Connection)
      → find_connection w fd ≡ some c
      → (refresh_interest h w fd).1 ≡ true
      → (em.interest (refresh_interest h w fd).0.server.events fd ≡ some (interests_for c))
        × ((c.close_requested && not (wants_write c)) ≡ false)
  unfolding refresh_interest
  refresh_interest-registered w fd c e t =
      elim (Bool-cases (c.close_requested && not (wants_write c))) [
        | inl done ↦ absurd (cc (e, done, t))
        | inr live ↦
            rw (e, refresh_interest, live)
              (update_interest-registered w fd c (rw (e, refresh_interest, live) at t), refl)
      ]
