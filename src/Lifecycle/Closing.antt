-- ===== src/Lifecycle/Closing.antt =====
-- `closeAllConnections` of src/Server.cpp, with the handlers in place and without.
use irc_relay_server.Prelude.{
  ℕ, ◌≡◌, refl, ◌⊎◌, true, false, none, List, [], ◌∷◌, arith, subst, Option-cases, Bool-cases, inl,
  inr, ==_iff,
}
use irc_relay_server.Prelude.Map.{Map, nat_key, find, keys, find-erase, beq_refl, ◌==◌, member}
use irc_relay_server.Text.{Str, text}
use irc_relay_server.Events.{EventManager}
use irc_relay_server.World.{World}
use irc_relay_server.Server.{find_connection, drop_connection, disconnect}
use irc_relay_server.App.Relay.{drop_client, fuel_for}
use irc_relay_server.App.Relay.Steps.{drop_client-path}
use irc_relay_server.App.Relay.Refreshing.{IsAbsent, IsAbsent-path, disconnect-IsAbsent}
use irc_relay_server.EventLoop.{close_each, close_all_connections}
use irc_relay_server.Lifecycle.Process.{close_unheard}

module _ ⦃em : EventManager⦄ where
  drop_client-IsAbsent :
      (w : World em) (fd : ℕ) (reason : Str) → IsAbsent (drop_client w fd reason) fd
  unfolding drop_client
  drop_client-IsAbsent w fd reason = disconnect-IsAbsent (fuel_for w) w fd reason

  drop_unheard-IsAbsent :
      (w : World em) (fd k : ℕ) (reason : Str)
      → IsAbsent (disconnect (λ v c r. v) w fd reason) fd
        × (IsAbsent w k → IsAbsent (disconnect (λ v c r. v) w fd reason) k)
  unfolding disconnect find_connection drop_connection
  drop_unheard-IsAbsent w fd k reason = elim (Option-cases (find fd w.server.connections)) [
    | inl e ↦ rw (e, disconnect) (e, λ h. h)
    | inr (c, e) ↦
        rw (e, disconnect)
          (
            ground (arith, find-erase fd fd w.server.connections, ==_iff fd fd),
            λ h. ground (arith, h, find-erase fd k w.server.connections),
          )
  ]

  -- A loop of disconnections reaches every descriptor of its list.
  close_each-IsAbsent :
      (w : World em) (ks : List ℕ) (k : ℕ)
      → (member k ks ≡ true) ⊎ (IsAbsent w k)
      → IsAbsent (close_each w ks) k
  unfolding close_each member
  close_each-IsAbsent w [] k (inl t) = cc
  close_each-IsAbsent w [] k (inr h) = h
  close_each-IsAbsent w (fd ∷ ks) k t =
      let w' = drop_client w fd (text "server stopped") in
      close_each-IsAbsent w' ks k (elim (Bool-cases (fd == k)) [
        | inl same ↦ inr (subst (IsAbsent w') ((==_iff fd k).0 same) (drop_client-IsAbsent w fd _))
        | inr other ↦ elim t [
          | inl m ↦ inl (ground (arith, other, m))
          | inr h ↦ inr (drop_client-path (IsAbsent-path k) w fd _ h)
        ]
      ])

  close_unheard-IsAbsent :
      (w : World em) (ks : List ℕ) (k : ℕ)
      → (member k ks ≡ true) ⊎ (IsAbsent w k)
      → IsAbsent (close_unheard w ks) k
  unfolding close_unheard member
  close_unheard-IsAbsent w [] k (inl t) = cc
  close_unheard-IsAbsent w [] k (inr h) = h
  close_unheard-IsAbsent w (fd ∷ ks) k t =
      let w' = disconnect (λ v c r. v) w fd (text "server stopped") in
      close_unheard-IsAbsent w' ks k (elim (Bool-cases (fd == k)) [
        | inl same ↦
            inr (subst (IsAbsent w') ((==_iff fd k).0 same) (drop_unheard-IsAbsent w fd k _).0)
        | inr other ↦ elim t [
          | inl m ↦ inl (ground (arith, other, m))
          | inr h ↦ inr ((drop_unheard-IsAbsent w fd k _).1 h)
        ]
      ])

listed-or-absent :
    {V : Type 0} (m : Map ℕ V) (k : ℕ) → (member k (keys m) ≡ true) ⊎ (find k m ≡ none)
unfolding member find
listed-or-absent [] k = inr refl
listed-or-absent ((j, v) ∷ m) k = elim (Bool-cases (j == k)) [
  | inl e ↦ inl (rw e refl)
  | inr e ↦ rw e (listed-or-absent m k)
]

empty-of-absent : {V : Type 0} (m : Map ℕ V) → ((k : ℕ) → find k m ≡ none) → m ≡ []
unfolding find
empty-of-absent [] h = refl
empty-of-absent ((j, v) ∷ m) h = ground (arith, h j, beq_refl j)

module _ ⦃em : EventManager⦄ where
  -- Nothing is served, and nothing is listened to.
  pub record IsClosed (w : World em) : Type 0 where
    pub no_connections : w.server.connections ≡ []
    pub no_listener : w.server.listen_fd ≡ none
    pub stopped : w.server.running ≡ false

  pub close_all_connections-empty :
      (w : World em) → (close_all_connections w).server.connections ≡ []
  unfolding close_all_connections
  close_all_connections-empty w = empty-of-absent (close_all_connections w).server.connections (λ k.
      close_each-IsAbsent w (keys w.server.connections) k (listed-or-absent w.server.connections k))

  pub close_unheard-empty :
      (w : World em) → (close_unheard w (keys w.server.connections)).server.connections ≡ []
  close_unheard-empty w =
      empty-of-absent (close_unheard w (keys w.server.connections)).server.connections (λ k.
        close_unheard-IsAbsent w (keys w.server.connections) k
          (listed-or-absent w.server.connections k))
