-- ===== src/EventLoop/Keeps.antt =====
-- What a property of the world has to survive for the event loop (src/Server.cpp) to keep it.
use irc_relay_server.Prelude.{
  ℕ, ◌≡◌, some, Bool, true, false, ◌&&◌, List, [], ◌∷◌, not, if◌then◌else◌, Option-cases, inl, inr,
}
use irc_relay_server.Text.{Str, text}
use irc_relay_server.Registry.{MonotonicTime}
use irc_relay_server.Connection.{
  Connection, Recv, Sent, ReadResult, WriteResult, read_available, flush_pending, request_close,
  wants_write,
}
use irc_relay_server.Events.{EventManager, Event, has_interest, read_interest, write_interest}
use irc_relay_server.World.{World}
use irc_relay_server.Server.{find_connection, modify_connection}
use irc_relay_server.App.Relay.{drop_client}
use irc_relay_server.App.Support.{request_close as close_client}
use irc_relay_server.App.Invariant.{IsInvariant}
use irc_relay_server.App.Support.Keeps.{if-keeps, if-keeps₂}
use irc_relay_server.App.Dispatch.{on_line}
use irc_relay_server.App.Dispatch.Serving.{on_line-keeps}
use irc_relay_server.EventLoop.{
  Outside, count_line, refresh, deliver_lines, read_event, write_event, finish_event, write_phase,
  handle_client_event, event_error_message, close_each,
}

module _ ⦃em : EventManager⦄ where
  -- What a property has to survive beside the changes of the handlers for the event loop to keep it.
  pub record IsLoopInvariant (may_connect : World em → ℕ → Type 0) (P : World em → Type 0)
      : Type 0 where
    pub inv : IsInvariant may_connect P
    pub drops : (w : World em) (fd : ℕ) (reason : Str) → P w → P (drop_client w fd reason)
    pub refreshes : (w : World em) (fd : ℕ) → P w → P (refresh w fd).0
    pub reads :
        (w : World em) (fd : ℕ) (c : Connection) (results : List Recv)
        → find_connection w fd ≡ some c
        → P w
        → P (modify_connection fd (λ _. (read_available results c).0) w)
    pub flushes :
        (w : World em) (fd : ℕ) (c : Connection) (results : List Sent)
        → find_connection w fd ≡ some c
        → P w
        → P (modify_connection fd (λ _. (flush_pending results c).0.0) w)
    pub counts_line : (w : World em) → P w → P (count_line w)
    pub finds :
        (w : World em) (fd : ℕ) (c : Connection)
        → find_connection w fd ≡ some c
        → P w
        → may_connect (count_line w) c.fd

module _ ⦃em : EventManager⦄ {M : World em → ℕ → Type 0} {P : World em → Type 0}
    (rules : IsLoopInvariant M P) where
  deliver_lines-keeps :
      (w : World em) (fd : ℕ) (lines : List Str) (now : MonotonicTime)
      → P w
      → P (deliver_lines w fd lines now).0
  unfolding deliver_lines
  deliver_lines-keeps w fd [] now h = h
  deliver_lines-keeps w fd (line ∷ lines) now h = elim (Option-cases (find_connection w fd)) [
    | inl e ↦ rw (e, deliver_lines) h
    | inr (c, e) ↦
        let w' = on_line (count_line w) c line now now in
        let h' : P w' =
          on_line-keeps rules.inv (count_line w) c line now now (rules.finds w fd c e h)
            (rules.counts_line w h) in
        elim (Option-cases (find_connection w' fd)) [
          | inl e' ↦ rw (e, e', deliver_lines) h'
          | inr (c', e') ↦
              rw (e, e', deliver_lines)
                (if-keeps₂ rules.inv.kept c'.close_requested (w', true)
                  (deliver_lines w' fd lines now) h' (deliver_lines-keeps w' fd lines now h'))
        ]
  ]

  finish_event-keeps : (w : World em) (fd : ℕ) (hangup : Bool) → P w → P (finish_event w fd hangup)
  unfolding finish_event
  finish_event-keeps w fd hangup h = elim (Option-cases (find_connection w fd)) [
    | inl e ↦ rw (e, finish_event) h
    | inr (c, e) ↦
        rw (e, finish_event)
          (if-keeps rules.inv.kept (hangup && not (wants_write c))
            (drop_client w fd (text "peer hangup")) (refresh w fd).0 (rules.drops w fd _ h)
            (rules.refreshes w fd h))
  ]

  read_event-keeps :
      (w : World em) (fd : ℕ) (r : Connection × ReadResult) (now : MonotonicTime)
      → P (modify_connection fd (λ _. r.0) w)
      → P (read_event w fd r now).0
  unfolding read_event close_client
  read_event-keeps w fd (c, result) now h =
      let w₁ = modify_connection fd (λ _. c) w in
      let d = deliver_lines w₁ fd result.lines now in
      let h₂ : P d.0 = deliver_lines-keeps w₁ fd result.lines now h in
      if-keeps₂ rules.inv.kept result.has_error _ _ (rules.drops w₁ fd _ h) (
        if-keeps₂ rules.inv.kept (not d.1) _ _ h₂ (
          if-keeps₂ rules.inv.kept result.peer_closed
            (modify_connection fd (request_close (text "peer closed connection")) d.0, true)
            (d.0, true) (rules.inv.kept.closes d.0 fd _ h₂) h₂))

  write_event-keeps :
      (w : World em) (fd : ℕ) (r : Connection × WriteResult)
      → P (modify_connection fd (λ _. r.0) w)
      → P (write_event w fd r).0
  unfolding write_event
  write_event-keeps w fd (c, result) h =
      let w₁ = modify_connection fd (λ _. c) w in
      if-keeps₂ rules.inv.kept result.has_error (drop_client w₁ fd result.error, false) (w₁, true)
        (rules.drops w₁ fd _ h) h

  write_phase-keeps :
      (w : World em) (event : Event) (outside : Outside) → P w → P (write_phase w event outside)
  unfolding write_phase
  write_phase-keeps w event outside h = elim (Option-cases (find_connection w event.fd)) [
    | inl e ↦ rw (e, write_phase) h
    | inr (c, e) ↦
        let v = write_event w event.fd (flush_pending outside.sending c).0 in
        let h' : P v.0 =
          write_event-keeps w event.fd _ (rules.flushes w event.fd c outside.sending e h) in
        rw (e, write_phase)
          (if-keeps rules.inv.kept (has_interest event.interests write_interest && wants_write c)
            (if v.1 then finish_event v.0 event.fd event.hangup else v.0)
            (finish_event w event.fd event.hangup)
            (if-keeps rules.inv.kept v.1 (finish_event v.0 event.fd event.hangup) v.0
              (finish_event-keeps v.0 event.fd event.hangup h') h')
            (finish_event-keeps w event.fd event.hangup h))
  ]

  pub handle_client_event-keeps :
      (strerror : ℕ → Str) (w : World em) (event : Event) (outside : Outside)
      → P w
      → P (handle_client_event strerror w event outside)
  unfolding handle_client_event
  handle_client_event-keeps strerror w event outside h =
      elim (Option-cases (find_connection w event.fd)) [
        | inl e ↦ rw (e, handle_client_event) h
        | inr (c, e) ↦
            let v = read_event w event.fd (read_available outside.receiving c) outside.clock in
            let h' : P v.0 =
              read_event-keeps w event.fd (read_available outside.receiving c) outside.clock
                (rules.reads w event.fd c outside.receiving e h) in
            rw (e, handle_client_event)
              (if-keeps rules.inv.kept event.error
                (drop_client w event.fd (event_error_message strerror event))
                (if has_interest event.interests read_interest && not c.close_requested
                  then (if v.1 then write_phase v.0 event outside else v.0)
                  else write_phase w event outside)
                (rules.drops w event.fd _ h)
                (if-keeps rules.inv.kept
                  (has_interest event.interests read_interest && not c.close_requested)
                  (if v.1 then write_phase v.0 event outside else v.0) (write_phase w event outside)
                  (if-keeps rules.inv.kept v.1 (write_phase v.0 event outside) v.0
                    (write_phase-keeps v.0 event outside h') h')
                  (write_phase-keeps w event outside h)))
      ]

  pub close_each-keeps : (w : World em) (ks : List ℕ) → P w → P (close_each w ks)
  unfolding close_each
  close_each-keeps w [] h = h
  close_each-keeps w (fd ∷ ks) h =
      close_each-keeps (drop_client w fd (text "server stopped")) ks (rules.drops w fd _ h)
