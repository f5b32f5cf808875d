-- ===== src/Backend/Kqueue/Filters.antt =====
-- What a change of one filter does to the kernel's filters, in src/KqueueEventManager.cpp.
use irc_relay_server.Prelude.{
  ℕ, ◌≡◌, ◌≢◌, refl, Bool, true, false, ◌&&◌, if◌then◌else◌, or_default, arith, Bool-cases, inl,
  inr, ==_iff, subst, ◌∙◌, &&-true,
}
use irc_relay_server.Prelude.{◌==◌ as nat_beq}
use irc_relay_server.Prelude.Map.{nat_key, find}
use irc_relay_server.Events.{EventInterest, read_interest, write_interest, has_interest}
use irc_relay_server.Backend.{Outcome, done, enoent, ebadf, failed, Watch}
use irc_relay_server.Backend.Kqueue.{
  Filter, evfilt_read, evfilt_write, evfilt_other, same_filter, Change, ev_add_enable, ev_delete,
  is_add, KqueueKernel, KqueueState, tolerated, apply_filter_change, update_filter_if_changed,
  remove_filter_if_watched,
}

-- Whether an interest asks for a filter.
abbrev pub wants_filter : EventInterest → Filter → Bool
wants_filter i evfilt_read = has_interest i read_interest
wants_filter i evfilt_write = has_interest i write_interest
wants_filter i (evfilt_other n) = false

same_filter-eq : (f g : Filter) → same_filter f g ≡ true → f ≡ g
same_filter-eq evfilt_read g e = ground arith
same_filter-eq evfilt_write g e = ground arith
same_filter-eq (evfilt_other n) g e = ground arith

module _ ⦃k : KqueueKernel⦄ where
  abbrev pub kqueue_watch : KqueueState → Watch
  kqueue_watch s fd = or_default 0 (find fd s.interests)

  abbrev pub watches : KqueueState → ℕ → Filter → Bool
  watches s fd f = k.watching s.kernel fd f

  -- One filter has been set to `b` where the call has returned; nothing else has changed.
  pub record Moved (s : KqueueState) (fd : ℕ) (f : Filter) (b : Bool) (r : KqueueState × Bool)
      : Type 0 where
    pub cached : r.0.interests ≡ s.interests
    pub filters :
        (other : ℕ) (g : Filter)
        → watches r.0 other g
          ≡ (if r.1 && (nat_beq fd other && same_filter f g) then b else watches s other g)

  module _ (s : KqueueState) (fd : ℕ) (f : Filter) where
    unmoved-Moved :
        (b : Bool) (kernel' : k.Kernel)
        → ((other : ℕ) (g : Filter) → k.watching kernel' other g ≡ watches s other g)
        → Moved s fd f b (record s { kernel = kernel' }, false)
    unmoved-Moved b kernel' same = record { cached = refl; filters = same }

    -- The filter was as wanted already.
    settled-Moved :
        (b : Bool) (kernel' : k.Kernel)
        → watches s fd f ≡ b
        → ((other : ℕ) (g : Filter) → k.watching kernel' other g ≡ watches s other g)
        → Moved s fd f b (record s { kernel = kernel' }, true)
    settled-Moved b kernel' e same = record {
      cached = refl;
      filters = λ other g. elim (Bool-cases (nat_beq fd other && same_filter f g)) [
        | inl t ↦
            rw
              (
                t,
                same other g,
                ← (==_iff fd other).0 (&&-true _ _ t).0,
                ← same_filter-eq f g (&&-true _ _ t).1,
              )
              e
        | inr t ↦ rw t (same other g)
      ];
    }

    outcome-Moved :
        (c : Change) (ignore : Bool) (kernel' : k.Kernel) (o : Outcome)
        → (ignore && is_add c) ≡ false
        → (o ≡ done
            → (other : ℕ) (g : Filter)
            → k.watching kernel' other g
              ≡ (if nat_beq fd other && same_filter f g then is_add c else watches s other g))
        → (o ≢ done → (other : ℕ) (g : Filter) → k.watching kernel' other g ≡ watches s other g)
        → (c ≡ ev_delete → o ≡ enoent → watches s fd f ≡ false)
        → (c ≡ ev_delete → o ≡ ebadf → watches s fd f ≡ false)
        → Moved s fd f (is_add c) (record s { kernel = kernel' }, tolerated ignore o)
    outcome-Moved c ignore kernel' done e changed same gone gone' = record {
      cached = refl;
      filters = changed refl;
    }
    outcome-Moved c ignore kernel' (failed code) e changed same gone gone' =
        unmoved-Moved (is_add c) kernel' (same (λ p. cc))
    outcome-Moved c false kernel' enoent e changed same gone gone' =
        unmoved-Moved (is_add c) kernel' (same (λ p. cc))
    outcome-Moved c false kernel' ebadf e changed same gone gone' =
        unmoved-Moved (is_add c) kernel' (same (λ p. cc))
    outcome-Moved ev_add_enable true kernel' o e changed same gone gone' = absurd (cc e)
    outcome-Moved ev_delete true kernel' enoent e changed same gone gone' =
        settled-Moved false kernel' (gone refl refl) (same (λ p. cc))
    outcome-Moved ev_delete true kernel' ebadf e changed same gone gone' =
        settled-Moved false kernel' (gone' refl refl) (same (λ p. cc))

    apply_filter_change-Moved :
        (c : Change) (ignore : Bool)
        → (ignore && is_add c) ≡ false
        → Moved s fd f (is_add c) (apply_filter_change s fd f c ignore)
    unfolding apply_filter_change
    apply_filter_change-Moved c ignore e =
        outcome-Moved c ignore (k.kevent s.kernel fd f c).0 (k.kevent s.kernel fd f c).1 e
          (λ d other g. k.kevent_changes s.kernel fd f c other g d)
          (λ d other g. k.kevent_fails s.kernel fd f c other g d)
          (λ p q.
            k.kevent_enoent s.kernel fd f
              (subst (λ (c' : Change). (k.kevent s.kernel fd f c').1 ≡ enoent) p q))
          (λ p q.
            k.kevent_ebadf s.kernel fd f
              (subst (λ (c' : Change). (k.kevent s.kernel fd f c').1 ≡ ebadf) p q))

    pub update_filter_if_changed-Moved :
        (old new interest : EventInterest)
        → watches s fd f ≡ has_interest old interest
        → Moved s fd f
            (has_interest new interest)
            (update_filter_if_changed s fd old new interest f)
    unfolding update_filter_if_changed
    update_filter_if_changed-Moved old new interest e =
        elim (Bool-cases (has_interest new interest)) [
          | inl n ↦ elim (Bool-cases (has_interest old interest)) [
            | inl o ↦
                rw (n, o, update_filter_if_changed)
                  (settled-Moved true s.kernel (e ∙ o) (λ other g. refl))
            | inr o ↦
                rw (n, o, update_filter_if_changed)
                  (apply_filter_change-Moved ev_add_enable false refl)
          ]
          | inr n ↦ elim (Bool-cases (has_interest old interest)) [
            | inl o ↦
                rw (n, o, update_filter_if_changed) (apply_filter_change-Moved ev_delete false refl)
            | inr o ↦
                rw (n, o, update_filter_if_changed)
                  (settled-Moved false s.kernel (e ∙ o) (λ other g. refl))
          ]
        ]

    pub remove_filter_if_watched-Moved :
        (old interest : EventInterest)
        → watches s fd f ≡ has_interest old interest
        → Moved s fd f false (remove_filter_if_watched s fd old interest f)
    unfolding remove_filter_if_watched
    remove_filter_if_watched-Moved old interest e = elim (Bool-cases (has_interest old interest)) [
      | inl o ↦ rw (o, remove_filter_if_watched) (apply_filter_change-Moved ev_delete true refl)
      | inr o ↦
          rw (o, remove_filter_if_watched) (settled-Moved false s.kernel (e ∙ o) (λ other g. refl))
    ]
