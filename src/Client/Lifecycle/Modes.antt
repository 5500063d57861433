-- ===== src/Client/Lifecycle/Modes.antt =====
-- The modes of the terminal under `TerminalLifecycle` of src/client/lifecycle.rs.
use rumsh.Prelude.{ℕ, Bool, true, false, List, [], ◌∷◌, Result, ok, err, ◌≡◌, refl, sym, ◌∙◌, ap}
use rumsh.Prelude.Stateful.{M, resume, ok_of_resume}
use rumsh.Client.Lifecycle.{
  LifecycleBackend, with_backend, size_read, suspend, clear_and_resize, drop_lifecycle,
}

-- What a user sees of the terminal, and the modes in which the process was stopped, the last first.
pub record Modes : Type 0 where
  pub raw : Bool
  pub alternate : Bool
  pub stops : List (Bool × Bool)

-- A backend whose calls work: each changes the mode that it is about, and no other.
pub record KeepsModes (lb : LifecycleBackend) : Type 0 where
  pub modes : lb.Backend → Modes
  pub enabled : (b : lb.Backend) → modes (lb.enable_raw_mode b).0 ≡ record (modes b) { raw = true }
  pub disabled :
      (b : lb.Backend) → modes (lb.disable_raw_mode b).0 ≡ record (modes b) { raw = false }
  pub entered :
      (b : lb.Backend)
      → modes (lb.enter_alternate_screen b).0 ≡ record (modes b) { alternate = true }
  pub left :
      (b : lb.Backend)
      → modes (lb.leave_alternate_screen b).0 ≡ record (modes b) { alternate = false }
  pub measured : (b : lb.Backend) → modes (lb.terminal_size b).0 ≡ modes b
  pub stopped :
      (b : lb.Backend)
      → modes (lb.send_sigtstp b).0
        ≡ record (modes b) { stops = ((modes b).raw, (modes b).alternate) ∷ (modes b).stops }

-- The process was never stopped while the terminal was in the modes of the program.
abbrev pub StoppedOutside : List (Bool × Bool) → Type 0
StoppedOutside [] = Unit {0}
StoppedOutside ((raw, alternate) ∷ stops) =
    (raw ≡ false) × (alternate ≡ false) × StoppedOutside stops

-- The program has the terminal.
pub record Held (m : Modes) : Type 0 where
  pub is_raw : m.raw ≡ true
  pub is_alternate : m.alternate ≡ true
  pub outside : StoppedOutside m.stops

module _ (lb : LifecycleBackend) (keeps : KeepsModes lb) where
  open lb use {Backend}
  open keeps use {modes, enabled, disabled, entered, left, measured, stopped}

  size_read-modes : (r : Backend × Result (ℕ × ℕ)) → modes (size_read lb r).0 ≡ modes r.0
  size_read-modes (b, ok size) = refl
  size_read-modes (b, err e) = refl

  pub suspend-Held : (b : Backend) → Held (modes b) → Held (modes (suspend lb b).0)
  unfolding suspend
  suspend-Held b held =
      let at_end : modes (suspend lb b).0
          ≡ record { raw = true; alternate = true; stops = (false, false) ∷ (modes b).stops } =
        rw (size_read-modes, measured, entered, enabled, stopped, left, disabled) refl in
      rw at_end
        (record { is_raw = refl; is_alternate = refl; outside = (refl, refl, held.outside) })

  pub clear_and_resize-Held :
      (b : Backend) → Held (modes b) → Held (modes (clear_and_resize lb b).0)
  unfolding clear_and_resize
  clear_and_resize-Held b held =
      let at_end : modes (clear_and_resize lb b).0 ≡ record (modes b) { alternate = true } =
        rw (size_read-modes, measured, entered) refl in
      rw at_end (record { is_raw = held.is_raw; is_alternate = refl; outside = held.outside })

  pub drop_lifecycle-modes :
      (b : Backend)
      → modes (drop_lifecycle lb b) ≡ record (modes b) { raw = false; alternate = false }
  unfolding drop_lifecycle
  drop_lifecycle-modes b = rw (disabled, left) refl

  pub with_backend-Held :
      (b b' : Backend) (size : ℕ × ℕ)
      → StoppedOutside (modes b).stops
      → with_backend lb b ≡ (b', ok size)
      → Held (modes b')
  unfolding with_backend
  with_backend-Held b b' size outside returns =
      let (u, e1, rest) = ok_of_resume (lb.enable_raw_mode b) _ b' size returns in
      let (v, e2, last) =
        ok_of_resume (lb.enter_alternate_screen (lb.enable_raw_mode b).0) _ b' size rest in
      let at_end : modes b' ≡ record (modes b) { raw = true; alternate = true } =
        ap (λ r. modes r.0) (sym last) ∙ rw (measured, entered, enabled) refl in
      rw at_end (record { is_raw = refl; is_alternate = refl; outside = outside })

  resume-stops :
      {A B : Type 0} (r : Backend × Result A) (next : A → M Backend B)
      → StoppedOutside (modes r.0).stops
      → ((a : A) (b : Backend)
          → StoppedOutside (modes b).stops
          → StoppedOutside (modes (next a b).0).stops)
      → StoppedOutside (modes (resume r next).0).stops
  resume-stops (b, ok a) next outside step = step a b outside
  resume-stops (b, err e) next outside step = outside

  -- Also when it fails.
  pub with_backend-stops :
      (b : Backend)
      → StoppedOutside (modes b).stops
      → StoppedOutside (modes (with_backend lb b).0).stops
  unfolding with_backend
  with_backend-stops b outside =
      resume-stops (lb.enable_raw_mode b) _ (rw (enabled b) outside) (λ u c first.
        resume-stops (lb.enter_alternate_screen c) _ (rw (entered c) first)
          (λ v d second. rw (measured d) second))
