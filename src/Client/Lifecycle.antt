-- ===== src/Client/Lifecycle.antt =====
-- src/client/lifecycle.rs: `TerminalLifecycle` over the trait `LifecycleBackend`, which stands for the
-- terminal and the process.
pub mod Modes
use rumsh.Prelude.{ℕ, Option, none, some, Result, ok, err}
use rumsh.Prelude.Stateful.{M, ◌>>=◌, ◌>>◌}

pub record LifecycleBackend : Type 1 where
  pub Backend : Type 0
  pub enable_raw_mode : M Backend (Unit {0})
  pub disable_raw_mode : M Backend (Unit {0})
  pub enter_alternate_screen : M Backend (Unit {0})
  pub leave_alternate_screen : M Backend (Unit {0})
  pub terminal_size : M Backend (ℕ × ℕ)
  pub send_sigtstp : M Backend (Unit {0})

module _ (lb : LifecycleBackend) where
  open lb use {
    Backend, enable_raw_mode, disable_raw_mode, enter_alternate_screen, leave_alternate_screen,
    terminal_size, send_sigtstp,
  }

  -- The size of the terminal.
  unfoldable pub with_backend : M Backend (ℕ × ℕ)
  with_backend = do enable_raw_mode; enter_alternate_screen; terminal_size

  -- `let _ = call`.
  abbrev pub ignore : {A : Type 0} → M Backend A → Backend → Backend
  ignore call b = (call b).0

  -- `if let Ok(size)`: the size for the callback, if it is called.
  abbrev pub size_read : Backend × Result (ℕ × ℕ) → Backend × Option (ℕ × ℕ)
  size_read (b, ok size) = (b, some size)
  size_read (b, err e) = (b, none)

  unfoldable pub suspend : Backend → Backend × Option (ℕ × ℕ)
  suspend b =
      let left = ignore leave_alternate_screen (ignore disable_raw_mode b) in
      let resumed = ignore send_sigtstp left in
      size_read (terminal_size (ignore enter_alternate_screen (ignore enable_raw_mode resumed)))

  unfoldable pub clear_and_resize : Backend → Backend × Option (ℕ × ℕ)
  clear_and_resize b = size_read (terminal_size (ignore enter_alternate_screen b))

  -- `Drop::drop`.
  unfoldable pub drop_lifecycle : Backend → Backend
  drop_lifecycle b = ignore disable_raw_mode (ignore leave_alternate_screen b)
