-- ===== src/Context.antt =====
-- What a call of the program is given from outside the repository: the clock, random bytes, the
-- process's directory and environment, and the answers of git, the file system and the multiplexer
-- library (`cyber-mux`). One call sees one `Context`; a sequence of calls has one for each.
pub mod Sample
use cyberlegion.Prelude.{ℕ, String, Bool, Option, List}
use cyberlegion.Hub.Types.{Mux}

-- `LivePane` of cyber-mux; `none` is a multiplexer that a record cannot name (wezterm, zellij).
pub record LivePane : Type 0 where
  pub mux : Option Mux
  pub id : String
  pub harness : Option String
  pub cwd : Option String

pub record CurrentPane : Type 0 where
  pub mux : Option Mux
  pub pane : String

-- What git and the file system say of directories. The paths that it returns are real paths.
pub record Checkout : Type 0 where
  pub resolve : String → String
  pub is_directory : String → Bool
  pub looks_like_path : String → Bool
  pub common_dir : String → Option String
  pub git_dir : String → Option String
  pub top_level : String → Option String
  pub dirname : String → String
  pub basename : String → String
  -- the first 16 hex digits of a text's SHA-256
  pub digest : String → String

-- `git rev-parse` in the process's directory, and the primary checkout that cyber-mux finds.
pub record Here : Type 0 where
  pub root : Option String
  pub branch : Option String
  pub primary_root : Option String

pub record Context : Type 0 where
  pub now : ℕ
  -- the hex text of the call's n-th draw of random bytes
  pub random : ℕ → String
  pub cwd : String
  pub checkout : Checkout
  pub here : Here
  -- `currentPane(normalizeMuxEnv(env))`
  pub current_pane : Option CurrentPane
  -- `$CYBERLEGION_AGENT_ID`, `none` when it is unset or empty
  pub agent_var : Option String
  -- whether `probeMultiplexer` finds one
  pub has_multiplexer : Bool
  pub list_panes : Mux → List LivePane
  pub pane_exists : Mux → String → Bool
  -- the environment as `detectHarness` reads it, and the command of the tmux pane
  pub claude_code : Bool
  pub has_cursor_var : Bool
  pub has_codex_var : Bool
  pub pane_command : Option String
  -- the tmux window of a pane, and the first part of `$TMUX`
  pub tmux_window : String → Option String
  pub tmux_session : Option String
