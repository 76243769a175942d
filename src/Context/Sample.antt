-- ===== src/Context/Sample.antt =====
-- A context for tests: a machine with no repository, no multiplexer and no environment.
use cyberlegion.Prelude.{false, none, []}
use cyberlegion.Context.{Context}

abbrev pub sample : Context
sample = record {
  now = 0;
  random = λ i. "00";
  cwd = "/";
  checkout = record {
    resolve = λ p. p;
    is_directory = λ p. false;
    looks_like_path = λ p. false;
    common_dir = λ p. none;
    git_dir = λ p. none;
    top_level = λ p. none;
    dirname = λ p. p;
    basename = λ p. p;
    digest = λ p. p;
  };
  here = record { root = none; branch = none; primary_root = none };
  current_pane = none;
  agent_var = none;
  has_multiplexer = false;
  list_panes = λ m. [];
  pane_exists = λ m p. false;
  claude_code = false;
  has_cursor_var = false;
  has_codex_var = false;
  pane_command = none;
  tmux_window = λ p. none;
  tmux_session = none;
}
