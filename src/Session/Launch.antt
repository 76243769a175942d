-- ===== src/Session/Launch.antt =====
-- The launch lines, reset commands, briefs and worktree bases of packages/cyberlegion/src/session.ts.
use Prim.Native.Char.{code}
use cyberlegion.Prelude.{
  String, Bool, true, false, not, ◌&&◌, ◌||◌, ◌==◌, opt_is, if◌then◌else◌, Option, none, some, List,
  ◌<>◌, ◌≡◌, refl,
}
use cyberlegion.Prelude.Text.{is_space}
use cyberlegion.Exec.{Result, ok, err, no_honest_reset, no_reset_command}
use cyberlegion.Hub.Types.{Harness}
use cyberlegion.Identity.Presence.{nonempty}
use cyberlegion.Session.Quote.{shell_quote, quoted_args}

-- LAUNCH_MAP
abbrev pub launch_map : Harness → String
launch_map Harness.claude = "claude"
launch_map Harness.cursor = "cursor-agent"
launch_map Harness.codex = "codex"

-- RESET_MAP
abbrev reset_map : String → Option String
reset_map harness =
    if harness == "claude" || harness == "codex" || harness == "copilot"
    then some "/clear"
    else if harness == "cursor"
    then some "/new-chat"
    else none

-- FALSE_FRIEND_HARNESSES
abbrev is_false_friend : String → Bool
is_false_friend harness = harness == "gemini"

unfoldable pub reset_command_for : String → Result String
reset_command_for harness = elim (reset_map harness) [
  | some command ↦ ok command
  | none ↦ if is_false_friend harness then err no_honest_reset else err no_reset_command
]

-- `launch.split(/\s+/)[0]`
first_piece : String → String
first_piece String.[] = ""
first_piece (String.◌∷◌ c s) =
    let rest = first_piece s in if is_space (code c) then "" else String.◌∷◌ c rest

-- RESUME_MAP
abbrev resume_map : Harness → Option String
resume_map Harness.claude = some "--resume "
resume_map Harness.codex = some "resume "
resume_map Harness.cursor = none

resumed : String → Option String → String → Option String
resumed launch none conversation = none
resumed launch (some flag) conversation =
    some (launch <> (" " <> (flag <> shell_quote conversation)))

unfoldable pub resume_launch : Harness → String → String → Option String
unfolding first_piece resumed
resume_launch harness launch conversation =
    if first_piece launch == launch_map harness
    then resumed launch (resume_map harness) conversation
    else none

-- The unit's shim, in its data directory.
abbrev pub shim_dir : String → String
shim_dir data_dir = data_dir <> "/bin"

abbrev pub shim_path : String → String
shim_path data_dir = data_dir <> "/bin/cyberlegion"

unfoldable pub shim_text : List String → String
shim_text self = "#!/bin/sh\nexec " <> (quoted_args self <> " \"$@\"\n")

shim_env_prefix : String → String
shim_env_prefix data_dir =
    "PATH="
    <> (shell_quote (shim_dir data_dir)
        <> (":\"$PATH\" CYBERLEGION_CLI=" <> (shell_quote (shim_path data_dir) <> " ")))

-- `mux` is the name of the adapter.
mux_env_prefix : String → String
mux_env_prefix mux =
    if mux == "tmux"
    then "CYBER_MUX=tmux CYBER_MUX_PANE=$TMUX_PANE "
    else if mux == "herdr"
    then "CYBER_MUX=herdr "
    else ""

pub record LaunchContext : Type 0 where
  -- the hub's root, the unit's data directory, and whether the caller's own invocation is known
  pub root : String
  pub data_dir : String
  pub has_self : Bool
  pub mux : String

pub record LaunchOptions : Type 0 where
  pub bind_self : Bool
  pub fallback : Option String

bind_step : LaunchContext → String → LaunchOptions → String
bind_step c id o =
    if c.has_self && o.bind_self
    then shell_quote (shim_path c.data_dir)
      <> (" unit rebind "
          <> (shell_quote id <> (" --space " <> (shell_quote c.root <> " >/dev/null 2>&1; "))))
    else ""

env_prefix : LaunchContext → String
unfolding shim_env_prefix mux_env_prefix
env_prefix c = (if c.has_self then shim_env_prefix c.data_dir else "") <> mux_env_prefix c.mux

fallback_part : LaunchContext → Option String → String
unfolding env_prefix
fallback_part c none = ""
fallback_part c (some launch) = " || " <> (env_prefix c <> launch)

-- The line alone: what the call writes besides, the shim, is an act of its callers, `spawn` and
-- `restart_unit`. An empty fallback is none.
unfoldable pub compose_launch_line : LaunchContext → String → String → LaunchOptions → String
unfolding bind_step env_prefix fallback_part
compose_launch_line c id launch o =
    bind_step c id o <> (env_prefix c <> (launch <> fallback_part c (nonempty o.fallback)))

unfoldable pub compose_brief : String → Option String → String
compose_brief brief instructions = elim (nonempty instructions) [
  | none ↦ brief
  | some text ↦ "## Agent instructions\n\n" <> (text <> ("\n\n## Brief\n\n" <> brief))
]

abbrev brief_text : Result String → Result (Option String)
brief_text (ok text) = ok (some text)
brief_text (err e) = err e

-- `stdin` and `read_file` are what the reads give.
unfoldable pub resolve_brief :
    Option String
    → Option String
    → Result String
    → (String → Result String)
    → Result (Option String)
resolve_brief file task stdin read_file = elim (nonempty file) [
  | some path ↦ brief_text (read_file path)
  | none ↦ if opt_is task "-" then brief_text stdin else ok (nonempty task)
]

pub record SpawnBase : Type 0 where
  pub ref : String
  pub is_fallback : Bool

abbrev local_head : SpawnBase
local_head = record { ref = "HEAD"; is_fallback = true }

abbrev upstream : Option String → SpawnBase
upstream none = local_head
upstream (some head) = record { ref = head; is_fallback = false }

-- What git answers in the primary checkout: whether there is an origin, whether its fetch succeeds, and
-- what `origin/HEAD` is.
pub record Origin : Type 0 where
  pub has_remote : Bool
  pub fetches : Bool
  pub head : Option String

unfoldable pub resolve_spawn_base : Origin → Option String → SpawnBase
resolve_spawn_base origin base = elim (nonempty base) [
  | some ref ↦ record { ref = ref; is_fallback = false }
  | none ↦
      if not origin.has_remote
      then local_head
      else if not origin.fetches
      then local_head
      else upstream (nonempty origin.head)
]

claude_resumes :
    resume_launch Harness.claude "claude --model opus" "a'b"
    ≡ some "claude --model opus --resume 'a'\\''b'"
unfolding resume_launch shell_quote is_space
claude_resumes = refl
