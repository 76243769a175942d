-- ===== src/Identity/Register.antt =====
-- The registering half of packages/cyberlegion/src/identity.ts: a session's own record, and a
-- standing owner's.
pub mod Refresh
use cyberlegion.Prelude.{
  String, Bool, true, false, ◌==◌, if◌then◌else◌, Option, none, some, get_or, or_else, is_some,
  ◌<>◌,
}
use cyberlegion.Prelude.Chars.{includes, take_chars}
use cyberlegion.Exec.{
  Exec, Result, ok, err, pure, asks, reads, from_option, ◌>>=◌, ◌>>◌, unknown_harness, no_harness,
}
use cyberlegion.Hub.Types.{
  Hub, AgentRecord, Harness, Worktree, Pane, Mux, Status, Kind, StandingHome,
}
use cyberlegion.Hub.SafeId.{sanitize_pane}
use cyberlegion.Hub.{ensure_marker, get_agent, put_agent, put_pane_index}
use cyberlegion.Context.{Context, CurrentPane}
use cyberlegion.Identity.Presence.{resolve_self_id, nonempty}

abbrev pub harness_in : Option String → Option Harness
harness_in none = none
harness_in (some cmd) =
    if includes cmd "cursor"
    then some Harness.cursor
    else if includes cmd "codex"
    then some Harness.codex
    else if includes cmd "claude"
    then some Harness.claude
    else none

abbrev harness_named : String → Result (Option Harness)
harness_named name =
    if name == "claude"
    then ok (some Harness.claude)
    else if name == "cursor"
    then ok (some Harness.cursor)
    else if name == "codex"
    then ok (some Harness.codex)
    else err unknown_harness

abbrev harness_of_env : Context → Option Harness
harness_of_env ctx =
    if ctx.claude_code
    then some Harness.claude
    else if ctx.has_cursor_var
    then some Harness.cursor
    else if ctx.has_codex_var
    then some Harness.codex
    else harness_in ctx.pane_command

-- An empty `--harness` is falsy.
abbrev detect_from : Context → Option String → Result (Option Harness)
detect_from ctx none = ok (harness_of_env ctx)
detect_from ctx (some name) = harness_named name

unfoldable pub detect_harness : Context → Option String → Result (Option Harness)
detect_harness ctx explicit = detect_from ctx (nonempty explicit)

pub record StorablePane : Type 0 where
  pub mux : Mux
  pub pane : String

abbrev storable : Option CurrentPane → Option StorablePane
storable none = none
storable (some cur) = elim cur.mux [
  | none ↦ none
  | some m ↦ some (record { mux = m; pane = cur.pane })
]

-- A pane of a multiplexer that a record cannot name is no pane here.
unfoldable pub storable_pane : Context → Option StorablePane
storable_pane ctx = storable ctx.current_pane

abbrev locator : Context → StorablePane → Mux → Pane
locator ctx cur Mux.tmux = record {
  mux = Mux.tmux;
  id = cur.pane;
  window = ctx.tmux_window cur.pane;
  session = ctx.tmux_session;
}
locator ctx cur Mux.herdr = record { mux = Mux.herdr; id = cur.pane; window = none; session = none }

unfoldable pub pane_locator : Context → StorablePane → Pane
pane_locator ctx cur = locator ctx cur cur.mux

abbrev worktree_at : Context → Option String → Option Worktree
worktree_at ctx none = none
worktree_at ctx (some root) = some (record {
  root = root;
  branch = ctx.here.branch;
  primary_root = ctx.here.primary_root;
  lease = none;
})

unfoldable pub git_worktree : Context → Option Worktree
git_worktree ctx = worktree_at ctx (nonempty ctx.here.root)

abbrev filled : Worktree → Option Worktree → Worktree
filled w none = w
filled w (some here) =
    if here.root == w.root
    then elim here.primary_root [ none ↦ w | some root ↦ record w { primary_root = some root } ]
    else w

-- A worktree that lacks its primary root gets it, where it is still the same checkout.
unfoldable pub kept_worktree : Context → Worktree → Worktree
kept_worktree ctx w = if is_some w.primary_root then w else filled w (git_worktree ctx)

pub record RegisterInput : Type 0 where
  pub handle : Option String
  pub harness : Option String

abbrev pub of_existing : {A : Type 0} → (AgentRecord → A) → Option AgentRecord → Option A
of_existing f none = none
of_existing f (some r) = some (f r)

abbrev pub field_of : {A : Type 0} → (AgentRecord → Option A) → Option AgentRecord → Option A
field_of f none = none
field_of f (some r) = f r

abbrev registered_worktree : Context → Option Worktree → Option Worktree
registered_worktree ctx none = git_worktree ctx
registered_worktree ctx (some w) = some (kept_worktree ctx w)

abbrev pane_of : Context → Option StorablePane → Option Pane
pane_of ctx none = none
pane_of ctx (some cur) = some (pane_locator ctx cur)

-- The record that `register` writes. It has no `launch` and no `conversation`.
unfoldable pub registered :
    Context → RegisterInput → Harness → String → Option AgentRecord → AgentRecord
registered ctx input harness id existing = record {
  id = id;
  handle = get_or (or_else input.handle (of_existing (λ r. r.handle) existing)) (take_chars 6 id);
  harness = some harness;
  cwd = ctx.cwd;
  worktree = registered_worktree ctx (field_of (λ r. r.worktree) existing);
  pane = pane_of ctx (storable_pane ctx);
  pid = none;
  status = Status.active;
  created_at = get_or (of_existing (λ r. r.created_at) existing) ctx.now;
  last_seen = ctx.now;
  brief = nonempty (field_of (λ r. r.brief) existing);
  launch = none;
  conversation = none;
  spawned_by = nonempty (field_of (λ r. r.spawned_by) existing);
  kind = none;
  service = none;
  presence = none;
  home = none;
}

abbrev existing_of : Hub → Option String → Option AgentRecord
existing_of h none = none
existing_of h (some id) = get_agent h id

abbrev index_pane : Option StorablePane → String → Exec Hub (Unit {0})
index_pane none id = pure tt
index_pane (some cur) id = put_pane_index cur.pane id

unfoldable pub register : Context → RegisterInput → Exec Hub AgentRecord
register ctx input = do
  ensure_marker
  detected ← asks (λ h. detect_harness ctx input.harness)
  harness ← asks (λ h. from_option no_harness detected)
  self ← reads (λ h. resolve_self_id ctx h)
  existing ← reads (λ h. existing_of h self)
  let id = get_or (or_else (of_existing (λ r. r.id) existing) self) (ctx.random 0)
  let r = registered ctx input harness id existing
  put_agent r
  index_pane (storable_pane ctx) id
  pure r

abbrev pub standing_id : String → String
standing_id handle = "standing-" <> sanitize_pane handle

-- What a registration says of the home: nothing, `null`, or a home.
pub data HomeInput : Type 0 where
  keep drop : HomeInput
  set : StandingHome → HomeInput

abbrev home_of : HomeInput → Option AgentRecord → Option StandingHome
home_of HomeInput.keep existing = field_of (λ r. r.home) existing
home_of HomeInput.drop existing = none
home_of (HomeInput.set home) existing = some home

unfoldable pub standing_record : Context → String → HomeInput → Option AgentRecord → AgentRecord
standing_record ctx handle home existing = record {
  id = standing_id handle;
  handle = handle;
  harness = none;
  cwd = ctx.cwd;
  worktree = none;
  pane = none;
  pid = none;
  status = Status.active;
  created_at = get_or (of_existing (λ r. r.created_at) existing) ctx.now;
  last_seen = ctx.now;
  brief = none;
  launch = none;
  conversation = none;
  spawned_by = none;
  kind = some Kind.standing;
  service = none;
  presence = field_of (λ r. r.presence) existing;
  home = home_of home existing;
}

-- `registerStanding`, its `writeStanding` under the owner's presence lock
unfoldable pub register_standing : Context → String → HomeInput → Exec Hub AgentRecord
register_standing ctx handle home = do
  ensure_marker
  existing ← reads (λ h. get_agent h (standing_id handle))
  let r = standing_record ctx handle home existing
  put_agent r
  pure r
