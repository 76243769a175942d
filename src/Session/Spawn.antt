-- ===== src/Session/Spawn.antt =====
-- `spawn` of packages/cyberlegion/src/session.ts: a worktree or a directory, a session in it, and the new
-- unit's record. What git, the worktree library and the multiplexer answer is given from outside; what
-- they are told to do is kept in order beside the hub, and so is the shim that `composeLaunchLine` writes
-- to a file of the unit's data directory, which is not among the files of the hub here. Labels of
-- workspaces are left out, and a harness name that only a JavaScript object's inherited properties have
-- counts as unknown.
pub mod Refused
pub mod Spawned
mod Tests
use cyberlegion.Prelude.{
  String, Bool, true, false, not, ◌&&◌, ◌||◌, ◌==◌, is_some, get_or, if◌then◌else◌, Option, none,
  some, List, [], ◌∷◌, ◌<>◌,
}
use cyberlegion.Prelude.Chars.{take_chars}
use cyberlegion.Exec.{
  Exec, Result, ok, err, pure, throw, asks, reads, writes, from_option, ◌>>=◌, ◌>>◌, no_multiplexer,
  unknown_harness, no_brief, cwd_combined, no_primary, cwd_missing, worktree_failed, open_failed,
  primary_checkout, not_a_repository,
}
use cyberlegion.Hub.Types.{Hub, AgentRecord, Harness, Kind, LeaseRef, Mux, Pane, Status, Worktree}
use cyberlegion.Hub.{ensure_marker, put_agent, put_pane_index, write_brief}
use cyberlegion.Context.{Context}
use cyberlegion.Identity.Presence.{resolve_self_id, nonempty}
use cyberlegion.Session.Launch.{
  launch_map, shim_path, compose_launch_line, compose_brief, resolve_brief, resolve_spawn_base,
  LaunchContext, Origin, SpawnBase,
}

-- What the machine is told to do; a session is opened by a launch line. A shim is written to its path.
pub data Act : Type 0 where
  leases creates_worktree stamps_marker writes_shim : String → Act
  creates_workspace opens_workspace : String → String → Act
  opens : String → String → String → Act

pub record Yard : Type 0 where
  pub hub : Hub
  pub acts : List Act

-- A worktree that the library leased: an idle one, or a new one.
pub record Leased : Type 0 where
  pub root : String
  pub lease_id : String
  pub reused : Bool

-- A worktree and its session, as the multiplexer made them at once.
pub record MadeWorkspace : Type 0 where
  pub root : String
  pub pane : String

pub record SpawnInput : Type 0 where
  pub harness : Option Harness
  pub task : Option String
  pub brief_file : Option String
  pub handle : Option String
  pub command : Option String
  pub brief_instructions : Option String
  pub branch : Option String
  pub worktree_path : Option String
  pub cwd : Option String
  pub repo : Option String
  pub base : Option String
  pub at : Option String
  pub cwd_own_repo : Bool

pub record SpawnContext : Type 0 where
  pub context : Context
  pub launch_context : String → LaunchContext
  pub brief_path : String → String
  pub has_backend : Bool
  -- the adapter's multiplexer, `none` for one that a record cannot name, and whether it has worktrees
  pub adapter : Option Mux
  pub binds_worktrees : Bool
  pub stdin : Result String
  pub read_file : String → Result String
  pub exists : String → Bool
  pub resolve : String → String
  -- the primary checkout of the repository at a directory, and of the caller's
  pub primary_at : String → Option String
  pub primary_here : Option String
  -- whether `assertDistinctFromPrimary` throws
  pub is_primary : String → String → Bool
  pub origin_of : String → Origin
  -- `none` where the call throws
  pub acquire : String → String → SpawnBase → Option Leased
  pub git_creates : String → Bool
  pub creates_in_workspace : String → Option MadeWorkspace
  pub opens_in_workspace : String → Option String
  pub open_pane : String → String → Option String

-- Where the unit works, and the pane of its session.
pub record Placed : Type 0 where
  pub cwd : String
  pub worktree : Option Worktree
  pub base : Option SpawnBase
  pub reused : Option Bool
  pub pane : String

pub record MadeWorktree : Type 0 where
  pub root : String
  pub lease : Option LeaseRef
  pub reused : Option Bool
  pub opened : Option String

pub record SpawnResult : Type 0 where
  pub agent : AgentRecord
  pub pane : String
  pub launch : String
  pub base : Option SpawnBase
  pub reused : Option Bool

abbrev pub acts_as : Act → Exec Yard (Unit {0})
acts_as act = writes (λ y. record y { acts = act ∷ y.acts })

abbrev pub on_hub : {A : Type 0} → Exec Hub A → Exec Yard A
on_hub m y = ((m y.hub).0, record y { hub = (m y.hub).1 })

module _ (c : SpawnContext) (input : SpawnInput) where
  abbrev pub spawn_id : String
  spawn_id = c.context.random 0

  abbrev pub branch_of : String
  branch_of = get_or input.branch ("cyberlegion/unit-" <> spawn_id)

  -- `--cwd` with a flag that creates a worktree
  abbrev pub combines_cwd : Bool
  combines_cwd =
      is_some (nonempty input.cwd)
      && (is_some (nonempty input.branch)
          || (is_some (nonempty input.worktree_path)
              || (is_some (nonempty input.repo) || is_some (nonempty input.base))))

  abbrev repo_primary : Option String → Result (Option String)
  repo_primary none = err not_a_repository
  repo_primary (some root) = ok (some root)

  abbrev primary_for_repo : Option String → Result (Option String)
  primary_for_repo (some repo) = repo_primary (c.primary_at repo)
  primary_for_repo none = repo_primary c.primary_here

  abbrev primary_for_cwd : Option String → Result (Option String)
  primary_for_cwd (some dir) =
      if input.cwd_own_repo then ok (c.primary_at dir) else primary_for_repo (nonempty input.repo)
  primary_for_cwd none = primary_for_repo (nonempty input.repo)

  abbrev pub primary_of : Result (Option String)
  primary_of = primary_for_cwd input.cwd

  -- The directory is no place for a unit.
  abbrev pub is_refused : String → Option String → Bool
  is_refused root none = false
  is_refused root (some primary) = c.is_primary root primary

  -- The side effect of `composeLaunchLine`: where the caller's own invocation is known, the shim is written
  -- each time the line is made.
  write_shim : Exec Yard (Unit {0})
  write_shim =
      let launch = c.launch_context spawn_id in
      if launch.has_self then acts_as (Act.writes_shim (shim_path launch.data_dir)) else pure tt

  open_at : String → String → String → Exec Yard String
  unfolding write_shim
  open_at cwd line at = do
    write_shim
    acts_as (Act.opens cwd line at)
    asks (λ y. from_option open_failed (c.open_pane cwd at))

  start_in_cwd : String → String → Exec Yard Placed
  unfolding open_at
  start_in_cwd root line = do
    pane ← open_at root line (get_or input.at "tab")
    pure (record { cwd = root; worktree = none; base = none; reused = none; pane = pane })

  place_cwd : String → Option String → String → Exec Yard Placed
  unfolding start_in_cwd
  place_cwd dir primary line =
      if not (c.exists dir)
      then throw cwd_missing
      else if is_refused (c.resolve dir) primary
      then throw primary_checkout
      else start_in_cwd (c.resolve dir) line

  abbrev placement : String
  placement = get_or input.at "workspace"

  abbrev is_atomic : Bool
  is_atomic = placement == "workspace" && c.binds_worktrees

  checked_workspace : String → MadeWorkspace → Exec Yard (Option String)
  checked_workspace primary made =
      if c.is_primary made.root primary then throw primary_checkout else pure (some made.pane)

  create_in_workspace : String → String → String → Exec Yard (Option String)
  unfolding checked_workspace write_shim
  create_in_workspace primary path line = do
    write_shim
    acts_as (Act.creates_workspace path line)
    made ← asks (λ y. from_option worktree_failed (c.creates_in_workspace path))
    checked_workspace primary made

  create_by_git : String → Exec Yard (Option String)
  create_by_git path = do
    acts_as (Act.creates_worktree path)
    if c.git_creates path then pure none else throw worktree_failed

  -- The creator; the pane of a session that it opened.
  create_at : String → String → String → Exec Yard (Option String)
  unfolding create_in_workspace create_by_git
  create_at primary path line =
      if is_atomic then create_in_workspace primary path line else create_by_git path

  abbrev holder_of : String
  holder_of = "cyberlegion:" <> spawn_id

  -- The library calls the creator where it has no idle worktree.
  create_leased : String → Leased → String → Exec Yard (Option String)
  unfolding create_at
  create_leased primary leased line =
      if leased.reused then pure none else create_at primary leased.root line

  make_worktree : String → SpawnBase → String → Option String → Exec Yard MadeWorktree
  unfolding create_at create_leased
  make_worktree primary base line (some path) = do
    opened ← create_at primary path line
    pure (record { root = c.resolve path; lease = none; reused = none; opened = opened })
  make_worktree primary base line none = do
    acts_as (Act.leases branch_of)
    leased ← asks (λ y. from_option worktree_failed (c.acquire primary branch_of base))
    opened ← create_leased primary leased line
    pure (record {
      root = leased.root;
      lease = some (record { lease_id = leased.lease_id; holder = holder_of });
      reused = some leased.reused;
      opened = opened;
    })

  session_in : MadeWorktree → String → Option String → Exec Yard String
  unfolding open_at write_shim
  session_in made line (some pane) = pure pane
  session_in made line none =
      if is_atomic
      then (do
        write_shim
        acts_as (Act.opens_workspace made.root line)
        asks (λ y. from_option open_failed (c.opens_in_workspace made.root)))
      else open_at made.root line placement

  abbrev pub placed_in : String → SpawnBase → MadeWorktree → String → Placed
  placed_in primary base made pane = record {
    cwd = made.root;
    worktree = some (record {
      root = made.root;
      branch = some branch_of;
      primary_root = some primary;
      lease = made.lease;
    });
    base = some base;
    reused = made.reused;
    pane = pane;
  }

  start_in_worktree : String → SpawnBase → String → MadeWorktree → Exec Yard Placed
  unfolding session_in
  start_in_worktree primary base line made = do
    acts_as (Act.stamps_marker made.root)
    pane ← session_in made line made.opened
    pure (placed_in primary base made pane)

  settle_worktree : String → SpawnBase → String → MadeWorktree → Exec Yard Placed
  unfolding start_in_worktree
  settle_worktree primary base line made =
      if c.is_primary made.root primary
      then throw primary_checkout
      else start_in_worktree primary base line made

  abbrev pub path_is_refused : String → Option String → Bool
  path_is_refused primary none = false
  path_is_refused primary (some path) = c.is_primary (c.resolve path) primary

  place_worktree : Option String → String → Exec Yard Placed
  unfolding make_worktree settle_worktree
  place_worktree none line = throw no_primary
  place_worktree (some primary) line =
      let base = resolve_spawn_base (c.origin_of primary) input.base in
      if path_is_refused primary (nonempty input.worktree_path) then throw primary_checkout else (do
        made ← make_worktree primary base line (nonempty input.worktree_path)
        settle_worktree primary base line made)

  pub place : Option String → Option String → String → Exec Yard Placed
  unfolding place_cwd place_worktree
  place (some dir) primary line = place_cwd dir primary line
  place none primary line = place_worktree primary line

  abbrev pub launch_for : Harness → String
  launch_for harness = get_or input.command (launch_map harness)

  abbrev pub line_for : Harness → String
  line_for harness =
      compose_launch_line (c.launch_context spawn_id) spawn_id (launch_for harness)
        (record { bind_self = false; fallback = none })

  abbrev pane_named : Option Mux → String → Option Pane
  pane_named none id = none
  pane_named (some mux) id = some (record { mux = mux; id = id; window = none; session = none })

  abbrev pub spawned_record : Harness → Placed → Option String → AgentRecord
  spawned_record harness placed self = record {
    id = spawn_id;
    handle = get_or input.handle (take_chars 6 spawn_id);
    harness = some harness;
    cwd = placed.cwd;
    worktree = placed.worktree;
    pane = pane_named c.adapter placed.pane;
    pid = none;
    status = Status.active;
    created_at = c.context.now;
    last_seen = c.context.now;
    brief = some (c.brief_path spawn_id);
    launch = some (launch_for harness);
    conversation = none;
    spawned_by = self;
    kind = none;
    service = none;
    presence = none;
    home = none;
  }

  abbrev pub spawn_result : Harness → Placed → Option String → SpawnResult
  spawn_result harness placed self = record {
    agent = spawned_record harness placed self;
    pane = placed.pane;
    launch = launch_for harness;
    base = placed.base;
    reused = placed.reused;
  }

  unfoldable pub record_spawned : AgentRecord → String → String → Exec Hub (Unit {0})
  record_spawned r pane brief = do
    put_agent r
    put_pane_index pane r.id
    write_brief r.id (compose_brief brief input.brief_instructions)

  unfoldable pub spawn_placed : Harness → String → Placed → Exec Yard SpawnResult
  spawn_placed harness brief placed = do
    self ← reads (λ y. nonempty (resolve_self_id c.context y.hub))
    on_hub (record_spawned (spawned_record harness placed self) placed.pane brief)
    pure (spawn_result harness placed self)

  spawn_briefed : Harness → Option String → Exec Yard SpawnResult
  unfolding place
  spawn_briefed harness none = throw no_brief
  spawn_briefed harness (some brief) = if combines_cwd then throw cwd_combined else (do
    primary ← asks (λ y. primary_of)
    placed ← place (nonempty input.cwd) primary (line_for harness)
    spawn_placed harness brief placed)

  spawn_as : Option Harness → Exec Yard SpawnResult
  unfolding spawn_briefed
  spawn_as none = throw unknown_harness
  spawn_as (some harness) = do
    brief ← asks (λ y. resolve_brief input.brief_file input.task c.stdin c.read_file)
    spawn_briefed harness brief

  unfoldable pub spawn : Exec Yard SpawnResult
  unfolding spawn_as
  spawn = do
    on_hub ensure_marker
    if c.has_backend then spawn_as input.harness else throw no_multiplexer
