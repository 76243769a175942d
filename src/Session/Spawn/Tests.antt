-- ===== src/Session/Spawn/Tests.antt =====
-- Spawns in a small hub, and the properties of `spawn` at them.
use cyberlegion.Prelude.{true, false, none, some, [], ◌∷◌, ◌≡◌, refl}
use cyberlegion.Exec.{ok, open_failed}
use cyberlegion.Hub.Types.{Harness, Mux}
use cyberlegion.Hub.SafeId.{is_safe_id}
use cyberlegion.Hub.Sample.{unit_of, hub_of}
use cyberlegion.Hub.{put_agent, put_pane_index, write_brief, ensure_marker}
use cyberlegion.Context.Sample.{sample}
use cyberlegion.Identity.Presence.{resolve_self_id}
use cyberlegion.Session.Launch.{resolve_brief, resolve_spawn_base}
use cyberlegion.Session.Spawn.{
  SpawnContext, SpawnInput, Yard, Placed, spawn, spawn_placed, spawn_result, record_spawned,
}
use cyberlegion.Session.Spawn.Refused.{spawn-Spared}
use cyberlegion.Session.Spawn.Spawned.{spawn-Spawned, Spawned}

abbrev given : SpawnContext
given = record {
  context = record sample { random = λ n. "ab12cd34" };
  launch_context =
      λ id. record { root = "/hub"; data_dir = "/data"; has_self = false; mux = "tmux" };
  brief_path = λ id. "/hub/brief.md";
  has_backend = true;
  adapter = some Mux.tmux;
  binds_worktrees = false;
  stdin = ok "";
  read_file = λ p. ok "";
  exists = λ p. true;
  resolve = λ p. p;
  primary_at = λ p. some "/app";
  primary_here = some "/app";
  is_primary = λ root primary. false;
  origin_of = λ p. record { has_remote = true; fetches = true; head = some "origin/main" };
  acquire = λ primary branch base.
      some (record { root = "/app.worktrees/app-1"; lease_id = "l1"; reused = true });
  git_creates = λ p. true;
  creates_in_workspace = λ p. none;
  opens_in_workspace = λ p. none;
  open_pane = λ cwd at. some "%7";
}

abbrev input : SpawnInput
input = record {
  harness = some Harness.claude;
  task = some "fix it";
  brief_file = none;
  handle = some "fixer";
  command = none;
  brief_instructions = none;
  branch = none;
  worktree_path = none;
  cwd = none;
  repo = none;
  base = none;
  at = none;
  cwd_own_repo = false;
}

abbrev yard : Yard
yard = record { hub = hub_of (unit_of "u1" ∷ []); acts = [] }

abbrev placed : Placed
placed = record {
  cwd = "/app.worktrees/app-1";
  worktree = some (record {
    root = "/app.worktrees/app-1";
    branch = some "cyberlegion/unit-ab12cd34";
    primary_root = some "/app";
    lease = some (record { lease_id = "l1"; holder = "cyberlegion:ab12cd34" });
  });
  base = some (record { ref = "origin/main"; is_fallback = false });
  reused = some true;
  pane = "%7";
}

spawn-Spawned_example :
    Spawned given input
      (record (yard.hub) { marker = true })
      (spawn_result given input Harness.claude placed none)
      (spawn given input yard).1.hub
unfolding spawn ensure_marker spawn_placed record_spawned resolve_brief resolve_spawn_base put_agent
    put_pane_index write_brief is_safe_id resolve_self_id
spawn-Spawned_example =
    spawn-Spawned given input yard (spawn given input yard).1
      (spawn_result given input Harness.claude placed none) refl

-- No pane opens in the leased worktree.
abbrev full : SpawnContext
full = record given { open_pane = λ cwd at. none }

spawn-Spared_example : (spawn full input yard).1.hub ≡ record (yard.hub) { marker = true }
unfolding spawn ensure_marker spawn_placed record_spawned resolve_brief resolve_spawn_base
    is_safe_id
spawn-Spared_example = spawn-Spared full input refl yard (spawn full input yard).1 open_failed refl
