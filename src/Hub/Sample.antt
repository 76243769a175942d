-- ===== src/Hub/Sample.antt =====
-- A unit and a hub for tests: an active unit of a session, and a hub that holds given units only.
use cyberlegion.Prelude.{String, true, none, List, [], map}
use cyberlegion.Hub.Types.{Hub, AgentRecord, Status}

abbrev pub unit_of : String → AgentRecord
unit_of id = record {
  id = id;
  handle = id;
  harness = none;
  cwd = "/app";
  worktree = none;
  pane = none;
  pid = none;
  status = Status.active;
  created_at = 1;
  last_seen = 1;
  brief = none;
  launch = none;
  conversation = none;
  spawned_by = none;
  kind = none;
  service = none;
  presence = none;
  home = none;
}

abbrev pub hub_of : List AgentRecord → Hub
hub_of units = record {
  marker = true;
  agents = map (λ u. (u.id, u)) units;
  projects = [];
  leases = [];
  mailboxes = [];
  panes = [];
  briefs = [];
  main_pane = none;
}
