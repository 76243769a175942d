-- ===== src/Runtime/Restart.antt =====
-- `restartUnit` of packages/cyberlegion/src/unit-runtime.ts: ending what still runs of a unit, opening a
-- new session for it and ringing that. Labels of workspaces are left out, and a harness name that only a
-- JavaScript object's inherited properties have counts as unknown.
pub mod Phases
pub mod Restarted
pub mod Refused
mod Tests
use cyberlegion.Prelude.{
  String, Bool, true, false, not, ◌||◌, opt_is, is_some, get_or, if◌then◌else◌, Option, none, some,
  List, [], ◌∷◌,
}
use cyberlegion.Exec.{
  Exec, Result, ok, err, pure, throw, asks, reads, writes, from_option, ◌>>=◌, ◌>>◌, no_runtime,
  own_session, not_launchable, cwd_gone, open_failed,
}
use cyberlegion.Hub.Types.{Hub, AgentRecord, Harness, Mux, Pane, Status}
use cyberlegion.Hub.{put_agent, put_pane_index}
use cyberlegion.Identity.Liveness.{is_stopped, kind_is_independent}
use cyberlegion.Identity.Resolve.{resolve_agent}
use cyberlegion.Identity.Presence.{resolve_self_id, nonempty}
use cyberlegion.Console.Doorbell.{
  Consoles, Desk, WakeOptions, WakeSpawnInput, WakeResult, Warning, wake_spawn,
}
use cyberlegion.Session.Launch.{
  launch_map, shim_path, resume_launch, compose_launch_line, LaunchContext,
}
use cyberlegion.Runtime.{RuntimeContext, StopResult, stop_runtime}

pub data Placement : Type 0 where
  workspace tab : Placement

-- A session that the multiplexer was asked to open.
pub record Opening : Type 0 where
  pub cwd : String
  pub line : String
  pub at : Placement

-- The hub and what was typed, and the sessions asked for and the paths of the shims written by
-- `composeLaunchLine`, the latest first.
pub record Floor : Type 0 where
  pub desk : Desk
  pub opened : List Opening
  pub shims : List String

pub record RestartContext : Type 0 where
  pub runtime : RuntimeContext
  pub exists : String → Bool
  -- whether an adapter is given or can be selected
  pub has_backend : Bool
  -- the adapter's multiplexer, `none` for one that a record cannot name
  pub adapter : Option Mux
  -- the pane of the new session; `none` where the adapter's call throws
  pub opens : Opening → Option String
  pub launch_context : String → LaunchContext
  pub consoles : Consoles
  pub wake : WakeOptions

pub record RestartOptions : Type 0 where
  pub no_wake : Bool
  pub fresh : Bool

pub record RestartResult : Type 0 where
  pub agent : AgentRecord
  pub previous_pane : Option String
  pub pane : String
  pub launch : String
  pub resumed : Bool
  pub rung : Bool
  pub warnings : List Warning

abbrev pub on_hub : {A : Type 0} → Exec Hub A → Exec Floor A
on_hub m f = ((m f.desk.hub).0, record f { desk = record f.desk { hub = (m f.desk.hub).1 } })

abbrev pub launch_of : AgentRecord → Harness → String
launch_of r harness = get_or r.launch (launch_map harness)

-- An empty conversation is none.
abbrev resume_in : Harness → String → Option String → Option String
resume_in harness launch none = none
resume_in harness launch (some conversation) = resume_launch harness launch conversation

abbrev pub resume_of : RestartOptions → AgentRecord → Harness → Option String
resume_of o r harness =
    if o.fresh then none else resume_in harness (launch_of r harness) (nonempty r.conversation)

abbrev line_of : LaunchContext → String → String → Option String → String
line_of c id launch none =
    compose_launch_line c id launch (record { bind_self = true; fallback = none })
line_of c id launch (some resume) =
    compose_launch_line c id resume (record { bind_self = true; fallback = some launch })

abbrev pub opening_of : RestartContext → RestartOptions → AgentRecord → Harness → Opening
opening_of c o r harness = record {
  cwd = r.cwd;
  line = line_of (c.launch_context r.id) r.id (launch_of r harness) (resume_of o r harness);
  at = if is_some r.worktree then workspace else tab;
}

abbrev pane_named : Option Mux → String → Option Pane
pane_named none id = none
pane_named (some mux) id = some (record { mux = mux; id = id; window = none; session = none })

abbrev pub restarted_record : RestartContext → AgentRecord → String → AgentRecord
restarted_record c r pane = record r {
  status = Status.active;
  pane = pane_named c.adapter pane;
  last_seen = c.runtime.context.now;
}

-- What still runs is ended as by `stopUnit`.
unfoldable pub end_running : RuntimeContext → AgentRecord → Exec Floor (AgentRecord × Option String)
end_running ctx r =
    if is_stopped r.status
    then pure (r, none)
    else (do s ← on_hub (stop_runtime ctx r); pure (s.agent, s.pane))

-- Where the caller's own invocation is known, making the launch line of `id` writes its shim.
abbrev pub shims_after : RestartContext → String → List String → List String
shims_after c id shims =
    if (c.launch_context id).has_self
    then shim_path (c.launch_context id).data_dir ∷ shims
    else shims

abbrev pub asked_floor : RestartContext → String → Opening → Floor → Floor
asked_floor c id opening f = record f {
  opened = opening ∷ f.opened;
  shims = shims_after c id f.shims;
}

unfoldable pub open_session : RestartContext → String → Opening → Exec Floor String
open_session c id opening =
    if c.has_backend
    then (do
      writes (asked_floor c id opening)
      asks (λ f. from_option open_failed (c.opens opening)))
    else throw open_failed

unfoldable pub bind_session : RestartContext → AgentRecord → String → Exec Floor (Unit {0})
bind_session c r pane = on_hub (do put_agent (restarted_record c r pane); put_pane_index pane r.id)

abbrev wake_input : RestartOptions → AgentRecord → Harness → String → WakeSpawnInput
wake_input o r harness pane = record {
  target = pane;
  brief_path = get_or r.brief "";
  no_wake = o.no_wake || not (is_some (nonempty r.brief));
  resumed = is_some (resume_of o r harness);
  harness = none;
}

-- The adapter is at hand.
unfoldable pub ring_session :
    RestartContext → RestartOptions → AgentRecord → Harness → String → Exec Floor WakeResult
ring_session c o r harness pane f =
    let w =
      wake_spawn (record c.consoles { has_adapter = true }) c.wake (wake_input o r harness pane)
        f.desk in
    (ok w.0, record f { desk = w.1 })

abbrev restart_result :
    RestartContext
    → RestartOptions
    → Harness
    → AgentRecord
    → Option String
    → String
    → WakeResult
    → RestartResult
restart_result c o harness r previous pane wake = record {
  agent = restarted_record c r pane;
  previous_pane = nonempty previous;
  pane = pane;
  launch = launch_of r harness;
  resumed = is_some (resume_of o r harness);
  rung = wake.rung;
  warnings = wake.warnings;
}

bind_and_ring :
    RestartContext
    → RestartOptions
    → Harness
    → AgentRecord
    → Option String
    → String
    → Exec Floor RestartResult
bind_and_ring c o harness r previous pane = do
  bind_session c r pane
  wake ← ring_session c o r harness pane
  pure (restart_result c o harness r previous pane wake)

pub restart_ended :
    RestartContext
    → RestartOptions
    → Harness
    → AgentRecord × Option String
    → Exec Floor RestartResult
unfolding bind_and_ring
restart_ended c o harness (r, previous) = do
  pane ← open_session c r.id (opening_of c o r harness)
  bind_and_ring c o harness r previous pane

restart_launchable :
    RestartContext → RestartOptions → AgentRecord → Option Harness → Exec Floor RestartResult
unfolding restart_ended
restart_launchable c o r none = throw not_launchable
restart_launchable c o r (some harness) =
    if c.exists r.cwd
    then (do ended ← end_running c.runtime r; restart_ended c o harness ended)
    else throw cwd_gone

restart_guarded :
    RestartContext → RestartOptions → AgentRecord → Option String → Exec Floor RestartResult
unfolding restart_launchable
restart_guarded c o r self =
    if kind_is_independent r.kind
    then throw no_runtime
    else if opt_is self r.id
    then throw own_session
    else restart_launchable c o r r.harness

unfoldable pub restart_unit : RestartContext → RestartOptions → String → Exec Floor RestartResult
unfolding restart_guarded
restart_unit c o ref = do
  r ← asks (λ f. resolve_agent f.desk.hub ref)
  self ← reads (λ f. resolve_self_id c.runtime.context f.desk.hub)
  restart_guarded c o r self
