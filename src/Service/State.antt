-- ===== src/Service/State.antt =====
-- What the transitions of packages/cyberlegion/src/service.ts share: the endpoint's record, the
-- view of a lease, loading the state under the lock, and the write of a lease.
pub mod Frame
use cyberlegion.Prelude.{
  String, Bool, true, false, ◌||◌, ltb, is_some, get_or, if◌then◌else◌, Option, none, some, ◌<>◌,
}
use cyberlegion.Exec.{Exec, pure, throw, reads, ◌>>=◌, ◌>>◌, no_service}
use cyberlegion.Hub.Types.{
  Hub, AgentRecord, ProjectRecord, ServiceLease, Reservation, LeaseState, Status, Kind,
}
use cyberlegion.Hub.{
  ensure_marker, put_agent, get_agent, put_service_lease, get_service_lease, find_pane_by_agent_id,
}
use cyberlegion.Project.{resolve_project}
use cyberlegion.Service.{
  ServiceContext, ServiceView, Health, Control, assert_service_name, service_endpoint_id,
  unit_is_live,
}

abbrev endpoint_record : ServiceContext → ProjectRecord → String → AgentRecord
endpoint_record ctx project name = record {
  id = service_endpoint_id project.id name;
  handle = name <> "@" <> project.name;
  harness = none;
  cwd = project.root;
  worktree = none;
  pane = none;
  pid = none;
  status = Status.active;
  created_at = ctx.now;
  last_seen = ctx.now;
  brief = none;
  launch = none;
  conversation = none;
  spawned_by = none;
  kind = some Kind.service;
  service = some (record { project = project.id; name = name });
  presence = none;
  home = none;
}

or_create : ServiceContext → ProjectRecord → String → Option AgentRecord → Exec Hub AgentRecord
or_create ctx project name (some existing) = pure existing
or_create ctx project name none = do
  ensure_marker
  put_agent (endpoint_record ctx project name)
  pure (endpoint_record ctx project name)

unfoldable pub ensure_endpoint : ServiceContext → ProjectRecord → String → Exec Hub AgentRecord
unfolding or_create
ensure_endpoint ctx project name = do
  existing ← reads (λ h. get_agent h (service_endpoint_id project.id name))
  or_create ctx project name existing

-- The state that a transition decides on.
pub record Loaded : Type 0 where
  pub project : ProjectRecord
  pub endpoint : AgentRecord
  pub lease : ServiceLease

abbrev is_expired : ServiceContext → Option Reservation → Bool
is_expired ctx none = false
is_expired ctx (some r) = ltb r.expires_at ctx.now

abbrev control_of : Hub → AgentRecord → Control
control_of h owner =
    if is_some owner.pane || is_some (find_pane_by_agent_id h owner.id)
    then Control.by_pane
    else Control.no_pane

abbrev bare_view : Loaded → Health → ServiceView
bare_view s health = record {
  project = s.project;
  endpoint = s.endpoint;
  lease = s.lease;
  owner = none;
  health = health;
  control = Control.no_pane;
}

owner_view : ServiceContext → Hub → Loaded → Option AgentRecord → ServiceView
owner_view ctx h s none = bare_view s Health.unhealthy
owner_view ctx h s (some owner) = record {
  project = s.project;
  endpoint = s.endpoint;
  lease = s.lease;
  owner = some owner;
  health = if unit_is_live ctx owner then Health.healthy else Health.unhealthy;
  control = control_of h owner;
}

-- An empty holder is falsy in the source; it is no safe id, so it finds nothing here too.
abbrev load_holder : Hub → Option String → Option AgentRecord
load_holder h none = none
load_holder h (some id) = get_agent h id

state_view : ServiceContext → Hub → Loaded → LeaseState → ServiceView
unfolding owner_view
state_view ctx h s LeaseState.vacant = bare_view s Health.vacant
state_view ctx h s LeaseState.reserved =
    bare_view s (if is_expired ctx s.lease.reservation then Health.expired else Health.starting)
state_view ctx h s LeaseState.active = owner_view ctx h s (load_holder h s.lease.holder)

unfoldable pub view : ServiceContext → Hub → Loaded → ServiceView
unfolding state_view
view ctx h s = state_view ctx h s s.lease.state

unfoldable pub vacant_lease : ServiceContext → String → String → ServiceLease
vacant_lease ctx project name = record {
  project = project;
  service = name;
  endpoint = service_endpoint_id project name;
  generation = 0;
  state = LeaseState.vacant;
  holder = none;
  reservation = none;
  updated_at = ctx.now;
}

found_or_create :
    ServiceContext
    → ProjectRecord
    → String
    → Bool
    → Option ServiceLease
    → Option AgentRecord
    → Exec Hub Loaded
found_or_create ctx project name create (some lease) (some endpoint) =
    pure (record { project = project; endpoint = endpoint; lease = lease })
found_or_create ctx project name false _ _ = throw no_service
found_or_create ctx project name true lease _ = do
  endpoint ← ensure_endpoint ctx project name
  pure (record {
    project = project;
    endpoint = endpoint;
    lease = get_or lease (vacant_lease ctx project.id name);
  })

unfoldable pub load : ServiceContext → String → String → Bool → Exec Hub Loaded
unfolding found_or_create
load ctx ref name create = do
  assert_service_name name
  project ← resolve_project ctx.context ref
  lease ← reads (λ h. get_service_lease h project.id name)
  endpoint ← reads (λ h. get_agent h (service_endpoint_id project.id name))
  found_or_create ctx project name create lease endpoint

unfoldable pub transition :
    {A : Type 0} → ServiceContext → String → String → Bool → (Loaded → Exec Hub A) → Exec Hub A
transition ctx ref name create body = do
  assert_service_name name
  project ← resolve_project ctx.context ref
  s ← load ctx project.id name create
  body s

unfoldable pub write : ServiceContext → ServiceLease → Exec Hub ServiceLease
write ctx lease = do
  let next = record lease { updated_at = ctx.now }
  put_service_lease next
  pure next

unfoldable pub resolve_service : ServiceContext → String → String → Exec Hub ServiceView
resolve_service ctx ref name = do s ← load ctx ref name false; reads (λ h. view ctx h s)
