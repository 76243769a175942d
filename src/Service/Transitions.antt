-- ===== src/Service/Transitions.antt =====
-- The ownership transitions of packages/cyberlegion/src/service.ts. The closure that each passes to
-- `transition` is a function of its own, `…_body`.
pub mod Steps
pub mod Outcomes
pub mod Exclusion
pub mod Transfer
pub mod Refusal
use cyberlegion.Prelude.{
  ℕ, ◌+◌, String, Bool, true, false, ◌&&◌, ◌||◌, nat_eq, opt_is, is_some, get_or, not,
  if◌then◌else◌, Option, none, some,
}
use cyberlegion.Exec.{Exec, pure, throw, reads, ◌>>=◌, ◌>>◌, stale, unknown_unit, unit_not_live}
use cyberlegion.Hub.Types.{Hub, AgentRecord, ServiceLease, Reservation, LeaseState}
use cyberlegion.Identity.Presence.{nonempty}
use cyberlegion.Hub.{get_agent}
use cyberlegion.Project.{resolve_project}
use cyberlegion.Service.{
  ServiceContext, ServiceView, Health, AcquireResult, default_reservation_ttl_ms,
  assert_service_name, unit_is_live,
}
use cyberlegion.Service.State.{Loaded, view, load, transition, write}

pub record AcquireInput : Type 0 where
  pub by : Option String
  pub ttl_ms : Option ℕ
  -- the generation that a forced takeover names
  pub force : Option ℕ

abbrev pub reserved_lease : ServiceContext → AcquireInput → String → Loaded → ServiceLease
reserved_lease ctx input name s = record {
  project = s.project.id;
  service = name;
  endpoint = s.endpoint.id;
  generation = s.lease.generation + 1;
  state = LeaseState.reserved;
  holder = none;
  reservation = some (record {
    token = ctx.random 0;
    by = nonempty input.by;
    at = ctx.now;
    expires_at = ctx.now + get_or input.ttl_ms default_reservation_ttl_ms;
    forced = is_some input.force;
  });
  updated_at = ctx.now;
}

pub reserve : ServiceContext → AcquireInput → String → Loaded → Exec Hub AcquireResult
reserve ctx input name s = do
  next ← write ctx (reserved_lease ctx input name s)
  v ← reads (λ h. view ctx h (record s { lease = next }))
  pure (AcquireResult.reserved next v (ctx.random 0))

acquire_unforced :
    ServiceContext → AcquireInput → String → Loaded → ServiceView → Health → Exec Hub AcquireResult
unfolding reserve
acquire_unforced ctx input name s current Health.healthy =
    pure (AcquireResult.resolved s.lease current)
acquire_unforced ctx input name s current Health.starting =
    pure (AcquireResult.starting s.lease current)
acquire_unforced ctx input name s current _ = reserve ctx input name s

acquire_as :
    ServiceContext
    → AcquireInput
    → String
    → Loaded
    → ServiceView
    → Option ℕ
    → Exec Hub AcquireResult
unfolding reserve acquire_unforced
acquire_as ctx input name s current none = acquire_unforced ctx input name s current current.health
acquire_as ctx input name s current (some generation) =
    if nat_eq generation s.lease.generation then reserve ctx input name s else throw stale

unfoldable pub acquire_body :
    ServiceContext → AcquireInput → String → Loaded → Exec Hub AcquireResult
unfolding acquire_as
acquire_body ctx input name s = do
  current ← reads (λ h. view ctx h s)
  acquire_as ctx input name s current input.force

unfoldable pub acquire_service :
    ServiceContext → String → String → AcquireInput → Exec Hub AcquireResult
acquire_service ctx ref name input = transition ctx ref name true (acquire_body ctx input name)

check_unit : ServiceContext → Option AgentRecord → Exec Hub AgentRecord
check_unit ctx none = throw unknown_unit
check_unit ctx (some unit) = if unit_is_live ctx unit then pure unit else throw unit_not_live

unfoldable pub live_unit : ServiceContext → String → Exec Hub AgentRecord
unfolding check_unit
live_unit ctx id = do unit ← reads (λ h. get_agent h id); check_unit ctx unit

abbrev pub is_state : LeaseState → LeaseState → Bool
is_state LeaseState.vacant LeaseState.vacant = true
is_state LeaseState.reserved LeaseState.reserved = true
is_state LeaseState.active LeaseState.active = true
is_state _ _ = false

abbrev pub token_is : Option Reservation → String → Bool
token_is none token = false
token_is (some r) token = opt_is (some r.token) token

-- The lease that a transition writes, built field by field: no reservation is carried over.
abbrev pub settled : ServiceLease → LeaseState → Option String → ServiceLease
settled lease state holder = record {
  project = lease.project;
  service = lease.service;
  endpoint = lease.endpoint;
  generation = lease.generation;
  state = state;
  holder = holder;
  reservation = none;
  updated_at = lease.updated_at;
}

-- `write`, and the view of what was written
pub write_view : ServiceContext → Loaded → ServiceLease → Exec Hub ServiceView
write_view ctx s lease = do
  next ← write ctx lease
  reads (λ h. view ctx h (record s { lease = next }))

pub record BindInput : Type 0 where
  pub generation : ℕ
  pub token : String
  pub unit : String

unfoldable pub bind_body : ServiceContext → BindInput → Loaded → Exec Hub ServiceView
unfolding write_view
bind_body ctx input s =
    if not (is_state s.lease.state LeaseState.reserved)
      || not (nat_eq s.lease.generation input.generation)
      || not (token_is s.lease.reservation input.token)
    then throw stale
    else do
      unit ← live_unit ctx input.unit
      write_view ctx s (settled s.lease LeaseState.active (some input.unit))

unfoldable pub bind_service : ServiceContext → String → String → BindInput → Exec Hub ServiceView
bind_service ctx ref name input = transition ctx ref name false (bind_body ctx input)

pub record ReleaseInput : Type 0 where
  pub generation : ℕ
  pub token : Option String
  pub unit : Option String

abbrev opt_token_is : Option Reservation → Option String → Bool
opt_token_is r none = false
opt_token_is r (some token) = token_is r token

abbrev opt_holder_is : Option String → Option String → Bool
opt_holder_is holder none = false
opt_holder_is holder (some unit) = opt_is holder unit

unfoldable pub release_matches : ReleaseInput → ServiceLease → Bool
release_matches input lease =
    nat_eq lease.generation input.generation
    && ((is_state lease.state LeaseState.reserved && opt_token_is lease.reservation input.token)
        || (is_state lease.state LeaseState.active && opt_holder_is lease.holder input.unit))

unfoldable pub release_body : ServiceContext → ReleaseInput → Loaded → Exec Hub ServiceView
unfolding write_view
release_body ctx input s =
    if not (release_matches input s.lease)
    then throw stale
    else write_view ctx s (settled s.lease LeaseState.vacant none)

unfoldable pub release_service :
    ServiceContext → String → String → ReleaseInput → Exec Hub ServiceView
release_service ctx ref name input = transition ctx ref name false (release_body ctx input)

pub record HandoffInput : Type 0 where
  pub generation : ℕ
  pub from : String
  pub to : String

unfoldable pub handoff_body : ServiceContext → HandoffInput → Loaded → Exec Hub ServiceView
unfolding write_view
handoff_body ctx input s =
    if not (is_state s.lease.state LeaseState.active)
      || not (nat_eq s.lease.generation input.generation)
      || not (opt_is s.lease.holder input.from)
    then throw stale
    else do
      unit ← live_unit ctx input.to
      write_view ctx s
          (record s.lease { generation = s.lease.generation + 1; holder = some input.to })

unfoldable pub handoff_service :
    ServiceContext → String → String → HandoffInput → Exec Hub ServiceView
handoff_service ctx ref name input = transition ctx ref name false (handoff_body ctx input)

unfoldable pub owns : ServiceLease → String → ℕ → Bool
owns lease unit generation =
    is_state lease.state LeaseState.active
    && opt_is lease.holder unit
    && nat_eq lease.generation generation

unfoldable pub verify_body : ServiceContext → String → ℕ → Loaded → Exec Hub ServiceView
verify_body ctx unit generation s =
    if owns s.lease unit generation then reads (λ h. view ctx h s) else throw stale

unfoldable pub verify_ownership :
    ServiceContext → String → String → String → ℕ → Exec Hub ServiceView
verify_ownership ctx ref name unit generation = do
  s ← load ctx ref name false
  verify_body ctx unit generation s

-- `fn` runs under the service's lock, so nothing comes between the check and the act.
unfoldable pub with_ownership :
    {A : Type 0}
    → ServiceContext
    → String
    → String
    → String
    → ℕ
    → (ServiceView → Exec Hub A)
    → Exec Hub A
with_ownership ctx ref name unit generation fn = do
  assert_service_name name
  project ← resolve_project ctx.context ref
  v ← verify_ownership ctx project.id name unit generation
  fn v
