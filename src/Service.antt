-- ===== src/Service.antt =====
-- packages/cyberlegion/src/service.ts: who owns a project's service, and at which generation. Each
-- transition runs under the service's lock, so here it is one step on the hub. This file has the
-- types and the helpers; the transitions are in the children.
pub mod State
pub mod Transitions
pub mod Authority
pub mod History
pub mod Start
pub mod Tests
use Prim.Native.Char.{Char, code}
use Prim.Native.String
use cyberlegion.Prelude.{
  ℕ, ◌*◌, String, Bool, true, false, ◌&&◌, ◌||◌, leb, nat_eq, get_or, if◌then◌else◌, Option, ◌<>◌,
}
use cyberlegion.Exec.{Exec, pure, throw, invalid_service_name}
use cyberlegion.Hub.Types.{Hub, AgentRecord, ProjectRecord, ServiceLease}
use cyberlegion.Identity.Liveness.{session_live, is_exited}
use cyberlegion.Context.{Context}

-- `is_live` stands for the optional `isLive` of `ServiceContext`.
pub record ServiceContext : Type 0 where
  pub context : Context
  pub open context use *
  pub is_live : Option (AgentRecord → Bool)

pub data Health : Type 0 where
  vacant starting expired healthy unhealthy : Health

pub data Control : Type 0 where
  by_pane no_pane : Control

pub record ServiceView : Type 0 where
  pub project : ProjectRecord
  pub endpoint : AgentRecord
  pub lease : ServiceLease
  pub owner : Option AgentRecord
  pub health : Health
  pub control : Control

pub data AcquireResult : Type 0 where
  resolved starting : ServiceLease → ServiceView → AcquireResult
  reserved : ServiceLease → ServiceView → String → AcquireResult

abbrev pub default_reservation_ttl_ms : ℕ
default_reservation_ttl_ms = 5 * 60000

-- SERVICE_NAME: /^[a-z0-9][a-z0-9_-]{0,62}$/
abbrev is_name_head : ℕ → Bool
is_name_head n = (leb 97 n && leb n 122) || (leb 48 n && leb n 57)

is_name_tail : ℕ → String → Bool
is_name_tail left String.[] = true
is_name_tail left (String.◌∷◌ c s) = elim left [
  | ℕ.zero ↦ false
  | ℕ.suc more ↦
      (is_name_head (code c) || nat_eq (code c) 95 || nat_eq (code c) 45) && is_name_tail more s
]

unfoldable pub is_service_name : String → Bool
unfolding is_name_tail
is_service_name String.[] = false
is_service_name (String.◌∷◌ c s) = is_name_head (code c) && is_name_tail 62 s

unfoldable pub assert_service_name : String → Exec Hub (Unit {0})
assert_service_name name = if is_service_name name then pure tt else throw invalid_service_name

abbrev pub service_endpoint_id : String → String → String
service_endpoint_id project name = "svc-" <> project <> "-" <> name

unfoldable pub unit_is_live : ServiceContext → AgentRecord → Bool
unit_is_live ctx unit =
    if is_exited unit.status then false else get_or ctx.is_live (session_live ctx.context) unit
