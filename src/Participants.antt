-- ===== src/Participants.antt =====
-- packages/cyberlegion/src/participants.ts: bringing the participants of an optional outside store, cynapse,
-- in line with the hub's units. The store is given from outside; loading it is not modelled.
pub mod Store
pub mod Maps
pub mod Passes
pub mod Loops
pub mod Synced
pub mod Again
pub mod Memory
mod Tests
use cyberlegion.Prelude.{
  String, Bool, true, false, not, ◌||◌, ◌&&◌, ◌==◌, if◌then◌else◌, Option, none, some, List, [],
  ◌∷◌, ◌++◌, ◌<>◌, filter,
}
use cyberlegion.Prelude.Dict
use cyberlegion.Prelude.Dict.{Dict}
use cyberlegion.Prelude.Prefix.{after_prefix}
use cyberlegion.Exec.{Exec, pure, reads, writes, ◌>>=◌, ◌>>◌}
use cyberlegion.Hub.Types.{AgentRecord, Kind}
use cyberlegion.Participants.Store.{
  Cynapse, Participant, ParticipantStatus, Registration, ParticipantKind,
}
use cyberlegion.Identity.Liveness.{is_exited}

abbrev pub unit_prefix : String
unit_prefix = "cyberlegion:unit/"

-- `digest` is the first 16 digits of the SHA-256 of the hub's root.
abbrev pub runtime_key : String → String
runtime_key digest = "cyberlegion:hub/" <> digest

abbrev pub unit_key : String → String
unit_key id = unit_prefix <> id

-- An absent kind is a session's.
abbrev is_session : Option Kind → Bool
is_session none = true
is_session (some Kind.session) = true
is_session (some Kind.standing) = false
is_session (some Kind.service) = false

abbrev pub is_unit : AgentRecord → Bool
is_unit r = is_session r.kind

pub record SyncResult : Type 0 where
  pub registered : List String
  pub retired : List String
  pub renamed : List String

abbrev pub nothing : SyncResult
nothing = record { registered = []; retired = []; renamed = [] }

add_mine : Dict Participant → Participant → Option String → Dict Participant
add_mine m p none = m
add_mine m p (some key) = elim (after_prefix unit_prefix key) [
  | none ↦ m
  | some id ↦ Dict.put m id p
]

-- `mine`, by the unit's id
unfoldable pub mine_from : Dict Participant → List Participant → Dict Participant
unfolding add_mine
mine_from m [] = m
mine_from m (p ∷ ps) = mine_from (add_mine m p p.key) ps

-- `units`, by id
unfoldable pub units_from : Dict AgentRecord → List AgentRecord → Dict AgentRecord
units_from m [] = m
units_from m (r ∷ rs) = units_from (Dict.put m r.id r) rs

abbrev pub units_of : List AgentRecord → Dict AgentRecord
units_of agents = units_from [] (filter is_unit agents)

-- A status is live or retired.
abbrev pub is_live : ParticipantStatus → Bool
is_live ParticipantStatus.live = true
is_live ParticipantStatus.retired = false

abbrev pub noted : Bool → String → List String → List String
noted b id ids = if b then ids ++ (id ∷ []) else ids

abbrev pub has_live_unit : Option AgentRecord → Bool
has_live_unit none = false
has_live_unit (some r) = not (is_exited r.status)

module _ {X : Type 0} (c : Cynapse X) (runtime : String) where
  abbrev pub unit_registration : AgentRecord → Registration
  unit_registration r = record {
    key = unit_key r.id;
    kind = ParticipantKind.agent;
    name = r.handle;
    registered_by = some runtime;
  }

  -- The participant to go on with, and whether it was registered.
  abbrev pub registered_now : AgentRecord → Exec X (Participant × Bool)
  registered_now r = do p ← c.register (unit_registration r); pure (p, true)

  ensure_live : AgentRecord → Option Participant → Exec X (Participant × Bool)
  ensure_live r none = registered_now r
  ensure_live r (some p) = if is_live p.status then pure (p, false) else registered_now r

  rename_to : AgentRecord → Participant → Exec X Bool
  rename_to r p =
      if p.name == r.handle then pure false else (do c.rename p.id r.handle runtime; pure true)

  -- One unit of the first loop; an exited one is passed over.
  unfoldable pub sync_unit : AgentRecord → Option Participant → SyncResult → Exec X SyncResult
  unfolding ensure_live rename_to
  sync_unit r o result = if is_exited r.status then pure result else (do
    (p, is_new) ← ensure_live r o
    is_renamed ← rename_to r p
    pure (record result {
      registered = noted is_new r.id result.registered;
      renamed = noted is_renamed r.id result.renamed;
    }))

  unfoldable pub sync_units : Dict Participant → Dict AgentRecord → SyncResult → Exec X SyncResult
  sync_units mine [] result = pure result
  sync_units mine ((id, r) ∷ units) result = do
    next ← sync_unit r (Dict.get mine r.id) result
    sync_units mine units next

  -- One participant of the second loop.
  unfoldable pub retire_gone :
      String → Participant → Option AgentRecord → SyncResult → Exec X SyncResult
  retire_gone id p unit result =
      if not (is_live p.status)
      then pure result
      else if has_live_unit unit
      then pure result
      else (do
        c.retire p.id runtime
        pure (record result { retired = result.retired ++ (id ∷ []) }))

  unfoldable pub retire_all : Dict AgentRecord → Dict Participant → SyncResult → Exec X SyncResult
  retire_all units [] result = pure result
  retire_all units ((id, p) ∷ mine) result = do
    next ← retire_gone id p (Dict.get units id) result
    retire_all units mine next

  -- What follows the registration of the hub itself.
  unfoldable pub sync_as : List AgentRecord → Exec X SyncResult
  sync_as agents x =
      let mine = mine_from [] (c.participants runtime x) in
      (sync_units mine (units_of agents) nothing >>= retire_all (units_of agents) mine) x

abbrev pub runtime_registration : String → Registration
runtime_registration digest = record {
  key = runtime_key digest;
  kind = ParticipantKind.service;
  name = "cyberlegion";
  registered_by = none;
}

-- `agents` is the hub's `listAgents`.
unfoldable pub sync_participants :
    {X : Type 0} → Cynapse X → String → List AgentRecord → Exec X SyncResult
sync_participants c digest agents = do
  runtime ← c.register (runtime_registration digest)
  sync_as c runtime.id agents
