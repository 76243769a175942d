-- ===== src/Participants/Tests.antt =====
-- A sync of a small hub with a store in memory, and the properties of `syncParticipants` at it.
use cyberlegion.Prelude.{
  String, ◌==◌, Option, none, some, List, [], ◌∷◌, All, ◌≡◌, refl, sym, ap, ◌∙◌, Bool-cases, inl,
  inr, arith,
}
use cyberlegion.Prelude.Dict
use cyberlegion.Prelude.Dict.{Dict}
use cyberlegion.Prelude.Prefix.{after_prefix}
use cyberlegion.Exec.{ok}
use cyberlegion.Hub.Types.{AgentRecord, Kind, Status}
use cyberlegion.Hub.Sample.{unit_of}
use cyberlegion.Participants.Store.{Participant, ParticipantKind, ParticipantStatus}
use cyberlegion.Participants.Memory.{Entry, memory, memory_laws}
use cyberlegion.Participants.Synced.{InLine, sync_participants-InLine}
use cyberlegion.Participants.Again.{sync_participants_again}
use cyberlegion.Participants.{
  SyncResult, nothing, unit_key, units_of, units_from, mine_from, sync_participants, sync_as,
  sync_units, sync_unit, retire_all, retire_gone, runtime_registration,
}

abbrev hub_id : String
hub_id = "cyberlegion:hub/f0"

abbrev entry : String → ParticipantStatus → Entry
entry name status = record {
  kind = ParticipantKind.agent;
  name = name;
  status = status;
  registered_by = some hub_id;
}

-- A unit that has come back under a new handle, and one that is gone.
abbrev before : Dict Entry
before =
    ("cyberlegion:unit/u1", entry "old" ParticipantStatus.retired)
    ∷ ("cyberlegion:unit/u3", entry "u3" ParticipantStatus.live)
    ∷ []

abbrev agents : List AgentRecord
agents =
    unit_of "u1"
    ∷ unit_of "u2"
    ∷ (record (unit_of "boss") { kind = some Kind.standing })
    ∷ (record (unit_of "u4") { status = Status.exited })
    ∷ []

abbrev synced : SyncResult
synced = record { registered = "u1" ∷ "u2" ∷ []; retired = "u3" ∷ []; renamed = "u1" ∷ [] }

abbrev hub : Participant
hub = record {
  id = hub_id;
  key = some hub_id;
  kind = ParticipantKind.service;
  name = "cyberlegion";
  status = ParticipantStatus.live;
  registered_by = none;
}

owned :
    (m : Dict Entry) (k : String) (p : Participant)
    → All (λ e. e.1.registered_by ≡ some hub_id) m
    → memory.by_key m k ≡ some p
    → p.registered_by ≡ some hub_id
unfolding Dict.get
owned [] k p a e = absurd (ground (arith, e))
owned ((j, d) ∷ m) k p (own, a) e = elim (Bool-cases (j == k)) [
  | inl y ↦
      ap (λ (z : Option Participant). elim z [ none ↦ none | some q ↦ q.registered_by ])
        (sym (rw y at e))
      ∙ own
  | inr n ↦ owned m k p a (rw n at e)
]

All-own : All (λ e. e.1.registered_by ≡ some hub_id) before
All-own = (refl, (refl, tt))

sync_participants-InLine_example :
    InLine memory memory_laws hub_id
      (sync_participants memory "f0" agents before).1
      "u1"
      (Dict.get (units_of agents) "u1")
unfolding Dict.get Dict.put sync_participants sync_as sync_units sync_unit retire_all retire_gone
    mine_from units_from after_prefix
sync_participants-InLine_example =
    sync_participants-InLine memory memory_laws "f0" agents before
      (memory.register (runtime_registration "f0") before).1
      (sync_participants memory "f0" agents before).1 hub synced refl
      (λ i p e. owned before (unit_key i) p All-own e) refl "u1"

sync_participants_again_example :
    sync_participants memory "f0" agents (sync_participants memory "f0" agents before).1
    ≡ (ok nothing, (sync_participants memory "f0" agents before).1)
unfolding Dict.get Dict.put sync_participants sync_as sync_units sync_unit retire_all retire_gone
    mine_from units_from after_prefix
sync_participants_again_example =
    sync_participants_again memory memory_laws "f0" agents before
      (memory.register (runtime_registration "f0") before).1
      (sync_participants memory "f0" agents before).1 hub synced refl
      (λ i p e. owned before (unit_key i) p All-own e) refl
