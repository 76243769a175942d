-- ===== src/Participants/Store.antt =====
-- The cynapse store as packages/cyberlegion/src/participants.ts uses it: a third-party package, so its
-- operations are given from outside, with what the code relies on as laws.
use cyberlegion.Prelude.{String, ◌==◌, if◌then◌else◌, Option, none, some, List, In, ◌≡◌}
use cyberlegion.Exec.{Exec, ok}

pub data ParticipantStatus : Type 0 where
  live retired : ParticipantStatus

pub data ParticipantKind : Type 0 where
  agent service : ParticipantKind

pub record Participant : Type 0 where
  pub id : String
  pub key : Option String
  pub kind : ParticipantKind
  pub name : String
  pub status : ParticipantStatus
  pub registered_by : Option String

pub record Registration : Type 0 where
  pub key : String
  pub kind : ParticipantKind
  pub name : String
  pub registered_by : Option String

-- Its operations on a state `X`; each change may throw. `by_key` is the participant with a key.
pub record Cynapse (X : Type 0) : Type 0 where
  pub register : Registration → Exec X Participant
  pub participants : String → X → List Participant
  pub rename : String → String → String → Exec X (Unit {0})
  pub retire : String → String → Exec X (Unit {0})
  pub by_key : X → String → Option Participant

-- Registering finds or adds the participant of the key, live, and does nothing where it is live already;
-- a rename and a retirement change that participant alone.
pub record CynapseLaws {X : Type 0} (c : Cynapse X) : Type 0 where
  pub registers :
      (i : Registration) (x y : X) (p : Participant)
      → c.register i x ≡ (ok p, y)
      → (p.status ≡ ParticipantStatus.live)
        × ((j : String) → c.by_key y j ≡ (if i.key == j then some p else c.by_key x j))
  pub registers_new :
      (i : Registration) (x y : X) (p : Participant)
      → c.register i x ≡ (ok p, y)
      → c.by_key x i.key ≡ none
      → p.registered_by ≡ i.registered_by
  pub registers_old :
      (i : Registration) (x y : X) (p q : Participant)
      → c.register i x ≡ (ok p, y)
      → c.by_key x i.key ≡ some q
      → p.registered_by ≡ q.registered_by
  pub registers_live :
      (i : Registration) (x : X) (p : Participant)
      → c.by_key x i.key ≡ some p
      → p.status ≡ ParticipantStatus.live
      → c.register i x ≡ (ok p, x)
  pub renames :
      (k name by : String) (x y : X) (p : Participant)
      → c.by_key x k ≡ some p
      → c.rename p.id name by x ≡ (ok tt, y)
      → (j : String)
      → c.by_key y j ≡ (if k == j then some (record p { name = name }) else c.by_key x j)
  pub retires :
      (k by : String) (x y : X) (p : Participant)
      → c.by_key x k ≡ some p
      → c.retire p.id by x ≡ (ok tt, y)
      → (j : String)
      → c.by_key y j
        ≡ (if k == j then some (record p { status = ParticipantStatus.retired }) else c.by_key x j)
  -- the listing is of the participants that were registered by the given one
  pub lists :
      (x : X) (by k : String) (p : Participant)
      → c.by_key x k ≡ some p
      → p.registered_by ≡ some by
      → In p (c.participants by x)
  pub listed :
      (x : X) (by k : String) (p : Participant)
      → In p (c.participants by x)
      → p.key ≡ some k
      → (c.by_key x k ≡ some p) × (p.registered_by ≡ some by)
  pub keyed : (x : X) (k : String) (p : Participant) → c.by_key x k ≡ some p → p.key ≡ some k
