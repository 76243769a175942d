-- ===== src/Participants/Again.antt =====
-- A second `syncParticipants` of packages/cyberlegion/src/participants.ts after a first.
use cyberlegion.Prelude.{
  String, true, false, not, eq_refl, Option, none, some, List, [], ◌∷◌, ◌≡◌, ◌⊎◌, inl, inr, refl,
  sym, ap, subst, ◌∙◌, some-injective, filter, Bool-cases, arith,
}
use cyberlegion.Prelude.Dict
use cyberlegion.Prelude.Dict.{Dict}
use cyberlegion.Exec.{ok, after}
use cyberlegion.Hub.Types.{AgentRecord}
use cyberlegion.Participants.Store.{Cynapse, CynapseLaws, Participant}
use cyberlegion.Participants.Maps.{
  Distinct, Keyed, units_from-Keyed, mine, mine-Distinct, mine-Sound,
}
use cyberlegion.Participants.Passes.{IsOwn}
use cyberlegion.Participants.Loops.{beyond}
use cyberlegion.Participants.Synced.{Down, InLine, mine_exact, hub_stays, sync_participants-InLine}
use cyberlegion.Participants.{
  unit_key, is_live, is_unit, units_of, sync_unit, sync_units, retire_gone, retire_all, sync_as,
  has_live_unit, sync_participants, runtime_registration, nothing, SyncResult, ensure_live,
  rename_to,
}

module _ {X : Type 0} (c : Cynapse X) (laws : CynapseLaws c) (by : String) (y : X) where
  Down-IsOwn : (i : String) → Down c laws by y i → IsOwn c laws by y i
  Down-IsOwn i (inl n) p e = absurd (ground (arith, sym n ∙ e))
  Down-IsOwn i (inr (q, at, l, own)) p e =
      ap (λ (z : Participant). z.registered_by) (some-injective (sym e ∙ at)) ∙ own

  InLine-IsOwn :
      (i : String) (o : Option AgentRecord) → InLine c laws by y i o → IsOwn c laws by y i
  InLine-IsOwn i none d = Down-IsOwn i d
  InLine-IsOwn i (some r) (inr (k, d)) = Down-IsOwn i d
  InLine-IsOwn i (some r) (inl (k, q, up, at)) =
      λ p e. ap (λ (z : Participant). z.registered_by) (some-injective (sym e ∙ at)) ∙ up.1

  -- A unit that is in line is left alone.
  sync_unit_again :
      (r : AgentRecord) (o : Option Participant) (s : SyncResult)
      → o ≡ c.by_key y (unit_key r.id)
      → InLine c laws by y r.id (some r)
      → sync_unit c by r o s y ≡ (ok s, y)
  unfolding sync_unit ensure_live rename_to
  sync_unit_again r o s e (inr (k, d)) = rw k refl
  sync_unit_again r o s e (inl (k, q, (up, own, named), at)) =
      rw (k, e ∙ at, up, named, eq_refl r.handle) refl

  sync_units_again :
      (m : Dict Participant) (units : Dict AgentRecord) (s : SyncResult)
      → Keyed units
      → Distinct units
      → ((j : String) (r : AgentRecord)
          → Dict.get units j ≡ some r
          → (Dict.get m j ≡ c.by_key y (unit_key j)) × InLine c laws by y j (some r))
      → sync_units c by m units s y ≡ (ok s, y)
  unfolding sync_units Dict.get
  sync_units_again m [] s k d f = refl
  sync_units_again m ((j, r) ∷ units) s (id, k) (fresh, d) f =
      let here = f r.id r (rw (id, eq_refl j) refl) in
      ap (λ w. after w (sync_units c by m units))
        (sync_unit_again r (Dict.get m r.id) s here.0 here.1)
      ∙ sync_units_again m units s k d (λ i w e. f i w (rw (beyond units j i w fresh e) e))

  retire_gone_again :
      (i : String) (p : Participant) (unit : Option AgentRecord) (s : SyncResult)
      → (is_live p.status ≡ false) ⊎ (has_live_unit unit ≡ true)
      → retire_gone c by i p unit s y ≡ (ok s, y)
  unfolding retire_gone
  retire_gone_again i p unit s (inl e) = rw e refl
  retire_gone_again i p unit s (inr e) = elim (Bool-cases (is_live p.status)) [
    | inl l ↦ rw (l, e) refl
    | inr n ↦ rw n refl
  ]

  retire_all_again :
      (units : Dict AgentRecord) (m : Dict Participant) (s : SyncResult)
      → Distinct m
      → ((j : String) (p : Participant)
          → Dict.get m j ≡ some p
          → (is_live p.status ≡ false) ⊎ (has_live_unit (Dict.get units j) ≡ true))
      → retire_all c by units m s y ≡ (ok s, y)
  unfolding retire_all Dict.get
  retire_all_again units [] s d f = refl
  retire_all_again units ((j, p) ∷ m) s (fresh, d) f =
      ap (λ w. after w (retire_all c by units m))
        (retire_gone_again j p (Dict.get units j) s (f j p (rw (eq_refl j) refl)))
      ∙ retire_all_again units m s d (λ i w e. f i w (rw (beyond m j i w fresh e) e))

  Down-live :
      (i : String) (p : Participant)
      → c.by_key y (unit_key i) ≡ some p
      → Down c laws by y i
      → is_live p.status ≡ false
  Down-live i p e (inl n) = absurd (ground (arith, sym n ∙ e))
  Down-live i p e (inr (q, at, l, own)) =
      ap (λ (z : Participant). is_live z.status) (some-injective (sym e ∙ at)) ∙ l

  InLine-live :
      (i : String) (p : Participant) (o : Option AgentRecord)
      → c.by_key y (unit_key i) ≡ some p
      → InLine c laws by y i o
      → (is_live p.status ≡ false) ⊎ (has_live_unit o ≡ true)
  InLine-live i p none e d = inl (Down-live i p e d)
  InLine-live i p (some r) e (inr (k, d)) = inl (Down-live i p e d)
  InLine-live i p (some r) e (inl (k, q, up, at)) = inr (ap not k)

  sync_as_again :
      (agents : List AgentRecord)
      → ((i : String) → InLine c laws by y i (Dict.get (units_of agents) i))
      → sync_as c by agents y ≡ (ok nothing, y)
  unfolding sync_as
  sync_as_again agents line =
      let m = mine c laws y by in
      let own : (i : String) → IsOwn c laws by y i =
        λ i. InLine-IsOwn i (Dict.get (units_of agents) i) (line i) in
      let (keyed, distinct) = units_from-Keyed (filter is_unit agents) [] tt tt in
      ap (λ w. after w (retire_all c by (units_of agents) m))
        (sync_units_again m (units_of agents) nothing keyed distinct
          (λ j r e. (mine_exact c laws by y j (own j), subst (InLine c laws by y j) e (line j))))
      ∙ retire_all_again (units_of agents) m nothing (mine-Distinct c laws y by) (λ j p e.
        InLine-live j p (Dict.get (units_of agents) j) (mine-Sound c laws y by j p e).0 (line j))

-- After a sync that returns, a second sync of the same units returns, finds nothing to register, rename
-- or retire, and leaves the store as it is. It is assumed that no one else registers participants
-- under the keys of units.
pub sync_participants_again :
    {X : Type 0} (c : Cynapse X) (laws : CynapseLaws c) (digest : String)
    (agents : List AgentRecord) (x z y : X) (hub : Participant) (d : SyncResult)
    → c.register (runtime_registration digest) x ≡ (ok hub, z)
    → ((i : String) (p : Participant)
        → c.by_key x (unit_key i) ≡ some p
        → p.registered_by ≡ some hub.id)
    → sync_participants c digest agents x ≡ (ok d, y)
    → sync_participants c digest agents y ≡ (ok nothing, y)
unfolding sync_participants
sync_participants_again c laws digest agents x z y hub d first own run =
    let up = (laws.registers (runtime_registration digest) x z hub first).0 in
    let stays = hub_stays c laws digest agents x z y hub d first own run in
    ap (λ w. after w (λ (p : Participant). sync_as c p.id agents))
      (laws.registers_live (runtime_registration digest) y hub stays up)
    ∙ sync_as_again c laws hub.id y agents
        (sync_participants-InLine c laws digest agents x z y hub d first own run)
