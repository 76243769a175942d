-- ===== src/Participants/Synced.antt =====
-- What `syncParticipants` of packages/cyberlegion/src/participants.ts leaves.
use cyberlegion.Prelude.{
  String, true, false, not, ◌==◌, eq_iff, eq_refl, Option, none, some, List, [], ◌≡◌, ◌⊎◌, inl, inr,
  refl, sym, ap, ◌∙◌, ◌≢◌, filter, Bool-cases, Option-cases, arith,
}
use cyberlegion.Prelude.Dict
use cyberlegion.Prelude.Dict.{Dict}
use cyberlegion.Exec.{ok, after, after-ok}
use cyberlegion.Hub.Types.{AgentRecord}
use cyberlegion.Identity.Liveness.{is_exited}
use cyberlegion.Participants.Store.{Cynapse, CynapseLaws, Participant}
use cyberlegion.Participants.Maps.{
  units_from-Keyed, mine, mine-Distinct, mine-Sound, mine-some, runtime_key-unit_key,
}
use cyberlegion.Participants.Passes.{IsUp, IsOwn}
use cyberlegion.Participants.Loops.{Met, sync_units-Met, Gone, retire_all-Gone}
use cyberlegion.Participants.{
  unit_key, runtime_key, is_live, units_of, sync_units, retire_all, sync_as, has_live_unit,
  sync_participants, runtime_registration, nothing, SyncResult, is_unit,
}

module _ {X : Type 0} (c : Cynapse X) (laws : CynapseLaws c) (by : String) where
  pub mine_exact :
      (x : X) (j : String)
      → IsOwn c laws by x j
      → Dict.get (mine c laws x by) j ≡ c.by_key x (unit_key j)
  mine_exact x j own = elim (Option-cases (Dict.get (mine c laws x by) j)) [
    | inr (p, g) ↦ g ∙ sym (mine-Sound c laws x by j p g).0
    | inl n ↦ elim (Option-cases (c.by_key x (unit_key j))) [
      | inl m ↦ n ∙ sym m
      | inr (p, e) ↦ mine-some c laws x by j p e (own p e) ∙ sym e
    ]
  ]

  -- No participant, or a retired one of this hub.
  abbrev pub Down : X → String → Type 0
  Down y i =
      (c.by_key y (unit_key i) ≡ none)
      ⊎ ((q : Participant) × (c.by_key y (unit_key i) ≡ some q)
          × (is_live q.status ≡ false)
          × (q.registered_by ≡ some by))

  -- A unit that has not exited has a live participant of its handle; otherwise none is live.
  abbrev pub InLine : X → String → Option AgentRecord → Type 0
  InLine y i none = Down y i
  InLine y i (some r) =
      ((is_exited r.status ≡ false)
        × (q : Participant) × IsUp c laws by r q
        × (c.by_key y (unit_key i) ≡ some q))
      ⊎ ((is_exited r.status ≡ true) × Down y i)

  Met-down :
      (x z : X) (i : String) (o : Option AgentRecord)
      → Met c laws by x z i o
      → has_live_unit o ≡ false
      → c.by_key z (unit_key i) ≡ c.by_key x (unit_key i)
  Met-down x z i none m n = m
  Met-down x z i (some r) (inl (k, m)) n = m
  Met-down x z i (some r) (inr (k, q, up, e)) n = absurd (ground (arith, k, n))

  module _ (units : Dict AgentRecord) (i : String) where
    Gone-live :
        (z y : X) (w : Option Participant)
        → Gone c laws by units z y i w
        → has_live_unit (Dict.get units i) ≡ true
        → c.by_key y (unit_key i) ≡ c.by_key z (unit_key i)
    Gone-live z y none g l = g
    Gone-live z y (some p) (inl (k, e)) l = e
    Gone-live z y (some p) (inr (k, q, r, w, e)) l = absurd (ground (arith, k, l))

    Gone-Down :
        (x z y : X) (w : Option Participant)
        → IsOwn c laws by x i
        → w ≡ c.by_key x (unit_key i)
        → Gone c laws by units z y i w
        → c.by_key z (unit_key i) ≡ c.by_key x (unit_key i)
        → has_live_unit (Dict.get units i) ≡ false
        → Down y i
    Gone-Down x z y none own m g e l = inl (g ∙ e ∙ sym m)
    Gone-Down x z y (some p) own m (inl (k, e')) e l = absurd (ground (arith, k, l))
    Gone-Down x z y (some p) own m (inr (k, q, r, w, e')) e l = inr (q, e', r, w ∙ own p (sym m))

    Gone-InLine :
        (x z y : X) (o : Option AgentRecord) (w : Option Participant)
        → IsOwn c laws by x i
        → Dict.get units i ≡ o
        → w ≡ c.by_key x (unit_key i)
        → Met c laws by x z i o
        → Gone c laws by units z y i w
        → InLine y i o
    Gone-InLine x z y none w own u m met g = Gone-Down x z y w own m g met (ap has_live_unit u)
    Gone-InLine x z y (some r) w own u m (inl (k, e)) g =
        inr (k, Gone-Down x z y w own m g e (ap has_live_unit u ∙ ap not k))
    Gone-InLine x z y (some r) w own u m (inr (k, q, up, e)) g =
        inl (k, q, up, Gone-live z y w g (ap has_live_unit u ∙ ap not k) ∙ e)

  pub sync_as-InLine :
      (agents : List AgentRecord) (x y : X) (d : SyncResult)
      → ((i : String) → IsOwn c laws by x i)
      → sync_as c by agents x ≡ (ok d, y)
      → ((i : String) → InLine y i (Dict.get (units_of agents) i))
        × ((j : String) → ((i : String) → j ≢ unit_key i) → c.by_key y j ≡ c.by_key x j)
  unfolding sync_as
  sync_as-InLine agents x y d own run =
      let (t, z, first, last) =
        after-ok (sync_units c by (mine c laws x by) (units_of agents) nothing x)
          (retire_all c by (units_of agents) (mine c laws x by)) d y run in
      let (keyed, distinct) = units_from-Keyed (filter is_unit agents) [] tt tt in
      let (met, frame) =
        sync_units-Met c laws by (mine c laws x by) (units_of agents) nothing t x z distinct keyed
          (λ j r e. (mine_exact x j (own j), own j)) first in
      let (gone, frame') =
        retire_all-Gone c laws by (units_of agents) (mine c laws x by) t d z y
          (mine-Distinct c laws x by)
          (λ j p g l.
            Met-down x z j (Dict.get (units_of agents) j) (met j) l
            ∙ (mine-Sound c laws x by j p g).0)
          last in
      (
        λ i.
            Gone-InLine (units_of agents) i x z y (Dict.get (units_of agents) i)
              (Dict.get (mine c laws x by) i) (own i) refl (mine_exact x i (own i)) (met i)
              (gone i),
        λ j n. frame' j n ∙ frame j n,
      )

-- The hub's own participant is another's key than a unit's, so it is as the first step left it.
module _ {X : Type 0} (c : Cynapse X) (laws : CynapseLaws c) (digest : String)
    (agents : List AgentRecord) (x z y : X) (hub : Participant) (d : SyncResult)
    (first : c.register (runtime_registration digest) x ≡ (ok hub, z))
    (own : (i : String) (p : Participant)
      → c.by_key x (unit_key i) ≡ some p
      → p.registered_by ≡ some hub.id)
    (run : sync_participants c digest agents x ≡ (ok d, y)) where
  IsOwn-first : (i : String) → IsOwn c laws hub.id z i
  IsOwn-first i p e =
      let (up, sets) = laws.registers (runtime_registration digest) x z hub first in
      let other : runtime_key digest == unit_key i ≡ false =
        elim (Bool-cases (runtime_key digest == unit_key i)) [
          | inl q ↦
              absurd
                (runtime_key-unit_key digest i ((eq_iff (runtime_key digest) (unit_key i)).0 q))
          | inr n ↦ n
        ] in
      own i p (sym (sets (unit_key i) ∙ rw other refl) ∙ e)

  pub rest_run : sync_as c hub.id agents z ≡ (ok d, y)
  unfolding sync_participants
  rest_run = ap (λ w. after w (λ (p : Participant). sync_as c p.id agents)) (sym first) ∙ run

  -- After a sync that returns, each unit of the hub that has not exited has a live participant of its
  -- handle, registered by this hub, and under any other unit's key there is no participant, or a retired
  -- one. It is assumed that no one else registers participants under the keys of units.
  pub sync_participants-InLine :
      (i : String) → InLine c laws hub.id y i (Dict.get (units_of agents) i)
  sync_participants-InLine = (sync_as-InLine c laws hub.id agents z y d IsOwn-first rest_run).0

  pub hub_stays : c.by_key y (runtime_key digest) ≡ some hub
  hub_stays =
      (sync_as-InLine c laws hub.id agents z y d IsOwn-first rest_run).1 (runtime_key digest)
        (λ i e. runtime_key-unit_key digest i e)
      ∙ (laws.registers (runtime_registration digest) x z hub first).1 (runtime_key digest)
      ∙ rw (eq_refl (runtime_key digest)) refl
