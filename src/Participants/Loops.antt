-- ===== src/Participants/Loops.antt =====
-- The two loops of `syncParticipants` of packages/cyberlegion/src/participants.ts, key by key.
use cyberlegion.Prelude.{
  String, true, false, ◌==◌, eq_iff, eq_refl, Option, none, some, [], ◌∷◌, ◌≡◌, ◌≢◌, ◌⊎◌, inl, inr,
  refl, sym, ap, subst, ◌∙◌, Bool-cases, arith,
}
use cyberlegion.Prelude.Dict
use cyberlegion.Prelude.Dict.{Dict}
use cyberlegion.Exec.{ok, after-ok}
use cyberlegion.Hub.Types.{AgentRecord}
use cyberlegion.Identity.Liveness.{is_exited}
use cyberlegion.Participants.Store.{Cynapse, CynapseLaws, Participant}
use cyberlegion.Participants.Maps.{Distinct, Keyed, unit_key-injective}
use cyberlegion.Participants.Passes.{
  Sets-at, Sets-other, IsUp, IsOwn, Stepped, sync_unit-Stepped, Cleared, retire_gone-Cleared,
}
use cyberlegion.Participants.{
  unit_key, is_live, SyncResult, sync_unit, sync_units, has_live_unit, retire_gone, retire_all,
}

differ : (i j : String) → i == j ≡ false → unit_key i == unit_key j ≡ false
differ i j n = elim (Bool-cases (unit_key i == unit_key j)) [
  | inl y ↦
      let same : i ≡ j = unit_key-injective i j ((eq_iff (unit_key i) (unit_key j)).0 y) in
      absurd (ground (arith, n, (eq_iff i j).1 same))
  | inr k ↦ k
]

foreign : (j : String) → ((i : String) → j ≢ unit_key i) → (i : String) → unit_key i == j ≡ false
foreign j n i = elim (Bool-cases (unit_key i == j)) [
  | inl y ↦ absurd (n i (sym ((eq_iff (unit_key i) j).0 y)))
  | inr k ↦ k
]

-- A key of the rest is another.
pub beyond :
    {V : Type 0} (m : Dict V) (k j : String) (v : V)
    → Dict.get m k ≡ none
    → Dict.get m j ≡ some v
    → k == j ≡ false
beyond m k j v n e = elim (Bool-cases (k == j)) [
  | inl y ↦
      let same : k ≡ j = (eq_iff k j).0 y in
      absurd (ground (arith, sym n ∙ ap (Dict.get m) same ∙ e))
  | inr o ↦ o
]

module _ {X : Type 0} (c : Cynapse X) (laws : CynapseLaws c) (by : String) where
  Stepped-other :
      (r : AgentRecord) (x y : X) (j : String)
      → Stepped c laws by r x y
      → unit_key r.id == j ≡ false
      → c.by_key y j ≡ c.by_key x j
  Stepped-other r x y j (inl (e, same)) n = ap (λ z. c.by_key z j) same
  Stepped-other r x y j (inr (e, q, up, sets)) n = Sets-other c x y (unit_key r.id) j q sets n

  -- What the first loop has done at the unit id `i`.
  abbrev pub Met : X → X → String → Option AgentRecord → Type 0
  Met x y i none = c.by_key y (unit_key i) ≡ c.by_key x (unit_key i)
  Met x y i (some r) =
      ((is_exited r.status ≡ true) × (c.by_key y (unit_key i) ≡ c.by_key x (unit_key i)))
      ⊎ ((is_exited r.status ≡ false)
          × (q : Participant) × IsUp c laws by r q
          × (c.by_key y (unit_key i) ≡ some q))

  Met-from :
      (x z y : X) (i : String) (o : Option AgentRecord)
      → c.by_key z (unit_key i) ≡ c.by_key x (unit_key i)
      → Met z y i o
      → Met x y i o
  Met-from x z y i none e m = m ∙ e
  Met-from x z y i (some r) e (inl (k, m)) = inl (k, m ∙ e)
  Met-from x z y i (some r) e (inr m) = inr m

  Stepped-Met :
      (r : AgentRecord) (x z y : X)
      → Stepped c laws by r x z
      → c.by_key y (unit_key r.id) ≡ c.by_key z (unit_key r.id)
      → Met x y r.id (some r)
  Stepped-Met r x z y (inl (k, same)) e = inl (k, e ∙ ap (λ w. c.by_key w (unit_key r.id)) same)
  Stepped-Met r x z y (inr (k, q, up, sets)) e =
      inr (k, q, up, e ∙ Sets-at c x z (unit_key r.id) q sets)

  -- The snapshot is of the participants that stand under the units' keys.
  abbrev pub Fresh : Dict Participant → Dict AgentRecord → X → Type 0
  Fresh mine units x =
      (j : String) (r : AgentRecord)
      → Dict.get units j ≡ some r
      → (Dict.get mine j ≡ c.by_key x (unit_key j)) × IsOwn c laws by x j

  pub sync_units-Met :
      (mine : Dict Participant) (units : Dict AgentRecord) (s d : SyncResult) (x y : X)
      → Distinct units
      → Keyed units
      → Fresh mine units x
      → sync_units c by mine units s x ≡ (ok d, y)
      → ((i : String) → Met x y i (Dict.get units i))
        × ((j : String) → ((i : String) → j ≢ unit_key i) → c.by_key y j ≡ c.by_key x j)
  unfolding sync_units Dict.get
  sync_units-Met mine [] s d x y p q f run =
      let same : x ≡ y = ap (λ w. w.1) run in
      (λ i. ap (λ w. c.by_key w (unit_key i)) (sym same), λ j n. ap (λ w. c.by_key w j) (sym same))
  sync_units-Met mine ((k, r) ∷ units) s d x y (fresh, p) (id, q) f run =
      let (t, z, first, last) =
        after-ok (sync_unit c by r (Dict.get mine r.id) s x) (sync_units c by mine units) d y run in
      let here = f r.id r (rw (id, eq_refl k) refl) in
      let step : Stepped c laws by r x z =
        sync_unit-Stepped c laws by r (Dict.get mine r.id) s t x z here.0 here.1 first in
      let moved : (j : String)
          → k == j ≡ false
          → c.by_key z (unit_key j) ≡ c.by_key x (unit_key j) =
        λ j n. Stepped-other r x z (unit_key j) step (differ r.id j (rw id n)) in
      let rest : Fresh mine units z = λ j w e.
        let n = beyond units k j w fresh e in
        let g = f j w (rw n e) in (g.0 ∙ sym (moved j n), λ u h. g.1 u (sym (moved j n) ∙ h)) in
      let (met, frame) = sync_units-Met mine units t d z y p q rest last in
      let kept : c.by_key y (unit_key r.id) ≡ c.by_key z (unit_key r.id) =
        subst (Met z y r.id) (ap (Dict.get units) id ∙ fresh) (met r.id) in
      (
        λ i. elim (Bool-cases (k == i)) [
          | inl e ↦ rw e (
              subst (λ w. Met x y w (some r)) (id ∙ (eq_iff k i).0 e)
                (Stepped-Met r x z y step kept))
          | inr n ↦ rw n (Met-from x z y i (Dict.get units i) (moved i n) (met i))
        ],
        λ j n. frame j n ∙ Stepped-other r x z j step (foreign j n r.id),
      )

  -- What the second loop has done at the unit id `i`.
  abbrev pub Gone : Dict AgentRecord → X → X → String → Option Participant → Type 0
  Gone units x y i none = c.by_key y (unit_key i) ≡ c.by_key x (unit_key i)
  Gone units x y i (some p) =
      ((has_live_unit (Dict.get units i) ≡ true)
        × (c.by_key y (unit_key i) ≡ c.by_key x (unit_key i)))
      ⊎ ((has_live_unit (Dict.get units i) ≡ false)
          × (q : Participant) × (is_live q.status ≡ false)
          × (q.registered_by ≡ p.registered_by)
          × (c.by_key y (unit_key i) ≡ some q))

  Gone-from :
      (units : Dict AgentRecord) (x z y : X) (i : String) (o : Option Participant)
      → c.by_key z (unit_key i) ≡ c.by_key x (unit_key i)
      → Gone units z y i o
      → Gone units x y i o
  Gone-from units x z y i none e m = m ∙ e
  Gone-from units x z y i (some p) e (inl (k, m)) = inl (k, m ∙ e)
  Gone-from units x z y i (some p) e (inr m) = inr m

  Cleared-other :
      (i : String) (p : Participant) (o : Option AgentRecord) (x y : X) (j : String)
      → Cleared c laws by i p o x y
      → unit_key i == j ≡ false
      → c.by_key y j ≡ c.by_key x j
  Cleared-other i p o x y j (inl (e, same)) n = ap (λ z. c.by_key z j) same
  Cleared-other i p o x y j (inr (e, q, l, w, sets)) n = Sets-other c x y (unit_key i) j q sets n

  Cleared-Gone :
      (units : Dict AgentRecord) (i : String) (p : Participant) (x z y : X)
      → Cleared c laws by i p (Dict.get units i) x z
      → c.by_key y (unit_key i) ≡ c.by_key z (unit_key i)
      → Gone units x y i (some p)
  Cleared-Gone units i p x z y (inl (k, same)) e =
      inl (k, e ∙ ap (λ w. c.by_key w (unit_key i)) same)
  Cleared-Gone units i p x z y (inr (k, q, l, w, sets)) e =
      inr (k, q, l, w, e ∙ Sets-at c x z (unit_key i) q sets)

  -- A participant of the snapshot that has no live unit still stands under its key.
  abbrev pub Standing : Dict AgentRecord → Dict Participant → X → Type 0
  Standing units mine x =
      (j : String) (p : Participant)
      → Dict.get mine j ≡ some p
      → has_live_unit (Dict.get units j) ≡ false
      → c.by_key x (unit_key j) ≡ some p

  pub retire_all-Gone :
      (units : Dict AgentRecord) (mine : Dict Participant) (s d : SyncResult) (x y : X)
      → Distinct mine
      → Standing units mine x
      → retire_all c by units mine s x ≡ (ok d, y)
      → ((i : String) → Gone units x y i (Dict.get mine i))
        × ((j : String) → ((i : String) → j ≢ unit_key i) → c.by_key y j ≡ c.by_key x j)
  unfolding retire_all Dict.get
  retire_all-Gone units [] s d x y p f run =
      let same : x ≡ y = ap (λ w. w.1) run in
      (λ i. ap (λ w. c.by_key w (unit_key i)) (sym same), λ j n. ap (λ w. c.by_key w j) (sym same))
  retire_all-Gone units ((k, p) ∷ mine) s d x y (fresh, ds) f run =
      let (t, z, first, last) =
        after-ok (retire_gone c by k p (Dict.get units k) s x) (retire_all c by units mine) d y
          run in
      let step : Cleared c laws by k p (Dict.get units k) x z =
        retire_gone-Cleared c laws by k p (Dict.get units k) s t x z (f k p (rw (eq_refl k) refl))
          first in
      let moved : (j : String)
          → k == j ≡ false
          → c.by_key z (unit_key j) ≡ c.by_key x (unit_key j) =
        λ j n. Cleared-other k p (Dict.get units k) x z (unit_key j) step (differ k j n) in
      let rest : Standing units mine z =
        λ j w e u. let n = beyond mine k j w fresh e in moved j n ∙ f j w (rw n e) u in
      let (gone, frame) = retire_all-Gone units mine t d z y ds rest last in
      let kept : c.by_key y (unit_key k) ≡ c.by_key z (unit_key k) =
        subst (Gone units z y k) fresh (gone k) in
      (
        λ i. elim (Bool-cases (k == i)) [
          | inl e ↦ rw e (
              subst (λ w. Gone units x y w (some p)) ((eq_iff k i).0 e)
                (Cleared-Gone units k p x z y step kept))
          | inr n ↦ rw n (Gone-from units x z y i (Dict.get mine i) (moved i n) (gone i))
        ],
        λ j n. frame j n ∙ Cleared-other k p (Dict.get units k) x z j step (foreign j n k),
      )
