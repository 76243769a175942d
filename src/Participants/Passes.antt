-- ===== src/Participants/Passes.antt =====
-- What each loop of `syncParticipants` of packages/cyberlegion/src/participants.ts does to the participant
-- of a key.
use cyberlegion.Prelude.{
  String, Bool, true, false, not, ◌==◌, eq_iff, eq_refl, if◌then◌else◌, Option, none, some, [], ◌∷◌,
  ◌++◌, ◌≡◌, ◌⊎◌, inl, inr, refl, sym, ap, ap₂, ◌∙◌, Bool-cases, Option-cases, arith,
}
use cyberlegion.Exec.{Exec, ok, after-ok, ok-injective, pure, ◌>>=◌}
use cyberlegion.Hub.Types.{AgentRecord}
use cyberlegion.Identity.Liveness.{is_exited}
use cyberlegion.Participants.Store.{Cynapse, CynapseLaws, Participant, ParticipantStatus}
use cyberlegion.Participants.{
  unit_key, is_live, SyncResult, registered_now, unit_registration, ensure_live, rename_to,
  sync_unit, has_live_unit, retire_gone, noted,
}

module _ {X : Type 0} (c : Cynapse X) where
  -- `y` has the participant `p` under the key `k`, and is like `x` under all others.
  abbrev pub Sets : X → X → String → Participant → Type 0
  Sets x y k p = (j : String) → c.by_key y j ≡ (if k == j then some p else c.by_key x j)

  Sets-same : (x : X) (k : String) (p : Participant) → c.by_key x k ≡ some p → Sets x x k p
  Sets-same x k p e j = elim (Bool-cases (k == j)) [
    | inl y ↦ rw y (rw (← (eq_iff k j).0 y) e)
    | inr n ↦ rw n refl
  ]

  Sets-trans :
      (x y z : X) (k : String) (p q : Participant) → Sets x y k p → Sets y z k q → Sets x z k q
  Sets-trans x y z k p q s t j = elim (Bool-cases (k == j)) [
    | inl e ↦ t j ∙ rw e refl
    | inr n ↦ t j ∙ rw n (s j ∙ rw n refl)
  ]

  pub Sets-at : (x y : X) (k : String) (p : Participant) → Sets x y k p → c.by_key y k ≡ some p
  Sets-at x y k p s = s k ∙ rw (eq_refl k) refl

  pub Sets-other :
      (x y : X) (k j : String) (p : Participant)
      → Sets x y k p
      → k == j ≡ false
      → c.by_key y j ≡ c.by_key x j
  Sets-other x y k j p s n = s j ∙ rw n refl

module _ {X : Type 0} (c : Cynapse X) (laws : CynapseLaws c) (by : String) where
  -- The unit's participant is live, this hub's, and has the unit's handle.
  abbrev pub IsUp : AgentRecord → Participant → Type 0
  IsUp r p = (p.status ≡ ParticipantStatus.live) × (p.registered_by ≡ some by) × (p.name ≡ r.handle)

  -- No one but this hub registered a participant under the unit's key.
  abbrev pub IsOwn : X → String → Type 0
  IsOwn x i = (p : Participant) → c.by_key x (unit_key i) ≡ some p → p.registered_by ≡ some by

  is_live-live : (s : ParticipantStatus) → is_live s ≡ true → s ≡ ParticipantStatus.live
  is_live-live ParticipantStatus.live e = refl
  is_live-live ParticipantStatus.retired e = absurd (ground (arith, e))

  registered_now-Sets :
      (r : AgentRecord) (x y : X) (p : Participant) (b : Bool)
      → IsOwn x r.id
      → registered_now c by r x ≡ (ok (p, b), y)
      → (p.status ≡ ParticipantStatus.live)
        × (p.registered_by ≡ some by)
        × Sets c x y (unit_key r.id) p
  registered_now-Sets r x y p b own run =
      let (q, z, first, last) =
        after-ok (c.register (unit_registration c by r) x) (λ p. pure (p, true)) (p, b) y run in
      let same : q ≡ p = ap (λ w. w.0) (ok-injective (ap (λ w. w.0) last)) in
      let there : z ≡ y = ap (λ w. w.1) last in
      let did : c.register (unit_registration c by r) x ≡ (ok p, y) =
        first ∙ ap₂ (λ a s. (ok a, s)) same there in
      let (up, sets) = laws.registers (unit_registration c by r) x y p did in
      (
        up,
        elim (Option-cases (c.by_key x (unit_key r.id))) [
          | inl new ↦ laws.registers_new (unit_registration c by r) x y p did new
          | inr (old, e) ↦ laws.registers_old (unit_registration c by r) x y p old did e ∙ own old e
        ],
        sets,
      )

  ensure_live-Sets :
      (r : AgentRecord) (o : Option Participant) (x y : X) (p : Participant) (b : Bool)
      → o ≡ c.by_key x (unit_key r.id)
      → IsOwn x r.id
      → ensure_live c by r o x ≡ (ok (p, b), y)
      → (p.status ≡ ParticipantStatus.live)
        × (p.registered_by ≡ some by)
        × Sets c x y (unit_key r.id) p
  unfolding ensure_live
  ensure_live-Sets r none x y p b e own run = registered_now-Sets r x y p b own run
  ensure_live-Sets r (some q) x y p b e own run = go (is_live q.status) refl run
    where
      go :
          (l : Bool)
          → is_live q.status ≡ l
          → (if l then pure (q, false) else registered_now c by r) x ≡ (ok (p, b), y)
          → (p.status ≡ ParticipantStatus.live)
            × (p.registered_by ≡ some by)
            × Sets c x y (unit_key r.id) p
      go true l t =
          let same : q ≡ p = ap (λ w. w.0) (ok-injective (ap (λ w. w.0) t)) in
          let there : x ≡ y = ap (λ w. w.1) t in
          rw (← same, ← there)
            (is_live-live q.status l, own q (sym e), Sets-same c x (unit_key r.id) q (sym e))
      go false l t = registered_now-Sets r x y p b own t

  rename_to-Sets :
      (r : AgentRecord) (p : Participant) (x y : X) (b : Bool)
      → c.by_key x (unit_key r.id) ≡ some p
      → rename_to c by r p x ≡ (ok b, y)
      → Sets c x y (unit_key r.id) (record p { name = r.handle })
  unfolding rename_to
  rename_to-Sets r p x y b e run = go (p.name == r.handle) refl run
    where
      go :
          (l : Bool)
          → p.name == r.handle ≡ l
          → (if l then pure false else (c.rename p.id r.handle by >>= λ u. pure true)) x ≡ (ok b, y)
          → Sets c x y (unit_key r.id) (record p { name = r.handle })
      go true l t =
          let there : x ≡ y = ap (λ w. w.1) t in
          let named : p.name ≡ r.handle = (eq_iff p.name r.handle).0 l in
          rw (← there) (
            Sets-same c x (unit_key r.id) (record p { name = r.handle })
              (e ∙ ap (λ n. some (record p { name = n })) named))
      go false l t =
          let (u, z, first, last) = after-ok (c.rename p.id r.handle by x) (λ u. pure true) b y t in
          let there : z ≡ y = ap (λ w. w.1) last in
          laws.renames (unit_key r.id) r.handle by x y p e (first ∙ ap (λ s. (ok tt, s)) there)

  -- Nothing for an exited unit; for another, its participant alone, which is then up.
  abbrev pub Stepped : AgentRecord → X → X → Type 0
  Stepped r x y =
      ((is_exited r.status ≡ true) × (y ≡ x))
      ⊎ ((is_exited r.status ≡ false) × (q : Participant) × IsUp r q × Sets c x y (unit_key r.id) q)

  pub sync_unit-Stepped :
      (r : AgentRecord) (o : Option Participant) (s d : SyncResult) (x y : X)
      → o ≡ c.by_key x (unit_key r.id)
      → IsOwn x r.id
      → sync_unit c by r o s x ≡ (ok d, y)
      → Stepped r x y
  unfolding sync_unit
  sync_unit-Stepped r o s d x y e own run = go (is_exited r.status) refl run
    where
      rest : Participant × Bool → Exec X SyncResult
      rest (p, is_new) = do
        is_renamed ← rename_to c by r p
        pure (record s {
          registered = noted is_new r.id s.registered;
          renamed = noted is_renamed r.id s.renamed;
        })

      go :
          (b : Bool)
          → is_exited r.status ≡ b
          → (if b then pure s else (ensure_live c by r o >>= rest)) x ≡ (ok d, y)
          → Stepped r x y
      go true b t = inl (b, sym (ap (λ w. w.1) t))
      go false b t =
          let ((p, n), z, first, last) = after-ok (ensure_live c by r o x) rest d y t in
          let (up, mine, sets) = ensure_live-Sets r o x z p n e own first in
          let (l, w, second, third) =
            after-ok (rename_to c by r p z)
              (λ m. pure (record s {
                registered = noted n r.id s.registered;
                renamed = noted m r.id s.renamed;
              }))
              d y last in
          let there : w ≡ y = ap (λ v. v.1) third in
          let again = rename_to-Sets r p z w l (Sets-at c x z (unit_key r.id) p sets) second in
          inr (
            b,
            record p { name = r.handle },
            (up, mine, refl),
            rw (← there)
                (Sets-trans c x z w (unit_key r.id) p (record p { name = r.handle }) sets again),
          )

  -- A participant without a live unit is retired, if it was not.
  abbrev pub Cleared : String → Participant → Option AgentRecord → X → X → Type 0
  Cleared i p unit x y =
      ((has_live_unit unit ≡ true) × (y ≡ x))
      ⊎ ((has_live_unit unit ≡ false)
          × (q : Participant) × (is_live q.status ≡ false)
          × (q.registered_by ≡ p.registered_by)
          × Sets c x y (unit_key i) q)

  pub retire_gone-Cleared :
      (i : String) (p : Participant) (unit : Option AgentRecord) (s d : SyncResult) (x y : X)
      → (has_live_unit unit ≡ false → c.by_key x (unit_key i) ≡ some p)
      → retire_gone c by i p unit s x ≡ (ok d, y)
      → Cleared i p unit x y
  unfolding retire_gone
  retire_gone-Cleared i p unit s d x y e run =
      go (is_live p.status) (has_live_unit unit) refl refl run
    where
      go :
          (l u : Bool)
          → is_live p.status ≡ l
          → has_live_unit unit ≡ u
          → (if not l
                then pure s
                else if u
                then pure s
                else (c.retire p.id by >>= λ t.
                    pure (record s { retired = s.retired ++ (i ∷ []) })))
              x
            ≡ (ok d, y)
          → Cleared i p unit x y
      go true true l u t = inl (u, sym (ap (λ w. w.1) t))
      go false true l u t = inl (u, sym (ap (λ w. w.1) t))
      go false false l u t =
          let there : x ≡ y = ap (λ w. w.1) t in
          inr (u, p, l, refl, rw (← there) (Sets-same c x (unit_key i) p (e u)))
      go true false l u t =
          let (v, z, first, last) =
            after-ok (c.retire p.id by x) (λ t. pure (record s { retired = s.retired ++ (i ∷ []) }))
              d y t in
          let there : z ≡ y = ap (λ w. w.1) last in
          inr (
            u,
            record p { status = ParticipantStatus.retired },
            refl,
            refl,
            laws.retires (unit_key i) by x y p (e u) (first ∙ ap (λ w. (ok tt, w)) there),
          )
