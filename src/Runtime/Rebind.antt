-- ===== src/Runtime/Rebind.antt =====
-- What `rebindUnit` of packages/cyberlegion/src/unit-runtime.ts leaves, and what it refuses.
use cyberlegion.Prelude.{
  String, Bool, true, false, not, ◌≢◌, eq_iff, Bool-cases, ◌&&◌, ◌==◌, opt_is, opt_is_iff, is_some,
  if◌then◌else◌, Option, none, some, ◌≡◌, ◌⊎◌, inl, inr, refl, sym, ap, ◌∙◌, arith,
}
use cyberlegion.Exec.{ok, after-ok, asks-ok, pure, throw, no_runtime, pane_held, may_still_run}
use cyberlegion.Hub.Types.{Hub, AgentRecord, Pane, Status}
use cyberlegion.Hub.{get_agent, put_agent, put_pane_index, resolve_pane_id}
use cyberlegion.Identity.Liveness.{kind_is_independent, is_exited, is_stopped}
use cyberlegion.Identity.Resolve.{resolve_agent}
use cyberlegion.Identity.Register.{storable_pane, StorablePane}
use cyberlegion.Identity.Presence.Binding.{IsWritten, put_agent-IsWritten}
use cyberlegion.Runtime.{
  RuntimeContext, runtime_pane, probe_liveness, drop_index, bound_record, bind_pane, rebind_in,
  rebind_guarded, rebind_unit, held_by_other, may_run, other_pane, pane_here, holds, Liveness,
}
use cyberlegion.Identity.Reap.Evidence.{same_mux-eq}
use cyberlegion.Runtime.Stop.{drop_index-same}

pub put_pane_index-get :
    (pane id j : String) (h : Hub) → get_agent (put_pane_index pane id h).1 j ≡ get_agent h j
unfolding put_pane_index get_agent
put_pane_index-get pane id j h = refl

-- The unit was bound to the calling pane already, by its own record and by the pane index, and nothing is
-- written.
abbrev pub Already : StorablePane → Hub → AgentRecord → AgentRecord → Hub → Type 0
Already cur h r s g =
    ((p : Pane) × (r.pane ≡ some p) × (p.mux ≡ cur.mux) × (p.id ≡ cur.pane))
    × (resolve_pane_id h cur.pane ≡ some r.id)
    × (s ≡ r)
    × (g ≡ h)

-- The pane index names no one for the pane, or the unit itself, or an id that has no record, or a unit that
-- is stopped or exited.
abbrev pub Unheld : Hub → AgentRecord → Option String → Type 0
Unheld h r holder =
    (holder ≡ none)
    ⊎ ((id : String) × (holder ≡ some id)
        × ((id ≡ "")
            ⊎ ((id ≡ r.id)
                ⊎ ((get_agent h id ≡ none)
                    ⊎ ((x : AgentRecord) × (get_agent h id ≡ some x)
                        × ((x.status ≡ Status.stopped) ⊎ (x.status ≡ Status.exited)))))))

-- The unit has no pane, or has the calling one, or its multiplexer knows that it does not run there.
abbrev pub Left : RuntimeContext → StorablePane → Hub → AgentRecord → Option String → Type 0
Left ctx cur h r old =
    (old ≡ none)
    ⊎ ((pane : String) × (old ≡ some pane)
        × ((pane ≡ "")
            ⊎ ((pane ≡ cur.pane)
                ⊎ ((probe_liveness ctx h r ≢ Liveness.live)
                    × (probe_liveness ctx h r ≢ Liveness.unknown)))))

-- No other unit that may have a session holds the calling pane, the unit's own old pane is not another
-- one in which it may still run, and its record, alone, is bound to the calling pane.
abbrev pub Rebound : RuntimeContext → StorablePane → Hub → AgentRecord → AgentRecord → Hub → Type 0
Rebound ctx cur h r s g =
    Unheld h r (resolve_pane_id h cur.pane)
    × Left ctx cur h r (runtime_pane h r)
    × (s ≡ bound_record ctx cur r)
    × IsWritten h r.id s g

holds-ended :
    (r : AgentRecord)
    → holds (some r) ≡ false
    → (r.status ≡ Status.stopped) ⊎ (r.status ≡ Status.exited)
holds-ended r e = by_status r.status refl e
  where
    by_status :
        (s : Status)
        → r.status ≡ s
        → not (is_stopped s) && not (is_exited s) ≡ false
        → (r.status ≡ Status.stopped) ⊎ (r.status ≡ Status.exited)
    by_status Status.stopped p q = inl p
    by_status Status.exited p q = inr p
    by_status Status.active p q = absurd (ground (arith, q))
    by_status Status.idle p q = absurd (ground (arith, q))
    by_status Status.stale p q = absurd (ground (arith, q))
    by_status Status.paused p q = absurd (ground (arith, q))
    by_status (Status.other s) p q = absurd (ground (arith, q))

held_by_other-Unheld :
    (h : Hub) (r : AgentRecord) (holder : Option String)
    → held_by_other h r holder ≡ false
    → Unheld h r holder
held_by_other-Unheld h r none e = inl refl
held_by_other-Unheld h r (some id) e = inr (
  id,
  refl,
  elim (Bool-cases (id == "")) [
    | inl y ↦ inl ((eq_iff id "").0 y)
    | inr n ↦ inr (elim (Bool-cases (id == r.id)) [
      | inl y ↦ inl ((eq_iff id r.id).0 y)
      | inr m ↦ inr (by_record (get_agent h id) refl (ground (arith, e, n, m)))
    ])
  ],
)
  where
    by_record :
        (o : Option AgentRecord)
        → get_agent h id ≡ o
        → holds o ≡ false
        → (get_agent h id ≡ none)
          ⊎ ((x : AgentRecord) × (get_agent h id ≡ some x)
              × ((x.status ≡ Status.stopped) ⊎ (x.status ≡ Status.exited)))
    by_record none p q = inl p
    by_record (some x) p q = inr (x, p, holds-ended x q)

may_run-not : (l : Liveness) → may_run l ≡ false → (l ≢ Liveness.live) × (l ≢ Liveness.unknown)
may_run-not l e = (λ p. ground (arith, e, ap may_run p), λ p. ground (arith, e, ap may_run p))

other_pane-Left :
    (ctx : RuntimeContext) (cur : StorablePane) (h : Hub) (r : AgentRecord) (old : Option String)
    → (other_pane cur old ≡ none) ⊎ (may_run (probe_liveness ctx h r) ≡ false)
    → Left ctx cur h r old
other_pane-Left ctx cur h r none e = inl refl
other_pane-Left ctx cur h r (some old) (inr e) =
    inr (old, refl, inr (inr (may_run-not (probe_liveness ctx h r) e)))
other_pane-Left ctx cur h r (some old) (inl e) = inr (
  old,
  refl,
  elim (Bool-cases (old == "")) [
    | inl y ↦ inl ((eq_iff old "").0 y)
    | inr n ↦ inr (inl ((eq_iff old cur.pane).0 (ground (arith, e, n))))
  ],
)

pane_here-own :
    (cur : StorablePane) (o : Option Pane)
    → pane_here cur o ≡ true
    → (p : Pane) × (o ≡ some p) × (p.mux ≡ cur.mux) × (p.id ≡ cur.pane)
pane_here-own cur none e = absurd (ground (arith, e))
pane_here-own cur (some p) e = (
  p,
  refl,
  same_mux-eq p.mux cur.mux (ground (arith, e)),
  (eq_iff p.id cur.pane).0 (ground (arith, e)),
)

bind_pane-IsWritten :
    (ctx : RuntimeContext) (cur : StorablePane) (r s : AgentRecord) (old : Option String)
    (h g : Hub)
    → bind_pane ctx cur r old h ≡ (ok s, g)
    → (s ≡ bound_record ctx cur r) × IsWritten h r.id s g
unfolding bind_pane
bind_pane-IsWritten ctx cur r s old h g e =
    let w : AgentRecord = bound_record ctx cur r in
    let (u, h1, put, e1) = after-ok (put_agent w h) _ s g e in
    let (v, h2, dropped, e2) = after-ok (drop_index old h1) _ s g e1 in
    let (x, h3, indexed, e3) = after-ok (put_pane_index cur.pane r.id h2) (λ u. pure w) s g e2 in
    let done : w ≡ s = cc in
    let last : h3 ≡ g = cc in
    let second : (drop_index old h1).1 ≡ h2 = ap (λ z. z.1) dropped in
    let third : (put_pane_index cur.pane r.id h2).1 ≡ g = ap (λ z. z.1) indexed ∙ last in
    let ww = put_agent-IsWritten h h1 r.id w refl put in
    (
      sym done,
      λ j.
          ap (λ (z : Hub). get_agent z j) (sym third)
          ∙ put_pane_index-get cur.pane r.id j h2
          ∙ ap (λ (z : Hub). get_agent z j) (sym second)
          ∙ (drop_index-same old h1).0 j
          ∙ ww j
          ∙ ap (λ (z : AgentRecord). if r.id == j then some z else get_agent h j) done,
    )

rebind_in-Rebound :
    (ctx : RuntimeContext) (r s : AgentRecord) (cur : StorablePane) (h g : Hub)
    → rebind_in ctx r cur h h ≡ (ok s, g)
    → Already cur h r s g ⊎ Rebound ctx cur h r s g
unfolding rebind_in
rebind_in-Rebound ctx r s cur h g e =
    by_case (pane_here cur r.pane && opt_is (resolve_pane_id h cur.pane) r.id)
      (held_by_other h r (resolve_pane_id h cur.pane)) (other_pane cur (runtime_pane h r))
      (may_run (probe_liveness ctx h r)) refl refl refl refl e
  where
    by_case :
        (a b : Bool) (old : Option String) (m : Bool)
        → pane_here cur r.pane && opt_is (resolve_pane_id h cur.pane) r.id ≡ a
        → held_by_other h r (resolve_pane_id h cur.pane) ≡ b
        → other_pane cur (runtime_pane h r) ≡ old
        → may_run (probe_liveness ctx h r) ≡ m
        → (if a
              then pure r
              else if b
              then throw pane_held
              else if is_some old && m
              then throw may_still_run
              else bind_pane ctx cur r old)
            h
          ≡ (ok s, g)
        → Already cur h r s g ⊎ Rebound ctx cur h r s g
    by_case true b old m p q o l run =
        let same : r ≡ s = cc in
        let left : h ≡ g = cc in
        let own : opt_is (resolve_pane_id h cur.pane) r.id ≡ true = ground (arith, p) in
        let here : pane_here cur r.pane ≡ true = ground (arith, p) in
        inl (pane_here-own cur r.pane here, (opt_is_iff _ r.id).0 own, sym same, sym left)
    by_case false true old m p q o l run = absurd (ground (arith, run))
    by_case false false none m p q o l run =
        let k = bind_pane-IsWritten ctx cur r s none h g run in
        inr (held_by_other-Unheld h r _ q, other_pane-Left ctx cur h r _ (inl o), k.0, k.1)
    by_case false false (some old) true p q o l run = absurd (ground (arith, run))
    by_case false false (some old) false p q o l run =
        let k = bind_pane-IsWritten ctx cur r s (some old) h g run in
        inr (held_by_other-Unheld h r _ q, other_pane-Left ctx cur h r _ (inr l), k.0, k.1)

rebind_guarded-Rebound :
    (ctx : RuntimeContext) (r s : AgentRecord) (o : Option StorablePane) (c : Bool) (h g : Hub)
    → kind_is_independent r.kind ≡ c
    → rebind_guarded ctx r o h ≡ (ok s, g)
    → (kind_is_independent r.kind ≡ false)
      × ((cur : StorablePane) × (o ≡ some cur) × (Already cur h r s g ⊎ Rebound ctx cur h r s g))
unfolding rebind_guarded
rebind_guarded-Rebound ctx r s o true h g k run = absurd (refused o run)
  where
    refused : (o : Option StorablePane) → rebind_guarded ctx r o h ≡ (ok s, g) → ⊥
    refused none e = ground (arith, k, e)
    refused (some cur) e = ground (arith, k, e)
rebind_guarded-Rebound ctx r s none false h g k run = absurd (ground (arith, k, run))
rebind_guarded-Rebound ctx r s (some cur) false h g k run =
    let e : rebind_in ctx r cur h h ≡ (ok s, g) =
      sym (ap (λ (c : Bool). (if c then throw no_runtime else λ x. rebind_in ctx r cur x x) h) k)
      ∙ run in
    (k, (cur, refl, rebind_in-Rebound ctx r s cur h g e))

-- A rebind that returns was of a unit that the reference names, neither a standing owner nor a service,
-- from inside a pane. Either its record and the pane index both named that pane for it already, and nothing
-- is written, or the index names no other unit for the pane that is not stopped or exited, the unit's old
-- pane is that one, or none, or one that it is known not to run in, and its record is bound to the calling pane, active and seen now, no other record changing.
pub rebind_unit-Rebound :
    (ctx : RuntimeContext) (ref : String) (h g : Hub) (s : AgentRecord)
    → rebind_unit ctx ref h ≡ (ok s, g)
    → (r : AgentRecord) × (resolve_agent h ref ≡ ok r)
      × (kind_is_independent r.kind ≡ false)
      × ((cur : StorablePane) × (storable_pane ctx.context ≡ some cur)
          × (Already cur h r s g ⊎ Rebound ctx cur h r s g))
unfolding rebind_unit
rebind_unit-Rebound ctx ref h g s e =
    let (r, k, e1) =
      asks-ok (resolve_agent h ref) h (λ r. rebind_guarded ctx r (storable_pane ctx.context)) s g
        e in
    let q =
      rebind_guarded-Rebound ctx r s (storable_pane ctx.context) (kind_is_independent r.kind) h g
        refl e1 in
    (r, k, q.0, q.1)
