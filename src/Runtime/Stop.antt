-- ===== src/Runtime/Stop.antt =====
-- What `stopUnit` of packages/cyberlegion/src/unit-runtime.ts leaves, and on what evidence it records a
-- stop.
use cyberlegion.Prelude.{
  String, Bool, true, false, opt_is, opt_is_iff, if◌then◌else◌, Option, none, some, [], ◌∷◌, ◌≡◌,
  ◌≢◌, ◌⊎◌, inl, inr, refl, sym, ap, subst, ◌∙◌, Bool-cases, arith,
}
use cyberlegion.Exec.{
  Result, ok, after, after-ok, asks-ok, pure, throw, ◌>>=◌, still_listed, no_runtime, own_session,
}
use cyberlegion.Hub.Types.{Hub, AgentRecord}
use cyberlegion.Hub.{get_agent, put_agent, remove_pane_index}
use cyberlegion.Identity.Liveness.{is_stopped, kind_is_independent, lists_pane}
use cyberlegion.Identity.Resolve.{resolve_agent}
use cyberlegion.Identity.Presence.{resolve_self_id, nonempty}
use cyberlegion.Identity.Presence.Binding.{IsWritten, put_agent-IsWritten}
use cyberlegion.Runtime.{
  Backend, RuntimeContext, StopResult, runtime_pane, pane_adapter, stopped_record, drop_index,
  mark_stopped, stop_listed, stop_in, stop_runtime, stop_guarded, stop_unit, stop_result,
}

-- All of the hub but its records and its pane index is as it was.
abbrev pub Kept : Hub → Hub → Type 0
Kept h g =
    (g.mailboxes ≡ h.mailboxes)
    × (g.briefs ≡ h.briefs)
    × (g.projects ≡ h.projects)
    × (g.leases ≡ h.leases)
    × (g.main_pane ≡ h.main_pane)
    × (g.marker ≡ h.marker)

pub Kept-trans : (a b c : Hub) → Kept a b → Kept b c → Kept a c
Kept-trans a b c p q = (q.0 ∙ p.0, q.1 ∙ p.1, q.2 ∙ p.2, q.3 ∙ p.3, q.4 ∙ p.4, q.5 ∙ p.5)

-- The record under its id is stopped and without a pane, its other fields as they were; no other record
-- and nothing else of the hub but the pane index changed.
abbrev pub IsStopped : Hub → AgentRecord → Hub → Type 0
IsStopped h r g = IsWritten h r.id (stopped_record r) g × Kept h g

-- There was no pane to end, or no backend to ask, or the backend was asked and lists the pane no more.
abbrev pub Ended : RuntimeContext → Hub → AgentRecord → Type 0
Ended ctx h r =
    (nonempty (runtime_pane h r) ≡ none)
    ⊎ ((pane_adapter ctx r ≡ none)
        ⊎ ((pane : String) × (b : Backend) × (nonempty (runtime_pane h r) ≡ some pane)
            × (pane_adapter ctx r ≡ some b)
            × (lists_pane (ctx.list_after b pane) pane ≡ false)))

pub put_agent-mail : (r : AgentRecord) (h : Hub) → Kept h (put_agent r h).1
unfolding put_agent
put_agent-mail r h = ground arith

pub drop_index-same :
    (pane : Option String) (h : Hub)
    → ((j : String) → get_agent (drop_index pane h).1 j ≡ get_agent h j)
      × Kept h (drop_index pane h).1
unfolding remove_pane_index get_agent
drop_index-same none h = (λ j. refl, (refl, refl, refl, refl, refl, refl))
drop_index-same (some pane) h = (λ j. refl, (refl, refl, refl, refl, refl, refl))

mark_stopped-IsStopped :
    (r s : AgentRecord) (pane : Option String) (h g : Hub)
    → mark_stopped r pane h ≡ (ok s, g)
    → (s ≡ stopped_record r) × IsStopped h r g
unfolding mark_stopped
mark_stopped-IsStopped r s pane h g e =
    let w : AgentRecord = stopped_record r in
    let (u, h1, put, e1) = after-ok (put_agent w h) _ s g e in
    let (v, h2, dropped, e2) = after-ok (drop_index pane h1) (λ u. pure w) s g e1 in
    let done : w ≡ s = cc in
    let last : h2 ≡ g = cc in
    let third : (drop_index pane h1).1 ≡ g = ap (λ x. x.1) dropped ∙ last in
    let first : (put_agent w h).1 ≡ h1 = ap (λ x. x.1) put in
    let d = drop_index-same pane h1 in
    let m = put_agent-mail w h in
    let ww = put_agent-IsWritten h h1 r.id w refl put in
    (
      sym done,
      (
        λ j. ap (λ (x : Hub). get_agent x j) (sym third) ∙ d.0 j ∙ ww j,
        subst (λ (x : Hub). Kept h x) third
            (Kept-trans h h1 (drop_index pane h1).1 (subst (λ (x : Hub). Kept h x) first m) d.1),
      ),
    )

result-IsStopped :
    (r : AgentRecord) (pane : Option String) (f : AgentRecord → StopResult) (s : StopResult)
    (h g : Hub)
    → ((a : AgentRecord) → (f a).agent ≡ a)
    → after (mark_stopped r pane h) (λ a. pure (f a)) ≡ (ok s, g)
    → (s.agent ≡ stopped_record r) × IsStopped h r g
result-IsStopped r pane f s h g keeps e =
    let (a, h1, run, e1) = after-ok (mark_stopped r pane h) (λ a. pure (f a)) s g e in
    let done : f a ≡ s = cc in
    let last : h1 ≡ g = cc in
    let q = mark_stopped-IsStopped r a pane h h1 run in
    (
      ap (λ (x : StopResult). x.agent) (sym done) ∙ keeps a ∙ q.0,
      subst (λ x. IsStopped h r x) last q.1,
    )

stop_in-Ended :
    (ctx : RuntimeContext) (r : AgentRecord) (o : Option String) (b : Option Backend)
    (s : StopResult) (h g : Hub)
    → nonempty (runtime_pane h r) ≡ o
    → pane_adapter ctx r ≡ b
    → stop_in ctx r o b h ≡ (ok s, g)
    → (s.agent ≡ stopped_record r) × IsStopped h r g × Ended ctx h r
unfolding stop_in stop_listed
stop_in-Ended ctx r none b s h g p q e =
    let k = result-IsStopped r none (stop_result none false) s h g (λ a. refl) e in
    (k.0, k.1, inl p)
stop_in-Ended ctx r (some pane) none s h g p q e =
    let k = result-IsStopped r (some pane) (stop_result (some pane) false) s h g (λ a. refl) e in
    (k.0, k.1, inr (inl q))
stop_in-Ended ctx r (some pane) (some b) s h g p q e =
    elim (Bool-cases (lists_pane (ctx.list_after b pane) pane)) [
      | inl y ↦ absurd (ground (arith, e, y))
      | inr n ↦
          let verified : Bool = elim (ctx.list_after b pane) [ [] ↦ false | x ∷ xs ↦ true ] in
          let k =
            result-IsStopped r (some pane) (stop_result (some pane) verified) s h g (λ a. refl)
              (sym (ap (chosen verified) n) ∙ e) in
          (k.0, k.1, inr (inr (pane, b, p, q, n)))
    ]
  where
    chosen : Bool → Bool → Result StopResult × Hub
    chosen verified c =
        (if c
            then throw still_listed
            else (mark_stopped r (some pane) >>= λ a. pure (stop_result (some pane) verified a)))
          h

pub stop_runtime-Ended :
    (ctx : RuntimeContext) (r : AgentRecord) (s : StopResult) (h g : Hub)
    → stop_runtime ctx r h ≡ (ok s, g)
    → (s.agent ≡ stopped_record r) × IsStopped h r g × Ended ctx h r
unfolding stop_runtime
stop_runtime-Ended ctx r s h g e = stop_in-Ended ctx r _ _ s h g refl refl e

-- What a stop that returns did to the record that the reference names.
abbrev pub Stop : RuntimeContext → Hub → AgentRecord → StopResult → Hub → Type 0
Stop ctx h r s g =
    ((is_stopped r.status ≡ true) × (s.agent ≡ r) × (s.already_stopped ≡ true) × (g ≡ h))
    ⊎ ((s.agent ≡ stopped_record r) × IsStopped h r g × Ended ctx h r)

guarded-Stop :
    (ctx : RuntimeContext) (r : AgentRecord) (self : Option String) (s : StopResult) (h g : Hub)
    → stop_guarded ctx r self h ≡ (ok s, g)
    → (kind_is_independent r.kind ≡ false) × (self ≢ some r.id) × Stop ctx h r s g
unfolding stop_guarded stop_runtime
guarded-Stop ctx r self s h g e =
    by_case (kind_is_independent r.kind) (opt_is self r.id) (is_stopped r.status) refl refl refl e
  where
    was_stopped : StopResult
    was_stopped = record { agent = r; pane = none; verified = true; already_stopped = true }

    by_case :
        (c d z : Bool)
        → kind_is_independent r.kind ≡ c
        → opt_is self r.id ≡ d
        → is_stopped r.status ≡ z
        → (if c
              then throw no_runtime
              else if d
              then throw own_session
              else if z
              then pure was_stopped
              else (λ x. stop_in ctx r (nonempty (runtime_pane x r)) (pane_adapter ctx r) x))
            h
          ≡ (ok s, g)
        → (kind_is_independent r.kind ≡ false) × (self ≢ some r.id) × Stop ctx h r s g
    by_case true d z k o l run = absurd (ground (arith, run))
    by_case false true z k o l run = absurd (ground (arith, run))
    by_case false false true k o l run =
        let same : was_stopped ≡ s = cc in
        let left : h ≡ g = cc in
        (
          k,
          λ q. ground (arith, o, (opt_is_iff self r.id).1 q),
          inl (
            l,
            ap (λ (x : StopResult). x.agent) (sym same),
            ap (λ (x : StopResult). x.already_stopped) (sym same),
            sym left,
          ),
        )
    by_case false false false k o l run = (
      k,
      λ q. ground (arith, o, (opt_is_iff self r.id).1 q),
      inr (stop_in-Ended ctx r _ _ s h g refl refl run),
    )

-- A stop that returns was of a unit that the reference names, neither a standing owner nor a service nor
-- the caller's own. A unit that was stopped already is returned, and nothing is written. Otherwise its
-- record is stopped and without a pane, its other fields, every other record, all mail, briefs, projects
-- and leases and the main pane are as they were, and there was no pane to end, or no backend to ask, or the backend was asked to end
-- the pane and lists it no more.
pub stop_unit-Stop :
    (ctx : RuntimeContext) (ref : String) (h g : Hub) (s : StopResult)
    → stop_unit ctx ref h ≡ (ok s, g)
    → (r : AgentRecord) × (resolve_agent h ref ≡ ok r)
      × (kind_is_independent r.kind ≡ false)
      × (resolve_self_id ctx.context h ≢ some r.id)
      × Stop ctx h r s g
unfolding stop_unit
stop_unit-Stop ctx ref h g s e =
    let (r, k, e1) =
      asks-ok (resolve_agent h ref) h (λ r x. stop_guarded ctx r (resolve_self_id ctx.context x) x)
        s g e in
    let q = guarded-Stop ctx r (resolve_self_id ctx.context h) s h g e1 in (r, k, q.0, q.1, q.2)
