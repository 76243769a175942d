-- ===== src/Runtime/Restart/Refused.antt =====
-- What a `restartUnit` of packages/cyberlegion/src/unit-runtime.ts that throws leaves.
use cyberlegion.Prelude.{
  String, Bool, true, false, opt_is, if◌then◌else◌, Option, none, some, ◌∷◌, ◌≡◌, ◌⊎◌, inl, inr,
  refl, sym, ap, subst, ◌∙◌, arith,
}
use cyberlegion.Exec.{
  Exec, Error, Result, ok, err, writes, asks, after-err, throw, ◌>>=◌, ◌>>◌, from_option, reads,
  no_runtime, own_session, cwd_gone, open_failed,
}
use cyberlegion.Exec.Throws.{
  Total, Frozen, Total-bind, Total-pure, Frozen-first, Frozen-after, Frozen-Total, Frozen-throw,
  Frozen-if,
}
use cyberlegion.Hub.Throws.{put_agent-Frozen, put_agent-Total}
use cyberlegion.Hub.Types.{Hub, AgentRecord, Harness}
use cyberlegion.Hub.SafeId.{is_safe_id}
use cyberlegion.Hub.{put_agent, put_pane_index, remove_pane_index}
use cyberlegion.Identity.Liveness.{is_stopped, kind_is_independent, lists_pane}
use cyberlegion.Identity.Resolve.{resolve_agent}
use cyberlegion.Identity.Presence.{resolve_self_id, nonempty}
use cyberlegion.Runtime.{
  Backend, RuntimeContext, runtime_pane, pane_adapter, stopped_record, drop_index, mark_stopped,
  stop_listed, stop_in, stop_runtime,
}
use cyberlegion.Runtime.Restart.{
  Opening, shims_after, asked_floor, Floor, RestartContext, RestartOptions, RestartResult, on_hub,
  opening_of, restarted_record, bind_and_ring, end_running, bind_session, ring_session,
  open_session, restart_ended, restart_launchable, restart_guarded, restart_unit, restart_result,
}
use cyberlegion.Runtime.Restart.Phases.{EndedAs, end_running-EndedAs, with_hub}

drop_index-Total : (pane : Option String) → Total (drop_index pane)
unfolding remove_pane_index
drop_index-Total none = Total-pure tt
drop_index-Total (some pane) = record { total = λ s t e run. ground (arith, run) }

mark_stopped-Frozen : (r : AgentRecord) (pane : Option String) → Frozen (mark_stopped r pane)
unfolding mark_stopped
mark_stopped-Frozen r pane =
    Frozen-first (put_agent (stopped_record r)) _ (put_agent-Frozen _)
      λ x. Total-bind (drop_index pane) _ (drop_index-Total pane) λ y. Total-pure _

stop_in-Frozen :
    (ctx : RuntimeContext) (r : AgentRecord) (pane : Option String) (b : Option Backend)
    → Frozen (stop_in ctx r pane b)
unfolding stop_in stop_listed
stop_in-Frozen ctx r none b =
    Frozen-first (mark_stopped r none) _ (mark_stopped-Frozen r none) λ s. Total-pure _
stop_in-Frozen ctx r (some p) none =
    Frozen-first (mark_stopped r (some p)) _ (mark_stopped-Frozen r (some p)) λ s. Total-pure _
stop_in-Frozen ctx r (some p) (some b) =
    Frozen-if (lists_pane (ctx.list_after b p) p) _ _ (Frozen-throw _)
      (Frozen-first (mark_stopped r (some p)) _ (mark_stopped-Frozen r (some p)) λ s. Total-pure _)

-- A stop that throws has written nothing.
stop_runtime-Frozen : (ctx : RuntimeContext) (r : AgentRecord) → Frozen (stop_runtime ctx r)
unfolding stop_runtime
stop_runtime-Frozen ctx r =
    Frozen-after (reads (λ h. nonempty (runtime_pane h r))) _ (λ s. refl)
      λ pane. stop_in-Frozen ctx r pane (pane_adapter ctx r)

on_hub-Frozen : {A : Type 0} (m : Exec Hub A) → Frozen m → Frozen (on_hub m)
unfolding with_hub
on_hub-Frozen m q = record {
  frozen = λ s t e run.
      let same : (m s.desk.hub).1 ≡ s.desk.hub =
        q.frozen s.desk.hub (m s.desk.hub).1 e (ground (arith, run)) in
      ap (λ z. z.1) (sym run) ∙ ap (with_hub s) same;
}

on_hub-Total : {A : Type 0} (m : Exec Hub A) → Total m → Total (on_hub m)
on_hub-Total m q = record {
  total = λ s t e run. q.total s.desk.hub (m s.desk.hub).1 e (ground (arith, run));
}

end_running-Frozen : (ctx : RuntimeContext) (r : AgentRecord) → Frozen (end_running ctx r)
unfolding end_running
end_running-Frozen ctx r = Frozen-if (is_stopped r.status) _ _ (Frozen-Total _ (Total-pure _)) (
    Frozen-first (on_hub (stop_runtime ctx r)) _ (on_hub-Frozen _ (stop_runtime-Frozen ctx r))
      λ s. Total-pure _)

bind_and_ring-Total :
    (c : RestartContext) (o : RestartOptions) (harness : Harness) (a : AgentRecord)
    (p : Option String) (pane : String)
    → is_safe_id a.id ≡ true
    → Total (bind_and_ring c o harness a p pane)
unfolding bind_and_ring bind_session ring_session put_pane_index
bind_and_ring-Total c o harness a p pane k =
    Total-bind (bind_session c a pane) _
      (on_hub-Total (do put_agent (restarted_record c a pane); put_pane_index pane a.id)
        (Total-bind (put_agent (restarted_record c a pane)) _ (put_agent-Total _ k)
          λ x. record { total = λ s t e run. ground (arith, run) }))
      λ x.
        Total-bind (ring_session c o a harness pane) _
          (record { total = λ s t e run. ground (arith, run) })
          λ w. Total-pure (restart_result c o harness a p pane w)

-- No adapter could be selected, and nothing was asked for; or the session was asked for, its shim written
-- where the caller's invocation is known, and did not open.
abbrev pub Unopened : RestartContext → String → Opening → Floor → Floor → Type 0
Unopened c id opening m g =
    ((c.has_backend ≡ false) × (g ≡ m))
    ⊎ ((c.has_backend ≡ true)
        × (c.opens opening ≡ none)
        × (g ≡ record m { opened = opening ∷ m.opened; shims = shims_after c id m.shims }))

err_part :
    (e : Error) (s t : Floor)
    → ◌≡◌ {A = Result String × Floor} (err open_failed, s) (err e, t)
    → e ≡ open_failed
err_part e s t p = cc

open_session-Unopened :
    (c : RestartContext) (id : String) (opening : Opening) (m g : Floor) (e : Error)
    → open_session c id opening m ≡ (err e, g)
    → (e ≡ open_failed) × Unopened c id opening m g
unfolding open_session
open_session-Unopened c id opening m g e run = go c.has_backend (c.opens opening) refl refl run
  where
    go :
        (b : Bool) (o : Option String)
        → c.has_backend ≡ b
        → c.opens opening ≡ o
        → (if b
              then (do writes (asked_floor c id opening); asks (λ x. from_option open_failed o))
              else throw open_failed)
            m
          ≡ (err e, g)
        → (e ≡ open_failed) × Unopened c id opening m g
    go false o p q t = (err_part e m g t, inl (p, sym (ap (λ z. z.1) t)))
    go true none p q t =
        (err_part e (asked_floor c id opening m) g t, inr (p, q, sym (ap (λ z. z.1) t)))
    go true (some pane) p q t = absurd (ground (arith, t))

-- No session was opened; by then the unit `r` was recorded stopped, or was so before.
pub record Stranded (c : RestartContext) (o : RestartOptions) (f : Floor) (r : AgentRecord)
    (e : Error) (g : Floor) : Type 0 where
  pub failed : e ≡ open_failed
  pub harness : Harness
  pub stopped : AgentRecord
  pub between : Floor
  pub ended : EndedAs c.runtime f r stopped between
  pub unopened : Unopened c stopped.id (opening_of c o stopped harness) between g

module _ (c : RestartContext) (o : RestartOptions) (f : Floor) (r : AgentRecord)
    (safe : is_safe_id r.id ≡ true) where
  abbrev Left : Error → Floor → Type 0
  Left e g = (g ≡ f) ⊎ Stranded c o f r e g

  ended-id : (a : AgentRecord) (m : Floor) → EndedAs c.runtime f r a m → is_safe_id a.id ≡ true
  ended-id a m (inl (y, same, left)) = ap (λ (x : AgentRecord). is_safe_id x.id) same ∙ safe
  ended-id a m (inr (same, s, v, q, t, u)) = ap (λ (x : AgentRecord). is_safe_id x.id) same ∙ safe

  restart_ended-Left :
      (harness : Harness) (a : AgentRecord) (p : Option String) (m g : Floor) (e : Error)
      → EndedAs c.runtime f r a m
      → restart_ended c o harness (a, p) m ≡ (err e, g)
      → Left e g
  unfolding restart_ended
  restart_ended-Left harness a p m g e w run =
      elim (after-err (open_session c a.id (opening_of c o a harness) m)
        (λ pane. bind_and_ring c o harness a p pane) e g run) [
          | inl x ↦
              let q = open_session-Unopened c a.id (opening_of c o a harness) m g e x in
              inr (record {
                failed = q.0;
                harness = harness;
                stopped = a;
                between = m;
                ended = w;
                unopened = q.1;
              })
          | inr (pane, t, x, y) ↦
              absurd ((bind_and_ring-Total c o harness a p pane (ended-id a m w)).total t g e y)
        ]

  launchable-Left :
      (h : Option Harness) (g : Floor) (e : Error)
      → restart_launchable c o r h f ≡ (err e, g)
      → Left e g
  unfolding restart_launchable
  launchable-Left none g e run = inl (sym (ap (λ z. z.1) run))
  launchable-Left (some harness) g e run = go (c.exists r.cwd) run
    where
      go :
          (b : Bool)
          → (if b
                then (end_running c.runtime r >>= λ x. restart_ended c o harness x)
                else throw cwd_gone)
              f
            ≡ (err e, g)
          → Left e g
      go false t = inl (sym (ap (λ z. z.1) t))
      go true t = elim (after-err (end_running c.runtime r f) (restart_ended c o harness) e g t) [
        | inl x ↦ inl ((end_running-Frozen c.runtime r).frozen f g e x)
        | inr ((a, p), m, x, y) ↦
            restart_ended-Left harness a p m g e (end_running-EndedAs c.runtime r a p f m x) y
      ]

  guarded-Left :
      (self : Option String) (g : Floor) (e : Error)
      → restart_guarded c o r self f ≡ (err e, g)
      → Left e g
  unfolding restart_guarded
  guarded-Left self g e run = go (kind_is_independent r.kind) (opt_is self r.id) run
    where
      go :
          (k s : Bool)
          → (if k
                then throw no_runtime
                else if s
                then throw own_session
                else restart_launchable c o r r.harness)
              f
            ≡ (err e, g)
          → Left e g
      go true s t = inl (sym (ap (λ z. z.1) t))
      go false true t = inl (sym (ap (λ z. z.1) t))
      go false false t = launchable-Left r.harness g e t

-- A restart that throws has changed nothing, unless the new session could not be opened: then the unit
-- that the reference names has been ended as by a stop, or was stopped before; no other record, and no mail,
-- brief, project, lease or main pane of the hub has changed, and nothing was typed. Either no adapter could
-- be selected and nothing was asked for, or one session was asked for, its shim written where the caller's
-- invocation is known. This holds where the ids of the records that references name are safe file names.
pub restart_unit-Left :
    (c : RestartContext) (o : RestartOptions) (ref : String) (f g : Floor) (e : Error)
    → ((r : AgentRecord) → resolve_agent f.desk.hub ref ≡ ok r → is_safe_id r.id ≡ true)
    → restart_unit c o ref f ≡ (err e, g)
    → (g ≡ f) ⊎ ((r : AgentRecord) × (resolve_agent f.desk.hub ref ≡ ok r) × Stranded c o f r e g)
unfolding restart_unit
restart_unit-Left c o ref f g e safe run =
    elim (after-err (resolve_agent f.desk.hub ref, f) rest e g run) [
      | inl x ↦ inl (sym (ap (λ z. z.1) x))
      | inr (r, t, x, y) ↦
          let same : t ≡ f = sym (ap (λ z. z.1) x) in
          let named : resolve_agent f.desk.hub ref ≡ ok r = ap (λ z. z.0) x in
          elim (guarded-Left c o f r (safe r named) (resolve_self_id c.runtime.context f.desk.hub) g
            e (subst (λ u. rest r u ≡ (err e, g)) same y)) [
              | inl kept ↦ inl kept
              | inr stranded ↦ inr (r, named, stranded)
            ]
    ]
  where
    rest : AgentRecord → Exec Floor RestartResult
    rest r u = restart_guarded c o r (resolve_self_id c.runtime.context u.desk.hub) u
