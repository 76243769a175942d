-- ===== src/Identity/Reap/Evidence.antt =====
-- On what evidence `prune` of packages/cyberlegion/src/identity.ts marks a record exited.
use cyberlegion.Prelude.{
  String, true, false, ◌-◌, ◌<◌, Option, none, some, List, [], ◌∷◌, ◌≡◌, ◌⊎◌, ◌≢◌, inl, inr, refl,
  ap, ◌∙◌, In, arith,
}
use cyberlegion.Hub.Types.{Hub, AgentRecord, Pane, Mux, Status, Kind}
use cyberlegion.Hub.{get_agent, list_agents}
use cyberlegion.Context.{Context, LivePane}
use cyberlegion.Exec.{after-keeps}
use cyberlegion.Identity.Liveness.{
  is_prunable, is_session_independent, kind_is_independent, listed_or_unknown, lists_pane,
  pane_gone,
}
use cyberlegion.Identity.Register.{StorablePane, storable_pane}
use cyberlegion.Identity.Reap.{
  cull, exited, reconcile, reconcile_in, reconcile_listed, reconciled, prune, pruned, stale_ms,
  gone_or_stale, same_mux, unlisted,
}
use cyberlegion.Identity.Reap.Culling.{IsDead, ReapedAs, Reaps, Reaps-refl, cull-Reaps}

pub same_mux-eq : (a b : Mux) → same_mux a b ≡ true → a ≡ b
same_mux-eq Mux.tmux Mux.tmux e = refl
same_mux-eq Mux.herdr Mux.herdr e = refl
same_mux-eq Mux.tmux Mux.herdr e = absurd (ground (arith, e))
same_mux-eq Mux.herdr Mux.tmux e = absurd (ground (arith, e))

unlisted-IsDead :
    (ctx : Context) (mux : Mux) (q : LivePane) (qs : List LivePane) (r : AgentRecord)
    (o : Option Pane)
    → ctx.list_panes mux ≡ q ∷ qs
    → r.pane ≡ o
    → unlisted mux (q ∷ qs) o ≡ true
    → IsDead ctx r
unlisted-IsDead ctx mux q qs r none l o e = absurd (ground (arith, e))
unlisted-IsDead ctx mux q qs r (some p) l o e =
    let both : (same_mux p.mux mux ≡ true) × (lists_pane (q ∷ qs) p.id ≡ false) =
      ground (arith, e) in
    let m = same_mux-eq p.mux mux both.0 in
    inl (p, o, ap (λ x. listed_or_unknown x p.id) (ap ctx.list_panes m ∙ l) ∙ both.1)

is_reconciled-IsDead :
    (ctx : Context) (mux : Mux) (q : LivePane) (qs : List LivePane) (r : AgentRecord)
    → ctx.list_panes mux ≡ q ∷ qs
    → reconciled mux (q ∷ qs) r ≡ true
    → (is_prunable r ≡ true) × IsDead ctx r
is_reconciled-IsDead ctx mux q qs r l e =
    let both : (is_prunable r ≡ true) × (unlisted mux (q ∷ qs) r.pane ≡ true) = ground (arith, e) in
    (both.0, unlisted-IsDead ctx mux q qs r r.pane l refl both.1)

gone_or_stale-IsDead :
    (ctx : Context) (r : AgentRecord) (o : Option Pane)
    → r.pane ≡ o
    → gone_or_stale ctx r o ≡ true
    → IsDead ctx r
unfolding pane_gone
gone_or_stale-IsDead ctx r none o e = inr (o, ground (arith, e))
gone_or_stale-IsDead ctx r (some p) o e = inl (p, o, ground (arith, e))

is_pruned-IsDead :
    (ctx : Context) (r : AgentRecord) → pruned ctx r ≡ true → (is_prunable r ≡ true) × IsDead ctx r
is_pruned-IsDead ctx r e =
    let both : (is_prunable r ≡ true) × (gone_or_stale ctx r r.pane ≡ true) = ground (arith, e) in
    (both.0, gone_or_stale-IsDead ctx r r.pane refl both.1)

reconcile_listed-Reaps :
    (ctx : Context) (mux : Mux) (panes : List LivePane) (h : Hub)
    → ctx.list_panes mux ≡ panes
    → Reaps ctx h (reconcile_listed ctx mux false panes h).1
unfolding reconcile_listed
reconcile_listed-Reaps ctx mux [] h l = Reaps-refl ctx h
reconcile_listed-Reaps ctx mux (q ∷ qs) h l =
    let w =
      cull-Reaps ctx h (reconciled mux (q ∷ qs)) (λ r e. is_reconciled-IsDead ctx mux q qs r l e)
        (list_agents h) h (λ b i. inl i) (Reaps-refl ctx h) in
    after-keeps (Reaps ctx h) (cull (reconciled mux (q ∷ qs)) (list_agents h) h) _ w (λ a. w)

reconcile-Reaps : (ctx : Context) (h : Hub) → Reaps ctx h (reconcile ctx false h).1
unfolding reconcile
reconcile-Reaps ctx h = at (storable_pane ctx)
  where
    at : (o : Option StorablePane) → Reaps ctx h (reconcile_in ctx false o h).1
    at none = unfold reconcile_in in Reaps-refl ctx h
    at (some cur) = unfold reconcile_in in reconcile_listed-Reaps ctx cur.mux _ h refl

prune-Reaps : (ctx : Context) (h : Hub) → Reaps ctx h (prune ctx h).1
unfolding prune
prune-Reaps ctx h =
    after-keeps (Reaps ctx h) (reconcile ctx false h) _ (reconcile-Reaps ctx h) (λ changed.
      let g : Hub = (reconcile ctx false h).1 in
      let w =
        cull-Reaps ctx h (pruned ctx) (λ r e. is_pruned-IsDead ctx r e) (list_agents g) g
          (reconcile-Reaps ctx h).lists (reconcile-Reaps ctx h) in
      after-keeps (Reaps ctx h) (cull (pruned ctx) (list_agents g) g) _ w (λ a. w))

-- A session's own record, neither stopped nor exited.
abbrev pub IsRunning : AgentRecord → Type 0
IsRunning r =
    ((r.kind ≡ none) ⊎ (r.kind ≡ some Kind.session))
    × (r.status ≢ Status.exited)
    × (r.status ≢ Status.stopped)

-- The record's pane is missing from a list that its multiplexer gave, or it has no pane and was not seen
-- for more than the stale time.
abbrev pub IsGone : Context → AgentRecord → Type 0
IsGone ctx r =
    ((p : Pane) × (r.pane ≡ some p)
      × (ctx.list_panes p.mux ≢ [])
      × (lists_pane (ctx.list_panes p.mux) p.id ≡ false))
    ⊎ ((r.pane ≡ none) × (stale_ms < ctx.now - r.last_seen))

-- `h` reads the id as `r`, marked exited, where `r` was a running record of `g` whose session is gone.
abbrev pub IsReaped : Context → Hub → Hub → String → Type 0
IsReaped ctx g h id =
    (r : AgentRecord) × In r (list_agents g)
    × (r.id ≡ id)
    × IsRunning r
    × IsGone ctx r
    × (get_agent h id ≡ some (exited r))

is_prunable-IsRunning : (r : AgentRecord) → is_prunable r ≡ true → IsRunning r
unfolding is_prunable is_session_independent
is_prunable-IsRunning r e =
    (kind_of r.kind (ground (arith, e)), λ q. ground (arith, e, q), λ q. ground (arith, e, q))
  where
    kind_of :
        (k : Option Kind) → kind_is_independent k ≡ false → (k ≡ none) ⊎ (k ≡ some Kind.session)
    kind_of none q = inl refl
    kind_of (some Kind.session) q = inr refl
    kind_of (some Kind.standing) q = absurd (ground (arith, q))
    kind_of (some Kind.service) q = absurd (ground (arith, q))

unlisted_of :
    (panes : List LivePane) (id : String)
    → listed_or_unknown panes id ≡ false
    → (panes ≢ []) × (lists_pane panes id ≡ false)
unlisted_of [] id e = absurd (ground (arith, e))
unlisted_of (p ∷ ps) id e = (λ q. ground (arith, q), e)

IsDead-IsGone : (ctx : Context) (r : AgentRecord) → IsDead ctx r → IsGone ctx r
IsDead-IsGone ctx r (inl (p, q, e)) =
    let u = unlisted_of (ctx.list_panes p.mux) p.id e in inl (p, q, u.0, u.1)
IsDead-IsGone ctx r (inr s) = inr s

-- After `prune`, whether it returns or throws, each id reads as before, or as a record of the hub that
-- is marked exited and changed in nothing else, that was a session's own, neither stopped nor exited,
-- and that was gone: its pane is missing from a nonempty list that its multiplexer gave, or it had no
-- pane and was not seen for more than the stale time.
pub prune-IsReaped :
    (ctx : Context) (h : Hub) (id : String)
    → (get_agent (prune ctx h).1 id ≡ get_agent h id) ⊎ IsReaped ctx h (prune ctx h).1 id
prune-IsReaped ctx h id = reaped ((prune-Reaps ctx h).reads id)
  where
    reaped :
        (get_agent (prune ctx h).1 id ≡ get_agent h id) ⊎ ReapedAs ctx h (prune ctx h).1 id
        → (get_agent (prune ctx h).1 id ≡ get_agent h id) ⊎ IsReaped ctx h (prune ctx h).1 id
    reaped (inl e) = inl e
    reaped (inr (r, i, q, p, d, e)) =
        inr (r, i, q, is_prunable-IsRunning r p, IsDead-IsGone ctx r d, e)
