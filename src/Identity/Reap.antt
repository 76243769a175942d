-- ===== src/Identity/Reap.antt =====
-- The reaping half of packages/cyberlegion/src/identity.ts: records of sessions that are gone become
-- `exited`, and unbound panes of a known harness get a record. `list_panes` answers alike within one
-- call, so the source's cache of its answers is not modelled.
pub mod Culling
pub mod Evidence
use cyberlegion.Prelude.{
  ℕ, suc, ◌*◌, ◌-◌, String, Bool, true, false, not, ◌&&◌, ◌||◌, ◌==◌, ltb, is_some, any, get_or,
  if◌then◌else◌, Option, none, some, List, [], ◌∷◌, ◌++◌,
}
use cyberlegion.Prelude.Chars.{take_chars}
use cyberlegion.Exec.{Exec, pure, reads, ◌>>=◌, ◌>>◌}
use cyberlegion.Hub.Types.{Hub, AgentRecord, Pane, Mux, Status, Harness}
use cyberlegion.Hub.SafeId.{sanitize_pane}
use cyberlegion.Hub.{get_agent, list_agents, put_agent, put_pane_index, resolve_pane_id}
use cyberlegion.Context.{Context, LivePane}
use cyberlegion.Identity.Liveness.{is_prunable, listed_or_unknown, lists_pane, pane_gone}
use cyberlegion.Identity.Presence.{resolve_self_id}
use cyberlegion.Identity.Register.{storable_pane, StorablePane, harness_in}

abbrev pub same_mux : Mux → Mux → Bool
same_mux Mux.tmux Mux.tmux = true
same_mux Mux.herdr Mux.herdr = true
same_mux _ _ = false

abbrev pub exited : AgentRecord → AgentRecord
exited r = record r { status = Status.exited }

-- The loop of `reconcile` and of `prune`: the records that `dead` names are saved as exited.
unfoldable pub cull : (AgentRecord → Bool) → List AgentRecord → Exec Hub (List AgentRecord)
cull dead [] = pure []
cull dead (r ∷ rs) =
    let rest = cull dead rs in
    if dead r then (do put_agent (exited r); changed ← rest; pure (exited r ∷ changed)) else rest

-- A record of the caller's multiplexer whose pane is not listed.
abbrev unlisted : Mux → List LivePane → Option Pane → Bool
unlisted mux panes none = false
unlisted mux panes (some p) = same_mux p.mux mux && not (lists_pane panes p.id)

abbrev pub reconciled : Mux → List LivePane → AgentRecord → Bool
reconciled mux panes r = is_prunable r && unlisted mux panes r.pane

abbrev pane_is : Mux → String → Option Pane → Bool
pane_is mux id none = false
pane_is mux id (some p) = same_mux p.mux mux && p.id == id

abbrev bound : Hub → Option String → Bool
bound h none = false
bound h (some id) = is_some (get_agent h id)

-- `''` is falsy, so an empty directory leaves the short id for the handle.
abbrev adopted_handle : Context → Option String → String → String
adopted_handle ctx none id = take_chars 6 id
adopted_handle ctx (some cwd) id =
    if cwd == "" then take_chars 6 id else sanitize_pane (ctx.checkout.basename cwd)

abbrev adopted_record : Context → LivePane → Mux → Harness → String → AgentRecord
adopted_record ctx pane mux harness id = record {
  id = id;
  handle = adopted_handle ctx pane.cwd id;
  harness = some harness;
  cwd = get_or pane.cwd "";
  worktree = none;
  pane = some (record { mux = mux; id = pane.id; window = none; session = none });
  pid = none;
  status = Status.active;
  created_at = ctx.now;
  last_seen = ctx.now;
  brief = none;
  launch = none;
  conversation = none;
  spawned_by = none;
  kind = none;
  service = none;
  presence = none;
  home = none;
}

adopt_pane :
    Context
    → List AgentRecord
    → LivePane
    → String
    → Option Mux
    → Option Harness
    → Exec Hub (List AgentRecord)
adopt_pane ctx agents pane id none harness = pure []
adopt_pane ctx agents pane id (some mux) none = pure []
adopt_pane ctx agents pane id (some mux) (some harness) = do
  taken ← reads (λ h. bound h (resolve_pane_id h pane.id))
  if taken || any (λ a. pane_is mux pane.id a.pane) agents then pure [] else (do
    put_agent (adopted_record ctx pane mux harness id)
    put_pane_index pane.id id
    pure (adopted_record ctx pane mux harness id ∷ []))

-- The n-th pane that is looked at takes the n-th random id, if it is adopted.
adopt_all : Context → List AgentRecord → ℕ → List LivePane → Exec Hub (List AgentRecord)
unfolding adopt_pane
adopt_all ctx agents n [] = pure []
adopt_all ctx agents n (pane ∷ panes) = do
  one ← adopt_pane ctx agents pane (ctx.random n) pane.mux (harness_in pane.harness)
  rest ← adopt_all ctx agents (suc n) panes
  pure (one ++ rest)

unfoldable pub adopt : Context → List LivePane → Exec Hub (List AgentRecord)
unfolding adopt_all
adopt ctx panes = do agents ← reads list_agents; adopt_all ctx agents 0 panes

-- No answer from the multiplexer culls nothing.
reconcile_listed : Context → Mux → Bool → List LivePane → Exec Hub (List AgentRecord)
reconcile_listed ctx mux adopts [] = pure []
reconcile_listed ctx mux adopts (p ∷ ps) = do
  records ← reads list_agents
  culled ← cull (reconciled mux (p ∷ ps)) records
  adopted ← if adopts then adopt ctx (p ∷ ps) else pure []
  pure (culled ++ adopted)

reconcile_in : Context → Bool → Option StorablePane → Exec Hub (List AgentRecord)
unfolding reconcile_listed
reconcile_in ctx adopts none = pure []
reconcile_in ctx adopts (some cur) = reconcile_listed ctx cur.mux adopts (ctx.list_panes cur.mux)

unfoldable pub reconcile : Context → Bool → Exec Hub (List AgentRecord)
unfolding reconcile_in
reconcile ctx adopts = reconcile_in ctx adopts (storable_pane ctx)

abbrev pub stale_ms : ℕ
stale_ms = 15 * 60 * 1000

abbrev pub gone_or_stale : Context → AgentRecord → Option Pane → Bool
gone_or_stale ctx r none = ltb stale_ms (ctx.now - r.last_seen)
gone_or_stale ctx r (some pane) = pane_gone ctx pane

abbrev pub pruned : Context → AgentRecord → Bool
pruned ctx r = is_prunable r && gone_or_stale ctx r r.pane

unfoldable pub prune : Context → Exec Hub (List AgentRecord)
prune ctx = do
  changed ← reconcile ctx false
  records ← reads list_agents
  more ← cull (pruned ctx) records
  pure (changed ++ more)

bump_found : Context → Option AgentRecord → Exec Hub (Unit {0})
bump_found ctx none = pure tt
bump_found ctx (some r) = put_agent (record r { last_seen = ctx.now })

unfoldable pub bump_last_seen : Context → String → Exec Hub (Unit {0})
unfolding bump_found
bump_last_seen ctx id = do found ← reads (λ h. get_agent h id); bump_found ctx found

touch_self : Context → Option String → Exec Hub (Unit {0})
touch_self ctx none = pure tt
touch_self ctx (some id) = bump_last_seen ctx id

unfoldable pub touch : Context → Exec Hub (Unit {0})
unfolding touch_self
touch ctx = do self ← reads (λ h. resolve_self_id ctx h); touch_self ctx self
