-- ===== src/Runtime.antt =====
-- packages/cyberlegion/src/unit-runtime.ts: ending a unit's session while the unit stays, binding a unit
-- to the calling pane, and what is known of a session. The multiplexers are given from outside.
pub mod Stop
pub mod Rebind
pub mod Restart
mod Tests
use cyberlegion.Prelude.{
  String, Bool, true, false, not, ◌&&◌, ◌||◌, ◌==◌, opt_is, is_some, any, or_else, if◌then◌else◌,
  Option, none, some, List, [], ◌∷◌,
}
use cyberlegion.Exec.{
  Exec, Result, ok, err, pure, throw, asks, reads, ◌>>=◌, ◌>>◌, no_runtime, own_session,
  still_listed, no_pane_here, pane_held, may_still_run,
}
use cyberlegion.Hub.Types.{Hub, AgentRecord, Kind, Mux, Pane, Status}
use cyberlegion.Hub.{
  get_agent, put_agent, put_pane_index, remove_pane_index, resolve_pane_id, find_pane_by_agent_id,
}
use cyberlegion.Context.{Context, LivePane}
use cyberlegion.Identity.Liveness.{is_exited, is_stopped, kind_is_independent, lists_pane}
use cyberlegion.Identity.Resolve.{resolve_agent}
use cyberlegion.Identity.Presence.{resolve_self_id, nonempty}
use cyberlegion.Identity.Register.{storable_pane, StorablePane}
use cyberlegion.Identity.Reap.{same_mux}

-- A session backend: the one that the caller handed in, a multiplexer, or what the environment selects.
pub data Backend : Type 0 where
  given selected : Backend
  of_mux : Mux → Backend

pub record RuntimeContext : Type 0 where
  pub context : Context
  pub is_given : Bool
  -- whether `selectSessionAdapter` finds a backend
  pub is_selectable : Bool
  -- the panes that a backend lists, and those that it lists after it was asked to tear one down
  pub list_panes : Backend → List LivePane
  pub list_after : Backend → String → List LivePane

pub record StopResult : Type 0 where
  pub agent : AgentRecord
  pub pane : Option String
  pub verified : Bool
  pub already_stopped : Bool

abbrev pub id_of_pane : Option Pane → Option String
id_of_pane none = none
id_of_pane (some p) = some p.id

unfoldable pub runtime_pane : Hub → AgentRecord → Option String
runtime_pane h r = or_else (id_of_pane r.pane) (find_pane_by_agent_id h r.id)

abbrev backend_of : RuntimeContext → Option Pane → Option Backend
backend_of ctx none = if ctx.is_selectable then some Backend.selected else none
backend_of ctx (some p) = some (Backend.of_mux p.mux)

unfoldable pub pane_adapter : RuntimeContext → AgentRecord → Option Backend
pane_adapter ctx r = if ctx.is_given then some Backend.given else backend_of ctx r.pane

abbrev pub stopped_record : AgentRecord → AgentRecord
stopped_record r = record r { status = Status.stopped; pane = none }

abbrev pub drop_index : Option String → Exec Hub (Unit {0})
drop_index none = pure tt
drop_index (some pane) = remove_pane_index pane

unfoldable pub mark_stopped : AgentRecord → Option String → Exec Hub AgentRecord
mark_stopped r pane = do put_agent (stopped_record r); drop_index pane; pure (stopped_record r)

abbrev stop_result : Option String → Bool → AgentRecord → StopResult
stop_result pane verified r = record {
  agent = r;
  pane = pane;
  verified = verified;
  already_stopped = false;
}

stop_listed : RuntimeContext → AgentRecord → String → Backend → Exec Hub StopResult
stop_listed ctx r pane backend =
    if lists_pane (ctx.list_after backend pane) pane then throw still_listed else (do
      s ← mark_stopped r (some pane)
      pure (
          stop_result (some pane)
            (elim (ctx.list_after backend pane) [ [] ↦ false | p ∷ ps ↦ true ]) s))

stop_in : RuntimeContext → AgentRecord → Option String → Option Backend → Exec Hub StopResult
unfolding stop_listed
stop_in ctx r none backend = do s ← mark_stopped r none; pure (stop_result none false s)
stop_in ctx r (some pane) none = do
  s ← mark_stopped r (some pane)
  pure (stop_result (some pane) false s)
stop_in ctx r (some pane) (some backend) = stop_listed ctx r pane backend

-- An empty pane id is falsy.
unfoldable pub stop_runtime : RuntimeContext → AgentRecord → Exec Hub StopResult
unfolding stop_in
stop_runtime ctx r = do
  pane ← reads (λ h. nonempty (runtime_pane h r))
  stop_in ctx r pane (pane_adapter ctx r)

stop_guarded : RuntimeContext → AgentRecord → Option String → Exec Hub StopResult
stop_guarded ctx r self =
    if kind_is_independent r.kind
    then throw no_runtime
    else if opt_is self r.id
    then throw own_session
    else if is_stopped r.status
    then pure (record { agent = r; pane = none; verified = true; already_stopped = true })
    else stop_runtime ctx r

unfoldable pub stop_unit : RuntimeContext → String → Exec Hub StopResult
unfolding stop_guarded
stop_unit ctx ref = do
  r ← asks (λ h. resolve_agent h ref)
  self ← reads (λ h. resolve_self_id ctx.context h)
  stop_guarded ctx r self

pub data Liveness : Type 0 where
  live gone unknown stopped exited without : Liveness

abbrev pub listed_as : List LivePane → String → Liveness
listed_as [] id = Liveness.unknown
listed_as (p ∷ ps) id = if lists_pane (p ∷ ps) id then Liveness.live else Liveness.gone

abbrev pub probe_pane : RuntimeContext → Option String → Option Backend → Liveness
probe_pane ctx none backend = Liveness.unknown
probe_pane ctx (some pane) none = Liveness.unknown
probe_pane ctx (some pane) (some backend) = listed_as (ctx.list_panes backend) pane

unfoldable pub probe_liveness : RuntimeContext → Hub → AgentRecord → Liveness
probe_liveness ctx h r =
    if kind_is_independent r.kind
    then Liveness.without
    else if is_stopped r.status
    then Liveness.stopped
    else if is_exited r.status
    then Liveness.exited
    else probe_pane ctx (nonempty (runtime_pane h r)) (pane_adapter ctx r)

abbrev pane_here : StorablePane → Option Pane → Bool
pane_here cur none = false
pane_here cur (some p) = same_mux p.mux cur.mux && p.id == cur.pane

abbrev pub has_session : AgentRecord → Bool
has_session r = not (is_stopped r.status) && not (is_exited r.status)

abbrev holds : Option AgentRecord → Bool
holds none = false
holds (some r) = has_session r

-- Another unit that the pane index names for the calling pane, if it may have a session.
abbrev pub held_by_other : Hub → AgentRecord → Option String → Bool
held_by_other h r none = false
held_by_other h r (some id) = if id == "" || id == r.id then false else holds (get_agent h id)

abbrev pub may_run : Liveness → Bool
may_run Liveness.live = true
may_run Liveness.unknown = true
may_run _ = false

-- The unit's own pane, where it is not the calling one.
abbrev pub other_pane : StorablePane → Option String → Option String
other_pane cur none = none
other_pane cur (some old) = if old == "" || old == cur.pane then none else some old

abbrev pub bound_record : RuntimeContext → StorablePane → AgentRecord → AgentRecord
bound_record ctx cur r = record r {
  status = Status.active;
  pane = some (record { mux = cur.mux; id = cur.pane; window = none; session = none });
  last_seen = ctx.context.now;
}

unfoldable pub bind_pane :
    RuntimeContext → StorablePane → AgentRecord → Option String → Exec Hub AgentRecord
bind_pane ctx cur r old = do
  put_agent (bound_record ctx cur r)
  drop_index old
  put_pane_index cur.pane r.id
  pure (bound_record ctx cur r)

rebind_in : RuntimeContext → AgentRecord → StorablePane → Hub → Exec Hub AgentRecord
rebind_in ctx r cur h =
    let old = other_pane cur (runtime_pane h r) in
    if pane_here cur r.pane && opt_is (resolve_pane_id h cur.pane) r.id
    then pure r
    else if held_by_other h r (resolve_pane_id h cur.pane)
    then throw pane_held
    else if is_some old && may_run (probe_liveness ctx h r)
    then throw may_still_run
    else bind_pane ctx cur r old

rebind_guarded : RuntimeContext → AgentRecord → Option StorablePane → Exec Hub AgentRecord
unfolding rebind_in
rebind_guarded ctx r none =
    if kind_is_independent r.kind then throw no_runtime else throw no_pane_here
rebind_guarded ctx r (some cur) =
    if kind_is_independent r.kind then throw no_runtime else λ h. rebind_in ctx r cur h h

unfoldable pub rebind_unit : RuntimeContext → String → Exec Hub AgentRecord
unfolding rebind_guarded
rebind_unit ctx ref = do
  r ← asks (λ h. resolve_agent h ref)
  rebind_guarded ctx r (storable_pane ctx.context)

keep_conversation : String → AgentRecord → Exec Hub (Unit {0})
keep_conversation id r =
    if kind_is_independent r.kind || opt_is r.conversation id
    then pure tt
    else put_agent (record r { conversation = some id })

conversation_of : String → Option AgentRecord → Exec Hub (Unit {0})
unfolding keep_conversation
conversation_of id none = pure tt
conversation_of id (some r) = keep_conversation id r

abbrev own_record : Hub → Option String → Option AgentRecord
own_record h none = none
own_record h (some id) = get_agent h id

conversation_in : Context → Option String → Exec Hub (Unit {0})
unfolding conversation_of
conversation_in ctx none = pure tt
conversation_in ctx (some id) = do
  r ← reads (λ h. own_record h (nonempty (resolve_self_id ctx h)))
  conversation_of id r

-- `session` is the text under `session_id` in the hook's input, if it parses and has one.
unfoldable pub record_conversation : Context → Option String → Exec Hub (Unit {0})
unfolding conversation_in
record_conversation ctx session = conversation_in ctx (nonempty session)
