-- ===== src/Runtime/Tests.antt =====
-- Stops and rebinds on a small hub, and the properties of unit-runtime.ts at them.
use cyberlegion.Prelude.{true, false, ◌≡◌, ◌≢◌, ◌⊎◌, refl, none, some, [], ◌∷◌}
use cyberlegion.Prelude.Dict
use cyberlegion.Exec.{ok}
use cyberlegion.Hub.Types.{AgentRecord, Mux}
use cyberlegion.Hub.SafeId.{is_safe_id, sanitize_pane}
use cyberlegion.Hub.Sample.{unit_of, hub_of}
use cyberlegion.Hub.{
  get_agent, put_agent, read_safe, remove_pane_index, put_pane_index, resolve_pane_id,
  find_pane_by_agent_id,
}
use cyberlegion.Context.Sample.{sample}
use cyberlegion.Identity.Liveness.{kind_is_independent}
use cyberlegion.Identity.Resolve.{resolve_agent}
use cyberlegion.Identity.Presence.{resolve_self_id}
use cyberlegion.Runtime.{
  RuntimeContext, StopResult, stop_unit, stop_runtime, mark_stopped, runtime_pane, pane_adapter,
  stopped_record, bound_record, bind_pane, rebind_unit, probe_liveness,
}
use cyberlegion.Runtime.Stop.{stop_unit-Stop, Stop}
use cyberlegion.Runtime.Rebind.{rebind_unit-Rebound, Already, Rebound}
use cyberlegion.Identity.Register.{storable_pane, StorablePane}

abbrev worker : AgentRecord
worker = record (unit_of "u1") {
  pane = some (record { mux = Mux.tmux; id = "%1"; window = none; session = none });
}

-- A tmux whose pane goes away when it is torn down.
abbrev obedient : RuntimeContext
obedient = record {
  context = sample;
  is_given = false;
  is_selectable = false;
  list_panes = λ b. record { mux = some Mux.tmux; id = "%1"; harness = none; cwd = none } ∷ [];
  list_after = λ b p. record { mux = some Mux.tmux; id = "%2"; harness = none; cwd = none } ∷ [];
}

abbrev stopped_worker : StopResult
stopped_worker = record {
  agent = stopped_record worker;
  pane = some "%1";
  verified = true;
  already_stopped = false;
}

stop_unit-Stop_example :
    (r : AgentRecord) × (resolve_agent (hub_of (worker ∷ [])) "u1" ≡ ok r)
    × (kind_is_independent r.kind ≡ false)
    × (resolve_self_id sample (hub_of (worker ∷ [])) ≢ some r.id)
    × Stop obedient (hub_of (worker ∷ [])) r stopped_worker (hub_of (stopped_record worker ∷ []))
unfolding stop_unit stop_runtime resolve_agent resolve_self_id get_agent read_safe is_safe_id
    Dict.get Dict.put Dict.remove put_agent remove_pane_index mark_stopped runtime_pane pane_adapter
    sanitize_pane find_pane_by_agent_id
stop_unit-Stop_example =
    stop_unit-Stop obedient "u1" (hub_of (worker ∷ [])) (hub_of (stopped_record worker ∷ []))
      stopped_worker refl

-- A person's own session in another pane, when the worker's pane is gone.
abbrev by_hand : RuntimeContext
by_hand = record {
  context = record sample {
    now = 9;
    current_pane = some (record { mux = some Mux.tmux; pane = "%5" });
  };
  is_given = false;
  is_selectable = false;
  list_panes = λ b. record { mux = some Mux.tmux; id = "%5"; harness = none; cwd = none } ∷ [];
  list_after = λ b p. [];
}

abbrev here : StorablePane
here = record { mux = Mux.tmux; pane = "%5" }

abbrev moved_worker : AgentRecord
moved_worker = bound_record by_hand here worker

rebind_unit-Rebound_example :
    (r : AgentRecord) × (resolve_agent (hub_of (worker ∷ [])) "u1" ≡ ok r)
    × (kind_is_independent r.kind ≡ false)
    × ((cur : StorablePane) × (storable_pane by_hand.context ≡ some cur)
        × (Already cur
              (hub_of (worker ∷ []))
              r
              moved_worker
              (record (hub_of (moved_worker ∷ [])) { panes = ("_5", "u1") ∷ [] })
            ⊎ Rebound by_hand cur
                (hub_of (worker ∷ []))
                r
                moved_worker
                (record (hub_of (moved_worker ∷ [])) { panes = ("_5", "u1") ∷ [] })))
unfolding rebind_unit bind_pane resolve_agent storable_pane get_agent read_safe is_safe_id Dict.get
    Dict.put Dict.remove put_agent remove_pane_index put_pane_index resolve_pane_id runtime_pane
    pane_adapter sanitize_pane probe_liveness find_pane_by_agent_id
rebind_unit-Rebound_example =
    rebind_unit-Rebound by_hand "u1" (hub_of (worker ∷ []))
      (record (hub_of (moved_worker ∷ [])) { panes = ("_5", "u1") ∷ [] }) moved_worker refl
