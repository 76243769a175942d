-- ===== src/Runtime/Restart/Tests.antt =====
-- Restarts of a unit in a small hub, and the properties of `restartUnit` at them.
use cyberlegion.Prelude.{true, false, ◌≡◌, ◌≢◌, ◌⊎◌, refl, none, some, [], ◌∷◌, Bool, sym, ap}
use cyberlegion.Prelude.Dict
use cyberlegion.Exec.{Result, ok, err, open_failed}
use cyberlegion.Hub.Types.{AgentRecord, Harness, Mux, Status}
use cyberlegion.Hub.SafeId.{is_safe_id, sanitize_pane}
use cyberlegion.Hub.Sample.{unit_of, hub_of}
use cyberlegion.Hub.{get_agent, put_agent, read_safe, put_pane_index}
use cyberlegion.Context.Sample.{sample}
use cyberlegion.Identity.Liveness.{kind_is_independent}
use cyberlegion.Identity.Resolve.{resolve_agent}
use cyberlegion.Identity.Presence.{resolve_self_id}
use cyberlegion.Console.Guard.{default_options}
use cyberlegion.Console.Doorbell.{wake_spawn}
use cyberlegion.Runtime.Restart.{
  Floor, RestartContext, RestartOptions, RestartResult, restart_unit, end_running, open_session,
  bind_session, ring_session, restarted_record,
}
use cyberlegion.Runtime.Restart.Restarted.{restart_unit-Renewed, Renewed}
use cyberlegion.Runtime.Restart.Refused.{restart_unit-Left, Stranded}

abbrev worker : AgentRecord
worker = record (unit_of "u1") {
  harness = some Harness.codex;
  status = Status.stopped;
  cwd = "/repo";
}

abbrev floor : Floor
floor = record { desk = record { hub = hub_of (worker ∷ []); typed = [] }; opened = []; shims = [] }

abbrev given : RestartContext
given = record {
  runtime = record {
    context = sample;
    is_given = false;
    is_selectable = false;
    list_panes = λ b. [];
    list_after = λ b p. [];
  };
  exists = λ p. true;
  has_backend = true;
  adapter = some Mux.tmux;
  opens = λ o. some "%9";
  launch_context =
      λ id. record { root = "/hub"; data_dir = "/data"; has_self = false; mux = "tmux" };
  consoles = record {
    has_adapter = true;
    screen_of = λ pane. record {
      box = record { screen = λ k. some "› "; now = λ k. k.slept };
      terminal = λ k. record { exists = true; screen = λ p. "› "; is_staged = λ s m. false };
    };
    is_focused = λ pane. none;
  };
  wake = record { nudge = none; guard = default_options };
}

abbrev quiet : RestartOptions
quiet = record { no_wake = true; fresh = false }

abbrev result : RestartResult
result = record {
  agent = restarted_record given worker "%9";
  previous_pane = none;
  pane = "%9";
  launch = "codex";
  resumed = false;
  rung = false;
  warnings = [];
}

restart_unit-Renewed_example :
    (r : AgentRecord) × (resolve_agent (hub_of (worker ∷ [])) "u1" ≡ ok r)
    × (kind_is_independent r.kind ≡ false)
    × (resolve_self_id sample (hub_of (worker ∷ [])) ≢ some r.id)
    × Renewed given quiet floor r result (restart_unit given quiet "u1" floor).1
unfolding restart_unit resolve_agent resolve_self_id get_agent read_safe is_safe_id Dict.get
    Dict.put put_agent put_pane_index sanitize_pane end_running open_session bind_session
    ring_session wake_spawn
restart_unit-Renewed_example =
    restart_unit-Renewed given quiet "u1" floor (restart_unit given quiet "u1" floor).1 result refl

abbrev is_named_safely : Result AgentRecord → Bool
is_named_safely (ok r) = is_safe_id r.id
is_named_safely (err e) = true

-- No session opens.
abbrev full : RestartContext
full = record given { opens = λ o. none }

restart_unit-Left_example :
    ((restart_unit full quiet "u1" floor).1 ≡ floor)
    ⊎ ((r : AgentRecord) × (resolve_agent (hub_of (worker ∷ [])) "u1" ≡ ok r)
        × Stranded full quiet floor r open_failed (restart_unit full quiet "u1" floor).1)
unfolding restart_unit resolve_agent resolve_self_id get_agent read_safe is_safe_id Dict.get
    end_running open_session
restart_unit-Left_example =
    restart_unit-Left full quiet "u1" floor (restart_unit full quiet "u1" floor).1 open_failed
      (λ r e. sym (ap is_named_safely e)) refl
