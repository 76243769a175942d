-- ===== src/Service/Tests.antt =====
-- A small hub with one started service, runs of the transitions on it, and the properties of
-- service.ts at it.
use cyberlegion.Prelude.{
  ℕ, String, true, false, ◌≡◌, ◌≢◌, refl, Option, none, some, [], ◌∷◌, arith, eq_iff,
}
use cyberlegion.Prelude.Dict
use cyberlegion.Exec.{ok, err, stale, unit_not_live}
use cyberlegion.Hub.Types.{
  Hub, AgentRecord, ProjectRecord, ServiceLease, LeaseState, Reservation, Status, Kind,
}
use cyberlegion.Hub.SafeId.{is_safe_id}
use cyberlegion.Hub.{
  put_service_lease, get_service_lease, get_agent, get_project, read_safe, find_pane_by_agent_id,
}
use cyberlegion.Project.{resolve_project}
use cyberlegion.Context.Sample.{sample}
use cyberlegion.Service.{
  ServiceContext, ServiceView, Health, Control, is_service_name, unit_is_live, AcquireResult,
  assert_service_name,
}
use cyberlegion.Service.Authority.{IsFiled, Follows}
use cyberlegion.Service.State.{Loaded, load, view, transition, write}
use cyberlegion.Service.Transitions.{
  AcquireInput, BindInput, ReleaseInput, HandoffInput, release_service, release_body,
  release_matches, acquire_service, acquire_body, bind_service, handoff_service, verify_ownership,
  owns, verify_body,
}
use cyberlegion.Service.Transitions.Outcomes.{IsServed}
use cyberlegion.Service.Transitions.Exclusion.{acquire_exclusive}
use cyberlegion.Service.Transitions.Refusal.{refused_unchanged, change, binds}
use cyberlegion.Service.Transitions.{bind_body}
use cyberlegion.Service.Transitions.Transfer.{handoff_fences}
use cyberlegion.Service.History.{Call, releases, hands_off, run, call, run-Follows}
use cyberlegion.Service.History.Fencing.{one_owner, fenced_forever}
use cyberlegion.Service.Start.{failed_launch_vacates, after_launch}

abbrev at_time : ℕ → ServiceContext
at_time t = record {
  context = record sample { now = t; random = λ i. "t0" };
  is_live = some (λ u. true);
}

abbrev project : ProjectRecord
project = record {
  id = "prj-1";
  name = "app";
  root = "/app";
  common_dir = "/app/.git";
  registered_at = 1;
  subject = none;
}

abbrev unit_record : String → AgentRecord
unit_record id = record {
  id = id;
  handle = id;
  harness = none;
  cwd = "/app";
  worktree = none;
  pane = none;
  pid = none;
  status = Status.active;
  created_at = 1;
  last_seen = 1;
  brief = none;
  launch = none;
  conversation = none;
  spawned_by = none;
  kind = none;
  service = none;
  presence = none;
  home = none;
}

abbrev endpoint : AgentRecord
endpoint = record (unit_record "svc-prj-1-ci") { kind = some Kind.service }

abbrev reservation : Reservation
reservation = record { token = "t0"; by = none; at = 10; expires_at = 20; forced = false }

abbrev lease_in : LeaseState → Option String → Option Reservation → ServiceLease
lease_in state holder r = record {
  project = "prj-1";
  service = "ci";
  endpoint = "svc-prj-1-ci";
  generation = 1;
  state = state;
  holder = holder;
  reservation = r;
  updated_at = 10;
}

abbrev hub_with : ServiceLease → Hub
hub_with l = record {
  marker = true;
  agents = ("svc-prj-1-ci", endpoint) ∷ ("u1", unit_record "u1") ∷ ("u2", unit_record "u2") ∷ [];
  projects = ("prj-1", project) ∷ [];
  leases = ("prj-1", ("ci", l) ∷ []) ∷ [];
  mailboxes = [];
  panes = [];
  briefs = [];
  main_pane = none;
}

abbrev loaded_with : ServiceLease → Loaded
loaded_with l = record { project = project; endpoint = endpoint; lease = l }

abbrev vacant : ServiceLease
vacant = lease_in LeaseState.vacant none none

abbrev reserved : ServiceLease
reserved = lease_in LeaseState.reserved none (some reservation)

abbrev owned : ServiceLease
owned = lease_in LeaseState.active (some "u1") none

served :
    (l : ServiceLease)
    → l.project ≡ "prj-1"
    → l.service ≡ "ci"
    → IsServed "ci" (loaded_with l) (hub_with l)
unfolding is_service_name get_project get_service_lease get_agent read_safe is_safe_id Dict.get
served l p n = record {
  named = refl;
  project = refl;
  lease = refl;
  endpoint = refl;
  of_project = p;
  of_service = n;
}

handoff_fences_example :
    (w : ServiceView) × (w' : ServiceView) × (g : Hub) × (handoff_service
        (at_time 15)
        "prj-1"
        "ci"
        (record { generation = 1; from = "u1"; to = "u2" })
        (hub_with owned)
      ≡ (ok w, g))
    × (verify_ownership (at_time 16) "prj-1" "ci" "u2" 2 g ≡ (ok w', g))
    × (verify_ownership (at_time 16) "prj-1" "ci" "u1" 1 g ≡ (err stale, g))
unfolding get_agent read_safe is_safe_id Dict.get unit_is_live
handoff_fences_example =
    handoff_fences "ci" (loaded_with owned) (hub_with owned) (served owned refl refl) (at_time 15)
      (at_time 16) "u1" "u2" (unit_record "u2") refl refl refl refl

abbrev wrong_token : BindInput
wrong_token = record { generation = 1; token = "t1"; unit = "u1" }

abbrev no_release : ReleaseInput
no_release = record { generation = 1; token = none; unit = none }

abbrev from_stranger : HandoffInput
from_stranger = record { generation = 1; from = "u2"; to = "u1" }

refused_unchanged_example :
    (change (at_time 15) "prj-1" "ci" (binds wrong_token) (hub_with reserved)).1 ≡ hub_with reserved
unfolding change bind_service bind_body transition load assert_service_name is_service_name
    resolve_project get_project read_safe is_safe_id Dict.get get_service_lease get_agent view
    unit_is_live find_pane_by_agent_id
refused_unchanged_example =
    refused_unchanged "ci" (loaded_with reserved) (hub_with reserved) (served reserved refl refl)
      (at_time 15) (binds wrong_token) stale refl

abbrev unforced : AcquireInput
unforced = record { by = none; ttl_ms = some 10; force = none }

abbrev next : ServiceLease
next = record reserved {
  generation = 2;
  reservation = some (record { token = "t0"; by = none; at = 10; expires_at = 20; forced = false });
}

-- The vacant service is reserved at 10 until 20, and another caller asks at 15.
acquire_exclusive_example :
    (w' : ServiceView) × (acquire_service (at_time 15) "prj-1" "ci" unforced (hub_with next)
      ≡ (ok (AcquireResult.starting next w'), hub_with next))
unfolding acquire_service transition load assert_service_name is_service_name resolve_project
    get_project read_safe is_safe_id Dict.get get_service_lease get_agent acquire_body view write
    put_service_lease Dict.put
acquire_exclusive_example =
    acquire_exclusive (at_time 10) "ci" (loaded_with vacant) (hub_with vacant) unforced next
      (view (at_time 10) (hub_with next) (loaded_with next)) "t0" (hub_with next) (at_time 15)
      unforced reservation (served vacant refl refl) refl refl refl (omega arith)

-- The only lease file is its project's and its service's own.
filed : (l : ServiceLease) → l.project ≡ "prj-1" → l.service ≡ "ci" → IsFiled (hub_with l)
unfolding get_service_lease Dict.get
filed l p n = record { at = λ q m k e. ground (arith, eq_iff "prj-1" q, eq_iff "ci" m) }

abbrev u1_view : ServiceView
u1_view = record {
  project = project;
  endpoint = endpoint;
  lease = owned;
  owner = some (unit_record "u1");
  health = Health.healthy;
  control = Control.no_pane;
}

abbrev hand_over : Call
hand_over = hands_off (at_time 15) "prj-1" "ci" (record { generation = 1; from = "u1"; to = "u2" })

-- u1 owns the service at 1; a stranger's release is refused, and u1 is still the one at 1.
one_owner_example : ◌≡◌ {A = String} "u1" "u1"
unfolding run call release_service verify_ownership verify_body owns release_matches transition load
    assert_service_name is_service_name resolve_project get_project read_safe is_safe_id Dict.get
    get_service_lease get_agent view unit_is_live find_pane_by_agent_id release_body
one_owner_example =
    one_owner (releases (at_time 12) "prj-1" "ci" no_release ∷ []) (hub_with owned) "ci" 1
      (at_time 11) "prj-1" "u1" u1_view (at_time 15) "prj-1" "u1" u1_view (filed owned refl refl)
      refl refl refl

abbrev u2_lease : ServiceLease
u2_lease = record owned { generation = 2; holder = some "u2"; updated_at = 15 }

abbrev u2_view : ServiceView
u2_view = record u1_view { lease = u2_lease; owner = some (unit_record "u2") }

-- Generation 1 is past: whoever verifies at 1 afterwards is not an owner of this project's service.
fenced_forever_example :
    (verify_ownership (at_time 20) "prj-1" "ci" "u1" 1 (run (hand_over ∷ []) (hub_with u2_lease))).0
    ≢ ok u2_view
unfolding get_service_lease Dict.get is_safe_id
fenced_forever_example =
    fenced_forever (hand_over ∷ []) (hub_with u2_lease) "prj-1" "ci" u2_lease 1 (at_time 20) "prj-1"
      "u1" u2_view (filed u2_lease refl refl) refl (omega arith) refl

failed_launch_vacates_example :
    (k : ServiceLease) × (g' : Hub) × (after_launch
        (at_time 18)
        "prj-1"
        "ci"
        (λ (u : String). u)
        reserved
        "t0"
        (err unit_not_live, hub_with reserved)
      ≡ (err unit_not_live, g'))
    × (get_service_lease g' "prj-1" "ci" ≡ some k)
    × (k.state ≡ LeaseState.vacant)
    × (k.generation ≡ 1)
    × (k.holder ≡ none)
failed_launch_vacates_example =
    failed_launch_vacates (at_time 18) "ci" (λ (u : String). u) (loaded_with reserved)
      (hub_with reserved) (served reserved refl refl) reserved "t0" reservation unit_not_live refl
      refl refl refl

run-Follows_example :
    Follows
      (get_service_lease (hub_with u2_lease) "prj-1" "ci")
      (get_service_lease (run (hand_over ∷ []) (hub_with u2_lease)) "prj-1" "ci")
run-Follows_example =
    run-Follows (hand_over ∷ []) (hub_with u2_lease) "prj-1" "ci" (filed u2_lease refl refl)
