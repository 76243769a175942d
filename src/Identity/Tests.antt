-- ===== src/Identity/Tests.antt =====
-- Runs of the identity calls on small hubs, and the properties of identity.ts at them.
use cyberlegion.Prelude.{
  String, ◌≢◌, true, ◌≡◌, ◌⊎◌, refl, none, some, [], ◌∷◌, inl, inr, arith, is_some, get_or, or_else,
  Bool-cases,
}
use cyberlegion.Prelude.Chars.{take_chars}
use cyberlegion.Prelude.Dict
use cyberlegion.Prelude.Sort.{sort}
use cyberlegion.Hub.Types.{Hub, AgentRecord, Mux, Status, Kind, Harness}
use cyberlegion.Hub.SafeId.{is_safe_id}
use cyberlegion.Hub.Sample.{unit_of, hub_of}
use cyberlegion.Hub.{get_agent, list_agents, read_safe, put_agent, ensure_marker}
use cyberlegion.Hub.Keyed.{IsKeyed, put_agent-IsKeyed}
use cyberlegion.Context.{Context}
use cyberlegion.Context.Sample.{sample}
use cyberlegion.Identity.Liveness.{is_prunable, is_session_independent, pane_gone}
use cyberlegion.Identity.Resolve.{
  resolve_standing_owner, resolve_recipient, pick_live, live_by_handle, exited_by_handle,
}
use cyberlegion.Identity.Resolve.Live.{resolve_recipient-live, LiveAs, StandsAlone}
use cyberlegion.Identity.Presence.{resolve_self_id, claim_presence}
use cyberlegion.Identity.Presence.Binding.{IsWritten, IsOwner, IsBound, claim_presence-IsBound}
use cyberlegion.Identity.Register.{
  RegisterInput, register, registered, detect_harness, storable_pane, git_worktree, kept_worktree,
}
use cyberlegion.Identity.Register.Refresh.{register-refresh, KeptCheckout}
use cyberlegion.Identity.Reap.{prune, reconcile, cull}
use cyberlegion.Identity.Reap.Evidence.{prune-IsReaped, IsReaped}

-- Every file of a hub made by writing records is named by its record's id.
empty-IsKeyed : IsKeyed (hub_of [])
unfolding get_agent read_safe is_safe_id Dict.get
empty-IsKeyed id r e = elim (Bool-cases (is_safe_id id)) [
  | inl s ↦ absurd (ground (arith, s, e))
  | inr s ↦ absurd (ground (arith, s, e))
]

abbrev worker : AgentRecord
worker = record (unit_of "u1") {
  handle = "worker";
  pane = some (record { mux = Mux.tmux; id = "%1"; window = none; session = none });
  launch = some "claude";
  conversation = some "c1";
}

abbrev owner : AgentRecord
owner = record (unit_of "standing-boss") {
  handle = "boss";
  kind = some Kind.standing;
  cwd = "/home";
}

abbrev house : Hub
house = hub_of (worker ∷ owner ∷ [])

house-IsKeyed : IsKeyed house
unfolding put_agent is_safe_id Dict.put
house-IsKeyed =
    put_agent-IsKeyed owner (put_agent worker (hub_of [])).1
      (put_agent-IsKeyed worker (hub_of []) empty-IsKeyed)

-- The session of the worker, inside a multiplexer that lists another pane only.
abbrev inside : Context
inside = record sample {
  now = 9;
  has_multiplexer = true;
  agent_var = some "u1";
  claude_code = true;
  list_panes = λ m. record { mux = some Mux.tmux; id = "%9"; harness = none; cwd = none } ∷ [];
}

resolve_recipient-live_example :
    ((◌≡◌ {A = String} "u1" "worker") × (is_some (get_agent house "worker") ≡ true))
    ⊎ ((a : AgentRecord) × (a.id ≡ "u1") × (LiveAs house "worker" a × StandsAlone house "worker" a))
unfolding resolve_recipient get_agent read_safe is_safe_id Dict.get pick_live live_by_handle
    list_agents sort exited_by_handle
resolve_recipient-live_example = resolve_recipient-live house "worker" "u1" refl

prune-IsReaped_example :
    (get_agent (prune inside house).1 "u1" ≡ get_agent house "u1")
    ⊎ IsReaped inside house (prune inside house).1 "u1"
prune-IsReaped_example = prune-IsReaped inside house "u1"

pruned_worker :
    get_agent (prune inside house).1 "u1" ≡ some (record worker { status = Status.exited })
unfolding prune reconcile cull get_agent read_safe is_safe_id Dict.get Dict.put put_agent
    list_agents sort is_prunable is_session_independent pane_gone storable_pane
pruned_worker = refl

abbrev claimed_owner : AgentRecord
claimed_owner = record owner { presence = some "u1" }

claim_presence-IsBound_example :
    (s : AgentRecord) × IsOwner house "boss" s
    × (inside.has_multiplexer ≡ true)
    × ((self : String) × (resolve_self_id inside house ≡ some self)
        × (self ≢ "")
        × IsBound house s (some self) claimed_owner (claim_presence inside "boss" house).1)
unfolding claim_presence resolve_self_id resolve_standing_owner get_agent read_safe is_safe_id
    Dict.get Dict.put put_agent list_agents sort
claim_presence-IsBound_example =
    claim_presence-IsBound inside "boss" house (claim_presence inside "boss" house).1 claimed_owner
      house-IsKeyed refl

-- The worker registers again.
abbrev refreshed : AgentRecord
refreshed = record worker {
  harness = some Harness.claude;
  cwd = "/";
  pane = none;
  last_seen = 9;
  launch = none;
  conversation = none;
}

abbrev no_options : RegisterInput
no_options = record { handle = none; harness = none }

register-refresh_example :
    (refreshed.id ≡ worker.id)
    × (refreshed.created_at ≡ worker.created_at)
    × (refreshed.status ≡ Status.active)
    × KeptCheckout inside worker.worktree refreshed.worktree
    × (refreshed.last_seen ≡ inside.now)
    × (refreshed.handle ≡ get_or (or_else none (some worker.handle)) (take_chars 6 worker.id))
    × (refreshed.launch ≡ none)
    × (refreshed.conversation ≡ none)
    × IsWritten house worker.id refreshed (hub_of (refreshed ∷ owner ∷ []))
unfolding register registered ensure_marker resolve_self_id get_agent read_safe is_safe_id Dict.get
    Dict.put put_agent detect_harness storable_pane git_worktree kept_worktree
register-refresh_example =
    register-refresh inside no_options house (hub_of (refreshed ∷ owner ∷ [])) worker refreshed refl
      refl

-- A second owner whose handle sanitizes as the first's.
abbrev other_owner : AgentRecord
other_owner = record (unit_of "standing-bo_s") {
  handle = "bo.s";
  kind = some Kind.standing;
  cwd = "/";
  last_seen = 9;
}

abbrev first_owner : AgentRecord
first_owner = record other_owner { handle = "bo/s"; presence = none }
