-- ===== src/Decommission/Tests.antt =====
-- Closes of a unit with a worktree of its own, and the properties of decommission.ts at them.
use cyberlegion.Prelude.{
  Bool, true, false, ◌==◌, ◌||◌, ◌≡◌, ◌⊎◌, inl, inr, refl, none, some, [], ◌∷◌, In,
}
use cyberlegion.Prelude.Dict
use cyberlegion.Prelude.Rows.{rows_of}
use cyberlegion.Exec.{ok, err, removal_failed}
use cyberlegion.Hub.Types.{Hub, AgentRecord, Mux}
use cyberlegion.Hub.SafeId.{is_safe_id}
use cyberlegion.Hub.Sample.{unit_of, hub_of}
use cyberlegion.Hub.{get_agent, read_safe, remove_agent, remove_agent_data, remove_pane_index}
use cyberlegion.Hub.Mailbox.{remove_mailbox}
use cyberlegion.Mail.{delete_mailbox}
use cyberlegion.Decommission.{
  Act, Site, Machine, DecommissionInput, DecommissionResult, decommission, is_dirty,
  primary_root_of, is_primary, removes_it, prune_gone, give_back, remove_worktree, tear_down, reap,
}
use cyberlegion.Decommission.Refusal.{decommission-Untouched, Untouched}
use cyberlegion.Decommission.Removal.{decommission-MayRemove, MayRemove}
use cyberlegion.Decommission.Reaped.{decommission-Closed, Closed}

abbrev worker : AgentRecord
worker = record (unit_of "u1") {
  worktree = some (record { root = "/w/1"; branch = none; primary_root = some "/w"; lease = none });
  pane = some (record { mux = Mux.tmux; id = "%1"; window = none; session = none });
}

abbrev two_units : Hub
two_units = record (hub_of (worker ∷ unit_of "u2" ∷ [])) { briefs = ("u1", "Do it.") ∷ [] }

abbrev before : Site
before = record { hub = two_units; acts = [] }

-- A clean worktree beside its primary checkout.
abbrev machine : Bool → Machine
machine works = record {
  exists = λ p. p == "/w" || p == "/w/1";
  resolve = λ p. p;
  primary_root = λ p. some "/w";
  git_status = λ p. some "?? .agents/cyberlegion/config.json";
  release = λ p l. none;
  removes = λ p. works;
  has_backend = true;
}

abbrev plain : DecommissionInput
plain = record { id = "u1"; force = false; keep_worktree = false }

abbrev closed : DecommissionResult
closed = record {
  agent = worker;
  worktree_root = some "/w/1";
  retained_worktree = none;
  lease = none;
  pane = some "%1";
}

abbrev after_close : Site
after_close = record {
  hub = record (hub_of (unit_of "u2" ∷ [])) { briefs = [] };
  acts = Act.tears_down "%1" ∷ Act.removes_worktree "/w/1" ∷ [];
}

closes : decommission (machine true) plain before ≡ (ok closed, after_close)
unfolding decommission get_agent read_safe is_safe_id Dict.get Dict.remove primary_root_of
    is_primary removes_it is_dirty prune_gone give_back remove_worktree rows_of tear_down reap
    remove_agent remove_agent_data remove_pane_index delete_mailbox remove_mailbox
closes = refl

-- The removal fails, so nothing is reaped.
abbrev after_failure : Site
after_failure = record { hub = two_units; acts = Act.removes_worktree "/w/1" ∷ [] }

fails : decommission (machine false) plain before ≡ (err removal_failed, after_failure)
unfolding decommission get_agent read_safe is_safe_id Dict.get primary_root_of is_primary removes_it
    is_dirty prune_gone give_back remove_worktree rows_of
fails = refl

decommission-Untouched_example : Untouched before after_failure
decommission-Untouched_example =
    decommission-Untouched (machine false) plain before after_failure removal_failed fails

decommission-Closed_example : Closed (machine true) plain before closed after_close
decommission-Closed_example =
    decommission-Closed (machine true) plain before after_close closed closes

told : In (Act.removes_worktree "/w/1") (decommission (machine true) plain before).1.acts
told = rw closes (inr (inl refl))

decommission-MayRemove_example :
    In (Act.removes_worktree "/w/1") [] ⊎ MayRemove (machine true) plain two_units "/w/1"
decommission-MayRemove_example = decommission-MayRemove (machine true) plain before "/w/1" told
