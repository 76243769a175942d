-- ===== src/Decommission.antt =====
-- packages/cyberlegion/src/decommission.ts: tearing a unit down and reaping its record. What git, the
-- worktree library and the multiplexer answer is given from outside; what they are told to do is kept
-- in order beside the hub.
pub mod Refusal
pub mod Removal
pub mod Reaped
mod Tests
use cyberlegion.Prelude.{
  String, Bool, true, false, not, ◌&&◌, ◌||◌, ◌==◌, is_some, any, or_else, if◌then◌else◌, Option,
  none, some, List, [], ◌∷◌, ◌<>◌,
}
use cyberlegion.Prelude.Rows.{rows_of}
use cyberlegion.Exec.{
  Exec, Result, ok, err, pure, throw, asks, reads, writes, from_option, ◌>>=◌, ◌>>◌,
  nothing_to_close, service_endpoint, primary_checkout, uncommitted_changes, unknown_worktree,
  release_failed, removal_failed,
}
use cyberlegion.Hub.Types.{Hub, AgentRecord, Kind, LeaseRef, Worktree}
use cyberlegion.Hub.{
  get_agent, remove_agent, remove_agent_data, remove_pane_index, find_pane_by_agent_id,
}
use cyberlegion.Mail.{delete_mailbox}
use cyberlegion.Identity.Presence.{nonempty}
use cyberlegion.Runtime.{id_of_pane, drop_index}

-- What the machine is told to do.
pub data Act : Type 0 where
  prunes_worktrees releases_lease removes_worktree tears_down : String → Act

-- The hub, and what the machine was told, the latest first.
pub record Site : Type 0 where
  pub hub : Hub
  pub acts : List Act

-- What the file system, git, the worktree library and the multiplexer answer.
pub record Machine : Type 0 where
  pub exists : String → Bool
  pub resolve : String → String
  -- `primaryRoot` of the worktree library, `none` where it throws
  pub primary_root : String → Option String
  -- `git status --porcelain --untracked-files=all`
  pub git_status : String → Option String
  -- how the library gave a lease back, `none` where it throws
  pub release : String → LeaseRef → Option String
  -- whether `git worktree remove` succeeds
  pub removes : String → Bool
  -- whether `selectSessionAdapter` finds a backend
  pub has_backend : Bool

pub record DecommissionInput : Type 0 where
  pub id : String
  pub force : Bool
  pub keep_worktree : Bool

pub record DecommissionResult : Type 0 where
  pub agent : AgentRecord
  pub worktree_root : Option String
  pub retained_worktree : Option String
  pub lease : Option String
  pub pane : Option String

abbrev pub worktree_marker : String
worktree_marker = ".agents/cyberlegion/config.json"

-- a row of the status other than the marker's
abbrev is_change : String → Bool
is_change row = not (row == "") && not (row == "?? " <> worktree_marker)

abbrev has_changes : Option String → Bool
has_changes none = false
has_changes (some status) = not (status == "") && any is_change (rows_of status)

unfoldable pub is_dirty : Machine → String → Bool
is_dirty m root = has_changes (m.git_status root)

abbrev pub root_in : Option Worktree → Option String
root_in none = none
root_in (some w) = some w.root

abbrev pub primary_in : Option Worktree → Option String
primary_in none = none
primary_in (some w) = w.primary_root

abbrev pub lease_in : Option Worktree → Option LeaseRef
lease_in none = none
lease_in (some w) = w.lease

abbrev pub on_disk : Machine → Option String → Bool
on_disk m none = false
on_disk m (some root) = m.exists root

abbrev known : Option String → Result (Option String)
known none = err unknown_worktree
known (some root) = ok (some root)

abbrev asked : Machine → Option String → Result (Option String)
asked m none = ok none
asked m (some root) = known (m.primary_root root)

-- The primary checkout of the unit's repository, never the caller's.
unfoldable pub primary_root_of : Machine → AgentRecord → Result (Option String)
primary_root_of m r =
    if on_disk m (root_in r.worktree)
    then asked m (root_in r.worktree)
    else ok (primary_in r.worktree)

abbrev same_place : Machine → Option String → Option String → Bool
same_place m (some root) (some primary) = m.resolve root == m.resolve primary
same_place m _ _ = false

unfoldable pub is_primary : Machine → AgentRecord → Option String → Bool
is_primary m r primary = same_place m (nonempty (root_in r.worktree)) (nonempty primary)

unfoldable pub removes_it : Machine → DecommissionInput → AgentRecord → Bool
removes_it m input r =
    on_disk m (root_in r.worktree) && not input.keep_worktree && not (is_some (lease_in r.worktree))

abbrev pub dirty_in : Machine → Option String → Bool
dirty_in m none = false
dirty_in m (some root) = is_dirty m root

abbrev acts_on : (String → Act) → String → Exec Site (Unit {0})
acts_on act root = writes (λ s. record s { acts = act root ∷ s.acts })

abbrev pub on_hub : {A : Type 0} → Exec Hub A → Exec Site A
on_hub m s = ((m s.hub).0, record s { hub = (m s.hub).1 })

-- The registration of a worktree whose directory is gone.
unfoldable pub prune_gone : Machine → Option String → Option String → Exec Site (Unit {0})
prune_gone m (some root) (some primary) =
    if not (m.exists root) && m.exists primary
    then acts_on Act.prunes_worktrees primary
    else pure tt
prune_gone m _ _ = pure tt

released : Option String → Exec Site (Option String)
released none = throw release_failed
released (some how) = pure (some how)

unfoldable pub give_back : Machine → Option String → Option LeaseRef → Exec Site (Option String)
unfolding released
give_back m (some root) (some lease) = do
  acts_on Act.releases_lease root
  released (m.release root lease)
give_back m _ _ = pure none

remove_root : Machine → String → Exec Site (Unit {0})
remove_root m root = do
  acts_on Act.removes_worktree root
  if m.removes root then pure tt else throw removal_failed

unfoldable pub remove_worktree : Machine → Bool → Option String → Exec Site (Unit {0})
unfolding remove_root
remove_worktree m false root = pure tt
remove_worktree m true none = pure tt
remove_worktree m true (some root) = remove_root m root

-- A pane that is gone, or no backend, is tolerated.
unfoldable pub tear_down : Machine → Option String → Exec Site (Unit {0})
tear_down m none = pure tt
tear_down m (some pane) = if m.has_backend then acts_on Act.tears_down pane else pure tt

unfoldable pub reap : String → Option String → Exec Hub (Unit {0})
reap id pane = do remove_agent id; drop_index pane; remove_agent_data id; delete_mailbox id

abbrev pub retained : Machine → DecommissionInput → AgentRecord → Option String
retained m input r =
    if on_disk m (root_in r.worktree) && (input.keep_worktree || is_some (lease_in r.worktree))
    then root_in r.worktree
    else none

abbrev pub unit_pane : DecommissionInput → AgentRecord → Site → Option String
unit_pane input r s = or_else (id_of_pane r.pane) (find_pane_by_agent_id s.hub input.id)

tear_unit :
    Machine
    → DecommissionInput
    → AgentRecord
    → Option String
    → Option String
    → Exec Site DecommissionResult
tear_unit m input r primary pane = do
  prune_gone m (nonempty (root_in r.worktree)) (nonempty primary)
  lease ← give_back m (nonempty (root_in r.worktree)) (lease_in r.worktree)
  remove_worktree m (removes_it m input r) (root_in r.worktree)
  tear_down m (nonempty pane)
  on_hub (reap input.id (nonempty pane))
  pure (record {
    agent = r;
    worktree_root = root_in r.worktree;
    retained_worktree = retained m input r;
    lease = lease;
    pane = pane;
  })

close_unit :
    Machine → DecommissionInput → AgentRecord → Option String → Exec Site DecommissionResult
unfolding tear_unit
close_unit m input r primary =
    if is_primary m r primary
    then throw primary_checkout
    else if removes_it m input r && not input.force && dirty_in m (root_in r.worktree)
    then throw uncommitted_changes
    else (do pane ← reads (unit_pane input r); tear_unit m input r primary pane)

abbrev is_endpoint : Option Kind → Bool
is_endpoint (some Kind.service) = true
is_endpoint _ = false

close_record : Machine → DecommissionInput → AgentRecord → Exec Site DecommissionResult
unfolding close_unit
close_record m input r =
    if is_endpoint r.kind
    then throw service_endpoint
    else (do primary ← asks (λ (s : Site). primary_root_of m r); close_unit m input r primary)

unfoldable pub decommission : Machine → DecommissionInput → Exec Site DecommissionResult
unfolding close_record
decommission m input = do
  r ← asks (λ s. from_option nothing_to_close (get_agent s.hub input.id))
  close_record m input r
