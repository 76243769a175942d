-- ===== src/Identity/Resolve.antt =====
-- The resolving half of packages/cyberlegion/src/identity.ts: whom an id, a handle, a branch or a
-- selector names. Reads only, so these are functions of the hub.
pub mod Live
use cyberlegion.Prelude.{
  String, Bool, true, false, not, ◌&&◌, ◌||◌, ◌==◌, opt_is, is_some, if◌then◌else◌, Option, none,
  some, List, [], ◌∷◌, ◌++◌, filter, find, any, ◌≡◌,
}
use cyberlegion.Exec.{
  Error, Result, ok, err, ambiguous_handle, only_exited, not_addressable, no_standing_owner,
  ambiguous_service, selector_required, no_match, many_match,
}
use cyberlegion.Hub.Types.{Hub, AgentRecord, Kind, Worktree}
use cyberlegion.Hub.{get_agent, list_agents}
use cyberlegion.Context.{Context}
use cyberlegion.Identity.Liveness.{is_exited}

infixl 10 ◌>>=◌
abbrev ◌>>=◌ : {A B : Type 0} → Result A → (A → Result B) → Result B
ok a >>= f = f a
err e >>= f = err e

abbrev pub is_standing : AgentRecord → Bool
is_standing r = elim r.kind [ some Kind.standing ↦ true | _ ↦ false ]

abbrev pub is_service : AgentRecord → Bool
is_service r = elim r.kind [ some Kind.service ↦ true | _ ↦ false ]

-- `live.length > 1` fails, else the first, if any
abbrev pub only_one : List AgentRecord → Result (Option AgentRecord)
only_one [] = ok none
only_one (a ∷ []) = ok (some a)
only_one (a ∷ b ∷ rest) = err ambiguous_handle

abbrev standing_or_one : Option AgentRecord → List AgentRecord → Result (Option AgentRecord)
standing_or_one (some r) live = ok (some r)
standing_or_one none live = only_one live

unfoldable pub pick_live : List AgentRecord → Result (Option AgentRecord)
pick_live live = standing_or_one (find is_standing live) live

unfoldable pub live_by_handle : List AgentRecord → String → List AgentRecord
live_by_handle agents handle =
    filter (λ a. not (is_exited a.status)) (filter (λ a. a.handle == handle) agents)

unfoldable pub exited_by_handle : List AgentRecord → String → List AgentRecord
exited_by_handle agents handle =
    filter (λ a. is_exited a.status) (filter (λ a. a.handle == handle) agents)

abbrev pub unaddressable : List AgentRecord → Error
unaddressable [] = not_addressable
unaddressable (a ∷ rest) = only_exited

abbrev pub id_of_owner : Option AgentRecord → Result String
id_of_owner none = err no_standing_owner
id_of_owner (some r) = ok r.id

unfoldable pub resolve_standing_owner : Hub → String → Result String
resolve_standing_owner h handle =
    id_of_owner (find (λ a. a.handle == handle && is_standing a) (list_agents h))

-- An endpoint or a standing owner, named by its id.
abbrev mailbox_by_id : Option AgentRecord → Option String
mailbox_by_id none = none
mailbox_by_id (some r) = if is_service r || is_standing r then some r.id else none

abbrev one_service : Hub → String → List AgentRecord → Result String
one_service h ref [] = resolve_standing_owner h ref
one_service h ref (a ∷ []) = ok a.id
one_service h ref (a ∷ b ∷ rest) = err ambiguous_service

abbrev owner_by_handle : Hub → String → Result String
owner_by_handle h ref =
    let agents = list_agents h in
    if any (λ a. a.handle == ref && is_standing a) agents
    then resolve_standing_owner h ref
    else one_service h ref (filter (λ a. a.handle == ref && is_service a) agents)

unfoldable pub resolve_owner_mailbox : Hub → String → Result String
resolve_owner_mailbox h ref = elim (mailbox_by_id (get_agent h ref)) [
  | some id ↦ ok id
  | none ↦ owner_by_handle h ref
]

abbrev picked_id : List AgentRecord → Option AgentRecord → Result String
picked_id exited none = err (unaddressable exited)
picked_id exited (some a) = ok a.id

-- An id resolves whatever its status; a handle to a live record only.
unfoldable pub resolve_recipient : Hub → String → Result String
resolve_recipient h to = if is_some (get_agent h to) then ok to else do
  match ← pick_live (live_by_handle (list_agents h) to)
  picked_id (exited_by_handle (list_agents h) to) match

abbrev pub branch_is : Option Worktree → String → Bool
branch_is none ref = false
branch_is (some w) ref = opt_is w.branch ref

-- Which dead records are named does not matter, only whether there are any.
abbrev by_branch : List AgentRecord → String → Result AgentRecord
by_branch agents ref =
    let named = filter (λ a. branch_is a.worktree ref) agents in
    elim (find (λ a. not (is_exited a.status)) named) [
      | some a ↦ ok a
      | none ↦
          err
            (unaddressable (exited_by_handle agents ref ++ filter (λ a. is_exited a.status) named))
    ]

abbrev picked_or_branch : List AgentRecord → String → Option AgentRecord → Result AgentRecord
picked_or_branch agents ref (some a) = ok a
picked_or_branch agents ref none = by_branch agents ref

unfoldable pub resolve_agent : Hub → String → Result AgentRecord
resolve_agent h ref = elim (get_agent h ref) [
  | some a ↦ ok a
  | none ↦ pick_live (live_by_handle (list_agents h) ref) >>= picked_or_branch (list_agents h) ref
]

pub record UnitSelector : Type 0 where
  pub repo : Option String
  pub branch : Option String

abbrev repo_dir : AgentRecord → Option Worktree → String
repo_dir r none = r.cwd
repo_dir r (some w) = elim w.primary_root [ some root ↦ root | none ↦ r.cwd ]

abbrev pub repo_name_of : Context → AgentRecord → String
repo_name_of ctx r = ctx.checkout.basename (repo_dir r r.worktree)

abbrev branch_selected : Option String → AgentRecord → Bool
branch_selected none a = true
branch_selected (some b) a = branch_is a.worktree b

abbrev repo_selected : Context → Option String → AgentRecord → Bool
repo_selected ctx none a = true
repo_selected ctx (some r) a = repo_name_of ctx a == r

unfoldable pub selected : Context → UnitSelector → AgentRecord → Bool
selected ctx sel a =
    not (is_exited a.status) && branch_selected sel.branch a && repo_selected ctx sel.repo a

abbrev pub the_only : List AgentRecord → Result AgentRecord
the_only [] = err no_match
the_only (a ∷ []) = ok a
the_only (a ∷ b ∷ rest) = err many_match

unfoldable pub select_agent : Context → Hub → UnitSelector → Result AgentRecord
select_agent ctx h sel =
    if not (is_some sel.repo) && not (is_some sel.branch)
    then err selector_required
    else the_only (filter (selected ctx sel) (list_agents h))
