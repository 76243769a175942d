-- ===== src/Identity/Presence.antt =====
-- The presence half of packages/cyberlegion/src/identity.ts: the live unit that stands in for a
-- standing owner. The load, the change and the save run under the owner's presence lock, so they
-- are one step.
pub mod Binding
use cyberlegion.Prelude.{
  String, Bool, true, false, if◌then◌else◌, Option, none, some, is_some, ◌==◌,
}
use cyberlegion.Exec.{
  Exec, Result, pure, throw, asks, reads, from_option, ◌>>=◌, ◌>>◌, no_standing_owner,
  no_multiplexer, no_identity,
}
use cyberlegion.Hub.Types.{Hub, AgentRecord}
use cyberlegion.Hub.{get_agent, put_agent, resolve_pane_id}
use cyberlegion.Context.{Context, CurrentPane}
use cyberlegion.Identity.Liveness.{is_exited}
use cyberlegion.Identity.Resolve.{resolve_standing_owner}

abbrev self_of_pane : Context → Hub → Option CurrentPane → Option String
self_of_pane ctx h (some cur) = resolve_pane_id h cur.pane
self_of_pane ctx h none = ctx.agent_var

-- In a pane the pane index decides alone; the environment variable serves only outside one.
unfoldable pub resolve_self_id : Context → Hub → Option String
resolve_self_id ctx h = self_of_pane ctx h ctx.current_pane

-- An empty id is falsy, so it is no identity.
abbrev pub nonempty : Option String → Option String
nonempty none = none
nonempty (some s) = if s == "" then none else some s

rebind : String → Option String → Exec Hub AgentRecord
rebind owner presence = do
  found ← asks (λ h. from_option no_standing_owner (get_agent h owner))
  let r = record found { presence = presence }
  put_agent r
  pure r

unfoldable pub claim_presence : Context → String → Exec Hub AgentRecord
unfolding rebind
claim_presence ctx handle = do
  owner ← asks (λ h. resolve_standing_owner h handle)
  known ← asks (λ h. from_option no_standing_owner (get_agent h owner))
  if ctx.has_multiplexer
      then (do
        self ← asks (λ h. from_option no_identity (nonempty (resolve_self_id ctx h)))
        rebind owner (some self))
      else throw no_multiplexer

-- Nothing bound is nothing to write.
clear_found : AgentRecord → Exec Hub AgentRecord
clear_found r =
    let cleared = record r { presence = none } in
    if is_some r.presence then (do put_agent cleared; pure cleared) else pure r

unfoldable pub clear_presence : String → Exec Hub AgentRecord
unfolding clear_found
clear_presence handle = do
  owner ← asks (λ h. resolve_standing_owner h handle)
  known ← asks (λ h. from_option no_standing_owner (get_agent h owner))
  found ← asks (λ h. from_option no_standing_owner (get_agent h owner))
  clear_found found

abbrev live_unit : Option AgentRecord → Option AgentRecord
live_unit none = none
live_unit (some u) = if is_exited u.status then none else some u

abbrev presence_unit : Hub → Option String → Option AgentRecord
presence_unit h none = none
presence_unit h (some id) = live_unit (get_agent h id)

unfoldable pub presence_of : Hub → AgentRecord → Option AgentRecord
presence_of h r = presence_unit h r.presence

abbrev presence_of_found : Hub → Option AgentRecord → Option AgentRecord
presence_of_found h none = none
presence_of_found h (some r) = presence_of h r

unfoldable pub resolve_presence : String → Exec Hub (Option AgentRecord)
resolve_presence handle = do
  owner ← asks (λ h. resolve_standing_owner h handle)
  reads (λ h. presence_of_found h (get_agent h owner))
