-- ===== src/Hub.antt =====
-- packages/cyberlegion/src/store/file-store.ts over the paths of paths.ts: the hub's files. A read
-- of an unsafe id finds nothing; a write to one throws. Every file holds what was written to it
-- (records that do not parse are not modelled), and a write is one step (temporary file and rename).
pub mod Types
pub mod SafeId
pub mod Mailbox
pub mod Leases
pub mod Keyed
pub mod Throws
pub mod Sample
use cyberlegion.Prelude.{
  ℕ, String, Bool, true, ◌&&◌, ◌==◌, leb, if◌then◌else◌, Option, none, some, get_or, List, [], ◌∷◌,
}
use cyberlegion.Prelude.Dict
use cyberlegion.Prelude.Dict.{Dict}
use cyberlegion.Prelude.Text.{trim}
use cyberlegion.Prelude.Sort.{sort}
use cyberlegion.Exec.{
  Exec, Result, ok, err, pure, throw, asks, reads, writes, from_option, ◌>>=◌, ◌>>◌, invalid_id,
  not_unread, not_in_inbox,
}
use Types.{Hub, AgentRecord, ProjectRecord, ServiceLease}
use SafeId.{is_safe_id, assert_safe_id, sanitize_pane}

-- `readPathOrUndefined` around a lookup
unfoldable pub read_safe : {A : Type 0} → Dict A → String → Option A
read_safe d id = if is_safe_id id then Dict.get d id else none

-- the write of a file named by an id
abbrev pub write_safe : String → (Hub → Hub) → Exec Hub (Unit {0})
write_safe id f h = if is_safe_id id then (ok tt, f h) else (err invalid_id, h)

unfoldable pub ensure_marker : Exec Hub (Unit {0})
ensure_marker = writes (λ h. record h { marker = true })

unfoldable pub put_agent : AgentRecord → Exec Hub (Unit {0})
put_agent r = write_safe r.id (λ h. record h { agents = Dict.put h.agents r.id r })

unfoldable pub get_agent : Hub → String → Option AgentRecord
get_agent h id = read_safe h.agents id

unfoldable pub list_agents : Hub → List AgentRecord
list_agents h = sort (λ a b. leb a.created_at b.created_at) (Dict.values h.agents)

unfoldable pub remove_agent : String → Exec Hub (Unit {0})
remove_agent id = write_safe id (λ h. record h { agents = Dict.remove h.agents id })

unfoldable pub remove_agent_data : String → Exec Hub (Unit {0})
remove_agent_data id = write_safe id (λ h. record h { briefs = Dict.remove h.briefs id })

unfoldable pub put_project : ProjectRecord → Exec Hub (Unit {0})
put_project r = write_safe r.id (λ h. record h { projects = Dict.put h.projects r.id r })

unfoldable pub get_project : Hub → String → Option ProjectRecord
get_project h id = read_safe h.projects id

unfoldable pub list_projects : Hub → List ProjectRecord
list_projects h = sort (λ a b. leb a.registered_at b.registered_at) (Dict.values h.projects)

-- services/<project>/<service>.json
unfoldable pub put_service_lease : ServiceLease → Exec Hub (Unit {0})
put_service_lease l h =
    if is_safe_id l.project && is_safe_id l.service
    then (
      ok tt,
      record h {
        leases =
            Dict.put h.leases l.project
              (Dict.put (get_or (Dict.get h.leases l.project) []) l.service l);
      },
    )
    else (err invalid_id, h)

unfoldable pub get_service_lease : Hub → String → String → Option ServiceLease
get_service_lease h project service =
    if is_safe_id project && is_safe_id service
    then Dict.get (get_or (Dict.get h.leases project) []) service
    else none

unfoldable pub put_pane_index : String → String → Exec Hub (Unit {0})
put_pane_index pane agent =
    writes (λ h. record h { panes = Dict.put h.panes (sanitize_pane pane) agent })

abbrev trimmed : Option String → Option String
trimmed none = none
trimmed (some s) = some (trim s)

unfoldable pub resolve_pane_id : Hub → String → Option String
resolve_pane_id h pane = trimmed (Dict.get h.panes (sanitize_pane pane))

-- the loop of `findPaneByAgentId`: it returns the file's name, without its extension
find_pane : Dict String → String → Option String
find_pane [] agent = none
find_pane ((name, text) ∷ files) agent =
    if trim text == agent then some name else find_pane files agent

unfoldable pub find_pane_by_agent_id : Hub → String → Option String
unfolding find_pane
find_pane_by_agent_id h agent = find_pane h.panes agent

unfoldable pub remove_pane_index : String → Exec Hub (Unit {0})
remove_pane_index pane = writes (λ h. record h { panes = Dict.remove h.panes (sanitize_pane pane) })

unfoldable pub write_brief : String → String → Exec Hub (Unit {0})
write_brief id text = write_safe id (λ h. record h { briefs = Dict.put h.briefs id text })

unfoldable pub read_brief : Hub → String → Option String
read_brief h id = read_safe h.briefs id

-- `if (pane)`: an empty pane clears the pointer as `null` does
unfoldable pub set_main_pane : Option String → Exec Hub (Unit {0})
set_main_pane none = writes (λ h. record h { main_pane = none })
set_main_pane (some pane) =
    writes (λ h. record h { main_pane = if pane == "" then none else some pane })

unfoldable pub get_main_pane : Hub → Option String
get_main_pane h = trimmed h.main_pane
