-- ===== src/Project/Frame.antt =====
-- Resolving a project reference and the rest of the hub.
use cyberlegion.Prelude.{String, ◌≡◌, Option, none, some, List, [], ◌∷◌, arith}
use cyberlegion.Hub.Types.{Hub, ProjectRecord}
use cyberlegion.Exec.{ok}
use cyberlegion.Hub.{ensure_marker, put_project, get_project}
use cyberlegion.Context.{Context}
use cyberlegion.Project.{
  register_project, register_common, or_register, by_common, by_path, named_or_path, by_ref,
  resolve_project,
}

-- The two hubs have the same units, leases, mail, panes, briefs and main pane.
pub record SameBut (g h : Hub) : Type 0 where
  pub agents : h.agents ≡ g.agents
  pub leases : h.leases ≡ g.leases
  pub mailboxes : h.mailboxes ≡ g.mailboxes
  pub panes : h.panes ≡ g.panes
  pub briefs : h.briefs ≡ g.briefs
  pub main_pane : h.main_pane ≡ g.main_pane

module _ (ctx : Context) where
  register_common-frame :
      (dir : String) (common : Option String) (h : Hub)
      → SameBut h (register_common ctx dir common h).1
  unfolding register_common ensure_marker put_project
  register_common-frame dir none h = ground arith
  register_common-frame dir (some common) h = ground arith

  pub register_project-frame :
      (dir : Option String) (h : Hub) → SameBut h (register_project ctx dir h).1
  unfolding register_project
  register_project-frame dir h = register_common-frame _ _ h

  or_register-frame :
      (dir : String) (p : Option ProjectRecord) (h : Hub) → SameBut h (or_register ctx dir p h).1
  unfolding or_register
  or_register-frame dir none h = register_project-frame (some dir) h
  or_register-frame dir (some p) h = ground arith

  by_common-frame :
      (dir : String) (common : Option String) (h : Hub) → SameBut h (by_common ctx dir common h).1
  unfolding by_common
  by_common-frame dir none h = ground arith
  by_common-frame dir (some common) h = or_register-frame dir _ h

  by_path-frame : (dir : String) (h : Hub) → SameBut h (by_path ctx dir h).1
  unfolding by_path
  by_path-frame dir h = by_common-frame dir _ h

  named_or_path-frame :
      (ref : String) (named : List ProjectRecord) (h : Hub)
      → SameBut h (named_or_path ctx ref named h).1
  unfolding named_or_path
  named_or_path-frame ref [] h = ground (arith, by_path-frame (ctx.checkout.resolve ref) h)
  named_or_path-frame ref (p ∷ []) h = ground arith
  named_or_path-frame ref (p ∷ q ∷ ps) h = ground arith

  by_ref-frame :
      (ref : String) (p : Option ProjectRecord) (h : Hub) → SameBut h (by_ref ctx ref p h).1
  unfolding by_ref
  by_ref-frame ref (some p) h = ground arith
  by_ref-frame ref none h =
      ground (arith, by_path-frame (ctx.checkout.resolve ref) h, named_or_path-frame ref [] h)

  pub resolve_project-frame : (ref : String) (h : Hub) → SameBut h (resolve_project ctx ref h).1
  unfolding resolve_project
  resolve_project-frame ref h = by_ref-frame ref _ h

  -- A registered id resolves to its record, and changes nothing.
  pub resolve_project_found :
      (ref : String) (p : ProjectRecord) (h : Hub)
      → get_project h ref ≡ some p
      → resolve_project ctx ref h ≡ (ok p, h)
  unfolding resolve_project by_ref
  resolve_project_found ref p h e = rw e
