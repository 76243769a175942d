-- ===== src/Project.antt =====
-- packages/cyberlegion/src/project.ts: registering a repository, and resolving a reference to it.
pub mod Frame
use cyberlegion.Prelude.{
  String, Bool, true, false, ◌&&◌, ◌==◌, if◌then◌else◌, Option, none, some, List, [], ◌∷◌, filter,
  ◌<>◌, get_or,
}
use cyberlegion.Exec.{
  Exec, pure, throw, reads, ◌>>=◌, ◌>>◌, not_a_repository, ambiguous_project, no_project,
}
use cyberlegion.Hub.Types.{Hub, ProjectRecord}
use cyberlegion.Hub.{ensure_marker, get_project, list_projects, put_project}
use cyberlegion.Context.{Context}

abbrev pub project_id_of : Context → String → String
project_id_of ctx dir = "prj-" <> ctx.checkout.digest dir

pub record Root : Type 0 where
  pub root : String
  pub exact : Bool

-- `gitDir && top && realOrResolved(gitDir) === commonDir`
abbrev root_of : Context → String → Option String → Option String → Root
root_of ctx common (some git_dir) (some top) =
    if git_dir == common
    then record { root = top; exact = true }
    else record { root = ctx.checkout.dirname common; exact = false }
root_of ctx common _ _ = record { root = ctx.checkout.dirname common; exact = false }

unfoldable pub default_checkout_of : Context → String → String → Root
default_checkout_of ctx dir common =
    root_of ctx common (ctx.checkout.git_dir dir) (ctx.checkout.top_level dir)

-- `existing` decides the root that is kept, and the first registration's time.
abbrev pub project_record : Context → String → Root → Option ProjectRecord → ProjectRecord
project_record ctx common found none = record {
  id = project_id_of ctx common;
  name = ctx.checkout.basename found.root;
  root = found.root;
  common_dir = common;
  registered_at = ctx.now;
  subject = none;
}
project_record ctx common found (some existing) =
    let root = if found.exact then found.root else existing.root in
    record {
      id = project_id_of ctx common;
      name = ctx.checkout.basename root;
      root = root;
      common_dir = common;
      registered_at = existing.registered_at;
      subject = none;
    }

register_common : Context → String → Option String → Exec Hub ProjectRecord
register_common ctx dir none = throw not_a_repository
register_common ctx dir (some common) = do
  ensure_marker
  existing ← reads (λ h. get_project h (project_id_of ctx common))
  let r = project_record ctx common (default_checkout_of ctx dir common) existing
  put_project r
  pure r

unfoldable pub register_project : Context → Option String → Exec Hub ProjectRecord
unfolding register_common
register_project ctx dir =
    let at = ctx.checkout.resolve (get_or dir ctx.cwd) in
    register_common ctx at (ctx.checkout.common_dir at)

or_register : Context → String → Option ProjectRecord → Exec Hub ProjectRecord
or_register ctx dir none = register_project ctx (some dir)
or_register ctx dir (some p) = pure p

by_common : Context → String → Option String → Exec Hub ProjectRecord
unfolding or_register
by_common ctx dir none = throw not_a_repository
by_common ctx dir (some common) = do
  existing ← reads (λ h. get_project h (project_id_of ctx common))
  or_register ctx dir existing

unfoldable pub by_path : Context → String → Exec Hub ProjectRecord
unfolding by_common
by_path ctx dir = by_common ctx dir (ctx.checkout.common_dir dir)

named_or_path : Context → String → List ProjectRecord → Exec Hub ProjectRecord
named_or_path ctx ref [] =
    let at = ctx.checkout.resolve ref in
    if ctx.checkout.is_directory at then by_path ctx at else throw no_project
named_or_path ctx ref (p ∷ []) = pure p
named_or_path ctx ref (p ∷ q ∷ ps) = throw ambiguous_project

by_ref : Context → String → Option ProjectRecord → Exec Hub ProjectRecord
unfolding named_or_path
by_ref ctx ref (some p) = pure p
by_ref ctx ref none =
    let at = ctx.checkout.resolve ref in
    if ctx.checkout.looks_like_path ref && ctx.checkout.is_directory at then by_path ctx at else do
      named ← reads (λ h. filter (λ p. p.name == ref) (list_projects h))
      named_or_path ctx ref named

unfoldable pub resolve_project : Context → String → Exec Hub ProjectRecord
unfolding by_ref
resolve_project ctx ref = do by_id ← reads (λ h. get_project h ref); by_ref ctx ref by_id
