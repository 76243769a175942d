-- ===== src/StandingHome.antt =====
-- packages/cyberlegion/src/standing-home.ts: what the flags of a registration do to a standing owner's home.
-- The file system, git and the agent definitions answer from outside.
pub mod Accepted
mod Tests
use cyberlegion.Prelude.{
  String, Bool, true, false, not, ◌&&◌, ◌||◌, ◌==◌, is_some, if◌then◌else◌, Option, none, some,
  List, [], ◌∷◌,
}
use cyberlegion.Exec.{
  Result, ok, err, unknown_harness, home_not_standing, home_and_clear, launch_without_home,
  home_missing, one_launch, agent_unresolved, home_is_primary,
}
use cyberlegion.Hub.Types.{HomeLaunch, StandingHome}
use cyberlegion.Identity.Presence.{nonempty}
use cyberlegion.Session.Launch.{launch_map}

pub record HomeFlags : Type 0 where
  pub standing : Bool
  pub handle : Option String
  pub home : Option String
  pub clear_home : Bool
  pub agent : Option String
  pub harness : Option String

pub record Folders : Type 0 where
  pub resolve : String → String
  pub is_directory : String → Bool
  pub real_path : String → String
  -- whether `resolveAgentDef` finds the agent from the folder
  pub has_agent : String → String → Bool
  -- `primaryRootOf`
  pub primary_of : String → Option String

-- `undefined`, `null` and a home
pub data HomeChange : Type 0 where
  keeps clears : HomeChange
  sets : StandingHome → HomeChange

-- The keys of LAUNCH_MAP, and the names that a plain JavaScript object inherits.
abbrev pub launch_keys : List String
launch_keys = "claude" ∷ "cursor" ∷ "codex" ∷ []

abbrev pub inherited_names : List String
inherited_names =
    "constructor" ∷ "toString" ∷ "toLocaleString" ∷ "valueOf" ∷ "hasOwnProperty" ∷ "isPrototypeOf"
    ∷ "propertyIsEnumerable" ∷ "__proto__" ∷ "__defineGetter__" ∷ "__defineSetter__"
    ∷ "__lookupGetter__" ∷ "__lookupSetter__" ∷ []

abbrev pub has_name : List String → String → Bool
has_name [] name = false
has_name (x ∷ xs) name = name == x || has_name xs name

-- `flags.harness in LAUNCH_MAP`, which looks at inherited names too
unfoldable pub in_launch_map : String → Bool
in_launch_map name = has_name launch_keys name || has_name inherited_names name

-- The name is kept as it was given.
unfoldable pub launch_by : String → Result HomeLaunch
launch_by name = if in_launch_map name then ok (HomeLaunch.by_harness name) else err unknown_harness

module _ (f : Folders) (flags : HomeFlags) where
  -- Both launches, or neither, is no launch.
  unfoldable pub launch_in : String → Option String → Option String → Result HomeLaunch
  launch_in dir (some agent) none =
      if f.has_agent agent dir then ok (HomeLaunch.by_agent agent) else err agent_unresolved
  launch_in dir none (some harness) = launch_by harness
  launch_in dir _ _ = err one_launch

  abbrev pub is_primary_home : String → Option String → Bool
  is_primary_home dir none = false
  is_primary_home dir (some primary) = f.real_path primary == f.real_path dir

  abbrev pub checked_home : String → Result HomeLaunch → Result HomeChange
  checked_home dir (err e) = err e
  checked_home dir (ok launch) =
      if is_primary_home dir (f.primary_of dir)
      then err home_is_primary
      else ok (sets (record { dir = dir; launch = launch }))

  unfoldable pub home_at : String → Result HomeChange
  home_at home =
      let dir = f.resolve home in
      if not (f.is_directory dir)
      then err home_missing
      else checked_home dir (launch_in dir flags.agent flags.harness)

  abbrev pub has_home_flag : Bool
  has_home_flag = is_some flags.home || (flags.clear_home || is_some flags.agent)

  abbrev pub home_given : Option String → Result HomeChange
  home_given none = ok keeps
  home_given (some home) = home_at home

  unfoldable pub resolve_home_flags : Result HomeChange
  resolve_home_flags =
      if has_home_flag && not (flags.standing && is_some (nonempty flags.handle))
      then err home_not_standing
      else if not flags.standing
      then ok keeps
      else if is_some flags.home && flags.clear_home
      then err home_and_clear
      else if not (is_some flags.home) && (is_some flags.agent || is_some flags.harness)
      then err launch_without_home
      else if flags.clear_home
      then ok clears
      else home_given flags.home
