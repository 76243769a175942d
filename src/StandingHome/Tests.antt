-- ===== src/StandingHome/Tests.antt =====
-- A standing owner's home by flags, and the property of `resolveHomeFlags` at it.
use cyberlegion.Prelude.{String, Bool, true, false, is_some, none, some, ◌≡◌, refl}
use cyberlegion.Hub.Types.{HomeLaunch, StandingHome}
use cyberlegion.Identity.Presence.{nonempty}
use cyberlegion.StandingHome.{
  HomeFlags, Folders, resolve_home_flags, home_at, launch_in, launch_by, in_launch_map,
}
use cyberlegion.StandingHome.Accepted.{IsHome, resolve_home_flags-IsHome}

abbrev folders : Folders
folders = record {
  resolve = λ p. p;
  is_directory = λ p. true;
  real_path = λ p. p;
  has_agent = λ agent dir. false;
  primary_of = λ dir. some "/app";
}

abbrev flags : HomeFlags
flags = record {
  standing = true;
  handle = some "boss";
  home = some "/homes/boss";
  clear_home = false;
  agent = none;
  harness = some "codex";
}

abbrev home : StandingHome
home = record { dir = "/homes/boss"; launch = HomeLaunch.by_harness "codex" }

resolve_home_flags-IsHome_example :
    (◌≡◌ {A = Bool} true true)
    × (is_some (nonempty flags.handle) ≡ true)
    × (◌≡◌ {A = Bool} false false)
    × ((given : String) × (flags.home ≡ some given) × IsHome folders flags given home)
unfolding resolve_home_flags home_at launch_in launch_by in_launch_map
resolve_home_flags-IsHome_example = resolve_home_flags-IsHome folders flags home refl
