-- ===== src/StandingHome/Accepted.antt =====
-- When `resolveHomeFlags` of packages/cyberlegion/src/standing-home.ts gives a standing owner a home.
use cyberlegion.Prelude.{
  String, Bool, true, false, not, ◌&&◌, ◌||◌, is_some, if◌then◌else◌, Option, none, some, ◌≡◌, inl,
  inr, refl, ap, ◌≢◌, ◌⊎◌, ◌==◌, eq_iff, List, [], ◌∷◌, Bool-cases, some-injective, arith,
}
use cyberlegion.Exec.{
  Result, ok, err, ok-injective, home_missing, home_is_primary, home_not_standing, home_and_clear,
  launch_without_home,
}
use cyberlegion.Hub.Types.{HomeLaunch, StandingHome}
use cyberlegion.Identity.Presence.{nonempty}
use cyberlegion.StandingHome.{
  HomeFlags, Folders, HomeChange, keeps, clears, sets, in_launch_map, has_name, launch_keys,
  inherited_names, launch_by, launch_in, is_primary_home, checked_home, home_at, home_given,
  resolve_home_flags,
}

abbrev pub IsOneOf : List String → String → Type 0
IsOneOf [] name = ⊥
IsOneOf (x ∷ xs) name = (name ≡ x) ⊎ IsOneOf xs name

has_name-IsOneOf : (xs : List String) (name : String) → has_name xs name ≡ true → IsOneOf xs name
has_name-IsOneOf [] name e = absurd (ground (arith, e))
has_name-IsOneOf (x ∷ xs) name e = elim (Bool-cases (name == x)) [
  | inl y ↦ inl ((eq_iff name x).0 y)
  | inr n ↦ inr (has_name-IsOneOf xs name (rw n at e))
]

in_launch_map-IsOneOf :
    (name : String)
    → in_launch_map name ≡ true
    → IsOneOf launch_keys name ⊎ IsOneOf inherited_names name
unfolding in_launch_map
in_launch_map-IsOneOf name e = elim (Bool-cases (has_name launch_keys name)) [
  | inl y ↦ inl (has_name-IsOneOf launch_keys name y)
  | inr n ↦ inr (has_name-IsOneOf inherited_names name (rw n at e))
]

module _ (f : Folders) (flags : HomeFlags) where
  -- The launch is the one that the flags name: an agent that resolves from the home, or a harness whose name
  -- is a key of the launch map or one that a plain JavaScript object inherits.
  abbrev pub IsNamed : HomeLaunch → String → Type 0
  IsNamed (HomeLaunch.by_agent agent) dir =
      (flags.agent ≡ some agent) × (flags.harness ≡ none) × (f.has_agent agent dir ≡ true)
  IsNamed (HomeLaunch.by_harness name) dir =
      (flags.agent ≡ none)
      × (flags.harness ≡ some name)
      × (IsOneOf launch_keys name ⊎ IsOneOf inherited_names name)

  launch_in-IsNamed :
      (dir : String) (a h : Option String) (l : HomeLaunch)
      → flags.agent ≡ a
      → flags.harness ≡ h
      → launch_in f flags dir a h ≡ ok l
      → IsNamed l dir
  unfolding launch_in launch_by
  launch_in-IsNamed dir none none l p q e = absurd (ground (arith, e))
  launch_in-IsNamed dir (some a) (some h) l p q e = absurd (ground (arith, e))
  launch_in-IsNamed dir (some a) none l p q e = elim (Bool-cases (f.has_agent a dir)) [
    | inl y ↦ rw (← ok-injective (rw y at e)) (p, q, y)
    | inr n ↦ absurd (ground (arith, rw n at e))
  ]
  launch_in-IsNamed dir none (some h) l p q e = elim (Bool-cases (in_launch_map h)) [
    | inl y ↦ rw (← ok-injective (rw y at e)) (p, q, in_launch_map-IsOneOf h y)
    | inr n ↦ absurd (ground (arith, rw n at e))
  ]

  -- The folder is in no repository, or its repository's primary checkout is at another real path.
  abbrev pub IsNotPrimary : String → Type 0
  IsNotPrimary dir =
      (f.primary_of dir ≡ none)
      ⊎ ((primary : String) × (f.primary_of dir ≡ some primary)
          × (f.real_path primary ≢ f.real_path dir))

  is_primary_home-not :
      (dir : String) (o : Option String)
      → f.primary_of dir ≡ o
      → is_primary_home f flags dir o ≡ false
      → IsNotPrimary dir
  is_primary_home-not dir none p e = inl p
  is_primary_home-not dir (some primary) p e =
      inr (primary, p, λ q. ground (arith, e, (eq_iff (f.real_path primary) (f.real_path dir)).1 q))

  -- The home is a folder that exists, by a launch that the flags name, and no primary checkout.
  abbrev pub IsHome : String → StandingHome → Type 0
  IsHome given home =
      (home.dir ≡ f.resolve given)
      × (f.is_directory home.dir ≡ true)
      × IsNamed home.launch home.dir
      × IsNotPrimary home.dir

  sets_home : HomeChange → Option StandingHome
  sets_home (sets home) = some home
  sets_home _ = none

  home_of : Result HomeChange → Option StandingHome
  unfolding sets_home
  home_of (err e) = none
  home_of (ok change) = sets_home change

  home_at-IsHome :
      (given : String) (home : StandingHome)
      → home_at f flags given ≡ ok (sets home)
      → IsHome given home
  unfolding home_at sets_home
  home_at-IsHome given home e = go (f.is_directory dir) refl e
    where
      dir : String
      dir = f.resolve given

      last :
          (l : HomeLaunch) (b : Bool)
          → f.is_directory dir ≡ true
          → launch_in f flags dir flags.agent flags.harness ≡ ok l
          → is_primary_home f flags dir (f.primary_of dir) ≡ b
          → (if b then err home_is_primary else ok (sets (record { dir = dir; launch = l })))
            ≡ ok (sets home)
          → IsHome given home
      last l true d k n t = absurd (ground (arith, t))
      last l false d k n t =
          let same : record { dir = dir; launch = l } ≡ home =
            some-injective (ap sets_home (ok-injective t)) in
          rw (← same) (
            refl,
            d,
            launch_in-IsNamed dir flags.agent flags.harness l refl refl k,
            is_primary_home-not dir (f.primary_of dir) refl n,
          )

      checked :
          (r : Result HomeLaunch)
          → f.is_directory dir ≡ true
          → launch_in f flags dir flags.agent flags.harness ≡ r
          → checked_home f flags dir r ≡ ok (sets home)
          → IsHome given home
      checked (err x) d k t = absurd (ground (arith, t))
      checked (ok l) d k t = last l (is_primary_home f flags dir (f.primary_of dir)) d k refl t

      go :
          (b : Bool)
          → f.is_directory dir ≡ b
          → (if not b
              then err home_missing
              else checked_home f flags dir (launch_in f flags dir flags.agent flags.harness))
            ≡ ok (sets home)
          → IsHome given home
      go false d t = absurd (ground (arith, t))
      go true d t = checked (launch_in f flags dir flags.agent flags.harness) d refl t

  given-IsHome :
      (o : Option String) (home : StandingHome)
      → flags.home ≡ o
      → home_given f flags o ≡ ok (sets home)
      → (given : String) × (flags.home ≡ some given) × IsHome given home
  unfolding sets_home
  given-IsHome none home p e = absurd (ground (arith, ap sets_home (ok-injective e)))
  given-IsHome (some given) home p e = (given, p, home_at-IsHome given home e)

  -- Flags that give a home are of a named standing registration that does not clear it as well; the home is
  -- the folder named, which exists and is no primary checkout; and it has exactly one launch: an agent
  -- that resolves from the folder, or a harness whose name is a key of the launch map or a name that a
  -- plain JavaScript object inherits.
  pub resolve_home_flags-IsHome :
      (home : StandingHome)
      → resolve_home_flags f flags ≡ ok (sets home)
      → (flags.standing ≡ true)
        × (is_some (nonempty flags.handle) ≡ true)
        × (flags.clear_home ≡ false)
        × ((given : String) × (flags.home ≡ some given) × IsHome given home)
  unfolding resolve_home_flags sets_home home_of
  resolve_home_flags-IsHome home e =
      go flags.standing (is_some (nonempty flags.handle)) flags.clear_home flags.home refl refl refl
        refl e
    where
      go :
          (s h c : Bool) (o : Option String)
          → flags.standing ≡ s
          → is_some (nonempty flags.handle) ≡ h
          → flags.clear_home ≡ c
          → flags.home ≡ o
          → (if (is_some o || (c || is_some flags.agent)) && not (s && h)
              then err home_not_standing
              else if not s
              then ok keeps
              else if is_some o && c
              then err home_and_clear
              else if not (is_some o) && (is_some flags.agent || is_some flags.harness)
              then err launch_without_home
              else if c
              then ok clears
              else home_given f flags o)
            ≡ ok (sets home)
          → (s ≡ true)
            × (h ≡ true)
            × (c ≡ false)
            × ((given : String) × (flags.home ≡ some given) × IsHome given home)
      go true true false (some given) p q r w t =
          (refl, refl, refl, given-IsHome (some given) home w t)
      go true true true (some given) p q r w t = absurd (ground (arith, t))
      go true false c (some given) p q r w t = absurd (ground (arith, t))
      go false h c (some given) p q r w t = absurd (ground (arith, t))
      go s h c none p q r w t = absurd (ground (arith, ap home_of t))
