-- ===== src/Service/History/Fencing.antt =====
-- Owners, generations and fencing along the histories of service.ts.
use cyberlegion.Prelude.{
  ℕ, ◌<◌, String, true, false, ◌≡◌, ◌≢◌, refl, sym, ap, ◌∙◌, inl, inr, some, List, arith,
  opt_is_iff, Option-cases, subst, some-injective,
}
use mathlib.Core.Path.{subst₂}
use cyberlegion.Hub.Leases.{get_service_lease-same}
use cyberlegion.Exec.{Result, ok, err, Exec, after}
use cyberlegion.Hub.Types.{Hub, ServiceLease, LeaseState, ProjectRecord}
use cyberlegion.Hub.{get_service_lease}
use cyberlegion.Service.{ServiceContext, ServiceView}
use cyberlegion.Service.Authority.{Succeeds, Follows, IsFiled}
use cyberlegion.Service.State.{Loaded, load}
use cyberlegion.Service.State.Frame.{load-Loads, IsLoaded, view-loaded}
use cyberlegion.Service.Transitions.{owns, verify_ownership, verify_body}
use cyberlegion.Service.History.{Call, run, run-Evolves}

-- `unit` owns the service at `generation`, as the lease file says.
abbrev pub Owns : Hub → String → String → String → ℕ → Type 0
Owns h project name unit generation =
    (l : ServiceLease) × (get_service_lease h project name ≡ some l)
    × (owns l unit generation ≡ true)

owns-holder :
    (l : ServiceLease) (u : String) (g : ℕ)
    → owns l u g ≡ true
    → (l.state ≡ LeaseState.active) × (l.holder ≡ some u) × (l.generation ≡ g)
unfolding owns
owns-holder l u g e = ground (arith, opt_is_iff l.holder u)

owned_file :
    (ctx : ServiceContext) (unit : String) (generation : ℕ) (name : String) (s : Loaded) (h : Hub)
    (v : ServiceView)
    → IsLoaded name s h
    → (verify_body ctx unit generation s h).0 ≡ ok v
    → Owns h v.project.id name unit generation
unfolding verify_body
owned_file ctx unit generation name s h v (inl e) x =
    let owned : owns s.lease unit generation ≡ true = ground arith in
    let same : v.project ≡ s.project = ground (arith, view-loaded ctx h s) in
    (s.lease, ap (λ (p : ProjectRecord). get_service_lease h p.id name) same ∙ e, owned)
owned_file ctx unit generation name s h v (inr (e, p, n, z, g)) x =
    let owned : owns s.lease unit generation ≡ true = ground arith in
    absurd (ground (arith, owns-holder s.lease unit generation owned))

after-ok :
    {A B : Type 0} (r : Result A × Hub) (f : A → Exec Hub B) (b : B)
    → (after r f).0 ≡ ok b
    → (a : A) × (r.0 ≡ ok a) × (after r f ≡ f a r.1)
after-ok (ok a, h) f b e = (a, refl, refl)
after-ok (err x, h) f b e = absurd (cc)

-- A verified owner is the one that the lease file names, active, at exactly that generation.
pub verify_ownership-Owns :
    (ctx : ServiceContext) (ref name unit : String) (generation : ℕ) (h : Hub) (v : ServiceView)
    → (verify_ownership ctx ref name unit generation h).0 ≡ ok v
    → Owns h v.project.id name unit generation
unfolding verify_ownership
verify_ownership-Owns ctx ref name unit generation h v e =
    let (s, loaded, ran) =
      after-ok (load ctx ref name false h) (verify_body ctx unit generation) v e in
    let loads = load-Loads ctx ref name false h in
    let (l, file, owned) =
      owned_file ctx unit generation name s _ v (loads.loaded s loaded)
        (ap (λ r. r.0) (sym ran) ∙ e) in
    (l, sym (get_service_lease-same _ _ v.project.id name loads.leases) ∙ file, owned)

-- The file of a lease after any history.
later_file :
    (cs : List Call) (h : Hub) (p n : String) (a : ServiceLease)
    → IsFiled h
    → get_service_lease h p n ≡ some a
    → (b : ServiceLease) × (get_service_lease (run cs h) p n ≡ some b) × Succeeds a b
later_file cs h p n a w e = elim (Option-cases (get_service_lease (run cs h) p n)) [
  | inl none' ↦ absurd (subst₂ Follows e none' ((run-Evolves cs h).follows w p n))
  | inr (b, found) ↦ (b, found, subst₂ Follows e found ((run-Evolves cs h).follows w p n))
]

-- Whoever is verified as the owner of a service at some generation is the only unit ever verified
-- at that generation: after any history of calls by anyone, a unit that verifies at the same
-- generation is the same unit.
pub one_owner :
    (cs : List Call) (h : Hub) (name : String) (generation : ℕ) (ctx : ServiceContext)
    (ref unit : String) (v : ServiceView) (later : ServiceContext) (ref' unit' : String)
    (v' : ServiceView)
    → IsFiled h
    → (verify_ownership ctx ref name unit generation h).0 ≡ ok v
    → (verify_ownership later ref' name unit' generation (run cs h)).0 ≡ ok v'
    → v.project.id ≡ v'.project.id
    → unit ≡ unit'
one_owner cs h name generation ctx ref unit v later ref' unit' v' w e e' same =
    let (a, file, owned) = verify_ownership-Owns ctx ref name unit generation h v e in
    let (c, file', owned') =
      verify_ownership-Owns later ref' name unit' generation (run cs h) v' e' in
    let (b, found, succeeds) = later_file cs h v.project.id name a w file in
    let is : (a.state ≡ LeaseState.active) × (a.holder ≡ some unit) × (a.generation ≡ generation) =
      owns-holder a unit generation owned in
    let was : (c.state ≡ LeaseState.active)
        × (c.holder ≡ some unit')
        × (c.generation ≡ generation) =
      owns-holder c unit' generation owned' in
    let b-eq-c : b ≡ c =
      some-injective (sym found ∙ ap (λ p. get_service_lease (run cs h) p name) same ∙ file') in
    let kept : a.holder ≡ c.holder =
      (subst (Succeeds a) b-eq-c succeeds).holder (is.2 ∙ sym was.2) is.0 was.0 in
    some-injective (sym is.1 ∙ kept ∙ was.1)

-- Once a service's lease has passed a generation, no unit is ever verified at it again, whatever is
-- called by anyone.
pub fenced_forever :
    (cs : List Call) (h : Hub) (p name : String) (l : ServiceLease) (generation : ℕ)
    (later : ServiceContext) (ref unit : String) (v : ServiceView)
    → IsFiled h
    → get_service_lease h p name ≡ some l
    → generation < l.generation
    → v.project.id ≡ p
    → (verify_ownership later ref name unit generation (run cs h)).0 ≢ ok v
fenced_forever cs h p name l generation later ref unit v w file past same e =
    let (c, file', owned) = verify_ownership-Owns later ref name unit generation (run cs h) v e in
    let (b, found, succeeds) = later_file cs h p name l w file in
    let was : (c.state ≡ LeaseState.active) × (c.holder ≡ some unit) × (c.generation ≡ generation) =
      owns-holder c unit generation owned in
    let b-eq-c : b ≡ c =
      some-injective
        (sym found ∙ ap (λ q. get_service_lease (run cs h) q name) (sym same) ∙ file') in
    absurd (omega (arith, succeeds.generation, ap (λ (k : ServiceLease). k.generation) b-eq-c))
