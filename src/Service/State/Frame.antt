-- ===== src/Service/State/Frame.antt =====
-- What loading a service's state leaves alone, and what the loaded state says of the hub.
use cyberlegion.Prelude.{
  String, Bool, true, false, ◌≡◌, refl, ◌∙◌, ◌⊎◌, inl, inr, Option, none, some, arith, ap, get_or,
  subst,
}
use cyberlegion.Exec.{Result, ok, err, Exec, after}
use cyberlegion.Hub.Types.{Hub, AgentRecord, ServiceLease, ProjectRecord, LeaseState}
use cyberlegion.Hub.{ensure_marker, put_agent, get_agent, get_project, get_service_lease}
use cyberlegion.Hub.Leases.{get_service_lease-same}
use cyberlegion.Project.{resolve_project}
use cyberlegion.Project.Frame.{resolve_project-frame, resolve_project_found}
use cyberlegion.Service.{ServiceContext, assert_service_name, is_service_name, service_endpoint_id}
use cyberlegion.Service.Authority.{Evolves, Evolves-same, after-Evolves}
use cyberlegion.Service.State.{
  Loaded, or_create, ensure_endpoint, vacant_lease, found_or_create, load, transition, view,
}

module _ (ctx : ServiceContext) where
  or_create-leases :
      (project : ProjectRecord) (name : String) (e : Option AgentRecord) (h : Hub)
      → (or_create ctx project name e h).1.leases ≡ h.leases
  unfolding or_create put_agent ensure_marker
  or_create-leases project name none h = ground arith
  or_create-leases project name (some e) h = refl

  ensure_endpoint-leases :
      (project : ProjectRecord) (name : String) (h : Hub)
      → (ensure_endpoint ctx project name h).1.leases ≡ h.leases
  unfolding ensure_endpoint
  ensure_endpoint-leases project name h = or_create-leases project name _ h

-- The lease that a transition decides on is the stored one, or a vacant one where none is stored.
abbrev pub IsLoaded : String → Loaded → Hub → Type 0
IsLoaded name s h =
    (get_service_lease h s.project.id name ≡ some s.lease)
    ⊎ ((get_service_lease h s.project.id name ≡ none)
        × (s.lease.project ≡ s.project.id)
        × (s.lease.service ≡ name)
        × (s.lease.state ≡ LeaseState.vacant)
        × (s.lease.generation ≡ 0))

pub record Loads (name : String) (h : Hub) (r : Result Loaded × Hub) : Type 0 where
  pub leases : r.1.leases ≡ h.leases
  pub loaded : (s : Loaded) → r.0 ≡ ok s → IsLoaded name s r.1

ok-injective : {A : Type 0} {a b : A} → ok a ≡ ok b → a ≡ b
ok-injective e = cc

Loads-ok : (name : String) (h : Hub) (t : Loaded) → IsLoaded name t h → Loads name h (ok t, h)
Loads-ok name h t v = record {
  leases = refl;
  loaded = λ s eq. subst (λ u. IsLoaded name u h) (ok-injective eq) v;
}

Loads-after :
    {A : Type 0} (name : String) (h : Hub) (m : Result A × Hub) (f : A → Exec Hub Loaded)
    → m.1.leases ≡ h.leases
    → ((a : A) → Loads name m.1 (f a m.1))
    → Loads name h (after m f)
Loads-after name h (ok a, g) f e k = record { leases = (k a).leases ∙ e; loaded = (k a).loaded }
Loads-after name h (err x, g) f e k = record { leases = e; loaded = λ s eq. ground arith }

module _ (ctx : ServiceContext) where
  stored-IsLoaded :
      (project : ProjectRecord) (endpoint : AgentRecord) (name : String) (l : Option ServiceLease)
      (h : Hub)
      → get_service_lease h project.id name ≡ l
      → IsLoaded name
          (record {
            project = project;
            endpoint = endpoint;
            lease = get_or l (vacant_lease ctx project.id name);
          })
          h
  unfolding vacant_lease
  stored-IsLoaded project endpoint name none h x = inr (x, refl, refl, refl, refl)
  stored-IsLoaded project endpoint name (some l) h x = inl x

  created-Loads :
      (project : ProjectRecord) (name : String) (l : Option ServiceLease) (e : Option AgentRecord)
      (h : Hub)
      → get_service_lease h project.id name ≡ l
      → Loads name h (found_or_create ctx project name true l e h)
  unfolding found_or_create
  created-Loads project name (some l) (some e) h x = record {
    leases = refl;
    loaded = λ s eq. ground arith;
  }
  created-Loads project name none e h x =
      Loads-after name h (ensure_endpoint ctx project name h) _
        (ensure_endpoint-leases ctx project name h)
        λ a. Loads-ok name _ _ (
          stored-IsLoaded project a name none _ (
            get_service_lease-same _ _ project.id name (ensure_endpoint-leases ctx project name h)
            ∙ x))
  created-Loads project name (some l) none h x =
      Loads-after name h (ensure_endpoint ctx project name h) _
        (ensure_endpoint-leases ctx project name h)
        λ a. Loads-ok name _ _ (
          stored-IsLoaded project a name (some l) _ (
            get_service_lease-same _ _ project.id name (ensure_endpoint-leases ctx project name h)
            ∙ x))

  found_or_create-Loads :
      (project : ProjectRecord) (name : String) (create : Bool) (l : Option ServiceLease)
      (e : Option AgentRecord) (h : Hub)
      → get_service_lease h project.id name ≡ l
      → Loads name h (found_or_create ctx project name create l e h)
  unfolding found_or_create
  found_or_create-Loads project name true l e h x = created-Loads project name l e h x
  found_or_create-Loads project name false (some l) (some e) h x = record {
    leases = refl;
    loaded = λ s eq. ground arith;
  }
  found_or_create-Loads project name false none e h x = record {
    leases = refl;
    loaded = λ s eq. ground arith;
  }
  found_or_create-Loads project name false (some l) none h x = record {
    leases = refl;
    loaded = λ s eq. ground arith;
  }

  assert_service_name-hub : (name : String) (h : Hub) → (assert_service_name name h).1 ≡ h
  unfolding assert_service_name
  assert_service_name-hub name h = ground arith

  pub load-Loads :
      (ref name : String) (create : Bool) (h : Hub) → Loads name h (load ctx ref name create h)
  unfolding load
  load-Loads ref name create h =
      Loads-after name h (assert_service_name name h) _
        (ap (λ (g : Hub). g.leases) (assert_service_name-hub name h))
        λ a.
          Loads-after name _ (resolve_project ctx.context ref _) _
            (resolve_project-frame ctx.context ref _).leases
            λ project. found_or_create-Loads project name create _ _ _ refl

  pub transition-Evolves :
      {A : Type 0} (ref name : String) (create : Bool) (body : Loaded → Exec Hub A) (h : Hub)
      → ((s : Loaded) (g : Hub) → IsLoaded name s g → Evolves g (body s g).1)
      → Evolves h (transition ctx ref name create body h).1
  unfolding transition
  transition-Evolves ref name create body h keep =
      after-Evolves h (assert_service_name name h) _
        (Evolves-same _ _ (ap (λ (g : Hub). g.leases) (assert_service_name-hub name h)))
        λ a _.
          after-Evolves _ (resolve_project ctx.context ref _) _
            (Evolves-same _ _ (resolve_project-frame ctx.context ref _).leases)
            λ project _.
              after-Evolves _ (load ctx project.id name create _) body
                (Evolves-same _ _ (load-Loads project.id name create _).leases)
                λ s e. keep s _ ((load-Loads project.id name create _).loaded s e)

-- A view is of the project, the endpoint and the lease that were loaded.
pub view-loaded :
    (ctx : ServiceContext) (h : Hub) (s : Loaded)
    → ((view ctx h s).project ≡ s.project)
      × ((view ctx h s).endpoint ≡ s.endpoint)
      × ((view ctx h s).lease ≡ s.lease)
unfolding view
view-loaded ctx h s = ground arith

-- A started service of a registered project loads as it is stored, and changes nothing.
pub load_found :
    (ctx : ServiceContext) (name : String) (create : Bool) (s : Loaded) (h : Hub)
    → is_service_name name ≡ true
    → get_project h s.project.id ≡ some s.project
    → get_service_lease h s.project.id name ≡ some s.lease
    → get_agent h (service_endpoint_id s.project.id name) ≡ some s.endpoint
    → load ctx s.project.id name create h ≡ (ok s, h)
unfolding load assert_service_name found_or_create
load_found ctx name create s h n p l e =
    rw (n, resolve_project_found ctx.context s.project.id s.project h p, l, e)
