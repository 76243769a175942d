-- ===== src/Service/Transitions/Outcomes.antt =====
-- What the transitions of service.ts do to a service that has been started: which calls win, which
-- are refused, and what a refusal leaves.
use cyberlegion.Prelude.{
  ℕ, String, Bool, true, ◌&&◌, ◌≡◌, refl, sym, ap₂, ◌∙◌, inl, inr, Option, none, some, arith,
  eq_iff, nat_eq, Bool-cases,
}
use cyberlegion.Exec.{Result, ok, Exec}
use cyberlegion.Hub.Types.{Hub, ServiceLease}
use cyberlegion.Hub.SafeId.{is_safe_id}
use cyberlegion.Hub.{put_service_lease, get_service_lease, get_agent, get_project}
use cyberlegion.Hub.Leases.{get_service_lease-put}
use cyberlegion.Project.Frame.{resolve_project_found}
use cyberlegion.Service.{
  ServiceContext, ServiceView, Health, AcquireResult, assert_service_name, is_service_name,
  service_endpoint_id,
}
use cyberlegion.Service.State.{Loaded, load, view, write, transition}
use cyberlegion.Service.State.Frame.{load_found}
use cyberlegion.Service.Transitions.{
  AcquireInput, acquire_body, write_view, reserve, reserved_lease, acquire_unforced, acquire_as,
}

-- A service of a registered project that has an endpoint and a lease: the state `s` is in the hub.
pub record IsServed (name : String) (s : Loaded) (h : Hub) : Type 0 where
  pub named : is_service_name name ≡ true
  pub project : get_project h s.project.id ≡ some s.project
  pub lease : get_service_lease h s.project.id name ≡ some s.lease
  pub endpoint : get_agent h (service_endpoint_id s.project.id name) ≡ some s.endpoint
  pub of_project : s.lease.project ≡ s.project.id
  pub of_service : s.lease.service ≡ name

module _ (ctx : ServiceContext) (name : String) (s : Loaded) (h : Hub) (v : IsServed name s h) where
  pub load_at : (create : Bool) → load ctx s.project.id name create h ≡ (ok s, h)
  load_at create = load_found ctx name create s h v.named v.project v.lease v.endpoint

  pub transition_at :
      {A : Type 0} (create : Bool) (body : Loaded → Exec Hub A)
      → transition ctx s.project.id name create body h ≡ body s h
  unfolding transition assert_service_name
  transition_at create body = rw (
    v.named,
    resolve_project_found ctx.context s.project.id s.project h v.project,
    load_at create,
  )

-- Writing one lease leaves the units and the projects.
put_lease-frame :
    (l : ServiceLease) (h : Hub)
    → ((put_service_lease l h).1.agents ≡ h.agents)
      × ((put_service_lease l h).1.projects ≡ h.projects)
unfolding put_service_lease
put_lease-frame l h = ground arith

-- A file that was read has a safe name, so it can be written.
put_lease-ok :
    (l k : ServiceLease) (h : Hub)
    → get_service_lease h l.project l.service ≡ some k
    → (put_service_lease l h).0 ≡ ok tt
unfolding put_service_lease get_service_lease
put_lease-ok l k h e = ground arith

get_agent-same : (g h : Hub) (id : String) → g.agents ≡ h.agents → get_agent g id ≡ get_agent h id
unfolding get_agent
get_agent-same g h id e = rw e

get_project-same :
    (g h : Hub) (id : String) → g.projects ≡ h.projects → get_project g id ≡ get_project h id
unfolding get_project
get_project-same g h id e = rw e

safe_of_lease :
    (h : Hub) (p n : String) (l : ServiceLease)
    → get_service_lease h p n ≡ some l
    → (is_safe_id p && is_safe_id n) ≡ true
unfolding get_service_lease
safe_of_lease h p n l e = ground arith

module _ (name : String) (s : Loaded) (h : Hub) (v : IsServed name s h) (l : ServiceLease) where
  -- After the write of its lease the service is as it was, with the new lease.
  pub put-IsServed :
      l.project ≡ s.project.id
      → l.service ≡ name
      → ((put_service_lease l h).0 ≡ ok tt)
        × IsServed name (record s { lease = l }) (put_service_lease l h).1
  put-IsServed p n =
      let file : get_service_lease h l.project l.service ≡ some s.lease =
        ap₂ (get_service_lease h) p n ∙ v.lease in
      let g = (put_service_lease l h).1 in
      (
        put_lease-ok l s.lease h file,
        record {
          named = v.named;
          project = get_project-same g h s.project.id (put_lease-frame l h).1 ∙ v.project;
          lease = ground (
            arith,
            get_service_lease-put l h s.project.id name,
            safe_of_lease h l.project l.service s.lease file,
            eq_iff l.project s.project.id,
            eq_iff l.service name,
          );
          endpoint = get_agent-same g h _ (put_lease-frame l h).0 ∙ v.endpoint;
          of_project = p;
          of_service = n;
        },
      )

abbrev pub stamped : ServiceContext → ServiceLease → ServiceLease
stamped ctx l = record l { updated_at = ctx.now }

module _ (ctx : ServiceContext) (name : String) (s : Loaded) (h : Hub) (v : IsServed name s h)
    (l : ServiceLease) (p : l.project ≡ s.project.id) (n : l.service ≡ name) where
  pub write_lem : write ctx l h ≡ (ok (stamped ctx l), (put_service_lease (stamped ctx l) h).1)
  unfolding write
  write_lem = ground (arith, (put-IsServed name s h v (stamped ctx l) p n).0)

  pub write-IsServed :
      IsServed name (record s { lease = stamped ctx l }) (put_service_lease (stamped ctx l) h).1
  write-IsServed = (put-IsServed name s h v (stamped ctx l) p n).1

  pub write_view_lem : write_view ctx s l h ≡ (
    ok (view ctx (put_service_lease (stamped ctx l) h).1 (record s { lease = stamped ctx l })),
    (put_service_lease (stamped ctx l) h).1,
  )
  unfolding write_view
  write_view_lem = rw write_lem

module _ (ctx : ServiceContext) (name : String) (s : Loaded) (h : Hub) (v : IsServed name s h)
    (input : AcquireInput) where
  abbrev pub next_lease : ServiceLease
  next_lease = stamped ctx (reserved_lease ctx input name s)

  abbrev pub next_hub : Hub
  next_hub = (put_service_lease next_lease h).1

  pub reserve_lem : reserve ctx input name s h ≡ (
    ok (
        AcquireResult.reserved next_lease
          (view ctx next_hub (record s { lease = next_lease }))
          (ctx.random 0)),
    next_hub,
  )
  unfolding reserve
  reserve_lem = rw (write_lem ctx name s h v (reserved_lease ctx input name s) refl refl)

  module _ (l : ServiceLease) (w : ServiceView) (token : String) (g : Hub) where
    abbrev pub Reserves : Result AcquireResult × Hub → Type 0
    Reserves r = r ≡ (ok (AcquireResult.reserved l w token), g)

    reserve_of_unforced :
        (current : ServiceView) (health : Health)
        → Reserves (acquire_unforced ctx input name s current health h)
        → Reserves (reserve ctx input name s h)
    unfolding acquire_unforced
    reserve_of_unforced current Health.healthy e = absurd (ground arith)
    reserve_of_unforced current Health.starting e = absurd (ground arith)
    reserve_of_unforced current _ e = e

    reserve_of_forced :
        (current : ServiceView) (force : Option ℕ)
        → Reserves (acquire_as ctx input name s current force h)
        → Reserves (reserve ctx input name s h)
    unfolding acquire_as
    reserve_of_forced current none e = reserve_of_unforced current current.health e
    reserve_of_forced current (some k) e = elim (Bool-cases (nat_eq k s.lease.generation)) [
      | inl yes' ↦ rw yes' at e
      | inr no' ↦ absurd (ground arith)
    ]

    reserve_of_acquire :
        Reserves (acquire_body ctx input name s h) → Reserves (reserve ctx input name s h)
    unfolding acquire_body
    reserve_of_acquire e = reserve_of_forced (view ctx h s) input.force e

    -- What an acquire that reserved has written.
    pub reserved_is :
        Reserves (acquire_body ctx input name s h)
        → (l ≡ next_lease) × (token ≡ ctx.random 0) × (g ≡ next_hub)
    reserved_is e = let r = sym reserve_lem ∙ reserve_of_acquire e in ground arith
