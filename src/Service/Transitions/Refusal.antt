-- ===== src/Service/Transitions/Refusal.antt =====
-- What a refused bind, release or hand-off of packages/cyberlegion/src/service.ts leaves.
use cyberlegion.Prelude.{◌+◌, String, false, ◌≡◌, none, some, arith}
use cyberlegion.Exec.{Exec, Result, Error, err}
use cyberlegion.Hub.Types.{Hub, ServiceLease, LeaseState}
use cyberlegion.Service.{ServiceContext, ServiceView}
use cyberlegion.Service.State.{Loaded}
use cyberlegion.Service.Transitions.{
  BindInput, bind_service, bind_body, ReleaseInput, release_service, release_body, HandoffInput,
  handoff_service, handoff_body, live_unit, settled, write_view,
}
use cyberlegion.Service.Transitions.Outcomes.{IsServed, transition_at, write_view_lem}

-- Refusals, on the loaded state.
module _ (ctx : ServiceContext) (name : String) (s : Loaded) (h : Hub) (v : IsServed name s h)
    (x : Error) where
  abbrev Keeps : Result ServiceView × Hub → Type 0
  Keeps r = r.0 ≡ err x → r.1 ≡ h

  write_view-Keeps :
      (l : ServiceLease)
      → l.project ≡ s.project.id
      → l.service ≡ name
      → Keeps (write_view ctx s l h)
  write_view-Keeps l p n = rw (write_view_lem ctx name s h v l p n) (λ e. cc)

  bind_body-Keeps : (b : BindInput) → Keeps (bind_body ctx b s h)
  unfolding bind_body live_unit
  bind_body-Keeps b =
      let l = settled s.lease LeaseState.active (some b.unit) in
      ground (arith, write_view_lem ctx name s h v l v.of_project v.of_service)

  release_body-Keeps : (r : ReleaseInput) → Keeps (release_body ctx r s h)
  unfolding release_body
  release_body-Keeps r =
      let l = settled s.lease LeaseState.vacant none in
      ground (arith, write_view-Keeps l v.of_project v.of_service)

  handoff_body-Keeps : (o : HandoffInput) → Keeps (handoff_body ctx o s h)
  unfolding handoff_body live_unit
  handoff_body-Keeps o =
      let l = record s.lease { generation = s.lease.generation + 1; holder = some o.to } in
      ground (arith, write_view_lem ctx name s h v l v.of_project v.of_service)

-- A call that needs an authority: a reservation's token, or the ownership.
pub data Change : Type 0 where
  binds : BindInput → Change
  releases : ReleaseInput → Change
  hands_off : HandoffInput → Change

unfoldable pub change : ServiceContext → String → String → Change → Exec Hub ServiceView
change ctx ref name (binds b) = bind_service ctx ref name b
change ctx ref name (releases r) = release_service ctx ref name r
change ctx ref name (hands_off o) = handoff_service ctx ref name o

module _ (name : String) (s : Loaded) (h : Hub) (v : IsServed name s h) where
  -- A bind, a release or a hand-off of a service that the hub serves, for any input, leaves the hub as
  -- it was when it throws.
  pub refused_unchanged :
      (ctx : ServiceContext) (c : Change) (x : Error)
      → (change ctx s.project.id name c h).0 ≡ err x
      → (change ctx s.project.id name c h).1 ≡ h
  unfolding change bind_service release_service handoff_service
  refused_unchanged ctx (binds b) x =
      rw (transition_at ctx name s h v false (bind_body ctx b)) (bind_body-Keeps ctx name s h v x b)
  refused_unchanged ctx (releases r) x =
      rw (transition_at ctx name s h v false (release_body ctx r))
        (release_body-Keeps ctx name s h v x r)
  refused_unchanged ctx (hands_off o) x =
      rw (transition_at ctx name s h v false (handoff_body ctx o))
        (handoff_body-Keeps ctx name s h v x o)
