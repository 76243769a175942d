-- ===== src/Service/Start.antt =====
-- `startService` of packages/cyberlegion/src/service.ts: acquire, launch a runtime when this caller
-- wins the reservation, and bind it. The launch is the caller's: any action on the hub, during which
-- others may act too. `ctx` is the context of the acquire, `then_ctx` of what follows the launch.
use cyberlegion.Prelude.{
  ℕ, String, true, false, ◌≡◌, refl, ap, ◌∙◌, none, some, arith, eq_refl, nat_eq, ◌⊎◌,
}
use cyberlegion.Exec.{Result, Error, ok, err, Exec, stale, ◌>>=◌}
use cyberlegion.Hub.Types.{Hub, ServiceLease, LeaseState, Reservation}
use cyberlegion.Hub.{get_service_lease}
use cyberlegion.Service.{ServiceContext, ServiceView, AcquireResult}
use cyberlegion.Service.State.{Loaded}
use cyberlegion.Service.Transitions.{
  AcquireInput, acquire_service, BindInput, bind_service, bind_body, ReleaseInput, release_service,
  release_matches, settled, token_is, is_state,
}
use cyberlegion.Service.Transitions.Transfer.{release_at}
use cyberlegion.Service.Transitions.Outcomes.{IsServed, transition_at, write-IsServed, stamped}

pub data StartResult (A : Type 0) : Type 0 where
  resolved starting : ServiceView → StartResult A
  started : ServiceView → A → StartResult A

module _ {A : Type 0} (then_ctx : ServiceContext) (ref name : String) (unit_of : A → String) where
  abbrev started_or_refused : A → Result ServiceView × Hub → Result (StartResult A) × Hub
  started_or_refused a (ok v, h) = (ok (StartResult.started v a), h)
  started_or_refused a (err e, h) = (err e, h)

  abbrev bind_input : ServiceLease → String → A → BindInput
  bind_input l token a = record { generation = l.generation; token = token; unit = unit_of a }

  abbrev release_input : ServiceLease → String → ReleaseInput
  release_input l token = record { generation = l.generation; token = some token; unit = none }

  -- A launch that throws releases the reservation, whatever comes of that, and rethrows.
  unfoldable pub after_launch :
      ServiceLease → String → Result A × Hub → Result (StartResult A) × Hub
  after_launch l token (ok a, h) =
      started_or_refused a (bind_service then_ctx ref name (bind_input l token a) h)
  after_launch l token (err e, h) =
      (err e, (release_service then_ctx ref name (release_input l token) h).1)

  start_acquired : (ℕ → String → Exec Hub A) → AcquireResult → Exec Hub (StartResult A)
  unfolding after_launch
  start_acquired launch (AcquireResult.resolved l v) h = (ok (StartResult.resolved v), h)
  start_acquired launch (AcquireResult.starting l v) h = (ok (StartResult.starting v), h)
  start_acquired launch (AcquireResult.reserved l v token) h =
      after_launch l token (launch l.generation l.endpoint h)

  unfoldable pub start_service :
      ServiceContext → AcquireInput → (ℕ → String → Exec Hub A) → Exec Hub (StartResult A)
  unfolding start_acquired
  start_service ctx input launch = do
    acquired ← acquire_service ctx ref name input
    start_acquired launch acquired

module _ {A : Type 0} (then_ctx : ServiceContext) (name : String) (unit_of : A → String)
    (s : Loaded) (g : Hub) (v : IsServed name s g) (l : ServiceLease) (token : String) where
  release_current :
      (r : Reservation)
      → s.lease.state ≡ LeaseState.reserved
      → s.lease.generation ≡ l.generation
      → s.lease.reservation ≡ some r
      → r.token ≡ token
      → release_matches
          (record { generation = l.generation; token = some token; unit = none })
          s.lease
        ≡ true
  unfolding release_matches
  release_current r st gen res t = ground (arith, eq_refl token)

  -- The hub `g` that a failed launch left still holds the caller's reservation: then the service is
  -- vacant again, at the same generation, and the caller sees the launch's own error.
  pub failed_launch_vacates :
      (r : Reservation) (e : Error)
      → s.lease.state ≡ LeaseState.reserved
      → s.lease.generation ≡ l.generation
      → s.lease.reservation ≡ some r
      → r.token ≡ token
      → (k : ServiceLease) × (g' : Hub) × (after_launch then_ctx s.project.id name unit_of l token
            (err e, g)
          ≡ (err e, g'))
        × (get_service_lease g' s.project.id name ≡ some k)
        × (k.state ≡ LeaseState.vacant)
        × (k.generation ≡ l.generation)
        × (k.holder ≡ none)
  unfolding after_launch
  failed_launch_vacates r e st gen res t =
      let k = settled s.lease LeaseState.vacant none in
      let input : ReleaseInput = record {
        generation = l.generation;
        token = some token;
        unit = none;
      } in
      let fits = release_current r st gen res t in
      (
        stamped then_ctx k,
        (release_service then_ctx s.project.id name input g).1,
        refl,
        ap (λ x. get_service_lease x.1 s.project.id name)
              (release_at then_ctx name s g v input fits)
            ∙ (write-IsServed then_ctx name s g v k v.of_project v.of_service).lease,
        refl,
        gen,
        refl,
      )

  -- The hub `g` that the launch left no longer holds the caller's reservation (it was taken over or
  -- released): the launched unit is refused as stale, and nothing is changed.
  pub superseded_launch_refused :
      (a : A)
      → (is_state s.lease.state LeaseState.reserved ≡ false)
        ⊎ ((nat_eq s.lease.generation l.generation ≡ false)
            ⊎ (token_is s.lease.reservation token ≡ false))
      → after_launch then_ctx s.project.id name unit_of l token (ok a, g) ≡ (err stale, g)
  unfolding after_launch bind_service bind_body
  superseded_launch_refused a lost =
      rw
        (transition_at then_ctx name s g v false (
          bind_body then_ctx
            (record { generation = l.generation; token = token; unit = unit_of a })))
        (ground arith)
