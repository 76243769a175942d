-- ===== src/Service/Transitions/Exclusion.antt =====
-- Concurrent starters in service.ts: reservations, ownership and takeover.
use cyberlegion.Prelude.{◌≤◌, String, true, ◌≡◌, refl, sym, ap, ◌∙◌, none, some, arith}
use cyberlegion.Exec.{ok}
use cyberlegion.Hub.Types.{Hub, ServiceLease, LeaseState, Reservation}
use cyberlegion.Service.{ServiceContext, ServiceView, Health, AcquireResult}
use cyberlegion.Service.State.{Loaded, view}
use cyberlegion.Service.Transitions.{
  AcquireInput, acquire_service, acquire_body, reserved_lease, acquire_unforced, acquire_as,
}
use cyberlegion.Service.Transitions.Outcomes.{
  IsServed, transition_at, write-IsServed, next_lease, next_hub, reserved_is,
}

-- A reservation that has not expired is seen as a start in progress.
starting_view :
    (ctx : ServiceContext) (h : Hub) (s : Loaded) (r : Reservation)
    → s.lease.state ≡ LeaseState.reserved
    → s.lease.reservation ≡ some r
    → ctx.now ≤ r.expires_at
    → (view ctx h s).health ≡ Health.starting
unfolding view
starting_view ctx h s r st e t = ground arith

-- A start in progress answers an unforced acquire, and the hub stays.
starting_answer :
    (ctx : ServiceContext) (name : String) (s : Loaded) (h : Hub) (input : AcquireInput)
    → IsServed name s h
    → (view ctx h s).health ≡ Health.starting
    → input.force ≡ none
    → acquire_service ctx s.project.id name input h
      ≡ (ok (AcquireResult.starting s.lease (view ctx h s)), h)
unfolding acquire_service acquire_body acquire_as acquire_unforced
starting_answer ctx name s h input v z f =
    transition_at ctx name s h v true (acquire_body ctx input name) ∙ ground arith

-- What an acquire has written is again a started service.
acquired-IsServed :
    (ctx : ServiceContext) (name : String) (s : Loaded) (h : Hub) (v : IsServed name s h)
    (input : AcquireInput) (l : ServiceLease) (g : Hub)
    → l ≡ next_lease ctx name s h v input
    → g ≡ next_hub ctx name s h v input
    → IsServed name (record s { lease = l }) g
acquired-IsServed ctx name s h v input l g a b =
    rw (a, b) (write-IsServed ctx name s h v (reserved_lease ctx input name s) refl refl)

-- While a reservation has not expired, any other caller's unforced acquire is told that a start is in
-- progress, and changes nothing.
pub acquire_exclusive :
    (ctx : ServiceContext) (name : String) (s : Loaded) (h : Hub) (input : AcquireInput)
    (l : ServiceLease) (w : ServiceView) (token : String) (g : Hub) (later : ServiceContext)
    (other : AcquireInput) (r : Reservation)
    → IsServed name s h
    → acquire_service ctx s.project.id name input h ≡ (ok (AcquireResult.reserved l w token), g)
    → other.force ≡ none
    → l.reservation ≡ some r
    → later.now ≤ r.expires_at
    → (w' : ServiceView) × (acquire_service later s.project.id name other g
        ≡ (ok (AcquireResult.starting l w'), g))
unfolding acquire_service
acquire_exclusive ctx name s h input l w token g later other r v e f lr t =
    let s' : Loaded = record s { lease = l } in
    let wrote =
      reserved_is ctx name s h v input l w token g
        (sym (transition_at ctx name s h v true (acquire_body ctx input name)) ∙ e) in
    let served : IsServed name s' g = acquired-IsServed ctx name s h v input l g wrote.0 wrote.2 in
    let state : l.state ≡ LeaseState.reserved = ap (λ (k : ServiceLease). k.state) wrote.0 in
    (
      view later g s',
      starting_answer later name s' g other served (starting_view later g s' r state lr t) f,
    )
