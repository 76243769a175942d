-- ===== src/Service/History.antt =====
-- Any sequence of calls of service.ts, by any callers, on any services: each call runs under its
-- service's lock, so a history is a list of calls. A call that throws keeps what it wrote.
pub mod Fencing
use cyberlegion.Prelude.{String, Option, ℕ, ◌≡◌, refl, List, [], ◌∷◌, Bool, true, false}
use cyberlegion.Exec.{Exec, after}
use cyberlegion.Hub.Types.{Hub}
use cyberlegion.Project.{register_project}
use cyberlegion.Project.Frame.{register_project-frame}
use cyberlegion.Service.{ServiceContext}
use cyberlegion.Hub.{get_service_lease}
use cyberlegion.Service.Authority.{
  IsFiled, Follows, Evolves, Evolves-refl, Evolves-trans, Evolves-same,
}
use cyberlegion.Service.State.{resolve_service, load}
use cyberlegion.Service.State.Frame.{load-Loads, transition-Evolves}
use cyberlegion.Service.Transitions.{
  AcquireInput, BindInput, ReleaseInput, HandoffInput, acquire_service, bind_service,
  release_service, handoff_service, verify_ownership,
}
use cyberlegion.Service.Transitions.Steps.{
  acquire_body-Evolves, bind_body-Evolves, release_body-Evolves, handoff_body-Evolves,
  verify_ownership-Evolves, load-Evolves,
}

pub data Call : Type 0 where
  acquires : ServiceContext → String → String → AcquireInput → Call
  binds : ServiceContext → String → String → BindInput → Call
  releases : ServiceContext → String → String → ReleaseInput → Call
  hands_off : ServiceContext → String → String → HandoffInput → Call
  resolves : ServiceContext → String → String → Call
  verifies : ServiceContext → String → String → String → ℕ → Call
  registers : ServiceContext → Option String → Call

unfoldable pub call : Call → Hub → Hub
call (acquires ctx ref name input) h = (acquire_service ctx ref name input h).1
call (binds ctx ref name input) h = (bind_service ctx ref name input h).1
call (releases ctx ref name input) h = (release_service ctx ref name input h).1
call (hands_off ctx ref name input) h = (handoff_service ctx ref name input h).1
call (resolves ctx ref name) h = (resolve_service ctx ref name h).1
call (verifies ctx ref name unit generation) h = (verify_ownership ctx ref name unit generation h).1
call (registers ctx dir) h = (register_project ctx.context dir h).1

unfoldable pub run : List Call → Hub → Hub
run [] h = h
run (c ∷ cs) h = run cs (call c h)

call-Evolves : (c : Call) (h : Hub) → Evolves h (call c h)
unfolding call acquire_service bind_service release_service handoff_service resolve_service
call-Evolves (acquires ctx ref name input) h =
    transition-Evolves ctx ref name true _ h λ s g v. acquire_body-Evolves ctx s name g v input
call-Evolves (binds ctx ref name input) h =
    transition-Evolves ctx ref name false _ h λ s g v. bind_body-Evolves ctx s name g v input
call-Evolves (releases ctx ref name input) h =
    transition-Evolves ctx ref name false _ h λ s g v. release_body-Evolves ctx s name g v input
call-Evolves (hands_off ctx ref name input) h =
    transition-Evolves ctx ref name false _ h λ s g v. handoff_body-Evolves ctx s name g v input
call-Evolves (resolves ctx ref name) h = load-Evolves ctx ref name _ h (λ s g. refl)
call-Evolves (verifies ctx ref name unit generation) h =
    verify_ownership-Evolves ctx ref name unit generation h
call-Evolves (registers ctx dir) h =
    Evolves-same _ _ (register_project-frame ctx.context dir h).leases

-- After any history every lease is at the same generation or a later one, and within a generation
-- its state has only moved on and its owner is the same.
pub run-Evolves : (cs : List Call) (h : Hub) → Evolves h (run cs h)
unfolding run
run-Evolves [] h = Evolves-refl h
run-Evolves (c ∷ cs) h = Evolves-trans (call-Evolves c h) (run-Evolves cs (call c h))

-- Where every lease is stored under its own project and service, after any history of calls by anyone,
-- calls that throw included: each lease is still there, its generation has not fallen, and at the same
-- generation its state has only moved on from reserved to active to vacant, and an active lease that is
-- active still has the same owner.
pub run-Follows :
    (cs : List Call) (h : Hub) (p n : String)
    → IsFiled h
    → Follows (get_service_lease h p n) (get_service_lease (run cs h) p n)
run-Follows cs h p n filed = (run-Evolves cs h).follows filed p n
