-- ===== src/Service/Transitions/Transfer.antt =====
-- How ownership comes and goes in service.ts: binding a reservation and handing off.
use cyberlegion.Prelude.{
  ℕ, ◌+◌, String, true, false, ◌≡◌, ◌∙◌, none, some, arith, eq_refl, if◌then◌else◌,
}
use cyberlegion.Exec.{ok, err, stale}
use cyberlegion.Hub.Types.{Hub, AgentRecord, ServiceLease, LeaseState, Reservation}
use cyberlegion.Hub.{put_service_lease, get_agent}
use cyberlegion.Service.{ServiceContext, ServiceView, unit_is_live}
use cyberlegion.Service.State.{Loaded, view}
use cyberlegion.Service.Transitions.{
  bind_service, bind_body, ReleaseInput, release_service, release_body, handoff_service,
  handoff_body, live_unit, verify_ownership, verify_body, owns, release_matches, settled,
}
use cyberlegion.Service.Transitions.Outcomes.{
  IsServed, load_at, transition_at, write_view_lem, write-IsServed, stamped,
}

module _ (ctx : ServiceContext) (name : String) (s : Loaded) (h : Hub) (v : IsServed name s h) where
  -- The fencing check answers by the stored lease alone, and changes nothing.
  pub verify_at :
      (unit : String) (generation : ℕ)
      → verify_ownership ctx s.project.id name unit generation h
        ≡ ((if owns s.lease unit generation then ok (view ctx h s) else err stale), h)
  unfolding verify_ownership verify_body
  verify_at unit generation = rw (load_at ctx name s h v false) (ground arith)

  live_unit_found :
      (id : String) (u : AgentRecord)
      → get_agent h id ≡ some u
      → unit_is_live ctx u ≡ true
      → live_unit ctx id h ≡ (ok u, h)
  unfolding live_unit
  live_unit_found id u e l = rw (e, l)

  -- The settled lease, its hub, and the state that is then loaded.
  abbrev moved : ServiceLease → Hub
  moved l = (put_service_lease (stamped ctx l) h).1

  abbrev with_lease : ServiceLease → Loaded
  with_lease l = record s { lease = stamped ctx l }

  bind_body_lem :
      (r : Reservation) (unit : String) (u : AgentRecord)
      → s.lease.state ≡ LeaseState.reserved
      → s.lease.reservation ≡ some r
      → get_agent h unit ≡ some u
      → unit_is_live ctx u ≡ true
      → let l = settled s.lease LeaseState.active (some unit) in
        bind_body ctx (record { generation = s.lease.generation; token = r.token; unit = unit }) s h
        ≡ (ok (view ctx (moved l) (with_lease l)), moved l)
  unfolding bind_body
  bind_body_lem r unit u st res found live =
      let l = settled s.lease LeaseState.active (some unit) in
      ground (
        arith,
        eq_refl r.token,
        live_unit_found unit u found live,
        write_view_lem ctx name s h v l v.of_project v.of_service,
      )

  handoff_body_lem :
      (from to : String) (u : AgentRecord)
      → s.lease.state ≡ LeaseState.active
      → s.lease.holder ≡ some from
      → get_agent h to ≡ some u
      → unit_is_live ctx u ≡ true
      → let l = record s.lease { generation = s.lease.generation + 1; holder = some to } in
        handoff_body ctx (record { generation = s.lease.generation; from = from; to = to }) s h
        ≡ (ok (view ctx (moved l) (with_lease l)), moved l)
  unfolding handoff_body
  handoff_body_lem from to u st holder found live =
      let l = record s.lease { generation = s.lease.generation + 1; holder = some to } in
      ground (
        arith,
        eq_refl from,
        live_unit_found to u found live,
        write_view_lem ctx name s h v l v.of_project v.of_service,
      )

  -- A release that matches the lease writes a vacant one at its generation.
  pub release_at :
      (r : ReleaseInput)
      → release_matches r s.lease ≡ true
      → let l = settled s.lease LeaseState.vacant none in
        release_service ctx s.project.id name r h ≡ (
          ok (
              view ctx
                (put_service_lease (stamped ctx l) h).1
                (record s { lease = stamped ctx l })),
          (put_service_lease (stamped ctx l) h).1,
        )
  unfolding release_service release_body
  release_at r fits =
      transition_at ctx name s h v false (release_body ctx r)
      ∙ rw fits (
          write_view_lem ctx name s h v (settled s.lease LeaseState.vacant none) v.of_project
            v.of_service)

module _ (name : String) (s : Loaded) (h : Hub) (v : IsServed name s h) where
  -- A bind of the current reservation, at its generation and with its token, to a live unit makes
  -- the unit the owner: from then on it verifies at that generation.
  pub bind_reserved :
      (ctx later : ServiceContext) (r : Reservation) (unit : String) (u : AgentRecord)
      → s.lease.state ≡ LeaseState.reserved
      → s.lease.reservation ≡ some r
      → get_agent h unit ≡ some u
      → unit_is_live ctx u ≡ true
      → (w : ServiceView) × (w' : ServiceView) × (g : Hub) × (bind_service ctx s.project.id name
            (record { generation = s.lease.generation; token = r.token; unit = unit })
            h
          ≡ (ok w, g))
        × (verify_ownership later s.project.id name unit s.lease.generation g ≡ (ok w', g))
  unfolding bind_service owns
  bind_reserved ctx later r unit u st res found live =
      let l = settled s.lease LeaseState.active (some unit) in
      let s' = with_lease ctx name s h v l in
      let g = moved ctx name s h v l in
      let served : IsServed name s' g = write-IsServed ctx name s h v l v.of_project v.of_service in
      let owned : owns s'.lease unit s'.lease.generation ≡ true = ground (arith, eq_refl unit) in
      (
        view ctx g s',
        view later g s',
        g,
        transition_at ctx name s h v false _
            ∙ bind_body_lem ctx name s h v r unit u st res found live,
        verify_at later name s' g served unit s'.lease.generation ∙ rw owned,
      )

  -- A hand-off by the owner at the current generation, to a live unit, moves the ownership one
  -- generation on: the new owner verifies there, and the old one no longer at its own.
  pub handoff_fences :
      (ctx later : ServiceContext) (from to : String) (u : AgentRecord)
      → s.lease.state ≡ LeaseState.active
      → s.lease.holder ≡ some from
      → get_agent h to ≡ some u
      → unit_is_live ctx u ≡ true
      → (w : ServiceView) × (w' : ServiceView) × (g : Hub) × (handoff_service ctx s.project.id name
            (record { generation = s.lease.generation; from = from; to = to })
            h
          ≡ (ok w, g))
        × (verify_ownership later s.project.id name to (s.lease.generation + 1) g ≡ (ok w', g))
        × (verify_ownership later s.project.id name from s.lease.generation g ≡ (err stale, g))
  unfolding handoff_service owns
  handoff_fences ctx later from to u st holder found live =
      let l = record s.lease { generation = s.lease.generation + 1; holder = some to } in
      let s' = with_lease ctx name s h v l in
      let g = moved ctx name s h v l in
      let served : IsServed name s' g = write-IsServed ctx name s h v l v.of_project v.of_service in
      let owned : owns s'.lease to (s.lease.generation + 1) ≡ true = ground (arith, eq_refl to) in
      let lost : owns s'.lease from s.lease.generation ≡ false = ground arith in
      (
        view ctx g s',
        view later g s',
        g,
        transition_at ctx name s h v false _
            ∙ handoff_body_lem ctx name s h v from to u st holder found live,
        verify_at later name s' g served to (s.lease.generation + 1) ∙ rw owned,
        verify_at later name s' g served from s.lease.generation ∙ rw lost,
      )
