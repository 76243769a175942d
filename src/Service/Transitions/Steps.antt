-- ===== src/Service/Transitions/Steps.antt =====
-- The transitions of service.ts: for each, the lease that it loads and the lease that it writes.
use cyberlegion.Prelude.{
  ℕ, ◌+◌, ◌≤◌, String, true, false, ◌≡◌, refl, sym, ap, ap₂, subst, inl, inr, Option, none, some,
  arith, nat_eq, Bool-cases,
}
use cyberlegion.Exec.{Exec, pure, after}
use cyberlegion.Hub.Types.{Hub, ServiceLease, LeaseState}
use cyberlegion.Hub.{put_service_lease, get_service_lease}
use cyberlegion.Service.{ServiceContext, ServiceView, Health}
use cyberlegion.Service.Authority.{
  rank, Succeeds, Follows, IsFiled, Evolves, put-Evolves, Evolves-refl, Evolves-same, after-Evolves,
}
use cyberlegion.Service.State.{Loaded, load, write}
use cyberlegion.Service.State.Frame.{IsLoaded, load-Loads}
use cyberlegion.Service.Transitions.{
  AcquireInput, acquire_body, BindInput, bind_body, ReleaseInput, release_body, HandoffInput,
  handoff_body, live_unit, verify_ownership, release_matches, is_state, settled, verify_body,
  write_view, reserve, reserved_lease, acquire_unforced, acquire_as,
}

module _ (ctx : ServiceContext) (s : Loaded) (name : String) (h : Hub) (v : IsLoaded name s h) where
  loaded_project : IsFiled h → s.lease.project ≡ s.project.id
  loaded_project w = elim v [
    | inl e ↦ (w.at s.project.id name s.lease e).0
    | inr (e, p, n, z, g) ↦ p
  ]

  loaded_service : IsFiled h → s.lease.service ≡ name
  loaded_service w = elim v [
    | inl e ↦ (w.at s.project.id name s.lease e).1
    | inr (e, p, n, z, g) ↦ n
  ]

  ahead_loaded :
      (l : ServiceLease)
      → Succeeds s.lease l
      → Follows (get_service_lease h s.project.id name) (some l)
  ahead_loaded l a = elim v [ inl e ↦ rw e a | inr (e, p, n, z, g) ↦ rw e tt ]

  -- The write of a successor, wherever it takes the project and the service from.
  write-Evolves :
      (l : ServiceLease)
      → (IsFiled h → l.project ≡ s.project.id)
      → (IsFiled h → l.service ≡ name)
      → Succeeds s.lease (record l { updated_at = ctx.now })
      → Evolves h (write ctx l h).1
  unfolding write
  write-Evolves l p n a =
      after-Evolves h (put_service_lease (record l { updated_at = ctx.now }) h)
        (λ _. pure (record l { updated_at = ctx.now })) (put-Evolves _ h ahead)
        (λ x _. Evolves-refl _)
    where
      ahead :
          IsFiled h
          → Follows
              (get_service_lease h l.project l.service)
              (some (record l { updated_at = ctx.now }))
      ahead w =
          subst (λ o. Follows o (some (record l { updated_at = ctx.now })))
            (ap₂ (get_service_lease h) (sym (p w)) (sym (n w))) (ahead_loaded _ a)

-- `write` gives back the lease that it wrote, so a view after it changes nothing more.
module _ (ctx : ServiceContext) (s : Loaded) (name : String) (h : Hub) (v : IsLoaded name s h) where
  write_view-Evolves :
      (l : ServiceLease)
      → (IsFiled h → l.project ≡ s.project.id)
      → (IsFiled h → l.service ≡ name)
      → Succeeds s.lease (record l { updated_at = ctx.now })
      → Evolves h (write_view ctx s l h).1
  unfolding write_view
  write_view-Evolves l p n a =
      after-Evolves h (write ctx l h) _ (write-Evolves ctx s name h v l p n a)
        (λ x _. Evolves-refl _)

  reserve-Evolves : (input : AcquireInput) → Evolves h (reserve ctx input name s h).1
  unfolding reserve
  reserve-Evolves input =
      after-Evolves h (write ctx (reserved_lease ctx input name s) h) _
        (write-Evolves ctx s name h v (reserved_lease ctx input name s) (λ w. refl) (λ w. refl)
          (ground arith))
        (λ x _. Evolves-refl _)

  acquire_unforced-Evolves :
      (input : AcquireInput) (current : ServiceView) (health : Health)
      → Evolves h (acquire_unforced ctx input name s current health h).1
  unfolding acquire_unforced
  acquire_unforced-Evolves input current Health.healthy = Evolves-refl h
  acquire_unforced-Evolves input current Health.starting = Evolves-refl h
  acquire_unforced-Evolves input current _ = reserve-Evolves input

  acquire_as-Evolves :
      (input : AcquireInput) (current : ServiceView) (force : Option ℕ)
      → Evolves h (acquire_as ctx input name s current force h).1
  unfolding acquire_as
  acquire_as-Evolves input current none = acquire_unforced-Evolves input current current.health
  acquire_as-Evolves input current (some g) = elim (Bool-cases (nat_eq g s.lease.generation)) [
    | inl e ↦ rw e (reserve-Evolves input)
    | inr e ↦ rw e (Evolves-refl h)
  ]

  pub acquire_body-Evolves : (input : AcquireInput) → Evolves h (acquire_body ctx input name s h).1
  unfolding acquire_body
  acquire_body-Evolves input = acquire_as-Evolves input _ input.force

  live_unit-hub : (id : String) → (live_unit ctx id h).1 ≡ h
  unfolding live_unit
  live_unit-hub id = ground arith

-- The settled lease of a reserved or owned one is a step on, at the same generation.
settled-Succeeds :
    (l : ServiceLease) (state : LeaseState) (holder : Option String) (now : ℕ)
    → rank l.state ≤ rank state
    → (l.state ≡ LeaseState.active → state ≡ LeaseState.active → l.holder ≡ holder)
    → Succeeds l (record (settled l state holder) { updated_at = now })
settled-Succeeds l state holder now r k = record {
  generation = omega arith;
  state = λ e. r;
  holder = λ e a b. k a b;
}

is_state-eq : (a b : LeaseState) → is_state a b ≡ true → a ≡ b
is_state-eq a b e = ground arith

module _ (ctx : ServiceContext) (s : Loaded) (name : String) (h : Hub) (v : IsLoaded name s h) where
  settle-Evolves :
      (state : LeaseState) (holder : Option String)
      → rank s.lease.state ≤ rank state
      → (s.lease.state ≡ LeaseState.active → state ≡ LeaseState.active → s.lease.holder ≡ holder)
      → Evolves h (write_view ctx s (settled s.lease state holder) h).1
  settle-Evolves state holder r k =
      write_view-Evolves ctx s name h v (settled s.lease state holder)
        (loaded_project ctx s name h v) (loaded_service ctx s name h v)
        (settled-Succeeds s.lease state holder ctx.now r k)

  -- A write behind the check that a unit is live.
  checked-Evolves :
      (id : String) (l : ServiceLease)
      → Evolves h (write_view ctx s l h).1
      → Evolves h (after (live_unit ctx id h) (λ unit. write_view ctx s l)).1
  unfolding live_unit
  checked-Evolves id l e = ground (arith, Evolves-refl h)

  pub bind_body-Evolves : (input : BindInput) → Evolves h (bind_body ctx input s h).1
  unfolding bind_body
  bind_body-Evolves input = elim (Bool-cases (is_state s.lease.state LeaseState.reserved)) [
    | inl e ↦
        let r = is_state-eq s.lease.state LeaseState.reserved e in
        ground (
          arith,
          Evolves-refl h,
          checked-Evolves input.unit (settled s.lease LeaseState.active (some input.unit))
              (settle-Evolves LeaseState.active (some input.unit) (rw r (omega arith)) (λ a. cc)),
        )
    | inr e ↦ rw e (Evolves-refl h)
  ]

  pub release_body-Evolves : (input : ReleaseInput) → Evolves h (release_body ctx input s h).1
  unfolding release_body
  release_body-Evolves input = elim (Bool-cases (release_matches input s.lease)) [
    | inl e ↦ rw e (settle-Evolves LeaseState.vacant none (ground arith) (λ a b. cc))
    | inr e ↦ rw e (Evolves-refl h)
  ]

  pub handoff_body-Evolves : (input : HandoffInput) → Evolves h (handoff_body ctx input s h).1
  unfolding handoff_body
  handoff_body-Evolves input =
      let l = record s.lease { generation = s.lease.generation + 1; holder = some input.to } in
      ground (
        arith,
        Evolves-refl h,
        checked-Evolves input.to l (
            write_view-Evolves ctx s name h v l (loaded_project ctx s name h v)
              (loaded_service ctx s name h v) (ground arith)),
      )

module _ (ctx : ServiceContext) where
  -- What follows a load and writes no lease.
  pub load-Evolves :
      {A : Type 0} (ref name : String) (f : Loaded → Exec Hub A) (h : Hub)
      → ((s : Loaded) (g : Hub) → (f s g).1 ≡ g)
      → Evolves h (after (load ctx ref name false h) f).1
  load-Evolves ref name f h same =
      after-Evolves h (load ctx ref name false h) f
        (Evolves-same _ _ (load-Loads ctx ref name false h).leases)
        (λ s _. Evolves-same _ _ (ap (λ (k : Hub). k.leases) (same s _)))

  verify_body-hub :
      (unit : String) (generation : ℕ) (s : Loaded) (h : Hub)
      → (verify_body ctx unit generation s h).1 ≡ h
  unfolding verify_body
  verify_body-hub unit generation s h = ground arith

  pub verify_ownership-Evolves :
      (ref name unit : String) (generation : ℕ) (h : Hub)
      → Evolves h (verify_ownership ctx ref name unit generation h).1
  unfolding verify_ownership
  verify_ownership-Evolves ref name unit generation h =
      load-Evolves ref name (verify_body ctx unit generation) h (verify_body-hub unit generation)
