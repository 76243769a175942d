-- ===== src/Service/Authority.antt =====
-- How a lease may change: the order on leases that every transition of service.ts follows, lifted
-- to the hub.
use cyberlegion.Prelude.{
  ℕ, ◌≤◌, String, ◌≡◌, refl, sym, ap, ◌∙◌, ◌⊎◌, inl, inr, Option, none, some, arith, eq_iff,
}
use cyberlegion.Exec.{Result, ok, err, Exec, after}
use cyberlegion.Hub.Types.{Hub, ServiceLease, LeaseState}
use cyberlegion.Hub.{put_service_lease, get_service_lease}
use cyberlegion.Hub.Leases.{get_service_lease-put, get_service_lease-same}

-- Within one generation a lease goes from reserved to active to vacant.
abbrev pub rank : LeaseState → ℕ
rank LeaseState.reserved = 0
rank LeaseState.active = 1
rank LeaseState.vacant = 2

-- A generation never falls; within one, the state only moves on and an owner is never replaced.
pub record Succeeds (a b : ServiceLease) : Type 0 where
  pub generation : a.generation ≤ b.generation
  pub state : a.generation ≡ b.generation → rank a.state ≤ rank b.state
  pub holder :
      a.generation ≡ b.generation
      → a.state ≡ LeaseState.active
      → b.state ≡ LeaseState.active
      → a.holder ≡ b.holder

-- A stored lease is never deleted.
abbrev pub Follows : Option ServiceLease → Option ServiceLease → Type 0
Follows none o = Unit {0}
Follows (some a) none = ⊥
Follows (some a) (some b) = Succeeds a b

-- A lease names the project and the service under which it is stored.
pub record IsFiled (h : Hub) : Type 0 where
  pub at :
      (p n : String) (l : ServiceLease)
      → get_service_lease h p n ≡ some l
      → (l.project ≡ p) × (l.service ≡ n)

pub record Evolves (g h : Hub) : Type 0 where
  pub filed : IsFiled g → IsFiled h
  pub follows :
      IsFiled g → (p n : String) → Follows (get_service_lease g p n) (get_service_lease h p n)

pub Succeeds-refl : (a : ServiceLease) → Succeeds a a
Succeeds-refl a = record {
  generation = omega arith;
  state = λ e. omega arith;
  holder = λ e f g. refl;
}

squeeze : (s : LeaseState) → 1 ≤ rank s → rank s ≤ 1 → s ≡ LeaseState.active
squeeze LeaseState.reserved h k = absurd (omega arith)
squeeze LeaseState.active h k = refl
squeeze LeaseState.vacant h k = absurd (omega arith)

pub Succeeds-trans : {a b c : ServiceLease} → Succeeds a b → Succeeds b c → Succeeds a c
Succeeds-trans {a} {b} {c} r s = record {
  generation = omega (arith, r.generation, s.generation);
  state = λ e. omega (arith, r.generation, s.generation, r.state, s.state);
  holder = λ e f g.
      let first : a.generation ≡ b.generation = omega (arith, r.generation, s.generation) in
      let last : b.generation ≡ c.generation = omega (arith, r.generation, s.generation) in
      let from : rank a.state ≡ 1 = ap rank f in
      let to : rank c.state ≡ 1 = ap rank g in
      let mid = squeeze b.state (omega (arith, r.state first)) (omega (arith, s.state last)) in
      r.holder first f mid ∙ s.holder last mid g;
}

pub Follows-trans : (a b c : Option ServiceLease) → Follows a b → Follows b c → Follows a c
Follows-trans none b c r s = tt
Follows-trans (some a) none c r s = elim r [ ]
Follows-trans (some a) (some b) none r s = elim s [ ]
Follows-trans (some a) (some b) (some c) r s = Succeeds-trans r s

pub Follows-refl : (a : Option ServiceLease) → Follows a a
Follows-refl none = tt
Follows-refl (some a) = Succeeds-refl a

pub Evolves-refl : (h : Hub) → Evolves h h
Evolves-refl h = record { filed = λ f. f; follows = λ f p n. Follows-refl _ }

pub Evolves-trans : {f g h : Hub} → Evolves f g → Evolves g h → Evolves f h
Evolves-trans r s = record {
  filed = λ w. s.filed (r.filed w);
  follows = λ w p n. Follows-trans _ _ _ (r.follows w p n) (s.follows (r.filed w) p n);
}

-- A hub with the same lease files.
pub Evolves-same : (g h : Hub) → h.leases ≡ g.leases → Evolves g h
Evolves-same g h e = record {
  filed = λ w. record { at = λ p n l x. w.at p n l (get_service_lease-same g h p n (sym e) ∙ x) };
  follows = λ w p n. rw (get_service_lease-same h g p n e) (Follows-refl _);
}

-- The write of a lease changes the reading of its own file only.
put_cases :
    (l : ServiceLease) (h : Hub) (p n : String)
    → ((l.project ≡ p)
        × (l.service ≡ n)
        × (get_service_lease (put_service_lease l h).1 p n ≡ some l))
      ⊎ (get_service_lease (put_service_lease l h).1 p n ≡ get_service_lease h p n)
put_cases l h p n =
    ground (arith, get_service_lease-put l h p n, eq_iff l.project p, eq_iff l.service n)

filed_put :
    (l k : ServiceLease) (h : Hub) (p n : String)
    → IsFiled h
    → get_service_lease (put_service_lease l h).1 p n ≡ some k
    → (k.project ≡ p) × (k.service ≡ n)
filed_put l k h p n w x = elim (put_cases l h p n) [
  | inl (a, b, c) ↦ ground arith
  | inr e ↦ w.at p n k (sym e ∙ x)
]

Follows-put :
    (l : ServiceLease) (h : Hub) (p n : String)
    → Follows (get_service_lease h l.project l.service) (some l)
    → Follows (get_service_lease h p n) (get_service_lease (put_service_lease l h).1 p n)
Follows-put l h p n ahead = elim (put_cases l h p n) [
  | inl (a, b, c) ↦ rw (c, ← a, ← b) ahead
  | inr e ↦ rw e (Follows-refl _)
]

-- The write of a lease that succeeds the one in its file.
pub put-Evolves :
    (l : ServiceLease) (h : Hub)
    → (IsFiled h → Follows (get_service_lease h l.project l.service) (some l))
    → Evolves h (put_service_lease l h).1
put-Evolves l h ahead = record {
  filed = λ w. record { at = λ p n k x. filed_put l k h p n w x };
  follows = λ w p n. Follows-put l h p n (ahead w);
}

-- The rule for `do`.
pub after-Evolves :
    {A B : Type 0} (h : Hub) (r : Result A × Hub) (f : A → Exec Hub B)
    → Evolves h r.1
    → ((a : A) → r.0 ≡ ok a → Evolves r.1 (f a r.1).1)
    → Evolves h (after r f).1
after-Evolves h (ok a, g) f e k = Evolves-trans e (k a refl)
after-Evolves h (err x, g) f e k = e
