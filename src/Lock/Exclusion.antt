-- ===== src/Lock/Exclusion.antt =====
-- Holders of the lock of packages/cyberlegion/src/store/lock.ts while none is judged dead.
use cyberlegion.Prelude.{
  ℕ, Bool, true, false, nat_eq, nat_eq_iff, if◌then◌else◌, List, [], ◌∷◌, ◌≡◌, ◌≢◌, ◌⊎◌, inl, inr,
  refl, sym, ap, ◌∙◌, Bool-cases, arith,
}
use cyberlegion.Lock.{Dir, Phase, Probe, State, try_make, write_holder, local, act, run, start}

-- No process is in the lock's code.
abbrev Free : State → Type 0
Free s = (r : ℕ) → s.phase r ≡ Phase.idle

-- Only `o` is in the lock's code: it made the directory, or holds the lock, and the directory is there.
record Owned (s : State) (o : ℕ) : Type 0 where
  others : (r : ℕ) → r ≢ o → s.phase r ≡ Phase.idle
  own : (s.phase o ≡ Phase.making) ⊎ (s.phase o ≡ Phase.holding)
  there : s.dir ≢ Dir.absent

abbrev Exclusive : State → Type 0
Exclusive s = Free s ⊎ ((o : ℕ) × Owned s o)

act-phase :
    (alive : Probe) (p : ℕ) (s : State) (a : Phase) (d e : Dir) (c : Phase) (r : ℕ)
    → s.phase p ≡ a
    → s.dir ≡ d
    → local alive p d a ≡ (e, c)
    → ((act alive p s).dir ≡ e) × ((act alive p s).phase r ≡ (if nat_eq r p then c else s.phase r))
unfolding act
act-phase alive p s a d e c r x v l =
    let m : local alive p s.dir (s.phase p) ≡ (e, c) =
      ap (λ z. local alive p z (s.phase p)) v ∙ ap (local alive p d) x ∙ l in
    (ap (λ z. z.0) m, ap (λ (z : Phase). if nat_eq r p then z else s.phase r) (ap (λ z. z.1) m))

same-Exclusive :
    (s g : State) → ((r : ℕ) → g.phase r ≡ s.phase r) → g.dir ≡ s.dir → Exclusive s → Exclusive g
same-Exclusive s g e d (inl free) = inl (λ r. e r ∙ free r)
same-Exclusive s g e d (inr (o, w)) = inr (
  o,
  record {
    others = λ r n. e r ∙ w.others r n;
    own = elim w.own [ inl k ↦ inl (e o ∙ k) | inr k ↦ inr (e o ∙ k) ];
    there = λ q. w.there (sym d ∙ q);
  },
)

module _ (alive : Probe) (all_alive : (q : ℕ) → alive q ≡ true) where
  -- A process that stays idle and leaves the directory changes nothing.
  waits-Exclusive :
      (p : ℕ) (s : State) (d : Dir)
      → s.phase p ≡ Phase.idle
      → s.dir ≡ d
      → local alive p d Phase.idle ≡ (d, Phase.idle)
      → Exclusive s
      → Exclusive (act alive p s)
  waits-Exclusive p s d x v l ex =
      same-Exclusive s (act alive p s)
        (λ r. elim (Bool-cases (nat_eq r p)) [
          | inl k ↦
              let q : r ≡ p = (nat_eq_iff r p).0 k in
              (act-phase alive p s Phase.idle d d Phase.idle r x v l).1
              ∙ ap (λ (b : Bool). if b then Phase.idle else s.phase r) k
              ∙ sym x
              ∙ ap s.phase (sym q)
          | inr k ↦
              (act-phase alive p s Phase.idle d d Phase.idle r x v l).1
              ∙ ap (λ (b : Bool). if b then Phase.idle else s.phase r) k
        ])
        ((act-phase alive p s Phase.idle d d Phase.idle p x v l).0 ∙ sym v) ex

  -- A process that makes the directory, or that made it and goes on, is the only one in the lock's code.
  owns-Exclusive :
      (p : ℕ) (s : State) (a c : Phase) (d e : Dir)
      → ((r : ℕ) → r ≢ p → s.phase r ≡ Phase.idle)
      → s.phase p ≡ a
      → s.dir ≡ d
      → local alive p d a ≡ (e, c)
      → ((c ≡ Phase.idle) ⊎ (((c ≡ Phase.making) ⊎ (c ≡ Phase.holding)) × (e ≢ Dir.absent)))
      → Exclusive (act alive p s)
  owns-Exclusive p s a c d e others x v l (inl k) = inl (λ r. elim (Bool-cases (nat_eq r p)) [
    | inl y ↦
        (act-phase alive p s a d e c r x v l).1
        ∙ ap (λ (b : Bool). if b then c else s.phase r) y
        ∙ k
    | inr y ↦
        (act-phase alive p s a d e c r x v l).1
        ∙ ap (λ (b : Bool). if b then c else s.phase r) y
        ∙ others r (λ q. ground (arith, y, q))
  ])
  owns-Exclusive p s a c d e others x v l (inr (k, n)) =
      let mine : (act alive p s).phase p ≡ c =
        (act-phase alive p s a d e c p x v l).1
        ∙ ap (λ (b : Bool). if b then c else s.phase p) ((nat_eq_iff p p).1 refl) in
      inr (
        p,
        record {
          others = λ r m.
              let miss : nat_eq r p ≡ false = ground (arith, m) in
              (act-phase alive p s a d e c r x v l).1
              ∙ ap (λ (b : Bool). if b then c else s.phase r) miss
              ∙ others r m;
          own = elim k [ inl z ↦ inl (mine ∙ z) | inr z ↦ inr (mine ∙ z) ];
          there = λ q. n (sym (act-phase alive p s a d e c p x v l).0 ∙ q);
        },
      )

  idle-Exclusive :
      (p : ℕ) (s : State) (d : Dir)
      → s.phase p ≡ Phase.idle
      → s.dir ≡ d
      → Exclusive s
      → (d ≡ Dir.absent → Free s)
      → Exclusive (act alive p s)
  unfolding local try_make
  idle-Exclusive p s Dir.absent x v ex free =
      owns-Exclusive p s Phase.idle Phase.making Dir.absent Dir.unwritten (λ r n. free refl r) x v
        refl (inr (inl refl, λ q. absurd (ground (arith, q))))
  idle-Exclusive p s Dir.unwritten x v ex free = waits-Exclusive p s Dir.unwritten x v refl ex
  idle-Exclusive p s (Dir.held_by q) x v ex free =
      waits-Exclusive p s (Dir.held_by q) x v
        (ap
          (λ (b : Bool).
            if b then (Dir.held_by q, Phase.idle) else (Dir.held_by q, Phase.reclaiming))
          (all_alive q))
        ex

  making-Exclusive :
      (p : ℕ) (s : State) (d : Dir)
      → ((r : ℕ) → r ≢ p → s.phase r ≡ Phase.idle)
      → s.phase p ≡ Phase.making
      → s.dir ≡ d
      → d ≢ Dir.absent
      → Exclusive (act alive p s)
  unfolding local write_holder
  making-Exclusive p s Dir.absent others x v n = absurd (n refl)
  making-Exclusive p s Dir.unwritten others x v n =
      owns-Exclusive p s Phase.making Phase.holding Dir.unwritten (Dir.held_by p) others x v refl
        (inr (inr refl, λ q. absurd (ground (arith, q))))
  making-Exclusive p s (Dir.held_by q) others x v n =
      owns-Exclusive p s Phase.making Phase.holding (Dir.held_by q) (Dir.held_by p) others x v refl
        (inr (inr refl, λ q. absurd (ground (arith, q))))

  act-Exclusive : (p : ℕ) (s : State) → Exclusive s → Exclusive (act alive p s)
  unfolding local
  act-Exclusive p s (inl free) = idle-Exclusive p s s.dir (free p) refl (inl free) (λ q. free)
  act-Exclusive p s (inr (o, w)) = elim (Bool-cases (nat_eq p o)) [
    | inr k ↦
        idle-Exclusive p s s.dir (w.others p (λ q. ground (arith, k, q))) refl (inr (o, w))
          (λ q. absurd (w.there q))
    | inl k ↦
        let q : p ≡ o = (nat_eq_iff p o).0 k in
        let others : (r : ℕ) → r ≢ p → s.phase r ≡ Phase.idle =
          λ r n. w.others r (λ z. n (z ∙ sym q)) in
        elim w.own [
          | inl m ↦ making-Exclusive p s s.dir others (ap s.phase q ∙ m) refl w.there
          | inr m ↦
              owns-Exclusive p s Phase.holding Phase.idle s.dir Dir.absent others (ap s.phase q ∙ m)
                refl refl (inl refl)
        ]
  ]

  run-Exclusive : (ps : List ℕ) (s : State) → Exclusive s → Exclusive (run alive ps s)
  unfolding run
  run-Exclusive [] s ex = ex
  run-Exclusive (p ∷ ps) s ex = run-Exclusive ps (act alive p s) (act-Exclusive p s ex)

  -- Where no process is judged dead, two processes that hold the lock at the same time, after any
  -- schedule that starts with nobody in the lock's code, are the same process.
  pub one_holder :
      (schedule : List ℕ) (d : Dir) (p q : ℕ)
      → (run alive schedule (start d)).phase p ≡ Phase.holding
      → (run alive schedule (start d)).phase q ≡ Phase.holding
      → p ≡ q
  one_holder schedule d p q x y = same (run-Exclusive schedule (start d) (inl (λ r. refl)))
    where
      same : Exclusive (run alive schedule (start d)) → p ≡ q
      same (inl free) = absurd (ground (arith, sym (free p) ∙ x))
      same (inr (o, w)) = is_owner p x ∙ sym (is_owner q y)
        where
          is_owner : (r : ℕ) → (run alive schedule (start d)).phase r ≡ Phase.holding → r ≡ o
          is_owner r h = elim (Bool-cases (nat_eq r o)) [
            | inl k ↦ (nat_eq_iff r o).0 k
            | inr k ↦ absurd (ground (arith, sym (w.others r (λ z. ground (arith, k, z))) ∙ h))
          ]
