-- ===== src/Console/Trust/Rounds.antt =====
-- The rounds of the watch of `answerTrustPrompt` in packages/cyberlegion/src/console/trust.ts: what each
-- read showed, and what the end of the watch rests on.
use cyberlegion.Prelude.{
  ℕ, zero, suc, ◌+◌, ◌≤◌, String, Bool, true, false, not, ◌||◌, ◌==◌, ltb, eq_iff, if◌then◌else◌,
  Option, none, some, ◌≡◌, ◌≢◌, ◌⊎◌, inl, inr, refl, sym, ap, ◌∙◌, get_or, Bool-cases, arith,
}
use cyberlegion.Prelude.Text.{trim}
use cyberlegion.Exec.{Result, ok, ok-injective, pure}
use cyberlegion.Console.Trust.{
  Tty, Pane, TrustInput, TrustOptions, Watched, poll_of, timeout_of, watch, shown,
}
use cyberlegion.Console.Trust.Loop.{
  watch_rest, next_read, screen_next, watch_step, rest_cases, watched_from,
}

module _ (pane : Pane) (input : TrustInput) (opts : TrustOptions) where
  -- The terminal at the n-th read of a watch that starts at `t`, each after a poll's sleep.
  abbrev pub at_read : Tty → ℕ → Tty
  at_read t zero = t
  at_read t (suc n) = record (at_read t n) {
    slept = (at_read t n).slept + poll_of pane input opts;
    reads = (at_read t n).reads + 1;
  }

  abbrev pub after_read : Tty → Tty
  after_read t = record t { reads = t.reads + 1 }

  abbrev pub screen : Tty → ℕ → String
  screen t n = pane.screen (at_read t n)

  -- No read up to the n-th shows the prompt.
  abbrev pub NoneShown : Tty → ℕ → Type 0
  NoneShown t zero = shown pane input opts (screen t zero) ≡ false
  NoneShown t (suc n) = NoneShown t n × (shown pane input opts (screen t (suc n)) ≡ false)

  abbrev NoneBefore : Tty → ℕ → Type 0
  NoneBefore t zero = Unit {0}
  NoneBefore t (suc n) = NoneShown t n

  -- The prompt is first shown by the n-th read.
  abbrev pub IsFound : Tty → ℕ → Type 0
  IsFound t n = NoneBefore t n × (shown pane input opts (screen t n) ≡ true)

  -- Every read up to the n-th shows what the first does.
  abbrev pub IsSame : Tty → ℕ → Type 0
  IsSame t zero = Unit {0}
  IsSame t (suc n) = IsSame t n × (screen t (suc n) ≡ screen t zero)

  -- Some read up to the n-th shows another screen than the first.
  abbrev pub Differs : Tty → ℕ → Type 0
  Differs t n = (i : ℕ) × (i ≤ n) × (screen t i ≢ screen t zero)

  abbrev Changed : Bool → Tty → ℕ → Type 0
  Changed true t n = Differs t n
  Changed false t n = IsSame t n

  -- The last `m` reads up to the n-th show one screen.
  pub data Steady (t : Tty) : ℕ → ℕ → Type 0 where
    new : (n : ℕ) → Steady t 1 n
    again : (m n : ℕ) → Steady t m n → screen t (suc n) ≡ screen t n → Steady t (m + 1) (suc n)

  abbrev pub IsSteady : Tty → ℕ → ℕ → Type 0
  IsSteady t reads n = (m : ℕ) × (reads ≤ m) × Steady t m n

  -- What the end of a watch from `t` at `g` rests on: the prompt was shown; or the screen changed and then
  -- held; or the timeout was slept, or the screen is blank and held.
  abbrev pub Ends : Tty → Watched → Tty → Type 0
  Ends t Watched.seen g = (n : ℕ) × (g ≡ after_read (at_read t n)) × IsFound t n
  Ends t Watched.settled g =
      (n : ℕ) × (g ≡ after_read (at_read t n))
      × NoneShown t n
      × Differs t n
      × IsSteady t (get_or opts.stable_reads 3) n
  Ends t Watched.given_up g =
      (n : ℕ) × (g ≡ after_read (at_read t n))
      × NoneShown t n
      × ((t.slept + timeout_of pane input opts ≤ g.slept)
          ⊎ (IsSame t n × (trim (screen t zero) ≡ "") × IsSteady t (get_or opts.blank_reads 6) n))

  Changed-next :
      (changed : Bool) (t : Tty) (n : ℕ)
      → Changed changed t n
      → Changed (changed || not (screen t (suc n) == screen t zero)) t (suc n)
  Changed-next true t n (i, l, d) = (i, omega (arith, l), d)
  Changed-next false t n s = elim (Bool-cases (screen t (suc n) == screen t zero)) [
    | inl y ↦ rw y (s, (eq_iff (screen t (suc n)) (screen t zero)).0 y)
    | inr m ↦ rw m (
      suc n,
      omega arith,
      λ e. ground (arith, m, (eq_iff (screen t (suc n)) (screen t zero)).1 e),
    )
  ]

  Steady-next :
      (same : ℕ) (t : Tty) (n : ℕ)
      → Steady t same n
      → Steady t (if screen t (suc n) == screen t n then same + 1 else 1) (suc n)
  Steady-next same t n s = elim (Bool-cases (screen t (suc n) == screen t n)) [
    | inl y ↦ rw y (Steady.again same n s ((eq_iff (screen t (suc n)) (screen t n)).0 y))
    | inr m ↦ rw m (Steady.new (suc n))
  ]

  differs : (b : Bool) (t : Tty) (n : ℕ) → b ≡ true → Changed b t n → Differs t n
  differs true t n e p = p
  differs false t n e p = absurd (ground (arith, e))

  every_read : (b : Bool) (t : Tty) (n : ℕ) → b ≡ false → Changed b t n → IsSame t n
  every_read false t n e p = p
  every_read true t n e p = absurd (ground (arith, e))

  abbrev EndsAs : Tty → Option Watched → Tty → Type 0
  EndsAs t none g = Unit {0}
  EndsAs t (some w) g = Ends t w g

  watch-Ends :
      (fuel waited : ℕ) (changed : Bool) (same n : ℕ) (t g : Tty) (w : Option Watched)
      → (at_read t n).slept ≡ t.slept + waited
      → Changed changed t n
      → Steady t same n
      → NoneShown t n
      → watch pane input opts fuel waited
          (screen t zero)
          (screen t n)
          changed
          same
          (after_read (at_read t n))
        ≡ (ok w, g)
      → EndsAs t w g
  unfolding watch
  watch-Ends zero waited changed same n t g w slept c s q run =
      rw (← ok-injective (ap (λ z. z.0) run)) tt
  watch-Ends (suc fuel) waited changed same n t g w slept c s q run =
      go
        (λ p.
          watch-Ends fuel (waited + poll_of pane input opts)
            (changed || not (screen t (suc n) == screen t zero))
            (if screen t (suc n) == screen t n then same + 1 else 1) (suc n) t g w
            (omega (arith, slept)) moved held (q, p))
        (ltb waited (timeout_of pane input opts)) refl
        (sym (
            watch_step pane input opts fuel waited (screen t zero) (screen t n) changed same
              (after_read (at_read t n)))
          ∙ run)
    where
      moved : Changed (changed || not (screen t (suc n) == screen t zero)) t (suc n)
      moved = Changed-next changed t n c

      held : Steady t (if screen t (suc n) == screen t n then same + 1 else 1) (suc n)
      held = Steady-next same t n s

      go :
          (shown pane input opts (screen t (suc n)) ≡ false
            → watch pane input opts fuel
                (waited + poll_of pane input opts)
                (screen t zero)
                (screen t (suc n))
                (changed || not (screen t (suc n) == screen t zero))
                (if screen t (suc n) == screen t n then same + 1 else 1)
                (after_read (at_read t (suc n)))
              ≡ (ok w, g)
            → EndsAs t w g)
          → (b : Bool) → ltb waited (timeout_of pane input opts) ≡ b
          → (if not b then pure (some Watched.given_up) else (λ t'.
                watch_rest pane input opts fuel waited
                  (screen t zero)
                  (screen t n)
                  changed
                  same
                  (screen_next pane input opts t')
                  (next_read pane input opts t')))
              (after_read (at_read t n))
            ≡ (ok w, g)
          → EndsAs t w g
      go next false k e =
          rw (← ok-injective (ap (λ z. z.0) e), ← ap (λ z. z.1) e)
            (n, refl, q, inl (ground (arith, k, slept)))
      go next true k e =
          rest_cases pane input opts (EndsAs t) fuel waited (screen t zero) (screen t n) changed
            same (screen t (suc n)) (after_read (at_read t (suc n))) g w
            (λ p. (suc n, refl, (q, p)))
            (λ p y l. (suc n, refl, (q, p), differs _ t (suc n) y moved, (_, l, held)))
            (λ p y z l. (
              suc n,
              refl,
              (q, p),
              inr (
                every_read _ t (suc n) y moved,
                (eq_iff (trim (screen t zero)) "").0 z,
                (_, l, held),
              ),
            ))
            next e

  pub watched-Ends :
      (t g : Tty) (w : Watched)
      → watched_from pane input opts t (after_read t) ≡ (ok (some w), g)
      → Ends t w g
  watched-Ends t g w run = go (shown pane input opts (pane.screen t)) refl run
    where
      go :
          (b : Bool)
          → shown pane input opts (pane.screen t) ≡ b
          → (if b
                then pure (some Watched.seen)
                else watch pane input opts
                    (suc (timeout_of pane input opts))
                    0
                    (pane.screen t)
                    (pane.screen t)
                    false
                    1)
              (after_read t)
            ≡ (ok (some w), g)
          → Ends t w g
      go true k e = over (some w) e
        where
          over :
              (v : Option Watched)
              → ◌≡◌ {A = Result (Option Watched) × Tty}
                  (ok (some Watched.seen), after_read t)
                  (ok v, g)
              → EndsAs t v g
          over v e = rw (← ok-injective (ap (λ z. z.0) e), ← ap (λ z. z.1) e) (0, refl, (tt, k))
      go false k e =
          watch-Ends (suc (timeout_of pane input opts)) 0 false 1 0 t g (some w) (omega arith) tt
            (Steady.new 0) k e
