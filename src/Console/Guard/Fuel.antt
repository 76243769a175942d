-- ===== src/Console/Guard/Fuel.antt =====
-- The fuel of the wait of `withDraftGuard` in packages/cyberlegion/src/console/prompt-guard.ts,
-- against its clock.
use cyberlegion.Prelude.{
  ℕ, zero, suc, ◌+◌, ◌≤◌, ◌<◌, false, ltb, ◌≡◌, refl, inl, inr, Bool-cases, arith,
}
use cyberlegion.Console.Prompt.{PromptState}
use cyberlegion.Console.Guard.{
  Keyboard, Box, DraftGuardOptions, sleep, is_waiting, poll, guard_wait,
}

module _ (b : Box) (opts : DraftGuardOptions) (polls : 0 < opts.poll_ms)
    (moves : (k : Keyboard)
      → b.now k + opts.poll_ms ≤ b.now (record k { slept = k.slept + opts.poll_ms })) where
  step :
      (f m : ℕ) (s : PromptState) (start changed : ℕ) (k : Keyboard)
      → (ltb (opts.max_wait_ms + start) (b.now k + opts.poll_ms) ≡ false
          → (next : PromptState) (moved : ℕ)
          → guard_wait b opts f next start moved (record k { slept = k.slept + opts.poll_ms })
            ≡ guard_wait b opts m next start moved (record k { slept = k.slept + opts.poll_ms }))
      → guard_wait b opts (suc f) s start changed k ≡ guard_wait b opts (suc m) s start changed k
  unfolding guard_wait poll sleep
  step f m s start changed k rest = elim (Bool-cases (is_waiting opts s (b.now k) changed)) [
    | inr w ↦ simp w refl
    | inl w ↦ elim (Bool-cases (ltb (opts.max_wait_ms + start) (b.now k + opts.poll_ms))) [
      | inl l ↦ simp (w, l) refl
      | inr l ↦ simp (w, l) (rest l _ _)
    ]
  ]

  guard_wait-more :
      (f m : ℕ) (s : PromptState) (start changed : ℕ) (k : Keyboard)
      → f ≤ m
      → opts.max_wait_ms + start < b.now k + suc f
      → guard_wait b opts (suc f) s start changed k ≡ guard_wait b opts (suc m) s start changed k
  guard_wait-more zero m s start changed k le e =
      step zero m s start changed k (λ l. absurd (ground (arith, l, e, polls)))
  guard_wait-more (suc f) zero s start changed k le e = absurd (omega (arith, le))
  guard_wait-more (suc f) (suc m) s start changed k le e =
      step (suc f) (suc m) s start changed k (λ l next moved.
        guard_wait-more f m next start moved (record k { slept = k.slept + opts.poll_ms })
          (omega (arith, le)) (omega (arith, e, moves k, polls)))

  -- Where polls take time and the clock moves on by at least the time slept, the wait of a guarded send is
  -- the same with any more fuel than its limit: it ends by a change of the box, by the idle time or by the
  -- longest wait, and never by the fuel.
  pub guard_wait-enough :
      (m : ℕ) (s : PromptState) (k : Keyboard)
      → opts.max_wait_ms ≤ m
      → guard_wait b opts (suc opts.max_wait_ms) s (b.now k) (b.now k) k
        ≡ guard_wait b opts (suc m) s (b.now k) (b.now k) k
  guard_wait-enough m s k le =
      guard_wait-more opts.max_wait_ms m s (b.now k) (b.now k) k le (omega arith)
