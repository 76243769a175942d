-- ===== src/Console/Trust/Loop.antt =====
-- The loop of the watch of `answerTrustPrompt` in packages/cyberlegion/src/console/trust.ts, round by round,
-- and its end by the timeout.
use cyberlegion.Prelude.{
  ℕ, zero, suc, ◌+◌, ◌≤◌, ◌<◌, String, Bool, true, false, not, ◌&&◌, ◌||◌, ◌==◌, ltb, leb,
  if◌then◌else◌, Option, some, ◌≡◌, refl, sym, ap, ◌∙◌, get_or, arith,
}
use cyberlegion.Prelude.Text.{trim}
use cyberlegion.Exec.{Exec, Result, ok, ok-injective, pure}
use cyberlegion.Console.Trust.{
  Tty, Pane, TrustInput, TrustOptions, Watched, poll_of, timeout_of, sleep, read, watch, shown,
}

module _ (pane : Pane) (input : TrustInput) (opts : TrustOptions) where
  -- The loop's next round, or its end, after the read `screen`.
  pub watch_rest : ℕ → ℕ → String → String → Bool → ℕ → String → Exec Tty (Option Watched)
  watch_rest fuel waited first previous changed same screen =
      let changes = changed || not (screen == first) in
      let runs = if screen == previous then same + 1 else 1 in
      if shown pane input opts screen
      then pure (some Watched.seen)
      else if changes && leb (get_or opts.stable_reads 3) runs
      then pure (some Watched.settled)
      else if not changes && trim first == "" && leb (get_or opts.blank_reads 6) runs
      then pure (some Watched.given_up)
      else watch pane input opts fuel (waited + poll_of pane input opts) first screen changes runs

  abbrev pub next_read : Tty → Tty
  next_read t = record t { slept = t.slept + poll_of pane input opts; reads = t.reads + 1 }

  abbrev pub screen_next : Tty → String
  screen_next t = pane.screen (record t { slept = t.slept + poll_of pane input opts })

  pub watch_step :
      (fuel waited : ℕ) (first previous : String) (changed : Bool) (same : ℕ) (t : Tty)
      → watch pane input opts (suc fuel) waited first previous changed same t
        ≡ (if not (ltb waited (timeout_of pane input opts))
              then pure (some Watched.given_up)
              else (λ t.
                  watch_rest fuel waited first previous changed same (screen_next t) (next_read t)))
            t
  unfolding watch watch_rest sleep read
  watch_step fuel waited first previous changed same t = refl

  module _ (P : Option Watched → Tty → Type 0) where
    -- What holds of every end of the rest of a round holds of the rest.
    pub rest_cases :
        (fuel waited : ℕ) (first previous : String) (changed : Bool) (same : ℕ) (screen : String)
        (t g : Tty) (w : Option Watched)
        → (shown pane input opts screen ≡ true → P (some Watched.seen) t)
        → (shown pane input opts screen ≡ false
            → changed || not (screen == first) ≡ true
            → get_or opts.stable_reads 3 ≤ (if screen == previous then same + 1 else 1)
            → P (some Watched.settled) t)
        → (shown pane input opts screen ≡ false
            → changed || not (screen == first) ≡ false
            → trim first == "" ≡ true
            → get_or opts.blank_reads 6 ≤ (if screen == previous then same + 1 else 1)
            → P (some Watched.given_up) t)
        → (shown pane input opts screen ≡ false
            → watch pane input opts fuel
                (waited + poll_of pane input opts)
                first
                screen
                (changed || not (screen == first))
                (if screen == previous then same + 1 else 1)
                t
              ≡ (ok w, g)
            → P w g)
        → watch_rest fuel waited first previous changed same screen t ≡ (ok w, g)
        → P w g
    unfolding watch_rest
    rest_cases fuel waited first previous changed same screen t g w seen settled blank goes run =
        go (shown pane input opts screen) (changes && leb (get_or opts.stable_reads 3) runs)
          (not changes && trim first == "" && leb (get_or opts.blank_reads 6) runs) refl refl refl
          run
      where
        changes : Bool
        changes = changed || not (screen == first)

        runs : ℕ
        runs = if screen == previous then same + 1 else 1

        over :
            (v : Watched)
            → P (some v) t
            → ◌≡◌ {A = Result (Option Watched) × Tty} (ok (some v), t) (ok w, g)
            → P w g
        over v p e = rw (← ok-injective (ap (λ z. z.0) e), ← ap (λ z. z.1) e) p

        go :
            (a b d : Bool)
            → shown pane input opts screen ≡ a
            → changes && leb (get_or opts.stable_reads 3) runs ≡ b
            → not changes && trim first == "" && leb (get_or opts.blank_reads 6) runs ≡ d
            → (if a
                  then pure (some Watched.seen)
                  else if b
                  then pure (some Watched.settled)
                  else if d
                  then pure (some Watched.given_up)
                  else watch pane input opts fuel
                      (waited + poll_of pane input opts)
                      first
                      screen
                      changes
                      runs)
                t
              ≡ (ok w, g)
            → P w g
        go true b d p q r e = over Watched.seen (seen p) e
        go false true d p q r e =
            over Watched.settled (settled p (ground (arith, q)) (ground (arith, q))) e
        go false false true p q r e =
            over Watched.given_up
              (blank p (ground (arith, r)) (ground (arith, r)) (ground (arith, r))) e
        go false false false p q r e = goes p e

  abbrev pub watched_from : Tty → Exec Tty (Option Watched)
  watched_from t =
      if shown pane input opts (pane.screen t)
      then pure (some Watched.seen)
      else watch pane input opts (suc (timeout_of pane input opts)) 0 (pane.screen t)
          (pane.screen t) false 1

  watch_ends :
      (fuel waited : ℕ) (first previous : String) (changed : Bool) (same : ℕ) (t g : Tty)
      (w : Option Watched)
      → 0 < poll_of pane input opts
      → timeout_of pane input opts < waited + fuel
      → 0 < fuel
      → watch pane input opts fuel waited first previous changed same t ≡ (ok w, g)
      → (v : Watched) × (w ≡ some v)
  unfolding watch
  watch_ends zero waited first previous changed same t g w p l n run = absurd (omega (arith, n))
  watch_ends (suc fuel) waited first previous changed same t g w p l n run =
      go
        (λ less shows.
          watch_ends fuel (waited + poll_of pane input opts) first (screen_next t) _ _ (next_read t)
            g w p (omega (arith, p, l)) (omega (arith, l, less)))
        (ltb waited (timeout_of pane input opts)) refl
        (sym (watch_step fuel waited first previous changed same t) ∙ run)
    where
      go :
          (waited < timeout_of pane input opts
            → shown pane input opts (screen_next t) ≡ false
            → watch pane input opts fuel
                (waited + poll_of pane input opts)
                first
                (screen_next t)
                (changed || not (screen_next t == first))
                (if screen_next t == previous then same + 1 else 1)
                (next_read t)
              ≡ (ok w, g)
            → (v : Watched) × (w ≡ some v))
          → (b : Bool) → ltb waited (timeout_of pane input opts) ≡ b
          → (if not b then pure (some Watched.given_up) else (λ t.
                watch_rest fuel waited first previous changed same (screen_next t) (next_read t)))
              t
            ≡ (ok w, g)
          → (v : Watched) × (w ≡ some v)
      go next false k e = (Watched.given_up, sym (ok-injective (ap (λ z. z.0) e)))
      go next true k e =
          let less : waited < timeout_of pane input opts = ground (arith, k) in
          rest_cases (λ w g. (v : Watched) × (w ≡ some v)) fuel waited first previous changed same
            (screen_next t) (next_read t) g w (λ s. (Watched.seen, refl))
            (λ s c l. (Watched.settled, refl)) (λ s c b l. (Watched.given_up, refl)) (next less) e

  pub watched_ends :
      (t z : Tty) (w : Option Watched)
      → 0 < poll_of pane input opts
      → watched_from t (record t { reads = t.reads + 1 }) ≡ (ok w, z)
      → (v : Watched) × (w ≡ some v)
  watched_ends t z w p run = go (shown pane input opts (pane.screen t)) run
    where
      go :
          (b : Bool)
          → (if b
                then pure (some Watched.seen)
                else watch pane input opts
                    (suc (timeout_of pane input opts))
                    0
                    (pane.screen t)
                    (pane.screen t)
                    false
                    1)
              (record t { reads = t.reads + 1 })
            ≡ (ok w, z)
          → (v : Watched) × (w ≡ some v)
      go true e = (Watched.seen, sym (ok-injective (ap (λ z. z.0) e)))
      go false e =
          watch_ends (suc (timeout_of pane input opts)) 0 (pane.screen t) (pane.screen t) false 1
            (record t { reads = t.reads + 1 }) z w p (omega arith) (omega arith) e
