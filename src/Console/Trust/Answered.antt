-- ===== src/Console/Trust/Answered.antt =====
-- What each outcome of `answerTrustPrompt` of packages/cyberlegion/src/console/trust.ts means.
use cyberlegion.Prelude.{
  ℕ, zero, suc, ◌+◌, ◌<◌, Bool, true, false, not, if◌then◌else◌, Option, none, some, ◌≡◌, ◌≢◌, ◌⊎◌,
  inl, inr, refl, sym, ap, subst, get_or, some-injective, arith,
}
use cyberlegion.Exec.{ok, after-ok, ok-injective, pure, ◌>>◌}
use cyberlegion.Console.Trust.{
  Tty, Pane, TrustInput, TrustOptions, TrustState, Policy, Watched, accept_moves, poll_of,
  attempts_of, sleep, read, do_moves, clear, after_moves, answer_seen, after_watch,
  answer_trust_prompt, shown,
}
use cyberlegion.Console.Trust.Rounds.{Ends, IsFound, watched-Ends}
use cyberlegion.Console.Trust.Loop.{watched_from, watched_ends}
use cyberlegion.Console.Trust.Moves.{MissesOne, do_moves-Misses}

module _ (pane : Pane) (input : TrustInput) (opts : TrustOptions) where
  -- The last read before `g`, and the poll's sleep after it, shows the prompt.
  abbrev pub StillShown : Tty → Type 0
  StillShown g =
      (x : Tty) × (g ≡ record x { reads = x.reads + 1; slept = x.slept + poll_of pane input opts })
      × (shown pane input opts (pane.screen x) ≡ true)

  -- Why the prompt was not answered: no attempt is allowed, or a move of the answer did not do what it is
  -- made for, or the prompt is still shown.
  abbrev pub StuckAt : Tty → Type 0
  StuckAt g =
      (attempts_of pane input opts ≡ 0)
      ⊎ (MissesOne pane input opts (accept_moves input.harness) g ⊎ StillShown g)

  -- What each outcome rests on. Where the prompt was not found, nothing was sent, by `Ends`.
  abbrev pub Answered : Tty → TrustState → Tty → Type 0
  Answered t TrustState.no_prompt g = Ends pane input opts t Watched.settled g
  Answered t TrustState.unsettled g = Ends pane input opts t Watched.given_up g
  Answered t TrustState.needs_human g =
      Ends pane input opts t Watched.seen g × (input.policy ≡ Policy.ask)
  Answered t TrustState.stuck g =
      ((n : ℕ) × IsFound pane input opts t n) × (input.policy ≡ Policy.accept) × StuckAt g
  Answered t TrustState.accepted g =
      ((n : ℕ) × IsFound pane input opts t n)
      × (input.policy ≡ Policy.accept)
      × ((n : ℕ) × (g.reads ≡ n + 1)
          × (shown pane input opts (pane.screen (record g { reads = n })) ≡ false))

  clear-Answered :
      (n : ℕ) (t u g : Tty) (s : TrustState)
      → ((n : ℕ) × IsFound pane input opts u n)
      → input.policy ≡ Policy.accept
      → (n ≡ attempts_of pane input opts) ⊎ StillShown t
      → clear pane input opts n t ≡ (ok s, g)
      → Answered u s g
  unfolding clear read sleep
  clear-Answered zero t u g s f p o run =
      rw (← ok-injective (ap (λ z. z.0) run), ← ap (λ z. z.1) run)
        (f, p, elim o [ inl z ↦ inl (sym z) | inr still ↦ inr (inr still) ])
  clear-Answered (suc n) t u g s f p o run =
      go
        (λ still.
          clear-Answered n
            (record t { reads = t.reads + 1; slept = t.slept + poll_of pane input opts }) u g s f p
            (inr (t, refl, still)))
        (shown pane input opts (pane.screen t)) refl run
    where
      after_one : Tty
      after_one = record t { reads = t.reads + 1 }

      go :
          (shown pane input opts (pane.screen t) ≡ true
            → clear pane input opts n
                (record t { reads = t.reads + 1; slept = t.slept + poll_of pane input opts })
              ≡ (ok s, g)
            → Answered u s g)
          → (b : Bool) → shown pane input opts (pane.screen t) ≡ b
          → (if not b
                then pure TrustState.accepted
                else (do sleep pane input opts (poll_of pane input opts); clear pane input opts n))
              after_one
            ≡ (ok s, g)
          → Answered u s g
      go next false k e =
          rw (← ok-injective (ap (λ z. z.0) e), ← ap (λ z. z.1) e) (f, p, (t.reads, refl, k))
      go next true k e = next k e

  answer_seen-Answered :
      (q : Policy) (t u g : Tty) (s : TrustState)
      → input.policy ≡ q
      → Ends pane input opts u Watched.seen t
      → answer_seen pane input opts q t ≡ (ok s, g)
      → Answered u s g
  unfolding answer_seen after_moves sleep
  answer_seen-Answered Policy.ask t u g s p seen run =
      rw (← ok-injective (ap (λ z. z.0) run), ← ap (λ z. z.1) run) (seen, p)
  answer_seen-Answered Policy.accept t u g s p (n, at, found) run =
      let (done, z, first, last) =
        after-ok
          (do_moves pane input opts (accept_moves input.harness)
            (record t { slept = t.slept + get_or opts.key_delay_ms 1000 }))
          (after_moves pane input opts) s g run in
      go done z first last
    where
      go :
          (done : Bool) (z : Tty)
          → do_moves pane input opts
              (accept_moves input.harness)
              (record t { slept = t.slept + get_or opts.key_delay_ms 1000 })
            ≡ (ok done, z)
          → after_moves pane input opts done z ≡ (ok s, g)
          → Answered u s g
      go true z first e =
          clear-Answered (attempts_of pane input opts) z u g s (n, found) p (inl refl) e
      go false z first e =
          rw (← ok-injective (ap (λ z. z.0) e), ← ap (λ z. z.1) e)
            (
              (n, found),
              p,
              elim (do_moves-Misses pane input opts (accept_moves input.harness) _ z first) [
                | inl none_allowed ↦ inl none_allowed
                | inr missed ↦ inr (inl missed)
              ],
            )

  after_watch-Answered :
      (w : Watched) (t u g : Tty) (s : TrustState)
      → Ends pane input opts u w t
      → after_watch pane input opts (some w) t ≡ (ok (some s), g)
      → Answered u s g
  unfolding after_watch
  after_watch-Answered Watched.settled t u g s ends run =
      rw (← some-injective (ok-injective (ap (λ z. z.0) run)), ← ap (λ z. z.1) run) ends
  after_watch-Answered Watched.given_up t u g s ends run =
      rw (← some-injective (ok-injective (ap (λ z. z.0) run)), ← ap (λ z. z.1) run) ends
  after_watch-Answered Watched.seen t u g s ends run =
      let (v, z, first, last) =
        after-ok (answer_seen pane input opts input.policy t) (λ v. pure (some v)) (some s) g run in
      let is_s : v ≡ s = some-injective (ok-injective (ap (λ z. z.0) last)) in
      rw (← is_s, ← ap (λ z. z.1) last) (answer_seen-Answered input.policy t u z v refl ends first)

  after_none : (z g : Tty) (s : TrustState) → after_watch pane input opts none z ≢ (ok (some s), g)
  unfolding after_watch
  after_none z g s e = ground (arith, e)

  -- What a call that returns reports is so, from its first read on, each further read a poll later. No
  -- prompt: no read shows it, some read shows another screen than the first, and as many of the last
  -- reads as make a stable screen are alike. Unsettled: no read shows it, and the timeout was slept, or
  -- the screen is blank, never changed, and as many reads as that takes are alike. In neither case was
  -- anything sent, nor where a human is needed, which is where the prompt is first shown by the last read
  -- and is to be asked about. Accepted or stuck: the prompt was found and is to be accepted; and the last
  -- read does not show it, or the last read shows it or does not show what a move of the answer is made
  -- for, or no attempt is allowed.
  pub answer_trust_prompt-Answered :
      (t g : Tty) (s : TrustState)
      → answer_trust_prompt pane input opts t ≡ (ok (some s), g)
      → Answered t s g
  unfolding answer_trust_prompt read
  answer_trust_prompt-Answered t g s run =
      let (w, z, first, last) =
        after-ok (watched_from pane input opts t (record t { reads = t.reads + 1 }))
          (after_watch pane input opts) (some s) g run in
      go w z first last
    where
      go :
          (w : Option Watched) (z : Tty)
          → watched_from pane input opts t (record t { reads = t.reads + 1 }) ≡ (ok w, z)
          → after_watch pane input opts w z ≡ (ok (some s), g)
          → Answered t s g
      go none z first last = absurd (after_none z g s last)
      go (some w) z first last =
          after_watch-Answered w z t g s (watched-Ends pane input opts t z w first) last

  after_watch_ends :
      (v : Watched) (z g : Tty) → after_watch pane input opts (some v) z ≢ (ok none, g)
  unfolding after_watch
  after_watch_ends Watched.settled z g e = ground (arith, e)
  after_watch_ends Watched.given_up z g e = ground (arith, e)
  after_watch_ends Watched.seen z g e =
      let (v, y, first, last) =
        after-ok (answer_seen pane input opts input.policy z) (λ v. pure (some v)) none g e in
      ground (arith, ok-injective (ap (λ z. z.0) last))

  -- Where a poll takes time, the fuel that the timeout gives is enough: the watch of the screen ends by what
  -- it shows or by the timeout, never by the fuel.
  pub answer_trust_prompt_ends :
      (t g : Tty)
      → 0 < poll_of pane input opts
      → answer_trust_prompt pane input opts t ≢ (ok none, g)
  unfolding answer_trust_prompt read
  answer_trust_prompt_ends t g p run =
      let (w, z, first, last) =
        after-ok (watched_from pane input opts t (record t { reads = t.reads + 1 }))
          (after_watch pane input opts) none g run in
      let (v, e) = watched_ends pane input opts t z w p first in
      after_watch_ends v z g (subst (λ o. after_watch pane input opts o z ≡ (ok none, g)) e last)
