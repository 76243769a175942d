-- ===== src/Console/Trust/Guarded.antt =====
-- What `answerTrustPrompt` of packages/cyberlegion/src/console/trust.ts sends to Claude Code, whose prompt
-- has "No, exit" selected first, so that a bare Enter quits it.
use cyberlegion.Prelude.{
  ℕ, zero, suc, ◌+◌, String, Bool, true, false, if◌then◌else◌, Option, none, some, List, [], ◌∷◌,
  ◌≡◌, ◌⊎◌, inl, inr, refl, sym, ap, subst, ◌∙◌, get_or,
}
use cyberlegion.Exec.{
  Exec, Result, ok, err, after, after-ok, after-keeps, ok-injective, pure, throw, reads, ◌>>=◌,
  ◌>>◌, send_failed,
}
use cyberlegion.Hub.Types.{Harness}
use cyberlegion.Console.Trust.{
  Stroke, Sent, Tty, Pane, Move, TrustInput, TrustOptions, TrustState, Policy, Watched,
  trusts_selected, accept_moves, poll_of, attempts_of, timeout_of, sleep, read, send, watch, test,
  press, do_move, do_moves, clear, after_moves, answer_seen, after_watch, answer_trust_prompt,
  shown,
}

abbrev pub is_enter : Stroke → Bool
is_enter Stroke.enter = true
is_enter _ = false

-- The last read of the screen before now, nothing having been sent or slept since, shows the option that
-- trusts the folder as the selected one.
abbrev pub IsReady : Pane → ℕ → ℕ → List Sent → Type 0
IsReady pane slept reads sent =
    (n : ℕ) × (reads ≡ n + 1)
    × (trusts_selected (pane.screen (record { slept = slept; reads = n; sent = sent })) ≡ true)

-- Every Enter was sent at such a time.
abbrev pub IsGuarded : Pane → List Sent → Type 0
IsGuarded pane [] = Unit
IsGuarded pane (s ∷ before) =
    ((is_enter s.stroke ≡ false) ⊎ IsReady pane s.slept s.reads before) × IsGuarded pane before

module _ (pane : Pane) (input : TrustInput) (opts : TrustOptions) where
  record Keeps {A : Type 0} (m : Exec Tty A) : Type 0 where
    pub keeps : (t : Tty) → IsGuarded pane t.sent → IsGuarded pane (m t).1.sent

  Keeps-bind :
      {A B : Type 0} (m : Exec Tty A) (f : A → Exec Tty B)
      → Keeps m
      → ((a : A) → Keeps (f a))
      → Keeps (m >>= f)
  Keeps-bind m f p q = record {
    keeps = λ t g.
        after-keeps (λ z. IsGuarded pane z.sent) (m t) f (p.keeps t g)
          (λ a. (q a).keeps (m t).1 (p.keeps t g));
  }

  Keeps-pure : {A : Type 0} (a : A) → Keeps (pure a)
  Keeps-pure a = record { keeps = λ t g. g }

  Keeps-sleep : (ms : ℕ) → Keeps (sleep pane input opts ms)
  unfolding sleep
  Keeps-sleep ms = record { keeps = λ t g. g }

  Keeps-read : Keeps (read pane input opts)
  unfolding read
  Keeps-read = record { keeps = λ t g. g }

  Keeps-if :
      {A : Type 0} (b : Bool) (m n : Exec Tty A) → Keeps m → Keeps n → Keeps (if b then m else n)
  Keeps-if true m n p q = p
  Keeps-if false m n p q = q

  ruleset keeping = (Keeps-bind, Keeps-pure, Keeps-sleep, Keeps-read, Keeps-if)

  -- A send keeps it of a stroke that may be sent now.
  send_keeps :
      (stroke : Stroke) (t : Tty)
      → (is_enter stroke ≡ false) ⊎ IsReady pane t.slept t.reads t.sent
      → IsGuarded pane t.sent
      → IsGuarded pane (send pane input opts stroke t).1.sent
  unfolding send
  send_keeps stroke t w g =
      let sent : Tty = record t {
        sent = (record { stroke = stroke; slept = t.slept; reads = t.reads }) ∷ t.sent;
      } in
      (Keeps-if (pane.takes sent) (pure tt) (throw send_failed) (Keeps-pure tt)
          (record { keeps = λ s h. h })).keeps
        sent (w, g)

  Keeps-test :
      (until : Option (String → Bool)) (other : Bool) → Keeps (test pane input opts until other)
  unfolding test
  Keeps-test none other = search keeping
  Keeps-test (some until) other = search keeping

  Keeps-press :
      (move : Move) (n : ℕ) (done : Bool)
      → is_enter move.stroke ≡ false
      → Keeps (press pane input opts move n done)
  unfolding press
  Keeps-press move zero done e = search keeping
  Keeps-press move (suc n) done e = Keeps-if done (pure true) _ (Keeps-pure true) (
      Keeps-bind (send pane input opts move.stroke) _
        (record { keeps = λ t g. send_keeps move.stroke t (inl e) g })
        λ u. Keeps-bind (sleep pane input opts (poll_of pane input opts)) _ (Keeps-sleep _) λ v.
          Keeps-bind (test pane input opts move.until true) _ (Keeps-test move.until true)
            λ d. Keeps-press move n d e)

  press_done : (move : Move) (n : ℕ) (t : Tty) → press pane input opts move n true t ≡ (ok true, t)
  unfolding press
  press_done move zero t = refl
  press_done move (suc n) t = refl

  abbrev enter_move : Move
  enter_move = record { stroke = Stroke.enter; until = none }

  press_enter :
      (n : ℕ) (t : Tty)
      → IsReady pane t.slept t.reads t.sent
      → IsGuarded pane t.sent
      → IsGuarded pane (press pane input opts enter_move n false t).1.sent
  unfolding press sleep test
  press_enter zero t w g = g
  press_enter (suc n) t w g =
      after-keeps (λ z. IsGuarded pane z.sent) (send pane input opts Stroke.enter t)
        (λ u. (do
          sleep pane input opts (poll_of pane input opts)
          done ← test pane input opts none true
          press pane input opts enter_move n done))
        (send_keeps Stroke.enter t (inr w) g)
        (λ u. rw press_done (send_keeps Stroke.enter t (inr w) g))

  abbrev down_move : Move
  down_move = record { stroke = Stroke.down; until = some trusts_selected }

  press-IsReady :
      (n : ℕ) (done : Bool) (t g : Tty)
      → (done ≡ true → IsReady pane t.slept t.reads t.sent)
      → press pane input opts down_move n done t ≡ (ok true, g)
      → IsReady pane g.slept g.reads g.sent
  unfolding press sleep test read
  press-IsReady zero done t g k run =
      rw (← ap (λ z. z.1) run) (k (ok-injective (ap (λ z. z.0) run)))
  press-IsReady (suc n) true t g k run = rw (← ap (λ z. z.1) run) (k refl)
  press-IsReady (suc n) false t g k run =
      let (u, s, first, last) =
        after-ok (send pane input opts Stroke.down t)
          (λ u. (do
            sleep pane input opts (poll_of pane input opts)
            done ← test pane input opts (some trusts_selected) true
            press pane input opts down_move n done))
          true g run in
      press-IsReady n
        (trusts_selected (pane.screen (record s { slept = s.slept + poll_of pane input opts })))
        (record s { slept = s.slept + poll_of pane input opts; reads = s.reads + 1 }) g
        (λ e. (s.reads, refl, e)) last

  after_cases :
      {A B : Type 0} (x : Result A × Tty) (f : A → Exec Tty B)
      → IsGuarded pane x.1.sent
      → ((a : A) (g : Tty) → x ≡ (ok a, g) → IsGuarded pane (f a g).1.sent)
      → IsGuarded pane (after x f).1.sent
  after_cases (ok a, g) f p k = k a g refl
  after_cases (err e, g) f p k = p

  Keeps-down : Keeps (do_move pane input opts down_move)
  unfolding do_move
  Keeps-down =
      Keeps-bind (test pane input opts (some trusts_selected) false) _ (Keeps-test _ false)
        λ d. Keeps-press down_move (attempts_of pane input opts) d refl

  down-IsReady :
      (t g : Tty)
      → do_move pane input opts down_move t ≡ (ok true, g)
      → IsReady pane g.slept g.reads g.sent
  unfolding do_move test read
  down-IsReady t g run =
      press-IsReady (attempts_of pane input opts) (trusts_selected (pane.screen t))
        (record t { reads = t.reads + 1 }) g (λ e. (t.reads, refl, e)) run

  second_move : Bool → Exec Tty Bool
  second_move done =
      if done
      then (do_move pane input opts enter_move >>= λ d. if d then pure true else pure false)
      else pure false

  second_move-IsGuarded :
      (done : Bool) (t : Tty)
      → (done ≡ true → IsReady pane t.slept t.reads t.sent)
      → IsGuarded pane t.sent
      → IsGuarded pane (second_move done t).1.sent
  unfolding second_move do_move test
  second_move-IsGuarded false t w g = g
  second_move-IsGuarded true t w g =
      let p = press_enter (attempts_of pane input opts) t (w refl) g in
      after-keeps (λ z. IsGuarded pane z.sent)
        (press pane input opts enter_move (attempts_of pane input opts) false t)
        (λ d. if d then pure true else pure false) p
        (λ d.
          (Keeps-if d (pure true) (pure false) (Keeps-pure true) (Keeps-pure false)).keeps
            (press pane input opts enter_move (attempts_of pane input opts) false t).1 p)

  claude_moves : Keeps (do_moves pane input opts (accept_moves Harness.claude))
  unfolding do_moves second_move
  claude_moves = record {
    keeps = λ t g.
        let p = Keeps-down.keeps t g in
        after_cases (do_move pane input opts down_move t) second_move p (λ done z run.
          second_move-IsGuarded done z (λ e. down-IsReady t z (run ∙ ap (λ b. (ok b, z)) e))
            (subst (λ w. IsGuarded pane w.1.sent) run p));
  }

  Keeps-watch :
      (fuel waited : ℕ) (first previous : String) (changed : Bool) (same : ℕ)
      → Keeps (watch pane input opts fuel waited first previous changed same)
  unfolding watch
  Keeps-watch zero waited first previous changed same = Keeps-pure none
  Keeps-watch (suc fuel) waited first previous changed same =
      Keeps-if _ (pure (some Watched.given_up)) _ (Keeps-pure (some Watched.given_up)) (
        Keeps-bind (sleep pane input opts (poll_of pane input opts)) _ (Keeps-sleep _) λ u.
          Keeps-bind (read pane input opts) _ Keeps-read λ screen.
            Keeps-if _ (pure (some Watched.seen)) _ (Keeps-pure (some Watched.seen)) (
              Keeps-if _ (pure (some Watched.settled)) _ (Keeps-pure (some Watched.settled)) (
                Keeps-if _ (pure (some Watched.given_up)) _ (Keeps-pure (some Watched.given_up))
                  (Keeps-watch fuel _ first screen _ _))))

  Keeps-clear : (n : ℕ) → Keeps (clear pane input opts n)
  unfolding clear
  Keeps-clear zero = Keeps-pure TrustState.stuck
  Keeps-clear (suc n) = Keeps-bind (read pane input opts) _ Keeps-read λ screen.
      Keeps-if _ (pure TrustState.accepted) _ (Keeps-pure TrustState.accepted) (
        Keeps-bind (sleep pane input opts (poll_of pane input opts)) _ (Keeps-sleep _)
          λ u. Keeps-clear n)

  Keeps-after_moves : (done : Bool) → Keeps (after_moves pane input opts done)
  unfolding after_moves
  Keeps-after_moves false = Keeps-pure TrustState.stuck
  Keeps-after_moves true = Keeps-clear (attempts_of pane input opts)

  Keeps-answer :
      (p : Policy) → input.harness ≡ Harness.claude → Keeps (answer_seen pane input opts p)
  unfolding answer_seen
  Keeps-answer Policy.ask e = Keeps-pure TrustState.needs_human
  Keeps-answer Policy.accept e =
      Keeps-bind (sleep pane input opts (get_or opts.key_delay_ms 1000)) _ (Keeps-sleep _) λ u.
        Keeps-bind (do_moves pane input opts (accept_moves input.harness)) _
          (subst (λ h. Keeps (do_moves pane input opts (accept_moves h))) (sym e) claude_moves)
          Keeps-after_moves

  Keeps-after_watch :
      (w : Option Watched) → input.harness ≡ Harness.claude → Keeps (after_watch pane input opts w)
  unfolding after_watch
  Keeps-after_watch none e = Keeps-pure none
  Keeps-after_watch (some Watched.settled) e = Keeps-pure (some TrustState.no_prompt)
  Keeps-after_watch (some Watched.given_up) e = Keeps-pure (some TrustState.unsettled)
  Keeps-after_watch (some Watched.seen) e =
      Keeps-bind (answer_seen pane input opts input.policy) _ (Keeps-answer input.policy e)
        λ state. Keeps-pure (some state)

-- Whatever the pane shows and takes, and however the call ends, Claude Code is sent an Enter only right
-- after a read of its screen that shows the option that trusts the folder as the selected one.
pub answer_trust_prompt-IsGuarded :
    (pane : Pane) (input : TrustInput) (opts : TrustOptions) (t : Tty)
    → input.harness ≡ Harness.claude
    → IsGuarded pane t.sent
    → IsGuarded pane (answer_trust_prompt pane input opts t).1.sent
unfolding answer_trust_prompt
answer_trust_prompt-IsGuarded pane input opts t e g =
    (Keeps-bind pane input opts (read pane input opts) _ (Keeps-read pane input opts) λ first.
        Keeps-bind pane input opts
          (if shown pane input opts first
            then pure (some Watched.seen)
            else watch pane input opts (suc (timeout_of pane input opts)) 0 first first false 1)
          _
          (Keeps-if pane input opts _ (pure (some Watched.seen)) _
            (Keeps-pure pane input opts (some Watched.seen))
            (Keeps-watch pane input opts (suc (timeout_of pane input opts)) 0 first first false 1))
          λ w. Keeps-after_watch pane input opts w e).keeps
      t g
