-- ===== src/Console/Trust/Moves.antt =====
-- The moves that answer a trust prompt in packages/cyberlegion/src/console/trust.ts, where they fail.
use cyberlegion.Prelude.{
  ℕ, zero, suc, ◌+◌, String, Bool, true, false, if◌then◌else◌, Option, none, some, List, [], ◌∷◌,
  ◌≡◌, ◌⊎◌, inl, inr, refl, sym, ap, subst, arith,
}
use cyberlegion.Exec.{Result, ok, after-ok, ok-injective, pure}
use cyberlegion.Console.Trust.{
  Tty, Pane, Move, TrustInput, TrustOptions, poll_of, attempts_of, sleep, read, send, test, press,
  do_move, do_moves,
}

module _ (pane : Pane) (input : TrustInput) (opts : TrustOptions) where
  -- The last read before `g`, at `x`, does not show what the move is made for.
  abbrev pub IsMissed : Move → Tty → Type 0
  IsMissed move g =
      (x : Tty) × (until : String → Bool) × (move.until ≡ some until)
      × (g ≡ record x { reads = x.reads + 1 })
      × (until (pane.screen x) ≡ false)

  abbrev pub MissesOne : List Move → Tty → Type 0
  MissesOne [] g = ⊥
  MissesOne (move ∷ moves) g = IsMissed move g ⊎ MissesOne moves g

  result-of :
      {A : Type 0} (a b : A) (t g : Tty)
      → ◌≡◌ {A = Result A × Tty} (ok a, t) (ok b, g)
      → (a ≡ b) × (t ≡ g)
  result-of a b t g e = (ok-injective (ap (λ z. z.0) e), ap (λ z. z.1) e)

  -- A test after a stroke that fails is of the move's condition on a read.
  test-IsMissed :
      (move : Move) (o : Option (String → Bool)) (t g : Tty)
      → move.until ≡ o
      → test pane input opts o true t ≡ (ok false, g)
      → IsMissed move g
  unfolding test read
  test-IsMissed move none t g p e = absurd (ground (arith, e))
  test-IsMissed move (some until) t g p e =
      let q = result-of (until (pane.screen t)) false (record t { reads = t.reads + 1 }) g e in
      (t, until, p, sym q.1, q.0)

  press-IsMissed :
      (move : Move) (n : ℕ) (done : Bool) (t g : Tty)
      → press pane input opts move n done t ≡ (ok false, g)
      → ((n ≡ 0) × (done ≡ false) × (g ≡ t)) ⊎ IsMissed move g
  unfolding press
  press-IsMissed move zero done t g e =
      let q = result-of done false t g e in inl (refl, q.0, sym q.1)
  press-IsMissed move (suc n) true t g e = absurd (ground (arith, e))
  press-IsMissed move (suc n) false t g e =
      let (u, t1, sent, e1) = after-ok (send pane input opts move.stroke t) _ false g e in
      let (v, t2, slept, e2) =
        after-ok (sleep pane input opts (poll_of pane input opts) t1) _ false g e1 in
      let (done, t3, tested, e3) =
        after-ok (test pane input opts move.until true t2) (press pane input opts move n) false g
          e2 in
      elim (press-IsMissed move n done t3 g e3) [
        | inr missed ↦ inr missed
        | inl (z, off, same) ↦ inr (
            test-IsMissed move move.until t2 g refl (
              subst (λ x. test pane input opts move.until true t2 ≡ (ok false, x)) (sym same)
                (subst (λ d. test pane input opts move.until true t2 ≡ (ok d, t3)) off tested)))
      ]

  pub do_moves-Misses :
      (moves : List Move) (t g : Tty)
      → do_moves pane input opts moves t ≡ (ok false, g)
      → (attempts_of pane input opts ≡ 0) ⊎ MissesOne moves g
  unfolding do_moves do_move
  do_moves-Misses [] t g e = absurd (ground (arith, e))
  do_moves-Misses (move ∷ moves) t g e =
      let (done, t1, made, rest) =
        after-ok (do_move pane input opts move t)
          (λ done. if done then do_moves pane input opts moves else pure false) false g e in
      go done t1 made rest (do_moves-Misses moves t1 g)
    where
      go :
          (done : Bool) (t1 : Tty)
          → do_move pane input opts move t ≡ (ok done, t1)
          → (if done then do_moves pane input opts moves else pure false) t1 ≡ (ok false, g)
          → (do_moves pane input opts moves t1 ≡ (ok false, g)
              → (attempts_of pane input opts ≡ 0) ⊎ MissesOne moves g)
          → (attempts_of pane input opts ≡ 0) ⊎ MissesOne (move ∷ moves) g
      go true t1 made rest later = elim (later rest) [ inl z ↦ inl z | inr m ↦ inr (inr m) ]
      go false t1 made rest later =
          let same : t1 ≡ g = (result-of false false t1 g rest).1 in
          let (done, t2, tested, pressed) =
            after-ok (test pane input opts move.until false t)
              (press pane input opts move (attempts_of pane input opts)) false t1 made in
          elim (press-IsMissed move (attempts_of pane input opts) done t2 t1 pressed) [
            | inl (z, off, back) ↦ inl z
            | inr missed ↦ inr (inl (subst (IsMissed move) same missed))
          ]
