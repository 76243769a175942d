-- ===== src/Console/Ring/Bounds.antt =====
-- How much `ringTurn` types, whatever the screen shows, and what it has seen when it returns.
use cyberlegion.Prelude.{
  ℕ, zero, suc, ◌+◌, ◌*◌, ◌≤◌, String, true, leb, get_or, List, [], ◌∷◌, length, ◌≡◌, refl, inl,
  inr, Bool-cases, arith,
}
use cyberlegion.Exec.{Result, ok, err, turn_not_taken}
use cyberlegion.Console.Ring.{
  Key, Pane, Terminal, RingOptions, Turn, default_attempts, copies_on, judge, read_screen, submit,
  resubmit, check, ring_loop, ring_turn,
}

-- How often a text was typed, bare Enters left out.
abbrev pub texts : List Key → ℕ
texts [] = 0
texts (Key.typed s ∷ ks) = suc (texts ks)
texts (Key.enter ∷ ks) = texts ks

module _ (t : Terminal) (opts : RingOptions) (message : String) (before : ℕ) where
  -- The screen as last read, after all that was typed, was judged a taken turn.
  abbrev pub Seen : Pane → Type 0
  Seen q = (s : Pane) × (s.keys ≡ q.keys) × (judge t opts message before (t.screen s) ≡ Turn.taken)

  -- `base` texts and `start` keys were typed before the attempts, of which there are `limit`.
  abbrev pub Outcome : ℕ → ℕ → ℕ → Result ℕ × Pane → Type 0
  Outcome base start limit (ok n, q) =
      (n ≤ limit) × (2 * texts q.keys ≤ 2 * base + n) × (length q.keys ≤ start + n) × Seen q
  Outcome base start limit (err e, q) =
      (e ≡ turn_not_taken) × (2 * texts q.keys ≤ 2 * base + limit) × (length q.keys ≤ start + limit)

  record Paced (base start attempt lost : ℕ) (p : Pane) : Type 0 where
    typed_texts : 2 * texts p.keys ≤ 2 * base + attempt
    counted : 2 * texts p.keys + lost ≤ 2 * base + attempt + 1
    typed_keys : length p.keys ≤ start + attempt

  abbrev next_count : Turn → ℕ → ℕ
  next_count next count = elim next [ Turn.lost ↦ suc count | _ ↦ 0 ]

  next_count-Paced :
      (base start attempt count : ℕ) (next : Turn) (q : Pane)
      → 2 * texts q.keys ≤ 2 * base + suc attempt
      → 2 * texts q.keys + count ≤ 2 * base + attempt + 1
      → length q.keys ≤ start + suc attempt
      → Paced base start (suc attempt) (next_count next count) q
  next_count-Paced base start attempt count Turn.lost q a b c = record {
    typed_texts = a;
    counted = omega (arith, b);
    typed_keys = c;
  }
  next_count-Paced base start attempt count Turn.taken q a b c = record {
    typed_texts = a;
    counted = omega (arith, a);
    typed_keys = c;
  }
  next_count-Paced base start attempt count Turn.staged q a b c = record {
    typed_texts = a;
    counted = omega (arith, a);
    typed_keys = c;
  }

  ring_loop-Outcome :
      (base start limit left attempt : ℕ) (state : Turn) (n : ℕ) (p : Pane)
      → attempt + left ≡ limit
      → Paced base start attempt n p
      → (state ≡ Turn.taken → Seen p)
      → Outcome base start limit (ring_loop t opts message before left attempt state n p)
  unfolding ring_loop resubmit submit check read_screen
  ring_loop-Outcome base start limit left attempt Turn.taken n p e w s =
      (omega arith, w.typed_texts, w.typed_keys, s refl)
  ring_loop-Outcome base start limit zero attempt Turn.staged n p e w s =
      (refl, omega (arith, w.typed_texts), omega (arith, w.typed_keys))
  ring_loop-Outcome base start limit zero attempt Turn.lost n p e w s =
      (refl, omega (arith, w.typed_texts), omega (arith, w.typed_keys))
  ring_loop-Outcome base start limit (suc left) attempt Turn.staged n p e w s =
      let shown : Pane = record { keys = Key.enter ∷ p.keys; reads = p.reads } in
      let q : Pane = record { keys = Key.enter ∷ p.keys; reads = p.reads + 1 } in
      let next = judge t opts message before (t.screen shown) in
      ring_loop-Outcome base start limit left (suc attempt) next (next_count next n) q (omega arith)
        (next_count-Paced base start attempt n next q (omega (arith, w.typed_texts)) w.counted
          (omega (arith, w.typed_keys)))
        (λ k. (shown, refl, k))
  ring_loop-Outcome base start limit (suc left) attempt Turn.lost n p e w s =
      elim (Bool-cases (leb 2 n)) [
        | inl k ↦
            let shown : Pane = record { keys = Key.typed message ∷ p.keys; reads = p.reads } in
            let q : Pane = record { keys = Key.typed message ∷ p.keys; reads = p.reads + 1 } in
            let next = judge t opts message before (t.screen shown) in
            let two : 2 ≤ n = ground (arith, k) in
            rw k (
              ring_loop-Outcome base start limit left (suc attempt) next (next_count next 0) q
                (omega arith)
                (next_count-Paced base start attempt 0 next q (omega (arith, two, w.counted))
                  (omega (arith, two, w.counted)) (omega (arith, w.typed_keys)))
                (λ z. (shown, refl, z)))
        | inr k ↦
            let q : Pane = record { keys = p.keys; reads = p.reads + 1 } in
            let next = judge t opts message before (t.screen p) in
            rw k (
              ring_loop-Outcome base start limit left (suc attempt) next (next_count next n) q
                (omega arith)
                (next_count-Paced base start attempt n next q (omega (arith, w.typed_texts))
                  w.counted (omega (arith, w.typed_keys)))
                (λ z. (p, refl, z)))
      ]

-- A ring into a pane that exists, whatever its screen shows: where it returns, the attempts after the
-- first submit are within the limit, the text was typed once and at most once more for every two
-- attempts, at most one key batch was submitted for each attempt, and the screen last read, after all
-- that was submitted, was judged a taken turn. Where it throws, it says that the turn was not taken, and
-- the same holds with the limit for the attempts.
pub ring_turn-Outcome :
    (t : Terminal) (message : String) (opts : RingOptions) (p : Pane)
    → t.exists ≡ true
    → Outcome t opts message
        (copies_on (t.screen p) message)
        (suc (texts p.keys))
        (suc (length p.keys))
        (get_or opts.attempts default_attempts)
        (ring_turn t message opts p)
unfolding ring_turn submit check read_screen
ring_turn-Outcome t message opts p e =
    let before = copies_on (t.screen p) message in
    let shown : Pane = record { keys = Key.typed message ∷ p.keys; reads = p.reads + 1 } in
    let q : Pane = record { keys = Key.typed message ∷ p.keys; reads = p.reads + 1 + 1 } in
    let state = judge t opts message before (t.screen shown) in
    let limit = get_or opts.attempts default_attempts in
    simp e (
      ring_loop-Outcome t opts message before (suc (texts p.keys)) (suc (length p.keys)) limit limit
        0 state (first state) q (omega arith) (first-Paced state q refl refl)
        (λ k. (shown, refl, k)))
  where
    first : Turn → ℕ
    first state = elim state [ Turn.lost ↦ 1 | _ ↦ 0 ]

    first-Paced :
        (state : Turn) (q : Pane)
        → texts q.keys ≡ suc (texts p.keys)
        → length q.keys ≡ suc (length p.keys)
        → Paced t opts message
            (copies_on (t.screen p) message)
            (suc (texts p.keys))
            (suc (length p.keys))
            0
            (first state)
            q
    first-Paced Turn.taken q a b = record {
      typed_texts = omega (arith, a);
      counted = omega (arith, a);
      typed_keys = omega (arith, b);
    }
    first-Paced Turn.staged q a b = record {
      typed_texts = omega (arith, a);
      counted = omega (arith, a);
      typed_keys = omega (arith, b);
    }
    first-Paced Turn.lost q a b = record {
      typed_texts = omega (arith, a);
      counted = omega (arith, a);
      typed_keys = omega (arith, b);
    }
