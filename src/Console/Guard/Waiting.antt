-- ===== src/Console/Guard/Waiting.antt =====
-- What the wait of `withDraftGuard` in packages/cyberlegion/src/console/prompt-guard.ts rests on where it ends:
-- how long a draft was seen to stand.
use cyberlegion.Prelude.{
  ℕ, zero, suc, ◌+◌, ◌*◌, ◌≤◌, ◌<◌, if◌then◌else◌, ◌==◌, eq_iff, eq_refl, sym, subst, ◌∙◌, String,
  true, false, ltb, ◌≡◌, ◌⊎◌, inl, inr, refl, ap, Bool-cases, arith,
}
use cyberlegion.Exec.{Result, ok, err, draft_in_progress}
use cyberlegion.Console.Prompt.{PromptState}
use cyberlegion.Console.Guard.{
  Keyboard, Box, DraftGuardOptions, sleep, is_draft_of, is_waiting, unchanged, read_state, poll,
  guard_wait,
}

abbrev slept_once : DraftGuardOptions → Keyboard → Keyboard
slept_once opts k = record k { slept = k.slept + opts.poll_ms }

-- The box was read, poll after poll up to the last at this keyboard, to hold the text, the first time at
-- the time given: by the first read of the wait, at `h`, or where the read before it did not show the text.
pub data Stood (b : Box) (opts : DraftGuardOptions) (h : Keyboard) (text : String)
    : ℕ → Keyboard → Type 0 where
  first : is_draft_of (read_state b opts h) text ≡ true → Stood b opts h text (b.now h) h
  changed :
      (k : Keyboard)
      → is_draft_of (read_state b opts k) text ≡ false
      → is_draft_of (read_state b opts (slept_once opts k)) text ≡ true
      → Stood b opts h text (b.now (slept_once opts k)) (slept_once opts k)
  still :
      (at : ℕ) (k : Keyboard)
      → Stood b opts h text at k
      → is_draft_of (read_state b opts (slept_once opts k)) text ≡ true
      → Stood b opts h text at (slept_once opts k)

-- The draft has stood unchanged for the idle time.
abbrev pub IsIdle : Box → DraftGuardOptions → Keyboard → String → Keyboard → Type 0
IsIdle b opts h text k = (at : ℕ) × Stood b opts h text at k × (at + opts.idle_ms ≤ b.now k)

-- A draft that is not the caller's own.
abbrev pub IsForeign : Box → DraftGuardOptions → Keyboard → String → ℕ → Type 0
IsForeign b opts m text rows =
    (read_state b opts m ≡ PromptState.draft text rows) × (opts.own_text text ≡ false)

-- The last read shows such a draft that has not stood for the idle time, and one more poll would be past
-- the longest wait; or, by a clock that stands still, one poll more than the longest wait's milliseconds
-- was made.
abbrev pub IsBusy : Box → DraftGuardOptions → Keyboard → Keyboard → Type 0
IsBusy b opts k m =
    ((text : String) × (rows : ℕ) × (at : ℕ) × IsForeign b opts m text rows
      × Stood b opts k text at m
      × (b.now m < at + opts.idle_ms)
      × (opts.max_wait_ms + b.now k < b.now m + opts.poll_ms))
    ⊎ (m.slept ≡ k.slept + suc opts.max_wait_ms * opts.poll_ms)

-- A draft has stood since the time given.
abbrev pub Standing : Box → DraftGuardOptions → Keyboard → PromptState → ℕ → Keyboard → Type 0
Standing b opts h (PromptState.draft text rows) at k = Stood b opts h text at k
Standing b opts h _ at k = Unit {0}

-- The wait ended with the state `s`, read at the keyboard `m`, or was given up; it typed nothing.
abbrev pub Waited : Box → DraftGuardOptions → Keyboard → Result PromptState × Keyboard → Type 0
Waited b opts k (ok s, m) =
    (m.strokes ≡ k.strokes)
    × (read_state b opts m ≡ s)
    × ((at : ℕ) × Standing b opts k s at m × (is_waiting opts s (b.now m) at ≡ false))
Waited b opts k (err e, m) = (e ≡ draft_in_progress) × (m.strokes ≡ k.strokes) × IsBusy b opts k m

module _ (b : Box) (opts : DraftGuardOptions) where
  is_draft_of-sym :
      (s : PromptState) (t : String) (r : ℕ)
      → unchanged (PromptState.draft t r) s ≡ false
      → is_draft_of s t ≡ false
  is_draft_of-sym PromptState.empty t r n = refl
  is_draft_of-sym PromptState.unknown t r n = refl
  is_draft_of-sym (PromptState.draft text rows) t r n = elim (Bool-cases (text == t)) [
    | inr m ↦ m
    | inl y ↦ absurd (ground (arith, n, (eq_iff t text).1 (sym ((eq_iff text t).0 y))))
  ]

  pub Standing-now :
      (s : PromptState) (k : Keyboard) → read_state b opts k ≡ s → Standing b opts k s (b.now k) k
  Standing-now PromptState.empty k e = tt
  Standing-now PromptState.unknown k e = tt
  Standing-now (PromptState.draft text rows) k e =
      Stood.first (ap (λ s. is_draft_of s text) e ∙ eq_refl text)

  Standing-next :
      (h : Keyboard) (s next : PromptState) (at : ℕ) (k : Keyboard)
      → Standing b opts h s at k
      → read_state b opts k ≡ s
      → read_state b opts (slept_once opts k) ≡ next
      → Standing b opts h next
          (if unchanged next s then at else b.now (slept_once opts k))
          (slept_once opts k)
  Standing-next h s next at k w q e = elim (Bool-cases (unchanged next s)) [
    | inr n ↦ rw n (anew s next q e n)
    | inl y ↦ rw y (kept s next w e y)
  ]
    where
      anew :
          (s next : PromptState)
          → read_state b opts k ≡ s
          → read_state b opts (slept_once opts k) ≡ next
          → unchanged next s ≡ false
          → Standing b opts h next (b.now (slept_once opts k)) (slept_once opts k)
      anew s PromptState.empty q e n = tt
      anew s PromptState.unknown q e n = tt
      anew s (PromptState.draft t r) q e n =
          Stood.changed k (ap (λ x. is_draft_of x t) q ∙ is_draft_of-sym s t r n)
            (ap (λ x. is_draft_of x t) e ∙ eq_refl t)

      kept :
          (s next : PromptState)
          → Standing b opts h s at k
          → read_state b opts (slept_once opts k) ≡ next
          → unchanged next s ≡ true
          → Standing b opts h next at (slept_once opts k)
      kept PromptState.empty next w e y = absurd (ground (arith, y))
      kept PromptState.unknown next w e y = absurd (ground (arith, y))
      kept (PromptState.draft text rows) PromptState.empty w e y = tt
      kept (PromptState.draft text rows) PromptState.unknown w e y = tt
      kept (PromptState.draft text rows) (PromptState.draft t q) w e y =
          let same : text ≡ t = sym ((eq_iff t text).0 y) in
          let v : Stood b opts h t at k = subst (λ x. Stood b opts h x at k) same w in
          Stood.still at k v (ap (λ x. is_draft_of x t) e ∙ eq_refl t)

  waiting-IsBusy :
      (s : PromptState) (at : ℕ) (h k : Keyboard)
      → read_state b opts k ≡ s
      → Standing b opts h s at k
      → is_waiting opts s (b.now k) at ≡ true
      → ltb (opts.max_wait_ms + b.now h) (b.now k + opts.poll_ms) ≡ true
      → IsBusy b opts h k
  waiting-IsBusy PromptState.empty at h k e v w l = absurd (ground (arith, w))
  waiting-IsBusy PromptState.unknown at h k e v w l = absurd (ground (arith, w))
  waiting-IsBusy (PromptState.draft text rows) at h k e v w l =
      inl (text, rows, at, (e, ground (arith, w)), v, ground (arith, w), ground (arith, l))

  pub guard_wait-Waited :
      (fuel : ℕ) (s : PromptState) (at : ℕ) (k h : Keyboard)
      → k.strokes ≡ h.strokes
      → k.slept + fuel * opts.poll_ms ≡ h.slept + suc opts.max_wait_ms * opts.poll_ms
      → read_state b opts k ≡ s
      → Standing b opts h s at k
      → Waited b opts h (guard_wait b opts fuel s (b.now h) at k)
  unfolding guard_wait poll sleep
  guard_wait-Waited zero s at k h e n q v = (refl, e, inr (omega (arith, n)))
  guard_wait-Waited (suc fuel) s at k h e n q v =
      elim (Bool-cases (is_waiting opts s (b.now k) at)) [
        | inr w ↦ rw w (e, q, (at, v, w))
        | inl w ↦ elim (Bool-cases (ltb (opts.max_wait_ms + b.now h) (b.now k + opts.poll_ms))) [
          | inl l ↦ rw (w, l) (refl, e, waiting-IsBusy s at h k q v w l)
          | inr l ↦
              rw (w, l)
                (guard_wait-Waited fuel (read_state b opts (slept_once opts k)) _
                  (slept_once opts k) h e (omega (arith, n)) refl
                  (Standing-next h s _ at k v q refl))
        ]
      ]
