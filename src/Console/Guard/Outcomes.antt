-- ===== src/Console/Guard/Outcomes.antt =====
-- What `withDraftGuard` types around the send, whatever the screen shows and however the send ends.
use cyberlegion.Prelude.{ℕ, ◌+◌, ◌<◌, String, true, false, ◌∷◌, ◌≡◌, ◌⊎◌}
use cyberlegion.Exec.{Exec, Result, Error, err, draft_in_progress, draft_many_rows}
use cyberlegion.Console.Prompt.{PromptState}
use cyberlegion.Console.Guard.{Stroke, Keyboard, Box, DraftGuardOptions, is_draft_of, read_state}
use cyberlegion.Console.Guard.Waiting.{IsIdle, IsForeign, IsBusy}

-- The box after the line was cleared.
abbrev pub Cleared : Keyboard → Keyboard → Type 0
Cleared k m = m.strokes ≡ Stroke.kill_line ∷ Stroke.end_of_line ∷ k.strokes

-- An idle draft that spans rows, which a clear of the line would not take whole.
abbrev pub IsLong : Box → DraftGuardOptions → Keyboard → Keyboard → Type 0
IsLong b opts k m =
    (text : String) × (rows : ℕ) × IsForeign b opts m text rows
    × IsIdle b opts k text m
    × (1 < rows)

-- How a guarded send may go, from the keyboard `k`: the result is `r`.
pub data Guarded (b : Box) (opts : DraftGuardOptions) {A : Type 0} (send : Exec Keyboard A)
    (k : Keyboard) : Result A × Keyboard → Type 0 where
  -- refused: nothing was typed and nothing was sent
  refused :
      (e : Error) (m : Keyboard)
      → ((e ≡ draft_in_progress) × IsBusy b opts k m) ⊎ ((e ≡ draft_many_rows) × IsLong b opts k m)
      → m.strokes ≡ k.strokes
      → Guarded b opts send k (err e, m)
  -- sent as it was: the last read shows no draft, and nothing was typed around the send
  plain :
      (m : Keyboard)
      → m.strokes ≡ k.strokes
      → (read_state b opts m ≡ PromptState.empty) ⊎ (read_state b opts m ≡ PromptState.unknown)
      → Guarded b opts send k (send m)
  -- the caller's own earlier text was cleared first
  cleared :
      (m j : Keyboard) (text : String) (rows : ℕ)
      → read_state b opts j ≡ PromptState.draft text rows
      → opts.own_text text ≡ true
      → Cleared k m
      → Guarded b opts send k (send m)
  -- an idle draft that the clear left in place
  stays :
      (m j : Keyboard) (text : String) (rows : ℕ)
      → IsForeign b opts j text rows
      → IsIdle b opts k text j
      → Cleared k m
      → is_draft_of (read_state b opts m) text ≡ true
      → Guarded b opts send k (send m)
  -- an idle draft was cleared first and typed back last, and not submitted
  restored :
      (m j : Keyboard) (text : String) (rows : ℕ) (r : Result A × Keyboard)
      → IsForeign b opts j text rows
      → IsIdle b opts k text j
      → Cleared k m
      → is_draft_of (read_state b opts m) text ≡ false
      → r.0 ≡ (send m).0
      → r.1.strokes ≡ Stroke.typed text ∷ (send m).1.strokes
      → Guarded b opts send k r

module _ (b : Box) (opts : DraftGuardOptions) {A : Type 0} (send : Exec Keyboard A) where
  clear_run : Keyboard → Keyboard
  clear_run j = record {
    strokes = Stroke.kill_line ∷ Stroke.end_of_line ∷ j.strokes;
    slept = j.slept + 150 + 150;
  }
