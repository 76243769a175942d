-- ===== src/Console/Ring.antt =====
-- `ringTurn` of packages/cyberlegion/src/console/ring.ts: typing a message into a peer's pane until the
-- peer takes it as a turn. The pane is given from outside: what its screen shows may depend on
-- everything that was typed and on how often it was read, since time passes between reads. Once the pane
-- is known to exist, typing and reading do not throw; texts are cut by characters.
pub mod Bounds
use cyberlegion.Prelude.{
  ℕ, zero, suc, ◌+◌, String, Bool, true, false, not, ◌||◌, ◌==◌, leb, ltb, get_or, if◌then◌else◌,
  Option, none, some, List, [], ◌∷◌, filter, length,
}
use cyberlegion.Prelude.Text.{trim}
use cyberlegion.Prelude.Chars.{includes, take_chars}
use cyberlegion.Prelude.Rows.{one_space, rows_of}
use cyberlegion.Exec.{Exec, pure, throw, reads, writes, ◌>>=◌, ◌>>◌, pane_gone, turn_not_taken}

pub data Key : Type 0 where
  typed : String → Key
  enter : Key

-- What was submitted so far, the latest first, and how many times the screen was read.
pub record Pane : Type 0 where
  pub keys : List Key
  pub reads : ℕ

-- `is_staged` is cyber-mux's `isStaged`: whether the text sits at the bottom of the screen.
pub record Terminal : Type 0 where
  pub exists : Bool
  pub screen : Pane → String
  pub is_staged : String → String → Bool

pub record RingOptions : Type 0 where
  pub attempts : Option ℕ
  pub require_posted : Bool

abbrev pub default_attempts : ℕ
default_attempts = 10

abbrev needle_len : ℕ
needle_len = 40

-- How many screen rows carry the message.
unfoldable pub copies_on : String → String → ℕ
copies_on screen message =
    let needle = take_chars needle_len (trim (one_space message)) in
    if needle == ""
    then 0
    else length (filter (λ row. includes (one_space row) needle) (rows_of screen))

pub data Turn : Type 0 where
  taken staged lost : Turn

unfoldable pub judge : Terminal → RingOptions → String → ℕ → String → Turn
judge t opts message before screen =
    if t.is_staged screen message
    then if leb (before + 2) (copies_on screen message) then Turn.taken else Turn.staged
    else if ltb before (copies_on screen message) || not opts.require_posted
    then Turn.taken
    else Turn.lost

unfoldable pub read_screen : Terminal → Exec Pane String
read_screen t = do
  screen ← reads t.screen
  writes (λ p. record p { reads = p.reads + 1 })
  pure screen

unfoldable pub submit : Key → Exec Pane (Unit {0})
submit k = writes (λ p. record p { keys = k ∷ p.keys })

-- A staged text is sent by a bare Enter. A text that two reads in a row found lost is typed again. The
-- result is the count of lost reads that the next check goes on from.
unfoldable pub resubmit : String → Turn → ℕ → Exec Pane ℕ
resubmit message Turn.staged lost_reads = do submit Key.enter; pure lost_reads
resubmit message _ lost_reads =
    if leb 2 lost_reads then (do submit (Key.typed message); pure 0) else pure lost_reads

module _ (t : Terminal) (opts : RingOptions) (message : String) (before : ℕ) where
  unfoldable pub check : Exec Pane Turn
  check = do screen ← read_screen t; pure (judge t opts message before screen)

  -- `left` attempts remain, `attempt` were made after the first submit.
  unfoldable pub ring_loop : ℕ → ℕ → Turn → ℕ → Exec Pane ℕ
  ring_loop left attempt Turn.taken lost_reads = pure attempt
  ring_loop zero attempt state lost_reads = throw turn_not_taken
  ring_loop (suc left) attempt state lost_reads = do
    count ← resubmit message state lost_reads
    next ← check
    ring_loop left (suc attempt) next (elim next [ Turn.lost ↦ suc count | _ ↦ 0 ])

-- The result is the number of attempts after the first submit.
unfoldable pub ring_turn : Terminal → String → RingOptions → Exec Pane ℕ
ring_turn t message opts =
    if t.exists
    then (do
      screen ← read_screen t
      let before = copies_on screen message
      submit (Key.typed message)
      state ← check t opts message before
      ring_loop t opts message before (get_or opts.attempts default_attempts) 0 state
          (elim state [ Turn.lost ↦ 1 | _ ↦ 0 ]))
    else throw pane_gone
