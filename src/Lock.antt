-- ===== src/Lock.antt =====
-- packages/cyberlegion/src/store/lock.ts: the advisory lock, a directory whose `holder.json` names the
-- process that made it. Processes interleave between their system calls, so a run is a schedule: a list
-- of process ids, each of which makes its next system call. Waiting and giving up after the timeout
-- change nothing and are not told apart.
pub mod Exclusion
pub mod Reclaim
mod Tests
use cyberlegion.Prelude.{
  ℕ, Bool, true, false, nat_eq, if◌then◌else◌, Option, none, some, List, [], ◌∷◌,
}

-- The lock's directory: absent, made but with no holder written yet, or with a holder.
pub data Dir : Type 0 where
  absent unwritten : Dir
  held_by : ℕ → Dir

-- Where a process stands in `acquireLock`: before a `mkdir`, after one, holding the lock, having judged
-- the holder dead, and having renamed the directory away with what it then contained.
pub data Phase : Type 0 where
  idle making holding reclaiming : Phase
  captured : Dir → Phase

-- `probeProcess(pid) !== 'dead'`
abbrev pub Probe : Type 0
Probe = ℕ → Bool

-- `mkdirSync`; on EEXIST a dead holder is to be reclaimed, a live or unknown one is waited for.
unfoldable pub try_make : Probe → Dir → Dir × Phase
try_make alive Dir.absent = (Dir.unwritten, Phase.making)
try_make alive Dir.unwritten = (Dir.unwritten, Phase.idle)
try_make alive (Dir.held_by q) =
    if alive q then (Dir.held_by q, Phase.idle) else (Dir.held_by q, Phase.reclaiming)

-- `writeFileSync` of holder.json, into whatever directory stands at the path; with none there it throws.
unfoldable pub write_holder : ℕ → Dir → Dir × Phase
write_holder p Dir.absent = (Dir.absent, Phase.idle)
write_holder p _ = (Dir.held_by p, Phase.holding)

-- `renameSync(dir, grave)`; with no directory there the race is lost.
unfoldable pub rename_away : Dir → Dir × Phase
rename_away Dir.absent = (Dir.absent, Phase.idle)
rename_away d = (Dir.absent, Phase.captured d)

-- `renameSync(grave, dir)` of a live holder's directory: it fails on one that has a file in it, and the
-- capture is then dropped.
unfoldable pub restore : ℕ → Dir → Dir
restore q (Dir.held_by r) = Dir.held_by r
restore q _ = Dir.held_by q

-- The captured directory is restored when its holder lives, and otherwise removed, which lets the
-- process try again.
unfoldable pub settle_capture : Probe → Dir → Dir → Dir
settle_capture alive (Dir.held_by q) d = if alive q then restore q d else d
settle_capture alive _ d = d

-- The next system call of a process: the directory and its phase after it.
unfoldable pub local : Probe → ℕ → Dir → Phase → Dir × Phase
local alive p d Phase.idle = try_make alive d
local alive p d Phase.making = write_holder p d
local alive p d Phase.holding = (Dir.absent, Phase.idle)
local alive p d Phase.reclaiming = rename_away d
local alive p d (Phase.captured c) = (settle_capture alive c d, Phase.idle)

pub record State : Type 0 where
  pub dir : Dir
  pub phase : ℕ → Phase

unfoldable pub act : Probe → ℕ → State → State
act alive p s = record {
  dir = (local alive p s.dir (s.phase p)).0;
  phase = λ q. if nat_eq q p then (local alive p s.dir (s.phase p)).1 else s.phase q;
}

unfoldable pub run : Probe → List ℕ → State → State
run alive [] s = s
run alive (p ∷ ps) s = run alive ps (act alive p s)

-- Nobody is in the lock's code, and the directory is as given.
abbrev pub start : Dir → State
start d = record { dir = d; phase = λ p. Phase.idle }
