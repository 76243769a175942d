-- ===== src/Console/Doorbell.antt =====
-- packages/cyberlegion/src/console/doorbell.ts: ringing the recipient of a message, and the first turn
-- of a spawned or restarted peer. Texts of warnings are left out: a warning is what it is about.
pub mod Woken
mod Tests
use cyberlegion.Prelude.{
  ℕ, String, Bool, true, false, ◌&&◌, ◌==◌, opt_is, or_else, if◌then◌else◌, Option, none, some,
  List, [], ◌∷◌, ◌++◌, map,
}
use cyberlegion.Exec.{Exec, Error, Result, ok, err}
use cyberlegion.Hub.Types.{Hub, AgentRecord, Kind, Harness, StandingHome}
use cyberlegion.Hub.{get_agent, find_pane_by_agent_id, get_main_pane}
use cyberlegion.Identity.Presence.{presence_of, nonempty}
use cyberlegion.Console.Ring.{Key, Terminal, RingOptions, ring_turn}
use cyberlegion.Console.Guard.{Stroke, Keyboard, Box, DraftGuardOptions, with_draft_guard}
use cyberlegion.Console.RingText.{is_ring_text, delivery_doorbell, spawn_doorbell, resume_doorbell}

-- A pane: what its input box holds, and what its screen shows to a ring that starts at a keyboard.
pub record Screen : Type 0 where
  pub box : Box
  pub terminal : Keyboard → Terminal

-- What the multiplexer answers. `has_adapter` says whether `getAdapter` returns.
pub record Consoles : Type 0 where
  pub has_adapter : Bool
  pub screen_of : String → Screen
  -- `none` where the probe throws or does not know
  pub is_focused : String → Option Bool

-- The hub, and what was typed into which pane, the latest first.
pub record Desk : Type 0 where
  pub hub : Hub
  pub typed : List (String × Stroke)

pub data Warning : Type 0 where
  no_adapter trust_blocked : Warning
  ring_failed home_failed turn_failed : Error → Warning

-- `spawnPresence`'s result: a live presence, or a unit that was spawned and whether it was rung.
pub data PresenceSpawn : Type 0 where
  existing : AgentRecord → PresenceSpawn
  spawned : AgentRecord → String → Bool → List Warning → PresenceSpawn

pub record WakeInput : Type 0 where
  pub to_id : String
  pub from_id : String
  pub no_nudge : Bool
  pub spawn_home : Option (AgentRecord → Exec Desk PresenceSpawn)

pub record WakeResult : Type 0 where
  pub rung : Bool
  pub spawned : Option String
  pub pane : Option String
  pub warnings : List Warning

abbrev pub silent : Option String → WakeResult
silent pane = record { rung = false; spawned = none; pane = pane; warnings = [] }

abbrev pub stroke_of : Key → Stroke
stroke_of (Key.typed message) = Stroke.submitted message
stroke_of Key.enter = Stroke.enter

-- `ringTurn` as the guarded send.
unfoldable pub ring_send : (Keyboard → Terminal) → String → RingOptions → Exec Keyboard ℕ
ring_send t message opts k =
    let run = ring_turn (t k) message opts (record { keys = []; reads = 0 }) in
    (run.0, record k { strokes = map stroke_of run.1.keys ++ k.strokes })

pub record NudgeOptions : Type 0 where
  pub attempts : Option ℕ

-- `nudgeOpts`, where given, and the guard's options (`default_options` where not given).
pub record WakeOptions : Type 0 where
  pub nudge : Option NudgeOptions
  pub guard : DraftGuardOptions

abbrev pub guard_of : DraftGuardOptions → Option Harness → DraftGuardOptions
guard_of guard harness = record guard {
  harness = harness;
  own_text = λ text. is_ring_text text none;
}

-- The guarded ring of one pane, and what it typed there.
unfoldable pub guarded_ring :
    Consoles
    → DraftGuardOptions
    → String
    → Option Harness
    → String
    → RingOptions
    → Result ℕ × Keyboard
guarded_ring c guard pane harness message opts =
    let s = c.screen_of pane in
    with_draft_guard s.box (guard_of guard harness) (ring_send s.terminal message opts)
      (record { strokes = []; slept = 0 })

abbrev rung_as : String → Result ℕ → WakeResult
rung_as pane (ok n) = record { rung = true; spawned = none; pane = some pane; warnings = [] }
rung_as pane (err e) = record {
  rung = false;
  spawned = none;
  pane = some pane;
  warnings = Warning.ring_failed e ∷ [];
}

abbrev pub log_strokes : String → Keyboard → Desk → Desk
log_strokes pane k d = record d { typed = map (λ s. (pane, s)) k.strokes ++ d.typed }

-- Nothing is thrown: what the adapter or the ring throws is a warning.
unfoldable pub ring_pane :
    Consoles
    → DraftGuardOptions
    → String
    → Option Harness
    → String
    → RingOptions
    → Desk
    → WakeResult × Desk
ring_pane c guard pane harness message opts d =
    let run = guarded_ring c guard pane harness message opts in
    if c.has_adapter
    then (rung_as pane run.0, log_strokes pane run.1 d)
    else (record (silent (some pane)) { warnings = Warning.no_adapter ∷ [] }, d)

abbrev pub pane_in : Option AgentRecord → Option String
pane_in none = none
pane_in (some r) = elim r.pane [ none ↦ none | some p ↦ some p.id ]

unfoldable pub pane_of : Hub → String → Option String
pane_of h id = or_else (pane_in (get_agent h id)) (find_pane_by_agent_id h id)

-- Whose pane is rung: the pane, its harness, and whether only an attended one is.
pub record Target : Type 0 where
  pub pane : Option String
  pub harness : Option Harness
  pub focus_gated : Bool

abbrev pub peer_target : Hub → AgentRecord → Target
peer_target h r = record { pane = pane_of h r.id; harness = r.harness; focus_gated = false }

abbrev pub main_target : Hub → Target
main_target h = record { pane = get_main_pane h; harness = none; focus_gated = true }

abbrev pub owner_target : Hub → Option AgentRecord → Target
owner_target h none = main_target h
owner_target h (some presence) = peer_target h presence

abbrev pub is_unfocused : Consoles → String → Bool
is_unfocused c pane =
    if c.has_adapter then elim (c.is_focused pane) [ some false ↦ true | _ ↦ false ] else false

abbrev attempts_of : Option NudgeOptions → Option ℕ
attempts_of none = none
attempts_of (some n) = n.attempts

abbrev pub ring_options : WakeOptions → RingOptions
ring_options o = record { attempts = attempts_of o.nudge; require_posted = false }

ring_target : Consoles → WakeOptions → WakeInput → Target → Option String → Desk → WakeResult × Desk
ring_target c o input t none d = (silent none, d)
ring_target c o input t (some pane) d =
    let rung = ring_pane c o.guard pane t.harness delivery_doorbell (ring_options o) d in
    if opt_is (pane_of d.hub input.from_id) pane
    then (silent none, d)
    else if t.focus_gated && is_unfocused c pane
    then (silent (some pane), d)
    else rung

-- `ringResolved`; an empty pane is falsy.
unfoldable pub ring_resolved :
    Consoles → WakeOptions → WakeInput → Target → Desk → WakeResult × Desk
unfolding ring_target
ring_resolved c o input t d = ring_target c o input t (nonempty t.pane) d

abbrev pub is_standing_kind : Option Kind → Bool
is_standing_kind (some Kind.standing) = true
is_standing_kind _ = false

abbrev spawn_warned : List Warning → WakeResult × Desk → WakeResult × Desk
spawn_warned w (r, d) = (record r { warnings = w ++ r.warnings }, d)

-- What follows a spawn into a standing owner's home.
after_spawn : Consoles → WakeOptions → WakeInput → Result PresenceSpawn × Desk → WakeResult × Desk
after_spawn c o input (ok (existing p), d) = ring_resolved c o input (peer_target d.hub p) d
after_spawn c o input (ok (spawned p pane rung warnings), d) =
    (record { rung = rung; spawned = some p.id; pane = some pane; warnings = warnings }, d)
after_spawn c o input (err e, d) =
    spawn_warned (Warning.home_failed e ∷ []) (ring_resolved c o input (main_target d.hub) d)

-- A live presence is rung, else one is spawned where the owner has a home, else the main pane is.
wake_owner :
    Consoles
    → WakeOptions
    → WakeInput
    → AgentRecord
    → Option AgentRecord
    → Option StandingHome
    → Option (AgentRecord → Exec Desk PresenceSpawn)
    → Desk
    → WakeResult × Desk
unfolding after_spawn
wake_owner c o input r none (some home) (some spawn) d = after_spawn c o input (spawn r d)
wake_owner c o input r presence home spawn d =
    ring_resolved c o input (owner_target d.hub presence) d

wake_found : Consoles → WakeOptions → WakeInput → Option AgentRecord → Desk → WakeResult × Desk
unfolding wake_owner
wake_found c o input none d = (silent none, d)
wake_found c o input (some r) d =
    if is_standing_kind r.kind
    then wake_owner c o input r (presence_of d.hub r) r.home input.spawn_home d
    else ring_resolved c o input (peer_target d.hub r) d

-- The result is of the send's wake, which never throws.
unfoldable pub wake_recipient : Consoles → WakeOptions → WakeInput → Desk → WakeResult × Desk
unfolding wake_found
wake_recipient c o input d =
    if input.no_nudge
    then (silent none, d)
    else wake_found c o input (get_agent d.hub input.to_id) d

pub record WakeSpawnInput : Type 0 where
  pub target : String
  pub brief_path : String
  pub no_wake : Bool
  pub resumed : Bool
  pub harness : Option Harness

-- SPAWN_NUDGE_OPTS
abbrev spawn_attempts : ℕ
spawn_attempts = 20

-- The ring counts only once the harness posts it.
abbrev spawn_options : WakeOptions → RingOptions
spawn_options o = record {
  attempts = elim o.nudge [ none ↦ some spawn_attempts | some n ↦ n.attempts ];
  require_posted = true;
}

abbrev pub first_turn : WakeSpawnInput → String
first_turn input =
    if input.resumed then resume_doorbell input.brief_path else spawn_doorbell input.brief_path

unfoldable pub wake_spawn : Consoles → WakeOptions → WakeSpawnInput → Desk → WakeResult × Desk
wake_spawn c o input d =
    if input.no_wake
    then (silent none, d)
    else ring_pane c o.guard input.target input.harness (first_turn input) (spawn_options o) d
