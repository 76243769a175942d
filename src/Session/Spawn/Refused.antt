-- ===== src/Session/Spawn/Refused.antt =====
-- What a `spawn` of packages/cyberlegion/src/session.ts that throws leaves of the hub.
use cyberlegion.Prelude.{
  String, Bool, true, false, if◌then◌else◌, Option, none, some, ◌≡◌, inl, inr, refl, sym, ap, ◌∙◌,
  arith,
}
use cyberlegion.Exec.{
  Exec, Error, Result, err, after-err, after-keeps, pure, throw, asks, reads, no_brief,
  cwd_combined, unknown_harness, no_multiplexer, ◌>>=◌,
}
use cyberlegion.Exec.Throws.{Total, Total-bind, Total-pure}
use cyberlegion.Hub.Types.{Hub, Harness}
use cyberlegion.Hub.SafeId.{is_safe_id}
use cyberlegion.Hub.{ensure_marker, put_agent, put_pane_index, write_brief}
use cyberlegion.Identity.Presence.{nonempty, resolve_self_id}
use cyberlegion.Session.Launch.{SpawnBase, resolve_brief, compose_brief}
use cyberlegion.Hub.Throws.{put_agent-Total}
use cyberlegion.Session.Spawn.{
  SpawnContext, SpawnInput, Yard, Placed, MadeWorktree, spawn_id, Act, acts_as, write_shim, open_at,
  place_cwd, start_in_cwd, start_in_worktree, checked_workspace, create_in_workspace, create_by_git,
  create_at, create_leased, make_worktree, session_in, settle_worktree, place_worktree, place,
  record_spawned, spawn_placed, spawn_briefed, spawn_as, spawn, on_hub, spawned_record,
  spawn_result, combines_cwd, primary_of, line_for,
}

-- The call leaves the hub as it is, whether it returns or throws.
pub record Apart {A : Type 0} (m : Exec Yard A) : Type 0 where
  pub apart : (y : Yard) → (m y).1.hub ≡ y.hub

module _ {A : Type 0} where
  Apart-pure : (a : A) → Apart (pure a)
  Apart-pure a = record { apart = λ y. refl }

  Apart-throw : (e : Error) → Apart {A = A} (throw e)
  Apart-throw e = record { apart = λ y. refl }

  Apart-asks : (f : Yard → Result A) → Apart (asks f)
  Apart-asks f = record { apart = λ y. refl }

  Apart-if : (b : Bool) (m n : Exec Yard A) → Apart m → Apart n → Apart (if b then m else n)
  Apart-if true m n p q = p
  Apart-if false m n p q = q

Apart-acts_as : (act : Act) → Apart (acts_as act)
Apart-acts_as act = record { apart = λ y. refl }

Apart-bind :
    {A B : Type 0} (m : Exec Yard A) (f : A → Exec Yard B)
    → Apart m
    → ((a : A) → Apart (f a))
    → Apart (m >>= f)
Apart-bind m f p q = record {
  apart = λ y.
      after-keeps (λ z. z.hub ≡ y.hub) (m y) f (p.apart y) (λ a. (q a).apart (m y).1 ∙ p.apart y);
}

ruleset apart_rules = (Apart-pure, Apart-throw, Apart-asks, Apart-if, Apart-acts_as, Apart-bind)

module _ (c : SpawnContext) (input : SpawnInput) where
  write_shim-Apart : Apart (write_shim c input)
  unfolding write_shim
  write_shim-Apart =
      Apart-if (c.launch_context (spawn_id c input)).has_self _ _ (Apart-acts_as _) (Apart-pure tt)

  open_at-Apart : (cwd line at : String) → Apart (open_at c input cwd line at)
  unfolding open_at
  open_at-Apart cwd line at = search (apart_rules, write_shim-Apart)

  place_cwd-Apart :
      (dir : String) (primary : Option String) (line : String)
      → Apart (place_cwd c input dir primary line)
  unfolding place_cwd start_in_cwd
  place_cwd-Apart dir primary line = search (apart_rules, open_at-Apart)

  create_at-Apart : (primary path line : String) → Apart (create_at c input primary path line)
  unfolding create_at create_in_workspace create_by_git checked_workspace
  create_at-Apart primary path line = search (apart_rules, write_shim-Apart) depth 14

  make_worktree-Apart :
      (primary : String) (base : SpawnBase) (line : String) (path : Option String)
      → Apart (make_worktree c input primary base line path)
  unfolding make_worktree create_leased
  make_worktree-Apart primary base line (some path) = search (apart_rules, create_at-Apart)
  make_worktree-Apart primary base line none = search (apart_rules, create_at-Apart) depth 12

  session_in-Apart :
      (made : MadeWorktree) (line : String) (o : Option String)
      → Apart (session_in c input made line o)
  unfolding session_in
  session_in-Apart made line (some pane) = search apart_rules
  session_in-Apart made line none = search (apart_rules, open_at-Apart, write_shim-Apart) depth 12

  settle_worktree-Apart :
      (primary : String) (base : SpawnBase) (line : String) (made : MadeWorktree)
      → Apart (settle_worktree c input primary base line made)
  unfolding settle_worktree start_in_worktree
  settle_worktree-Apart primary base line made = search (apart_rules, session_in-Apart)

  pub place-Apart :
      (dir primary : Option String) (line : String) → Apart (place c input dir primary line)
  unfolding place place_worktree
  place-Apart (some dir) primary line = search (place_cwd-Apart)
  place-Apart none none line = search apart_rules
  place-Apart none (some primary) line =
      search (apart_rules, make_worktree-Apart, settle_worktree-Apart)

on_hub-Total : {A : Type 0} (m : Exec Hub A) → Total m → Total (on_hub m)
on_hub-Total m q = record { total = λ s t e run. q.total s.hub (m s.hub).1 e (ground (arith, run)) }

-- The call leaves the hub as it is where it throws.
record Spared {A : Type 0} (m : Exec Yard A) : Type 0 where
  spared : (y g : Yard) (e : Error) → m y ≡ (err e, g) → g.hub ≡ y.hub

module _ {A : Type 0} where
  Spared-Apart : (m : Exec Yard A) → Apart m → Spared m
  Spared-Apart m p = record { spared = λ y g e run. ap (λ z. z.1.hub) (sym run) ∙ p.apart y }

  Spared-Total : (m : Exec Yard A) → Total m → Spared m
  Spared-Total m p = record { spared = λ y g e run. absurd (p.total y g e run) }

  Spared-if : (b : Bool) (m n : Exec Yard A) → Spared m → Spared n → Spared (if b then m else n)
  Spared-if true m n p q = p
  Spared-if false m n p q = q

Spared-bind :
    {A B : Type 0} (m : Exec Yard A) (f : A → Exec Yard B)
    → Apart m
    → ((a : A) → Spared (f a))
    → Spared (m >>= f)
Spared-bind m f p q = record {
  spared = λ y g e run. elim (after-err (m y) f e g run) [
    | inl x ↦ ap (λ z. z.1.hub) (sym x) ∙ p.apart y
    | inr (a, t, x, r) ↦ (q a).spared t g e r ∙ ap (λ z. z.1.hub) (sym x) ∙ p.apart y
  ];
}

module _ (c : SpawnContext) (input : SpawnInput) (safe : is_safe_id (spawn_id c input) ≡ true) where
  record_spawned-Total :
      (harness : Harness) (placed : Placed) (self : Option String) (pane brief : String)
      → Total (record_spawned c input (spawned_record c input harness placed self) pane brief)
  unfolding record_spawned put_pane_index write_brief
  record_spawned-Total harness placed self pane brief =
      let text = compose_brief brief input.brief_instructions in
      let writes_text : Total (write_brief (spawn_id c input) text) = record {
        total = λ s t e run. ground (arith, run, safe);
      } in
      Total-bind (put_agent (spawned_record c input harness placed self)) _ (put_agent-Total _ safe)
        λ x.
          Total-bind (put_pane_index pane (spawn_id c input))
            (λ z. write_brief (spawn_id c input) text)
            (record { total = λ s t e run. ground (arith, run) }) λ z. writes_text

  spawn_placed-Total :
      (harness : Harness) (brief : String) (placed : Placed)
      → Total (spawn_placed c input harness brief placed)
  unfolding spawn_placed
  spawn_placed-Total harness brief placed =
      Total-bind (reads (λ y. nonempty (resolve_self_id c.context y.hub))) _
        (record { total = λ s t e run. ground (arith, run) })
        λ self.
          Total-bind
            (on_hub (
              record_spawned c input (spawned_record c input harness placed self) placed.pane
                brief))
            _ (on_hub-Total _ (record_spawned-Total harness placed self placed.pane brief))
            λ x. Total-pure (spawn_result c input harness placed self)

  spawn_briefed-Spared :
      (harness : Harness) (brief : Option String) → Spared (spawn_briefed c input harness brief)
  unfolding spawn_briefed
  spawn_briefed-Spared harness none = Spared-Apart _ (Apart-throw no_brief)
  spawn_briefed-Spared harness (some brief) =
      Spared-if (combines_cwd c input) (throw cwd_combined) _
        (Spared-Apart _ (Apart-throw cwd_combined))
        (Spared-bind (asks (λ y. primary_of c input)) _ (Apart-asks (λ y. primary_of c input))
          λ primary.
            Spared-bind (place c input (nonempty input.cwd) primary (line_for c input harness)) _
              (place-Apart c input (nonempty input.cwd) primary (line_for c input harness))
              λ placed. Spared-Total _ (spawn_placed-Total harness brief placed))

  spawn_as-Spared : (o : Option Harness) → Spared (spawn_as c input o)
  unfolding spawn_as
  spawn_as-Spared none = Spared-Apart _ (Apart-throw unknown_harness)
  spawn_as-Spared (some harness) =
      Spared-bind (asks (λ y. resolve_brief input.brief_file input.task c.stdin c.read_file)) _
        (Apart-asks (λ y. resolve_brief input.brief_file input.task c.stdin c.read_file))
        (spawn_briefed-Spared harness)

  -- A spawn that throws has, of the hub's marker, records, mail, projects, leases, briefs, pane index and
  -- main pane, made the marker and nothing else, where the id drawn is a safe file name: there is no record
  -- of a unit, no brief and no pane's entry that a session could be missing for. The shim in the data
  -- directory of the id drawn is not among these.
  pub spawn-Spared :
      (y g : Yard) (e : Error)
      → spawn c input y ≡ (err e, g)
      → g.hub ≡ record y.hub { marker = true }
  unfolding spawn ensure_marker
  spawn-Spared y g e run = go c.has_backend run
    where
      marked : Yard
      marked = record y { hub = record y.hub { marker = true } }

      go :
          (b : Bool)
          → (if b then spawn_as c input input.harness else throw no_multiplexer) marked ≡ (err e, g)
          → g.hub ≡ record y.hub { marker = true }
      go true t = (spawn_as-Spared input.harness).spared marked g e t
      go false t = ap (λ z. z.1.hub) (sym t)
