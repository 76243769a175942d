-- ===== src/Session/Spawn/Spawned.antt =====
-- What a `spawn` of packages/cyberlegion/src/session.ts that returns has done.
use cyberlegion.Prelude.{
  String, Bool, true, false, not, eq_refl, get_or, ◌∷◌, if◌then◌else◌, Option, none, some, ◌≡◌,
  refl, sym, ap, subst, ◌∙◌, arith,
}
use cyberlegion.Prelude.Dict
use cyberlegion.Exec.{
  Exec, ok, after-ok, asks-ok, ok-injective, pure, throw, asks, ◌>>=◌, ◌>>◌, no_multiplexer,
  cwd_combined, cwd_missing, primary_checkout,
}
use cyberlegion.Hub.Types.{Hub, AgentRecord, Harness}
use cyberlegion.Hub.SafeId.{is_safe_id}
use cyberlegion.Hub.{
  ensure_marker, put_agent, put_pane_index, write_brief, read_brief, get_agent, read_safe,
}
use cyberlegion.Hub.Keyed.{put_agent-is_safe}
use cyberlegion.Identity.Presence.{nonempty, resolve_self_id}
use cyberlegion.Identity.Presence.Binding.{IsWritten, put_agent-IsWritten}
use cyberlegion.Runtime.Stop.{put_agent-mail}
use cyberlegion.Runtime.Rebind.{put_pane_index-get}
use cyberlegion.Session.Launch.{SpawnBase, resolve_brief, resolve_spawn_base, compose_brief}
use cyberlegion.Session.Spawn.{
  SpawnContext, SpawnInput, SpawnResult, Yard, Placed, MadeWorktree, spawn_id, is_refused, open_at,
  place_cwd, start_in_cwd, start_in_worktree, placed_in, Act, make_worktree, session_in,
  settle_worktree, place_worktree, path_is_refused, place, record_spawned, spawn_placed,
  spawn_briefed, spawn_as, spawn, on_hub, spawned_record, spawn_result, combines_cwd, primary_of,
  line_for, launch_for,
}
use cyberlegion.Session.Spawn.Refused.{place-Apart}

-- The unit's directory is no refused one, its record and its brief are in the hub, and all other records
-- and all mail are as they were.
pub record Spawned (c : SpawnContext) (input : SpawnInput) (h : Hub) (d : SpawnResult) (g : Hub)
    : Type 0 where
  pub primary : Option String
  pub found : primary_of c input ≡ ok primary
  pub distinct : is_refused c input d.agent.cwd primary ≡ false
  pub harness : Harness
  pub launchable : input.harness ≡ some harness
  pub named : d.agent.id ≡ spawn_id c input
  pub launched : d.agent.launch ≡ some (launch_for c input harness)
  pub brief : String
  pub given : resolve_brief input.brief_file input.task c.stdin c.read_file ≡ ok (some brief)
  pub briefed :
      read_brief g (spawn_id c input) ≡ some (compose_brief brief input.brief_instructions)
  pub recorded : IsWritten h (spawn_id c input) d.agent g
  pub same_mail : g.mailboxes ≡ h.mailboxes

write_brief-read :
    (id text : String) (h : Hub)
    → is_safe_id id ≡ true
    → read_brief (write_brief id text h).1 id ≡ some text
unfolding write_brief read_brief read_safe
write_brief-read id text h k = ground (arith, k, eq_refl id, Dict.get-put h.briefs id id text)

write_brief-get :
    (id text j : String) (h : Hub) → get_agent (write_brief id text h).1 j ≡ get_agent h j
unfolding write_brief get_agent read_safe
write_brief-get id text j h = ground arith

write_brief-mail : (id text : String) (h : Hub) → (write_brief id text h).1.mailboxes ≡ h.mailboxes
unfolding write_brief
write_brief-mail id text h = ground arith

module _ (c : SpawnContext) (input : SpawnInput) where
  record_spawned-IsWritten :
      (r : AgentRecord) (pane brief : String) (h g : Hub)
      → record_spawned c input r pane brief h ≡ (ok tt, g)
      → IsWritten h r.id r g
        × (g.mailboxes ≡ h.mailboxes)
        × (read_brief g r.id ≡ some (compose_brief brief input.brief_instructions))
  unfolding record_spawned put_pane_index
  record_spawned-IsWritten r pane brief h g run =
      let text = compose_brief brief input.brief_instructions in
      let (u, k, put, rest) =
        after-ok (put_agent r h) (λ x. (do put_pane_index pane r.id; write_brief r.id text)) tt g
          run in
      let (v, l, indexed, last) =
        after-ok (put_pane_index pane r.id k) (λ x. write_brief r.id text) tt g rest in
      let safe = put_agent-is_safe r h k put in
      let w = put_agent-IsWritten h k r.id r refl put in
      let m = (put_agent-mail r h).0 in
      let first : (put_agent r h).1 ≡ k = ap (λ x. x.1) put in
      let second : (put_pane_index pane r.id k).1 ≡ l = ap (λ x. x.1) indexed in
      let third : (write_brief r.id text l).1 ≡ g = ap (λ x. x.1) last in
      (
        λ j.
            ap (λ (x : Hub). get_agent x j) (sym third)
            ∙ write_brief-get r.id text j l
            ∙ ap (λ (x : Hub). get_agent x j) (sym second)
            ∙ put_pane_index-get pane r.id j k
            ∙ w j,
        ap (λ (x : Hub). x.mailboxes) (sym third)
            ∙ write_brief-mail r.id text l
            ∙ ap (λ (x : Hub). x.mailboxes) (sym second)
            ∙ ap (λ (x : Hub). x.mailboxes) (sym first)
            ∙ m,
        ap (λ (x : Hub). read_brief x r.id) (sym third) ∙ write_brief-read r.id text l safe,
      )

  start_in_cwd-cwd :
      (root line : String) (y g : Yard) (p : Placed)
      → start_in_cwd c input root line y ≡ (ok p, g)
      → p.cwd ≡ root
  unfolding start_in_cwd
  start_in_cwd-cwd root line y g p run =
      let (pane, z, first, last) =
        after-ok (open_at c input root line (get_or input.at "tab") y)
          (λ pane.
            pure (record { cwd = root; worktree = none; base = none; reused = none; pane = pane }))
          p g run in
      ap (λ (q : Placed). q.cwd) (sym (ok-injective (ap (λ w. w.0) last)))

  start_in_worktree-cwd :
      (primary : String) (base : SpawnBase) (line : String) (made : MadeWorktree) (y g : Yard)
      (p : Placed)
      → start_in_worktree c input primary base line made y ≡ (ok p, g)
      → p.cwd ≡ made.root
  unfolding start_in_worktree
  start_in_worktree-cwd primary base line made y g p run =
      let (pane, z, first, last) =
        after-ok
          (session_in c input made line made.opened
            (record y { acts = Act.stamps_marker made.root ∷ y.acts }))
          (λ pane. pure (placed_in c input primary base made pane)) p g run in
      ap (λ (q : Placed). q.cwd) (sym (ok-injective (ap (λ w. w.0) last)))

  -- A placement that returns is in no refused directory.
  place-allowed :
      (dir primary : Option String) (line : String) (y g : Yard) (p : Placed)
      → place c input dir primary line y ≡ (ok p, g)
      → is_refused c input p.cwd primary ≡ false
  unfolding place place_cwd place_worktree settle_worktree
  place-allowed (some dir) primary line y g p run =
      go (not (c.exists dir)) (is_refused c input (c.resolve dir) primary) refl run
    where
      go :
          (n b : Bool)
          → is_refused c input (c.resolve dir) primary ≡ b
          → (if n
                then throw cwd_missing
                else if b
                then throw primary_checkout
                else start_in_cwd c input (c.resolve dir) line)
              y
            ≡ (ok p, g)
          → is_refused c input p.cwd primary ≡ false
      go true b e t = absurd (ground (arith, t))
      go false true e t = absurd (ground (arith, t))
      go false false e t =
          ap (λ r. is_refused c input r primary) (start_in_cwd-cwd (c.resolve dir) line y g p t) ∙ e
  place-allowed none none line y g p run = absurd (ground (arith, run))
  place-allowed none (some primary) line y g p run =
      go (path_is_refused c input primary (nonempty input.worktree_path)) run
    where
      base : SpawnBase
      base = resolve_spawn_base (c.origin_of primary) input.base

      making : Exec Yard MadeWorktree
      making = make_worktree c input primary base line (nonempty input.worktree_path)

      settled :
          (made : MadeWorktree) (z : Yard) (b : Bool)
          → c.is_primary made.root primary ≡ b
          → (if b then throw primary_checkout else start_in_worktree c input primary base line made)
              z
            ≡ (ok p, g)
          → c.is_primary p.cwd primary ≡ false
      settled made z true e t = absurd (ground (arith, t))
      settled made z false e t =
          ap (λ r. c.is_primary r primary) (start_in_worktree-cwd primary base line made z g p t)
          ∙ e

      go :
          (b : Bool)
          → (if b
                then throw primary_checkout
                else (making >>= settle_worktree c input primary base line))
              y
            ≡ (ok p, g)
          → c.is_primary p.cwd primary ≡ false
      go true t = absurd (ground (arith, t))
      go false t =
          let (made, z, first, last) =
            after-ok (making y) (settle_worktree c input primary base line) p g t in
          settled made z (c.is_primary made.root primary) refl last

  spawn_placed-Spawned :
      (harness : Harness) (brief : String) (primary : Option String) (placed : Placed) (y g : Yard)
      (d : SpawnResult)
      → primary_of c input ≡ ok primary
      → is_refused c input placed.cwd primary ≡ false
      → input.harness ≡ some harness
      → resolve_brief input.brief_file input.task c.stdin c.read_file ≡ ok (some brief)
      → spawn_placed c input harness brief placed y ≡ (ok d, g)
      → Spawned c input y.hub d g.hub
  unfolding spawn_placed
  spawn_placed-Spawned harness brief primary placed y g d found free launchable given run =
      let self = nonempty (resolve_self_id c.context y.hub) in
      let r = spawned_record c input harness placed self in
      let m : Exec Hub (Unit {0}) = record_spawned c input r placed.pane brief in
      let (u, z, first, last) =
        after-ok (on_hub m y) (λ x. pure (spawn_result c input harness placed self)) d g run in
      let done : m y.hub ≡ (ok tt, z.hub) = ground (arith, first) in
      let w = record_spawned-IsWritten r placed.pane brief y.hub z.hub done in
      let same : spawn_result c input harness placed self ≡ d = ok-injective (ap (λ w. w.0) last) in
      let there : z ≡ g = ap (λ w. w.1) last in
      rw (← same, ← there)
        (record {
          primary = primary;
          found = found;
          distinct = free;
          harness = harness;
          launchable = launchable;
          named = refl;
          launched = refl;
          brief = brief;
          given = given;
          briefed = w.2;
          recorded = w.0;
          same_mail = w.1;
        })

  -- The same for a hub that a placement left as it was.
  Spawned-from :
      (h k g : Hub) (d : SpawnResult) → k ≡ h → Spawned c input k d g → Spawned c input h d g
  Spawned-from h k g d e s = subst (λ x. Spawned c input x d g) e s

  spawn_briefed-Spawned :
      (harness : Harness) (brief : Option String) (y g : Yard) (d : SpawnResult)
      → input.harness ≡ some harness
      → resolve_brief input.brief_file input.task c.stdin c.read_file ≡ ok brief
      → spawn_briefed c input harness brief y ≡ (ok d, g)
      → Spawned c input y.hub d g.hub
  unfolding spawn_briefed
  spawn_briefed-Spawned harness none y g d h b run = absurd (ground (arith, run))
  spawn_briefed-Spawned harness (some brief) y g d h b run = go (combines_cwd c input) run
    where
      placing : Option String → Exec Yard Placed
      placing primary = place c input (nonempty input.cwd) primary (line_for c input harness)

      rest : Option String → Exec Yard SpawnResult
      rest primary = placing primary >>= spawn_placed c input harness brief

      go :
          (l : Bool)
          → (if l then throw cwd_combined else (asks (λ y. primary_of c input) >>= rest)) y
            ≡ (ok d, g)
          → Spawned c input y.hub d g.hub
      go true t = absurd (ground (arith, t))
      go false t =
          let (primary, found, more) = asks-ok (primary_of c input) y rest d g t in
          let (placed, z, first, last) =
            after-ok (placing primary y) (spawn_placed c input harness brief) d g more in
          let free =
            place-allowed (nonempty input.cwd) primary (line_for c input harness) y z placed
              first in
          let same : z.hub ≡ y.hub =
            ap (λ w. w.1.hub) (sym first)
            ∙ (place-Apart c input (nonempty input.cwd) primary (line_for c input harness)).apart
                y in
          Spawned-from y.hub z.hub g.hub d same
            (spawn_placed-Spawned harness brief primary placed z g d found free h b last)

  spawn_as-Spawned :
      (o : Option Harness) (y g : Yard) (d : SpawnResult)
      → input.harness ≡ o
      → spawn_as c input o y ≡ (ok d, g)
      → Spawned c input y.hub d g.hub
  unfolding spawn_as
  spawn_as-Spawned none y g d h run = absurd (ground (arith, run))
  spawn_as-Spawned (some harness) y g d h run =
      let (brief, given, rest) =
        asks-ok (resolve_brief input.brief_file input.task c.stdin c.read_file) y
          (spawn_briefed c input harness) d g run in
      spawn_briefed-Spawned harness brief y g d h given rest

  -- A spawn that returns has placed the unit in a directory that is not the primary checkout of the
  -- repository in question; the hub has its record, under the id drawn and with the harness's launch, and
  -- its brief; and all other records and all mail are as they were.
  pub spawn-Spawned :
      (y g : Yard) (d : SpawnResult)
      → spawn c input y ≡ (ok d, g)
      → Spawned c input (record y.hub { marker = true }) d g.hub
  unfolding spawn ensure_marker
  spawn-Spawned y g d run = go c.has_backend run
    where
      marked : Yard
      marked = record y { hub = record y.hub { marker = true } }

      go :
          (b : Bool)
          → (if b then spawn_as c input input.harness else throw no_multiplexer) marked ≡ (ok d, g)
          → Spawned c input (record y.hub { marker = true }) d g.hub
      go true t = spawn_as-Spawned input.harness marked g d refl t
      go false t = absurd (ground (arith, t))
