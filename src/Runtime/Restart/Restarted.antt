-- ===== src/Runtime/Restart/Restarted.antt =====
-- What a `restartUnit` of packages/cyberlegion/src/unit-runtime.ts that returns has done.
use cyberlegion.Prelude.{
  String, Bool, true, false, ◌==◌, opt_is, opt_is_iff, if◌then◌else◌, Option, none, some, ◌∷◌, ◌≡◌,
  ◌≢◌, ◌⊎◌, inl, inr, refl, sym, ap, subst, ◌∙◌, Bool-cases, arith,
}
use cyberlegion.Exec.{ok, after-ok, asks-ok, throw, ◌>>=◌, no_runtime, own_session, cwd_gone}
use cyberlegion.Hub.Types.{Hub, AgentRecord, Harness}
use cyberlegion.Hub.{get_agent}
use cyberlegion.Identity.Liveness.{is_stopped, kind_is_independent}
use cyberlegion.Identity.Resolve.{resolve_agent}
use cyberlegion.Identity.Presence.{resolve_self_id}
use cyberlegion.Identity.Presence.Binding.{IsWritten}
use cyberlegion.Runtime.{stopped_record}
use cyberlegion.Runtime.Stop.{Ended}
use cyberlegion.Runtime.Restart.{
  Floor, RestartContext, RestartOptions, RestartResult, opening_of, restarted_record, end_running,
  restart_ended, restart_launchable, restart_guarded, restart_unit,
}
use cyberlegion.Runtime.Restart.Phases.{EndedAs, end_running-EndedAs, Opened, restart_ended-Opened}

-- The unit `r` of the floor `f` was given one new session, and kept.
pub record Renewed (c : RestartContext) (o : RestartOptions) (f : Floor) (r : AgentRecord)
    (d : RestartResult) (g : Floor) : Type 0 where
  pub harness : Harness
  pub launchable : r.harness ≡ some harness
  pub cwd_there : c.exists r.cwd ≡ true
  pub ended : (is_stopped r.status ≡ true) ⊎ Ended c.runtime f.desk.hub r
  pub pane_of_it : c.opens (opening_of c o r harness) ≡ some d.pane
  pub agent : d.agent ≡ restarted_record c r d.pane
  pub written : IsWritten f.desk.hub r.id d.agent g.desk.hub
  pub same_mail : g.desk.hub.mailboxes ≡ f.desk.hub.mailboxes
  pub same_briefs : g.desk.hub.briefs ≡ f.desk.hub.briefs
  pub one_session : g.opened ≡ opening_of c o r harness ∷ f.opened

rewritten :
    (f m g : Hub) (id : String) (a b : AgentRecord)
    → IsWritten f id a m
    → IsWritten m id b g
    → IsWritten f id b g
rewritten f m g id a b p q j = elim (Bool-cases (id == j)) [
  | inl y ↦ q j ∙ ap (pick j m) y ∙ sym (ap (pick j f) y)
  | inr n ↦
      q j
      ∙ ap (pick j m) n
      ∙ p j
      ∙ ap (λ (x : Bool). if x then some a else get_agent f j) n
      ∙ sym (ap (pick j f) n)
]
  where
    pick : String → Hub → Bool → Option AgentRecord
    pick j h x = if x then some b else get_agent h j

module _ (c : RestartContext) (o : RestartOptions) (f : Floor) (r : AgentRecord) where
  renewed :
      (harness : Harness) (a : AgentRecord) (m g : Floor) (d : RestartResult)
      → r.harness ≡ some harness
      → c.exists r.cwd ≡ true
      → EndedAs c.runtime f r a m
      → Opened c o harness a m g d
      → Renewed c o f r d g
  renewed harness a m g d h x (inl (y, same, left)) w =
      let v : Opened c o harness r f g d =
        subst (λ z. Opened c o harness r z g d) left
          (subst (λ z. Opened c o harness z m g d) same w) in
      record {
        harness = harness;
        launchable = h;
        cwd_there = x;
        ended = inl y;
        pane_of_it = v.pane_of_it;
        agent = v.agent;
        written = v.written;
        same_mail = v.same_mail;
        same_briefs = v.same_briefs;
        one_session = v.one_session;
      }
  renewed harness a m g d h x (inr (same, stopped, over, opened, shims, typed)) w =
      let v : Opened c o harness (stopped_record r) m g d =
        subst (λ z. Opened c o harness z m g d) same w in
      record {
        harness = harness;
        launchable = h;
        cwd_there = x;
        ended = inr over;
        pane_of_it = v.pane_of_it;
        agent = v.agent;
        written =
            rewritten f.desk.hub m.desk.hub g.desk.hub r.id (stopped_record r) d.agent stopped.0
              v.written;
        same_mail = v.same_mail ∙ stopped.1.0;
        same_briefs = v.same_briefs ∙ stopped.1.1;
        one_session = v.one_session ∙ ap (λ z. opening_of c o r harness ∷ z) opened;
      }

  launchable-Renewed :
      (h : Option Harness) (g : Floor) (d : RestartResult)
      → r.harness ≡ h
      → restart_launchable c o r h f ≡ (ok d, g)
      → Renewed c o f r d g
  unfolding restart_launchable
  launchable-Renewed none g d e run = absurd (ground (arith, run))
  launchable-Renewed (some harness) g d e run = go (c.exists r.cwd) refl run
    where
      go :
          (b : Bool)
          → c.exists r.cwd ≡ b
          → (if b
                then (end_running c.runtime r >>= λ x. restart_ended c o harness x)
                else throw cwd_gone)
              f
            ≡ (ok d, g)
          → Renewed c o f r d g
      go false n t = absurd (ground (arith, t))
      go true y t =
          let ((a, p), m, first, last) =
            after-ok (end_running c.runtime r f) (restart_ended c o harness) d g t in
          renewed harness a m g d e y (end_running-EndedAs c.runtime r a p f m first)
            (restart_ended-Opened c o harness a p m g d last)

  guarded-Renewed :
      (self : Option String) (g : Floor) (d : RestartResult)
      → restart_guarded c o r self f ≡ (ok d, g)
      → (kind_is_independent r.kind ≡ false) × (self ≢ some r.id) × Renewed c o f r d g
  unfolding restart_guarded
  guarded-Renewed self g d run = go (kind_is_independent r.kind) (opt_is self r.id) refl refl run
    where
      go :
          (k s : Bool)
          → kind_is_independent r.kind ≡ k
          → opt_is self r.id ≡ s
          → (if k
                then throw no_runtime
                else if s
                then throw own_session
                else restart_launchable c o r r.harness)
              f
            ≡ (ok d, g)
          → (kind_is_independent r.kind ≡ false) × (self ≢ some r.id) × Renewed c o f r d g
      go true s p q t = absurd (ground (arith, t))
      go false true p q t = absurd (ground (arith, t))
      go false false p q t = (
        p,
        λ e. ground (arith, q, (opt_is_iff self r.id).1 e),
        launchable-Renewed r.harness g d refl t,
      )

-- A restart that returns was of a unit that the reference names, neither a standing owner nor a service
-- nor the caller's own, whose harness can be launched and whose directory exists. What still ran of
-- it was ended as by a stop, unless it was stopped already; one session was opened, in its directory,
-- by its own launch line; its record, alone, is active and bound to that session's pane, its other
-- fields but the last-seen time as they were; and all mail and all briefs are as they were.
pub restart_unit-Renewed :
    (c : RestartContext) (o : RestartOptions) (ref : String) (f g : Floor) (d : RestartResult)
    → restart_unit c o ref f ≡ (ok d, g)
    → (r : AgentRecord) × (resolve_agent f.desk.hub ref ≡ ok r)
      × (kind_is_independent r.kind ≡ false)
      × (resolve_self_id c.runtime.context f.desk.hub ≢ some r.id)
      × Renewed c o f r d g
unfolding restart_unit
restart_unit-Renewed c o ref f g d run =
    let self = resolve_self_id c.runtime.context f.desk.hub in
    let (r, named, rest) =
      asks-ok (resolve_agent f.desk.hub ref) f
        (λ r x. restart_guarded c o r (resolve_self_id c.runtime.context x.desk.hub) x) d g run in
    let w = guarded-Renewed c o f r self g d rest in (r, named, w.0, w.1, w.2)
