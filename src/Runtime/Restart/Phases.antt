-- ===== src/Runtime/Restart/Phases.antt =====
-- The phases of `restartUnit` of packages/cyberlegion/src/unit-runtime.ts: ending, opening, binding.
use cyberlegion.Prelude.{
  String, Bool, true, false, if◌then◌else◌, Option, none, some, ◌∷◌, ◌≡◌, ◌⊎◌, inl, inr, refl, sym,
  ap, subst, ◌∙◌, arith,
}
use cyberlegion.Exec.{
  Exec, Result, ok, err, after, after-ok, asks-ok, pure, ◌>>=◌, ◌>>◌, from_option, from_option-ok,
  open_failed, writes, asks, throw,
}
use cyberlegion.Hub.Types.{Hub, AgentRecord, Harness}
use cyberlegion.Hub.{get_agent, put_agent, put_pane_index}
use cyberlegion.Identity.Liveness.{is_stopped}
use cyberlegion.Identity.Presence.Binding.{IsWritten, put_agent-IsWritten}
use cyberlegion.Console.Doorbell.{
  Consoles, Desk, WakeOptions, WakeSpawnInput, wake_spawn, ring_pane,
}
use cyberlegion.Runtime.{RuntimeContext, stopped_record, stop_runtime}
use cyberlegion.Runtime.Stop.{IsStopped, Ended, stop_runtime-Ended, put_agent-mail}
use cyberlegion.Runtime.Rebind.{put_pane_index-get}
use cyberlegion.Runtime.Restart.{
  Opening, asked_floor, Floor, RestartContext, RestartOptions, RestartResult, on_hub, opening_of,
  restarted_record, restart_result, bind_and_ring, end_running, open_session, bind_session,
  ring_session, restart_ended,
}

pub ok_parts :
    {A S : Type 0} (a b : A) (s t : S)
    → ◌≡◌ {A = Result A × S} (ok a, s) (ok b, t)
    → (a ≡ b) × (s ≡ t)
ok_parts a b s t e = (cc, cc)

-- A call on the hub that returns changed the hub only.
unfoldable pub with_hub : Floor → Hub → Floor
with_hub f h = record f { desk = record f.desk { hub = h } }

on_hub-ok :
    {A : Type 0} (x : Result A × Hub) (f g : Floor) (a : A)
    → ◌≡◌ {A = Result A × Floor} (x.0, with_hub f x.1) (ok a, g)
    → (x ≡ (ok a, x.1)) × (g ≡ with_hub f x.1)
unfolding with_hub
on_hub-ok (ok b, h) f g a e = (cc, sym (ok_parts b a _ g e).1)
on_hub-ok (err b, h) f g a e = absurd (ground (arith, e))

-- The unit was stopped already, and nothing changed, or its session was ended, and it is recorded so.
abbrev pub EndedAs : RuntimeContext → Floor → AgentRecord → AgentRecord → Floor → Type 0
EndedAs ctx f r a g =
    ((is_stopped r.status ≡ true) × (a ≡ r) × (g ≡ f))
    ⊎ ((a ≡ stopped_record r)
        × IsStopped f.desk.hub r g.desk.hub
        × Ended ctx f.desk.hub r
        × (g.opened ≡ f.opened)
        × (g.shims ≡ f.shims)
        × (g.desk.typed ≡ f.desk.typed))

pub end_running-EndedAs :
    (ctx : RuntimeContext) (r a : AgentRecord) (p : Option String) (f g : Floor)
    → end_running ctx r f ≡ (ok (a, p), g)
    → EndedAs ctx f r a g
unfolding end_running with_hub
end_running-EndedAs ctx r a p f g e = if_stopped (is_stopped r.status) refl e
  where
    stop_first : Exec Floor (AgentRecord × Option String)
    stop_first = on_hub (stop_runtime ctx r) >>= λ s. pure (s.agent, s.pane)

    if_stopped :
        (b : Bool)
        → is_stopped r.status ≡ b
        → (if b then pure (r, none) else stop_first) f ≡ (ok (a, p), g)
        → EndedAs ctx f r a g
    if_stopped true y run =
        let q = ok_parts (r, none) (a, p) f g run in inl (y, ap (λ x. x.0) (sym q.0), sym q.1)
    if_stopped false n run =
        let (s, k, stopped, last) = after-ok (on_hub (stop_runtime ctx r) f) _ (a, p) g run in
        let (done, same) = on_hub-ok (stop_runtime ctx r f.desk.hub) f k s stopped in
        let q = ok_parts (s.agent, s.pane) (a, p) k g last in
        let w = stop_runtime-Ended ctx r s f.desk.hub (stop_runtime ctx r f.desk.hub).1 done in
        let there : g ≡ with_hub f (stop_runtime ctx r f.desk.hub).1 = sym q.1 ∙ same in
        inr (
          ap (λ x. x.0) (sym q.0) ∙ w.0,
          subst (λ (x : Floor). IsStopped f.desk.hub r x.desk.hub) (sym there) w.1,
          w.2,
          ap (λ (x : Floor). x.opened) there,
          ap (λ (x : Floor). x.shims) there,
          ap (λ (x : Floor). x.desk.typed) there,
        )

wake_spawn-hub :
    (c : Consoles) (o : WakeOptions) (i : WakeSpawnInput) (d : Desk)
    → (wake_spawn c o i d).1.hub ≡ d.hub
unfolding wake_spawn ring_pane
wake_spawn-hub c o i d = ground arith

-- The new session that was opened for the record `a`, and what was written of it.
pub record Opened (c : RestartContext) (o : RestartOptions) (harness : Harness) (a : AgentRecord)
    (f g : Floor) (d : RestartResult) : Type 0 where
  pub pane_of_it : c.opens (opening_of c o a harness) ≡ some d.pane
  pub agent : d.agent ≡ restarted_record c a d.pane
  pub written : IsWritten f.desk.hub a.id d.agent g.desk.hub
  pub same_mail : g.desk.hub.mailboxes ≡ f.desk.hub.mailboxes
  pub same_briefs : g.desk.hub.briefs ≡ f.desk.hub.briefs
  pub one_session : g.opened ≡ opening_of c o a harness ∷ f.opened

unfoldable pub bind_hub : RestartContext → AgentRecord → String → Exec Hub (Unit {0})
bind_hub c a pane = do put_agent (restarted_record c a pane); put_pane_index pane a.id

bind_hub-IsWritten :
    (c : RestartContext) (a : AgentRecord) (pane : String) (h g : Hub)
    → bind_hub c a pane h ≡ (ok tt, g)
    → IsWritten h a.id (restarted_record c a pane) g
      × (g.mailboxes ≡ h.mailboxes)
      × (g.briefs ≡ h.briefs)
unfolding bind_hub put_pane_index
bind_hub-IsWritten c a pane h g e =
    let r = restarted_record c a pane in
    let (u, k, put, rest) = after-ok (put_agent r h) _ tt g e in
    let w = put_agent-IsWritten h k a.id r refl put in
    let m = (put_agent-mail r h).0 in
    let b = (put_agent-mail r h).1 in
    let first : (put_agent r h).1 ≡ k = ap (λ x. x.1) put in
    let last : (put_pane_index pane a.id k).1 ≡ g = ap (λ x. x.1) rest in
    (
      λ j. ap (λ (x : Hub). get_agent x j) (sym last) ∙ put_pane_index-get pane a.id j k ∙ w j,
      ap (λ (x : Hub). x.mailboxes) (sym last) ∙ ap (λ (x : Hub). x.mailboxes) (sym first) ∙ m,
      ap (λ (x : Hub). x.briefs) (sym last) ∙ ap (λ (x : Hub). x.briefs) (sym first) ∙ b,
    )

-- What binding and ringing the pane of a session that was opened leaves.
bind_and_ring-IsWritten :
    (c : RestartContext) (o : RestartOptions) (harness : Harness) (a : AgentRecord)
    (p : Option String) (pane : String) (f g : Floor) (d : RestartResult)
    → bind_and_ring c o harness a p pane f ≡ (ok d, g)
    → (d.pane ≡ pane)
      × (d.agent ≡ restarted_record c a pane)
      × (IsWritten f.desk.hub a.id (restarted_record c a pane) g.desk.hub
          × (g.desk.hub.mailboxes ≡ f.desk.hub.mailboxes)
          × (g.desk.hub.briefs ≡ f.desk.hub.briefs))
      × (g.opened ≡ f.opened)
unfolding bind_and_ring bind_session ring_session bind_hub with_hub
bind_and_ring-IsWritten c o harness a p pane f g d e =
    let (u, f1, bound, rest) = after-ok (bind_session c a pane f) _ d g e in
    let (done, same) = on_hub-ok (bind_hub c a pane f.desk.hub) f f1 u bound in
    let w = bind_hub-IsWritten c a pane f.desk.hub (bind_hub c a pane f.desk.hub).1 done in
    let (x, f2, rung, last) =
      after-ok (ring_session c o a harness pane f1)
        (λ x. pure (restart_result c o harness a p pane x)) d g rest in
    let q = ok_parts (restart_result c o harness a p pane x) d f2 g last in
    let third : f2.desk.hub ≡ f1.desk.hub =
      ap (λ z. z.1.desk.hub) (sym rung) ∙ wake_spawn-hub _ _ _ f1.desk in
    let opened : f2.opened ≡ f1.opened = ap (λ z. z.1.opened) (sym rung) in
    let there : g.desk.hub ≡ (bind_hub c a pane f.desk.hub).1 =
      ap (λ (z : Floor). z.desk.hub) (sym q.1) ∙ third ∙ ap (λ (z : Floor). z.desk.hub) same in
    (
      ap (λ (z : RestartResult). z.pane) (sym q.0),
      ap (λ (z : RestartResult). z.agent) (sym q.0),
      subst
          (λ z.
            IsWritten f.desk.hub a.id (restarted_record c a pane) z
            × (z.mailboxes ≡ f.desk.hub.mailboxes)
            × (z.briefs ≡ f.desk.hub.briefs))
          (sym there) w,
      ap (λ (z : Floor). z.opened) (sym q.1) ∙ opened ∙ ap (λ (z : Floor). z.opened) same,
    )

open_session-asked :
    {A : Type 0} (c : RestartContext) (id : String) (opening : Opening) (k : String → Exec Floor A)
    (f g : Floor) (d : A)
    → (open_session c id opening >>= k) f ≡ (ok d, g)
    → after (from_option open_failed (c.opens opening), asked_floor c id opening f) k ≡ (ok d, g)
unfolding open_session
open_session-asked c id opening k f g d e = go c.has_backend e
  where
    go :
        (b : Bool)
        → ((if b
                then (do
                  writes (asked_floor c id opening)
                  asks (λ x. from_option open_failed (c.opens opening)))
                else throw open_failed)
              >>= k)
            f
          ≡ (ok d, g)
        → after (from_option open_failed (c.opens opening), asked_floor c id opening f) k
          ≡ (ok d, g)
    go true run = run
    go false run = absurd (ground (arith, run))

pub restart_ended-Opened :
    (c : RestartContext) (o : RestartOptions) (harness : Harness) (a : AgentRecord)
    (p : Option String) (f g : Floor) (d : RestartResult)
    → restart_ended c o harness (a, p) f ≡ (ok d, g)
    → Opened c o harness a f g d
unfolding restart_ended open_session
restart_ended-Opened c o harness a p f g d e =
    let opening = opening_of c o a harness in
    let f1 : Floor = asked_floor c a.id opening f in
    let asked = open_session-asked c a.id opening (bind_and_ring c o harness a p) f g d e in
    let (pane, got, run) =
      asks-ok (from_option open_failed (c.opens opening)) f1 (bind_and_ring c o harness a p) d g
        asked in
    let w = bind_and_ring-IsWritten c o harness a p pane f1 g d run in
    record {
      pane_of_it = from_option-ok open_failed _ pane got ∙ ap some (sym w.0);
      agent = w.1 ∙ ap (restarted_record c a) (sym w.0);
      written = subst (λ r. IsWritten f.desk.hub a.id r g.desk.hub) (sym w.1) w.2.0;
      same_mail = w.2.1;
      same_briefs = w.2.2;
      one_session = w.3;
    }
