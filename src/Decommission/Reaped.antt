-- ===== src/Decommission/Reaped.antt =====
-- What a `decommission` of packages/cyberlegion/src/decommission.ts that returns has reaped.
use cyberlegion.Prelude.{
  String, true, false, ◌&&◌, not, ◌==◌, Option, none, some, ◌≡◌, inl, inr, refl, sym, ap, subst,
  ◌∙◌, Bool-cases, arith, eq_refl,
}
use cyberlegion.Prelude.Dict
use cyberlegion.Prelude.Dict.{get-remove}
use cyberlegion.Exec.{
  Result, ok, err, after-ok, asks-ok, from_option, from_option-ok, nothing_to_close,
}
use cyberlegion.Hub.Types.{Hub, AgentRecord}
use cyberlegion.Hub.SafeId.{is_safe_id, sanitize_pane}
use cyberlegion.Hub.{
  get_agent, read_brief, read_safe, remove_agent, remove_agent_data, remove_pane_index,
  resolve_pane_id,
}
use cyberlegion.Hub.Mailbox.{remove_mailbox, mailbox_of, no_mail}
use cyberlegion.Mail.{delete_mailbox}
use cyberlegion.Identity.Presence.{nonempty}
use cyberlegion.Runtime.{drop_index}
use cyberlegion.Decommission.{
  Site, Machine, DecommissionInput, DecommissionResult, decommission, close_record, close_unit,
  tear_unit, prune_gone, give_back, remove_worktree, tear_down, reap, on_hub, removes_it,
  is_primary, is_endpoint, dirty_in, primary_root_of, root_in, lease_in, unit_pane,
}
use cyberlegion.Decommission.Refusal.{
  found-is_safe, prune_gone-Quiet, give_back-Quiet, remove_worktree-Quiet,
}

-- Everything kept under the unit's id is gone, its pane points to no unit, and all else is as it was.
pub record IsReaped (h g : Hub) (id : String) (pane : Option String) : Type 0 where
  pub no_record : get_agent g id ≡ none
  pub no_brief : read_brief g id ≡ none
  pub no_mail_left : mailbox_of g id ≡ no_mail
  pub no_pointer : (p : String) → pane ≡ some p → resolve_pane_id g p ≡ none
  pub other_records : (j : String) → id == j ≡ false → get_agent g j ≡ get_agent h j
  pub other_briefs : (j : String) → id == j ≡ false → read_brief g j ≡ read_brief h j
  pub other_mail : (j : String) → id == j ≡ false → mailbox_of g j ≡ mailbox_of h j
  pub same_projects : g.projects ≡ h.projects
  pub same_leases : g.leases ≡ h.leases
  pub same_main_pane : g.main_pane ≡ h.main_pane

abbrev without : Hub → String → Option String → Hub
without h id pane = record (drop_index pane h).1 {
  agents = Dict.remove h.agents id;
  briefs = Dict.remove h.briefs id;
  mailboxes = Dict.remove h.mailboxes id;
}

reap-without :
    (h : Hub) (id : String) (pane : Option String)
    → is_safe_id id ≡ true
    → (reap id pane h).1 ≡ without h id pane
unfolding reap remove_agent remove_agent_data delete_mailbox remove_mailbox remove_pane_index
reap-without h id none k = ground (arith, k)
reap-without h id (some p) k = ground (arith, k)

no_pointer_left : (h : Hub) (id p : String) → resolve_pane_id (without h id (some p)) p ≡ none
unfolding resolve_pane_id remove_pane_index
no_pointer_left h id p =
    let k = sanitize_pane p in ground (arith, get-remove h.panes k k, eq_refl k)

without-IsReaped :
    (h : Hub) (id : String) (pane : Option String) → IsReaped h (without h id pane) id pane
unfolding get_agent read_brief read_safe mailbox_of remove_pane_index
without-IsReaped h id pane = record {
  no_record = ground (arith, get-remove h.agents id id, eq_refl id);
  no_brief = ground (arith, get-remove h.briefs id id, eq_refl id);
  no_mail_left = ground (arith, get-remove h.mailboxes id id, eq_refl id);
  no_pointer = λ p e. rw e (no_pointer_left h id p);
  other_records = λ j n. ground (arith, get-remove h.agents id j, n);
  other_briefs = λ j n. ground (arith, get-remove h.briefs id j, n);
  other_mail = λ j n. ground (arith, get-remove h.mailboxes id j, n);
  same_projects = elim pane as (λ o. (without h id o).projects ≡ h.projects) [
    | none ↦ refl
    | some p ↦ refl
  ];
  same_leases = elim pane as (λ o. (without h id o).leases ≡ h.leases) [
    | none ↦ refl
    | some p ↦ refl
  ];
  same_main_pane = elim pane as (λ o. (without h id o).main_pane ≡ h.main_pane) [
    | none ↦ refl
    | some p ↦ refl
  ];
}

-- What a decommission that returns has done: it was of a registered unit, not of a service endpoint,
-- and it reaped that unit and nothing else.
pub record Closed (m : Machine) (input : DecommissionInput) (s : Site) (d : DecommissionResult)
    (t : Site) : Type 0 where
  pub unit : AgentRecord
  pub registered : get_agent s.hub input.id ≡ some unit
  pub not_endpoint : is_endpoint unit.kind ≡ false
  pub returned : d.agent ≡ unit
  pub reaped : IsReaped s.hub t.hub input.id (nonempty (unit_pane input unit s))

abbrev agent_in : AgentRecord → Result DecommissionResult → AgentRecord
agent_in r (ok d) = d.agent
agent_in r (err e) = r

tear_down-same : (m : Machine) (o : Option String) (s : Site) → (tear_down m o s).1.hub ≡ s.hub
unfolding tear_down
tear_down-same m none s = refl
tear_down-same m (some p) s = ground arith

module _ (m : Machine) (input : DecommissionInput) (r : AgentRecord)
    (k : is_safe_id input.id ≡ true) where
  tear_unit-IsReaped :
      (primary pane : Option String) (s t : Site) (d : DecommissionResult)
      → tear_unit m input r primary pane s ≡ (ok d, t)
      → (d.agent ≡ r) × IsReaped s.hub t.hub input.id (nonempty pane)
  unfolding tear_unit
  tear_unit-IsReaped primary pane s t d run =
      let p1 = prune_gone m (nonempty (root_in r.worktree)) (nonempty primary) in
      let p2 = give_back m (nonempty (root_in r.worktree)) (lease_in r.worktree) in
      let p3 = remove_worktree m (removes_it m input r) (root_in r.worktree) in
      let p4 = tear_down m (nonempty pane) in
      let p5 = on_hub (reap input.id (nonempty pane)) in
      let (a1, s1, e1, r1) = after-ok (p1 s) _ d t run in
      let (a2, s2, e2, r2) = after-ok (p2 s1) _ d t r1 in
      let (a3, s3, e3, r3) = after-ok (p3 s2) _ d t r2 in
      let (a4, s4, e4, r4) = after-ok (p4 s3) _ d t r3 in
      let (a5, s5, e5, r5) = after-ok (p5 s4) _ d t r4 in
      let q1 : s1.hub ≡ s.hub =
        sym (ap (λ x. x.1.hub) e1) ∙ ((prune_gone-Quiet m _ _).quiet s).same_hub in
      let q2 : s2.hub ≡ s1.hub =
        sym (ap (λ x. x.1.hub) e2) ∙ ((give_back-Quiet m _ _).quiet s1).same_hub in
      let q3 : s3.hub ≡ s2.hub =
        sym (ap (λ x. x.1.hub) e3) ∙ ((remove_worktree-Quiet m _ _).quiet s2).same_hub in
      let q4 : s4.hub ≡ s3.hub = sym (ap (λ x. x.1.hub) e4) ∙ tear_down-same m _ s3 in
      let here : s4.hub ≡ s.hub = q4 ∙ q3 ∙ q2 ∙ q1 in
      let last : s5.hub ≡ (reap input.id (nonempty pane) s4.hub).1 = sym (ap (λ x. x.1.hub) e5) in
      let end : t.hub ≡ s5.hub = sym (ap (λ x. x.1.hub) r5) in
      let total : t.hub ≡ without s.hub input.id (nonempty pane) =
        end
        ∙ last
        ∙ ap (λ h. (reap input.id (nonempty pane) h).1) here
        ∙ reap-without s.hub input.id (nonempty pane) k in
      (
        sym (ap (λ x. agent_in r x.0) r5),
        subst (λ h. IsReaped s.hub h input.id (nonempty pane)) (sym total)
            (without-IsReaped s.hub input.id (nonempty pane)),
      )

  close_unit-IsReaped :
      (primary : Option String) (s t : Site) (d : DecommissionResult)
      → close_unit m input r primary s ≡ (ok d, t)
      → (d.agent ≡ r) × IsReaped s.hub t.hub input.id (nonempty (unit_pane input r s))
  unfolding close_unit
  close_unit-IsReaped primary s t d run = elim (Bool-cases (is_primary m r primary)) [
    | inl y ↦ absurd (ground (arith, run, y))
    | inr n ↦
        elim (Bool-cases
          (removes_it m input r && not input.force && dirty_in m (root_in r.worktree))) [
            | inl y ↦ absurd (ground (arith, run, n, y))
            | inr c ↦ tear_unit-IsReaped primary (unit_pane input r s) s t d (rw (n, c) at run)
          ]
  ]

  close_record-IsReaped :
      (s t : Site) (d : DecommissionResult)
      → close_record m input r s ≡ (ok d, t)
      → (is_endpoint r.kind ≡ false)
        × (d.agent ≡ r)
        × IsReaped s.hub t.hub input.id (nonempty (unit_pane input r s))
  unfolding close_record
  close_record-IsReaped s t d run = elim (Bool-cases (is_endpoint r.kind)) [
    | inl y ↦ absurd (ground (arith, run, y))
    | inr n ↦
        let (primary, e, q) =
          asks-ok (primary_root_of m r) s (close_unit m input r) d t (rw n at run) in
        let w = close_unit-IsReaped primary s t d q in (n, w.0, w.1)
  ]

-- A decommission that returns was of a registered unit that is not a service endpoint; that unit's
-- record, brief and mailbox are gone and the pane that it was known by points to no unit, while the
-- records, briefs and mailboxes of all others, the projects, the leases and the main pane are as they
-- were.
pub decommission-Closed :
    (m : Machine) (input : DecommissionInput) (s t : Site) (d : DecommissionResult)
    → decommission m input s ≡ (ok d, t)
    → Closed m input s d t
unfolding decommission
decommission-Closed m input s t d run =
    let (r, e, q) =
      asks-ok (from_option nothing_to_close (get_agent s.hub input.id)) s (close_record m input) d t
        run in
    let found = from_option-ok nothing_to_close (get_agent s.hub input.id) r e in
    let (n, a, w) =
      close_record-IsReaped m input r (found-is_safe s.hub input.id r found) s t d q in
    record { unit = r; registered = found; not_endpoint = n; returned = a; reaped = w }
