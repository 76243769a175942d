-- ===== src/Decommission/Refusal.antt =====
-- What a `decommission` of packages/cyberlegion/src/decommission.ts that throws leaves.
use cyberlegion.Prelude.{
  String, Bool, true, false, ◌&&◌, not, if◌then◌else◌, Option, none, some, filter, ◌≡◌, inl, inr,
  refl, ap, subst, ◌∙◌, Bool-cases, Option-cases, arith,
}
use cyberlegion.Exec.{
  Exec, Error, Result, err, throw, asks, reads, after, ◌>>=◌, after-err, from_option,
  nothing_to_close,
}
use cyberlegion.Exec.Throws.{Total, Total-bind, Total-pure}
use cyberlegion.Hub.Types.{Hub, AgentRecord, LeaseRef}
use cyberlegion.Hub.SafeId.{is_safe_id}
use cyberlegion.Hub.{
  get_agent, read_safe, remove_agent, remove_agent_data, remove_pane_index, write_safe,
}
use cyberlegion.Hub.Mailbox.{remove_mailbox}
use cyberlegion.Mail.{delete_mailbox}
use cyberlegion.Identity.Presence.{nonempty}
use cyberlegion.Runtime.{drop_index}
use cyberlegion.Decommission.{
  Act, Site, Machine, DecommissionInput, decommission, close_record, close_unit, tear_unit,
  prune_gone, give_back, released, remove_worktree, remove_root, tear_down, reap, on_hub,
  removes_it, is_primary, is_endpoint, dirty_in, primary_root_of, root_in, lease_in, unit_pane,
}

abbrev is_teardown : Act → Bool
is_teardown (Act.tears_down pane) = true
is_teardown _ = false

-- The same hub, and no pane torn down.
pub record Untouched (s t : Site) : Type 0 where
  pub same_hub : t.hub ≡ s.hub
  pub same_panes : filter is_teardown t.acts ≡ filter is_teardown s.acts

Untouched-refl : (s : Site) → Untouched s s
Untouched-refl s = record { same_hub = refl; same_panes = refl }

Untouched-trans : (s t u : Site) → Untouched s t → Untouched t u → Untouched s u
Untouched-trans s t u p q = record {
  same_hub = q.same_hub ∙ p.same_hub;
  same_panes = q.same_panes ∙ p.same_panes;
}

-- A part that never tears down a pane nor writes the hub, and a part that does neither where it throws.
pub record Quiet {A : Type 0} (m : Exec Site A) : Type 0 where
  pub quiet : (s : Site) → Untouched s (m s).1

record Safe {A : Type 0} (m : Exec Site A) : Type 0 where
  safe : (s t : Site) (e : Error) → m s ≡ (err e, t) → Untouched s t

Safe-bind :
    {A B : Type 0} (m : Exec Site A) (f : A → Exec Site B)
    → Quiet m
    → ((a : A) → Safe (f a))
    → Safe (m >>= f)
Safe-bind m f q k = record {
  safe = λ s t e run.
      let first = q.quiet s in
      elim (after-err (m s) f e t run) [
        | inl x ↦ let u : (m s).1 ≡ t = ap (λ p. p.1) x in subst (Untouched s) u first
        | inr (a, u, x, y) ↦
            let w : (m s).1 ≡ u = ap (λ p. p.1) x in
            Untouched-trans s u t (subst (Untouched s) w first) ((k a).safe u t e y)
      ];
}

Total-Safe : {A : Type 0} (m : Exec Site A) → Total m → Safe m
Total-Safe m q = record { safe = λ s t e run. absurd (q.total s t e run) }

Safe-throw : {A : Type 0} (x : Error) → Safe {A = A} (throw x)
Safe-throw x = record {
  safe = λ s t e run. let w : s ≡ t = ap (λ p. p.1) run in subst (Untouched s) w (Untouched-refl s);
}

Safe-if : {A : Type 0} (b : Bool) (m n : Exec Site A) → Safe m → Safe n → Safe (if b then m else n)
Safe-if true m n p q = p
Safe-if false m n p q = q

Quiet-asks : {A : Type 0} (f : Site → Result A) → Quiet (asks f)
Quiet-asks f = record { quiet = λ s. Untouched-refl s }

Quiet-reads : {A : Type 0} (f : Site → A) → Quiet (reads f)
Quiet-reads f = record { quiet = λ s. Untouched-refl s }

pub prune_gone-Quiet :
    (m : Machine) (root primary : Option String) → Quiet (prune_gone m root primary)
unfolding prune_gone
prune_gone-Quiet m none primary = record { quiet = λ s. Untouched-refl s }
prune_gone-Quiet m (some root) none = record { quiet = λ s. Untouched-refl s }
prune_gone-Quiet m (some root) (some primary) = record {
  quiet = λ s. elim (Bool-cases (not (m.exists root) && m.exists primary)) [
    | inl y ↦ rw y (record { same_hub = refl; same_panes = refl })
    | inr n ↦ rw n (Untouched-refl s)
  ];
}

pub give_back-Quiet :
    (m : Machine) (root : Option String) (l : Option LeaseRef) → Quiet (give_back m root l)
unfolding give_back released
give_back-Quiet m none l = record { quiet = λ s. Untouched-refl s }
give_back-Quiet m (some root) none = record { quiet = λ s. Untouched-refl s }
give_back-Quiet m (some root) (some l) = record {
  quiet = λ s. elim (Option-cases (m.release root l)) [
    | inl n ↦ rw n (record { same_hub = refl; same_panes = refl })
    | inr (how, y) ↦ rw y (record { same_hub = refl; same_panes = refl })
  ];
}

pub remove_worktree-Quiet :
    (m : Machine) (b : Bool) (root : Option String) → Quiet (remove_worktree m b root)
unfolding remove_worktree remove_root
remove_worktree-Quiet m false root = record { quiet = λ s. Untouched-refl s }
remove_worktree-Quiet m true none = record { quiet = λ s. Untouched-refl s }
remove_worktree-Quiet m true (some root) = record {
  quiet = λ s. elim (Bool-cases (m.removes root)) [
    | inl y ↦ rw y (record { same_hub = refl; same_panes = refl })
    | inr n ↦ rw n (record { same_hub = refl; same_panes = refl })
  ];
}

tear_down-Total : (m : Machine) (pane : Option String) → Total (tear_down m pane)
unfolding tear_down
tear_down-Total m none = Total-pure tt
tear_down-Total m (some pane) = record { total = λ s t e run. ground (arith, run) }

drop_index-Total : (pane : Option String) → Total (drop_index pane)
unfolding remove_pane_index
drop_index-Total none = Total-pure tt
drop_index-Total (some pane) = record { total = λ s t e run. ground (arith, run) }

write_safe-Total : (id : String) (f : Hub → Hub) → is_safe_id id ≡ true → Total (write_safe id f)
write_safe-Total id f k = record { total = λ s t e run. ground (arith, run, k) }

reap-Total : (id : String) (pane : Option String) → is_safe_id id ≡ true → Total (reap id pane)
unfolding reap remove_agent remove_agent_data delete_mailbox remove_mailbox
reap-Total id pane k =
    let written = λ (f : Hub → Hub). write_safe-Total id f k in
    Total-bind (remove_agent id) _ (written _) λ x.
      Total-bind (drop_index pane) _ (drop_index-Total pane)
        λ y. Total-bind (remove_agent_data id) _ (written _) λ z. written _

on_hub-Total : {A : Type 0} (m : Exec Hub A) → Total m → Total (on_hub m)
on_hub-Total m q = record { total = λ s t e run. q.total s.hub t.hub e (ground (arith, run)) }

tear_unit-Safe :
    (m : Machine) (input : DecommissionInput) (r : AgentRecord) (primary pane : Option String)
    → is_safe_id input.id ≡ true
    → Safe (tear_unit m input r primary pane)
unfolding tear_unit
tear_unit-Safe m input r primary pane k =
    Safe-bind (prune_gone m (nonempty (root_in r.worktree)) (nonempty primary)) _
      (prune_gone-Quiet m _ _)
      λ x.
        Safe-bind (give_back m (nonempty (root_in r.worktree)) (lease_in r.worktree)) _
          (give_back-Quiet m _ _)
          λ lease.
            Safe-bind (remove_worktree m (removes_it m input r) (root_in r.worktree)) _
              (remove_worktree-Quiet m _ _)
              λ y. Total-Safe _ (
                Total-bind (tear_down m (nonempty pane)) _ (tear_down-Total m _) λ z.
                  Total-bind (on_hub (reap input.id (nonempty pane))) _
                    (on_hub-Total _ (reap-Total input.id _ k)) λ w. Total-pure _)

close_unit-Safe :
    (m : Machine) (input : DecommissionInput) (r : AgentRecord) (primary : Option String)
    → is_safe_id input.id ≡ true
    → Safe (close_unit m input r primary)
unfolding close_unit
close_unit-Safe m input r primary k = Safe-if (is_primary m r primary) _ _ (Safe-throw _) (
    Safe-if (removes_it m input r && not input.force && dirty_in m (root_in r.worktree)) _ _
      (Safe-throw _)
      (Safe-bind (reads (unit_pane input r)) _ (Quiet-reads _)
        λ pane. tear_unit-Safe m input r primary pane k))

close_record-Safe :
    (m : Machine) (input : DecommissionInput) (r : AgentRecord)
    → is_safe_id input.id ≡ true
    → Safe (close_record m input r)
unfolding close_record
close_record-Safe m input r k = Safe-if (is_endpoint r.kind) _ _ (Safe-throw _) (
    Safe-bind (asks (λ (s : Site). primary_root_of m r)) _ (Quiet-asks _)
      λ primary. close_unit-Safe m input r primary k)

pub found-is_safe :
    (h : Hub) (id : String) (r : AgentRecord) → get_agent h id ≡ some r → is_safe_id id ≡ true
unfolding get_agent read_safe
found-is_safe h id r e = ground (arith, e)

-- A decommission that throws, on any branch (nothing registered, a service endpoint, the primary
-- checkout, uncommitted changes, a repository that git does not know, a lease that is not given back, a
-- removal that fails), leaves the hub as it was and has torn down no pane.
pub decommission-Untouched :
    (m : Machine) (input : DecommissionInput) (s t : Site) (e : Error)
    → decommission m input s ≡ (err e, t)
    → Untouched s t
unfolding decommission
decommission-Untouched m input s t e run = found (get_agent s.hub input.id) refl run
  where
    found :
        (o : Option AgentRecord)
        → get_agent s.hub input.id ≡ o
        → after (from_option nothing_to_close o, s) (close_record m input) ≡ (err e, t)
        → Untouched s t
    found none q run2 =
        let w : s ≡ t = ap (λ p. p.1) run2 in subst (Untouched s) w (Untouched-refl s)
    found (some r) q run2 =
        (close_record-Safe m input r (found-is_safe s.hub input.id r q)).safe s t e run2
