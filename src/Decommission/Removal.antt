-- ===== src/Decommission/Removal.antt =====
-- When `decommission` of packages/cyberlegion/src/decommission.ts has a worktree removed.
use cyberlegion.Prelude.{
  String, Bool, true, false, ◌&&◌, not, if◌then◌else◌, Option, none, some, ◌∷◌, ◌≡◌, ◌≢◌, ◌⊎◌, inl,
  inr, refl, subst, In, Bool-cases, Option-cases, arith, eq_iff,
}
use cyberlegion.Exec.{
  Exec, Error, Result, ok, err, pure, throw, asks, reads, after, ◌>>=◌, from_option, from_option-ok,
  nothing_to_close, removal_failed,
}
use cyberlegion.Hub.Types.{Hub, AgentRecord, LeaseRef}
use cyberlegion.Hub.{get_agent}
use cyberlegion.Identity.Presence.{nonempty}
use cyberlegion.Decommission.{
  Act, Site, Machine, DecommissionInput, decommission, close_record, close_unit, tear_unit,
  prune_gone, give_back, released, remove_worktree, remove_root, tear_down, reap, on_hub,
  removes_it, is_primary, is_endpoint, is_dirty, dirty_in, primary_root_of, root_in, lease_in,
  unit_pane, acts_on,
}

module _ (A : String → Type 0) where
  -- A removal that the machine was newly told is one that `A` allows.
  abbrev Allows : Site → Site → Type 0
  Allows s t =
      (root : String)
      → In (Act.removes_worktree root) t.acts
      → In (Act.removes_worktree root) s.acts ⊎ A root

  record Only {B : Type 0} (m : Exec Site B) : Type 0 where
    only : (s : Site) → Allows s (m s).1

  Only-same : {B : Type 0} (m : Exec Site B) → ((s : Site) → (m s).1.acts ≡ s.acts) → Only m
  Only-same m same = record { only = λ s root i. inl (subst (In _) (same s) i) }

  Only-after :
      {B C : Type 0} (s : Site) (x : Result B × Site) (f : B → Exec Site C)
      → Allows s x.1
      → ((b : B) → x.0 ≡ ok b → Only (f b))
      → Allows s (after x f).1
  Only-after s (err e, t) f p k = p
  Only-after s (ok b, t) f p k =
      λ root i. elim ((k b refl).only t root i) [ inl j ↦ p root j | inr a ↦ inr a ]

  Only-bind :
      {B C : Type 0} (m : Exec Site B) (f : B → Exec Site C)
      → Only m
      → ((b : B) → Only (f b))
      → Only (m >>= f)
  Only-bind m f q k = record { only = λ s. Only-after s (m s) f (q.only s) (λ b e. k b) }

  Only-asks :
      {B C : Type 0} (x : Result B) (f : B → Exec Site C)
      → ((b : B) → x ≡ ok b → Only (f b))
      → Only (asks (λ (s : Site). x) >>= f)
  Only-asks x f k = record { only = λ s. Only-after s (x, s) f (λ root i. inl i) k }

  Only-if :
      {B : Type 0} (b : Bool) (m n : Exec Site B)
      → (b ≡ true → Only m)
      → (b ≡ false → Only n)
      → Only (if b then m else n)
  Only-if true m n p q = p refl
  Only-if false m n p q = q refl

  Only-throw : {B : Type 0} (e : Error) → Only {B = B} (throw e)
  Only-throw e = Only-same _ (λ s. refl)

  -- An act of another kind is no removal.
  Only-act :
      (m : Exec Site (Unit {0})) (a : Act)
      → ((root : String) → Act.removes_worktree root ≢ a)
      → ((s : Site) → (m s).1.acts ≡ a ∷ s.acts)
      → Only m
  Only-act m a other one = record {
    only = λ s root i. elim (subst (In (Act.removes_worktree root)) (one s) i) [
      | inl e ↦ absurd (other root e)
      | inr j ↦ inl j
    ];
  }

  prune_gone-Only : (m : Machine) (root primary : Option String) → Only (prune_gone m root primary)
  unfolding prune_gone
  prune_gone-Only m none primary = Only-same _ (λ s. refl)
  prune_gone-Only m (some root) none = Only-same _ (λ s. refl)
  prune_gone-Only m (some root) (some primary) =
      Only-if (not (m.exists root) && m.exists primary) (acts_on Act.prunes_worktrees primary)
        (pure tt) (λ y. Only-act _ (Act.prunes_worktrees primary) (λ x. cc) (λ s. refl))
        (λ n. Only-same _ (λ s. refl))

  released-Only : (o : Option String) → Only (released o)
  unfolding released
  released-Only none = Only-throw _
  released-Only (some how) = Only-same _ (λ s. refl)

  give_back-Only :
      (m : Machine) (root : Option String) (l : Option LeaseRef) → Only (give_back m root l)
  unfolding give_back
  give_back-Only m none l = Only-same _ (λ s. refl)
  give_back-Only m (some root) none = Only-same _ (λ s. refl)
  give_back-Only m (some root) (some l) =
      Only-bind (acts_on Act.releases_lease root) _
        (Only-act _ (Act.releases_lease root) (λ x. cc) (λ s. refl))
        (λ x. released-Only (m.release root l))

  remove_worktree-Only :
      (m : Machine) (b : Bool) (o : Option String)
      → (b ≡ true → (root : String) → o ≡ some root → A root)
      → Only (remove_worktree m b o)
  unfolding remove_worktree remove_root
  remove_worktree-Only m false o k = Only-same _ (λ s. refl)
  remove_worktree-Only m true none k = Only-same _ (λ s. refl)
  remove_worktree-Only m true (some root) k =
      Only-bind (acts_on Act.removes_worktree root) _
        (record {
          only = λ s r i. elim i [ inl e ↦ inr (k refl r (ground (arith, e))) | inr j ↦ inl j ];
        })
        λ x.
          Only-if (m.removes root) (pure tt) (throw removal_failed) (λ y. Only-same _ (λ s. refl))
            (λ n. Only-throw _)

  tear_down-Only : (m : Machine) (pane : Option String) → Only (tear_down m pane)
  unfolding tear_down
  tear_down-Only m none = Only-same _ (λ s. refl)
  tear_down-Only m (some pane) =
      Only-if m.has_backend (acts_on Act.tears_down pane) (pure tt)
        (λ y. Only-act _ (Act.tears_down pane) (λ x. cc) (λ s. refl)) (λ n. Only-same _ (λ s. refl))

  tear_unit-Only :
      (m : Machine) (input : DecommissionInput) (r : AgentRecord) (primary pane : Option String)
      → (removes_it m input r ≡ true → (root : String) → root_in r.worktree ≡ some root → A root)
      → Only (tear_unit m input r primary pane)
  unfolding tear_unit
  tear_unit-Only m input r primary pane k =
      Only-bind (prune_gone m (nonempty (root_in r.worktree)) (nonempty primary)) _
        (prune_gone-Only m _ _)
        λ x.
          Only-bind (give_back m (nonempty (root_in r.worktree)) (lease_in r.worktree)) _
            (give_back-Only m _ _)
            λ lease.
              Only-bind (remove_worktree m (removes_it m input r) (root_in r.worktree)) _
                (remove_worktree-Only m _ _ k)
                λ y. Only-bind (tear_down m (nonempty pane)) _ (tear_down-Only m _) λ z.
                  Only-bind (on_hub (reap input.id (nonempty pane))) _ (Only-same _ (λ s. refl))
                    λ w. Only-same _ (λ s. refl)

-- The unit's own worktree, on disk, not kept and not leased, which is not the primary checkout of its
-- repository and, unless the call is forced, has no changes.
pub record MayRemove (m : Machine) (input : DecommissionInput) (h : Hub) (root : String)
    : Type 0 where
  pub unit : AgentRecord
  pub registered : get_agent h input.id ≡ some unit
  pub own : root_in unit.worktree ≡ some root
  pub exists : m.exists root ≡ true
  pub not_kept : input.keep_worktree ≡ false
  pub not_leased : lease_in unit.worktree ≡ none
  pub primary : String
  pub of_repository : m.primary_root root ≡ some primary
  pub elsewhere : root ≢ "" → primary ≢ "" → m.resolve root ≢ m.resolve primary
  pub clean : (input.force ≡ true) ⊎ (is_dirty m root ≡ false)

module _ (m : Machine) (input : DecommissionInput) (h : Hub) (r : AgentRecord) where
  asked_of :
      (root : String) (primary : Option String)
      → root_in r.worktree ≡ some root
      → m.exists root ≡ true
      → primary_root_of m r ≡ ok primary
      → (p : String) × (m.primary_root root ≡ some p) × (primary ≡ some p)
  unfolding primary_root_of
  asked_of root primary own there p = elim (Option-cases (m.primary_root root)) [
    | inl x ↦ absurd (ground (arith, p, own, there, x))
    | inr (q, x) ↦ (q, x, ground (arith, p, own, there, x))
  ]

  may_remove :
      (primary : Option String)
      → get_agent h input.id ≡ some r
      → primary_root_of m r ≡ ok primary
      → is_primary m r primary ≡ false
      → removes_it m input r && not input.force && dirty_in m (root_in r.worktree) ≡ false
      → removes_it m input r ≡ true
      → (root : String) → root_in r.worktree ≡ some root
      → MayRemove m input h root
  unfolding removes_it is_primary
  may_remove primary found p n d k root own =
      let there : m.exists root ≡ true = ground (arith, k, own) in
      let (q, x, y) = asked_of root primary own there p in
      record {
        unit = r;
        registered = found;
        own = own;
        exists = there;
        not_kept = ground (arith, k);
        not_leased = ground (arith, k);
        primary = q;
        of_repository = x;
        elsewhere = λ a b e. ground (
          arith,
          n,
          own,
          y,
          e,
          a,
          b,
          eq_iff root "",
          eq_iff q "",
          eq_iff (m.resolve root) (m.resolve q),
        );
        clean = elim (Bool-cases input.force) [
          | inl f ↦ inl f
          | inr f ↦ inr (ground (arith, d, k, own, f))
        ];
      }

  close_unit-Only :
      (primary : Option String)
      → get_agent h input.id ≡ some r
      → primary_root_of m r ≡ ok primary
      → Only (MayRemove m input h) (close_unit m input r primary)
  unfolding close_unit
  close_unit-Only primary found p =
      Only-if _ (is_primary m r primary) _ _ (λ y. Only-throw _ _)
        λ n.
          Only-if _ (removes_it m input r && not input.force && dirty_in m (root_in r.worktree)) _ _
            (λ y. Only-throw _ _)
            λ d.
              Only-bind _ (reads (unit_pane input r)) _ (Only-same _ _ (λ s. refl))
                λ pane. tear_unit-Only _ m input r primary pane (may_remove primary found p n d)

  close_record-Only :
      get_agent h input.id ≡ some r → Only (MayRemove m input h) (close_record m input r)
  unfolding close_record
  close_record-Only found =
      Only-if _ (is_endpoint r.kind) _ _ (λ y. Only-throw _ _)
        λ n. Only-asks _ (primary_root_of m r) _ (λ primary p. close_unit-Only primary found p)

-- Whatever a decommission's outcome, it tells git to remove a worktree only where `MayRemove` holds.
pub decommission-MayRemove :
    (m : Machine) (input : DecommissionInput) (s : Site) (root : String)
    → In (Act.removes_worktree root) (decommission m input s).1.acts
    → In (Act.removes_worktree root) s.acts ⊎ MayRemove m input s.hub root
unfolding decommission
decommission-MayRemove m input s =
    Only-after (MayRemove m input s.hub) s
      (from_option nothing_to_close (get_agent s.hub input.id), s) (close_record m input)
      (λ root i. inl i) λ r e. close_record-Only m input s.hub r (from_option-ok _ _ r e)
