-- ===== src/Identity/Register/Refresh.antt =====
-- What registering again does to the record of a session, or of a standing owner.
use cyberlegion.Prelude.{
  String, Bool, true, is_some, ◌⊎◌, inl, inr, eq_iff, Bool-cases, ◌==◌, ◌≢◌, if◌then◌else◌, Option,
  none, some, get_or, or_else, ◌≡◌, refl, sym, ap, subst, ◌∙◌, eq_refl, ◌<>◌,
}
use cyberlegion.Prelude.Chars.{take_chars}
use cyberlegion.Exec.{
  Exec, ok, after-ok, asks-ok, from_option, from_option-ok, no_harness, pure, ◌>>◌,
}
use cyberlegion.Hub.Types.{Hub, AgentRecord, Harness, Kind, Status, Worktree}
use cyberlegion.Hub.{ensure_marker, get_agent, put_agent, put_pane_index, resolve_pane_id}
use cyberlegion.Hub.SafeId.{sanitize_pane}
use cyberlegion.Context.{Context}
use cyberlegion.Identity.Presence.{resolve_self_id}
use cyberlegion.Identity.Presence.Binding.{IsWritten, put_agent-IsWritten}
use cyberlegion.Identity.Register.{
  git_worktree, kept_worktree, filled, registered_worktree, register, registered, existing_of,
  of_existing, RegisterInput, detect_harness, index_pane, storable_pane, StorablePane, HomeInput,
  register_standing, standing_record, standing_id, field_of,
}

-- The pane index is no agent file.
index_pane-get :
    (o : Option StorablePane) (id j : String) (h : Hub)
    → get_agent (index_pane o id h).1 j ≡ get_agent h j
unfolding get_agent put_pane_index
index_pane-get none id j h = refl
index_pane-get (some cur) id j h = refl

marked : Hub → Hub
marked h = record h { marker = true }

-- What `register` does once the harness and the record are known.
saved : Context → String → AgentRecord → Exec Hub AgentRecord
saved ctx id r = do put_agent r; index_pane (storable_pane ctx) id; pure r

saved-IsWritten :
    (ctx : Context) (id : String) (h g : Hub) (w r : AgentRecord)
    → w.id ≡ id
    → saved ctx id w (marked h) ≡ (ok r, g)
    → (r ≡ w) × IsWritten h id r g
unfolding saved marked get_agent
saved-IsWritten ctx id h g w r q e =
    let (u, h2, put, e2) = after-ok (put_agent w (marked h)) _ r g e in
    let (v, h3, idx, e3) = after-ok (index_pane (storable_pane ctx) id h2) (λ u. pure w) r g e2 in
    let done : w ≡ r = cc in
    let last : h3 ≡ g = cc in
    let third : (index_pane (storable_pane ctx) id h2).1 ≡ h3 = ap (λ x. x.1) idx in
    let ww = put_agent-IsWritten (marked h) h2 id w q put in
    (
      sym done,
      λ j.
          ap (λ (x : Hub). get_agent x j) (sym (third ∙ last))
          ∙ index_pane-get (storable_pane ctx) id j h2
          ∙ ww j
          ∙ ap (λ (x : AgentRecord). if id == j then some x else get_agent h j) done,
    )

registering :
    Context → RegisterInput → Option String → Option AgentRecord → Harness → Exec Hub AgentRecord
registering ctx input self existing harness =
    let id = get_or (or_else (of_existing (λ r. r.id) existing) self) (ctx.random 0) in
    saved ctx id (registered ctx input harness id existing)

-- Registering returns the record made from the detected harness and the existing record, saved under
-- its id, and changes no other record.
register-IsWritten :
    (ctx : Context) (input : RegisterInput) (h g : Hub) (r : AgentRecord)
    → register ctx input h ≡ (ok r, g)
    → (harness : Harness) × (detect_harness ctx input.harness ≡ ok (some harness))
      × registering ctx input
          (resolve_self_id ctx h)
          (existing_of h (resolve_self_id ctx h))
          harness
          (marked h)
        ≡ (ok r, g)
unfolding register ensure_marker registering saved marked get_agent resolve_self_id resolve_pane_id
register-IsWritten ctx input h g r e =
    let (detected, d, e1) = asks-ok (detect_harness ctx input.harness) (marked h) _ r g e in
    let (harness, k, e2) = asks-ok (from_option no_harness detected) (marked h) _ r g e1 in
    (harness, d ∙ ap ok (from_option-ok no_harness detected harness k), e2)

-- The checkout of a record that is registered again: one on file is kept, and gets the primary root of the
-- checkout that git sees here only if it had none and is that checkout; where none is on file, it is what
-- git sees here.
abbrev pub KeptCheckout : Context → Option Worktree → Option Worktree → Type 0
KeptCheckout ctx none new = new ≡ git_worktree ctx
KeptCheckout ctx (some w) new =
    (x : Worktree) × (new ≡ some x)
    × (x.root ≡ w.root)
    × (x.branch ≡ w.branch)
    × (x.lease ≡ w.lease)
    × ((x.primary_root ≡ w.primary_root)
        ⊎ ((w.primary_root ≡ none)
            × ((here : Worktree) × (git_worktree ctx ≡ some here)
                × (here.root ≡ w.root)
                × (x.primary_root ≡ here.primary_root))))

filled-KeptCheckout :
    (ctx : Context) (w : Worktree) (g : Option Worktree)
    → w.primary_root ≡ none
    → git_worktree ctx ≡ g
    → KeptCheckout ctx (some w) (some (filled w g))
filled-KeptCheckout ctx w none p q = (w, refl, refl, refl, refl, inl refl)
filled-KeptCheckout ctx w (some here) p q = elim (Bool-cases (here.root == w.root)) [
  | inr n ↦ rw n (w, refl, refl, refl, refl, inl refl)
  | inl y ↦ rw y (at_root y here.primary_root refl)
]
  where
    at_root :
        here.root == w.root ≡ true
        → (o : Option String) → here.primary_root ≡ o
        → KeptCheckout ctx
            (some w)
            (some (elim o [ none ↦ w | some root ↦ record w { primary_root = some root } ]))
    at_root y none e = (w, refl, refl, refl, refl, inl refl)
    at_root y (some root) e = (
      record w { primary_root = some root },
      refl,
      refl,
      refl,
      refl,
      inr (p, (here, q, (eq_iff here.root w.root).0 y, sym e)),
    )

registered_worktree-KeptCheckout :
    (ctx : Context) (o : Option Worktree) → KeptCheckout ctx o (registered_worktree ctx o)
unfolding kept_worktree
registered_worktree-KeptCheckout ctx none = refl
registered_worktree-KeptCheckout ctx (some w) = by_root w.primary_root refl
  where
    by_root :
        (o : Option String)
        → w.primary_root ≡ o
        → KeptCheckout ctx (some w) (some (if is_some o then w else filled w (git_worktree ctx)))
    by_root (some root) e = (w, refl, refl, refl, refl, inl refl)
    by_root none e = filled-KeptCheckout ctx w (git_worktree ctx) e refl

-- A session that registers again, its record on file, keeps its id and its creation time, is active and
-- seen now, and takes a given handle or keeps its own. A checkout on file is kept, and gets the primary
-- root of the checkout here only if it had none and is that one. The record it writes has neither the
-- launch nor the conversation that the old one had, and no other record changes.
pub register-refresh :
    (ctx : Context) (input : RegisterInput) (h g : Hub) (old r : AgentRecord)
    → existing_of h (resolve_self_id ctx h) ≡ some old
    → register ctx input h ≡ (ok r, g)
    → (r.id ≡ old.id)
      × (r.created_at ≡ old.created_at)
      × (r.status ≡ Status.active)
      × KeptCheckout ctx old.worktree r.worktree
      × (r.last_seen ≡ ctx.now)
      × (r.handle ≡ get_or (or_else input.handle (some old.handle)) (take_chars 6 old.id))
      × (r.launch ≡ none)
      × (r.conversation ≡ none)
      × IsWritten h old.id r g
unfolding registering registered
register-refresh ctx input h g old r found e =
    let (harness, d, run) = register-IsWritten ctx input h g r e in
    let w : AgentRecord = registered ctx input harness old.id (some old) in
    let done = saved-IsWritten ctx old.id h g w r refl (
      sym (ap (λ o. registering ctx input (resolve_self_id ctx h) o harness (marked h)) found)
      ∙ run) in
    let q = done.0 in
    (
      ap (λ (x : AgentRecord). x.id) q,
      ap (λ (x : AgentRecord). x.created_at) q,
      ap (λ (x : AgentRecord). x.status) q,
      subst (λ (x : AgentRecord). KeptCheckout ctx old.worktree x.worktree) (sym q)
          (registered_worktree-KeptCheckout ctx old.worktree),
      ap (λ (x : AgentRecord). x.last_seen) q,
      ap (λ (x : AgentRecord). x.handle) q,
      ap (λ (x : AgentRecord). x.launch) q,
      ap (λ (x : AgentRecord). x.conversation) q,
      done.1,
    )

-- Registering a standing owner, where it returns: the record under its id keeps the bound presence and
-- the creation time of the record on file, whatever handle that one had, and no other record changes.
pub register_standing-keeps :
    (ctx : Context) (handle : String) (home : HomeInput) (h g : Hub) (r : AgentRecord)
    → register_standing ctx handle home h ≡ (ok r, g)
    → (r.handle ≡ handle)
      × (r.kind ≡ some Kind.standing)
      × (r.presence ≡ field_of (λ x. x.presence) (get_agent h (standing_id handle)))
      × (r.created_at
          ≡ get_or (of_existing (λ x. x.created_at) (get_agent h (standing_id handle))) ctx.now)
      × IsWritten h (standing_id handle) r g
unfolding register_standing ensure_marker get_agent standing_record
register_standing-keeps ctx handle home h g r e =
    let old = get_agent h (standing_id handle) in
    let w : AgentRecord = standing_record ctx handle home old in
    let (u, h2, put, e2) =
      after-ok (put_agent w (marked h)) (λ u. pure w) r g (unfold marked in e) in
    let done : w ≡ r = cc in
    let last : h2 ≡ g = cc in
    let q = sym done in
    (
      ap (λ (x : AgentRecord). x.handle) q,
      ap (λ (x : AgentRecord). x.kind) q,
      ap (λ (x : AgentRecord). x.presence) q,
      ap (λ (x : AgentRecord). x.created_at) q,
      written
          (subst (λ x. IsWritten (marked h) (standing_id handle) x h2) done
            (put_agent-IsWritten (marked h) h2 (standing_id handle) w refl put))
          last,
    )
  where
    written :
        {h2 : Hub}
        → IsWritten (marked h) (standing_id handle) r h2
        → h2 ≡ g
        → IsWritten h (standing_id handle) r g
    written k q j = ap (λ (x : Hub). get_agent x j) (sym q) ∙ unfold marked in k j

-- Two handles that sanitize alike have one record: registering the second leaves the first's id
-- reading as the second's record.
pub register_standing-collides :
    (ctx : Context) (a b : String) (home : HomeInput) (h g : Hub) (r : AgentRecord)
    → sanitize_pane a ≡ sanitize_pane b
    → a ≢ b
    → register_standing ctx b home h ≡ (ok r, g)
    → (get_agent g (standing_id a) ≡ some r) × (r.handle ≢ a)
register_standing-collides ctx a b home h g r s n e =
    let k = register_standing-keeps ctx b home h g r e in
    let id = standing_id b in
    (
      ap (λ x. get_agent g ("standing-" <> x)) s
          ∙ k.4 id
          ∙ ap (λ (c : Bool). if c then some r else get_agent h id) (eq_refl id),
      λ q. n (sym q ∙ k.0),
    )
