-- ===== src/Identity/Resolve/Live.antt =====
-- Resolving a recipient's name in packages/cyberlegion/src/identity.ts, and the agents' liveness.
use cyberlegion.Prelude.{
  String, Bool, true, false, not, ◌&&◌, ◌==◌, is_some, Option, none, some, List, [], ◌∷◌, filter,
  find, In, In-filter, filter-In, find-In, ◌≡◌, refl, sym, ap, ◌∙◌, ◌⊎◌, ◌↔◌, inl, inr, arith,
  eq_iff, Bool-cases, Option-cases, some-injective,
}
use cyberlegion.Exec.{Result, ok, err}
use cyberlegion.Hub.Types.{Hub, AgentRecord}
use cyberlegion.Hub.{get_agent, list_agents}
use cyberlegion.Context.{Context}
use cyberlegion.Identity.Liveness.{is_exited}
use cyberlegion.Identity.Resolve.{
  pick_live, live_by_handle, exited_by_handle, resolve_recipient, select_agent, selected,
  UnitSelector, is_standing, only_one, picked_id, the_only, ◌>>=◌,
}

-- `a` is a record of the hub with that handle that has not exited.
abbrev pub LiveAs : Hub → String → AgentRecord → Type 0
LiveAs h handle a = In a (list_agents h) × (a.handle ≡ handle) × (is_exited a.status ≡ false)

-- `a` stands for the name: a standing record, or the only live one of that handle.
abbrev pub StandsAlone : Hub → String → AgentRecord → Type 0
StandsAlone h handle a = (is_standing a ≡ true) ⊎ ((b : AgentRecord) → LiveAs h handle b → b ≡ a)

ok-injective : {A : Type 0} {a b : A} → ok a ≡ ok b → a ≡ b
ok-injective e = cc

-- `only_one` answers with the only member.
sole :
    (xs : List AgentRecord) (a : AgentRecord)
    → only_one xs ≡ ok (some a)
    → In a xs × ((b : AgentRecord) → In b xs → b ≡ a)
sole [] a e = absurd (ground arith)
sole (x ∷ []) a e =
    let q : x ≡ a = some-injective (ok-injective e) in
    (inl (sym q), λ b m. elim m [ inl p ↦ p ∙ q | inr z ↦ absurd z ])
sole (x ∷ y ∷ rest) a e = absurd (ground arith)

only_member :
    (xs : List AgentRecord) (a : AgentRecord)
    → pick_live xs ≡ ok (some a)
    → In a xs × ((is_standing a ≡ true) ⊎ ((b : AgentRecord) → In b xs → b ≡ a))
unfolding pick_live
only_member xs a e = elim (Option-cases (find is_standing xs)) [
  | inl n ↦ let r = sole xs a (rw n at e) in (r.0, inr r.1)
  | inr (r, found) ↦
      let q : r ≡ a = some-injective (ok-injective (rw found at e)) in
      let f = find-In is_standing xs a (found ∙ ap some q) in (f.0, inl f.1)
]

not-eq-true : (b : Bool) → not b ≡ true → b ≡ false
not-eq-true b e = ground arith

-- The live list holds exactly the live records of the handle.
live_member :
    (h : Hub) (handle : String) (a : AgentRecord)
    → In a (live_by_handle (list_agents h) handle) ↔ LiveAs h handle a
unfolding live_by_handle
live_member h handle a =
    let named : AgentRecord → Bool = λ x. x.handle == handle in
    let living : AgentRecord → Bool = λ x. not (is_exited x.status) in
    (
      λ m.
          let r = In-filter living (filter named (list_agents h)) a m in
          let q = In-filter named (list_agents h) a r.0 in
          (q.0, (eq_iff a.handle handle).0 q.1, not-eq-true (is_exited a.status) r.1),
      λ m.
          filter-In living (filter named (list_agents h)) a
            (filter-In named (list_agents h) a m.0 ((eq_iff a.handle handle).1 m.1)) (ap not m.2),
    )

-- `pick_live` on a handle: a live record of it, standing or the only one.
pub pick_live-LiveAs :
    (h : Hub) (handle : String) (a : AgentRecord)
    → pick_live (live_by_handle (list_agents h) handle) ≡ ok (some a)
    → LiveAs h handle a × StandsAlone h handle a
pick_live-LiveAs h handle a e =
    let r = only_member (live_by_handle (list_agents h) handle) a e in
    ((live_member h handle a).0 r.0, alone r.1)
  where
    alone :
        (is_standing a ≡ true)
          ⊎ ((b : AgentRecord) → In b (live_by_handle (list_agents h) handle) → b ≡ a)
        → StandsAlone h handle a
    alone (inl st) = inl st
    alone (inr only) = inr (λ b m. only b ((live_member h handle b).1 m))

recipient_of_pick :
    (h : Hub) (to id : String) (r : Result (Option AgentRecord))
    → pick_live (live_by_handle (list_agents h) to) ≡ r
    → (r >>= picked_id (exited_by_handle (list_agents h) to)) ≡ ok id
    → (a : AgentRecord) × (a.id ≡ id) × (LiveAs h to a × StandsAlone h to a)
recipient_of_pick h to id (ok none) e p = absurd (ground arith)
recipient_of_pick h to id (ok (some a)) e p = (a, ok-injective p, pick_live-LiveAs h to a e)
recipient_of_pick h to id (err x) e p = absurd (ground arith)

-- A recipient that resolves is a registered id given outright, or the id of a record that has not
-- exited, carries the given handle, and is a standing record or the only such record: mail to a name
-- never goes to an exited unit, nor to one of several.
pub resolve_recipient-live :
    (h : Hub) (to id : String)
    → resolve_recipient h to ≡ ok id
    → ((id ≡ to) × (is_some (get_agent h to) ≡ true))
      ⊎ ((a : AgentRecord) × (a.id ≡ id) × (LiveAs h to a × StandsAlone h to a))
unfolding resolve_recipient
resolve_recipient-live h to id e = elim (Bool-cases (is_some (get_agent h to))) [
  | inl k ↦ inl (sym (ok-injective (rw k at e)), k)
  | inr k ↦ inr (recipient_of_pick h to id _ refl (rw k at e))
]

-- The unit that a selector picks has not exited, matches every given field, and is the only one that
-- does.
pub select_agent-only :
    (ctx : Context) (h : Hub) (sel : UnitSelector) (a : AgentRecord)
    → select_agent ctx h sel ≡ ok a
    → In a (list_agents h)
      × (selected ctx sel a ≡ true)
      × ((b : AgentRecord) → In b (list_agents h) → selected ctx sel b ≡ true → b ≡ a)
unfolding select_agent
select_agent-only ctx h sel a e =
    elim (Bool-cases (not (is_some sel.repo) && not (is_some sel.branch))) [
      | inl k ↦ absurd (ground arith)
      | inr k ↦
          let r = picked (filter (selected ctx sel) (list_agents h)) (rw k at e) in
          let m = In-filter (selected ctx sel) (list_agents h) a r.0 in
          (m.0, m.1, λ b i q. r.1 b (filter-In (selected ctx sel) (list_agents h) b i q))
    ]
  where
    picked :
        (xs : List AgentRecord)
        → the_only xs ≡ ok a
        → In a xs × ((b : AgentRecord) → In b xs → b ≡ a)
    picked [] p = absurd (ground arith)
    picked (x ∷ []) p =
        let q : x ≡ a = ok-injective p in
        (inl (sym q), λ b m. elim m [ inl z ↦ z ∙ q | inr z ↦ absurd z ])
    picked (x ∷ y ∷ rest) p = absurd (ground arith)
