-- ===== src/Identity/Reap/Culling.antt =====
-- The culling loop of packages/cyberlegion/src/identity.ts: which records it may change, and how.
use cyberlegion.Prelude.{
  String, Bool, true, false, ◌-◌, ◌==◌, ◌<◌, none, some, List, [], ◌∷◌, ◌≡◌, ◌⊎◌, inl, inr, refl,
  ap, ◌∙◌, In, Bool-cases, arith,
}
use cyberlegion.Prelude.Dict
use cyberlegion.Prelude.Dict.{Dict, get-put}
use cyberlegion.Prelude.Sort.{In-sort}
use cyberlegion.Hub.Types.{Hub, AgentRecord, Pane}
use cyberlegion.Hub.SafeId.{is_safe_id}
use cyberlegion.Hub.{get_agent, list_agents, put_agent}
use cyberlegion.Hub.Keyed.{get_agent-put_cases}
use cyberlegion.Context.{Context}
use cyberlegion.Exec.{after-keeps}
use cyberlegion.Identity.Liveness.{is_exited, is_prunable, listed_or_unknown}
use cyberlegion.Identity.Reap.{cull, exited, stale_ms}

-- The multiplexer answered and does not list the record's pane, or the record has no pane and was not
-- seen for the stale time.
abbrev pub IsDead : Context → AgentRecord → Type 0
IsDead ctx r =
    ((p : Pane) × (r.pane ≡ some p) × (listed_or_unknown (ctx.list_panes p.mux) p.id ≡ false))
    ⊎ ((r.pane ≡ none) × (stale_ms < ctx.now - r.last_seen))

-- The hub reads the id as `r`, marked exited, where `r` was a dead record of `g` that may be judged.
abbrev pub ReapedAs : Context → Hub → Hub → String → Type 0
ReapedAs ctx g h id =
    (r : AgentRecord) × In r (list_agents g)
    × (r.id ≡ id)
    × (is_prunable r ≡ true)
    × (IsDead ctx r)
    × (get_agent h id ≡ some (exited r))

values-put :
    (m : Dict AgentRecord) (k : String) (r b : AgentRecord)
    → In b (Dict.values (Dict.put m k r))
    → (b ≡ r) ⊎ In b (Dict.values m)
unfolding Dict.put
values-put [] k r b (inl q) = inl q
values-put [] k r b (inr q) = inr q
values-put ((j, w) ∷ m) k r b q = elim (Bool-cases (j == k)) [
  | inl e ↦ ground (arith, e, q)
  | inr e ↦ ground (arith, e, q, values-put m k r b)
]

put_agent-list :
    (r : AgentRecord) (h : Hub) (b : AgentRecord)
    → In b (list_agents (put_agent r h).1)
    → (b ≡ r) ⊎ In b (list_agents h)
unfolding put_agent list_agents
put_agent-list r h b i = elim (Bool-cases (is_safe_id r.id)) [
  | inr e ↦ inr (rw e at i)
  | inl e ↦ elim (values-put h.agents r.id r b ((In-sort _ _ b).0 (rw e at i))) [
    | inl q ↦ inl q
    | inr q ↦ inr ((In-sort _ _ b).1 q)
  ]
]

-- `h` is `g` after some reaping: what is read is unchanged or reaped, and every listed record was
-- listed or has exited.
pub record Reaps (ctx : Context) (g h : Hub) : Type 0 where
  pub reads : (id : String) → (get_agent h id ≡ get_agent g id) ⊎ ReapedAs ctx g h id
  pub lists :
      (b : AgentRecord) → In b (list_agents h) → In b (list_agents g) ⊎ (is_exited b.status ≡ true)

pub Reaps-refl : (ctx : Context) (h : Hub) → Reaps ctx h h
Reaps-refl ctx h = record { reads = λ id. inl refl; lists = λ b i. inl i }

module _ (ctx : Context) (g : Hub) where
  -- Saving a dead record of `g` as exited is reaping.
  put_exited :
      (h : Hub) (r : AgentRecord)
      → In r (list_agents g)
      → is_prunable r ≡ true
      → IsDead ctx r
      → Reaps ctx g h
      → Reaps ctx g (put_agent (exited r) h).1
  put_exited h r i p d w = record {
    reads = λ id. read_of id (get_agent-put_cases (exited r) h id) (w.reads id);
    lists = λ b m. list_of b (put_agent-list (exited r) h b m);
  }
    where
      read_of :
          (id : String)
          → (get_agent (put_agent (exited r) h).1 id ≡ get_agent h id)
            ⊎ ((r.id ≡ id) × (get_agent (put_agent (exited r) h).1 id ≡ some (exited r)))
          → (get_agent h id ≡ get_agent g id) ⊎ ReapedAs ctx g h id
          → (get_agent (put_agent (exited r) h).1 id ≡ get_agent g id)
            ⊎ ReapedAs ctx g (put_agent (exited r) h).1 id
      read_of id (inr (q, e)) _ = inr (r, i, q, p, d, e)
      read_of id (inl e) (inl k) = inl (e ∙ k)
      read_of id (inl e) (inr (a, i', q, p', d', k)) = inr (a, i', q, p', d', e ∙ k)

      list_of :
          (b : AgentRecord)
          → (b ≡ exited r) ⊎ In b (list_agents h)
          → In b (list_agents g) ⊎ (is_exited b.status ≡ true)
      list_of b (inl q) = inr (ap (λ (x : AgentRecord). is_exited x.status) q)
      list_of b (inr m) = w.lists b m

is_prunable-exited : (r : AgentRecord) → is_prunable r ≡ true → is_exited r.status ≡ true → ⊥
unfolding is_prunable
is_prunable-exited r p e = ground (arith, p, e)

module _ (ctx : Context) (g : Hub) (dead : AgentRecord → Bool)
    (judges : (r : AgentRecord) → dead r ≡ true → (is_prunable r ≡ true) × IsDead ctx r) where
  pub cull-Reaps :
      (rs : List AgentRecord) (h : Hub)
      → ((b : AgentRecord) → In b rs → In b (list_agents g) ⊎ (is_exited b.status ≡ true))
      → Reaps ctx g h
      → Reaps ctx g (cull dead rs h).1
  unfolding cull
  cull-Reaps [] h known w = w
  cull-Reaps (r ∷ rs) h known w = elim (Bool-cases (dead r)) [
    | inr e ↦ rw e (cull-Reaps rs h (λ b i. known b (inr i)) w)
    | inl e ↦
        let j = judges r e in
        let w1 = put_exited ctx g h r (listed r j.0 (known r (inl refl))) j.0 j.1 w in
        rw e (
          after-keeps (Reaps ctx g) (put_agent (exited r) h) _ w1 (λ u.
            after-keeps (Reaps ctx g) (cull dead rs (put_agent (exited r) h).1) _
              (cull-Reaps rs _ (λ b i. known b (inr i)) w1)
              (λ a. cull-Reaps rs _ (λ b i. known b (inr i)) w1)))
  ]
    where
      listed :
          (b : AgentRecord)
          → is_prunable b ≡ true
          → In b (list_agents g) ⊎ (is_exited b.status ≡ true)
          → In b (list_agents g)
      listed b p (inl i) = i
      listed b p (inr e) = absurd (is_prunable-exited b p e)
