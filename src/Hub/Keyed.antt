-- ===== src/Hub/Keyed.antt =====
-- Laws of the agent files: what a read sees after a write, and the invariant that each file is named
-- by the id of the record that it holds.
use cyberlegion.Prelude.{
  String, Bool, true, ◌&&◌, ◌==◌, if◌then◌else◌, some, ◌≡◌, ◌⊎◌, inl, inr, sym, ap, ◌∙◌, Bool-cases,
  arith, eq_iff, some-injective,
}
use cyberlegion.Prelude.Dict.{get-put}
use cyberlegion.Exec.{ok}
use cyberlegion.Hub.Types.{Hub, AgentRecord}
use cyberlegion.Hub.SafeId.{is_safe_id}
use cyberlegion.Hub.{get_agent, put_agent, read_safe}

-- A record is read back under its own id, and only there; a write under an unsafe id does nothing.
pub get_agent-put :
    (r : AgentRecord) (h : Hub) (id : String)
    → get_agent (put_agent r h).1 id
      ≡ (if is_safe_id r.id && r.id == id then some r else get_agent h id)
unfolding put_agent get_agent read_safe
get_agent-put r h id = ground (arith, get-put h.agents r.id id r, eq_iff r.id id)

-- A read after a write finds what it found, or the record that was written.
pub get_agent-put_cases :
    (r : AgentRecord) (h : Hub) (id : String)
    → (get_agent (put_agent r h).1 id ≡ get_agent h id)
      ⊎ ((r.id ≡ id) × (get_agent (put_agent r h).1 id ≡ some r))
get_agent-put_cases r h id = elim (Bool-cases (is_safe_id r.id && r.id == id)) [
  | inl e ↦ inr (
    (eq_iff r.id id).0 (ground (arith, e)),
    get_agent-put r h id ∙ ap (λ (b : Bool). if b then some r else get_agent h id) e,
  )
  | inr e ↦ inl (get_agent-put r h id ∙ ap (λ (b : Bool). if b then some r else get_agent h id) e)
]

-- A write that returns was to a safe id.
pub put_agent-is_safe :
    (r : AgentRecord) (h g : Hub) → put_agent r h ≡ (ok tt, g) → is_safe_id r.id ≡ true
unfolding put_agent
put_agent-is_safe r h g e = ground (arith, e)

abbrev pub IsKeyed : Hub → Type 0
IsKeyed h = (id : String) (r : AgentRecord) → get_agent h id ≡ some r → r.id ≡ id

pub put_agent-IsKeyed : (r : AgentRecord) (h : Hub) → IsKeyed h → IsKeyed (put_agent r h).1
put_agent-IsKeyed r h k id a e = elim (get_agent-put_cases r h id) [
  | inl q ↦ k id a (sym q ∙ e)
  | inr (q, p) ↦ ap (λ (x : AgentRecord). x.id) (some-injective (sym e ∙ p)) ∙ q
]
