-- ===== src/Identity/Presence/Binding.antt =====
-- What a claim or a clear of a standing owner's presence writes, and what a refused one leaves.
use cyberlegion.Prelude.{
  String, Bool, true, ◌&&◌, ◌==◌, ◌≢◌, if◌then◌else◌, Option, none, some, is_some, ◌≡◌, refl, sym,
  ap, subst, ◌∙◌, inl, inr, In, find, find-In, Bool-cases, arith, eq_iff,
}
use cyberlegion.Exec.{
  Exec, Result, ok, after, after-ok, asks, asks-ok, pure, throw, ◌>>=◌, ◌>>◌, no_multiplexer,
  from_option, from_option-ok, no_standing_owner, no_identity,
}
use cyberlegion.Hub.Types.{Hub, AgentRecord}
use cyberlegion.Hub.{get_agent, put_agent, list_agents}
use cyberlegion.Hub.Keyed.{IsKeyed, get_agent-put, put_agent-is_safe}
use cyberlegion.Context.{Context}
use cyberlegion.Identity.Resolve.{resolve_standing_owner, is_standing, id_of_owner}
use cyberlegion.Identity.Presence.{
  claim_presence, clear_presence, clear_found, rebind, resolve_self_id, nonempty,
}

-- `s` is a standing record of the hub with that handle.
abbrev pub IsOwner : Hub → String → AgentRecord → Type 0
IsOwner h handle s = In s (list_agents h) × (s.handle ≡ handle) × (is_standing s ≡ true)

IsOwner-of_id :
    (h : Hub) (handle id : String) (o : Option AgentRecord)
    → find (λ a. a.handle == handle && is_standing a) (list_agents h) ≡ o
    → id_of_owner o ≡ ok id
    → (s : AgentRecord) × IsOwner h handle s × (s.id ≡ id)
IsOwner-of_id h handle id none f e = absurd (ground (arith, e))
IsOwner-of_id h handle id (some s) f e =
    let named : AgentRecord → Bool = λ a. a.handle == handle && is_standing a in
    let q = find-In named (list_agents h) s f in
    let both : (s.handle == handle ≡ true) × (is_standing s ≡ true) = ground (arith, q.1) in
    (s, (q.0, (eq_iff s.handle handle).0 both.0, both.1), cc)

pub resolve_standing_owner-IsOwner :
    (h : Hub) (handle id : String)
    → resolve_standing_owner h handle ≡ ok id
    → (s : AgentRecord) × IsOwner h handle s × (s.id ≡ id)
unfolding resolve_standing_owner
resolve_standing_owner-IsOwner h handle id e = IsOwner-of_id h handle id _ refl e

-- `h` with the record under `id` set to `r`, as reads see it.
abbrev pub IsWritten : Hub → String → AgentRecord → Hub → Type 0
IsWritten h id r g = (j : String) → get_agent g j ≡ (if id == j then some r else get_agent h j)

pub put_agent-IsWritten :
    (h g : Hub) (id : String) (r : AgentRecord)
    → r.id ≡ id
    → put_agent r h ≡ (ok tt, g)
    → IsWritten h id r g
put_agent-IsWritten h g id r q e j =
    let s = put_agent-is_safe r h g e in let p = get_agent-put r h j in ground (arith, s, q, e, p)

-- The record `found` under `s.id` got the presence, and nothing else changed.
abbrev pub IsBound : Hub → AgentRecord → Option String → AgentRecord → Hub → Type 0
IsBound h s presence r g =
    (found : AgentRecord) × (get_agent h s.id ≡ some found)
    × (r ≡ record found { presence = presence })
    × IsWritten h s.id r g

ok-injective :
    {A S : Type 0} {a b : A} {s t : S}
    → ◌≡◌ {A = Result A × S} (ok a, s) (ok b, t)
    → (a ≡ b) × (s ≡ t)
ok-injective e = (cc, cc)

rebind-IsBound :
    (h g : Hub) (s r : AgentRecord) (presence : Option String)
    → IsKeyed h
    → rebind s.id presence h ≡ (ok r, g)
    → IsBound h s presence r g
unfolding rebind
rebind-IsBound h g s r presence keyed e =
    let (found, known, e1) = asks-ok (from_option no_standing_owner (get_agent h s.id)) h _ r g e in
    bound found (from_option-ok no_standing_owner _ found known) e1
  where
    bound :
        (found : AgentRecord)
        → get_agent h s.id ≡ some found
        → after
            (put_agent (record found { presence = presence }) h)
            (λ u. pure (record found { presence = presence }))
          ≡ (ok r, g)
        → IsBound h s presence r g
    bound found known e1 =
        let w : AgentRecord = record found { presence = presence } in
        let (u, h2, put, e2) = after-ok (put_agent w h) _ r g e1 in
        let done = ok-injective e2 in
        let q =
          put_agent-IsWritten h g s.id w (keyed s.id found known)
            (put ∙ ap (λ (x : Hub). (ok tt, x)) done.1) in
        (found, known, sym done.0, subst (λ x. IsWritten h s.id x g) done.0 q)

nonempty-eq_some : (o : Option String) (s : String) → nonempty o ≡ some s → (o ≡ some s) × (s ≢ "")
nonempty-eq_some none s e = absurd (ground (arith, e))
nonempty-eq_some (some x) s e = elim (Bool-cases (x == "")) [
  | inl k ↦ absurd (ground (arith, e, k))
  | inr k ↦
      let q : x ≡ s = ground (arith, e, k) in (ap some q, λ z. ground (arith, k, q, z, eq_iff x ""))
]

abbrev claimed_if : Context → String → Bool → Exec Hub AgentRecord
claimed_if ctx owner b =
    if b
    then (do
      self ← asks (λ h. from_option no_identity (nonempty (resolve_self_id ctx h)))
      rebind owner (some self))
    else throw no_multiplexer

abbrev claimed : Context → String → Exec Hub AgentRecord
claimed ctx owner = claimed_if ctx owner ctx.has_multiplexer

claimed-IsBound :
    (ctx : Context) (h g : Hub) (s r : AgentRecord)
    → IsKeyed h
    → claimed ctx s.id h ≡ (ok r, g)
    → (ctx.has_multiplexer ≡ true)
      × ((self : String) × (resolve_self_id ctx h ≡ some self)
          × (self ≢ "")
          × IsBound h s (some self) r g)
claimed-IsBound ctx h g s r keyed e = elim (Bool-cases ctx.has_multiplexer) [
  | inr k ↦ absurd (ground (arith, e, k))
  | inl k ↦ (k, bound (sym (ap (λ (b : Bool). claimed_if ctx s.id b h) k) ∙ e))
]
  where
    bound :
        after
            (from_option no_identity (nonempty (resolve_self_id ctx h)), h)
            (λ self. rebind s.id (some self))
          ≡ (ok r, g)
        → (self : String) × (resolve_self_id ctx h ≡ some self)
          × (self ≢ "")
          × IsBound h s (some self) r g
    bound e1 =
        let (self, k, e2) =
          asks-ok (from_option no_identity (nonempty (resolve_self_id ctx h))) h
            (λ self. rebind s.id (some self)) r g e1 in
        let q = nonempty-eq_some _ self (from_option-ok no_identity _ self k) in
        (self, q.0, q.1, rebind-IsBound h g s r (some self) keyed e2)

-- A claim that returns was made inside a multiplexer by a session whose own id is known. It binds that
-- id as the presence of the standing record of that handle, changes no other field of it, and no other
-- record.
pub claim_presence-IsBound :
    (ctx : Context) (handle : String) (h g : Hub) (r : AgentRecord)
    → IsKeyed h
    → claim_presence ctx handle h ≡ (ok r, g)
    → (s : AgentRecord) × IsOwner h handle s
      × (ctx.has_multiplexer ≡ true)
      × ((self : String) × (resolve_self_id ctx h ≡ some self)
          × (self ≢ "")
          × IsBound h s (some self) r g)
unfolding claim_presence
claim_presence-IsBound ctx handle h g r keyed e =
    let (owner, k, e1) = asks-ok (resolve_standing_owner h handle) h _ r g e in
    let (s, o, q) = resolve_standing_owner-IsOwner h handle owner k in
    let (known, k2, e2) =
      asks-ok (from_option no_standing_owner (get_agent h owner)) h (λ f. claimed ctx owner) r g
        e1 in
    let b = claimed-IsBound ctx h g s r keyed (ap (λ (x : String). claimed ctx x h) q ∙ e2) in
    (s, o, b.0, b.1)

cleared_if : AgentRecord → Bool → Exec Hub AgentRecord
cleared_if r b =
    let cleared = record r { presence = none } in
    if b then (do put_agent cleared; pure cleared) else pure r

clear_found-IsBound :
    (h g : Hub) (s found r : AgentRecord) (o : Option String)
    → IsKeyed h
    → get_agent h s.id ≡ some found
    → found.presence ≡ o
    → clear_found found h ≡ (ok r, g)
    → IsBound h s none r g
unfolding clear_found cleared_if
clear_found-IsBound h g s found r none keyed known p e =
    let run : ◌≡◌ {A = Result AgentRecord × Hub} (ok found, h) (ok r, g) =
      sym (ap (λ (o : Option String). cleared_if found (is_some o) h) p) ∙ e in
    let done = ok-injective run in
    let same : found ≡ record found { presence = none } =
      ap (λ (o : Option String). record found { presence = o }) p in
    (
      found,
      known,
      sym done.0 ∙ same,
      λ j. elim (Bool-cases (s.id == j)) [
        | inl k ↦
            ap (λ (x : Hub). get_agent x j) (sym done.1)
            ∙ ap (get_agent h) (sym ((eq_iff s.id j).0 k))
            ∙ known
            ∙ ap some done.0
            ∙ sym (ap (λ (b : Bool). if b then some r else get_agent h j) k)
        | inr k ↦
            ap (λ (x : Hub). get_agent x j) (sym done.1)
            ∙ sym (ap (λ (b : Bool). if b then some r else get_agent h j) k)
      ],
    )
clear_found-IsBound h g s found r (some x) keyed known p e =
    let w : AgentRecord = record found { presence = none } in
    let run = sym (ap (λ (o : Option String). cleared_if found (is_some o) h) p) ∙ e in
    let (u, h2, put, e2) = after-ok (put_agent w h) (λ u. pure w) r g run in
    let done = ok-injective e2 in
    let q =
      put_agent-IsWritten h g s.id w (keyed s.id found known)
        (put ∙ ap (λ (x : Hub). (ok tt, x)) done.1) in
    (found, known, sym done.0, subst (λ x. IsWritten h s.id x g) done.0 q)

-- A clear that returns takes the presence off the standing record of that handle, changes no other
-- field of it, and no other record.
pub clear_presence-IsBound :
    (handle : String) (h g : Hub) (r : AgentRecord)
    → IsKeyed h
    → clear_presence handle h ≡ (ok r, g)
    → (s : AgentRecord) × IsOwner h handle s × IsBound h s none r g
unfolding clear_presence
clear_presence-IsBound handle h g r keyed e =
    let (owner, k, e1) = asks-ok (resolve_standing_owner h handle) h _ r g e in
    let (s, o, q) = resolve_standing_owner-IsOwner h handle owner k in
    let again = λ (x : AgentRecord).
      asks (λ (h : Hub). from_option no_standing_owner (get_agent h owner)) >>= clear_found in
    let (known, k2, e2) =
      asks-ok (from_option no_standing_owner (get_agent h owner)) h again r g e1 in
    let (found, k3, e3) =
      asks-ok (from_option no_standing_owner (get_agent h owner)) h clear_found r g e2 in
    let f = ap (get_agent h) q ∙ from_option-ok no_standing_owner _ found k3 in
    (s, o, clear_found-IsBound h g s found r found.presence keyed f refl e3)
