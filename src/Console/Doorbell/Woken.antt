-- ===== src/Console/Doorbell/Woken.antt =====
-- Whom `wakeRecipient` of packages/cyberlegion/src/console/doorbell.ts rings, and when it does not.
use cyberlegion.Prelude.{
  ℕ, String, Bool, true, false, ◌&&◌, opt_is, opt_is_iff, if_cases, Option, none, some, List, [],
  ◌∷◌, ◌++◌, ◌≡◌, ◌≢◌, ◌⊎◌, inl, inr, refl, arith,
}
use cyberlegion.Exec.{Exec, Error, Result, ok, err}
use cyberlegion.Hub.Types.{AgentRecord, StandingHome}
use cyberlegion.Hub.{get_agent}
use cyberlegion.Identity.Presence.{presence_of, nonempty}
use cyberlegion.Console.RingText.{delivery_doorbell}
use cyberlegion.Console.Doorbell.{
  Consoles, Desk, Warning, WakeInput, WakeResult, WakeOptions, PresenceSpawn, existing, spawned,
  silent, rung_as, guarded_ring, ring_pane, ring_options, log_strokes, pane_of, Target, peer_target,
  main_target, is_unfocused, ring_target, ring_resolved, is_standing_kind, after_spawn, wake_owner,
  wake_found, wake_recipient,
}

abbrev is_ok : {A : Type 0} → Result A → Bool
is_ok (ok a) = true
is_ok (err e) = false

-- Why a target is left alone: it has no pane, the pane is the sender's own, it is to be rung only when
-- attended and is not, or there is no multiplexer.
abbrev pub LeftAlone : Consoles → WakeInput → Desk → Target → Type 0
LeftAlone c input u t =
    (nonempty t.pane ≡ none)
    ⊎ ((pane : String) × (nonempty t.pane ≡ some pane)
        × ((pane_of u.hub input.from_id ≡ some pane)
            ⊎ (((t.focus_gated ≡ true) × (c.is_focused pane ≡ some false))
                ⊎ (c.has_adapter ≡ false))))

-- A target's ring: it is left alone and nothing is typed, or the doorbell is typed into its pane only,
-- which is not the sender's, through the draft guard, and the ring counts where that returns.
pub data Rings (c : Consoles) (o : WakeOptions) (input : WakeInput) (u : Desk) (t : Target)
    : WakeResult → Desk → Type 0 where
  left_alone : (r : WakeResult) → r.rung ≡ false → LeftAlone c input u t → Rings c o input u t r u
  rung :
      (r : WakeResult) (pane : String) (v : Desk)
      → nonempty t.pane ≡ some pane
      → pane_of u.hub input.from_id ≢ some pane
      → (t.focus_gated ≡ false) ⊎ (c.is_focused pane ≢ some false)
      → r.rung ≡ is_ok (guarded_ring c o.guard pane t.harness delivery_doorbell (ring_options o)).0
      → v
        ≡ log_strokes pane
            (guarded_ring c o.guard pane t.harness delivery_doorbell (ring_options o)).1
            u
      → Rings c o input u t r v

-- Whom the wake of `d` comes to, at the desk `u`.
pub data Place (input : WakeInput) (d : Desk) (r : AgentRecord) : Desk → Target → Type 0 where
  -- a peer's own pane
  peer : is_standing_kind r.kind ≡ false → Place input d r d (peer_target d.hub r)
  -- the pane of a standing owner's live presence
  presence :
      (p : AgentRecord)
      → is_standing_kind r.kind ≡ true
      → presence_of d.hub r ≡ some p
      → Place input d r d (peer_target d.hub p)
  -- the main pane, where the owner has no live presence and none can be spawned
  main :
      is_standing_kind r.kind ≡ true
      → presence_of d.hub r ≡ none
      → (r.home ≡ none) ⊎ (input.spawn_home ≡ none)
      → Place input d r d (main_target d.hub)
  -- a presence that the spawn found, or the main pane, where the spawn failed
  found :
      (p : AgentRecord) (u : Desk) (home : StandingHome)
      (spawn : AgentRecord → Exec Desk PresenceSpawn)
      → is_standing_kind r.kind ≡ true
      → presence_of d.hub r ≡ none
      → r.home ≡ some home
      → input.spawn_home ≡ some spawn
      → spawn r d ≡ (ok (existing p), u)
      → Place input d r u (peer_target u.hub p)
  failed :
      (e : Error) (u : Desk) (home : StandingHome) (spawn : AgentRecord → Exec Desk PresenceSpawn)
      → is_standing_kind r.kind ≡ true
      → presence_of d.hub r ≡ none
      → r.home ≡ some home
      → input.spawn_home ≡ some spawn
      → spawn r d ≡ (err e, u)
      → Place input d r u (main_target u.hub)

-- How a wake goes.
pub data Woken (c : Consoles) (o : WakeOptions) (input : WakeInput) (d : Desk)
    : WakeResult → Desk → Type 0 where
  suppressed :
      (r : WakeResult)
      → (input.no_nudge ≡ true) ⊎ (get_agent d.hub input.to_id ≡ none)
      → r ≡ silent none
      → Woken c o input d r d
  rings :
      (a : AgentRecord) (t : Target) (u v : Desk) (r : WakeResult)
      → input.no_nudge ≡ false
      → get_agent d.hub input.to_id ≡ some a
      → Place input d a u t
      → Rings c o input u t r v
      → Woken c o input d r v
  spawns :
      (a p : AgentRecord) (pane : String) (rung : Bool) (w : List Warning) (u : Desk)
      (home : StandingHome) (spawn : AgentRecord → Exec Desk PresenceSpawn) (r : WakeResult)
      → input.no_nudge ≡ false
      → get_agent d.hub input.to_id ≡ some a
      → is_standing_kind a.kind ≡ true
      → presence_of d.hub a ≡ none
      → a.home ≡ some home
      → input.spawn_home ≡ some spawn
      → spawn a d ≡ (ok (spawned p pane rung w), u)
      → r.rung ≡ rung
      → Woken c o input d r u

rung_as-rung : (pane : String) (x : Result ℕ) → (rung_as pane x).rung ≡ is_ok x
rung_as-rung pane (ok n) = refl
rung_as-rung pane (err e) = refl

attended :
    (c : Consoles) (gated : Bool) (pane : String)
    → gated && is_unfocused c pane ≡ false
    → c.has_adapter ≡ true
    → (gated ≡ false) ⊎ (c.is_focused pane ≢ some false)
attended c false pane n a = inl refl
attended c true pane n a = inr (λ e. ground (arith, n, a, e))

module _ (c : Consoles) (o : WakeOptions) (input : WakeInput) where
  abbrev Rung : Desk → Target → WakeResult × Desk → Type 0
  Rung u t (r, v) = Rings c o input u t r v

  away :
      (t : Target) (pane : String)
      → t.focus_gated && is_unfocused c pane ≡ true
      → (t.focus_gated ≡ true) × (c.is_focused pane ≡ some false)
  away t pane y = ground (arith, y)

  ring_target-Rings :
      (u : Desk) (t : Target) (q : Option String)
      → nonempty t.pane ≡ q
      → Rung u t (ring_target c o input t q u)
  unfolding ring_target ring_pane
  ring_target-Rings u t none e = Rings.left_alone _ refl (inl e)
  ring_target-Rings u t (some pane) e =
      if_cases (Rung u t) (opt_is (pane_of u.hub input.from_id) pane) _ _
        (λ y. Rings.left_alone _ refl (inr (pane, e, inl ((opt_is_iff _ pane).0 y))))
        λ n.
          if_cases (Rung u t) (t.focus_gated && is_unfocused c pane) _ _
            (λ y. Rings.left_alone _ refl (inr (pane, e, inr (inl (away t pane y)))))
            λ m.
              if_cases (Rung u t) c.has_adapter _ _
                (λ a.
                  Rings.rung _ pane _ e (λ q. ground (arith, n, (opt_is_iff _ pane).1 q))
                    (attended c t.focus_gated pane m a) (rung_as-rung pane _) refl)
                (λ b. Rings.left_alone _ refl (inr (pane, e, inr (inr b))))

  ring_resolved-Rings : (u : Desk) (t : Target) → Rung u t (ring_resolved c o input t u)
  unfolding ring_resolved
  ring_resolved-Rings u t = ring_target-Rings u t (nonempty t.pane) refl

  spawn_warned-Rings :
      (u v : Desk) (t : Target) (w : List Warning) (r : WakeResult)
      → Rings c o input u t r v
      → Rings c o input u t (record r { warnings = w ++ r.warnings }) v
  spawn_warned-Rings u v t w r (left_alone _ x y) = Rings.left_alone _ x y
  spawn_warned-Rings u v t w r (rung _ pane _ x y z a b) = Rings.rung _ pane v x y z a b

  abbrev Wakes : Desk → WakeResult × Desk → Type 0
  Wakes d (r, v) = Woken c o input d r v

  module _ (d : Desk) (a : AgentRecord) (asked : input.no_nudge ≡ false)
      (found : get_agent d.hub input.to_id ≡ some a) where
    arrives : (u : Desk) (t : Target) → Place input d a u t → Wakes d (ring_resolved c o input t u)
    arrives u t p =
        let x = ring_resolved c o input t u in
        Woken.rings a t u x.1 x.0 asked found p (ring_resolved-Rings u t)

    module _ (owner : is_standing_kind a.kind ≡ true) (absent : presence_of d.hub a ≡ none)
        (home : StandingHome) (housed : a.home ≡ some home)
        (spawn : AgentRecord → Exec Desk PresenceSpawn)
        (given : input.spawn_home ≡ some spawn) where
      after_spawn-Woken :
          (x : Result PresenceSpawn × Desk) → spawn a d ≡ x → Wakes d (after_spawn c o input x)
      unfolding after_spawn
      after_spawn-Woken (ok (existing p), u) e =
          arrives u (peer_target u.hub p) (Place.found p u home spawn owner absent housed given e)
      after_spawn-Woken (ok (spawned p pane b w), u) e =
          Woken.spawns a p pane b w u home spawn _ asked found owner absent housed given e refl
      after_spawn-Woken (err x, u) e =
          let t = main_target u.hub in
          let ring = ring_resolved c o input t u in
          Woken.rings a t u ring.1 _ asked found
            (Place.failed x u home spawn owner absent housed given e)
            (spawn_warned-Rings u ring.1 t (Warning.home_failed x ∷ []) ring.0
              (ring_resolved-Rings u t))

    wake_owner-Woken :
        (presence : Option AgentRecord) (home : Option StandingHome)
        (spawn : Option (AgentRecord → Exec Desk PresenceSpawn))
        → is_standing_kind a.kind ≡ true
        → presence_of d.hub a ≡ presence
        → a.home ≡ home
        → input.spawn_home ≡ spawn
        → Wakes d (wake_owner c o input a presence home spawn d)
    unfolding wake_owner
    wake_owner-Woken none (some home) (some spawn) k p h s =
        after_spawn-Woken k p home h spawn s _ refl
    wake_owner-Woken none none spawn k p h s = arrives d _ (Place.main k p (inl h))
    wake_owner-Woken none (some home) none k p h s = arrives d _ (Place.main k p (inr s))
    wake_owner-Woken (some x) home spawn k p h s = arrives d _ (Place.presence x k p)

  wake_found-Woken :
      (d : Desk) (a : Option AgentRecord)
      → input.no_nudge ≡ false
      → get_agent d.hub input.to_id ≡ a
      → Wakes d (wake_found c o input a d)
  unfolding wake_found
  wake_found-Woken d none n e = Woken.suppressed _ (inr e) refl
  wake_found-Woken d (some a) n e =
      if_cases (Wakes d) (is_standing_kind a.kind) _ _
        (λ k.
          wake_owner-Woken d a n e (presence_of d.hub a) a.home input.spawn_home k refl refl refl)
        (λ k. arrives d a n e d _ (Place.peer k))

  -- Every wake is one of three. Nothing is done: it was suppressed, or no one is registered as the
  -- recipient. Or, not suppressed, a standing owner without a live presence, whose record has a home,
  -- is given one by the spawn that the caller supplied for that home.
  -- Or, not suppressed, one target is come to, the pane of a peer, of an owner's live presence, of a presence that the
  -- spawn found, or, where the owner has none, the main pane: it is left alone, nothing typed
  -- anywhere, only where it has no pane, or its pane is the sender's, or it is the main pane and known
  -- not to be attended, or there is no multiplexer; otherwise the doorbell is typed through the draft
  -- guard into that pane and no other, and the wake is a ring exactly where that returns.
  pub wake_recipient-Woken : (d : Desk) → Wakes d (wake_recipient c o input d)
  unfolding wake_recipient
  wake_recipient-Woken d =
      if_cases (Wakes d) input.no_nudge _ _ (λ y. Woken.suppressed _ (inl y) refl)
        (λ n. wake_found-Woken d (get_agent d.hub input.to_id) n refl)
