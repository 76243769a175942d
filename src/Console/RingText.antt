-- ===== src/Console/RingText.antt =====
-- The doorbell texts of packages/cyberlegion/src/console/doorbell.ts, and `isRingText`: whether what a
-- peer's input box holds is one of them.
use Prim.Native.Char.{code}
use text.Mathlib.TextLemmas.{cons-append, nil-append}
use cyberlegion.Prelude.{
  String, Bool, true, false, ◌&&◌, ◌||◌, not, ◌==◌, if◌then◌else◌, Option, none, some, ◌<>◌, ◌≡◌,
  ◌≢◌, ◌⊎◌, inl, inr, refl, sym, ap, ◌∙◌, arith, eq_iff, eq_refl, Bool-cases,
}
use cyberlegion.Prelude.Text.{is_space}
use cyberlegion.Prelude.Prefix.{after_prefix}

abbrev pub delivery_doorbell : String
delivery_doorbell = "You have unread mail — check your inbox."

unfoldable pub spawn_doorbell : String → String
spawn_doorbell path = "Read your brief at " <> (path <> ", then begin work.")

unfoldable pub resume_doorbell : String → String
resume_doorbell path =
    "Your session was restarted with its conversation resumed — continue your work. If you have no earlier conversation, read your brief at "
    <> (path <> ", then begin work.")

-- `replace(/\s+/g, '')`
unfoldable pub squeeze : String → String
squeeze String.[] = ""
squeeze (String.◌∷◌ c s) =
    let rest = squeeze s in if is_space (code c) then rest else String.◌∷◌ c rest

ends_with : String → String → Bool
ends_with t String.[] = t == ""
ends_with t (String.◌∷◌ c s) = t == String.◌∷◌ c s || ends_with t s

-- `.+` and then the text, of a text with no line breaks
some_then : String → Option String → Bool
some_then t none = false
some_then t (some String.[]) = false
some_then t (some (String.◌∷◌ c s)) = ends_with t s

-- SPAWN_DOORBELL and RESUME_DOORBELL
is_spawn_ring : String → Bool
unfolding some_then ends_with
is_spawn_ring box = some_then ",thenbeginwork." (after_prefix "Readyourbriefat" box)

is_resume_ring : String → Bool
unfolding some_then ends_with
is_resume_ring box = some_then ",thenbeginwork." (
    after_prefix
      "Yoursessionwasrestartedwithitsconversationresumed—continueyourwork.Ifyouhavenoearlierconversation,readyourbriefat"
      box)

abbrev is_message : String → Option String → Bool
is_message box none = false
is_message box (some message) = box == squeeze message

unfoldable pub is_ring_text : String → Option String → Bool
unfolding is_spawn_ring is_resume_ring
is_ring_text text message =
    let box = squeeze text in
    not (box == "")
    && (box == squeeze delivery_doorbell
        || is_spawn_ring box
        || is_resume_ring box
        || is_message box message)

squeeze-append : (s t : String) → squeeze (s <> t) ≡ squeeze s <> squeeze t
unfolding squeeze
squeeze-append String.[] t = ap squeeze (nil-append t) ∙ sym (nil-append (squeeze t))
squeeze-append (String.◌∷◌ c s) t = elim (Bool-cases (is_space (code c))) [
  | inl y ↦ rw (cons-append, y) (squeeze-append s t)
  | inr n ↦ rw (cons-append, n) (ap (String.◌∷◌ c) (squeeze-append s t) ∙ sym (cons-append c _ _))
]

after_prefix-append : (p s : String) → after_prefix p (p <> s) ≡ some s
unfolding after_prefix
after_prefix-append String.[] s = ap some (nil-append s)
after_prefix-append (String.◌∷◌ c p) s = rw cons-append (ground (arith, after_prefix-append p s))

ends_with_self : (t : String) → ends_with t t ≡ true
unfolding ends_with
ends_with_self String.[] = refl
ends_with_self (String.◌∷◌ c s) = ground (arith, eq_refl (String.◌∷◌ c s))

ends_with-append : (s t : String) → ends_with t (s <> t) ≡ true
unfolding ends_with
ends_with-append String.[] t = rw nil-append (ends_with_self t)
ends_with-append (String.◌∷◌ c s) t = rw cons-append (ground (arith, ends_with-append s t))

some_then-append : (t p : String) → p ≢ "" → some_then t (some (p <> t)) ≡ true
unfolding some_then
some_then-append t String.[] n = absurd (n refl)
some_then-append t (String.◌∷◌ c s) n = rw cons-append (ends_with-append s t)

pattern-ne-empty :
    (box : String) → (is_spawn_ring box ≡ true) ⊎ (is_resume_ring box ≡ true) → box ≢ ""
unfolding is_spawn_ring is_resume_ring after_prefix
pattern-ne-empty box (inl y) e = cc (sym (ap is_spawn_ring e) ∙ y)
pattern-ne-empty box (inr y) e = cc (sym (ap is_resume_ring e) ∙ y)

-- What matches one of the two patterns is a ring.
matched-ring :
    (text : String) (message : Option String)
    → (is_spawn_ring (squeeze text) ≡ true) ⊎ (is_resume_ring (squeeze text) ≡ true)
    → is_ring_text text message ≡ true
unfolding is_ring_text
matched-ring text message (inl y) =
    let n = pattern-ne-empty (squeeze text) (inl y) in
    ground (arith, y, n, eq_iff (squeeze text) "")
matched-ring text message (inr y) =
    let n = pattern-ne-empty (squeeze text) (inr y) in
    ground (arith, y, n, eq_iff (squeeze text) "")

-- The patterns, as `a <> (p <> b)`, of a text that is one of the two doorbells without its spaces.
module _ (p : String) (n : squeeze p ≢ "") where
  spawn_squeezed :
      squeeze (spawn_doorbell p) ≡ "Readyourbriefat" <> (squeeze p <> ",thenbeginwork.")
  unfolding spawn_doorbell squeeze is_space
  spawn_squeezed =
      squeeze-append "Read your brief at " (p <> ", then begin work.")
      ∙ ap (λ s. "Readyourbriefat" <> s) (squeeze-append p ", then begin work.")

  resume_squeezed :
      squeeze (resume_doorbell p)
      ≡ "Yoursessionwasrestartedwithitsconversationresumed—continueyourwork.Ifyouhavenoearlierconversation,readyourbriefat"
        <> (squeeze p <> ",thenbeginwork.")
  unfolding resume_doorbell squeeze is_space
  resume_squeezed =
      squeeze-append
        "Your session was restarted with its conversation resumed — continue your work. If you have no earlier conversation, read your brief at "
        (p <> ", then begin work.")
      ∙ ap
          (λ s.
            "Yoursessionwasrestartedwithitsconversationresumed—continueyourwork.Ifyouhavenoearlierconversation,readyourbriefat"
            <> s)
          (squeeze-append p ", then begin work.")

  is_spawn_ring-squeeze : is_spawn_ring (squeeze (spawn_doorbell p)) ≡ true
  unfolding is_spawn_ring
  is_spawn_ring-squeeze =
      rw (spawn_squeezed, after_prefix-append) (some_then-append ",thenbeginwork." (squeeze p) n)

  is_resume_ring-squeeze : is_resume_ring (squeeze (resume_doorbell p)) ≡ true
  unfolding is_resume_ring
  is_resume_ring-squeeze =
      rw (resume_squeezed, after_prefix-append) (some_then-append ",thenbeginwork." (squeeze p) n)

-- A spawn or a resume doorbell that names a path which is not blank is recognised as a ring, however the
-- box that it is read from has broken it into rows and spaced it.
pub is_ring_text-doorbell :
    (text path : String) (message : Option String)
    → squeeze path ≢ ""
    → (squeeze text ≡ squeeze (spawn_doorbell path))
      ⊎ (squeeze text ≡ squeeze (resume_doorbell path))
    → is_ring_text text message ≡ true
is_ring_text-doorbell text path message n (inl e) =
    let y = ap is_spawn_ring e ∙ is_spawn_ring-squeeze path n in matched-ring text message (inl y)
is_ring_text-doorbell text path message n (inr e) =
    let y = ap is_resume_ring e ∙ is_resume_ring-squeeze path n in matched-ring text message (inr y)

recognised : is_ring_text "Read your\n  brief at /b.md, then begin work." none ≡ true
unfolding is_ring_text squeeze after_prefix is_space
recognised = refl

a_draft : is_ring_text "Read your brief" none ≡ false
unfolding is_ring_text squeeze after_prefix is_space
a_draft = refl
