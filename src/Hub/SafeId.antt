-- ===== src/Hub/SafeId.antt =====
-- `assertSafeId` and `sanitizePane` of packages/cyberlegion/src/paths.ts: ids that become file
-- names are refused unless safe, and pane locators are rewritten.
use Prim.Native.Char.{Char, code}
use cyberlegion.Prelude.{
  ℕ, String, Bool, false, not, ◌&&◌, ◌||◌, ◌==◌, nat_eq, leb, if◌then◌else◌, ◌≡◌, refl,
}
use cyberlegion.Exec.{Result, ok, err, invalid_id}

-- UNSAFE_ID: a slash, a backslash or a NUL
abbrev is_unsafe_char : Char → Bool
is_unsafe_char c = nat_eq (code c) 47 || nat_eq (code c) 92 || nat_eq (code c) 0

pub has_unsafe_char : String → Bool
has_unsafe_char String.[] = false
has_unsafe_char (String.◌∷◌ c s) = is_unsafe_char c || has_unsafe_char s

unfoldable pub is_safe_id : String → Bool
unfolding has_unsafe_char
is_safe_id id = not (id == "" || id == "." || id == ".." || has_unsafe_char id)

unfoldable pub assert_safe_id : String → Result String
unfolding is_safe_id
assert_safe_id id = if is_safe_id id then ok id else err invalid_id

abbrev is_pane_char : ℕ → Bool
is_pane_char n =
    (leb 48 n && leb n 57)
    || (leb 65 n && leb n 90)
    || (leb 97 n && leb n 122)
    || nat_eq n 95
    || nat_eq n 45

-- The pattern reads UTF-16 units, so a character beyond the basic plane leaves two underscores.
abbrev pane_char : Char → String → String
pane_char c rest =
    if is_pane_char (code c)
    then String.◌∷◌ c rest
    else if leb 65536 (code c)
    then String.◌∷◌ "_" (String.◌∷◌ "_" rest)
    else String.◌∷◌ "_" rest

unfoldable pub sanitize_pane : String → String
sanitize_pane String.[] = ""
sanitize_pane (String.◌∷◌ c s) = pane_char c (sanitize_pane s)

dotdot_unsafe : assert_safe_id "../x" ≡ err invalid_id
unfolding assert_safe_id
dotdot_unsafe = refl

sanitized : sanitize_pane "%3" ≡ "_3"
unfolding sanitize_pane
sanitized = refl
