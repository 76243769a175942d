-- ===== src/Prelude/Prefix.antt =====
-- `startsWith`, and what stands after a prefix.
use Prim.Native.Char.{code}
use Prim.Native.String.{String}
use mathlib.Core.Path.{◌≡◌, refl}
use mathlib.Core.Option.{Option, none, some}
use cyberlegion.Prelude.Tests.{nat_eq, if◌then◌else◌}

-- The text after the prefix, where it starts with it.
unfoldable pub after_prefix : String → String → Option String
after_prefix String.[] s = some s
after_prefix (String.◌∷◌ c p) String.[] = none
after_prefix (String.◌∷◌ c p) (String.◌∷◌ d s) =
    let rest = after_prefix p s in if nat_eq (code c) (code d) then rest else none

after : after_prefix "ab" "abc" ≡ some "c"
unfolding after_prefix
after = refl

not_after : after_prefix "ab" "acb" ≡ none
unfolding after_prefix
not_after = refl
