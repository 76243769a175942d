-- ===== src/Prelude/Chars.antt =====
-- `includes` and `slice(0, n)` of texts.
use Prim.Native.Nat.{ℕ, zero, suc}
use Prim.Native.String.{String}
use mathlib.Core.Bool.{Bool}
use mathlib.Core.Path.{◌≡◌, refl}
use text.Mathlib.Text.{find?}
use cyberlegion.Prelude.Tests.{is_some}

abbrev pub includes : String → String → Bool
includes s t = is_some (find? s t)

-- The first `n` characters.
unfoldable pub take_chars : ℕ → String → String
take_chars zero s = ""
take_chars (suc n) String.[] = ""
take_chars (suc n) (String.◌∷◌ c s) = String.◌∷◌ c (take_chars n s)

took : take_chars 2 "abc" ≡ "ab"
unfolding take_chars
took = refl
