-- ===== src/Prelude/Rows.antt =====
-- `replace(/\s+/g, ' ')` and `split('\n')` of texts.
use Prim.Native.Char.{code}
use Prim.Native.String.{String, ◌++◌ as ◌<>◌}
use mathlib.Core.Path.{◌≡◌, refl}
use mathlib.Core.Bool.{Bool, true, false}
use mathlib.Core.List.{List, [], ◌∷◌}
use cyberlegion.Prelude.Tests.{nat_eq, if◌then◌else◌}
use cyberlegion.Prelude.Text.{is_space}

-- `after` says that the last character was a space, already written as one.
one_space_from : Bool → String → String
one_space_from after String.[] = ""
one_space_from after (String.◌∷◌ c s) =
    let skipped = one_space_from true s in
    let kept = one_space_from false s in
    if is_space (code c)
    then if after then skipped else String.◌∷◌ " " skipped
    else String.◌∷◌ c kept

unfoldable pub one_space : String → String
unfolding one_space_from
one_space s = one_space_from false s

abbrev cons_row : String → List String → List String
cons_row c [] = c ∷ []
cons_row c (row ∷ rows) = (c <> row) ∷ rows

unfoldable pub rows_of : String → List String
rows_of String.[] = "" ∷ []
rows_of (String.◌∷◌ c s) =
    let rest = rows_of s in
    if nat_eq (code c) 10 then "" ∷ rest else cons_row (String.◌∷◌ c "") rest

collapsed : one_space "a  b c" ≡ "a b c"
unfolding one_space is_space
collapsed = refl

two_rows : rows_of "ab\nc" ≡ "ab" ∷ "c" ∷ []
unfolding rows_of
two_rows = refl
