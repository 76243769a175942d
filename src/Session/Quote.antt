-- ===== src/Session/Quote.antt =====
-- `shellQuote` of packages/cyberlegion/src/session.ts, and the words that a POSIX shell reads.
pub mod Words
use Prim.Native.Char.{Char, code}
use cyberlegion.Prelude.{
  ℕ, zero, suc, String, Bool, nat_eq, if◌then◌else◌, Option, none, some, List, [], ◌∷◌, map, ◌<>◌,
  ◌≡◌, refl,
}

-- `replaceAll("'", "'\\''")`
escape_quotes : String → String
escape_quotes String.[] = ""
escape_quotes (String.◌∷◌ c s) =
    let rest = escape_quotes s in if nat_eq (code c) 39 then "'\\''" <> rest else String.◌∷◌ c rest

unfoldable pub shell_quote : String → String
unfolding escape_quotes
shell_quote s = "'" <> (escape_quotes s <> "'")

-- `args.map(shellQuote).join(' ')`
unfoldable pub quoted_args : List String → String
quoted_args [] = ""
quoted_args (a ∷ []) = shell_quote a
quoted_args (a ∷ b ∷ args) = shell_quote a <> (" " <> quoted_args (b ∷ args))

quoted : shell_quote "it's" ≡ "'it'\\''s'"
unfolding shell_quote
quoted = refl
