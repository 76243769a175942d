-- ===== src/Session/Quote/Words.antt =====
-- The words of a shell command, as POSIX has it for text without double quotes and expansions, and the
-- words of quoted arguments.
use Prim.Native.Char.{Char, code}
use text.Mathlib.TextEquality.{Char-path}
use text.Mathlib.TextLemmas.{cons-append, nil-append, append-nil, append_assoc}
use cyberlegion.Prelude.{
  ℕ, zero, suc, String, nat_eq, nat_eq_iff, if◌then◌else◌, Option, none, some, List, [], ◌∷◌, ◌<>◌,
  ◌≡◌, inl, inr, refl, sym, ap, ◌∙◌, Bool-cases, arith, length, ◌<◌,
}
use cyberlegion.Session.Quote.{shell_quote, escape_quotes, quoted_args}

-- Outside quotes, inside single quotes, and after a backslash.
pub data Mode : Type 0 where
  plain quoting escaping : Mode

abbrev pub cons_word : Char → Option (String × String) → Option (String × String)
cons_word c none = none
cons_word c (some (word, rest)) = some (String.◌∷◌ c word, rest)

-- One word, up to a blank or the end, and what follows it; `none` is an open quote.
unfoldable pub read_word : Mode → String → Option (String × String)
read_word Mode.plain String.[] = some ("", "")
read_word Mode.quoting String.[] = none
read_word Mode.escaping String.[] = none
read_word Mode.plain (String.◌∷◌ c s) =
    let quote = read_word Mode.quoting s in
    let escape = read_word Mode.escaping s in
    let on = cons_word c (read_word Mode.plain s) in
    if nat_eq (code c) 32
    then some ("", String.◌∷◌ c s)
    else if nat_eq (code c) 39
    then quote
    else if nat_eq (code c) 92
    then escape
    else on
read_word Mode.quoting (String.◌∷◌ c s) =
    let close = read_word Mode.plain s in
    let on = cons_word c (read_word Mode.quoting s) in if nat_eq (code c) 39 then close else on
read_word Mode.escaping (String.◌∷◌ c s) = cons_word c (read_word Mode.plain s)

read_one : read_word Mode.plain "a'b c'\\'d e" ≡ some ("ab c'd", " e")
unfolding read_word
read_one = refl

abbrev prepend : String → Option (String × String) → Option (String × String)
prepend String.[] o = o
prepend (String.◌∷◌ c s) o = cons_word c (prepend s o)

-- A character before a text, as an append.
one-append : (c : Char) (s : String) → String.◌∷◌ c "" <> s ≡ String.◌∷◌ c s
one-append c s = cons-append c "" s ∙ ap (String.◌∷◌ c) (nil-append s)

hidden-append : (s : String) → "'\\''" <> s ≡ "'" <> ("\\" <> ("'" <> ("'" <> s)))
hidden-append s =
    append_assoc "'" "\\''" s
    ∙ ap (λ t. "'" <> t) (append_assoc "\\" "''" s ∙ ap (λ t. "\\" <> t) (append_assoc "'" "'" s))

read_word-escape_quotes :
    (s rest : String)
    → read_word Mode.quoting (escape_quotes s <> ("'" <> rest))
      ≡ prepend s (read_word Mode.plain rest)
unfolding escape_quotes read_word
read_word-escape_quotes String.[] rest = rw (nil-append, one-append) refl
read_word-escape_quotes (String.◌∷◌ c s) rest = elim (Bool-cases (nat_eq (code c) 39)) [
  | inl y ↦
      rw
        (
          y,
          hidden-append,
          append_assoc,
          append_assoc,
          append_assoc,
          append_assoc,
          one-append,
          one-append,
          one-append,
          one-append,
          read_word-escape_quotes s rest,
        )
        (let same : ◌≡◌ {A = Char} "'" c = Char-path "'" c (sym ((nat_eq_iff (code c) 39).0 y)) in
          ap (λ d. cons_word d (prepend s (read_word Mode.plain rest))) same)
  | inr n ↦ rw (n, cons-append, n) (ap (cons_word c) (read_word-escape_quotes s rest))
]

prepend-some : (s w r : String) → prepend s (some (w, r)) ≡ some (s <> w, r)
prepend-some String.[] w r = ap (λ x. some (x, r)) (sym (nil-append w))
prepend-some (String.◌∷◌ c s) w r =
    ap (cons_word c) (prepend-some s w r) ∙ ap (λ x. some (x, r)) (sym (cons-append c s w))

-- A quoted text is one word, whatever characters it has.
read_word-shell_quote :
    (s rest : String)
    → read_word Mode.plain rest ≡ some ("", rest)
    → read_word Mode.plain (shell_quote s <> rest) ≡ some (s, rest)
unfolding shell_quote read_word
read_word-shell_quote s rest e =
    rw (append_assoc, append_assoc, one-append)
      (read_word-escape_quotes s rest
        ∙ ap (prepend s) e
        ∙ prepend-some s "" rest
        ∙ ap (λ x. some (x, rest)) (append-nil s))

abbrev pub cons_arg : String → Option (List String) → Option (List String)
cons_arg w none = none
cons_arg w (some ws) = some (w ∷ ws)

abbrev after_word :
    (String → Option (List String)) → Option (String × String) → Option (List String)
after_word next none = none
after_word next (some (word, String.[])) = some (word ∷ [])
after_word next (some (word, String.◌∷◌ c rest)) = cons_arg word (next rest)

-- The words of a command, with fuel for as many of them.
unfoldable pub read_words : ℕ → String → Option (List String)
read_words zero s = none
read_words (suc fuel) s = after_word (read_words fuel) (read_word Mode.plain s)

-- Quoting arguments and reading the words of the command gives the arguments back, any characters in them
-- included.
pub read_words-quoted_args :
    (a : String) (args : List String) (fuel : ℕ)
    → length args < fuel
    → read_words fuel (quoted_args (a ∷ args)) ≡ some (a ∷ args)
unfolding read_words quoted_args read_word
read_words-quoted_args a [] zero l = absurd (omega arith)
read_words-quoted_args a [] (suc fuel) l =
    ap (λ s. after_word (read_words fuel) (read_word Mode.plain s))
      (sym (append-nil (shell_quote a)))
    ∙ ap (after_word (read_words fuel)) (read_word-shell_quote a "" refl)
read_words-quoted_args a (b ∷ args) zero l = absurd (omega arith)
read_words-quoted_args a (b ∷ args) (suc fuel) l =
    let rest = quoted_args (b ∷ args) in
    let blank : " " <> rest ≡ String.◌∷◌ " " rest = one-append " " rest in
    let stops : read_word Mode.plain (" " <> rest) ≡ some ("", " " <> rest) = rw blank refl in
    ap (after_word (read_words fuel)) (read_word-shell_quote a (" " <> rest) stops)
    ∙ ap (λ s. after_word (read_words fuel) (some (a, s))) blank
    ∙ ap (cons_arg a) (read_words-quoted_args b args fuel (omega arith))
