-- ===== src/Session/Tests.antt =====
-- Words of a launch line that the shell of packages/cyberlegion/src/session.ts reads back.
use cyberlegion.Prelude.{some, [], ◌∷◌, ◌≡◌, arith}
use cyberlegion.Session.Quote.{quoted_args}
use cyberlegion.Session.Quote.Words.{read_words, read_words-quoted_args}

-- A blank, a quote, an expansion and an empty argument.
read_words-quoted_args_example :
    read_words 4 (quoted_args ("node" ∷ "/a dir/it's.js" ∷ "$HOME" ∷ "" ∷ []))
    ≡ some ("node" ∷ "/a dir/it's.js" ∷ "$HOME" ∷ "" ∷ [])
read_words-quoted_args_example =
    read_words-quoted_args "node" ("/a dir/it's.js" ∷ "$HOME" ∷ "" ∷ []) 4 (omega arith)
