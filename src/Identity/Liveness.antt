-- ===== src/Identity/Liveness.antt =====
-- The liveness half of packages/cyberlegion/src/identity.ts: which records may be judged dead, and
-- on what evidence.
use cyberlegion.Prelude.{
  String, Bool, true, false, not, ◌&&◌, ◌||◌, ◌==◌, if◌then◌else◌, Option, none, some, List, [],
  ◌∷◌, any,
}
use cyberlegion.Hub.Types.{AgentRecord, Status, Kind, Pane}
use cyberlegion.Context.{Context, LivePane}

abbrev pub is_exited : Status → Bool
is_exited Status.exited = true
is_exited _ = false

abbrev pub is_stopped : Status → Bool
is_stopped Status.stopped = true
is_stopped _ = false

abbrev pub kind_is_independent : Option Kind → Bool
kind_is_independent none = false
kind_is_independent (some Kind.session) = false
kind_is_independent (some Kind.standing) = true
kind_is_independent (some Kind.service) = true

unfoldable pub is_session_independent : AgentRecord → Bool
is_session_independent r = kind_is_independent r.kind

unfoldable pub is_prunable : AgentRecord → Bool
unfolding is_session_independent
is_prunable r =
    not (is_session_independent r) && not (is_exited r.status) && not (is_stopped r.status)

abbrev pub lists_pane : List LivePane → String → Bool
lists_pane panes id = any (λ p. p.id == id) panes

-- An empty list is no answer: only a list without the pane says that it is gone.
abbrev pub listed_or_unknown : List LivePane → String → Bool
listed_or_unknown [] id = true
listed_or_unknown (p ∷ ps) id = lists_pane (p ∷ ps) id

abbrev pub pane_live : Context → Option Pane → Bool
pane_live ctx none = true
pane_live ctx (some pane) = listed_or_unknown (ctx.list_panes pane.mux) pane.id

unfoldable pub session_live : Context → AgentRecord → Bool
session_live ctx r =
    if is_exited r.status || is_stopped r.status then false else pane_live ctx r.pane

unfoldable pub pane_gone : Context → Pane → Bool
pane_gone ctx pane =
    if ctx.pane_exists pane.mux pane.id
    then false
    else not (listed_or_unknown (ctx.list_panes pane.mux) pane.id)
