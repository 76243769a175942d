-- ===== src/Hub/Types.antt =====
-- packages/cyberlegion/src/store/store.ts: the domain records. An absent field and a `null` one
-- are both `none`; a time is its epoch milliseconds (the source writes them by `toISOString`, which
-- `Date.parse` inverts).
use cyberlegion.Prelude.{ℕ, String, Option, Bool, Dict.Dict}

pub record Message : Type 0 where
  pub id : String
  pub from : String
  pub from_handle : String
  pub to : String
  pub subject : Option String
  pub body : String
  pub thread : Option String
  pub reply_to : Option String
  pub ts : ℕ

pub data Harness : Type 0 where
  claude cursor codex : Harness

-- `other` is the open member: a status that this version no longer writes.
pub data Status : Type 0 where
  active idle stale exited paused stopped : Status
  other : String → Status

pub data Kind : Type 0 where
  session standing service : Kind

pub data Mux : Type 0 where
  tmux herdr : Mux

pub record LeaseRef : Type 0 where
  pub lease_id : String
  pub holder : String

pub record Worktree : Type 0 where
  pub root : String
  pub branch : Option String
  pub primary_root : Option String
  pub lease : Option LeaseRef

pub record Pane : Type 0 where
  pub mux : Mux
  pub id : String
  pub window : Option String
  pub session : Option String

pub record ServiceRef : Type 0 where
  pub project : String
  pub name : String

-- The one way to launch a session in a standing owner's home.
pub data HomeLaunch : Type 0 where
  by_agent by_harness : String → HomeLaunch

pub record StandingHome : Type 0 where
  pub dir : String
  pub launch : HomeLaunch

pub record AgentRecord : Type 0 where
  pub id : String
  pub handle : String
  pub harness : Option Harness
  pub cwd : String
  pub worktree : Option Worktree
  pub pane : Option Pane
  pub pid : Option ℕ
  pub status : Status
  pub created_at : ℕ
  pub last_seen : ℕ
  pub brief : Option String
  pub launch : Option String
  pub conversation : Option String
  pub spawned_by : Option String
  pub kind : Option Kind
  pub service : Option ServiceRef
  pub presence : Option String
  pub home : Option StandingHome

pub record Subject : Type 0 where
  pub store : String
  pub native_id : String

pub record ProjectRecord : Type 0 where
  pub id : String
  pub name : String
  pub root : String
  pub common_dir : String
  pub registered_at : ℕ
  pub subject : Option Subject

pub data LeaseState : Type 0 where
  vacant reserved active : LeaseState

pub record Reservation : Type 0 where
  pub token : String
  pub by : Option String
  pub at : ℕ
  pub expires_at : ℕ
  pub forced : Bool

pub record ServiceLease : Type 0 where
  pub project : String
  pub service : String
  pub endpoint : String
  pub generation : ℕ
  pub state : LeaseState
  pub holder : Option String
  pub reservation : Option Reservation
  pub updated_at : ℕ

-- One address's inbox directory: its messages, and those moved into `read/`, keyed by file name.
pub record Mailbox : Type 0 where
  pub unread : Dict Message
  pub read : Dict Message

-- What lies under the store's root, one field for each kind of file (`paths` of paths.ts).
pub record Hub : Type 0 where
  pub marker : Bool
  pub agents : Dict AgentRecord
  pub projects : Dict ProjectRecord
  pub leases : Dict (Dict ServiceLease)
  pub mailboxes : Dict Mailbox
  pub panes : Dict String
  pub briefs : Dict String
  pub main_pane : Option String
