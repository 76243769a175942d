-- ===== src/Lib.antt =====
-- Cyberlegion: units (agent sessions in multiplexer panes), their registry, mail and project services,
-- kept as files under a hub root by short-lived processes. The program is packages/cyberlegion/src.
--
-- Hub: the files of the hub as dictionaries, and the operations of store/file-store.ts and paths.ts on
--   them (Hub.Types: store/store.ts; Hub.SafeId: assertSafeId, sanitizePane; Hub.Mailbox: putMessage,
--   listInbox, ackMessage, removeMessage, removeMailbox). Hub.Keyed and Hub.Leases hold their laws.
-- Exec: a method reads and writes the hub and may throw; what it wrote before a throw stays written.
-- Context: what a call is given from outside: clock, random bytes, environment, and the answers of git,
--   of the file system and of the multiplexer library. They are parameters of every definition.
-- Project: project.ts, registering and resolving projects.
-- Identity: identity.ts. Liveness (isPrunable, sessionLive, paneGone), Resolve (resolveRecipient,
--   resolveAgent, selectAgent, resolveStandingOwner), Presence (claimPresence, clearPresence), Register
--   (register, registerStanding), Reap (reconcile, adopt, prune, touch).
-- Lock: store/lock.ts. A run is a schedule of the system calls of acquireLock, tryReclaimStale and
--   release; Lock.Exclusion and Lock.Reclaim are about what two contenders can do.
-- Console.Ring: console/ring.ts, ringTurn over what the pane's screen shows. The calls that type and read
--   return once the pane is known to exist, and texts are cut by characters, not by UTF-16 units.
-- Console.Prompt, Console.Guard: console/prompt-guard.ts, readPrompt and withDraftGuard.
-- Console.RingText, Console.Doorbell: console/doorbell.ts, isRingText, wakeRecipient and wakeSpawn.
-- Session: session.ts. Quote (shellQuote, and the words a POSIX shell reads), Launch (composeLaunchLine,
--   resumeLaunch, resetCommandFor, composeBrief, resolveBrief, resolveSpawnBase), Spawn (spawn). The shim
--   that composeLaunchLine writes to the unit's data directory is noted by its callers, spawn and
--   restartUnit, in what they keep beside the hub, each time a launch line is made for an open.
-- Participants: participants.ts, syncParticipants. The cynapse store is a parameter with laws
--   (Participants.Store), and Participants.Memory is a store that has them.
-- Console.Trust: console/trust.ts, showsTrustPrompt and answerTrustPrompt.
-- StandingHome: standing-home.ts, resolveHomeFlags. A name is in the launch map, as in the code, also where
--   it is one that every JavaScript object inherits; spawn and restart take such a harness as unknown.
-- Decommission: decommission.ts, the close of a unit.
-- Runtime: unit-runtime.ts. stopUnit, rebindUnit, probeLiveness, recordConversation; Runtime.Restart is
--   restartUnit, which opens a session by a line of Session and rings it through Console.Doorbell.
-- Mail: message.ts. send, inbox, peek, ack, readAck, deleteMessage, deleteMailbox, and call sequences.
-- Mail.Await, Mail.Watch: wake/await.ts and wake/watch.ts, over what the hub is at each poll.
-- Service: service.ts. State (load, view, transition), Transitions (acquireService, bindService,
--   releaseService, handoffService, verifyOwnership), Start (startService), History (call sequences).
-- Each file named Tests runs the definitions on small hubs.
--
-- Mail and services resolve names through Identity, services resolve their project through Project, and
-- all of them keep their state through Hub. A service call and a presence change run under a lock, so
-- each is one step; a history is a list of calls, and each call has its own context.
--
-- The presence and service calls take the lock as excluding others, which is an assumption of the
-- model where a process died holding the lock: see Lock.
--
-- Bounds: times are whole milliseconds; texts are Unicode strings. The loops are structural recursions
-- on lists, except `decimal`, whose fuel is the number itself plus one, more than its digits, and
-- the ring, whose fuel is its own limit of attempts, and the guard's wait, whose fuel is its longest
-- wait in milliseconds, enough where each poll takes at least one, and the wait for mail, whose fuel is
-- its length in seconds plus one, enough where each poll sleeps for a second, and the watch for a trust
-- prompt, whose fuel is its timeout in milliseconds plus one, enough where each poll takes at least one.
--
-- Not modelled: files that do not parse and error message texts (records are what writes put there);
-- labels of workspaces; spawnPresence, the pane commands of session.ts and showUnit; loading cynapse and
-- project addresses; the command line, agent definition files, installation, and the web site.
pub mod Console
pub mod Context
pub mod Decommission
pub mod Exec
pub mod Hub
pub mod Identity
pub mod Lock
pub mod Mail
pub mod Participants
pub mod Prelude
pub mod Project
pub mod Runtime
pub mod Service
pub mod Session
pub mod StandingHome
