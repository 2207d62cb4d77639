-- ===== src/Lib.antt =====
-- Clausis is a voice-operated desktop whose actions all pass one broker. A request (a dotted action,
-- a target, JSON arguments, an origin and a stated risk) is validated by an allowlist; requests of
-- more than low risk, irreversible or privileged ones, and all requests of Hermes or of external
-- content, need a capability: a signed, expiring, one-time token that is bound to one request and
-- issued only after a spoken phrase and a PIN. The broker runs what is left with an executor and writes
-- every result to a hash-chained audit log.
--
--   Outcome       Python's exceptions as values of a sum, with the binds of do blocks
--   Stdlib, Text  character tables, codecs and digests as an interface; text operations on code points
--   Models        src/clausis/models.py: Value holds JSON-compatible values, Request the two records
--                 with their checks and timestamps, Parse from_dict
--   Policy        src/clausis/policy.py: Validators one function per validator, Table the allowlist
--                 in the order of the source, Evaluate evaluate
--   Capabilities  src/clausis/capabilities.py: issue and verify; the set of consumed identifiers is
--                 passed through
--   Broker        src/clausis/broker.py: Submit ActionBroker, Executor SafeExecutor
--   Audit         src/clausis/audit.py: Redaction what is left out, File the log as the contents of
--                 its file
--   Confirmation  src/clausis/confirmation.py: Pin PinVerifier, Summary canonical_summary, Confirmer
--                 TrustedConfirmer with its table of pending confirmations
--   Router        src/clausis/router.py: Builder and Build what a command makes of a match, Commands the
--                 157 commands in their order, Route OfflineRouter
--   Desktop       src/clausis/gnome_adapter.py: Provider the accessibility tree, Tree the walk through
--                 it, Field the checks of the focused text field, Words and Lines the bounded searches,
--                 Attempt, Change and Edit what writes, observes and undoes, TextEdits, LineEdits,
--                 LineMoves, SelectionEdits, Selection, Caret and Reading the operations of
--                 PyAtSpiDesktop on that field; Session SessionExecutor; the other files prove
--   Journey       the way of a request through the confirmer to the broker
--   Runtime       src/clausis/runtime.py: VoiceRuntime with its correction slot; Offline sets it up with
--                 the router and the broker
--   Audio         src/clausis/audio.py: the audio mode and the gate that wakes, sleeps and stops
--   Assistant     src/clausis/assistant.py: how the correction slot and the gate are kept together
--   Installer     src/clausis/installer.py: Disks what may be erased and the guard in front of it, Plan
--                 InstallerPlan, Challenge InstallConfirmationChallenge
--   Tests         a small standard library over ASCII, and runs of the theorems
--
-- A transcript passes the gate of Audio, then the round of Runtime, whose router and broker are
-- arguments that may raise. The broker calls the policy, then verify of the authority that the
-- confirmer issues tokens with, then the executor, then the audit log; each component's state is a
-- field of the caller's, and every operation takes the state and gives the new one. Times are
-- microseconds since the epoch, read once where the source reads the clock; moments before the
-- epoch and the limits of the calendar are left out. Random identifiers and phrases are arguments.
-- Most recursion is on the structure of a list or a text and needs no fuel. The walk through the
-- accessibility tree visits at most 2,500 nodes, as in the source, and recurs on the number that is
-- left; a search for a word reads at most 256 characters and recurs on the distance to the edge.
-- Floats are exact dyadic rationals, infinity or NaN; integers are unbounded, as in Python.
--
-- The character tables, JSON, base64, hexadecimal, ISO 8601 and the digests of Python's standard
-- library are fields of one record, an instance argument. Where a theorem needs that a codec
-- gives back what it was given, its statement says so for the one value that is concerned.
--
-- The regular expressions of the router and the accessibility tree are arguments too. A call
-- that reads the tree tells what the desktop holds or raises; a call that writes answers or
-- raises, and leaves any desktop. Nothing else writes between two calls.
--
-- Not modelled: the operations of the desktop adapter on named widgets, dialogs, windows and
-- notifications and the executor of semantic actions that calls them, the other adapters and the
-- network clients, the speech front ends and the set-up tools, and what the operating system
-- does with files and processes: the audit file is its contents, and starting a process is an
-- argument of the executor. Of the installer, the inventory of the disks, the recovery key and
-- the spoken summaries are left out.
pub mod Prelude
pub mod Outcome
pub mod Stdlib
pub mod Text
pub mod Models
pub mod Policy
pub mod Capabilities
pub mod Audit
pub mod Broker
pub mod Confirmation
pub mod Router
pub mod Desktop
pub mod Runtime
pub mod Audio
pub mod Assistant
pub mod Installer
pub mod Journey
pub mod Tests
