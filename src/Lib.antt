-- ===== src/Lib.antt =====
-- Verification of Reticle Studio (studio/), the desktop application that shows what the Reticle
-- runtime does. The runtime sends events; the main process of Studio keeps them, folds them into a
-- projection (runs, their nodes, approvals, artifacts), and pushes that with log records to the window.
--
-- Parts, and the files that model them:
--   Json: values of payloads, with the reads that the code makes of them; Json.Stringify is
--     JSON.stringify without indentation.
--   Events: studio/src/shared/events.ts, the event types and the envelope (RuntimeEvent);
--     Events.Decode decodes frames of the socket and lines of the log.
--   Ids, Ids.Signals: studio/src/shared/ids.ts, task ids, identify, identifyExecution, and the signals
--     that workers print. Regular expressions are scans written out.
--   Projection: studio/src/shared/projection.ts. Draft is the copy-on-write batch (draftRun, draftNode
--     and the writes), Health, Workflow, Worker, Log, Artifacts and Control are the cases of
--     applyToBatch, Apply puts them together, Fold is applyEvents with its session boundary, applyEvent
--     and replayTo (Fold.Scrub), Select the selectors. Invariant reduces what all cases keep to four primitive steps.
--   RunCompletion: studio/src/shared/runCompletion.ts, what is announced between two projections;
--     RunCompletion.Product chooses the files that a run offers.
--   EventStore: studio/electron/forge/store.ts. Ring is the class RingBuffer, Records is what is kept
--     of an event (stripHeavyPayload, toLogRecord, describe, classify), Query is queryLogs, Replay
--     puts the operations and both timers in sequence.
--   Logs: studio/src/shared/logMerge.ts; Logs.Llm: studio/src/features/graph/llmLog.ts.
--   Studio: studio/src/state/store.ts, the state of the window and the messages that change it.
--   Ui, Toasts: studio/src/state/ui.ts and toasts.ts.
--   Files: studio/src/shared/fileKind.ts; Files.Sniff: studio/src/shared/binarySniff.ts.
--   Format: the texts of durations in runCompletion.ts, features/hitl/planModel.ts and
--     design/status.ts, with the tables of status.ts.
--   Connection: studio/electron/forge/client.ts, the class ForgeClient and requireLocalHost of
--     forge/auth.ts. Step is one call or one event of a socket or a timer, Steps is a sequence of them;
--     what was emitted, sent and closed is kept beside the fields of the class.
--   Process: studio/electron/forge/process.ts, the runtime as a child process.
--   Keys: studio/electron/env/keys.ts, the keys in the .env file; Keys.Groups, Keys.Lines and Keys.Parts
--     are on VAR_LINE, Keys.Values on what lines set. Keys.Sections: features/settings/keySections.ts.
--   Plan: studio/src/features/hitl/planModel.ts, a checkpoint and the plan around it; Plan.Depths is
--     depths, whose passes are as many as the limit at most.
--   Activity: studio/src/features/activity/toolActivity.ts, the tool calls that the log tells of.
--   Common.Lines, Common.Trimming: the lines of a text, join and trim, which Keys and Process share.
--   Tests: the theorems at concrete inputs, and runs.
-- EventStore folds its pending events by Projection.Fold; Studio takes the projection and the log
-- records that EventStore gives, and merges them by Logs; RunCompletion compares two projections.
-- Connection decodes what a socket delivers by Events.Decode; the main process hands it to EventStore.
--
-- Correspondence: a function keeps its name in snake case, and a field too. A text is the list of its
-- UTF-16 code units. An object used as a dictionary is an association list in the order in which
-- JavaScript enumerates it, array indices first; members inherited from Object.prototype are left out.
-- A payload is a JSON value whose numbers are integers. A field that an interface declares as a string,
-- and that the code only casts, is read as absent where it holds something else. Times, ids and widths
-- are natural numbers; Date.parse is left as it stands (ParsedDate). undefined and null are none. sort
-- is a stable insertion sort. toLowerCase changes the ASCII letters. A case of applyToBatch that
-- assigns to the fields of a draft is a write through the keys of the draft; the batch carries beside
-- the source's fields whether an object that it writes is its own (owned, leaked).
--
-- Loops are structural recursions. Only the digits of a number are printed on fuel, n + 1 for n,
-- which has at most that many digits. The recursive call of applyEvents is made at most once, since
-- behind the boundary no event is of another session.
--
-- Parameters: JSON.parse in Logs.Llm, Events.Decode, Plan and Activity, Date.parse and the clock in
-- Events.Decode. An answer of none stands for an exception. localeCompare in Plan and in
-- RunCompletion.Product. In Connection: whether the constructor of a socket throws, when the events of
-- sockets and timers fire, and the rate of events, whose division is one of fractions (Platform).
-- In Process: whether paths exist, the warning of a stale binary, the clock, what spawn does, and when
-- chunks and events arrive. In Keys: the text of the file and whether it can be written.
--
-- Not modelled: the token of control requests (controlHeaders), the delays of timers but that of a
-- retry, layout of the graph, the compact lines of tools and the list of dependencies, React components,
-- the terminal, the preview server, settings and files of the workspace (input and output through
-- Electron and Node), formatDuration, formatBytes and formatClock (decimal fractions, local time), and
-- the runtime and workers, which are Go and Python.
pub mod Activity
pub mod Common
pub mod Connection
pub mod Json
pub mod Events
pub mod Ids
pub mod Projection
pub mod RunCompletion
pub mod Files
pub mod Format
pub mod Toasts
pub mod Ui
pub mod EventStore
pub mod Keys
pub mod Logs
pub mod Plan
pub mod Process
pub mod Studio
pub mod Tests
