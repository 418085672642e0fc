-- ===== src/Lib.antt =====
-- Kiro-Go-Plus is a gateway in Go: it takes requests of client API keys, picks one of many upstream
-- accounts for each, and decodes the upstream's AWS EventStream answers. This library models the
-- parts of it that decide what is let through, and what happens when an account or a route fails.
--
-- The parts and their files
--   EventStream   proxy/eventstream.go. read_frame is readEventStreamFrame on the bytes that the
--                 reader still has; parse_headers is parseEventStreamHeaders. Crc writes out the
--                 CRC-32 of the standard library. Wire and Frames hold an encoder of the format,
--                 which is not in the source, and the round trips; Integrity says what an accepted
--                 frame is without the reader's steps.
--   Admission     proxy/api_admission.go. A request runs acquire_round until it is admitted, refused
--                 or parked; after_park says how a parked request that does not try again leaves. A
--                 lease reserves and settles tokens and is released once. World is the step relation
--                 of all requests of one key: any request may move next, at any time of the clock.
--   Pool          pool/account.go and pool/protection.go. Select is accountSelectableBasicLocked and
--                 the two passes of the selection, Order the order and the commit, Cooldowns the
--                 records of outcomes, the route affinity and the index of the accounts. Circuit is
--                 the circuit of one counter, Slots the three counters. Acquire puts them together:
--                 AcquireForModel asks the route's account first and then each selected account for a
--                 slot. Errors reads the texts of upstream errors. Account holds the fields of
--                 config.Account (config/config.go) that are read. Changes has the
--                 changes that are not outcomes of a request, Reload the reload of the accounts, which
--                 stores the counts of errors first. Runtime is pool/runtime_state.go: what
--                 is saved of the pool and what is loaded again. Inventory is pool/inventory.go.
--   Failover      proxy/account_failover.go. The record and its short methods are in Failover itself;
--                 Search is acquireNextAccountForRequest with the waits, on the pool of each round,
--                 and acquireAccountForModel with and without protection;
--                 Failures is handleAccountFailure and handleAccountFailureForModel, which change the
--                 pool and the stored accounts.
--   UpstreamHealth
--                 proxy/upstream_health.go: one of its two maps of circuits, which are alike.
--   Refresh       proxy/refresh_coordinator.go: the calls in flight, each with the place of its
--                 goroutine, and the steps of requests and goroutines in any order.
--   ToolAssembly  proxy/tool_assembly.go: the watch over tool calls that arrive in fragments. Timeouts
--                 has what each call keeps, Watches the sequences of calls.
--   ThinkingTags  proxy/thinking_tags.go, and the search for tags of proxy/meaningful_stream.go.
--   Config        ApiKeys is config/apikeys.go, Accounts the ban state and the counts of errors of
--                 config/config.go.
--   Base          What the parts share: tests on numbers, lists under native numbers, Go's maps as
--                 association lists, text as bytes, times as nanoseconds since Go's zero time.
--   Tests         Runs on small inputs, and the theorems applied to concrete ones.
--
-- How the code is read
--   A function that holds a mutex is one step. A map is an association list, and its order of entries
--   is the order of a `range` over it. The clock's reading, a random draw and the configuration are
--   arguments. An int that the code only tests for being positive, adds one to or takes one from
--   above zero is a natural number; priorities, weights and the running weights are integers. A
--   uint64 counter wraps at 2 ^ 64. A sort of package sort is an insertion sort, which is stable as
--   well. Errors keep their kind and lose their text. A nil pointer is the empty case of an option
--   or is not in the model where the code only guards against it.
--
-- Rounds
--   The header loop runs on as many rounds as the data has bytes: each header takes at least one. The
--   wait loop of Acquire is not run at all: each of its rounds is a step of World. The search for an
--   account runs on fuel; one more than the attempts that are left is shown to be enough. The
--   thinking parser runs on as many rounds as its buffer has bytes, and one more: each tag takes some.
--   All other
--   loops are recursions on a list or on a count of rounds. Sums of int64 are not bounded: the token
--   counts of the admission stay far below 2 ^ 63.
--
-- Left out
--   The idle timer of the stream, the channel that tells waiting requests of a free slot in the pool,
--   statistics but the counts of errors, and health averages. Files: what is written is modelled, the writing is not. The
--   context helpers of the admission. The snapshots for the operator's pages. All of the translation
--   between request formats, the HTTP handlers, sign-in and logs.
pub mod Admission
pub mod Base
pub mod Config
pub mod EventStream
pub mod Failover
pub mod Pool
pub mod Refresh
pub mod Tests
pub mod ThinkingTags
pub mod ToolAssembly
pub mod UpstreamHealth
