-- ===== src/Lib.antt =====
-- Verification of the Go core of Host FTP, a file transfer client for FTP, FTPS and SFTP.
--
-- The program. A user interface (internal/desktop, cmd/ghostftp) calls the engine (internal/api).
-- The engine owns one connection (internal/remote) and one transfer manager (internal/transfer),
-- whose queue of jobs is worked off by goroutines that run uploads and downloads over the session.
-- Settings (internal/config) give the parallelism, the retries, the conflict policy and the
-- bandwidth. Beside these stand a bounded recursive search, a comparison of two directories and an
-- update check.
--
-- The files.
--   Base: what all share: Boolean tests, lists over native numbers, maps as association lists,
--     signed integers, and Go strings as lists of bytes with the functions of the standard library
--     that are called (Base/Text).
--   Transfer: internal/transfer. Model has the jobs, the events and the state of Manager, Requests
--     the validation of requests (with internal/security), Scheduler the functions of the workers
--     (pump, finishJob, updateProgress and so on), Queue the operations of the callers (ReserveBatch,
--     Commit, CancelBatch, RetryBatch, DisableAndCancel and so on), Reorder the moves of
--     queue_order.go, Attempts the loop of execute, Bandwidth the share of one worker. System puts the
--     manager in its surroundings: one step is one section under the lock, and goroutines and callers
--     take turns in any order. Starts and Selections are about pump and about batches; Events, Workers, Capacity, Binding and Slots hold the proofs.
--   Remote: internal/remote. Errors has Go's error values with errors.Is and errors.As, and the
--     policy of retries, Names the names of temporary files and backups, Commit the replacement of a
--     remote file (commitRemoteTemp), Output the buffer for the output of child processes.
--     Endpoints is internal/profilebinding. Session is internal/remote/manager.go: Resolve, Session/Trust
--     the secrets that wait for the confirmation of a host key, Session/Connect the calls Connect,
--     Disconnect and Operation with the constructors of the sessions, Session/Histories the steps in
--     any order; Branches, Handover, Ownership, Owners, Frame, HostKeys, Lifecycle, Leaks and Phases
--     hold the proofs. Delete is recursiveDelete of util.go.
--   Items: internal/itemlist/sort.go, the keys, the comparison and SortBy; Less, Ranks, Order and Stable hold
--     the proofs.
--   Security: internal/security/validate.go, hosts and connections in Hosts, local names in LocalNames.
--   Config: internal/config/settings.go, with the language codes of internal/i18n.
--   Search: internal/filesearch. Compare: internal/directorycompare. Update: internal/updatecheck.
--   Examples: the tests and the examples for the theorems.
--
-- How the model corresponds to the code. A function has the name of the Go function in other spelling.
-- A function that locks once takes the state and returns the new one; one that locks twice takes the
-- state that it finds at each lock, so what happens in between is arbitrary. Goroutines that are
-- started, contexts that are made and cancel functions that are called are recorded in the state
-- (`spawned`, `next_context`, `signalled`). The error of a function is a value of a result type; the
-- texts of errors are kept where the code reads them, spelled in ASCII. Numbers of type int or int64
-- that cannot be negative are natural numbers; the generation is a uint64 with its wrap-around, and a
-- product of int64 in the bandwidth keeps its wrap-around too. Values of type float64 (percentages,
-- rates) are kept as the expressions that compute them.
--
-- Assumptions. Calls of Connect and Disconnect do not overlap; the generation stays below 2^64; the
-- ids of new jobs are new, which 80 random bits make likely; the sequence number of events, an int64
-- from 0 by steps of 1, does not overflow. The server of Remote/Commit obeys the laws of its record:
-- a rename that returns nil moves the file, one that fails changes nothing, and a deletion touches no
-- other name. `strings.ToLower`, `url.Parse`, `filepath.Dir` and the contexts of the search are
-- arguments of the definitions that use them.
--
-- In Remote/Session a call of Connect, which holds opMu from its start to its end, is one step; what
-- the rest of the system answers in its course is a record of arbitrary answers, except that the
-- secret broker gives out blobs that are not in use. The broker's entries do not expire. Closing a
-- session and forgetting it under the lock are one step. Ports are not negative. Profiles only lend
-- their secrets, as on Windows and Linux.
--
-- Bounds and fuel. At most 20000 jobs and 8 workers, as in the code. The loop of pump runs for
-- `limit - running` rounds, which is all that its condition allows; the loop of execute for the
-- attempts that the settings allow. A deletion goes 64
-- levels down, as its guard allows, and needs no more fuel. Moves in the queue run for as many rounds as the two positions
-- are apart. The outer loop of the search is on fuel, since its queue grows while it runs: a turn
-- takes one directory off the queue and each item that is visited adds one at most, so a turn for each
-- item that may be visited and two more are enough.
--
-- Not modelled: the inside of the sessions (curl and sftp as child processes), the files behind the settings, the
-- profiles and the bookmarks, local file operations, secrets of the operating system, texts for the
-- user, the desktop interface, the installer and the updater, panics in workers, and second calls of
-- the function that ends an operation (a sync.Once drops them).
mod Base
pub mod Compare
pub mod Config
pub mod Items
pub mod Remote
mod Examples
pub mod Search
pub mod Security
pub mod Transfer
pub mod Update
