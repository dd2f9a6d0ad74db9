-- ===== src/Lib.antt =====
-- Teatro: a self-hosted game library server in Rust. This library models parts of the core of the
-- server, under src/, and proves what its callers rely on. The server takes requests over HTTP
-- (src/api), which pass the authentication and its rate limiter, and hands them to services
-- (src/services), which keep their state in SQLite (src/repositories), in a managed directory
-- (src/storage) or in memory. The parts with state in memory come first here, then the readers of
-- what users upload and the names and plans made of it, then the journal of file operations and the
-- recovery after a crash, which puts the files of an unfinished operation back in step with the
-- database.
--
-- What models which part:
-- - RateLimit: src/services/auth_rate_limit.rs, with AuthConfig of src/config.rs. `check`,
--   `record_failure` and `record_success` take the table that the mutex guards, and return it with
--   their answer; `none` is a panic. Window, Eviction, Failure, Bounds, Protection, Check, Lockout
--   and Overflow are the proofs. Chrono is what the limiter uses of the chrono crate: the largest
--   duration and the latest time are parameters, and the time is a number of nanoseconds.
-- - Job: one record of src/services/job_registry.rs and what each operation does to it; Job.Lifecycle
--   is what always holds of a record and the direction in which it moves.
-- - Jobs: the registry of that file. `reserve` takes the ids that the generator draws, one for each
--   round of its loop, and `none` is a loop that goes on after the last of them. Jobs.Invariant has
--   the steps that the registry takes under its lock, Jobs.Following follows one job through them,
--   Jobs.Calls says that each call is a few steps, Jobs.Reservation and Jobs.Capacity are about the
--   ids and the number of ended jobs. A call takes the clock readings that it makes.
-- - Transfers: src/services/background_transfers.rs. A cancellation token is a number; `claim`
--   takes the number of the token that it makes. The HTTP method and the response are parameters.
--   Calls, Ownership, Retries and Stale are the proofs.
-- - Retention: the pruning that both registries have: an hour, and 64 entries that ended. The order
--   in which the oldest go is a parameter, since the two differ in it.
-- - Filename: src/services/ingest/filename.rs and its types in src/domain/ingest.rs. SplitArchive
--   reads the volumes of a split archive, Extraction cuts off extensions and tokens, Tokens
--   classifies the tokens in parentheses and (Dumps) in brackets, Regions reads the regions of a
--   token, Disc the marker of a disc, Title the title that is left; Parse puts them together.
-- - Paths: src/storage/paths.rs, the two functions that make a path or a name safe.
-- - Manifests: src/services/ingest/manifests.rs, the readers of playlists, cue sheets and GDI
--   descriptors. Validation and References are the proofs.
-- - Normalization: src/services/library/normalization.rs. Slugs has `slugify`, Archives the names of
--   archives, Playlists those of generated playlists, and Free the loops that look for a name that is
--   free, where what the database and the file system answer is a parameter. Values,
--   Archives.Bases, Devices and Portable, Free.Candidates and Free.First are proofs.
-- - Ingest: the plan of an upload, of src/services/library/types.rs, src/services/library/ingest and
--   src/domain; a panic at an index is `none`. Prepared reads the inputs, Playlists plans the
--   playlists that a user gives, DiscSets those that are generated for the sets of discs of
--   DiscSets.Candidates, Descriptors a cue sheet or a GDI descriptor with its tracks, Sidecars moves
--   the sidecars to their discs, and Planner puts them together, single files included; Titles gives
--   the roms other titles. How serde writes JSON is a parameter. Placed and Planned are about
--   Descriptors, DiscSets.Counting, Numbered and Whole about the sets of discs, Covered and its
--   children about the batch, Titles.Collected and Retitled about the titles.
-- - Files: what the services use of src/storage/file_store.rs, as an interface of which nothing is
--   assumed; a place is a relative path under a root.
-- - Workflow: src/domain/workflow.rs, and Journal: src/repositories/file_operations.rs, the table of
--   file operations as a list of rows. Journal.Rows is about the writes.
-- - Recovery: src/services/file_operations.rs. Uploads, Deletes and Covers are what the recovery of an
--   operation does to the files, Reconcile is the loop over the journal. The repositories, what the
--   database answers where a call on the journal fails, the parsers of payloads and the texts of
--   errors are parameters. Recorded is a file store that notes its calls and answers in any way;
--   Rules says when a recovery of a delete may make a call. Roots, Disciplined, Reconcile.Left and
--   Reconcile.Finished are the proofs.
-- - Table is Rust's HashMap as an association list, with its laws in Table.Laws; Prelude has the
--   shared names, and Rust's `str` in Prelude.Text as the list of its characters.
-- - Examples has the theorems at concrete inputs, and tests of the definitions.
--
-- Bounds: numbers are natural numbers; the counters of the limiter stop at 2^32 - 1, and its
-- settings wrap to an `i64` where the source casts them. Loops recurse on their list; the one over
-- the trailing tokens of a name runs on fuel, one more than the characters of the name, and a round
-- that goes on cuts at least one of them off. The digits of a number are printed on fuel, one more
-- than the number; the loops over the names that may be free have the 1000 rounds of the source.
--
-- Not modelled: the percentage of a job's progress (a float that is a function of two counts), the
-- poisoning of a mutex after a panic, the functions of src/storage/paths.rs that ask the file
-- system, the implementation of src/storage/file_store.rs, and so what the recovery leaves on the
-- disk, the names and paths that the files of a plan get in the end
-- (src/services/library/ingest/finalization.rs), and the parts of the server that are input and
-- output: HTTP, SQL, files, child processes.

pub mod Prelude
pub mod Table
pub mod Chrono
pub mod RateLimit
pub mod Retention
pub mod Job
pub mod Jobs
pub mod Transfers
pub mod Filename
pub mod Paths
pub mod Manifests
pub mod Normalization
pub mod Ingest
pub mod Workflow
pub mod Journal
pub mod Files
pub mod Recovery
pub mod Examples
