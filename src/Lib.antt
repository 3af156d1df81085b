-- ===== src/Lib.antt =====
-- vxcore, the notebook core of VNote: a library (src/) that a C API (src/api) opens to
-- applications. Notebooks hold folders and files; the sync manager pairs a notebook with a backend
-- that copies it to a remote; the managers of buffers and workspaces hold what is open.
--
-- Files and the code they model:
-- Prelude           byte strings, decidable tests, lists and maps keyed by strings. A
--   std::unordered_map or std::map is an association list in which the first entry counts.
-- Errors            VxCoreError of include/vxcore/vxcore_types.h.
-- Utils             src/utils: Strings and Glob are string_utils.cpp, Base64 is base64.cpp. A char
--   is its code, a number below 256. Paths is the joining and splitting of file_utils.cpp.
-- Sync              src/sync: Dirty is dirty_tracker.cpp; System the types of sync_types.h and
--   sync_backend.h with the state of the program that a sync operation reads and writes; Manager
--   is sync_manager.cpp, split into Registry (EnableSync, DisableSync, UnregisterBackend and the
--   predicates), Config (the configuration cache and file events), Trigger (TriggerSync and
--   ResolveConflict) and Phases (StageOnly, NetworkPhaseOnly, status and credentials). Git is of
--   src/sync/git and retry_policy.cpp: Errors is git_error_translator.cpp, Rebase the rebase of
--   git_sync_pipeline.cpp; Agreement, Replay and Handle what holds of them.
-- Buffers           src/core: Disk is the file system that a buffer uses; Content and Backup are
--   buffer.cpp; Manager (opening) and Manager/Content (closing, reading, saving) are
--   buffer_manager.cpp, with the calls that record a file in the history.
-- History           src/core/history_manager.cpp.
-- Workspaces        src/core/workspace_manager.cpp and workspace.h: the workspaces and the buffers
--   that they show and close; Load is LoadWorkspaces.
-- Search            src/search/simple_search_backend.cpp: Literal is DoPatternMatch, Match a line
--   and the files of a chunk, Streaming SearchStreaming and Search, Limit the end of Search.
--   Streaming/Queued has the chunks on a work queue, as a relation between the steps of the
--   threads. Files is src/search/search_manager.cpp: the files that a query is about, by name and
--   by tags.
-- WorkQueue         src/core/work_queue.cpp; Order has the steps of all threads as a relation.
-- Events            src/core/event_manager.cpp.
-- Folders           src/core/bundled_folder_manager.cpp and folder.h: Config reads, writes and
--   caches the vx.json of a folder; Files, Records, Tree, Move, Order, Listing, Iterate, External
--   and Available (src/core/folder_manager.cpp) have the operations; Cached, Laws and Lifecycle
--   what holds of them.
-- Notebooks         src/core/notebook.cpp, the tags: Tags has the operations, Tags/Forest what it
--   means that tags stand in no cycle, Changes, Operations, Subtree, Deleted, Deletion and
--   Reachable the proofs.
-- Snippets          src/core/snippet_manager.cpp: Manager has the files of snippets, Dynamic and
--   Week the values from the clock, Descriptions the texts of the built-in ones, Expand the marks and the expansion of symbols.
-- Tests             the theorems and the code at concrete inputs.
--
-- State. An operation of the sync manager is a function of the whole state `System`: the manager's
-- maps, the open notebooks, the addresses of the backends that are alive and a world that the
-- model does not look into. It ends in `ok`, in `err` with a code, or in `fault` where the code
-- uses a backend that was destroyed. A backend, the registry, the event listeners and the clock
-- are the record `Externals`; each gets the whole state and returns it, so a listener or a backend
-- may call the manager back, and another thread that runs while a backend does is what that call
-- does to the state. The locks themselves are not modelled: a lock block is one step. A buffer is
-- a record in the manager's map and a file a value of the disk `D`, which only the operations of
-- `Files` look into; an exception is the value none or false of such an operation. Ids of new
-- buffers and workspaces, which GenerateUUID makes, are arguments. A path and every other
-- std::string is a `String` whose characters stand for its bytes. Revisions and times are natural
-- numbers: the overflow of an int after 2^31 saves is not modelled.
--
-- A call of libgit2 is a field of the record `LibGit`, which gets the repository and returns a
-- code and the repository; the handle of a rebase that the backend keeps is an Option.
--
-- The folder manager's state has the disk, the metadata store, the cache of configs and the events
-- that went out. A change through a pointer into the cache is a `put` before the write, so that it
-- stays when the write fails. Items of a work queue and callbacks of events get the queue or the
-- manager and may use it again. The chunks of a search are steps of threads in any order; the flag
-- that cancels is read as the record `CancelFlag` says at each place.
--
-- Fuel. GetFolderConfig, the walks over all folders and the search in them run on the number of
-- folders that are visited below one another; a folder in the cache needs one. The loop of
-- MatchesPattern runs on `match_fuel`, a bound on its rounds: each round passes a byte of the text
-- or of the pattern, or starts again one byte further in the text. The loops of DeleteTag and
-- MoveTag run on the rounds that are shown to be enough. ExpandSymbols has its own limit of
-- rounds, which is the fuel here, and ReplaceAll passes a byte in each round. DriveRebaseLoop runs
-- on the operations of the rebase that are left: git_rebase_next performs one in each round. That
-- of DoPatternMatch runs on the length of the line and one, since each round but that of an empty
-- pattern moves on in the line.
--
-- Not modelled: of the bundled folder manager, files that move or are copied with their assets and
-- links, copied and imported folders and the indexing of nodes; the raw folder manager; of the
-- search manager, the JSON of queries and results, SearchContent and the choice of the backend;
-- the notebooks but for their tags, the C API, the databases, the configuration files, the backend
-- of git but for the rebase and the meaning of its errors, the one of ripgrep; logging and timing
-- of log lines, the progress callbacks of a sync, the event file.saved of a saved buffer, the
-- providers of a buffer, and the JSON payload of events beyond the fields that the manager reads.
-- What is read from and written to the configuration file stays in memory.
pub mod Prelude
pub mod Errors
pub mod Utils
pub mod Sync
pub mod Buffers
pub mod History
pub mod Notebooks
pub mod Snippets
pub mod Workspaces
pub mod Search
pub mod WorkQueue
pub mod Events
pub mod Folders
mod Tests
