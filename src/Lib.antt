-- ===== src/Lib.antt =====
-- The Drop desktop client: a library of games that it downloads from a server, installs and
-- launches. Modelled is the core of the Rust crates below src-tauri: the database's types, the
-- download manager with its queue and threads, a game's download from the manifest to the installed
-- state, the process manager, the cache of the server's objects, and the commands on games.
--
-- The parts and how they interact. The interface (download_manager/src/download_manager_frontend.rs,
-- Manager/Frontend) sends signals over a channel and rearranges a shared queue. The manager's thread
-- (download_manager_builder.rs, Manager/State and Manager/Builder) takes the signals one by one: it keeps the queue of
-- keys and a registry from keys to agents, asks agents by the trait of downloadable.rs
-- (Manager/Downloadable) and spawns a thread for the front one, whose loop is Manager/Thread. An
-- agent (games/src/downloads/download_agent.rs, Downloads/Agent) plans the chunks of its manifest
-- into buckets (Downloads/Buckets), fetches them with tasks of a pool (Agent/Run, and for one bucket
-- download_logic.rs, Downloads/Pipeline), reads them back (Agent/Validate, and Downloads/Validate
-- for one chunk), answers the manager (Agent/Hooks) and records which are complete (drop_data.rs,
-- Downloads/DropData). What becomes of a game is written to the database (database/src/models.rs,
-- Database) by games/src/library.rs (Games/Library) and, at start-up, by scan.rs (Games/Scan), and
-- read by state.rs (Games/State). Progress and speed are in Manager/Progress and Manager/Rolling,
-- the flag that threads share is Manager/Flag.
--
-- A game that is installed is launched by the process manager (process/src/process_manager.rs,
-- Process/Manager, Process/Launch and Process/Finish), which picks a handler for its platform
-- (process_handlers.rs, Process/Handlers, and client/src/compat.rs, Process/Compat) and writes to
-- the same database and interface. Objects of the server are kept in files (remote/src/cache.rs,
-- Remote/Cache and Remote/ObjectCache), through which fetch_object.rs (Remote/FetchObject), the
-- start of the client (auth.rs, Remote/Auth) and the commands of src/games.rs (Commands) also work
-- offline. The ways to sign in and out, what the client checks when it starts, the install
-- directories, collections, and starting and resuming a download (src/lib.rs, remote.rs,
-- settings.rs, collections.rs, downloads.rs and client.rs) are modules of Commands, and so is what
-- becomes of the client when its window is closed and when it is quit (Commands/Lifecycle).
-- Requests of the interface are passed on to the server by server_proto.rs (Remote/ServerProto),
-- with URLs of requests.rs (Remote/Requests), by clients that trust the certificates of utils.rs
-- (Remote/Certificates). The database that all of these change is opened, saved and, where its
-- file is invalid, replaced by database/src/interface.rs (Database/Interface). The files that a
-- game saves are collected and put back by cloud_saves/src/resolver.rs (CloudSaves), by handlers
-- for the platforms (backup_manager.rs, CloudSaves/Handlers); what the normal form of their paths
-- is, is in CloudSaves/Normalise (normalise.rs).
--
-- How the code is read. A structure is a record, an enumeration a data type. An operation returns
-- the new state; `none` is a panic, and where a call may also fail, Outcome has ok, err and panic. A
-- hash map is an association list whose order stands for the order of iteration. Agents are shared,
-- so the manager's registry holds addresses into a table of agents. Keys are compared as in the
-- code, by id and type and not by version. A `usize` has 64 bits and sums wrap. Lengths are fields
-- named `size`.
--
-- Concurrency. The manager handles one signal at a time, so its loop is a function on the sequence
-- of signals, in any order. A thread that is joined does the rest of its work then: that is an
-- argument, an effect on agents, environment and channel. The tasks of a pool share only the control
-- flag, so the result of each attempt and of each chunk's validation is a table; the rounds of the
-- download's thread and the turns of the copy loop are lists in the same way. The loops end by
-- themselves with the list: `none` is a loop that still runs, and a theorem says how many turns are
-- enough.
--
-- Parameters: the server's answers, the file system (where a file is placed, whether a write
-- succeeds, what a file holds), the digest, the disk's free space, the throttles of the progress
-- updates, the division of floats that gives the speed, the clocks, the answers of the operating
-- system to a launch and a kill, the libraries that pack a backup and print JSON, how an HTTP
-- client sets headers, errors of showing and hiding a window, the library of regular expressions,
-- the normal form of a path in the resolver, the tables of lower case letters, the events of
-- windows, the builder of HTTP clients, JSON objects of the settings, the library that fills a
-- launch template, the libraries of URLs and URIs, the library that keeps the database in a file,
-- the signature of a request, and the encoding of cached objects, of which a theorem on the cache
-- asks that decoding undoes encoding. Paths are joined as on Unix.
--
-- A launch reads the database twice and unlocks it in between, so it takes the database at both
-- times; the end of a process and a kill are single steps. Theorems on processes ask that the
-- database is consistent for the game: that it has the data of the version it calls installed.
--
-- Not modelled: the buffers and digests of the writers of download_logic.rs, the Tailscale
-- bindings, the commands that only pass a call on, how windows and menus are made, logging, the
-- encoding of files, and the web interface. A manager whose agents' hooks panic is outside the
-- theorem on whole runs; the refinement of a turn does not ask for that.
pub mod Prelude
pub mod Database
pub mod Remote
pub mod Manager
pub mod Games
pub mod Downloads
pub mod Process
pub mod Commands
pub mod CloudSaves
pub mod Tests
