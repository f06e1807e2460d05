-- ===== src/Lib.antt =====
-- ServerFS MCP and its Agent Bridge.
--
-- The program gives AI clients access to working directories. The server (src/serverfs_mcp) checks
-- every path that a client names, and can run an OAuth authorization service. The Agent Bridge
-- (agent_bridge/src/serverfs_agent_bridge) is a process of its own that runs agent tasks and keeps
-- them in a SQLite store.
--
-- Bridge models the Agent Bridge's core: Bridge.Status is TaskStatus of models.py and the transition
-- rules of state.py, Bridge.Errors the codes of errors.py, Bridge.Store the class TaskStore of
-- store.py. Its tables are lists of rows in rowid order (Bridge.Store.Tables); each method is a
-- function of the same name on them (Tasks, Events, Requests, Restart below Bridge.Store) that
-- answers a value or a code together with the new tables, and `connect` rolls back where the method
-- raises. Bridge.Store.Calls puts the methods that write together as the steps of one machine.
--
-- Bridge.Lease is lease_identity.py: lease ids and, in Bridge.Lease.Artifacts, the names of their
-- files; the digest of SHA-256 and the reading of digits are its record Host. Bridge.Policy is
-- policy.py: the registry of workdirs, authorize and resolve_relative_cwd, over the record HostPaths
-- of what pathlib answers.
--
-- Bridge.Guards is recovery.py: ActiveGuardManager over the entries of its directory.
-- Bridge.Recovery has what service.py does with guards and old tasks: _reconcile_guard with the
-- helpers it calls, _reconcile_startup (Bridge.Recovery.Startup) and _gc_retained
-- (Bridge.Recovery.Retention). Its record RecoveryHost has the answers of the adapters, the texts of
-- events and the tests of deadlines; the result spool is an argument. A method reads the clock once.
-- Bridge.Submission is submit_task of service.py, one function for the checks (Prepare) and one for
-- what runs under the lock of the service (Submit, Lease), with acquire_exclusive of leases.py and the way
-- back from a failure. `meanwhile` is what other tasks do until the lock is taken; while it is held
-- they run only where an adapter is asked for the task of a guard. Its record SubmissionHost has what
-- they then do, and the answers of adapters, policies and files.
-- Bridge.Answers is the other side of a request: _validate_answers and the checks of respond_approval,
-- and over the futures and coroutines of the service (Bridge.Answers.Desk) answer_question and
-- _interrupt_for_interaction_timeout (Respond), cancel_task, _release_lease and respond_approval
-- (Cancel). `meanwhile` is what other tasks do while an adapter is asked to cancel.
--
-- Exclusion is the lease protocol between leases.py and service.py of the Bridge and
-- src/serverfs_mcp/agent_leases.py, on POSIX and with the integration enabled: the tests that each
-- side makes as functions, and the sides with the agent as a step relation over one workdir, in any
-- order (Exclusion.Steps). A workdir has one Bridge. The end of a process drops its lock and leaves
-- the guard, and an agent may outlive the Bridge. Review tasks run without the lease, at any time. The
-- end of a run and `close` clear a guard on the word of the adapter, which is a hypothesis (IsPromised).
--
-- Mutations.Text is src/serverfs_mcp/mutation_text.py: the checks and the application of edits, with
-- str.count and str.replace written out; encoding and decoding are the record Utf8.
-- Mutations.Files and Mutations.Operations are mutations.py, with the opening of entries from
-- posix_fdio.py: a change of one directory, under the lock of the process. The walk to the directory
-- is an argument, and so is what the system refuses and what other programs do before the last check of
-- a revision and between that check and the change.
--
-- Reading is read_page.py: read_page_from_fd over the bytes of a file, with its revisions as arguments.
-- Reading.Walk has a client that follows the next start lines, on fuel.
--
-- Oauth models OAuthStateStore of auth_store.py (Oauth.Tables, Oauth.Logins, Oauth.Tokens) and
-- ServerFSOAuthProvider of auth_provider.py (Oauth.Provider), one function for each method. What
-- `secrets` gives, and readings of the clock, are arguments; the digest of a text and the ticks of
-- the clock in a second are the record Platform. Oauth.Spent has calls that draw other secrets than those
-- that were used up.
--
-- Paths models paths.py: Paths.Parts is _split_relative_path, Paths.Policy the rules on names,
-- DenyPolicy and resolve_workdir_path. pathlib's test for absolute paths, str.casefold and
-- fnmatch.fnmatchcase are the record Host.
--
-- Sql has the statements that both stores run, as functions on lists of rows, and Prelude the shared
-- names and lemmas. Texts are native strings, and a path is split by its code points. Only Reading.Walk runs
-- on fuel, and one unit more than the lines of the file is enough: every other loop is over a list or a
-- text.
--
-- Calls of the stores do not interleave: a method is one step, as its writes run in one transaction,
-- and the row that it reads back afterwards is the one it wrote. JSON texts stand as texts, and lists
-- of scopes as lists. Not modelled: schema versions and migrations, file permissions and the capability
-- cache of the stores; the client metadata resolver and HTTP pages of the OAuth service; the format
-- checks of configured policies; the preparation of lock files and the Windows locks; the execution of
-- providers, messages to them and the event loop of the service; and file descriptors, the copy of
-- metadata to a replaced file, search, runtimes, deployment and tools, which are other components of
-- the program.
pub mod Prelude
pub mod Sql
pub mod Reading
pub mod Bridge
pub mod Exclusion
pub mod Mutations
pub mod Oauth
pub mod Paths
pub mod Tests
