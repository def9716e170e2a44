-- ===== src/Lib.antt =====
-- The lock broker of the shared concurrency substrate (Gate): processes on several machines share a
-- directory, a broker grants them read and write locks on its paths, and a FUSE mount takes the locks
-- for programs that know nothing of them.
--
-- The parts and the code that each models:
--   Store     src/gate/lock_store.py, `LockStore`. The tables `locks` and `queue` are lists of rows in
--             the order of insertion (Store/Data); the SELECTs are searches in them (Store/Queries);
--             Store/Cleanup is `_cleanup_expired`, Store/Acquire is `acquire`, Store/Release is
--             `release`, `heartbeat` and `status`, Store/Schema `_ensure_lock_columns`. Store/Race,
--             Store/Interleaved and Store/Vanished take the upgrade of a read lock, `release`, a
--             repeated request and `heartbeat` apart into statements; Store/SelfWait and Store/Sticky
--             are about a reader that asks for a write, Store/Strangers about releases by others,
--             Store/Unused about paths without locks and requests, and Store/Conflicts about rounds
--             beside a lock.
--   System    the broker's process: the tables with the calls of `acquire` that wait, and an event for
--             each thing that can happen to them. A history is a list of events in any order.
--             System/Spec is the abstract lock table that System/Refinement relates them to,
--             and System/Keys is what the row of a key stays.
--   Broker    src/gate/broker.py, the handler of a request, on the decoded JSON object.
--   Client    src/gate/client.py, the requests and the reading of the replies. Client/Wire is
--             the bytes of both directions, with JSON as a parameter.
--   Remote    the mount's client over the handler and the store: `exchange` is `_request`, `await` the
--             loop of `acquire` as the waiting client sees it, with the events of other clients between
--             its rounds. Remote/Served and Remote/Lawful compare it with what Fuse assumes;
--             Remote/Progress and Remote/Contention are about free and contended paths, Remote/Limits
--             about the rounds of a waiting call, and Remote/Exclusion, Remote/Refusal, Remote/Guarded
--             and Remote/Roundtrip follow files from the mount to the broker's tables.
--   Effects   exceptions, and the state-passing functions of Fuse and Cli with their do blocks.
--   Fuse      src/gate/fuse_fs.py, `GateFuse`: Fuse/World is the state, Fuse/Locks the private methods,
--             Fuse/Operations the operations. The client and the kernel are parameters; Fuse/Service is
--             a client over a lock store of its own. Fuse/Sessions runs a list of calls of the kernel
--             on a new mount, Fuse/Closing a file that is opened and closed.
--   Settings  src/gate/config.py and src/gate/version.py.
--   Cli       src/gate/cli.py over an abstract machine (Cli/Host). Helpers: Cli/Commands makes command
--             lines and texts, Cli/Ports chooses a port, Cli/Mounts handles mounts, directories and
--             processes, Cli/Waits is the three waiting loops. Commands: Cli/Up (its children InGuest
--             and OnHost for the later steps, Run for the order and the cleanup, Stopping and Failure
--             about the cleanup), Cli/Down (`down`, `clean`), Cli/Status (`status`, `logs`, `vm-list`),
--             Cli/Build (`vm-build`, `vm-run`; its child Bundles is `bundle-build` and `build-binary`)
--             with the texts of Cli/Templates, Cli/Install (`bundle-install`; its children are about
--             the settings that it writes) and Cli/Provision (`host-provision`, `host-mount`).
--             Cli/Parser is the options and their defaults, Cli/Main is `main` and `mount_fuse`, and
--             Cli/Main/Scripts is scripts/gate_broker.py and scripts/gate_mount.py.
--   Common    shared names, Boolean tests, and searches in lists; Tests: concrete runs.
-- The mount calls the client, the client's request is a POST, the handler calls a method of the store.
--
-- Conventions:
--   * An instant is a number of microseconds and is read where the code reads the clock, once for each
--     reading; a duration is a number of milliseconds and is not negative. `Stamp` is the type of the
--     texts of instants, with `isoformat`, `fromisoformat` and SQLite's order as parameters; that they
--     agree with the order of instants is the hypothesis `IsLawful`, used only where it is named.
--     The test `held_ms >= max_hold_ms`, made in floating point, is exact here.
--   * A step is atomic: a method of the store, or one round of the loop of `acquire`, which the code
--     runs inside `with self._cond`. The waits of the condition are not modelled: a round may come at
--     any time, which covers every timing of the notifications.
--   * `uuid4` is an input of each round. A key that is taken makes the INSERT fail.
--   * The waiting loops of Cli run on fuel; a turn takes a quarter of a second at least, so four turns
--     for each second of the limit and two more are enough. `up` gives them that many, and raises a
--     RuntimeError where a loop has none left. `await` looks at a number of rounds, and after them answers
--     that the call is `unanswered`: the mount's client has no time limit, so it would wait on. This
--     is no exception, and `open` passes it on as it is; Remote/Limits shows how many rounds are enough
--     for a call with a limit. No other function needs fuel: the loops of the code are
--     rounds, or run over a list.
--   * A method of the mount is a function from a state to an outcome and a state; an exception keeps
--     the changes made before it, and `finally` runs after both. One operation runs at a time,
--     and the two statements of `read` and of `write` are one.
--   * A command is such a function of the machine. A program that it runs is taken to be there, so it
--     fails with a CalledProcessError only; the exit of the argument parser passes by `except
--     Exception`. `argparse` gives the texts of the options under the names of their long spellings.
--   * The broker can be reached: a connection is made, and a reply is lost only when a call waits or
--     the handler raises. The times that are reckoned have texts: no duration is so long that it
--     leaves the range of `datetime`, where the code raises an OverflowError that nothing catches.
--   * The broker is the only user of its database, and its rows hold the two modes that `acquire`
--     checks.
--
-- Not modelled: the texts of CREATE TABLE, HTTP framing and the JSON format (including a null `lease_ms` and
-- values of a wrong type), the debugging prints, and of src/gate/cli.py `--version`, the progress lines of
-- a download, and the environments of the programs that it starts.
-- The systemd units and the shell scripts start what is modelled here.
pub mod Common
pub mod Effects
pub mod Store
pub mod System
pub mod Broker
pub mod Client
pub mod Remote
pub mod Fuse
pub mod Settings
pub mod Cli
pub mod Tests
