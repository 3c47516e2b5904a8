-- ===== src/Lib.antt =====
-- Verification of unoq_ota, the over-the-air updater of a board whose Linux side flashes its MCU over
-- SWD.
--
-- The program. `Agent.run_once` (unoq_ota/agent.py) makes one update cycle: it asks a source for an
-- update, checks preflight conditions, downloads and verifies the artifact, asks a gate, flashes,
-- probes the health of the MCU, swaps the host's files, and commits or rolls back. `StateStore`
-- (unoq_ota/state.py) keeps what must survive a power cut, `verify_manifest` (unoq_ota/verify.py) says
-- what may be trusted, `load_artifact` (unoq_ota/artifact.py) what may be flashed. At boot, `reconcile`
-- (unoq_ota/reconciler.py) tries the images on disk until one is alive, on its own. The jobs runner
-- (unoq_ota/jobs_runner.py) makes a cycle for each job that the cloud sends. The command line
-- (unoq_ota/cli.py) puts these together with a source (unoq_ota/sources), a gate (unoq_ota/gates) and the
-- event journal (unoq_ota/events.py). An operator makes the manifests with tools/sign-artifact.py.
--
-- The files.
--   Prelude           integers, lists, dictionaries and Boolean tests
--   Outcome           what Python code gives that may raise, with the exception classes handled
--   Python            JSON values, and the calls of Python's library as a parameter
--   Interfaces        the records that unoq_ota/interfaces.py declares
--   Board             unoq_ota/board.py: the core directory and the flash target in its boards.txt
--   Artifact          unoq_ota/artifact.py
--   State             unoq_ota/state.py: sanitizing, load, and what save writes
--   Preflight         unoq_ota/preflight.py
--   Verify            unoq_ota/verify.py
--   Agent             unoq_ota/agent.py. World: the files, the state file and the trace of calls, and the
--                     injected collaborators, which may answer anything. Cycle: code that acts on
--                     the world and may raise, where what was done before a raise stays done. Store: the
--                     methods of `StateStore` on the world. Fetch, Install, Rollback: `run_once`, one
--                     definition for each stage and one for each continuation of a `try`.
--                     Discipline: the points that a cycle passes, with the obligations at each, and the
--                     way that each stage moves between them; Safety has one discipline per file.
--                     Commit: what the commit step leaves on disk.
--   Reconciler        unoq_ota/reconciler.py
--   Health            unoq_ota/health/version_report.py, from the lines that the monitor gave
--   Host              unoq_ota/host.py, as the list of changes made in turn to four directories
--   Jobs              unoq_ota/jobs_doc.py, and unoq_ota/jobs_runner.py less the SDK
--   Flasher           unoq_ota/flasher.py: a sketch written, a partition read, the router's window
--   Keyring           unoq_ota/keyring.py: the keys that a directory provides, which Verify looks up
--   Credentials       unoq_ota/iot_credentials.py, from the provider's answer on
--   Sign              tools/sign-artifact.py and unoq_ota/kms_sign.py: what an operator publishes
--   Events            unoq_ota/events.py: the journal, and the posts to the report server. Lines: the
--                     lines of a file; Flush: one flush; Delivery: one record, against a queue
--   Sources           unoq_ota/sources: the three sources, the capped downloads, the report wrapper
--   Net               unoq_ota/net.py and unoq_ota/gates: the default route and the cellular gate
--   Dns               unoq_ota/dns.py: the rewrite of resolv.conf
--   Cli               unoq_ota/cli.py, with the wrapper of unoq_ota/jobs_runner.py that it puts around
--                     the agent: the `jobs` command; Commands: fetching, building the agent, and the
--                     rest
--   Tests             runs at concrete inputs
--
-- Numbers. Python's integers are unbounded: sequences are integers, sizes and bytes natural numbers.
-- Nothing runs on fuel: `run_cycles` takes the number of cycles that were made, and the loops go over
-- lists.
--
-- Parameters. Cryptography, base64, dates, JSON text, `int()`, regular expressions, tar archives, path
-- resolution, the file system's refusals, the network, the clock, SWD and systemctl: what they answer is
-- an argument, and an answer may depend on all that was done before. The hypotheses on them are that
-- `json.loads` undoes `json.dumps`, that saving works (only where it is stated), and that `is_file` raises
-- nothing but an `OSError`; for signing, that base64 is undone by its decoder and a digest is not empty;
-- for the journal, that a file is appended to as a whole or not at all, is read back as it is, and that the
-- offset is written; for resolv.conf, that joined lines split into the same lines.
--
-- Left out. Messages are abbreviated where they quote values, and log lines are not kept. Exceptions
-- outside `Exception` and a crash in the middle of a cycle are not followed, except in Host. The
-- agent's `is_file` does not raise. A file of the state directory is absent or holds bytes. The client
-- of the jobs loop sends without raising. Closing the file of a download does not raise. Listing the
-- keys does not raise. Key generation, the SDK's client, the printed text of `status` and the
-- declarations of command-line options are not modelled. An address in boards.txt is not negative.
pub mod Prelude
pub mod Outcome
pub mod Python
pub mod Interfaces
pub mod Board
pub mod Artifact
pub mod State
pub mod Preflight
pub mod Verify
pub mod Sign
pub mod Events
pub mod Sources
pub mod Net
pub mod Dns
pub mod Cli
pub mod Agent
pub mod Reconciler
pub mod Jobs
pub mod Flasher
pub mod Keyring
pub mod Credentials
pub mod Host
pub mod Health
pub mod Tests
