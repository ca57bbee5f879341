-- ===== src/Lib.antt =====
-- PortCloak: captures a Keycloak realm from wherever the server runs, keeps it as a snapshot in a
-- storage, and restores it elsewhere. The engine (internal/engine) is what this library models: the
-- front ends (internal/app, internal/cli, internal/desktop) call it.
--
-- The parts that are modelled, and how they meet:
--
-- * Resil is internal/engine/resil, through which every remote call goes. Resil/Errors.antt is errors.go:
--   the error type as a data type of chains, and its classification. Resil/Breaker.antt is the circuit
--   breaker and the registry of doer.go, Resil/Retrier.antt its `Retrier.Do` (`run_op` here). The clock, the
--   context, the jitter, the sleep and the operation are functions on a state of the caller's.
-- * Config is internal/engine/config. Config/Model.antt holds the types of model.go and keys.go,
--   Config/Preferences.antt the defaults, Config/Readiness.antt readiness.go, and Config/Validate.antt with
--   its modules validate.go. Config/Store.antt is the store of config.yaml with its `Update` and
--   Config/Files.antt the write beside a file and the rename into its place (store.go). Config/Crud.antt
--   and its modules are the operations on entries (crud.go, keys.go), each an edit that `Update`
--   applies to a copy of the configuration. The copy shares the array of its keys with the store; what an
--   edit of keys leaves in that array is an argument of `update_in_place` (Config/Crud/Keys.antt).
--   Config/Jobs.antt is the record of a job, and Config/Jobs/Store.antt the folder of records
--   (jobs.go), where a job that a dead process left behind is adopted and an entry in use is found.
--   Config/Credentials.antt is the stores of secrets (credentials.go).
--
-- * Kc is internal/engine/kc: the command lines of kc.sh, what an export directory holds
--   (Kc/Layout.antt), and what a failure means (Kc/Failure.antt).
-- * Snapshot is internal/engine/snapshot: the checksum tree and its verification (integrity.go), and in
--   Snapshot/Builder.antt the leaves a builder keeps (packer.go), in Snapshot/Ids.antt the identifier of a
--   snapshot (envelope.go). SHA-256 is a parameter.
-- * Blobs is internal/engine/store/store.go: the contract of a storage backend, and in Blobs/Layout.antt the
--   layout of keys and the grouping of a listing into snapshots, in Blobs/Progress.antt the writer that
--   counts a transfer and reports its checkpoints. Blobs/Disk.antt is the backend on a folder
--   (disk/disk.go): its write to a partial file, which goes on after an interruption (Blobs/Disk/Resume.antt)
--   and is renamed into place. Reliable is internal/engine/reliable:
--   backends and target adapters whose operations are carried out by `run_op`.
-- * Orchestrator is internal/engine/orchestrator: how a job ends, what its reporter announces and what a
--   resume would do (orchestrator.go, resume.go), and in Orchestrator/Capture.antt the batch of captures that
--   shares one execution context, with its teardown (capture.go). Orchestrator/Request.antt is the request
--   that becomes such a batch, whose encryption is checked by Crypto (internal/engine/crypto/crypto.go).
--   Records are saved in the folder of Config/Jobs/Store.antt. Orchestrator/Restore.antt is a restore
--   (restore.go): its gates, the dry run (Restore/Preview.antt), the import by the Admin API or through kc.sh
--   (Restore/Import.antt), and the validation after it (Restore/Report.antt); Restore/Queue.antt is the request. The session that opens a
--   snapshot, the destination, the adapter and kc.sh are parameters (Restore/Steps.antt).
-- * Clone is internal/engine/target/clone: the executor that runs kc.sh in an ephemeral clone of the workload,
--   from Prepare to Teardown, over a platform that is a parameter. Clone/Derivation.antt has its types and
--   what it derives, Clone/Labels.antt the labels of a clone, Clone/Owner.antt the owner of what is pushed.
-- * Manifest is internal/engine/manifest/model.go, as far as a restore and the library read it: the
--   verdict on a snapshot, and the key that decides whether tokens still verify; Manifest/Ledger.antt is the
--   ledger of secrets.
--
-- State is passed explicitly: a method takes what it may change and returns it beside its result. A
-- method of Resil and Config that is modelled holds its mutex from its first line to its last, so it is one
-- step. A batch of the orchestrator is one sequence of calls: batches that run at once are not interleaved.
-- A call of the operating system may fail where the environment says so (`Faults`); a directory is a
-- dictionary from names to contents. Times and durations are in nanoseconds, on numbers without bound,
-- but for the shift of the backoff, which wraps on 64 bits as in the code; a key shows minutes and an
-- identifier milliseconds, so their times are in those.
--
-- The loop of `Do` recurs on the attempts that are left, of which `New` grants at least one. `uniqueName`
-- tries one candidate more than there are entries: the candidates differ, so one of them is free. The
-- decimal form of n has at most n + 1 digits. The letters of an identifier recur on the number of bits
-- that are left, of which each letter takes five.
--
-- A pointer to a jump host keeps its address, since the code compares entries by a printed form that
-- shows it; `cloneConfig` takes new addresses. `encoding/json` and `yaml.v3` are parameters; where a
-- theorem relies on reading back what was written, that is a hypothesis of its section. In the
-- operations on entries the keychain is a dictionary of secrets that may refuse a removal; in
-- Config/Credentials.antt it stands on a keyring that is a parameter.
--
-- Not modelled: the decoding of config.yaml and the lines of its problems, the lock and the moves of the home
-- folder (internal/engine/config/lock.go, location.go); the archive of a snapshot and its
-- encryption itself, the building of a manifest, the other storage backends, Probe, Get and List of
-- the one on a folder, and the platforms of the target adapters themselves, the parsing of kc.sh's output by regular expressions;
-- of the orchestrator the passes over one realm of a capture, which are parameters of the batch, and the
-- resumed upload; the admin client, inspection and logging (the other folders of
-- internal/engine), which stand on services and libraries outside the repository or on the parts above; and
-- the front ends.
pub mod Base
pub mod Resil
pub mod Config
pub mod Kc
pub mod Snapshot
pub mod Blobs
pub mod Reliable
pub mod Crypto
pub mod Clone
pub mod Manifest
pub mod Orchestrator
