-- ===== src/Lib.antt =====
-- orchd is one Go daemon (orchestrator/cmd/orchd) that keeps the workloads of many projects on one
-- box: it stores their records, wakes a workload for the request that needs it, suspends it when it
-- is idle, evicts the projects that were not used for long, routes requests, and counts traffic for
-- billing. This development models its Go code under orchestrator/internal.
--
-- The parts, and the files that model them:
-- * Store/ is store/store.go. `MemStore` is memStore, with each Go map a `Table` (Table.antt, an
--   association list read by `lookup`); each method that takes the lock is one function, and `Op`
--   and `call` are the interface Store as a step. Store/Records has the data, Store/Mem the methods
--   that change the state, Store/Query those that read, Store/Reopen openWith. Persister.Load and
--   Save with json.MarshalIndent are the parameters `load` and `save` over any type of disks.
-- * Manager/ is manager/manager.go and manager/eviction.go, over a store and a driver. Manager/State
--   has Manager, the maps live, unowned and activityPersist, and `Runtime`, the driver of
--   runtime/runtime.go, which is a parameter: any type of hosts with Status, Start, Create, Suspend
--   and Stop. Manager/Lifecycle has EnsureRunning, RunningAddr, StartWorkload, StopWorkload,
--   RestartWorkload, provision, their project-wide forms, SetKeepWarm and WakeKeepWarm;
--   Manager/Reaper has ReapIdle and reconcileStates; Manager/Eviction and Manager/Evict have
--   ReapLRU; Manager/Routes has AddRoute, RemoveRoute, ResolveHost, ResolveKey,
--   DeleteProject and DeleteWorkload; Manager/Regions has the regions; Manager/Create and
--   Manager/Register have CreateProject and registerWorkload, with what is random as the parameter
--   `Supply`. A method that holds a workload's lock is one step.
-- * Manager/Vault, Manager/Dumps, Manager/Schedule and Manager/Coverage are manager/dump.go and
--   manager/schedule.go: the dumps of databases and their seals, what is due, a sweep, the coverage
--   report and the drain. The files of the workloads, the backup store, the clock and the exports
--   are the parameter `Vault`. Manager/Reset has ResetWorkload and RestoreWorkloadWith, with what
--   fills a data directory as the parameter `Tree`.
-- * Manager/Images is the part of manager/image.go that chooses, collects and deletes versions.
-- * Manager/Interpolate is manager/interpolate.go, the references in environments; "%d" is a
--   parameter.
-- * Drivers/ has drivers of runtime/. Drivers/Mock is MockDriver of runtime/mock.go and
--   Drivers/Mux is Mux of runtime/mux.go, with the microVMs as the parameter `Pilot`.
--   Drivers/Machine and Drivers/Firecracker are FirecrackerDriver of runtime/firecracker.go
--   (Create, Start, Suspend, Compact, Stop, Delete, Status), with commands, processes and the
--   API of a VMM as the parameter `Machine`; Drivers/Admission is its defaults, admit and
--   admitDone as a step relation, and Drivers/Thin the device ids and addresses of
--   runtime/fc_host.go (nextDevID, highWaterMark, allocate, nsIP, hostIP), with the commands of
--   the pool as the parameter `Store`. The 32 attempts of allocate are the code's.
-- * Api/RateLimit is the token bucket of api/ratelimit.go, Api/Auth the gate of every request
--   (auth, presentedKey, resolveKey, isReadMethod, tlsAllow) and Api/Projects createProject of
--   api/api.go, where the workloads that a template or an image describes are parameters;
--   Manager/Keys has the keys that they ask for (CreateAPIKey, ListAPIKeys, ValidateStoredKey),
--   with sha256 as the parameter hash_key.
-- * Config/Env and Config/Load are config/config.go: the readers of environment variables, Load
--   and Validate, with the environment and the parsers of numbers as the parameter `System`.
-- * Gateway/Routing is gateway/gateway.go: hostOnly, parseSubroute, resolveAlias, lookupHost and
--   resolve, which ask the manager's ResolveHost and ResolveKey.
-- * Metering/ is metering/meter.go, metering/writer.go and metering/reporter.go. Metering/Counters
--   and Metering/Meter have the sharded buckets with Record and Drain, Metering/Writer the response
--   writer that counts one request, Metering/Reporter the outbox with collect, prune and send; the
--   receiver's answers, the clock and the new ids are parameters.
-- * Backup/Names is the part of backup/store.go that makes and reads ids and file names,
--   Backup/Local its LocalStore over a disk of directories and files, and Backup/Multi the
--   MultiStore of backup/multi.go over any stores. The calls of the Manager take a store as a
--   part of `Vault`.
-- * Events/Sink is MemorySink of events/events.go, the activity feed.
-- * Prelude.antt and Table.antt have what these share. Examples/ has runs on concrete inputs.
--
-- Numbers: times, ports and counts are natural numbers; the counters of 64 bits are kept modulo
-- 2 ^ 64; Go's signed int is `Prelude.Int.ℤ` where a sign is tested. A time is a count from some
-- start, and Go's zero time is 0. Texts are lists of bytes; ToLower and TrimSpace are those of ASCII.
-- Loops are recursion on the list they go through. Only the reporter's send runs on fuel: one round
-- more than the outbox has aggregates, which is enough since a round that does not stop the loop
-- takes at least one aggregate off it.
--
-- The float64 counts of the token bucket are exact numbers here: parts of a token, of which one has
-- 6 * 10 ^ 10. The search for a port runs through the 2000 ports that allocHostPort tries.
--
-- Not modelled: the other handlers of the HTTP API (api/api.go), which decode a request, call
-- the manager and encode its answer; the drivers that call docker and processes
-- (runtime/docker.go, local.go and what they use); of the firecracker driver logs, files,
-- statistics, images, ensureStorage and the rules of the network; the bytes of archives and the
-- S3 store (backup/tar.go, s3.go, sigv4.go), the building of images, and templates (the rest of
-- manager/image.go, template), the reprovision webhook (manager/reprovision.go, wake_check.go),
-- webhooks and metrics, and the persisters' files and databases. Of the modelled parts, events,
-- logs and directories are left out. Nothing is stated of the mux over FirecrackerDriver: in its
-- model, two VMs may have the same pid. A request that is hijacked is not followed through its
-- connection, and names of network namespaces, which two VMs may share, are not part of what is
-- stated of networks. Two calls that interleave within one method are not modelled; the suspends
-- of one ReapIdle, which run at the same time for different workloads, are taken one after
-- another. The loops of a sweep and of a drain are taken to their end: the cancellation of their
-- context is left out.
pub mod Api
pub mod Backup
pub mod Config
pub mod Drivers
pub mod Events
pub mod Examples
pub mod Gateway
pub mod Manager
pub mod Metering
pub mod Prelude
pub mod Store
pub mod Table
