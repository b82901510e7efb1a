-- ===== src/Lib.antt =====
-- Verification of blockvisor, the service that runs blockchain nodes on a host.
--
-- A node runs jobs, under the control of babel (babel/src). Two kinds of job move archives of the
-- protocol's data: an upload splits the files of a directory into chunks and sends each of them to a
-- store, and a download fetches the chunks of a manifest and writes them into files. A manager starts
-- jobs when the jobs that they need have finished, and again when their runners have ended.
--
-- - Common: the shared names, lists and numbers, outcomes of calls on fuel, and maps as lists.
-- - Archive: the data of babel_api/src/engine.rs. Archive/Bytes sees file locations as lists of bytes,
--   and Archive/Files is what a transfer sees of a file system.
-- - Coder: the interface of babel/src/compression.rs and its instance without compression. The zstd
--   coders are those of a crate, and are parameters.
-- - Retry: `with_retry!` of bv_utils/src/lib.rs.
-- - Upload: babel/src/upload_job.rs and `sources_list` of babel/src/utils.rs. Upload/Sources and
--   Upload/Destinations are used by Upload/Blueprint, which is `prepare_manifest_blueprint`;
--   Upload/Reader is `DestinationsReader`, which reads a chunk of the blueprint; Upload/Slots and
--   Upload/Parallel are the loop of `Uploader::run` over the chunks.
-- - Download: babel/src/download_job.rs. Download/Destinations is `DestinationsIter` and
--   `send_to_writer`, Download/Parts is the rest of `ChunkDownloader`. Download/Parallel schedules the
--   chunks, for both kinds of downloader, Download/Writer is `Writer`, which writes what the chunk
--   downloaders send through one channel, and Download/Metadata is the directory of the job.
-- - Roundtrip: upload and download together, and in Roundtrip/Stored the files that are written.
-- - Jobs: babel/src/jobs.rs. JobsManager: babel/src/jobs_manager.rs, with the manager's rounds in
--   JobsManager/Rounds and the client's requests in JobsManager/Requests. A call or a round holds the
--   lock of the jobs, and is one step on the map of the jobs.
-- - Backoff: `Backoff` of babel/src/utils.rs, `JobBackoff` and `ArchiveJobRunner` of
--   babel/src/job_runner.rs.
-- - Firewall: bv/src/ufw_wrapper.rs, which replaces the rules of a node, and bv/src/firewall.rs.
--   Firewall/Wanted is independent of the code: how ufw reads a command, and which commands the rules of
--   a configuration ask for. The program ufw is a parameter.
-- - CpuRegistry: bv/src/cpu_registry.rs, the cores that are given to nodes.
-- - NodeState: bv/src/node_state.rs. Node: the start and the stop of bv/src/node.rs; Node/Attempt is
--   `try_upgrade`, which takes cores of CpuRegistry, Node/Rollback is `rollback`, Node/Upgrade is
--   `upgrade`, and Node/Update is `update`. Node/Recovery is `recover`, with the backoff of
--   bv/src/linux_platform.rs, and Node/Lifecycle is how nodes are created, deleted and found again.
-- - Scheduler: bv/src/scheduler.rs, the tasks that plugins schedule. The schedules of the crate cron are a
--   parameter, and Scheduler/Times is what is relied on.
-- - Plugin: babel_api/src/plugin_config.rs and the start and the upload of a node of
--   babel_api/src/rhai_plugin.rs, which create the jobs that JobsManager starts. Plugin/Validation is
--   the check of a configuration, Plugin/Builders makes jobs of it, and Plugin/Defaults creates them:
--   at the start of a node, around an upload, and where the configuration has changed.
-- - Examples: the theorems at concrete inputs.
--
-- Loops that the source ends by a condition are on fuel, which is set by their callers:
-- `build_loop` has two rounds more than there are files and `read_loop` three more, since each other
-- round uses a file up; `next_loop` and `stream` have more rounds than there are bytes, and
-- `download_loop` has one more than the chunk has bytes, since each other round reads a byte;
-- `send_loop` has two more than there are destinations, and each `launch_loop` as many as chunks wait.
-- `turn` of Scheduler has one round more than there are units of time from the last round to now.
-- Numbers are natural numbers; a sum that wraps around in the source is taken `% 2 ^ 64`.
--
-- Not modelled: the start and the end of an upload around its loop, the loading of jobs at startup, the
-- manager of the nodes, the host's services, and the interpreter of plugin scripts. File systems,
-- servers, digests, the serialization of a status, processes and the time are parameters.
pub mod Common
pub mod Archive
pub mod Coder
pub mod Upload
pub mod Retry
pub mod Download
pub mod Roundtrip
pub mod Jobs
pub mod JobsManager
pub mod Backoff
pub mod Firewall
pub mod CpuRegistry
pub mod Scheduler
pub mod Plugin
pub mod Node
pub mod NodeState
pub mod Examples
