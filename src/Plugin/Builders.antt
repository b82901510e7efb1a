-- ===== src/Plugin/Builders.antt =====
-- The `build_*_job_config` functions of babel_api/src/plugin_config.rs.
use blockvisor.Common.{Bool, true, false, Option, none, some, List}
use Prim.Native.String.{String}
use blockvisor.Archive.{Compression, zstd}
use blockvisor.Jobs
use blockvisor.Jobs.{
  RestartConfig, JobType, run_sh, download, upload, multi_client_upload, multi_client_download,
  JobConfig,
}
use blockvisor.Plugin.{
  RestartPolicy, never, on_failure, Job, Service, Download, AlternativeDownload, ColdInit,
  PluginCompression, uncompressed, compressed, Upload,
}

abbrev or_else {ℓ} : {A : Type ℓ} → A → Option A → A
or_else x none = x
or_else x (some y) = y

abbrev default_restart_config : RestartConfig
default_restart_config = record {
  backoff_timeout_ms = 600000;
  backoff_base_ms = 500;
  max_retries = some 10;
}

abbrev default_service_restart : RestartConfig
default_service_restart = record {
  backoff_timeout_ms = 60000;
  backoff_base_ms = 1000;
  max_retries = none;
}

abbrev pub restart_of_job : Option RestartPolicy → Jobs.RestartPolicy
restart_of_job none = Jobs.never
restart_of_job (some never) = Jobs.never
restart_of_job (some (on_failure config)) = Jobs.on_failure config

unfoldable pub build_job_config : Job → JobConfig
build_job_config job = record {
  job_type = run_sh job.run_sh;
  restart = restart_of_job job.restart;
  shutdown_timeout_secs = job.shutdown_timeout_secs;
  shutdown_signal = job.shutdown_signal;
  needs = job.needs;
  wait_for = none;
  run_as = job.run_as;
  log_buffer_capacity_mb = job.log_buffer_capacity_mb;
  log_timestamp = job.log_timestamp;
  use_protocol_data = job.use_protocol_data;
  one_time = job.one_time;
}

-- What the configurations of transfers have in common.
abbrev transfer_config : JobType → RestartConfig → List String → JobConfig
transfer_config job_type restart_config needs = record {
  job_type = job_type;
  restart = Jobs.on_failure restart_config;
  shutdown_timeout_secs = none;
  shutdown_signal = none;
  needs = some needs;
  wait_for = none;
  run_as = none;
  log_buffer_capacity_mb = none;
  log_timestamp = none;
  use_protocol_data = none;
  one_time = none;
}

unfoldable pub build_download_job_config : Option Download → List String → JobConfig
build_download_job_config none init_jobs =
    transfer_config (download none none) default_restart_config init_jobs
build_download_job_config (some d) init_jobs =
    transfer_config (download d.max_connections d.max_runners)
      (or_else default_restart_config d.restart_config) init_jobs

abbrev restart_of_script : Option RestartConfig → Jobs.RestartPolicy
restart_of_script none = Jobs.never
restart_of_script (some config) = Jobs.on_failure config

unfoldable pub build_alternative_download_job_config : AlternativeDownload → List String → JobConfig
build_alternative_download_job_config alternative init_jobs = record {
  job_type = run_sh alternative.run_sh;
  restart = restart_of_script alternative.restart_config;
  shutdown_timeout_secs = none;
  shutdown_signal = none;
  needs = some init_jobs;
  wait_for = none;
  run_as = alternative.run_as;
  log_buffer_capacity_mb = alternative.log_buffer_capacity_mb;
  log_timestamp = alternative.log_timestamp;
  use_protocol_data = none;
  one_time = none;
}

unfoldable pub build_cold_init_job_config : ColdInit → List String → JobConfig
build_cold_init_job_config cold_init init_jobs = record {
  job_type = run_sh cold_init.run_sh;
  restart = restart_of_script cold_init.restart_config;
  shutdown_timeout_secs = none;
  shutdown_signal = none;
  needs = some init_jobs;
  wait_for = none;
  run_as = cold_init.run_as;
  log_buffer_capacity_mb = cold_init.log_buffer_capacity_mb;
  log_timestamp = cold_init.log_timestamp;
  use_protocol_data = none;
  one_time = cold_init.one_time;
}

abbrev pub when_used : Bool → List String → Option (List String)
when_used true names = some names
when_used false names = none

unfoldable pub build_service_job_config : Service → List String → List String → JobConfig
build_service_job_config service needs wait_for = record {
  job_type = run_sh service.run_sh;
  restart = Jobs.always (or_else default_service_restart service.restart_config);
  shutdown_timeout_secs = service.shutdown_timeout_secs;
  shutdown_signal = service.shutdown_signal;
  needs = when_used service.use_protocol_data needs;
  wait_for = when_used service.use_protocol_data wait_for;
  run_as = service.run_as;
  log_buffer_capacity_mb = service.log_buffer_capacity_mb;
  log_timestamp = service.log_timestamp;
  use_protocol_data = some service.use_protocol_data;
  one_time = none;
}

abbrev compression_of : Option PluginCompression → Option Compression
compression_of none = some (zstd 3)
compression_of (some (compressed level)) = some (zstd level)
compression_of (some uncompressed) = none

unfoldable pub build_upload_job_config : Option Upload → List String → JobConfig
build_upload_job_config none pre_upload_jobs =
    transfer_config (upload none (some (zstd 3)) none none none none none) default_restart_config
      pre_upload_jobs
build_upload_job_config (some u) pre_upload_jobs =
    transfer_config
      (upload u.exclude (compression_of u.compression) u.max_connections u.max_runners
        u.number_of_chunks u.url_expires_secs u.data_version)
      (or_else default_restart_config u.restart_config) pre_upload_jobs

unfoldable pub build_multi_client_upload_job_config : Option Upload → List String → JobConfig
build_multi_client_upload_job_config none pre_upload_jobs =
    transfer_config (multi_client_upload none none none none) default_restart_config pre_upload_jobs
build_multi_client_upload_job_config (some u) pre_upload_jobs =
    transfer_config
      (multi_client_upload u.max_connections u.max_runners u.url_expires_secs u.data_version)
      (or_else default_restart_config u.restart_config) pre_upload_jobs

unfoldable pub build_multi_client_download_job_config : Option Download → List String → JobConfig
build_multi_client_download_job_config none init_jobs =
    transfer_config (multi_client_download none none) default_restart_config init_jobs
build_multi_client_download_job_config (some d) init_jobs =
    transfer_config (multi_client_download d.max_connections d.max_runners)
      (or_else default_restart_config d.restart_config) init_jobs
