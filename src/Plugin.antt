-- ===== src/Plugin.antt =====
-- The configuration of a plugin (babel_api/src/plugin_config.rs): what it declares, its validation, and
-- the jobs that are made of it; and the parts of babel_api/src/rhai_plugin.rs that create these jobs.
-- What the interpreter of plugin scripts does is not modelled.
use blockvisor.Common.{ℕ, ◌-◌, Bool, Option, List}
use Prim.Native.String.{String}
use blockvisor.Jobs.{RestartConfig}
pub mod Builders
pub mod Names
pub mod Validation
pub mod Init
pub mod Defaults
pub mod Created
pub mod Calls
pub mod Stops
pub mod Resumes
pub mod Waits

-- The parameters of a template are passed on as the text that they are serialized to.
pub record ConfigFile : Type 0 where
  pub template : String
  pub destination : String
  pub params : String

pub record AuxService : Type 0 where
  pub name : String
  pub run_sh : String
  pub restart_config : Option RestartConfig
  pub shutdown_timeout_secs : Option ℕ  -- u64
  pub shutdown_signal : Option String
  pub run_as : Option String
  pub log_buffer_capacity_mb : Option ℕ  -- usize
  pub log_timestamp : Option Bool

pub record Task : Type 0 where
  pub name : String
  pub schedule : String
  pub function : String
  pub param : Option String

pub data RestartPolicy : Type 0 where
  never : RestartPolicy
  on_failure : RestartConfig → RestartPolicy

pub record Job : Type 0 where
  pub name : String
  pub run_sh : String
  pub restart : Option RestartPolicy
  pub shutdown_timeout_secs : Option ℕ  -- u64
  pub shutdown_signal : Option String
  pub needs : Option (List String)
  pub run_as : Option String
  pub log_buffer_capacity_mb : Option ℕ  -- usize
  pub log_timestamp : Option Bool
  pub use_protocol_data : Option Bool
  pub one_time : Option Bool

pub record Actions : Type 0 where
  pub commands : List String
  pub jobs : List Job

pub record Service : Type 0 where
  pub name : String
  pub run_sh : String
  pub restart_config : Option RestartConfig
  pub shutdown_timeout_secs : Option ℕ  -- u64
  pub shutdown_signal : Option String
  pub run_as : Option String
  pub use_protocol_data : Bool
  pub log_buffer_capacity_mb : Option ℕ  -- usize
  pub log_timestamp : Option Bool
  pub data_dir : Option String
  pub store_key : Option String
  pub archive : Bool

pub record Download : Type 0 where
  pub restart_config : Option RestartConfig
  pub max_connections : Option ℕ  -- usize
  pub max_runners : Option ℕ  -- usize

pub record AlternativeDownload : Type 0 where
  pub run_sh : String
  pub restart_config : Option RestartConfig
  pub run_as : Option String
  pub log_buffer_capacity_mb : Option ℕ  -- usize
  pub log_timestamp : Option Bool

pub record ColdInit : Type 0 where
  pub run_sh : String
  pub restart_config : Option RestartConfig
  pub run_as : Option String
  pub log_buffer_capacity_mb : Option ℕ  -- usize
  pub log_timestamp : Option Bool
  pub one_time : Option Bool

-- The level of the compression, an i32, is passed on.
pub data PluginCompression : Type 0 where
  uncompressed : PluginCompression
  compressed : ℕ → PluginCompression

pub record Upload : Type 0 where
  pub restart_config : Option RestartConfig
  pub exclude : Option (List String)
  pub compression : Option PluginCompression
  pub max_connections : Option ℕ  -- usize
  pub max_runners : Option ℕ  -- usize
  pub number_of_chunks : Option ℕ  -- u32
  pub url_expires_secs : Option ℕ  -- u32
  pub data_version : Option ℕ  -- u64

pub record PluginConfig : Type 0 where
  pub config_files : Option (List ConfigFile)
  pub aux_services : Option (List AuxService)
  pub init : Option Actions
  pub download : Option Download
  pub alternative_download : Option AlternativeDownload
  pub post_download : Option (List Job)
  pub cold_init : Option ColdInit
  pub services : List Service
  pub pre_upload : Option Actions
  pub upload : Option Upload
  pub post_upload : Option (List Job)
  pub scheduled : Option (List Task)

abbrev pub download_job_name : String
download_job_name = "download"

abbrev pub cold_init_job_name : String
cold_init_job_name = "download"

abbrev pub upload_job_name : String
upload_job_name = "upload"
