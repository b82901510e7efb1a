-- ===== src/Plugin/Validation.antt =====
-- `PluginConfig::validate` of babel_api/src/plugin_config.rs.
use blockvisor.Common.{
  Bool, true, false, ◌&&◌, Option, none, some, List, [], ◌∷◌, map, if◌then◌else◌,
}
use Prim.Native.String.{String}
use text.Mathlib.Text
use blockvisor.Common.Outcome.{Outcome, ok, err, ◌>>=◌}
use blockvisor.Plugin.{
  Job, Service, AuxService, Task, Actions, PluginConfig, download_job_name, upload_job_name,
}
use blockvisor.Plugin.Names.{mem, is_store_key, is_data_dir}
pub mod Unique
pub mod Decides

pub data ConfigError : Type 0 where
  scheduled_not_unique : ConfigError
  aux_services_not_unique : ConfigError
  init_not_unique : ConfigError
  post_download_not_unique : ConfigError
  services_not_unique : ConfigError
  pre_upload_not_unique : ConfigError
  post_upload_not_unique : ConfigError
  missing_store_key : String → ConfigError
  invalid_data_dir : String → String → ConfigError
  invalid_store_key : String → String → ConfigError

abbrev pub items_of {ℓ} : {A : Type ℓ} → Option (List A) → List A
items_of none = []
items_of (some items) = items

abbrev pub names_of_jobs : List Job → List String
names_of_jobs jobs = map (λ (job : Job). job.name) jobs

abbrev pub names_of_services : List Service → List String
names_of_services services = map (λ (service : Service). service.name) services

abbrev pub names_of_aux_services : Option (List AuxService) → List String
names_of_aux_services services = map (λ (service : AuxService). service.name) (items_of services)

abbrev pub names_of_tasks : Option (List Task) → List String
names_of_tasks tasks = map (λ (task : Task). task.name) (items_of tasks)

abbrev pub names_of_actions : Option Actions → List String
names_of_actions none = []
names_of_actions (some actions) = names_of_jobs actions.jobs

-- `all(|name| unique.insert(name))`: the set with the names, or an error where one is there already.
abbrev pub insert_all : ConfigError → List String → List String → Outcome ConfigError (List String)
insert_all error names [] = ok names
insert_all error names (name ∷ rest) =
    if mem name names then err error else insert_all error (name ∷ names) rest

abbrev pub check_store_key : Service → Option String → Outcome ConfigError (Unit {0})
check_store_key service none = ok tt
check_store_key service (some key) =
    if is_store_key key then ok tt else err (invalid_store_key service.name key)

abbrev pub check_data_dir : Service → Option String → Outcome ConfigError (Unit {0})
check_data_dir service none = ok tt
check_data_dir service (some dir) =
    if is_data_dir dir then ok tt else err (invalid_data_dir service.name dir)

abbrev pub is_none {ℓ} : {A : Type ℓ} → Option A → Bool
is_none none = true
is_none (some x) = false

abbrev pub check_service : Service → Outcome ConfigError (Unit {0})
check_service service =
    if service.archive && is_none service.store_key
    then err (missing_store_key service.name)
    else (check_data_dir service service.data_dir >>= λ done.
        check_store_key service service.store_key)

abbrev pub check_services : List Service → Outcome ConfigError (Unit {0})
check_services [] = ok tt
check_services (service ∷ services) = check_service service >>= λ done. check_services services

-- The names that jobs have before those of the configuration.
abbrev pub reserved_names : List String
reserved_names = download_job_name ∷ upload_job_name ∷ []

unfoldable pub validate : PluginConfig → Outcome ConfigError (Unit {0})
validate config = insert_all scheduled_not_unique [] (names_of_tasks config.scheduled) >>= λ tasks.
    insert_all aux_services_not_unique reserved_names (names_of_aux_services config.aux_services)
    >>= λ unique. insert_all init_not_unique unique (names_of_actions config.init) >>= λ unique.
        insert_all post_download_not_unique unique (names_of_jobs (items_of config.post_download))
        >>= λ unique.
            insert_all services_not_unique unique (names_of_services config.services) >>= λ unique.
            check_services config.services >>= λ done.
            insert_all pre_upload_not_unique unique (names_of_actions config.pre_upload)
            >>= λ unique.
                insert_all post_upload_not_unique unique
                  (names_of_jobs (items_of config.post_upload))
                >>= λ unique. ok tt
