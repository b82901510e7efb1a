-- ===== src/Plugin/Created/Whole.antt =====
-- The whole of `default_init` (babel_api/src/rhai_plugin.rs): which jobs it creates, and in which order.
use blockvisor.Common.{
  ℕ, ◌≡◌, refl, sym, subst, Bool, true, false, Option, none, some, List, [], ◌∷◌, append-nil, All,
  any,
}
use Prim.Native.String.{String}
use blockvisor.Jobs.{JobConfig, waiting_for}
use blockvisor.Plugin.{
  Task, Download, AlternativeDownload, ColdInit, PluginConfig, download_job_name,
  cold_init_job_name,
}
use blockvisor.Plugin.Builders.{
  build_alternative_download_job_config, build_cold_init_job_config,
  build_multi_client_download_job_config,
}
use blockvisor.Plugin.Validation.{items_of}
use blockvisor.Plugin.Init.{
  stopped_all, Engine, and_then, done, call, is_multi_client, create_and_start_job, run_jobs,
  run_actions, render_configs_files, start_services, start_aux_services,
}
use blockvisor.Plugin.Defaults.{
  download_with, cold_init_or_none, alternative_or_cold, by_stamp, download_phase, tasks_or_none,
  init_config, default_init,
}
use blockvisor.Plugin.Created.{is_single, AllKnown, Ordered, Good}
use blockvisor.Plugin.Created.Order.{
  and_then-Good, done-Good, Grown, call-Good, GrownNames, Created, create_and_start_job-Good,
  DeclaredNeeds, run_jobs-Good,
}
use blockvisor.Plugin.Created.Runs.{
  jobs_of_actions, grow, grow_names, then-Good, run_actions-Good, render_configs_files-Good,
  add_tasks-Good, start_services-Good, start_aux_services-Good,
}

-- What the jobs of the first start need of their own is declared.
pub record Declares (declared : List String) (config : PluginConfig) : Type 0 where
  pub init : All (DeclaredNeeds declared) (jobs_of_actions config.init)
  pub post_download : All (DeclaredNeeds declared) (items_of config.post_download)

-- A builder of a job that needs what it is given, and is not a transfer for the whole node.
record Needing (build : List String → JobConfig) : Type 0 where
  needs : (names : List String) → waiting_for (build names) ≡ names
  single : (names : List String) → is_single (build names).job_type ≡ false

multi_client-Needing :
    (download : Option Download) → Needing (build_multi_client_download_job_config download)
unfolding waiting_for build_multi_client_download_job_config
multi_client-Needing none = record { needs = append-nil; single = λ names. refl }
multi_client-Needing (some d) = record { needs = append-nil; single = λ names. refl }

alternative-Needing :
    (alternative : AlternativeDownload)
    → Needing (build_alternative_download_job_config alternative)
unfolding waiting_for build_alternative_download_job_config
alternative-Needing alternative = record { needs = append-nil; single = λ names. refl }

cold_init-Needing : (cold_init : ColdInit) → Needing (build_cold_init_job_config cold_init)
unfolding waiting_for build_cold_init_job_config
cold_init-Needing cold_init = record { needs = append-nil; single = λ names. refl }

module _ (declared : List String) (engine : Engine) where
  create-Good :
      (build : List String → JobConfig) (name : String) (seen needs : List String)
      → Needing build
      → AllKnown declared seen needs
      → Good declared seen
          (Created declared seen name)
          (create_and_start_job engine name (build needs))
  create-Good build name seen needs n h =
      create_and_start_job-Good declared engine seen name (build needs)
        (subst (AllKnown declared seen) (sym (n.needs needs)) h) (n.single needs)

  download_with-Good :
      (config : PluginConfig) (build : List String → JobConfig) (seen needs : List String)
      → Declares declared config
      → Needing build
      → AllKnown declared seen needs
      → Good declared seen (GrownNames declared seen) (download_with engine config build needs)
  download_with-Good config build seen needs d n h =
      and_then-Good declared (Created declared seen download_job_name) (GrownNames declared seen)
        seen (create_and_start_job engine download_job_name (build needs))
        (λ u. run_jobs engine config.post_download (download_job_name ∷ []))
        (create-Good build download_job_name seen needs n h)
        (λ u seen' (extends, there).
          grow_names declared engine seen seen'
            (run_jobs engine config.post_download (download_job_name ∷ [])) extends
            (run_jobs-Good declared engine config.post_download seen' (download_job_name ∷ [])
              d.post_download (there, tt)))

  cold_init-Good :
      (cold_init : Option ColdInit) (seen needs : List String)
      → AllKnown declared seen needs
      → Good declared seen (GrownNames declared seen) (cold_init_or_none engine cold_init needs)
  cold_init-Good none seen needs h =
      done-Good declared (GrownNames declared seen) seen needs ((λ n k. k), h)
  cold_init-Good (some cold_init) seen needs h =
      and_then-Good declared (Created declared seen cold_init_job_name) (GrownNames declared seen)
        seen
        (create_and_start_job engine cold_init_job_name
          (build_cold_init_job_config cold_init needs))
        (λ u. done (cold_init_job_name ∷ []))
        (create-Good (build_cold_init_job_config cold_init) cold_init_job_name seen needs
          (cold_init-Needing cold_init) h)
        (λ u seen' (extends, there).
          done-Good declared (GrownNames declared seen) seen' (cold_init_job_name ∷ [])
            (extends, (there, tt)))

  alternative-Good :
      (config : PluginConfig) (alternative : Option AlternativeDownload) (seen needs : List String)
      → Declares declared config
      → AllKnown declared seen needs
      → Good declared seen
          (GrownNames declared seen)
          (alternative_or_cold engine config alternative needs)
  alternative-Good config none seen needs d h = cold_init-Good config.cold_init seen needs h
  alternative-Good config (some alternative) seen needs d h =
      download_with-Good config (build_alternative_download_job_config alternative) seen needs d
        (alternative-Needing alternative) h

  by_stamp-Good :
      (config : PluginConfig) (stamp : Option (Option ℕ)) (seen needs : List String)
      → Declares declared config
      → AllKnown declared seen needs
      → Good declared seen (GrownNames declared seen) (by_stamp engine config stamp needs)
  by_stamp-Good config none seen needs d h = record { ordered = tt; returns = tt }
  by_stamp-Good config (some none) seen needs d h =
      alternative-Good config config.alternative_download seen needs d h
  by_stamp-Good config (some (some stamp)) seen needs d h =
      done-Good declared (GrownNames declared seen) seen needs ((λ n k. k), h)

  download_phase-Good :
      (config : PluginConfig) (multi_client : Bool) (seen needs : List String)
      → Declares declared config
      → AllKnown declared seen needs
      → Good declared seen
          (GrownNames declared seen)
          (download_phase engine config multi_client needs)
  download_phase-Good config true seen needs d h =
      download_with-Good config (build_multi_client_download_job_config config.download) seen needs
        d (multi_client-Needing config.download) h
  download_phase-Good config false seen needs d h =
      by_stamp-Good config engine.protocol_data_stamp seen needs d h

  tasks-Good :
      (tasks : Option (List Task)) (seen : List String)
      → Good declared seen (Grown declared seen) (tasks_or_none engine tasks)
  tasks-Good none seen = done-Good declared (Grown declared seen) seen tt (λ n h. h)
  tasks-Good (some tasks) seen = add_tasks-Good declared engine tasks seen

  -- The services, and the tasks.
  services-Good :
      (config : PluginConfig) (seen needs : List String)
      → AllKnown declared seen needs
      → Good declared seen (Grown declared seen) (
          and_then
            (start_services engine config.services needs [])
            λ u. tasks_or_none engine config.scheduled)
  services-Good config seen needs h =
      then-Good declared engine seen (start_services engine config.services needs [])
        (tasks_or_none engine config.scheduled)
        (start_services-Good declared engine config.services seen needs h)
        (λ seen' extends. tasks-Good config.scheduled seen')

  after_init-Good :
      (config : PluginConfig) (seen : List String)
      → Declares declared config
      → Good declared seen (Grown declared seen) (
          and_then (run_actions engine config.init []) λ needs.
            and_then
              (download_phase engine config (any is_multi_client config.services) needs)
              λ needs.
                and_then
                  (start_services engine config.services needs [])
                  λ u. tasks_or_none engine config.scheduled)
  after_init-Good config seen d =
      and_then-Good declared (GrownNames declared seen) (Grown declared seen) seen
        (run_actions engine config.init [])
        (λ needs.
          and_then (download_phase engine config (any is_multi_client config.services) needs)
            λ needs.
              and_then (start_services engine config.services needs [])
                λ u. tasks_or_none engine config.scheduled)
        (run_actions-Good declared engine config.init seen [] d.init tt)
        (λ needs seen' (extends, all).
          and_then-Good declared (GrownNames declared seen') (Grown declared seen) seen'
            (download_phase engine config (any is_multi_client config.services) needs)
            (λ needs.
              and_then (start_services engine config.services needs [])
                λ u. tasks_or_none engine config.scheduled)
            (download_phase-Good config (any is_multi_client config.services) seen' needs d all)
            (λ needs2 seen2 (extends2, all2).
              grow declared engine seen seen2
                (and_then (start_services engine config.services needs2 [])
                  λ u. tasks_or_none engine config.scheduled)
                (λ n h. extends2 n (extends n h)) (services-Good config seen2 needs2 all2)))

  init_config-Good :
      (config : PluginConfig)
      → Declares declared config
      → Good declared [] (Grown declared []) (init_config engine config)
  unfolding init_config
  init_config-Good config d =
      then-Good declared engine [] (call stopped_all engine.stop_all_jobs) _
        (call-Good declared [] stopped_all engine.stop_all_jobs tt)
        (λ seen _.
          then-Good declared engine seen (render_configs_files engine config.config_files) _
            (render_configs_files-Good declared engine config.config_files seen)
            (λ seen _.
              then-Good declared engine seen (start_aux_services engine config.aux_services) _
                (start_aux_services-Good declared engine config.aux_services seen)
                (λ seen _. after_init-Good config seen d)))

-- Whatever the engine replies, and whether the start ends with an error or not: each job that
-- `default_init` creates waits only for jobs that were created before it, and for those that the jobs
-- of the configuration themselves declare to need; and none of the jobs is a transfer of one archive
-- for the whole node, the legacy `Download` of a node without store keys.
pub default_init-Ordered :
    (declared : List String) (engine : Engine) (config : PluginConfig)
    → Declares declared config
    → Ordered declared [] (default_init engine (some config)).0
unfolding default_init
default_init-Ordered declared engine config d = (init_config-Good declared engine config d).ordered
