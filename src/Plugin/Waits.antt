-- ===== src/Plugin/Waits.antt =====
-- The services that `default_init` (babel_api/src/rhai_plugin.rs) creates, and when the manager of
-- babel/src/jobs_manager.rs starts them.
use blockvisor.Common.{List, [], any}
use Prim.Native.String.{String}
use blockvisor.Plugin.{PluginConfig}
use blockvisor.Plugin.Init.{Engine, Run, and_then, is_multi_client, start_services}
use blockvisor.Plugin.Defaults.{download_phase, tasks_or_none}

module _ (engine : Engine) where
  -- The part of the run from the download on.
  from_download : PluginConfig → List String → Run (Unit {0})
  from_download config needs =
      and_then (download_phase engine config (any is_multi_client config.services) needs) λ needs.
        and_then (start_services engine config.services needs [])
          λ u. tasks_or_none engine config.scheduled
