-- ===== src/Plugin/Created/Runs.antt =====
-- `default_init` (babel_api/src/rhai_plugin.rs) creates jobs after those that they need.
use blockvisor.Common.{
  zero, suc, refl, sym, subst, Bool, true, false, Option, none, some, List, [], ◌∷◌, ◌++◌, map,
  append-nil, All,
}
use Prim.Native.String.{String}
use blockvisor.Common.Int.{ℤ, pos, negsuc}
use blockvisor.Jobs.{or_none, waiting_for}
use blockvisor.Plugin.{ConfigFile, AuxService, Task, Job, Actions, Service}
use blockvisor.Plugin.Builders.{when_used, build_service_job_config}
use blockvisor.Plugin.Init.{
  rendered, added, Engine, Run, and_then, call, aux_service, create_and_start_job, run_jobs,
  check_exit, run_commands, run_actions, render_files, render_configs_files, start_services,
  start_aux_services, add_tasks,
}
use blockvisor.Plugin.Created.{AllKnown, Good}
use blockvisor.Plugin.Created.Order.{
  Extends, AllKnown-extended, weaken, and_then-Good, done-Good, Grown, call-Good, GrownNames,
  Created, create_and_start_job-Good, DeclaredNeeds, run_jobs-Good,
}

abbrev pub jobs_of_actions : Option Actions → List Job
jobs_of_actions none = []
jobs_of_actions (some actions) = actions.jobs

module _ (declared : List String) (engine : Engine) where
  check_exit-Good :
      (seen : List String) (command : String) (code : Option ℤ)
      → Good declared seen (Grown declared seen) (check_exit engine command code)
  check_exit-Good seen command none = record { ordered = (tt, tt); returns = tt }
  check_exit-Good seen command (some (pos zero)) = record { ordered = (tt, tt); returns = λ n h. h }
  check_exit-Good seen command (some (pos (suc code))) = record { ordered = (tt, tt); returns = tt }
  check_exit-Good seen command (some (negsuc code)) = record { ordered = (tt, tt); returns = tt }

  pub grow :
      (seen seen' : List String) (run : Run (Unit {0}))
      → Extends declared seen seen'
      → Good declared seen' (Grown declared seen') run
      → Good declared seen' (Grown declared seen) run
  grow seen seen' run extends g =
      weaken declared seen' (Grown declared seen') (Grown declared seen) run
        (λ s u more n h. more n (extends n h)) g

  pub grow_names :
      (seen seen' : List String) (run : Run (List String))
      → Extends declared seen seen'
      → Good declared seen' (GrownNames declared seen') run
      → Good declared seen' (GrownNames declared seen) run
  grow_names seen seen' run extends g =
      weaken declared seen' (GrownNames declared seen') (GrownNames declared seen) run
        (λ s names (more, all). ((λ n h. more n (extends n h)), all)) g

  pub forget_name :
      (seen : List String) (name : String) (run : Run (Unit {0}))
      → Good declared seen (Created declared seen name) run
      → Good declared seen (Grown declared seen) run
  forget_name seen name run g =
      weaken declared seen (Created declared seen name) (Grown declared seen) run
        (λ s u (more, there). more) g

  -- A first part, after which nothing that was known is forgotten, and the rest.
  pub then-Good :
      (seen : List String) (run : Run (Unit {0})) (rest : Run (Unit {0}))
      → Good declared seen (Grown declared seen) run
      → ((seen' : List String)
          → Extends declared seen seen'
          → Good declared seen' (Grown declared seen') rest)
      → Good declared seen (Grown declared seen) (and_then run (λ u. rest))
  then-Good seen run rest first next =
      and_then-Good declared (Grown declared seen) (Grown declared seen) seen run (λ u. rest) first
        (λ u seen' extends. grow seen seen' rest extends (next seen' extends))

  run_commands-Good :
      (commands : List String) (seen : List String)
      → Good declared seen (Grown declared seen) (run_commands engine commands)
  unfolding run_commands
  run_commands-Good [] seen = done-Good declared (Grown declared seen) seen tt (λ n h. h)
  run_commands-Good (command ∷ commands) seen =
      then-Good seen (check_exit engine command (engine.run_sh command))
        (run_commands engine commands) (check_exit-Good seen command (engine.run_sh command))
        (λ seen' extends. run_commands-Good commands seen')

  pub run_actions-Good :
      (actions : Option Actions) (seen needs : List String)
      → All (DeclaredNeeds declared) (jobs_of_actions actions)
      → AllKnown declared seen needs
      → Good declared seen (GrownNames declared seen) (run_actions engine actions needs)
  unfolding run_actions
  run_actions-Good none seen needs d h =
      done-Good declared (GrownNames declared seen) seen needs ((λ n k. k), h)
  run_actions-Good (some actions) seen needs d h =
      and_then-Good declared (Grown declared seen) (GrownNames declared seen) seen
        (run_commands engine actions.commands) (λ u. run_jobs engine (some actions.jobs) needs)
        (run_commands-Good actions.commands seen)
        (λ u seen' extends.
          grow_names seen seen' (run_jobs engine (some actions.jobs) needs) extends (
            run_jobs-Good declared engine (some actions.jobs) seen' needs d
              (AllKnown-extended declared seen seen' needs extends h)))

  render_files-Good :
      (files : List ConfigFile) (seen : List String)
      → Good declared seen (Grown declared seen) (render_files engine files)
  unfolding render_files
  render_files-Good [] seen = done-Good declared (Grown declared seen) seen tt (λ n h. h)
  render_files-Good (file ∷ files) seen =
      then-Good seen (call (rendered file) (engine.render_template file))
        (render_files engine files)
        (call-Good declared seen (rendered file) (engine.render_template file) tt)
        (λ seen' extends. render_files-Good files seen')

  pub render_configs_files-Good :
      (files : Option (List ConfigFile)) (seen : List String)
      → Good declared seen (Grown declared seen) (render_configs_files engine files)
  unfolding render_configs_files
  render_configs_files-Good none seen = done-Good declared (Grown declared seen) seen tt (λ n h. h)
  render_configs_files-Good (some files) seen = render_files-Good files seen

  pub add_tasks-Good :
      (tasks : List Task) (seen : List String)
      → Good declared seen (Grown declared seen) (add_tasks engine tasks)
  unfolding add_tasks
  add_tasks-Good [] seen = done-Good declared (Grown declared seen) seen tt (λ n h. h)
  add_tasks-Good (task ∷ tasks) seen =
      then-Good seen (call (added task) (engine.add_task task)) (add_tasks engine tasks)
        (call-Good declared seen (added task) (engine.add_task task) tt)
        (λ seen' extends. add_tasks-Good tasks seen')

  when_used-AllKnown :
      (used : Bool) (seen needs : List String)
      → AllKnown declared seen needs
      → AllKnown declared seen (or_none (when_used used needs) ++ or_none (when_used used []))
  when_used-AllKnown true seen needs h = subst (AllKnown declared seen) (sym (append-nil needs)) h
  when_used-AllKnown false seen needs h = tt

  pub start_services-Good :
      (services : List Service) (seen needs : List String)
      → AllKnown declared seen needs
      → Good declared seen (Grown declared seen) (start_services engine services needs [])
  unfolding start_services waiting_for build_service_job_config
  start_services-Good [] seen needs h = done-Good declared (Grown declared seen) seen tt (λ n k. k)
  start_services-Good (service ∷ services) seen needs h =
      then-Good seen
        (create_and_start_job engine service.name (build_service_job_config service needs []))
        (start_services engine services needs [])
        (forget_name seen service.name
          (create_and_start_job engine service.name (build_service_job_config service needs []))
          (create_and_start_job-Good declared engine seen service.name
            (build_service_job_config service needs [])
            (when_used-AllKnown service.use_protocol_data seen needs h) refl))
        (λ seen' extends.
          start_services-Good services seen' needs
            (AllKnown-extended declared seen seen' needs extends h))

  pub start_aux_services-Good :
      (services : Option (List AuxService)) (seen : List String)
      → Good declared seen (Grown declared seen) (start_aux_services engine services)
  unfolding start_aux_services
  start_aux_services-Good none seen = done-Good declared (Grown declared seen) seen tt (λ n h. h)
  start_aux_services-Good (some services) seen =
      start_services-Good (map aux_service services) seen [] tt
