-- ===== src/Plugin/Validation/Decides.antt =====
-- `PluginConfig::validate` (babel_api/src/plugin_config.rs) decides whether a configuration is valid.
use blockvisor.Common.{◌+◌, ◌≤◌, ◌≡◌, refl, ◌↔◌, [], arith}
use Prim.Native.String.{String}
use blockvisor.Common.Outcome.{ok}
use blockvisor.Plugin.{PluginConfig}
use blockvisor.Plugin.Validation.{
  scheduled_not_unique, aux_services_not_unique, init_not_unique, post_download_not_unique,
  services_not_unique, pre_upload_not_unique, post_upload_not_unique, items_of, names_of_jobs,
  names_of_services, names_of_aux_services, names_of_tasks, names_of_actions, insert_all,
  check_services, reserved_names, validate,
}
use blockvisor.Plugin.Validation.Unique.{
  occurrences, AllOnce, bind-ok, insert_all-AllOnce, AllOnce-insert_all, check_services-IsService,
  IsService-check_services, IsValid, reserved-AllOnce, occurrences-all_names,
}

no_names-AllOnce : AllOnce []
no_names-AllOnce name = omega arith

validate-IsValid : (config : PluginConfig) → validate config ≡ ok tt → IsValid config
unfolding validate
validate-IsValid config h =
    let aux = names_of_aux_services config.aux_services in
    let init = names_of_actions config.init in
    let post_download = names_of_jobs (items_of config.post_download) in
    let services = names_of_services config.services in
    let pre_upload = names_of_actions config.pre_upload in
    let post_upload = names_of_jobs (items_of config.post_upload) in
    let (tasks, e0, h0) =
      bind-ok (insert_all scheduled_not_unique [] (names_of_tasks config.scheduled)) _ tt h in
    let (s1, e1, h1) = bind-ok (insert_all aux_services_not_unique reserved_names aux) _ tt h0 in
    let (s2, e2, h2) = bind-ok (insert_all init_not_unique s1 init) _ tt h1 in
    let (s3, e3, h3) = bind-ok (insert_all post_download_not_unique s2 post_download) _ tt h2 in
    let (s4, e4, h4) = bind-ok (insert_all services_not_unique s3 services) _ tt h3 in
    let (done, e5, h5) = bind-ok (check_services config.services) _ tt h4 in
    let (s6, e6, h6) = bind-ok (insert_all pre_upload_not_unique s4 pre_upload) _ tt h5 in
    let (s7, e7, h7) = bind-ok (insert_all post_upload_not_unique s6 post_upload) _ tt h6 in
    let (o0, i0) =
      insert_all-AllOnce scheduled_not_unique [] (names_of_tasks config.scheduled) tasks
        no_names-AllOnce e0 in
    let (o1, i1) =
      insert_all-AllOnce aux_services_not_unique reserved_names aux s1 reserved-AllOnce e1 in
    let (o2, i2) = insert_all-AllOnce init_not_unique s1 init s2 o1 e2 in
    let (o3, i3) = insert_all-AllOnce post_download_not_unique s2 post_download s3 o2 e3 in
    let (o4, i4) = insert_all-AllOnce services_not_unique s3 services s4 o3 e4 in
    let (o6, i6) = insert_all-AllOnce pre_upload_not_unique s4 pre_upload s6 o4 e6 in
    let (o7, i7) = insert_all-AllOnce post_upload_not_unique s6 post_upload s7 o6 e7 in
    record {
      tasks = λ name. omega (arith, o0 name, i0 name);
      jobs = λ name. omega (
        arith,
        occurrences-all_names name reserved_names aux init post_download services pre_upload
            post_upload,
        i1 name,
        i2 name,
        i3 name,
        i4 name,
        i6 name,
        i7 name,
        o7 name,
      );
      services = check_services-IsService config.services e5;
    }

IsValid-validate : (config : PluginConfig) → IsValid config → validate config ≡ ok tt
unfolding validate
IsValid-validate config valid =
    let aux = names_of_aux_services config.aux_services in
    let init = names_of_actions config.init in
    let post_download = names_of_jobs (items_of config.post_download) in
    let services = names_of_services config.services in
    let pre_upload = names_of_actions config.pre_upload in
    let post_upload = names_of_jobs (items_of config.post_upload) in
    let limit : (name : String)
        → occurrences name reserved_names
            + occurrences name aux
            + occurrences name init
            + occurrences name post_download
            + occurrences name services
            + occurrences name pre_upload
            + occurrences name post_upload
          ≤ 1 =
      λ name. omega (
        arith,
        valid.jobs name,
        occurrences-all_names name reserved_names aux init post_download services pre_upload
            post_upload,
      ) in
    let (s0, e0, i0) =
      AllOnce-insert_all scheduled_not_unique [] (names_of_tasks config.scheduled)
        (λ n. omega (arith, valid.tasks n)) in
    let (s1, e1, i1) =
      AllOnce-insert_all aux_services_not_unique reserved_names aux (λ n. omega (arith, limit n)) in
    let (s2, e2, i2) =
      AllOnce-insert_all init_not_unique s1 init (λ n. omega (arith, limit n, i1 n)) in
    let (s3, e3, i3) =
      AllOnce-insert_all post_download_not_unique s2 post_download
        (λ n. omega (arith, limit n, i1 n, i2 n)) in
    let (s4, e4, i4) =
      AllOnce-insert_all services_not_unique s3 services
        (λ n. omega (arith, limit n, i1 n, i2 n, i3 n)) in
    let e5 = IsService-check_services config.services valid.services in
    let (s6, e6, i6) =
      AllOnce-insert_all pre_upload_not_unique s4 pre_upload
        (λ n. omega (arith, limit n, i1 n, i2 n, i3 n, i4 n)) in
    let (s7, e7, i7) =
      AllOnce-insert_all post_upload_not_unique s6 post_upload
        (λ n. omega (arith, limit n, i1 n, i2 n, i3 n, i4 n, i6 n)) in
    rw (e0, e1, e2, e3, e4, e5, e6, e7) (refl {a = ok tt})

-- A configuration is accepted exactly where no two of its scheduled tasks have the same name, no two
-- of its jobs, of whatever kind, have the same name, nor the name of the download or of the upload, and
-- its services are well-formed: each one that is archived has a store key, store keys are letters,
-- digits, hyphens and underscores, and directories are relative without `..`.
pub validate-decides : (config : PluginConfig) → (validate config ≡ ok tt) ↔ IsValid config
validate-decides config = (validate-IsValid config, IsValid-validate config)
