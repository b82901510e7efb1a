-- ===== src/Plugin/Validation/Unique.antt =====
-- What `PluginConfig::validate` (babel_api/src/plugin_config.rs) accepts.
use blockvisor.Common.{
  ℕ, suc, ◌+◌, ◌≤◌, ◌≡◌, refl, sym, ap, subst, ◌∙◌, inl, inr, true, false, ◌&&◌, Option, none, some,
  List, [], ◌∷◌, ◌++◌, arith, if◌then◌else◌, All, Bool-cases,
}
use Prim.Native.String.{String}
use text.Mathlib.Text
use text.Mathlib.TextEquality.{eq_iff}
use blockvisor.Common.Outcome.{Outcome, ok, err, out_of_fuel, ◌>>=◌}
use blockvisor.Plugin.{Service, PluginConfig, download_job_name, upload_job_name}
use blockvisor.Plugin.Names.{mem, is_store_key, is_data_dir}
use blockvisor.Plugin.Validation.{
  ConfigError, missing_store_key, items_of, names_of_jobs, names_of_services, names_of_aux_services,
  names_of_tasks, names_of_actions, insert_all, is_none, check_store_key, check_data_dir,
  check_service, check_services, reserved_names,
}

abbrev pub occurrences : String → List String → ℕ
occurrences name [] = 0
occurrences name (other ∷ names) =
    if Text.◌==◌ other name then suc (occurrences name names) else occurrences name names

abbrev pub AllOnce : List String → Type 0
AllOnce names = (name : String) → occurrences name names ≤ 1

pub bind-ok {ℓ κ μ} :
    {E : Type ℓ} {A : Type κ} {B : Type μ} (m : Outcome E A) (f : A → Outcome E B) (b : B)
    → (m >>= f) ≡ ok b
    → (a : A) × (m ≡ ok a) × (f a ≡ ok b)
bind-ok (ok a) f b h = (a, refl, h)
bind-ok (err e) f b h = absurd (ground arith)
bind-ok out_of_fuel f b h = absurd (ground arith)

occurrences-append :
    (name : String) (xs ys : List String)
    → occurrences name (xs ++ ys) ≡ occurrences name xs + occurrences name ys
occurrences-append name [] ys = omega arith
occurrences-append name (x ∷ xs) ys = ground (arith, occurrences-append name xs ys)

mem-occurrences :
    (name : String) (names : List String) → mem name names ≡ false → occurrences name names ≡ 0
mem-occurrences name [] h = refl
mem-occurrences name (other ∷ names) h = ground (arith, mem-occurrences name names)

occurrences-mem :
    (name : String) (names : List String) → occurrences name names ≡ 0 → mem name names ≡ false
occurrences-mem name [] h = refl
occurrences-mem name (other ∷ names) h = ground (arith, occurrences-mem name names)

-- The names that are inserted are all that there are afterwards.
abbrev pub Inserted : List String → List String → List String → Type 0
Inserted seen names all =
    (name : String) → occurrences name all ≡ occurrences name seen + occurrences name names

Inserted-rest :
    (first : String) (seen names all : List String)
    → Inserted (first ∷ seen) names all
    → Inserted seen (first ∷ names) all
Inserted-rest first seen names all h name = ground (arith, h name)

new-AllOnce :
    (first : String) (seen : List String)
    → mem first seen ≡ false
    → AllOnce seen
    → AllOnce (first ∷ seen)
new-AllOnce first seen fresh once name = elim (Bool-cases (Text.◌==◌ first name)) [
  | inr e ↦ rw e (once name)
  | inl e ↦
      let same : first ≡ name = (eq_iff first name).0 e in
      let none_yet : occurrences name seen ≡ 0 =
        subst (λ n. occurrences n seen ≡ 0) same (mem-occurrences first seen fresh) in
      rw e (omega (arith, none_yet))
]

abbrev names_or_nil : Outcome ConfigError (List String) → List String
names_or_nil (ok names) = names
names_or_nil (err e) = []
names_or_nil out_of_fuel = []

pub insert_all-AllOnce :
    (error : ConfigError) (seen names all : List String)
    → AllOnce seen
    → insert_all error seen names ≡ ok all
    → AllOnce all × Inserted seen names all
insert_all-AllOnce error seen [] all once h =
    let same : seen ≡ all = ap names_or_nil h in
    (subst AllOnce same once, subst (Inserted seen []) same (λ name. omega arith))
insert_all-AllOnce error seen (name ∷ names) all once h = elim (Bool-cases (mem name seen)) [
  | inl e ↦ absurd (ground (arith, e, h))
  | inr e ↦
      let h' : insert_all error (name ∷ seen) names ≡ ok all =
        ap (λ b. if b then err error else insert_all error (name ∷ seen) names) (sym e) ∙ h in
      let (once', inserted) =
        insert_all-AllOnce error (name ∷ seen) names all (new-AllOnce name seen e once) h' in
      (once', Inserted-rest name seen names all inserted)
]

pub AllOnce-insert_all :
    (error : ConfigError) (seen names : List String)
    → ((name : String) → occurrences name seen + occurrences name names ≤ 1)
    → (all : List String) × (insert_all error seen names ≡ ok all) × Inserted seen names all
AllOnce-insert_all error seen [] once = (seen, refl, λ name. omega arith)
AllOnce-insert_all error seen (name ∷ names) once =
    let self : occurrences name (name ∷ names) ≡ suc (occurrences name names) =
      rw ((eq_iff name name).1 refl) refl in
    let fresh : mem name seen ≡ false =
      occurrences-mem name seen (omega (arith, once name, self)) in
    let (all, run, inserted) =
      AllOnce-insert_all error (name ∷ seen) names (λ other. ground (arith, once other)) in
    (all, rw fresh run, Inserted-rest name seen names all inserted)

-- A service that is archived has a key, and its key and its directory are well-formed.
pub record IsService (service : Service) : Type 0 where
  pub has_key : service.archive ≡ true → is_none service.store_key ≡ false
  pub dir : (dir : String) → service.data_dir ≡ some dir → is_data_dir dir ≡ true
  pub key : (key : String) → service.store_key ≡ some key → is_store_key key ≡ true

data_dir-valid :
    (service : Service) (dir : Option String)
    → check_data_dir service dir ≡ ok tt
    → (d : String) → dir ≡ some d
    → is_data_dir d ≡ true
data_dir-valid service none h d e = absurd (ground arith)
data_dir-valid service (some dir) h d e = ground arith

valid-data_dir :
    (service : Service) (dir : Option String)
    → ((d : String) → dir ≡ some d → is_data_dir d ≡ true)
    → check_data_dir service dir ≡ ok tt
valid-data_dir service none h = refl
valid-data_dir service (some dir) h = rw (h dir refl) refl

store_key-valid :
    (service : Service) (key : Option String)
    → check_store_key service key ≡ ok tt
    → (k : String) → key ≡ some k
    → is_store_key k ≡ true
store_key-valid service none h k e = absurd (ground arith)
store_key-valid service (some key) h k e = ground arith

valid-store_key :
    (service : Service) (key : Option String)
    → ((k : String) → key ≡ some k → is_store_key k ≡ true)
    → check_store_key service key ≡ ok tt
valid-store_key service none h = refl
valid-store_key service (some key) h = rw (h key refl) refl

check_service-IsService : (service : Service) → check_service service ≡ ok tt → IsService service
check_service-IsService service h =
    elim (Bool-cases (service.archive && is_none service.store_key)) [
      | inl e ↦ absurd (ground (arith, e, h))
      | inr e ↦
          let checks = check_data_dir service service.data_dir >>= λ done.
          check_store_key service service.store_key in
          let h' : checks ≡ ok tt =
            ap (λ b. if b then err (missing_store_key service.name) else checks) (sym e) ∙ h in
          let (done, dir, key) =
            bind-ok (check_data_dir service service.data_dir)
              (λ done. check_store_key service service.store_key) tt h' in
          record {
            has_key = λ archived. ground (arith, e, archived);
            dir = data_dir-valid service service.data_dir dir;
            key = store_key-valid service service.store_key key;
          }
    ]

IsService-check_service : (service : Service) → IsService service → check_service service ≡ ok tt
IsService-check_service service valid =
    let keyed : (service.archive && is_none service.store_key) ≡ false =
      ground (arith, valid.has_key) in
    let checks = check_data_dir service service.data_dir >>= λ done.
    check_store_key service service.store_key in
    ap (λ b. if b then err (missing_store_key service.name) else checks) keyed
    ∙ ap (λ m. m >>= λ done. check_store_key service service.store_key)
        (valid-data_dir service service.data_dir valid.dir)
    ∙ valid-store_key service service.store_key valid.key

pub check_services-IsService :
    (services : List Service) → check_services services ≡ ok tt → All IsService services
check_services-IsService [] h = tt
check_services-IsService (service ∷ services) h =
    let (done, first, rest) =
      bind-ok (check_service service) (λ done. check_services services) tt h in
    (check_service-IsService service first, check_services-IsService services rest)

pub IsService-check_services :
    (services : List Service) → All IsService services → check_services services ≡ ok tt
IsService-check_services [] valid = refl
IsService-check_services (service ∷ services) (first, rest) =
    ap (λ m. m >>= λ done. check_services services) (IsService-check_service service first)
    ∙ IsService-check_services services rest

-- The names of all jobs, the reserved ones included.
abbrev pub all_names : PluginConfig → List String
all_names config =
    reserved_names
    ++ names_of_aux_services config.aux_services
    ++ names_of_actions config.init
    ++ names_of_jobs (items_of config.post_download)
    ++ names_of_services config.services
    ++ names_of_actions config.pre_upload
    ++ names_of_jobs (items_of config.post_upload)

-- No two tasks, and no two jobs have the same name, and the services are well-formed.
pub record IsValid (config : PluginConfig) : Type 0 where
  pub tasks : AllOnce (names_of_tasks config.scheduled)
  pub jobs : AllOnce (all_names config)
  pub services : All IsService config.services

pub reserved-AllOnce : AllOnce reserved_names
reserved-AllOnce =
    new-AllOnce download_job_name (upload_job_name ∷ []) refl
      (new-AllOnce upload_job_name [] refl (λ name. omega arith))

pub occurrences-all_names :
    (name : String) (reserved aux init post_download services pre_upload post_upload : List String)
    → occurrences name
        (reserved ++ aux ++ init ++ post_download ++ services ++ pre_upload ++ post_upload)
      ≡ occurrences name reserved
        + occurrences name aux
        + occurrences name init
        + occurrences name post_download
        + occurrences name services
        + occurrences name pre_upload
        + occurrences name post_upload
occurrences-all_names name reserved aux init post_download services pre_upload post_upload = omega (
  arith,
  occurrences-append name (reserved ++ aux ++ init ++ post_download ++ services ++ pre_upload)
      post_upload,
  occurrences-append name (reserved ++ aux ++ init ++ post_download ++ services) pre_upload,
  occurrences-append name (reserved ++ aux ++ init ++ post_download) services,
  occurrences-append name (reserved ++ aux ++ init) post_download,
  occurrences-append name (reserved ++ aux) init,
  occurrences-append name reserved aux,
)
