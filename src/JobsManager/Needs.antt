-- ===== src/JobsManager/Needs.antt =====
-- When the jobs that a job needs and waits for have finished: `deps_finished` of
-- babel/src/jobs_manager.rs, against what it decides.
use blockvisor.Common.{
  ℕ, zero, suc, ◌≡◌, refl, ◌∙◌, ◌↔◌, ◌⊎◌, inl, inr, Option, none, some, List, [], ◌∷◌, arith, All,
}
use Prim.Native.String.{String}
use blockvisor.Common.Assoc.{lookup}
use blockvisor.Common.Int.{ℤ, pos, negsuc}
use blockvisor.Jobs.{
  Message, finished, stopped, JobStatus, JobConfig, or_none, JobState, active, inactive, pending,
  running,
}
use blockvisor.JobsManager.{
  Entry, JobsMap, Deps, satisfied, needed_state, waited_state, needed, waited, check_needs,
  check_wait_for, deps_finished,
}

-- A state of success, and one of an end.
abbrev pub IsSuccess : JobState → Type 0
IsSuccess state =
    (message : Message) × (timestamp : ℕ) × (state
      ≡ inactive (finished (some (pos 0)) message) timestamp)

abbrev pub IsEnd : JobState → Type 0
IsEnd state =
    (status : JobStatus) × (timestamp : ℕ) × (state ≡ inactive status timestamp)
    × ((status ≡ stopped)
        ⊎ ((code : Option ℤ) × (message : Message) × (status ≡ finished code message)))

-- The named job is there, and finished with exit code 0.
abbrev pub Succeeded : JobsMap → String → Type 0
Succeeded jobs name = (entry : Entry) × (lookup name jobs ≡ some entry) × IsSuccess entry.job.state

-- The named job is there, and finished in any way or was stopped.
abbrev pub Ended : JobsMap → String → Type 0
Ended jobs name = (entry : Entry) × (lookup name jobs ≡ some entry) × IsEnd entry.job.state

needed_state-satisfied :
    (name needed_name : String) (state : JobState) (rest : Deps)
    → needed_state name needed_name state rest ≡ satisfied
    → IsSuccess state × (rest ≡ satisfied)
needed_state-satisfied name needed_name (active pid start_time) rest h = ground arith
needed_state-satisfied name needed_name (inactive (finished none message) timestamp) rest h =
    ground arith
needed_state-satisfied name needed_name (inactive (finished (some (pos zero)) message) timestamp)
      rest h =
    ((message, timestamp, refl), h)
needed_state-satisfied name needed_name (inactive (finished (some (pos (suc n))) message) timestamp)
      rest h =
    ground arith
needed_state-satisfied name needed_name (inactive (finished (some (negsuc n)) message) timestamp)
      rest h =
    ground arith
needed_state-satisfied name needed_name (inactive stopped timestamp) rest h = ground arith
needed_state-satisfied name needed_name (inactive (pending names) timestamp) rest h = ground arith
needed_state-satisfied name needed_name (inactive running timestamp) rest h = ground arith

waited_state-satisfied :
    (state : JobState) (rest : Deps)
    → waited_state state rest ≡ satisfied
    → IsEnd state × (rest ≡ satisfied)
waited_state-satisfied (active pid start_time) rest h = ground arith
waited_state-satisfied (inactive (finished code message) timestamp) rest h =
    ((finished code message, timestamp, refl, inr (code, message, refl)), h)
waited_state-satisfied (inactive stopped timestamp) rest h =
    ((stopped, timestamp, refl, inl refl), h)
waited_state-satisfied (inactive (pending names) timestamp) rest h = ground arith
waited_state-satisfied (inactive running timestamp) rest h = ground arith

needed-satisfied :
    (name needed_name : String) (found : Option Entry) (rest : Deps)
    → needed name needed_name found rest ≡ satisfied
    → ((entry : Entry) × (found ≡ some entry) × IsSuccess entry.job.state) × (rest ≡ satisfied)
needed-satisfied name needed_name none rest h = ground arith
needed-satisfied name needed_name (some entry) rest h =
    let (success, rest_too) = needed_state-satisfied name needed_name entry.job.state rest h in
    ((entry, refl, success), rest_too)

waited-satisfied :
    (name wait_for_name : String) (found : Option Entry) (rest : Deps)
    → waited name wait_for_name found rest ≡ satisfied
    → ((entry : Entry) × (found ≡ some entry) × IsEnd entry.job.state) × (rest ≡ satisfied)
waited-satisfied name wait_for_name none rest h = ground arith
waited-satisfied name wait_for_name (some entry) rest h =
    let (end, rest_too) = waited_state-satisfied entry.job.state rest h in
    ((entry, refl, end), rest_too)

success-needed :
    (name needed_name : String) (jobs : JobsMap) (rest : Deps)
    → Succeeded jobs needed_name
    → needed name needed_name (lookup needed_name jobs) rest ≡ rest
success-needed name needed_name jobs rest (entry, found, (message, timestamp, state)) =
    rw (found, state) refl

end-waited :
    (name wait_for_name : String) (jobs : JobsMap) (rest : Deps)
    → Ended jobs wait_for_name
    → waited name wait_for_name (lookup wait_for_name jobs) rest ≡ rest
end-waited name wait_for_name jobs rest (entry, found, (status, timestamp, state, inl is_stopped)) =
    rw (found, state, is_stopped) refl
end-waited name wait_for_name jobs rest
      (entry, found, (status, timestamp, state, inr (code, message, is_finished))) =
    rw (found, state, is_finished) refl

wait_for-satisfied :
    (name : String) (jobs : JobsMap) (names : List String)
    → check_wait_for name jobs names ≡ satisfied
    → All (Ended jobs) names
unfolding check_wait_for
wait_for-satisfied name jobs [] h = tt
wait_for-satisfied name jobs (n ∷ names) h =
    let (first, rest) =
      waited-satisfied name n (lookup n jobs) (check_wait_for name jobs names) h in
    (first, wait_for-satisfied name jobs names rest)

satisfied-wait_for :
    (name : String) (jobs : JobsMap) (names : List String)
    → All (Ended jobs) names
    → check_wait_for name jobs names ≡ satisfied
unfolding check_wait_for
satisfied-wait_for name jobs [] h = refl
satisfied-wait_for name jobs (n ∷ names) (first, rest) =
    end-waited name n jobs (check_wait_for name jobs names) first
    ∙ satisfied-wait_for name jobs names rest

needs-satisfied :
    (name : String) (jobs : JobsMap) (names : List String) (rest : Deps)
    → check_needs name jobs names rest ≡ satisfied
    → All (Succeeded jobs) names × (rest ≡ satisfied)
unfolding check_needs
needs-satisfied name jobs [] rest h = (tt, h)
needs-satisfied name jobs (n ∷ names) rest h =
    let (first, h') =
      needed-satisfied name n (lookup n jobs) (check_needs name jobs names rest) h in
    let (others, rest_too) = needs-satisfied name jobs names rest h' in ((first, others), rest_too)

satisfied-needs :
    (name : String) (jobs : JobsMap) (names : List String) (rest : Deps)
    → All (Succeeded jobs) names
    → check_needs name jobs names rest ≡ rest
unfolding check_needs
satisfied-needs name jobs [] rest h = refl
satisfied-needs name jobs (n ∷ names) rest (first, others) =
    success-needed name n jobs (check_needs name jobs names rest) first
    ∙ satisfied-needs name jobs names rest others

-- The dependencies of a job are satisfied exactly when each job that it needs is there and has
-- finished with exit code 0, and each one that it waits for is there and has finished or was stopped.
pub deps_finished-satisfied :
    (name : String) (jobs : JobsMap) (config : JobConfig)
    → (deps_finished name jobs config ≡ satisfied)
      ↔ (All (Succeeded jobs) (or_none config.needs) × All (Ended jobs) (or_none config.wait_for))
unfolding deps_finished
deps_finished-satisfied name jobs config = (
  λ h.
      let waits = check_wait_for name jobs (or_none config.wait_for) in
      let (needs, waits') = needs-satisfied name jobs (or_none config.needs) waits h in
      (needs, wait_for-satisfied name jobs (or_none config.wait_for) waits'),
  λ (needs, waits).
      satisfied-needs name jobs (or_none config.needs)
        (check_wait_for name jobs (or_none config.wait_for)) needs
      ∙ satisfied-wait_for name jobs (or_none config.wait_for) waits,
)
