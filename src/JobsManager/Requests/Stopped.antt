-- ===== src/JobsManager/Requests/Stopped.antt =====
-- What is left of the jobs of babel/src/jobs_manager.rs when they were stopped, or shut down.
use blockvisor.Common.{
  ℕ, ◌≡◌, refl, sym, subst, ◌⊎◌, inl, inr, Bool, true, false, Option, none, some, [], ◌∷◌, arith,
  if◌then◌else◌, Bool-cases,
}
use Prim.Native.String.{String}
use text.Mathlib.Text.{◌==◌ as ◌=s◌}
use blockvisor.Common.Assoc.{lookup, lookup-insert}
use blockvisor.Jobs.{running, stopped, JobState, active, inactive, saved, save_status}
use blockvisor.JobsManager.{Entry, JobsMap, World}
use blockvisor.JobsManager.Rounds.{map_entries}
use blockvisor.JobsManager.Requests.{
  RequestError, Reply, then_rest, on_found, end_job, stop, stop_all, shut_down_state, shut_down,
  shutdown, terminated, shutdown_timeout_secs,
}

-- The job is stopped now, in memory and in its file, and nothing else of it changed.
abbrev pub StoppedAt : World → Entry → Entry → Type 0
StoppedAt world entry entry' =
    (entry'.job ≡ record entry.job { state = inactive stopped world.now })
    × (text : String) × (world.disk.to_string stopped ≡ some text)
    × (entry'.file ≡ saved text world.now)

then_rest-none :
    (name : String) (jobs : JobsMap) (result : Entry × Option RequestError) (rest : Reply)
    → (then_rest name jobs result rest).1 ≡ none
    → (result.1 ≡ none)
      × (rest.1 ≡ none)
      × ((then_rest name jobs result rest).0 ≡ (name, result.0) ∷ rest.0)
then_rest-none name jobs (entry, none) rest h = (refl, h, refl)
then_rest-none name jobs (entry, some error) rest h = absurd (ground arith)

-- Each job is there under its name, stopped.
pub data AllStopped (worlds : String → World) : JobsMap → JobsMap → Type 0 where
  none_left : AllStopped worlds [] []
  one_more :
      {name : String} {entry entry' : Entry} {jobs jobs' : JobsMap}
      → StoppedAt (worlds name) entry entry'
      → AllStopped worlds jobs jobs'
      → AllStopped worlds ((name, entry) ∷ jobs) ((name, entry') ∷ jobs')

module _ (terminates : ℕ → ℕ → Bool) where
  end_job-stopped :
      (world : World) (name : String) (entry : Entry)
      → (end_job terminates world stopped name entry).1 ≡ none
      → (terminated terminates entry.job ≡ true)
        × StoppedAt world entry (end_job terminates world stopped name entry).0
  unfolding end_job save_status
  end_job-stopped world name entry h = elim (Bool-cases (terminated terminates entry.job)) [
    | inl e ↦ elim (Bool-cases world.disk.can_write) [
      | inl w ↦ (e, ground arith)
      | inr w ↦ absurd (ground arith)
    ]
    | inr e ↦ absurd (ground arith)
  ]

  found-stopped :
      (world : World) (name k : String) (jobs : JobsMap) (found : Option Entry)
      → let reply = on_found name jobs (end_job terminates world stopped name) found in
        (reply.1 ≡ none)
        → (entry entry' : Entry) × (found ≡ some entry)
          × (terminated terminates entry.job ≡ true)
          × StoppedAt world entry entry'
          × (lookup k reply.0 ≡ (if name =s k then some entry' else lookup k jobs))
  found-stopped world name k jobs none h = absurd (ground arith)
  found-stopped world name k jobs (some entry) h =
      let entry' = (end_job terminates world stopped name entry).0 in
      let (e, at) = end_job-stopped world name entry h in
      (entry, entry', refl, e, at, lookup-insert name k entry' jobs)

  -- When `stop` returns without an error, the job is there, its process has ended, it is stopped in
  -- memory and in its status file, and no other job changed.
  pub stop-success :
      (world : World) (name k : String) (jobs : JobsMap)
      → (stop terminates world name jobs).1 ≡ none
      → (entry entry' : Entry) × (lookup name jobs ≡ some entry)
        × (terminated terminates entry.job ≡ true)
        × StoppedAt world entry entry'
        × (lookup k (stop terminates world name jobs).0
            ≡ (if name =s k then some entry' else lookup k jobs))
  unfolding stop
  stop-success world name k jobs h = found-stopped world name k jobs (lookup name jobs) h

  -- A job that was shut down: an active one is to be started again, and any other one is as it was.
  abbrev pub interrupted : ℕ → Entry → JobState → Entry
  interrupted now entry (active pid start_time) = record entry {
    job = record entry.job { state = inactive running now };
  }
  interrupted now entry (inactive status timestamp) = entry

  shut_down-success :
      (force : Bool) (now : ℕ) (name : String) (entry : Entry) (state : JobState)
      → (force ≡ true) ⊎ ((shut_down_state terminates force now name entry state).1 ≡ none)
      → shut_down_state terminates force now name entry state ≡ (interrupted now entry state, none)
  shut_down-success force now name entry (inactive status timestamp) h = refl
  shut_down-success true now name entry (active pid start_time) h = refl
  shut_down-success false now name entry (active pid start_time) (inl e) = absurd (ground arith)
  shut_down-success false now name entry (active pid start_time) (inr h) =
      let t = terminates pid (shutdown_timeout_secs entry.job.config) in
      elim (Bool-cases t) [ inl e ↦ rw e refl | inr e ↦ absurd (ground arith) ]

  -- A shutdown that is forced, or that returns without an error, leaves no job active: each job that
  -- was is to be started again, and each other job is as it was.
  pub shutdown-success :
      (force : Bool) (worlds : String → World) (jobs : JobsMap)
      → (force ≡ true) ⊎ ((shutdown terminates force worlds jobs).1 ≡ none)
      → shutdown terminates force worlds jobs ≡ (
        map_entries (λ name entry. interrupted (worlds name).now entry entry.job.state) jobs,
        none,
      )
  unfolding shutdown
  shutdown-success force worlds [] h = refl
  shutdown-success force worlds ((name, entry) ∷ jobs) (inl forced) =
      let first =
        shut_down-success force (worlds name).now name entry entry.job.state (inl forced) in
      rw (first, shutdown-success force worlds jobs (inl forced)) refl
  shutdown-success force worlds ((name, entry) ∷ jobs) (inr h) =
      let result = shut_down terminates force (worlds name).now name entry in
      let (one, others, both) =
        then_rest-none name jobs result (shutdown terminates force worlds jobs) h in
      let first = shut_down-success force (worlds name).now name entry entry.job.state (inr one) in
      rw (first, shutdown-success force worlds jobs (inr others)) refl

  -- When `stop_all` returns without an error, each job is there under its name, stopped in memory and
  -- in its status file.
  pub stop_all-success :
      (worlds : String → World) (jobs : JobsMap)
      → (stop_all terminates worlds jobs).1 ≡ none
      → AllStopped worlds jobs (stop_all terminates worlds jobs).0
  unfolding stop_all
  stop_all-success worlds [] h = none_left
  stop_all-success worlds ((name, entry) ∷ jobs) h =
      let result = end_job terminates (worlds name) stopped name entry in
      let (one, others, both) =
        then_rest-none name jobs result (stop_all terminates worlds jobs) h in
      let (ended, at) = end_job-stopped (worlds name) name entry one in
      subst (AllStopped worlds ((name, entry) ∷ jobs)) (sym both)
        (one_more at (stop_all-success worlds jobs others))
