-- ===== src/Node/Upgrade/Begun.antt =====
-- How an upgrade by bv/src/node.rs that begins, or goes on, can end.
use blockvisor.Common.{
  ◌≡◌, refl, ◌≢◌, inl, inr, Bool, true, false, Option, none, some, arith, if◌then◌else◌,
}
use blockvisor.NodeState.{NodeState, running, failed}
use blockvisor.Node.{◌then◌, status, same_status, Bool}
use blockvisor.Node.Attempt.{Host, Upgrade, on_node}
use blockvisor.Node.Rollback.{Outcome, Rollback, or_internal, internal}
use blockvisor.Node.Upgrade.{upgrade, begin_upgrade, reset_upgrade, prepare, resume_upgrade}
use blockvisor.Node.Upgrade.Prepared.{is_active, prepare-Ready, on_node-Reached}
use blockvisor.Node.Upgrade.Judged.{
  Right, Goes, Judged, internal-Judged, if-Judged, resume_upgrade-Judged,
}

module _ (desired : NodeState) (before : Host) where
  -- It ended right, or can go on if the stamp of the data was read.
  pub record Began (env : Upgrade) (end : Host × Outcome) : Type 0 where
    pub right : Right desired before end.1 end.0
    pub going : env.stamp_before ≢ none → is_active end.0.node ≡ true → Goes desired before end.0

  not_begun :
      (env : Upgrade) (host : Host) → is_active host.node ≡ false → Began env (host, internal)
  not_begun env host e = record {
    right = tt;
    going = λ _ active. absurd (ground (arith, active, e));
  }

  or_internal-Began :
      (env : Upgrade) (r : Host × Bool) (rest : Host → Host × Outcome)
      → (r.1 ≡ true → Judged desired before (rest r.0))
      → (env.stamp_before ≢ none → is_active r.0.node ≡ true → Goes desired before r.0)
      → Began env (or_internal r rest)
  or_internal-Began env (host, true) rest h k = record {
    right = (h refl).right;
    going = λ _. (h refl).going;
  }
  or_internal-Began env (host, false) rest h k = record { right = tt; going = k }

  if-Began :
      (env : Upgrade) (b : Bool) (x y : Host × Outcome)
      → (b ≡ true → Began env x)
      → (b ≡ false → Began env y)
      → Began env (if b then x else y)
  if-Began env true x y h k = h refl
  if-Began env false x y h k = k refl

  prepared-Began :
      (env : Upgrade) (back : Rollback) (runs : Bool)
      → Began env (
          or_internal
            (on_node (prepare env desired runs) (reset_upgrade before))
            (resume_upgrade env back))
  prepared-Began env back runs =
      let host = reset_upgrade before in
      let prepared = on_node (prepare env desired runs) host in
      let reached = on_node-Reached env.stamp_before host (prepare env desired runs host.node) in
      or_internal-Began env prepared (resume_upgrade env back)
        (λ success.
          resume_upgrade-Judged desired before env back prepared.0
            (inl (prepare-Ready env desired runs before (reached (inl success)))))
        (λ readable active.
          inl (prepare-Ready env desired runs before (reached (inr (readable, active)))))

  begin_upgrade-Began :
      (env : Upgrade) (back : Rollback) (runs : Bool) (blocking_job : Option Bool)
      → Began env (begin_upgrade env back desired runs blocking_job (reset_upgrade before))
  unfolding begin_upgrade
  begin_upgrade-Began env back true none = not_begun env (reset_upgrade before) refl
  begin_upgrade-Began env back true (some true) = record {
    right = tt;
    going = λ _ active. absurd (ground (arith, active));
  }
  begin_upgrade-Began env back true (some false) = prepared-Began env back true
  begin_upgrade-Began env back false none = prepared-Began env back false
  begin_upgrade-Began env back false (some b) = prepared-Began env back false

  pub upgrade-Began :
      (env : Upgrade) (back : Rollback)
      → is_active before.node ≡ false
      → Began env (upgrade env back desired before)
  unfolding upgrade
  upgrade-Began env back fresh =
      let runs = same_status (status before.node) running in
      let begins = begin_upgrade env back desired runs env.blocking_job (reset_upgrade before) in
      let resumes = resume_upgrade env back before in
      if-Began env (same_status (status before.node) failed) (before, internal)
        (if is_active before.node then resumes else begins) (λ _. not_begun env before fresh)
        (λ _.
          if-Began env (is_active before.node) resumes begins
            (λ active. absurd (ground (arith, active, fresh)))
            (λ _. begin_upgrade-Began env back runs env.blocking_job))

  -- What is asked for is not used where an upgrade goes on.
  pub upgrade-Judged :
      (env : Upgrade) (back : Rollback) (other : NodeState) (host : Host)
      → is_active host.node ≡ true
      → Goes desired before host
      → Judged desired before (upgrade env back other host)
  unfolding upgrade
  upgrade-Judged env back other host active goes =
      let runs = same_status (status host.node) running in
      let begins = begin_upgrade env back other runs env.blocking_job (reset_upgrade host) in
      let resumes = resume_upgrade env back host in
      if-Judged desired before (same_status (status host.node) failed) (host, internal)
        (if is_active host.node then resumes else begins)
        (λ _. internal-Judged desired before host goes)
        (λ _.
          if-Judged desired before (is_active host.node) resumes begins
            (λ _. resume_upgrade-Judged desired before env back host goes)
            (λ e. absurd (ground (arith, active, e))))
