-- ===== src/Node/Upgrade/Judged.antt =====
-- How a call of `upgrade` in bv/src/node.rs ends.
use blockvisor.Common.{
  ℕ, ◌≡◌, refl, ap, ◌∙◌, ◌⊎◌, inl, inr, Bool, true, false, Option, none, some, arith, if◌then◌else◌,
  length,
}
use blockvisor.NodeState.{StateBackup, NodeState, failed}
use blockvisor.Node.{◌then◌, save_state, change, save_expected_status}
use blockvisor.Node.Keeps.{mask, save_state-keeps}
use blockvisor.Node.Attempt.{Host, Upgrade, on_node, try_upgrade, assigned, wanted}
use blockvisor.Node.Rollback.{
  Outcome, Rollback, rollback, try_rollback, end_rollback, outcome_of, or_internal, end_upgrade,
  upgraded, rolled_back, upgrade_failure, blocking_job_running, internal, undone_cpus,
}
use blockvisor.Node.Upgrade.{
  resume_upgrade, end_try, failed_upgrade, swap_back, swap_with, same_stamp, of_desired,
  finish_upgrade,
}
use blockvisor.Node.Upgrade.Undo.{kept-plan, on_node-whole}
use blockvisor.Node.Upgrade.Decided.{try_upgrade-Assigns, Assigns}
use blockvisor.Node.Upgrade.Prepared.{Ready, is_active}
use blockvisor.Node.Upgrade.Sizes.{try_upgrade-length}
use blockvisor.Node.Upgrade.Restored.{Seen, seen, restored, rollback-seen}
use blockvisor.Node.Upgrade.Finished.{
  Done, finish_upgrade-Done, finish_upgrade-inactive, ended-inactive,
}

abbrev backup_or : StateBackup → Option StateBackup → StateBackup
backup_or other none = other
backup_or other (some backup) = backup

swapped-restored :
    (saves : Bool) (backup : StateBackup) (host : Host)
    → restored (on_node (change (swap_with backup) then save_state saves) host).0
      ≡ (mask backup, undone_cpus host)
unfolding ◌then◌ swap_with
swapped-restored saves backup host =
    ap (λ w. (w.0, w.1.1))
      ((on_node-whole (kept-plan (save_state-keeps saves))).kept_by
        ((on_node (change (swap_with backup)) host).0))

failed-inactive :
    (saves : Bool) (host : Host)
    → is_active (on_node (change end_upgrade then save_expected_status saves failed) host).0.node
      ≡ false
unfolding ◌then◌
failed-inactive true host = refl
failed-inactive false host = refl

module _ (desired : NodeState) (before : Host) where
  -- What is so once an upgrade has ended.
  abbrev pub Right : Outcome → Host → Type 0
  Right upgraded host = Done desired before host
  Right rolled_back host = seen host ≡ seen before
  Right upgrade_failure host = Unit {0}
  Right blocking_job_running host = Unit {0}
  Right internal host = Unit {0}

  -- The details are back already, and the rest is still to be rolled back.
  pub record Backward (host : Host) : Type 0 where
    pub asked : host.node.state.upgrade_state.need_rollback ≡ true
    pub restores : restored host ≡ seen before

  abbrev pub Forward : Host → Type 0
  Forward = Ready (seen before) (of_desired desired)

  abbrev pub Goes : Host → Type 0
  Goes host = Forward host ⊎ Backward host

  -- It ended right, or can go on.
  pub record Judged (end : Host × Outcome) : Type 0 where
    pub right : Right end.1 end.0
    pub going : is_active end.0.node ≡ true → Goes end.0

  pub internal-Judged : (host : Host) → Goes host → Judged (host, internal)
  internal-Judged host goes = record { right = tt; going = λ _. goes }

  outcome_of-Judged :
      (outcome : Outcome) (r : Host × Bool)
      → ((outcome_of outcome r).1 ≡ outcome → Right outcome (outcome_of outcome r).0)
      → is_active r.0.node ≡ false
      → Judged (outcome_of outcome r)
  outcome_of-Judged outcome (host, true) h e = record {
    right = h refl;
    going = λ active. absurd (ground (arith, active, e));
  }
  outcome_of-Judged outcome (host, false) h e = record {
    right = tt;
    going = λ active. absurd (ground (arith, active, e));
  }

  or_internal-Judged :
      (r : Host × Bool) (rest : Host → Host × Outcome)
      → (r.1 ≡ true → Judged (rest r.0))
      → (is_active r.0.node ≡ true → Goes r.0)
      → Judged (or_internal r rest)
  or_internal-Judged (host, true) rest h k = h refl
  or_internal-Judged (host, false) rest h k = record { right = tt; going = k }

  pub if-Judged :
      (b : Bool) (x y : Host × Outcome)
      → (b ≡ true → Judged x)
      → (b ≡ false → Judged y)
      → Judged (if b then x else y)
  if-Judged true x y h k = h refl
  if-Judged false x y h k = k refl

  end_rollback-Judged :
      (back : Rollback) (r : Host × Bool)
      → ((end_rollback back r).1 ≡ rolled_back → seen (end_rollback back r).0 ≡ seen before)
      → Judged (end_rollback back r)
  end_rollback-Judged back (host, true) h =
      outcome_of-Judged rolled_back
        (on_node (change end_upgrade then save_state back.saves_rolled_back) host) h
        (ended-inactive back.saves_rolled_back host)
  end_rollback-Judged back (host, false) h =
      outcome_of-Judged upgrade_failure
        (on_node (change end_upgrade then save_expected_status back.saves_failed failed) host)
        (λ _. tt) (failed-inactive back.saves_failed host)

  rollback-Judged :
      (back : Rollback) (host : Host) → restored host ≡ seen before → Judged (rollback back host)
  unfolding rollback
  rollback-Judged back host h =
      end_rollback-Judged back (try_rollback back host) (λ e. rollback-seen back host e ∙ h)

  swapped-Backward :
      (saves : Bool) (backup : StateBackup) (host : Host)
      → ◌≡◌ {A = Seen} (mask backup, undone_cpus host) (seen before)
      → Backward (on_node (change (swap_with backup) then save_state saves) host).0
  unfolding ◌then◌ swap_with
  swapped-Backward saves backup host h = record {
    asked =
        ap (λ w. w.1.0.1.1)
          ((on_node-whole (kept-plan (save_state-keeps saves))).kept_by
            ((on_node (change (swap_with backup)) host).0));
    restores = swapped-restored saves backup host ∙ h;
  }

  swap_back-Judged :
      (env : Upgrade) (back : Rollback) (found : Option StateBackup) (host : Host)
      (ready : Forward host)
      → found ≡ some ready.backup
      → Judged (swap_back env back found host)
  unfolding swap_back
  swap_back-Judged env back none host ready h = absurd (ground (arith, h))
  swap_back-Judged env back (some found) host ready h =
      let swapped = on_node (change (swap_with found) then save_state env.saves_swapped) host in
      let same = ap (λ o. (mask (backup_or found o), undone_cpus host)) h ∙ ready.same in
      let backward = swapped-Backward env.saves_swapped found host same in
      or_internal-Judged swapped (rollback back)
        (λ _. rollback-Judged back swapped.0 backward.restores) (λ _. inr backward)

  failed_upgrade-Judged :
      (env : Upgrade) (back : Rollback) (stamp : Option (Option ℕ)) (host : Host)
      → Forward host
      → Judged (failed_upgrade env back stamp host)
  unfolding failed_upgrade
  failed_upgrade-Judged env back none host ready = internal-Judged host (inl ready)
  failed_upgrade-Judged env back (some stamp) host ready =
      let found = host.node.state.upgrade_state.state_backup in
      if-Judged (same_stamp host.node.state.upgrade_state.data_stamp stamp)
        (swap_back env back found host) (host, upgrade_failure)
        (λ _. swap_back-Judged env back found host ready (ap (λ l. l.0) ready.goes_on))
        (λ _. record { right = tt; going = λ _. inl ready })

  tried-Forward : (host tried : Host) → Forward host → Assigns host tried → Forward tried
  tried-Forward host tried ready (same, decided) = record {
    backup = ready.backup;
    goes_on = ap (λ w. w.1.0) same ∙ ready.goes_on;
    planned = inr decided;
    same = ap (λ w. (mask ready.backup, w.1.1)) same ∙ ready.same;
    given = ap (λ w. w.0) same ∙ ready.given;
  }

  upgraded_end :
      (r : Host × Bool) → Done desired before r.0 → Done desired before (outcome_of upgraded r).0
  upgraded_end (host, true) h = h
  upgraded_end (host, false) h = h

  end_try-Judged :
      (env : Upgrade) (back : Rollback) (host : Host) (r : Host × Bool)
      → Forward host
      → Assigns host r.0
      → (r.1 ≡ true → length (assigned r.0) ≡ wanted host)
      → Judged (end_try env back r)
  unfolding end_try
  end_try-Judged env back host (tried, true) ready assigns size =
      let done =
        finish_upgrade-Done env.saves_upgraded desired before host tried ready assigns.0
          (size refl) in
      outcome_of-Judged upgraded (finish_upgrade env.saves_upgraded tried)
        (λ _. upgraded_end (finish_upgrade env.saves_upgraded tried) done)
        (finish_upgrade-inactive env.saves_upgraded tried)
  end_try-Judged env back host (tried, false) ready assigns size =
      failed_upgrade-Judged env back env.stamp_after tried (tried-Forward host tried ready assigns)

  pub resume_upgrade-Judged :
      (env : Upgrade) (back : Rollback) (host : Host)
      → Goes host
      → Judged (resume_upgrade env back host)
  unfolding resume_upgrade
  resume_upgrade-Judged env back host (inl ready) =
      let asked = ap (λ l. l.1.1) ready.goes_on in
      if-Judged host.node.state.upgrade_state.need_rollback (rollback back host)
        (end_try env back (try_upgrade env host)) (λ e. absurd (ground (arith, e, asked)))
        (λ _.
          end_try-Judged env back host (try_upgrade env host) ready
            (try_upgrade-Assigns env host ready.planned) (try_upgrade-length env host))
  resume_upgrade-Judged env back host (inr backward) =
      if-Judged host.node.state.upgrade_state.need_rollback (rollback back host)
        (end_try env back (try_upgrade env host)) (λ _. rollback-Judged back host backward.restores)
        (λ e. absurd (ground (arith, e, backward.asked)))
