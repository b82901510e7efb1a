-- ===== src/Node/Upgrade/Unread.antt =====
-- What becomes of an upgrade by bv/src/node.rs for which the stamp of the data can not be read.
use blockvisor.Common.{
  ℕ, ◌≡◌, refl, sym, ap, subst, ◌∙◌, inl, Bool, true, false, Option, none, some, List, arith,
  if◌then◌else◌, any,
}
use blockvisor.NodeState.{StateBackup, NodeState, running, failed, is_cpu_assignment}
use blockvisor.Node.Keeps.{mask}
use blockvisor.Node.{Node, ◌then◌, after, status, same_status}
use blockvisor.Node.Attempt.{Host, Upgrade, on_node, with_node, try_upgrade, assigned}
use blockvisor.Node.Rollback.{
  Outcome, Rollback, rollback, outcome_of, or_internal, upgraded, upgrade_failure, internal,
}
use blockvisor.Node.Upgrade.{
  upgrade, begin_upgrade, reset_upgrade, prepare, stop_running, stamp_and_activate, resume_upgrade,
  end_try, failed_upgrade, swap_back, same_stamp, finish_upgrade,
}
use blockvisor.Node.Upgrade.Undo.{Ledger, ledger}
use blockvisor.Node.Upgrade.Decided.{try_upgrade-Assigns}
use blockvisor.Node.Upgrade.Prepared.{is_active, begun, stop_running-begun, with_node-parts}
use blockvisor.Node.Upgrade.Finished.{finish_upgrade-seen}

-- What such an upgrade leaves: it is active, without a backup, and with the details that there were.
abbrev Left : StateBackup → Node → Type 0
Left details node =
    (◌≡◌ {A = Ledger} (ledger node.state.upgrade_state) (none, (true, false)))
    × ((mask node.state.details ≡ details)
        × (any is_cpu_assignment node.state.upgrade_state.steps ≡ false))

abbrev Leaves : StateBackup → Host × Outcome → Type 0
Leaves details end = is_active end.0.node ≡ true → Left details end.0.node

if-Leaves :
    (details : StateBackup) (b : Bool) (x y : Host × Outcome)
    → (b ≡ true → Leaves details x)
    → (b ≡ false → Leaves details y)
    → Leaves details (if b then x else y)
if-Leaves details true x y h k = h refl
if-Leaves details false x y h k = k refl

unread-Left :
    (env : Upgrade) (desired : NodeState) (r : Node × Bool) (details : StateBackup) (cpus : List ℕ)
    → begun r.0 ≡ (details, (cpus, ((none, (false, false)), false)))
    → is_active (after (stamp_and_activate env desired none) r).0 ≡ true
    → Left details (after (stamp_and_activate env desired none) r).0
unfolding ◌then◌
unread-Left env desired (node, false) details cpus b active =
    absurd (ground (arith, active, ap (λ v. v.1.1.0.1.0) b))
unread-Left env desired (node, true) details cpus b active =
    (ap (λ v. (v.1.1.0.0, (true, v.1.1.0.1.1))) b, (ap (λ v. v.0) b, ap (λ v. v.1.1.1) b))

unread-fails :
    (env : Upgrade) (desired : NodeState) (r : Node × Bool)
    → (after (stamp_and_activate env desired none) r).1 ≡ false
unfolding ◌then◌
unread-fails env desired (node, true) = refl
unread-fails env desired (node, false) = refl

or_internal-failed :
    (r : Host × Bool) (rest : Host → Host × Outcome)
    → r.1 ≡ false
    → or_internal r rest ≡ (r.0, internal)
or_internal-failed (host, true) rest e = absurd (ground arith)
or_internal-failed (host, false) rest e = refl

module _ (env : Upgrade) (back : Rollback) (desired : NodeState) (before : Host) where
  abbrev old_details : StateBackup
  old_details = mask before.node.state.details

  prepared-Leaves :
      (runs : Bool)
      → env.stamp_before ≡ none
      → Leaves old_details (
          or_internal
            (on_node (prepare env desired runs) (reset_upgrade before))
            (resume_upgrade env back))
  unfolding prepare ◌then◌
  prepared-Leaves runs unread =
      let host = reset_upgrade before in
      let first = stop_running env runs host.node in
      let prepared = prepare env desired runs host.node in
      let parts = with_node-parts host prepared in
      let stamped : prepared ≡ after (stamp_and_activate env desired none) first =
        ap (λ s. after (stamp_and_activate env desired s) first) unread in
      let ended =
        or_internal-failed (with_node host prepared) (resume_upgrade env back)
          (ap (λ r. r.1) parts ∙ ap (λ r. r.1) stamped ∙ unread-fails env desired first) in
      let same =
        ap (λ (end : Host × Outcome). end.0.node) ended
        ∙ ap (λ r. r.0.node) parts
        ∙ ap (λ r. r.0) stamped in
      λ active. subst (Left old_details) (sym same) (
        unread-Left env desired first old_details (assigned before)
          (stop_running-begun env runs before) (sym (ap is_active same) ∙ active))

  begin-Leaves :
      (runs : Bool) (blocking_job : Option Bool)
      → env.stamp_before ≡ none
      → Leaves old_details (begin_upgrade env back desired runs blocking_job (reset_upgrade before))
  unfolding begin_upgrade
  begin-Leaves true none unread = λ active. absurd (ground (arith, active))
  begin-Leaves true (some true) unread = λ active. absurd (ground (arith, active))
  begin-Leaves true (some false) unread = prepared-Leaves true unread
  begin-Leaves false none unread = prepared-Leaves false unread
  begin-Leaves false (some b) unread = prepared-Leaves false unread

  upgrade-Leaves :
      is_active before.node ≡ false
      → env.stamp_before ≡ none
      → Leaves old_details (upgrade env back desired before)
  unfolding upgrade
  upgrade-Leaves fresh unread =
      let runs = same_status (status before.node) running in
      let begins = begin_upgrade env back desired runs env.blocking_job (reset_upgrade before) in
      let resumes = resume_upgrade env back before in
      if-Leaves old_details (same_status (status before.node) failed) (before, internal)
        (if is_active before.node then resumes else begins)
        (λ _ active. absurd (ground (arith, active, fresh)))
        (λ _.
          if-Leaves old_details (is_active before.node) resumes begins
            (λ active. absurd (ground (arith, active, fresh)))
            (λ _. begin-Leaves runs env.blocking_job unread))

-- How the next call ends: where it ends as upgraded, the details are these.
abbrev Gives : StateBackup → Host × Outcome → Type 0
Gives details end = end.1 ≡ upgraded → mask end.0.node.state.details ≡ details

if-Gives :
    (details : StateBackup) (b : Bool) (x y : Host × Outcome)
    → (b ≡ true → Gives details x)
    → (b ≡ false → Gives details y)
    → Gives details (if b then x else y)
if-Gives details true x y h k = h refl
if-Gives details false x y h k = k refl

swap_back-Gives :
    (env : Upgrade) (back : Rollback) (found : Option StateBackup) (host : Host)
    (details : StateBackup)
    → found ≡ none
    → Gives details (swap_back env back found host)
unfolding swap_back
swap_back-Gives env back none host details h = λ e. absurd (ground arith)
swap_back-Gives env back (some backup) host details h = absurd (ground arith)

failed_upgrade-Gives :
    (env : Upgrade) (back : Rollback) (stamp : Option (Option ℕ)) (host : Host)
    (details : StateBackup)
    → host.node.state.upgrade_state.state_backup ≡ none
    → Gives details (failed_upgrade env back stamp host)
unfolding failed_upgrade
failed_upgrade-Gives env back none host details h = λ e. absurd (ground arith)
failed_upgrade-Gives env back (some stamp) host details h =
    let found = host.node.state.upgrade_state.state_backup in
    if-Gives details (same_stamp host.node.state.upgrade_state.data_stamp stamp)
      (swap_back env back found host) (host, upgrade_failure)
      (λ _. swap_back-Gives env back found host details h) (λ _ e. absurd (ground arith))

outcome_of-same : (r : Host × Bool) → (outcome_of upgraded r).0 ≡ r.0
outcome_of-same (host, true) = refl
outcome_of-same (host, false) = refl

end_try-Gives :
    (env : Upgrade) (back : Rollback) (r : Host × Bool) (details : StateBackup)
    → r.0.node.state.upgrade_state.state_backup ≡ none
    → mask r.0.node.state.details ≡ details
    → Gives details (end_try env back r)
unfolding end_try
end_try-Gives env back (host, true) details h same = λ _.
    ap (λ (end : Host). mask end.node.state.details)
      (outcome_of-same (finish_upgrade env.saves_upgraded host))
    ∙ ap (λ s. s.0) (finish_upgrade-seen env.saves_upgraded host)
    ∙ same
end_try-Gives env back (host, false) details h same =
    failed_upgrade-Gives env back env.stamp_after host details h

resume_upgrade-Gives :
    (env : Upgrade) (back : Rollback) (host : Host) (details : StateBackup)
    → Left details host.node
    → Gives details (resume_upgrade env back host)
unfolding resume_upgrade
resume_upgrade-Gives env back host details (goes_on, (same, no_cpus)) =
    let (kept_whole, _) = try_upgrade-Assigns env host (inl no_cpus) in
    if-Gives details host.node.state.upgrade_state.need_rollback (rollback back host)
      (end_try env back (try_upgrade env host))
      (λ asked. absurd (ground (arith, asked, ap (λ l. l.1.1) goes_on)))
      (λ _.
        end_try-Gives env back (try_upgrade env host) details
          (ap (λ w. w.1.0.0) kept_whole ∙ ap (λ l. l.0) goes_on) (ap (λ w. w.0) kept_whole ∙ same))

upgrade-Gives :
    (env : Upgrade) (back : Rollback) (desired : NodeState) (host : Host) (details : StateBackup)
    → is_active host.node ≡ true
    → Left details host.node
    → Gives details (upgrade env back desired host)
unfolding upgrade
upgrade-Gives env back desired host details active left =
    let runs = same_status (status host.node) running in
    let begins = begin_upgrade env back desired runs env.blocking_job (reset_upgrade host) in
    let resumes = resume_upgrade env back host in
    if-Gives details (same_status (status host.node) failed) (host, internal)
      (if is_active host.node then resumes else begins) (λ _ e. absurd (ground arith))
      (λ _.
        if-Gives details (is_active host.node) resumes begins
          (λ _. resume_upgrade-Gives env back host details left)
          (λ e. absurd (ground (arith, e, active))))

-- Where the stamp of the data can not be read, and the upgrade is active after that call, the next
-- call that ends as upgraded leaves the node with the details that it had before the upgrade, but for
-- whether it is initialized, whatever is desired.
pub upgrade-unread :
    (env next : Upgrade) (back back' : Rollback) (desired desired' : NodeState) (host end : Host)
    → host.node.state.upgrade_state.active ≡ false
    → env.stamp_before ≡ none
    → (upgrade env back desired host).0.node.state.upgrade_state.active ≡ true
    → upgrade next back' desired' (upgrade env back desired host).0 ≡ (end, upgraded)
    → mask end.node.state.details ≡ mask host.node.state.details
upgrade-unread env next back back' desired desired' host end fresh unread active h =
    let first = upgrade env back desired host in
    let left = upgrade-Leaves env back desired host fresh unread active in
    let gives =
      upgrade-Gives next back' desired' first.0 (mask host.node.state.details) active left in
    sym (ap (λ e. mask e.0.node.state.details) h) ∙ gives (ap (λ e. e.1) h)
