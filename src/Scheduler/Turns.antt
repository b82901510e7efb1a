-- ===== src/Scheduler/Turns.antt =====
-- One round of the worker of bv/src/scheduler.rs handles a task at the times that are due.
use blockvisor.Common.{
  ℕ, zero, suc, ◌+◌, ◌-◌, ◌≤◌, ◌<◌, ◌≡◌, refl, sym, ap, ◌∙◌, ◌⊎◌, inl, inr, Bool, true, false,
  Option, none, some, [], ◌∷◌, ◌++◌, map, arith, Option-cases,
}
use Prim.Native.String.{String}
use native.Mathlib.Decide.{dec_le}
use blockvisor.Scheduler.{Scheduled, Turn, no_next, waits, Turned, new_ttn, turn}
use blockvisor.Scheduler.Times.{Cron, times, times-append, times-empty, times-first}

module _ (is_time : String → ℕ → Bool) (next_after : String → ℕ → Option ℕ)
    (cron : Cron is_time next_after) where
  -- The loop ends as there is no time after now, or it waits until the first one.
  abbrev pub EndsAt : String → ℕ → Turn → Type 0
  EndsAt s now end =
      ((end ≡ no_next) × ((b : ℕ) → now < b → is_time s b ≡ false))
      ⊎ ((ttn : ℕ) × (end ≡ waits ttn)
          × (0 < ttn)
          × (is_time s (now + ttn) ≡ true)
          × ((b : ℕ) → now < b → b < now + ttn → is_time s b ≡ false))

  abbrev pub Handles : ℕ → Scheduled → ℕ → Turned → Type 0
  Handles now task timestamp r =
      (r.0
        ≡ map (λ (time : ℕ). (time, task))
            (times is_time task.schedule timestamp (now - timestamp)))
      × EndsAt task.schedule now r.1

  ttn-due : (next now : ℕ) → next ≤ now → new_ttn next now ≡ none
  ttn-due next now h = ground arith

  ttn-later : (next now : ℕ) → now < next → new_ttn next now ≡ some (next - now)
  ttn-later next now h = ground arith

  times-next :
      (s : String) (timestamp next now : ℕ)
      → next_after s timestamp ≡ some next
      → next ≤ now
      → next ∷ times is_time s next (now - next) ≡ times is_time s timestamp (now - timestamp)
  times-next s timestamp next now e h =
      let later = cron.later s timestamp next e in
      let n = next - timestamp - 1 in
      let first =
        times-first is_time s n timestamp next (omega arith) (cron.is_next s timestamp next e)
          (λ b. cron.is_first s timestamp next b e) in
      ap (λ xs. xs ++ times is_time s next (now - next)) (sym first)
      ∙ times-append is_time s (suc n) timestamp (now - next) next (now - timestamp) (omega arith)
          (omega arith)

  turn-waits :
      (task : Scheduled) (timestamp next now : ℕ)
      → next_after task.schedule timestamp ≡ some next
      → timestamp ≤ now
      → now < next
      → Handles now task timestamp ([], waits (next - now))
  turn-waits task timestamp next now e le h =
      let s = task.schedule in
      let there : now + (next - now) ≡ next = omega arith in
      let nothing =
        times-empty is_time s (now - timestamp) timestamp
          (λ b after before. cron.is_first s timestamp next b e after (omega arith)) in
      (
        ap (map (λ (time : ℕ). (time, task))) (sym nothing),
        inr (
          next - now,
          refl,
          omega arith,
          ap (is_time s) there ∙ cron.is_next s timestamp next e,
          λ b after before. cron.is_first s timestamp next b e (omega arith) (omega arith),
        ),
      )

  turn-ends :
      (task : Scheduled) (timestamp now : ℕ)
      → next_after task.schedule timestamp ≡ none
      → timestamp ≤ now
      → Handles now task timestamp ([], no_next)
  turn-ends task timestamp now e le =
      let s = task.schedule in
      let nothing =
        times-empty is_time s (now - timestamp) timestamp
          (λ b after before. cron.no_more s timestamp b e after) in
      (
        ap (map (λ (time : ℕ). (time, task))) (sym nothing),
        inl (refl, λ b after. cron.no_more s timestamp b e (omega arith)),
      )

  -- The fuel is enough: with one round more than there are times from `timestamp` to now, the loop
  -- handles the task once at each time of its schedule that is later than `timestamp` and not later
  -- than now, in order, and ends for one of its two reasons.
  pub turn-Handles :
      (fuel now : ℕ) (task : Scheduled) (timestamp : ℕ)
      → timestamp ≤ now
      → now - timestamp < fuel
      → Handles now task timestamp (turn next_after fuel now task timestamp)
  unfolding turn
  turn-Handles zero now task timestamp le enough = absurd (omega arith)
  turn-Handles (suc fuel) now task timestamp le enough =
      let s = task.schedule in
      elim (Option-cases (next_after s timestamp)) [
        | inl e ↦ rw e (turn-ends task timestamp now e le)
        | inr (next, e) ↦ elim (dec_le next now) [
          | yes due ↦
              let later = cron.later s timestamp next e in
              let (handled, end) = turn-Handles fuel now task next due (omega arith) in
              rw (e, ttn-due next now due)
                (
                  ap (◌∷◌ (next, task)) handled
                      ∙ ap (map (λ (time : ℕ). (time, task)))
                          (times-next s timestamp next now e due),
                  end,
                )
          | no not_due ↦
              let h : now < next = omega arith in
              rw (e, ttn-later next now h) (turn-waits task timestamp next now e le h)
        ]
      ]
