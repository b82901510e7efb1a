-- ===== src/Scheduler/Names.antt =====
-- The names of the tasks of bv/src/scheduler.rs: a task replaces the one with its name.
use blockvisor.Common.{
  ℕ, ◌≡◌, refl, sym, subst, inl, inr, true, false, not, [], ◌∷◌, ◌++◌, arith, All, retain,
  Bool-cases,
}
use Prim.Native.String.{String}
use package.text.Mathlib.Text.{◌==◌ as ◌=s◌}
use package.text.Mathlib.TextEquality.{eq_iff}
use blockvisor.Scheduler.{Scheduled, add, Tasks, handle_action}

abbrev pub others : String → Tasks → Tasks
others name = retain (λ ((_, existing) : ℕ × Scheduled). not (existing.name =s name))

-- Each task with the name of `task` is `task`.
abbrev pub IsOnly : Scheduled → Tasks → Type 0
IsOnly task = All (λ ((_, t) : ℕ × Scheduled). t.name ≡ task.name → t ≡ task)

others_named :
    (time : ℕ) (t : Scheduled) (tasks : Tasks) (name : String)
    → (t.name =s name) ≡ true
    → others name ((time, t) ∷ tasks) ≡ others name tasks
others_named time t tasks name e = ground arith

others_kept :
    (time : ℕ) (t : Scheduled) (tasks : Tasks) (name : String)
    → (t.name =s name) ≡ false
    → others name ((time, t) ∷ tasks) ≡ (time, t) ∷ others name tasks
others_kept time t tasks name e = ground arith

others-IsOnly :
    (now : ℕ) (task : Scheduled) (tasks : Tasks)
    → IsOnly task (others task.name tasks ++ (now, task) ∷ [])
others-IsOnly now task [] = (λ e. refl, tt)
others-IsOnly now task ((time, t) ∷ tasks) = elim (Bool-cases (t.name =s task.name)) [
  | inl e ↦
      subst (λ ts. IsOnly task (ts ++ (now, task) ∷ []))
        (sym (others_named time t tasks task.name e)) (others-IsOnly now task tasks)
  | inr e ↦
      subst (λ ts. IsOnly task (ts ++ (now, task) ∷ []))
        (sym (others_kept time t tasks task.name e))
        (λ same. absurd (ground (arith, eq_iff t.name task.name)), others-IsOnly now task tasks)
]

-- After a task is added, it is the only one with its name: a task of the same name is gone, also when
-- it is another node's. The tasks with other names are there as before, in front of the new one.
pub handle_action-IsOnly :
    (now : ℕ) (tasks : Tasks) (task : Scheduled)
    → IsOnly task (handle_action now tasks (add task))
      × (handle_action now tasks (add task) ≡ others task.name tasks ++ (now, task) ∷ [])
unfolding handle_action
handle_action-IsOnly now tasks task = (others-IsOnly now task tasks, refl)
