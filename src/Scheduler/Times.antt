-- ===== src/Scheduler/Times.antt =====
-- The times of a schedule of the crate cron, and which of them the worker of bv/src/scheduler.rs
-- handles in one round.
use blockvisor.Common.{
  ℕ, zero, suc, ◌+◌, ◌≤◌, ◌<◌, ◌≡◌, refl, sym, ap, inl, inr, Bool, true, false, Option, none, some,
  List, [], ◌∷◌, ◌++◌, arith, if◌then◌else◌, Bool-cases,
}
use Prim.Native.String.{String}

-- What `after` of a schedule is documented to give: the first time of the schedule after the given one.
pub record Cron (is_time : String → ℕ → Bool) (next_after : String → ℕ → Option ℕ) : Type 0 where
  pub later : (s : String) (a n : ℕ) → next_after s a ≡ some n → a < n
  pub is_next : (s : String) (a n : ℕ) → next_after s a ≡ some n → is_time s n ≡ true
  pub is_first :
      (s : String) (a n b : ℕ) → next_after s a ≡ some n → a < b → b < n → is_time s b ≡ false
  pub no_more : (s : String) (a b : ℕ) → next_after s a ≡ none → a < b → is_time s b ≡ false

module _ (is_time : String → ℕ → Bool) where
  -- The times of a schedule among the `n` ones after `a`.
  abbrev pub times : String → ℕ → ℕ → List ℕ
  times s a zero = []
  times s a (suc n) =
      let rest = times s (a + 1) n in if is_time s (a + 1) then (a + 1) ∷ rest else rest

  pub times-append :
      (s : String) (m a n b k : ℕ)
      → b ≡ a + m
      → k ≡ m + n
      → times s a m ++ times s b n ≡ times s a k
  times-append s zero a n b k e f =
      let b-a : b ≡ a = omega arith in let k-n : k ≡ n = omega arith in rw (b-a, k-n) refl
  times-append s (suc m) a n b k e f =
      let k-suc : k ≡ suc (m + n) = omega arith in
      let rest = times-append s m (a + 1) n b (m + n) (omega arith) refl in
      rw k-suc (elim (Bool-cases (is_time s (a + 1))) [
        | inl h ↦ rw h (ap (◌∷◌ (a + 1)) rest)
        | inr h ↦ rw h rest
      ])

  pub times-empty :
      (s : String) (n a : ℕ)
      → ((b : ℕ) → a < b → b ≤ a + n → is_time s b ≡ false)
      → times s a n ≡ []
  times-empty s zero a h = refl
  times-empty s (suc n) a h =
      rw (h (a + 1) (omega arith) (omega arith))
        (times-empty s n (a + 1) (λ b later before. h b (omega arith) (omega arith)))

  -- Up to the first time after `a` there is only that one.
  pub times-first :
      (s : String) (n a next : ℕ)
      → next ≡ a + suc n
      → is_time s next ≡ true
      → ((b : ℕ) → a < b → b < next → is_time s b ≡ false)
      → times s a (suc n) ≡ next ∷ []
  times-first s zero a next e is h = let at : next ≡ a + 1 = omega arith in rw (sym at, is) refl
  times-first s (suc n) a next e is h =
      rw (h (a + 1) (omega arith) (omega arith))
        (times-first s n (a + 1) next (omega arith) is (λ b later before. h b (omega arith) before))
