-- ===== src/Retry.antt =====
-- `with_retry!` and `exp_backoff_timeout` of bv_utils/src/lib.rs. A call that is tried again is a
-- function of the number of the tries before it.
use blockvisor.Common.Outcome.{Outcome, ok, err, out_of_fuel}
use blockvisor.Common.{
  ℕ, zero, suc, ◌+◌, ◌*◌, ◌%◌, ◌^◌, ◌≤◌, ◌≡◌, refl, sym, ap, subst, ◌∙◌, ◌⊎◌, inl, inr, List, [],
  ◌∷◌, arith,
}

-- `backoff_base_ms * 2u64.pow(retry_count)`, in milliseconds: both wrap where overflow is unchecked.
unfoldable pub exp_backoff_timeout : ℕ → ℕ → ℕ
exp_backoff_timeout backoff_base_ms retry_count =
    backoff_base_ms * (2 ^ retry_count % 2 ^ 64) % 2 ^ 64

module _ {E A : Type 0} (call : ℕ → Outcome E A) (backoff_base_ms : ℕ) where
  -- The loop with `left` retries left; the list holds the times slept.
  retry_loop : ℕ → ℕ → List ℕ × Outcome E A
  unfolding exp_backoff_timeout
  retry_loop zero retry_count = ([], call retry_count)
  retry_loop (suc left) retry_count = elim (call retry_count) [
    | ok result ↦ ([], ok result)
    | out_of_fuel ↦ ([], out_of_fuel)
    | err e ↦
        let (slept, result) = retry_loop left (retry_count + 1) in
        (exp_backoff_timeout backoff_base_ms (retry_count + 1) ∷ slept, result)
  ]

  unfoldable pub with_retry : ℕ → List ℕ × Outcome E A
  unfolding retry_loop
  with_retry retry_max = retry_loop retry_max 0

  -- Every try from `k` on that is before `n` fails.
  abbrev pub Fails : ℕ → ℕ → Type 0
  Fails k zero = Unit {0}
  Fails k (suc n) = ((e : E) × (call k ≡ err e)) × Fails (k + 1) n

  -- The sleeps before the tries from `k` on.
  abbrev pub sleeps : ℕ → ℕ → List ℕ
  sleeps k zero = []
  sleeps k (suc n) = exp_backoff_timeout backoff_base_ms (k + 1) ∷ sleeps (k + 1) n

  loop_end :
      (n left k m : ℕ) (o : Outcome E A)
      → m ≡ k + n
      → Fails k n
      → call m ≡ o
      → ((a : A) × (o ≡ ok a) × (n ≤ left)) ⊎ ((e : E) × (o ≡ err e) × (n ≡ left))
      → retry_loop left k ≡ (sleeps k n, o)
  unfolding retry_loop
  loop_end zero zero k m o e f r h =
      let r' : call k ≡ o = subst (λ j. call j ≡ o) (omega arith) r in rw r'
  loop_end zero (suc left) k m o e f r (inl (a, is_ok, _)) =
      let r' : call k ≡ ok a = subst (λ j. call j ≡ o) (omega arith) r ∙ is_ok in
      rw (r', retry_loop) (ap (λ (x : Outcome E A). ([], x)) (sym is_ok))
  loop_end zero (suc left) k m o e f r (inr (x, _, last)) = absurd (omega arith)
  loop_end (suc n) zero k m o e f r h = absurd (ground arith)
  loop_end (suc n) (suc left) k m o e ((x, failed), f) r h =
      rw (failed, retry_loop) (rw (loop_end n left (k + 1) m o (omega arith) f r (ground arith)))

  -- A call whose first `n` tries fail, and whose next one is successful, is successful if there are
  -- at least `n` retries, after sleeps of twice the base, four times the base, and so on.
  pub with_retry-success :
      (n retry_max : ℕ) (a : A)
      → n ≤ retry_max
      → Fails 0 n
      → call n ≡ ok a
      → with_retry retry_max ≡ (sleeps 0 n, ok a)
  unfolding with_retry
  with_retry-success n retry_max a h f r =
      loop_end n retry_max 0 n (ok a) (omega arith) f r (inl (a, refl, h))

  -- A call that fails at every try fails with the error of the last one, the try after `retry_max`
  -- retries.
  pub with_retry-failure :
      (retry_max : ℕ) (e : E)
      → Fails 0 retry_max
      → call retry_max ≡ err e
      → with_retry retry_max ≡ (sleeps 0 retry_max, err e)
  unfolding with_retry
  with_retry-failure retry_max e f r =
      loop_end retry_max retry_max 0 retry_max (err e) (omega arith) f r (inr (e, refl, refl))
