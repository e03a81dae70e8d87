-- ===== src/Client/Outcomes.antt =====
-- The loop over attempts: which attempt decides the outcome.
use skyl.Prelude.{
  ℕ, zero, suc, ◌+◌, ◌-◌, ◌≤◌, ◌<◌, ◌≡◌, refl, sym, ◌∙◌, true, false, not, ◌||◌, inl, inr,
  Bool-cases, Option, none, arith,
}
use native.Mathlib.Nat.{zero-add, add-zero}
use skyl.Errors.{GoError, is_nil}
use skyl.Client.{Client}
use skyl.Client.Attempts.{Wait-cases}
use skyl.Client.Loop.{
  Reply, Surroundings, Operation, returned, Run, giving_up, ready, wait_before, conclude, attempts,
}

returned_injective :
    {B : Type 0} {v w : Option B} {e f : GoError} → returned v e ≡ returned w f → (v ≡ w) × (e ≡ f)
returned_injective h = (cc, cc)

nil_fails : {e : GoError} → e ≡ GoError.nil → is_nil e ≡ false → ⊥
unfolding is_nil
nil_fails h k = cc (rw h at k)

module _ {A B : Type 0} (c : Client) (env : Surroundings A) (op : Operation A B) where
  abbrev pub reply_to : ℕ → Reply A
  reply_to n = env.reply n op.deadline

  -- Attempt `n`, after the error `last`, is made, fails, and is to be tried again.
  pub record IsRetried (n : ℕ) (last : GoError) : Type 0 where
    pub waits : wait_before c env op n last ≡ ready
    pub fails : is_nil (reply_to n).error ≡ false
    pub retries : op.is_final (reply_to n).error ≡ false
    pub live : is_nil (env.ctx_err n) ≡ true

  -- The first `k` attempts from `n` on are all retried.
  abbrev pub AllRetried : ℕ → ℕ → GoError → Type 0
  AllRetried zero n last = Unit
  AllRetried (suc k) n last = IsRetried n last × AllRetried k (suc n) (reply_to n).error

  -- The error of the last of `k` attempts from `n` on; `last` if there are none.
  abbrev pub last_error : ℕ → ℕ → GoError → GoError
  last_error zero n last = last
  last_error (suc k) n last = last_error k (suc n) (reply_to n).error

  attempts_retried :
      (left n : ℕ) (last : GoError)
      → IsRetried n last
      → ((attempts c env op (suc left) n last).outcome
          ≡ (attempts c env op left (suc n) (reply_to n).error).outcome)
        × ((attempts c env op (suc left) n last).calls
            ≡ suc (attempts c env op left (suc n) (reply_to n).error).calls)
  unfolding attempts conclude
  attempts_retried left n last h =
      rw (h.waits, attempts, h.fails, h.retries, h.live, conclude) (refl, refl)

  -- Attempts that are retried are followed by the next ones, and each counts as one call.
  pub attempts_skip :
      (k left n : ℕ) (last : GoError)
      → AllRetried k n last
      → ((attempts c env op (k + left) n last).outcome
          ≡ (attempts c env op left (k + n) (last_error k n last)).outcome)
        × ((attempts c env op (k + left) n last).calls
            ≡ k + (attempts c env op left (k + n) (last_error k n last)).calls)
  attempts_skip zero left n last h = simp zero-add (refl, refl)
  attempts_skip (suc k) left n last h =
      let e : suc k + left ≡ suc (k + left) = omega arith in
      let e' : suc k + n ≡ k + suc n = omega arith in
      let first = attempts_retried (k + left) n last h.0 in
      let others = attempts_skip k left (suc n) (reply_to n).error h.1 in
      rw (e, e') (first.0 ∙ others.0, omega (arith, first.1, others.1))

  -- A reply without error ends the loop with its value.
  pub attempts_success :
      (left n : ℕ) (last : GoError)
      → wait_before c env op n last ≡ ready
      → is_nil (reply_to n).error ≡ true
      → ((attempts c env op (suc left) n last).outcome
          ≡ returned (op.success n (reply_to n).value) GoError.nil)
        × ((attempts c env op (suc left) n last).calls ≡ 1)
  unfolding attempts conclude
  attempts_success left n last w h = rw (w, attempts, h, conclude) (refl, refl)

  -- An error that is final, or that comes after the context has ended, ends the loop as it is.
  pub attempts_final :
      (left n : ℕ) (last : GoError)
      → wait_before c env op n last ≡ ready
      → is_nil (reply_to n).error ≡ false
      → (op.is_final (reply_to n).error || not (is_nil (env.ctx_err n))) ≡ true
      → ((attempts c env op (suc left) n last).outcome ≡ returned none (reply_to n).error)
        × ((attempts c env op (suc left) n last).calls ≡ 1)
  unfolding attempts conclude
  attempts_final left n last w h f = rw (w, attempts, h, f, conclude) (refl, refl)

  -- A call of `total` rounds whose first `k` attempts are retried and whose next one succeeds.
  pub attempts_first_success :
      (k total : ℕ)
      → k < total
      → AllRetried k 0 GoError.nil
      → wait_before c env op k (last_error k 0 GoError.nil) ≡ ready
      → is_nil (reply_to k).error ≡ true
      → ((attempts c env op total 0 GoError.nil).outcome
          ≡ returned (op.success k (reply_to k).value) GoError.nil)
        × ((attempts c env op total 0 GoError.nil).calls ≡ suc k)
  attempts_first_success k total small before waits fine =
      let rounds : total ≡ k + suc (total - suc k) = omega arith in
      let (same, counted) = attempts_skip k (suc (total - suc k)) 0 GoError.nil before in
      let last = attempts_success (total - suc k) k (last_error k 0 GoError.nil) waits fine in
      rw rounds (rw add-zero at same ∙ last.0, omega (arith, rw add-zero at counted, last.1))

  -- The same where the next attempt fails for good.
  pub attempts_first_final :
      (k total : ℕ)
      → k < total
      → AllRetried k 0 GoError.nil
      → wait_before c env op k (last_error k 0 GoError.nil) ≡ ready
      → is_nil (reply_to k).error ≡ false
      → (op.is_final (reply_to k).error || not (is_nil (env.ctx_err k))) ≡ true
      → ((attempts c env op total 0 GoError.nil).outcome ≡ returned none (reply_to k).error)
        × ((attempts c env op total 0 GoError.nil).calls ≡ suc k)
  attempts_first_final k total small before waits bad over =
      let rounds : total ≡ k + suc (total - suc k) = omega arith in
      let (same, counted) = attempts_skip k (suc (total - suc k)) 0 GoError.nil before in
      let last = attempts_final (total - suc k) k (last_error k 0 GoError.nil) waits bad over in
      rw rounds (rw add-zero at same ∙ last.0, omega (arith, rw add-zero at counted, last.1))

  -- If every attempt is retried, the loop gives up after `left` calls, and its error wraps the last.
  pub attempts_exhausted :
      (left n : ℕ) (last : GoError)
      → AllRetried left n last
      → ((attempts c env op left n last).outcome
          ≡ returned none (giving_up (last_error left n last)))
        × ((attempts c env op left n last).calls ≡ left)
  unfolding attempts
  attempts_exhausted zero n last h = (refl, refl)
  attempts_exhausted (suc left) n last h =
      let first = attempts_retried left n last h.0 in
      let others = attempts_exhausted left (suc n) (reply_to n).error h.1 in
      (first.0 ∙ others.0, omega (arith, first.1, others.1))

  -- A success rests on a reply of the provider without error, in one of the rounds.
  abbrev pub IsGrounded : ℕ → ℕ → Option B → Type 0
  IsGrounded left n v =
      (m : ℕ) × (n ≤ m)
      × (m < n + left)
      × (is_nil (reply_to m).error ≡ true)
      × (v ≡ op.success m (reply_to m).value)

  conclude-IsGrounded :
      (left n : ℕ) (rest : Run B) {v : Option B}
      → (rest.outcome ≡ returned v GoError.nil → IsGrounded left (suc n) v)
      → (conclude c env op n (reply_to n) rest).outcome ≡ returned v GoError.nil
      → IsGrounded (suc left) n v
  unfolding conclude is_nil
  conclude-IsGrounded left n rest {v} ih h =
      let r = reply_to n in
      elim (Bool-cases (is_nil r.error)) [
        | inl fine ↦ (
          n,
          omega arith,
          omega arith,
          fine,
          sym (returned_injective (rw (fine, conclude) at h)).0,
        )
        | inr bad ↦ elim (Bool-cases (op.is_final r.error || not (is_nil (env.ctx_err n)))) [
          | inl over ↦ absurd (nil_fails (returned_injective (rw (bad, over, conclude) at h)).1 bad)
          | inr again ↦
              let (m, above, below, fine, from) = ih (rw (bad, again, conclude) at h) in
              (m, omega arith, omega arith, fine, from)
        ]
      ]

  pub attempts-IsGrounded :
      (left n : ℕ) (last : GoError) {v : Option B}
      → (attempts c env op left n last).outcome ≡ returned v GoError.nil
      → IsGrounded left n v
  unfolding attempts
  attempts-IsGrounded zero n last h = cc
  attempts-IsGrounded (suc left) n last {v} h = elim (Wait-cases (wait_before c env op n last)) [
    | inl go ↦
        conclude-IsGrounded left n (attempts c env op left (suc n) (reply_to n).error)
          (attempts-IsGrounded left (suc n) (reply_to n).error) (rw (go, attempts) at h)
    | inr (inl (e, stop)) ↦ cc (rw (stop, attempts) at h)
    | inr (inr stop) ↦ cc (rw (stop, attempts) at h)
  ]
