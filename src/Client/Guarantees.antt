-- ===== src/Client/Guarantees.antt =====
-- What `Complete`, `Stream` and `Models` promise their caller.
use skyl.Prelude.{
  ℕ, suc, ◌≤◌, ◌≡◌, refl, true, false, not, ◌||◌, inl, inr, Option, none, some, arith, Option-cases,
}
use skyl.Errors.{GoError, Target, is, is_nil, kind_of, bad_request}
use skyl.Retry.{should_retry}
use skyl.Request.{Request, Invalid, validate}
use skyl.Response.{Response}
use skyl.Client.{Client}
use skyl.Client.Attempts.{sent_by, attempts-Accounts}
use skyl.Client.Loop.{Surroundings, returned, failed, giving_up, ready, wait_before, attempts}
use skyl.Client.Operations.{invalid_request, completing, complete}
use skyl.Client.Outcomes.{
  reply_to, AllRetried, last_error, attempts_first_success, attempts_first_final,
  attempts_exhausted, attempts-IsGrounded,
}

module _ (c : Client) (env : Surroundings Response) (req : Request) where
  -- `Complete` calls the provider at most once more than the configured retries, and every hook sees
  -- one event for each call, in order, whatever the provider and the context do.
  pub complete_accounts :
      ((complete c env req).calls ≤ suc c.policy.max_retries)
      × ((complete c env req).deliveries
          ≡ sent_by c env (completing c env req) (complete c env req).calls 0)
  unfolding complete
  complete_accounts = elim (Option-cases (validate (some req))) [
    | inl fine ↦
        rw fine
          (attempts-Accounts c env (completing c env req) (suc c.policy.max_retries) 0 GoError.nil)
    | inr (e, bad) ↦ rw bad (omega arith, refl)
  ]

  -- A request that does not validate costs no call and no event, and its error is a bad request.
  pub complete_invalid :
      {e : Invalid}
      → validate (some req) ≡ some e
      → (complete c env req ≡ failed invalid_request)
        × (is invalid_request (kind_of bad_request) ≡ true)
  unfolding complete is
  complete_invalid h = (rw h, refl)

  module _ (valid : validate (some req) ≡ none) where
    complete-attempts :
        complete c env req
        ≡ attempts c env (completing c env req) (suc c.policy.max_retries) 0 GoError.nil
    unfolding complete
    complete-attempts = rw valid

    -- If the first `k` attempts are retried and the next one succeeds, within the configured
    -- retries, then its response is returned after `k + 1` calls.
    pub complete_success :
        (k : ℕ)
        → k ≤ c.policy.max_retries
        → AllRetried c env (completing c env req) k 0 GoError.nil
        → wait_before c env
            (completing c env req)
            k
            (last_error c env (completing c env req) k 0 GoError.nil)
          ≡ ready
        → is_nil (reply_to c env (completing c env req) k).error ≡ true
        → ((complete c env req).outcome
            ≡ returned (reply_to c env (completing c env req) k).value GoError.nil)
          × ((complete c env req).calls ≡ suc k)
    unfolding completing
    complete_success k small before waits fine = rw complete-attempts (
        attempts_first_success c env (completing c env req) k (suc c.policy.max_retries)
          (omega arith) before waits fine)

    -- If the first `k` attempts are retried and the next one fails with an error that is not worth
    -- a retry, or fails after the caller's context has ended, then that error is returned as it is,
    -- after `k + 1` calls.
    pub complete_failure :
        (k : ℕ)
        → k ≤ c.policy.max_retries
        → AllRetried c env (completing c env req) k 0 GoError.nil
        → wait_before c env
            (completing c env req)
            k
            (last_error c env (completing c env req) k 0 GoError.nil)
          ≡ ready
        → is_nil (reply_to c env (completing c env req) k).error ≡ false
        → (not (should_retry (reply_to c env (completing c env req) k).error)
            || not (is_nil (env.ctx_err k)))
          ≡ true
        → ((complete c env req).outcome
            ≡ returned none (reply_to c env (completing c env req) k).error)
          × ((complete c env req).calls ≡ suc k)
    unfolding completing
    complete_failure k small before waits bad over = rw complete-attempts (
        attempts_first_final c env (completing c env req) k (suc c.policy.max_retries) (omega arith)
          before waits bad over)

    -- If every attempt is retried, the call fails after exactly one call more than the configured
    -- retries, and its error matches what the last error of the provider matches.
    pub complete_exhausted :
        AllRetried c env (completing c env req) (suc c.policy.max_retries) 0 GoError.nil
        → (e : GoError) × ((complete c env req).outcome ≡ returned none e)
          × ((complete c env req).calls ≡ suc c.policy.max_retries)
          × ((t : Target)
              → is e t
                ≡ is
                    (last_error c env
                      (completing c env req)
                      (suc c.policy.max_retries)
                      0
                      GoError.nil)
                    t)
    unfolding is
    complete_exhausted all =
        let op = completing c env req in
        let total = suc c.policy.max_retries in
        let (gave_up, counted) = attempts_exhausted c env op total 0 GoError.nil all in
        (
          giving_up (last_error c env op total 0 GoError.nil),
          rw complete-attempts gave_up,
          rw complete-attempts counted,
          λ t. refl,
        )

  -- A response that `Complete` returns without error is what the provider returned without error
  -- in one of the allowed attempts.
  pub complete_grounded :
      {v : Option Response}
      → (complete c env req).outcome ≡ returned v GoError.nil
      → (m : ℕ) × (m ≤ c.policy.max_retries)
        × (is_nil (reply_to c env (completing c env req) m).error ≡ true)
        × (v ≡ (reply_to c env (completing c env req) m).value)
  unfolding complete completing
  complete_grounded {v} h = elim (Option-cases (validate (some req))) [
    | inl fine ↦
        let (m, above, below, answered, from) =
          attempts-IsGrounded c env (completing c env req) (suc c.policy.max_retries) 0 GoError.nil
            (rw fine at h) in
        (m, omega arith, answered, from)
    | inr (e, bad) ↦ cc (rw bad at h)
  ]
