-- ===== src/Client/Streams.antt =====
-- What is particular to `Stream` and `Models`.
use skyl.Prelude.{
  ℕ, zero, suc, ◌≤◌, ◌≡◌, refl, ap, ◌∙◌, Bool, true, false, List, null, inl, inr, none, some, arith,
  ℤ, if◌then◌else◌,
}
use skyl.Errors.{GoError, is, is_nil, kind_of, unsupported}
use skyl.Errors.Chain.{is-ne-nil}
use skyl.Request.{Request, validate}
use skyl.Response.{ModelInfo}
use skyl.Client.{Client, emit}
use skyl.Client.Attempts.{Wait-cases}
use skyl.Client.Loop.{
  Reply, Surroundings, Operation, returned, Run, ready, wait_before, conclude, attempts,
}
use skyl.Client.Operations.{
  after_check, plain, observed, hand_out, streaming, stream, listing, models,
}
use skyl.Client.Outcomes.{AllRetried, last_error, attempts_first_success, attempts_first_final}

abbrev pub with_other_timeout : Client → ℤ → Client
with_other_timeout c d = record c { timeout = d }

module _ {A B : Type 0} (c : Client) (d : ℤ) (env : Surroundings A) (op : Operation A B) where
  wait_before-timeout :
      (n : ℕ) (last : GoError)
      → wait_before (with_other_timeout c d) env op n last ≡ wait_before c env op n last
  unfolding wait_before
  wait_before-timeout zero last = refl
  wait_before-timeout (suc n) last = refl

  conclude-timeout :
      (n : ℕ) (r : Reply A) (rest : Run B)
      → conclude (with_other_timeout c d) env op n r rest ≡ conclude c env op n r rest
  unfolding conclude emit
  conclude-timeout n r rest = refl

  attempts-timeout :
      (left n : ℕ) (last : GoError)
      → attempts (with_other_timeout c d) env op left n last ≡ attempts c env op left n last
  unfolding attempts
  attempts-timeout zero n last = refl
  attempts-timeout (suc left) n last =
      let r = env.reply n op.deadline in
      elim (Wait-cases (wait_before c env op n last)) [
        | inl go ↦
            rw (wait_before-timeout, go, attempts)
              (conclude-timeout n r _
                ∙ ap (conclude c env op n r) (attempts-timeout left (suc n) r.error))
        | inr (inl (e, stop)) ↦ rw (wait_before-timeout, stop, attempts)
        | inr (inr stop) ↦ rw (wait_before-timeout, stop, attempts)
      ]

-- The per-attempt timeout has no effect on `Stream`: whatever it is set to, the call has the same
-- outcome, the same events and the same number of attempts.
pub stream_timeout :
    {S : Type 0} (c : Client) (d : ℤ) (env : Surroundings S) (req : Request)
    → stream (with_other_timeout c d) env req ≡ stream c env req
unfolding stream streaming
stream_timeout c d env req =
    ap (after_check (validate (some req)))
      (attempts-timeout c d env (streaming c env req) (suc c.policy.max_retries) 0 GoError.nil)

hand_out-if :
    {S : Type 0} (b : Bool) (k : ℕ) (s : S)
    → returned (hand_out b k (some s)) GoError.nil ≡ (
        if b
        then returned (some (plain s)) GoError.nil
        else returned (some (observed (some s) k)) GoError.nil)
unfolding hand_out
hand_out-if true k s = refl
hand_out-if false k s = refl

-- If the first `k` handshakes are retried and the next one succeeds, within the configured retries,
-- the caller gets the provider's stream itself where no hook is registered, and else an observed
-- stream that knows the number of its attempt.
pub stream_success :
    {S : Type 0} (c : Client) (env : Surroundings S) (req : Request) (k : ℕ) (s : S)
    → validate (some req) ≡ none
    → k ≤ c.policy.max_retries
    → AllRetried c env (streaming c env req) k 0 GoError.nil
    → wait_before c env
        (streaming c env req)
        k
        (last_error c env (streaming c env req) k 0 GoError.nil)
      ≡ ready
    → env.reply k none ≡ record { value = some s; error = GoError.nil }
    → ((stream c env req).outcome ≡ (
        if null c.hooks
        then returned (some (plain s)) GoError.nil
        else returned (some (observed (some s) k)) GoError.nil))
      × ((stream c env req).calls ≡ suc k)
unfolding stream streaming is_nil
stream_success c env req k s valid small before waits answered =
    let op = streaming c env req in
    let (won, counted) =
      attempts_first_success c env op k (suc c.policy.max_retries) (omega arith) before waits
        (rw answered) in
    rw valid (rw (won, answered) (hand_out-if (null c.hooks) k s), counted)

-- A provider that cannot list models is asked once: an error that matches ErrUnsupported is
-- returned as it is, also where it would be retried otherwise.
pub models_unsupported :
    (c : Client) (env : Surroundings (List ModelInfo)) (e : GoError)
    → (env.reply 0 (listing c env).deadline).error ≡ e
    → is e (kind_of unsupported) ≡ true
    → ((models c env).outcome ≡ returned none e) × ((models c env).calls ≡ 1)
unfolding models listing wait_before
models_unsupported c env e answered h = rw answered at (
    attempts_first_final c env (listing c env) 0 (suc c.policy.max_retries) (omega arith) tt refl
      (rw answered (is-ne-nil e (kind_of unsupported) h)) (rw (answered, h)))
