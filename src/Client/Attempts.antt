-- ===== src/Client/Attempts.antt =====
-- The loop over attempts: how often the provider is called and what hooks see.
use skyl.Prelude.{
  ℕ, zero, suc, ◌≤◌, ◌≡◌, refl, sym, ap, append-nil, not, ◌||◌, List, [], ◌++◌, ◌⊎◌, inl, inr,
  Bool-cases, arith,
}
use skyl.Errors.{GoError, is_nil}
use skyl.Client.{Client, Hook, HookEvent, emit}
use skyl.Client.Loop.{
  Surroundings, Operation, Run, Wait, ready, aborted, panic, wait_before, conclude, attempts,
}

pub Wait-cases : (w : Wait) → (w ≡ ready) ⊎ (((e : GoError) × (w ≡ aborted e)) ⊎ (w ≡ panic))
Wait-cases ready = inl refl
Wait-cases (aborted e) = inr (inl (e, refl))
Wait-cases panic = inr (inr refl)

module _ {A B : Type 0} (c : Client) (env : Surroundings A) (op : Operation A B) where
  -- What the hooks see of `k` attempts, from attempt `n` on: one event for each, in order.
  abbrev pub sent_by : ℕ → ℕ → List (Hook × HookEvent)
  sent_by zero n = []
  sent_by (suc k) n = emit c (op.event n (env.reply n op.deadline)) ++ sent_by k (suc n)

  -- At most `left` calls, and hooks see exactly those.
  abbrev Accounts : ℕ → ℕ → Run B → Type 0
  Accounts left n run = (run.calls ≤ left) × (run.deliveries ≡ sent_by run.calls n)

  conclude-Accounts :
      (left n : ℕ) (rest : Run B)
      → Accounts left (suc n) rest
      → Accounts (suc left) n (conclude c env op n (env.reply n op.deadline) rest)
  unfolding conclude
  conclude-Accounts left n rest h =
      let r = env.reply n op.deadline in
      elim (Bool-cases (is_nil r.error)) [
        | inl fine ↦ rw (fine, conclude) (omega arith, sym (append-nil _))
        | inr bad ↦ elim (Bool-cases (op.is_final r.error || not (is_nil (env.ctx_err n)))) [
          | inl over ↦ rw (bad, over, conclude) (omega arith, sym (append-nil _))
          | inr again ↦
              rw (bad, again, conclude) (omega arith, ap (λ t. emit c (op.event n r) ++ t) h.1)
        ]
      ]

  pub attempts-Accounts :
      (left n : ℕ) (last : GoError)
      → ((attempts c env op left n last).calls ≤ left)
        × ((attempts c env op left n last).deliveries
            ≡ sent_by (attempts c env op left n last).calls n)
  unfolding attempts
  attempts-Accounts zero n last = (omega arith, refl)
  attempts-Accounts (suc left) n last = elim (Wait-cases (wait_before c env op n last)) [
    | inl go ↦
        rw (go, attempts)
          (conclude-Accounts left n (attempts c env op left (suc n) (env.reply n op.deadline).error)
            (attempts-Accounts left (suc n) (env.reply n op.deadline).error))
    | inr (inl (e, stop)) ↦ rw (stop, attempts) (omega arith, refl)
    | inr (inr stop) ↦ rw (stop, attempts) (omega arith, refl)
  ]
