-- ===== src/Client/Options.antt =====
-- What options can do to a client.
use skyl.Prelude.{ℕ, String, ◌≡◌, refl, true, List, [], ◌∷◌, some, arith, ℤ, pos, negsuc, ltb_ℤ}
use skyl.Retry.{RetryPolicy}
use skyl.Client.{
  Client, ClientOption, with_max_retries, with_retry_delay, with_retry_after_cap, with_hook,
  default_client, set_max_retries, set_retry_delay, set_retry_after_cap, apply_option,
  apply_options, new,
}

pub record IsPositive (p : RetryPolicy) : Type 0 where
  pub base : ltb_ℤ (pos 0) p.base_delay ≡ true
  pub max : ltb_ℤ (pos 0) p.max_delay ≡ true
  pub cap : ltb_ℤ (pos 0) p.retry_after_cap ≡ true

set_max_retries-IsPositive :
    (n : ℤ) (p : RetryPolicy) → IsPositive p → IsPositive (set_max_retries n p)
unfolding set_max_retries
set_max_retries-IsPositive (pos n) p h = record { base = h.base; max = h.max; cap = h.cap }
set_max_retries-IsPositive (negsuc n) p h = h

set_retry_delay-IsPositive :
    (b m : ℤ) (p : RetryPolicy) → IsPositive p → IsPositive (set_retry_delay b m p)
unfolding set_retry_delay
set_retry_delay-IsPositive b m p h = record {
  base = ground (arith, h.base);
  max = ground (arith, h.max);
  cap = h.cap;
}

set_retry_after_cap-IsPositive :
    (d : ℤ) (p : RetryPolicy) → IsPositive p → IsPositive (set_retry_after_cap d p)
unfolding set_retry_after_cap
set_retry_after_cap-IsPositive d p h = record {
  base = h.base;
  max = h.max;
  cap = ground (arith, h.cap);
}

apply_option-IsPositive :
    (c : Client) (o : ClientOption) → IsPositive c.policy → IsPositive (apply_option c o).policy
unfolding apply_option
apply_option-IsPositive c (with_max_retries n) h = set_max_retries-IsPositive n c.policy h
apply_option-IsPositive c (with_retry_delay b m) h = set_retry_delay-IsPositive b m c.policy h
apply_option-IsPositive c (with_retry_after_cap d) h = set_retry_after_cap-IsPositive d c.policy h
apply_option-IsPositive c _ h = h

apply_options-IsPositive :
    (c : Client) (os : List ClientOption)
    → IsPositive c.policy
    → IsPositive (apply_options c os).policy
unfolding apply_options
apply_options-IsPositive c [] h = h
apply_options-IsPositive c (o ∷ os) h =
    apply_options-IsPositive (apply_option c o) os (apply_option-IsPositive c o h)

-- The non-nil hooks of the options, in order.
abbrev pub hooks_of : List ClientOption → List ℕ
hooks_of [] = []
hooks_of (with_hook (some h) ∷ os) = h ∷ hooks_of os
hooks_of (_ ∷ os) = hooks_of os

-- Whatever the options and their values, a new client has positive delays and a positive cap.
pub new-IsPositive :
    (name : String) (os : List ClientOption)
    → (c : Client) × (new (some name) os ≡ some c) × IsPositive c.policy
unfolding new
new-IsPositive name os = (
  apply_options (default_client name) os,
  refl,
  apply_options-IsPositive (default_client name) os
      (record { base = refl; max = refl; cap = refl }),
)
