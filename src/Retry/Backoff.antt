-- ===== src/Retry/Backoff.antt =====
-- Bounds on the delay between two attempts, and when the code panics instead.
use skyl.Prelude.{
  ℕ, ◌+◌, ◌*◌, ◌^◌, ◌%◌, ◌-◌, ◌≤◌, ◌<◌, ◌≡◌, refl, true, false, none, some, ◌⊎◌, inl, inr, arith,
  ltb, if◌then◌else◌, ℤ, pos, negsuc, ltb_ℤ, leb_ℤ, to_int64, pos_part, ◌≤ℤ◌, Option-cases,
}
use native.Mathlib.Nat.{pow-le-pow_right}
use skyl.Retry.{
  RetryPolicy, or_default, default_base_delay, default_max_delay, default_retry_after_cap, ceiling,
  shift_left, int64n, plus_one, honour, backoff, delay_for,
}

-- The two ceilings that a policy stands for.
abbrev pub max_delay_of : RetryPolicy → ℤ
max_delay_of p = or_default p.max_delay default_max_delay

abbrev pub cap_of : RetryPolicy → ℤ
cap_of p = or_default p.retry_after_cap default_retry_after_cap

abbrev pub base_of : RetryPolicy → ℤ
base_of p = or_default p.base_delay default_base_delay

-- `sampled` is at least 0 and below the bound
int64n_bounds :
    (seed : ℕ) (n d : ℤ) → int64n seed n ≡ some d → (pos 0 ≤ℤ d) × (pos_part d < pos_part n)
unfolding int64n
int64n_bounds seed (pos n) d h = ground arith
int64n_bounds seed (negsuc n) d h = cc

honour_bounds :
    (m c r d : ℤ)
    → pos 0 ≤ℤ d
    → pos 0 ≤ℤ m
    → pos 0 ≤ℤ c
    → (pos 0 ≤ℤ honour m c r d) × ((honour m c r d ≤ℤ m) ⊎ (honour m c r d ≤ℤ c))
unfolding honour
honour_bounds m c r d hd hm hc = ground arith

or_default_pos :
    (d default : ℤ) → ltb_ℤ (pos 0) default ≡ true → ltb_ℤ (pos 0) (or_default d default) ≡ true
or_default_pos d default h = ground arith

-- a positive ceiling that does not pass the largest delay
ceiling_bounds :
    (b m : ℤ) (n : ℕ)
    → ltb_ℤ (pos 0) m ≡ true
    → (ltb_ℤ (pos 0) (ceiling b m n) ≡ true) × (ceiling b m n ≤ℤ m)
unfolding ceiling
ceiling_bounds b m n h = ground arith

plus_one-pos_part : (n : ℤ) → ltb_ℤ (pos 0) n ≡ true → pos_part (plus_one n) ≤ pos_part n + 1
unfolding plus_one to_int64
plus_one-pos_part (pos n) h = ground arith
plus_one-pos_part (negsuc n) h = ground arith

abbrev pub max_int64 : ℕ
max_int64 = 2 ^ 63 - 1

plus_one_lt :
    (n : ℤ) → ltb_ℤ (pos 0) n ≡ true → pos_part n < max_int64 → plus_one n ≡ pos (pos_part n + 1)
unfolding plus_one to_int64
plus_one_lt (pos n) h b = ground arith
plus_one_lt (negsuc n) h b = ground arith

-- `delay_for` in terms of the sample that it draws
delay_for-eq-some :
    (b m c : ℤ) (n : ℕ) (r : ℤ) (seed : ℕ) {d : ℤ}
    → delay_for b m c n r seed ≡ some d
    → (x : ℤ) × (int64n seed (plus_one (ceiling b m n)) ≡ some x) × (d ≡ honour m c r x)
unfolding delay_for
delay_for-eq-some b m c n r seed h = elim (Option-cases (int64n seed (plus_one (ceiling b m n)))) [
  | inl e ↦ ground arith
  | inr (x, e) ↦ (x, e, ground arith)
]

-- the sample lies between 0 and the ceiling
sample_bounds :
    (b m : ℤ) (n seed : ℕ) (x : ℤ)
    → ltb_ℤ (pos 0) m ≡ true
    → int64n seed (plus_one (ceiling b m n)) ≡ some x
    → (pos 0 ≤ℤ x) × (x ≤ℤ ceiling b m n)
sample_bounds b m n seed x h e =
    let c = ceiling_bounds b m n h in
    let i = int64n_bounds seed (plus_one (ceiling b m n)) x e in
    let q = plus_one-pos_part (ceiling b m n) c.0 in (i.0, ground arith)

-- the largest delay and the cap are positive
max_delay_of_pos : (p : RetryPolicy) → ltb_ℤ (pos 0) (max_delay_of p) ≡ true
max_delay_of_pos p = or_default_pos p.max_delay default_max_delay refl

base_of_pos : (p : RetryPolicy) → ltb_ℤ (pos 0) (base_of p) ≡ true
base_of_pos p = or_default_pos p.base_delay default_base_delay refl

cap_of_pos : (p : RetryPolicy) → ltb_ℤ (pos 0) (cap_of p) ≡ true
cap_of_pos p = or_default_pos p.retry_after_cap default_retry_after_cap refl

delay_for_bounds :
    (b m c : ℤ) (n : ℕ) (r : ℤ) (seed : ℕ) {d : ℤ}
    → ltb_ℤ (pos 0) m ≡ true
    → ltb_ℤ (pos 0) c ≡ true
    → delay_for b m c n r seed ≡ some d
    → (pos 0 ≤ℤ d) × ((d ≤ℤ m) ⊎ (d ≤ℤ c))
delay_for_bounds b m c n r seed hm hc h =
    let (x, e, q) = delay_for-eq-some b m c n r seed h in
    rw q (honour_bounds m c r x (sample_bounds b m n seed x hm e).0 (ground arith) (ground arith))

-- Every delay lies between 0 and the larger of the two ceilings of the policy, for every policy,
-- attempt, hint and random choice.
pub backoff_bounds :
    (p : RetryPolicy) (n : ℕ) (r : ℤ) (seed : ℕ) {d : ℤ}
    → backoff p n r seed ≡ some d
    → (pos 0 ≤ℤ d) × ((d ≤ℤ max_delay_of p) ⊎ (d ≤ℤ cap_of p))
unfolding backoff
backoff_bounds p n r seed h =
    delay_for_bounds (base_of p) (max_delay_of p) (cap_of p) n r seed (max_delay_of_pos p)
      (cap_of_pos p) h

honour_unhinted :
    (m c r x y : ℤ) → r ≤ℤ pos 0 → x ≤ℤ m → x ≤ℤ y → (honour m c r x ≤ℤ m) × (honour m c r x ≤ℤ y)
unfolding honour
honour_unhinted m c r x y g a l = ground arith

delay_for_jitter :
    (b m c : ℤ) (n : ℕ) (r : ℤ) (seed : ℕ) {d : ℤ}
    → ltb_ℤ (pos 0) m ≡ true
    → r ≤ℤ pos 0
    → delay_for b m c n r seed ≡ some d
    → (d ≤ℤ m) × (d ≤ℤ ceiling b m n)
delay_for_jitter b m c n r seed hm g h =
    let (x, e, q) = delay_for-eq-some b m c n r seed h in
    let s = sample_bounds b m n seed x hm e in
    let k = ceiling_bounds b m n hm in
    rw q (honour_unhinted m c r x (ceiling b m n) g (omega arith) s.1)

shift_left-base :
    (b : ℤ) (n : ℕ) → pos_part b * 2 ^ n ≤ max_int64 → shift_left b n ≡ pos (pos_part b * 2 ^ n)
unfolding shift_left to_int64
shift_left-base b n l = ground arith

shift_pos : (b : ℤ) (n : ℕ) → ltb_ℤ (pos 0) b ≡ true → 0 < pos_part b * 2 ^ n
shift_pos (pos b) n h =
    let p : 0 < 2 ^ n = pow-le-pow_right {n = 2} (omega arith) {i = 0} {j = n} (omega arith) in
    grind arith
shift_pos (negsuc b) n h = ground arith

ceiling-base :
    (b m : ℤ) (n : ℕ)
    → ltb_ℤ (pos 0) b ≡ true
    → n ≤ 20
    → pos_part b * 2 ^ n ≤ max_int64
    → ceiling b m n ≤ℤ pos (pos_part b * 2 ^ n)
unfolding ceiling
ceiling-base b m n hb h l =
    let small : ltb 20 n ≡ false = ground arith in
    let positive = shift_pos b n hb in rw (small, shift_left-base b n l) (ground arith)

-- Without a positive hint the delay is at most the largest delay of the policy, and at most
-- base * 2^attempt where the attempt is at most 20 and that product fits 63 bits.
pub backoff_jitter :
    (p : RetryPolicy) (n : ℕ) (r : ℤ) (seed : ℕ) {d : ℤ}
    → r ≤ℤ pos 0
    → backoff p n r seed ≡ some d
    → (d ≤ℤ max_delay_of p)
      × (n ≤ 20
          → pos_part (base_of p) * 2 ^ n ≤ max_int64
          → d ≤ℤ pos (pos_part (base_of p) * 2 ^ n))
unfolding backoff
backoff_jitter p n r seed g h =
    let j =
      delay_for_jitter (base_of p) (max_delay_of p) (cap_of p) n r seed (max_delay_of_pos p) g h in
    (
      j.0,
      λ small fits.
          omega (arith, ceiling-base (base_of p) (max_delay_of p) n (base_of_pos p) small fits),
    )

delay_for_hint :
    (b m c : ℤ) (n : ℕ) (r : ℤ) (seed : ℕ) {d : ℤ}
    → ltb_ℤ (pos 0) m ≡ true
    → ltb_ℤ m r ≡ true
    → delay_for b m c n r seed ≡ some d
    → d ≡ (if ltb_ℤ c r then c else r)
unfolding honour
delay_for_hint b m c n r seed hm g h =
    let (x, e, q) = delay_for-eq-some b m c n r seed h in
    let s = sample_bounds b m n seed x hm e in let k = ceiling_bounds b m n hm in ground arith

-- A hint longer than the largest delay of the policy is followed, up to the cap of the policy.
pub backoff_hint :
    (p : RetryPolicy) (n : ℕ) (r : ℤ) (seed : ℕ) {d : ℤ}
    → ltb_ℤ (max_delay_of p) r ≡ true
    → backoff p n r seed ≡ some d
    → d ≡ (if ltb_ℤ (cap_of p) r then cap_of p else r)
unfolding backoff
backoff_hint p n r seed g h =
    delay_for_hint (base_of p) (max_delay_of p) (cap_of p) n r seed (max_delay_of_pos p) g h

delay_for_total :
    (b m c : ℤ) (n : ℕ) (r : ℤ) (seed : ℕ)
    → ltb_ℤ (pos 0) m ≡ true
    → pos_part m < max_int64
    → (d : ℤ) × (delay_for b m c n r seed ≡ some d)
unfolding delay_for int64n
delay_for_total b m c n r seed hm h =
    let k = ceiling_bounds b m n hm in
    let small : pos_part (ceiling b m n) < max_int64 = ground arith in
    (
      honour m c r (pos (seed % (pos_part (ceiling b m n) + 1))),
      rw (plus_one_lt (ceiling b m n) k.0 small, delay_for) (ground arith),
    )

-- The code never panics if the largest delay of the policy is below 2^63 - 1 nanoseconds.
pub backoff_total :
    (p : RetryPolicy) (n : ℕ) (r : ℤ) (seed : ℕ)
    → pos_part (max_delay_of p) < max_int64
    → (d : ℤ) × (backoff p n r seed ≡ some d)
unfolding backoff
backoff_total p n r seed h =
    delay_for_total (base_of p) (max_delay_of p) (cap_of p) n r seed (max_delay_of_pos p) h

delay_for_panics :
    (b m c : ℤ) (n : ℕ) (r : ℤ) (seed : ℕ)
    → m ≡ pos max_int64
    → leb_ℤ (shift_left b (if ltb 20 n then 20 else n)) (pos 0) ≡ true
    → delay_for b m c n r seed ≡ none
unfolding delay_for ceiling plus_one to_int64 int64n
delay_for_panics b m c n r seed e h = rw e (ground arith)

-- With a largest delay of 2^63 - 1 the code panics at every attempt at which the base, shifted left by
-- the attempt or by 20 if that is less, in 64 bits with wrap-around, is not positive.
pub backoff_panics :
    (p : RetryPolicy) (n : ℕ) (r : ℤ) (seed : ℕ)
    → max_delay_of p ≡ pos max_int64
    → leb_ℤ (shift_left (base_of p) (if ltb 20 n then 20 else n)) (pos 0) ≡ true
    → backoff p n r seed ≡ none
unfolding backoff
backoff_panics p n r seed m h =
    delay_for_panics (base_of p) (max_delay_of p) (cap_of p) n r seed m h
