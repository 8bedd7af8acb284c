-- ===== src/Outbound/Webhooks/Tries.antt =====
-- How often gateway/webhooks.go tries to send an event, and how long it waits.
use voiceagent.Base.{
  ℕ, zero, suc, ◌+◌, ◌*◌, ◌%◌, ◌-◌, ◌^◌, ◌<◌, ◌≤◌, ◌≡◌, refl, ◌∙◌, ap, true, false, leb, arith,
  subst, Bool-cases, inl, inr, ◌⊎◌, ℤ, pos, negsuc,
}
use voiceagent.Outbound.Webhooks.{
  Webhook, Try, SendLog, retries_of, backoff, is_delivered, status_after, send_from, send_webhook,
}

-- The seconds slept before try number n, when all are made up to it.
unfoldable pub slept_before : ℕ → ℕ
slept_before zero = 0
slept_before (suc n) = slept_before n + backoff n

-- As many tries as the retry count says, and one where it says none or fewer.
abbrev pub allowed_tries : ℤ → ℕ
allowed_tries (pos zero) = 1
allowed_tries (pos (suc n)) = suc n
allowed_tries (negsuc n) = 1

retries_of-allowed_tries : (count : ℤ) → retries_of count ≡ allowed_tries count
unfolding retries_of
retries_of-allowed_tries (pos zero) = refl
retries_of-allowed_tries (pos (suc n)) = ground arith
retries_of-allowed_tries (negsuc n) = refl

-- Delivered at the last try made and at none before it, or at none of the tries that were allowed.
abbrev pub Fits : (ℕ → Try) → ℕ → SendLog → Type 0
Fits outcome most log =
    ((log.delivered ≡ true)
      × ((log.tries ≤ most)
          × ((is_delivered (outcome (log.tries - 1)) ≡ true)
              × ((k : ℕ) → k + 1 < log.tries → is_delivered (outcome k) ≡ false))))
    ⊎ ((log.delivered ≡ false)
        × ((log.tries ≡ most) × ((k : ℕ) → k < most → is_delivered (outcome k) ≡ false)))

none_before :
    (outcome : ℕ → Try) (attempt : ℕ)
    → ((k : ℕ) → k < attempt → is_delivered (outcome k) ≡ false)
    → is_delivered (outcome attempt) ≡ false
    → (k : ℕ) → k < suc attempt
    → is_delivered (outcome k) ≡ false
none_before outcome attempt before e k h = elim (Bool-cases (leb attempt k)) [
  | inl ge ↦ let same_try : k ≡ attempt = ground (arith, ge, h) in rw (same_try) e
  | inr less ↦ before k (ground (arith, less))
]

send_from-Fits :
    (outcome : ℕ → Try) (left attempt status : ℕ)
    → ((k : ℕ) → k < attempt → is_delivered (outcome k) ≡ false)
    → let log : SendLog = send_from outcome left attempt (slept_before attempt) status in
      Fits outcome (left + attempt) log × (log.slept ≡ slept_before log.tries)
unfolding send_from slept_before
send_from-Fits outcome zero attempt status before =
    (inr (refl, (omega arith, λ k h. before k (omega (arith, h)))), refl)
send_from-Fits outcome (suc left) attempt status before =
    let status' : ℕ = status_after (outcome attempt) status in
    elim (Bool-cases (is_delivered (outcome attempt))) [
      | inl e ↦
          let last : suc attempt - 1 ≡ attempt = omega arith in
          rw (e) (
            inl (
              refl,
              (
                omega arith,
                (ap (λ k. is_delivered (outcome k)) last ∙ e, λ k h. before k (omega (arith, h))),
              ),
            ),
            refl,
          )
      | inr e ↦
          let more : left + suc attempt ≡ suc left + attempt = omega arith in
          rw (e, ← more)
            (send_from-Fits outcome left (suc attempt) status'
              (none_before outcome attempt before e))
    ]

two_power_le : (n m : ℕ) → n ≤ m → 2 ^ n ≤ 2 ^ m
two_power_le zero zero h = omega arith
two_power_le zero (suc m) h = omega (arith, two_power_le zero m (omega arith))
two_power_le (suc n) zero h = absurd (omega (arith, h))
two_power_le (suc n) (suc m) h = omega (arith, two_power_le n m (omega (arith, h)))

backoff_fits : (n : ℕ) → n < 34 → backoff (suc n) ≡ 2 ^ n * 1000000000
unfolding backoff
backoff_fits n h =
    let bound : 2 ^ n ≤ 2 ^ 33 = two_power_le n 33 (omega (arith, h)) in
    let same_wait : 2 ^ n * 1000000000 % 2 ^ 64 ≡ 2 ^ n * 1000000000 = omega (arith, bound) in
    rw (same_wait) (ground (arith, bound))

slept_before-sum : (n : ℕ) → n < 35 → slept_before (suc n) + 1000000000 ≡ 2 ^ n * 1000000000
unfolding slept_before
slept_before-sum zero h = unfold backoff in refl
slept_before-sum (suc n) h =
    omega (arith, slept_before-sum n (omega (arith, h)), backoff_fits n (omega (arith, h)))

slept_before-power : (n : ℕ) → n ≤ 35 → slept_before n + 1000000000 ≡ 2 ^ (n - 1) * 1000000000
slept_before-power zero h = unfold slept_before in refl
slept_before-power (suc n) h =
    let one : suc n - 1 ≡ n = omega arith in rw (one) (slept_before-sum n (omega (arith, h)))

module _ (outcome : ℕ → Try) (hook : Webhook) where
  sent-Fits :
      let log : SendLog = send_webhook outcome hook in
      Fits outcome (retries_of hook.retry_count) log × (log.slept ≡ slept_before log.tries)
  unfolding send_webhook slept_before
  sent-Fits =
      let most : ℕ = retries_of hook.retry_count in
      let all : most + 0 ≡ most = omega arith in
      let (fits, slept) = send_from-Fits outcome most 0 0 (λ k h. absurd (omega (arith, h))) in
      (subst (λ m. Fits outcome m (send_from outcome most 0 0 0)) all fits, slept)

  -- A webhook is tried until it is delivered and never again, and as often as its retry count says, once
  -- at the least, when it is never delivered.
  pub send_webhook-Fits : Fits outcome (allowed_tries hook.retry_count) (send_webhook outcome hook)
  send_webhook-Fits =
      subst (λ most. Fits outcome most (send_webhook outcome hook))
        (retries_of-allowed_tries hook.retry_count) sent-Fits.0

  -- With a retry count of at most 35, the time slept for a webhook is 2 to the number of its tries before
  -- the last, less one, in seconds.
  pub send_webhook-slept :
      retries_of hook.retry_count ≤ 35
      → (send_webhook outcome hook).slept + 1000000000
        ≡ 2 ^ ((send_webhook outcome hook).tries - 1) * 1000000000
  send_webhook-slept h =
      let tries : ℕ = (send_webhook outcome hook).tries in
      let few : tries ≤ 35 = elim sent-Fits.0 [
        | inl (d, (le, rest)) ↦ omega (arith, le, h)
        | inr (d, (e, rest)) ↦ omega (arith, e, h)
      ] in
      ap (λ t. t + 1000000000) sent-Fits.1 ∙ slept_before-power tries few
