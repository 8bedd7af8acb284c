-- ===== src/Outbound/Webhooks.antt =====
-- The webhooks of gateway/webhooks.go: which of them an event is sent to, and how often one is tried.
-- What comes of a try is an argument.
pub mod Tries
mod Tests
use voiceagent.Base.{
  ℕ, zero, suc, ◌+◌, ◌*◌, ◌%◌, ◌^◌, ℤ, pos, negsuc, Bool, true, false, ◌&&◌, ◌||◌, not, List, [],
  ◌∷◌, if◌then◌else◌, leb, ltb, Text, lit, same, is_empty, ◌++◌,
}

pub record Webhook : Type 0 where
  pub id : Text
  pub auth_type : Text
  pub auth_value : Text
  pub events : List Text
  pub enabled : Bool
  pub retry_count : ℤ

unfoldable pub slice_contains : List Text → Text → Bool
slice_contains [] val = false
slice_contains (a ∷ arr) val = same a val || slice_contains arr val

-- A webhook without events is sent every event.
unfoldable pub wants : Text → Webhook → Bool
wants event hook = hook.enabled && (is_empty hook.events || slice_contains hook.events event)

-- The webhooks that a goroutine is started for.
unfoldable pub fire_event : Text → List Webhook → List Webhook
unfolding wants
fire_event event [] = []
fire_event event (hook ∷ hooks) =
    let rest = fire_event event hooks in if wants event hook then hook ∷ rest else rest

-- The header that is set for the authentication, with its value; no name for none.
unfoldable pub auth_header : Webhook → Text × Text
auth_header hook =
    if same hook.auth_type (lit "bearer")
    then (lit "Authorization", lit "Bearer " ++ hook.auth_value)
    else if same hook.auth_type (lit "basic")
    then (lit "Authorization", lit "Basic " ++ hook.auth_value)
    else if same hook.auth_type (lit "api_key")
    then (lit "X-API-Key", hook.auth_value)
    else ([], [])

-- What comes of a try: no request is made, no answer comes, or an answer with its status.
pub data Try : Type 0 where
  not_made : Try
  no_answer : Try
  answered : ℕ → Try

-- The log: the tries, the nanoseconds slept, whether it was delivered, and the last status.
pub record SendLog : Type 0 where
  pub tries : ℕ
  pub slept : ℕ
  pub delivered : Bool
  pub status : ℕ

unfoldable pub retries_of : ℤ → ℕ
retries_of (pos n) = if leb n 0 then 1 else n
retries_of (negsuc n) = 1

-- A Duration wraps at 64 bits, and one below 0 is not slept.
unfoldable pub backoff : ℕ → ℕ
backoff zero = 0
backoff (suc n) = let wait = 2 ^ n * 1000000000 % 2 ^ 64 in if ltb wait (2 ^ 63) then wait else 0

unfoldable pub is_delivered : Try → Bool
is_delivered not_made = false
is_delivered no_answer = false
is_delivered (answered s) = leb 200 s && ltb s 300

unfoldable pub status_after : Try → ℕ → ℕ
status_after not_made status = status
status_after no_answer status = 0
status_after (answered s) status = s

-- The loop from try number `attempt` on, with the tries that are left.
unfoldable pub send_from : (ℕ → Try) → ℕ → ℕ → ℕ → ℕ → SendLog
send_from outcome zero attempt slept status = record {
  tries = attempt;
  slept = slept;
  delivered = false;
  status = status;
}
send_from outcome (suc left) attempt slept status =
    let slept' = slept + backoff attempt in
    let status' = status_after (outcome attempt) status in
    let rest = send_from outcome left (suc attempt) slept' status' in
    if is_delivered (outcome attempt)
    then record { tries = suc attempt; slept = slept'; delivered = true; status = status' }
    else rest

unfoldable pub send_webhook : (ℕ → Try) → Webhook → SendLog
unfolding retries_of
send_webhook outcome hook = send_from outcome (retries_of hook.retry_count) 0 0 0
