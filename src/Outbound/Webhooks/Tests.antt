-- ===== src/Outbound/Webhooks/Tests.antt =====
-- A receiver that is down at first.
use voiceagent.Base.{ℕ, zero, suc, ◌≡◌, refl, pos, true, [], ◌∷◌, lit}
use voiceagent.Outbound.Webhooks.{
  Webhook, Try, no_answer, answered, send_webhook, send_from, backoff, is_delivered, status_after,
}
use voiceagent.Outbound.Webhooks.Tries.{Fits, allowed_tries, send_webhook-Fits}

abbrev crm : Webhook
crm = record {
  id = lit "crm";
  auth_type = lit "bearer";
  auth_value = lit "key";
  events = lit "call.ended" ∷ [];
  enabled = true;
  retry_count = pos 5;
}

abbrev down_at_first : ℕ → Try
down_at_first zero = no_answer
down_at_first (suc zero) = answered 503
down_at_first (suc (suc n)) = answered 200

send_webhook-Fits_example :
    Fits down_at_first (allowed_tries crm.retry_count) (send_webhook down_at_first crm)
send_webhook-Fits_example = send_webhook-Fits down_at_first crm

third_try :
    send_webhook down_at_first crm
    ≡ record { tries = 3; slept = 3000000000; delivered = true; status = 200 }
unfolding send_webhook send_from backoff is_delivered status_after
third_try = refl
