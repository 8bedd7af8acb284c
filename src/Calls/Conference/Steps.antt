-- ===== src/Calls/Conference/Steps.antt =====
-- What the operations of gateway/conference.go keep, the handlers of gateway/callcontrol.go keep.
use voiceagent.Base.{ℕ, ◌||◌, Option, none, some, Text, lit, same, is_empty, if_elim}
use voiceagent.Calls.Conference.{
  Floor, start_answer, start_conference, external_answered, drop_third_party, end_conference,
  handle_call_conference, handle_conference_drop, ConferenceStep, conference, drop_who, barge,
  answered, conference_step,
}
use voiceagent.Calls.Control.{extract_siprec_call_id}

module _ (P : Floor → Type 0) where
  coded : (r : Floor × Option ℕ) → P r.0 → P (start_answer r).0
  unfolding start_answer
  coded (fl, none) h = h
  coded (fl, some i) h = h

  pub conference_step_keeps :
      (fl : Floor)
      → ((call kind target : Text) → P (start_conference call kind target fl).0)
      → ((call : Text) → P (drop_third_party call fl).0)
      → ((call : Text) → P (end_conference call fl))
      → ((i leg : ℕ) → P (external_answered i leg fl))
      → P fl
      → (x : ConferenceStep) → P (conference_step x fl)
  unfolding conference_step handle_call_conference handle_conference_drop
  conference_step_keeps fl start drop finish answer here (conference call_id target kind) =
      if_elim (λ (x : Floor × ℕ). P x.0) _ _ (is_empty call_id || is_empty target) (λ e. here)
        (λ e. coded _ (start _ _ _))
  conference_step_keeps fl start drop finish answer here (drop_who call_id who) =
      if_elim (λ (x : Floor × ℕ). P x.0) _ _ (same who (lit "third"))
        (λ e.
          if_elim (λ (x : Floor × ℕ). P x.0) _ _
            (drop_third_party (extract_siprec_call_id call_id) fl).1 (λ e'. drop _) (λ e'. drop _))
        (λ e.
          if_elim (λ (x : Floor × ℕ). P x.0) _ _ (same who (lit "self")) (λ e'. finish _)
            (λ e'. here))
  conference_step_keeps fl start drop finish answer here (barge call_id user) = start _ _ _
  conference_step_keeps fl start drop finish answer here (answered i leg) = answer i leg
