-- ===== src/Access/Robocall/Blocking.antt =====
-- When the combined score of gateway/robocall.go blocks a call.
use voiceagent.Base.{
  ◌≡◌, refl, ◌∙◌, true, false, List, [], ◌∷◌, ◌++◌, Option, none, some, arith, Text, lit,
  Option-cases, inl, inr,
}
use voiceagent.Access.Robocall.{
  FloatOps, RobocallResult, RobocallDetector, normalize_number, new_robocall_detector,
  check_blocklist, add_to_blocklist, remove_from_blocklist, handle_blocklist, combined,
  combined_score,
}
use voiceagent.Access.Robocall.Blocklist.{
  BlocklistRequest, handle_all, last_told, last_row, check_blocklist-last_told,
}

module _ (F : FloatOps) where
  auto_block-handle_all :
      (rs : List BlocklistRequest) (d : RobocallDetector F.Float)
      → (handle_all F rs d).auto_block ≡ d.auto_block
  unfolding handle_all handle_blocklist add_to_blocklist remove_from_blocklist
  auto_block-handle_all [] d = refl
  auto_block-handle_all (r ∷ rs) d =
      auto_block-handle_all rs (handle_blocklist F r.method r.number r.reason d).0 ∙ ground arith

  combined-blocked :
      (audio keyword : Option (RobocallResult F.Float)) (d : RobocallDetector F.Float)
      → d.auto_block ≡ false
      → (combined_score F none audio keyword d).blocked ≡ false
  unfolding combined_score combined
  combined-blocked audio keyword d h = ground (arith, h)

-- Whatever the layers of audio and keywords say, a call is blocked by the combined score exactly when
-- the rows and the requests say last that a number with its digits is on the list.
pub combined_score-check_blocklist :
    (F : FloatOps) (rows : List (Text × Text)) (rs : List BlocklistRequest) (number : Text)
    (audio keyword : Option (RobocallResult F.Float))
    → F.over (F.tenths 10) (F.tenths 0) ≡ true
    → let d : RobocallDetector F.Float = handle_all F rs (new_robocall_detector F rows) in
      (combined_score F (check_blocklist F number d) audio keyword d).blocked
      ≡ elim (last_told
          (normalize_number number)
          (last_row (normalize_number number) none rows)
          rs) [ none ↦ false | some reason ↦ true ]
unfolding combined_score new_robocall_detector
combined_score-check_blocklist F rows rs number audio keyword positive =
    let d : RobocallDetector F.Float = handle_all F rs (new_robocall_detector F rows) in
    let told : Option Text =
      last_told (normalize_number number) (last_row (normalize_number number) none rows) rs in
    elim (Option-cases told) [
      | inl e ↦
          let quiet : check_blocklist F number d ≡ none =
            check_blocklist-last_told F rows rs number ∙ ground (arith, e) in
          rw (quiet, e)
            (combined-blocked F audio keyword d
              (auto_block-handle_all F rs (new_robocall_detector F rows)))
      | inr (reason, e) ↦
          let result : RobocallResult F.Float = record {
            score = F.tenths 10;
            category = lit "robocall";
            reason = lit "blocklist: " ++ reason;
            keywords = [];
            blocked = true;
          } in
          let hit : check_blocklist F number d ≡ some result =
            check_blocklist-last_told F rows rs number ∙ ground (arith, e) in
          rw (hit, e, positive) refl
    ]
