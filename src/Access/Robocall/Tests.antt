-- ===== src/Access/Robocall/Tests.antt =====
-- A short block list, and floats that count tenths.
use voiceagent.Base.{
  ◌≡◌, ◌+◌, ◌*◌, ◌/◌, true, List, [], ◌∷◌, ◌++◌, none, some, ltb, leb, ℕ, Text, lit,
}
use voiceagent.Access.Robocall.{FloatOps, normalize_number, new_robocall_detector, check_blocklist}
use voiceagent.Access.Robocall.Blocklist.{
  BlocklistRequest, handle_all, last_told, last_row, check_blocklist-last_told,
}

abbrev tenths_only : FloatOps
tenths_only = record {
  Float = ℕ;
  add = ◌+◌;
  mul = λ a b. a * b / 10;
  over = λ a b. ltb b a;
  at_least = λ a b. leb b a;
  tenths = λ n. n;
}

abbrev listed : List (Text × Text)
listed = (lit "+1 (555) 010", lit "spam") ∷ []

abbrev edits : List BlocklistRequest
edits =
    record { method = lit "POST"; number = lit "555-020"; reason = lit "fax" }
    ∷ record { method = lit "DELETE"; number = lit "1555010"; reason = [] }
    ∷ []

check_blocklist-last_told_example :
    check_blocklist tenths_only
      (lit "555 020")
      (handle_all tenths_only edits (new_robocall_detector tenths_only listed))
    ≡ elim (last_told
        (normalize_number (lit "555 020"))
        (last_row (normalize_number (lit "555 020")) none listed)
        edits) [
          | none ↦ none
          | some reason ↦ some (record {
            score = 10;
            category = lit "robocall";
            reason = lit "blocklist: " ++ reason;
            keywords = [];
            blocked = true;
          })
        ]
check_blocklist-last_told_example =
    check_blocklist-last_told tenths_only listed edits (lit "555 020")
