-- ===== src/Browser/Speaker/Tests.antt =====
-- Examples for the speaker of an agent's browser.
use voiceagent.Base.{ℕ, ◌≡◌, ◌<◌, true, false, List, [], ◌∷◌, ◌++◌, length, All, arith}
use voiceagent.Browser.Speaker.{frame_16k_size, CallerFrame, hear_all}
use voiceagent.Browser.Speaker.Pieces.{IsPiece, joined, heard_sound, quiet, hear_all_heard}

abbrev frame : List ℕ → CallerFrame
frame b = record { pcm = b; held = false }

abbrev two_frames : List CallerFrame
two_frames = frame (1 ∷ 2 ∷ []) ∷ record { pcm = 9 ∷ 9 ∷ []; held = true } ∷ frame (3 ∷ []) ∷ []

hear_all_heard_example :
    (joined (hear_all two_frames (quiet [])).1 ++ (hear_all two_frames (quiet [])).0.frame_buf
      ≡ [] ++ heard_sound two_frames)
    × ((All IsPiece (hear_all two_frames (quiet [])).1)
        × (length (hear_all two_frames (quiet [])).0.frame_buf < frame_16k_size))
hear_all_heard_example = hear_all_heard two_frames [] (omega arith)
