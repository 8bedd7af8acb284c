-- ===== src/Knowledge/Chunking/Tests.antt =====
-- A document of two sentences.
use voiceagent.Base.{suc, ◌≡◌, pos, inl, List, some, map, length, arith, Text, lit, trim_space}
use voiceagent.Knowledge.Chunking.{size_of, chunk_text}
use voiceagent.Knowledge.Chunking.Windows.{Window, Cover, piece, chunk_text-Cover}

abbrev notice : Text
notice = lit " We open at nine. We close at five. "

chunk_text-Cover_example :
    (ws : List Window) × (chunk_text (suc (length (trim_space notice))) notice (pos 20)
      ≡ some (map (piece (trim_space notice)) ws))
    × Cover 20 (trim_space notice) 0 ws
unfolding size_of
chunk_text-Cover_example =
    chunk_text-Cover notice (pos 20) (unfold size_of in (omega arith, inl (omega arith)))
