-- ===== src/Sip/Bodies/Tests.antt =====
-- An INVITE that starts a recording.
use voiceagent.Base.{
  ◌≡◌, refl, ◌++◌, Text, lit, same, has_prefix, contains, trim_space, trim_byte, trim_prefix, split,
}
use voiceagent.Sip.Answers.{crlf}
use voiceagent.Sip.Bodies.{part_body, read_part, parse_multipart_body}

abbrev part : Text → Text → Text
part kind text =
    lit "--b1"
    ++ (crlf ++ (lit "Content-Type: application/" ++ (kind ++ (crlf ++ (crlf ++ (text ++ crlf))))))

two_parts :
    parse_multipart_body
      (part (lit "sdp") (lit "v=0") ++ (part (lit "rs-metadata+xml") (lit "<r/>") ++ lit "--b1--"))
      (lit "multipart/mixed; boundary=b1")
    ≡ (lit "v=0", lit "<r/>")
unfolding parse_multipart_body read_part part_body same has_prefix contains trim_space trim_byte
    trim_prefix split
two_parts = refl
