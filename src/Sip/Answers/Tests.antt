-- ===== src/Sip/Answers/Tests.antt =====
-- An INVITE that rings and is answered.
use voiceagent.Base.{◌≡◌, refl, ◌↔◌, [], ◌∷◌, ◌++◌, pos, Text, lit, has_prefix, trim_space}
use voiceagent.Sip.Answers.{crlf, answered, await_response, remote_port, remote_addr, to_tag}
use voiceagent.Sip.Answers.Answered.{AnsweredBy, await_response-AnsweredBy}

abbrev ringing : Text
ringing = lit "SIP/2.0 180 Ringing" ++ (crlf ++ crlf)

abbrev ok : Text
ok =
    lit "SIP/2.0 200 OK"
    ++ (crlf
        ++ (lit "To: <sip:7@b>;tag=ab12;x=1"
            ++ (crlf
                ++ (crlf
                    ++ (lit "c=IN IP4 10.0.0.7"
                        ++ (crlf ++ (lit "m=audio 4000 RTP/AVP 0" ++ crlf)))))))

await_response-AnsweredBy_example :
    (await_response (ringing ∷ ok ∷ []) ≡ answered ok) ↔ AnsweredBy (ringing ∷ ok ∷ []) ok
await_response-AnsweredBy_example = await_response-AnsweredBy (ringing ∷ ok ∷ []) ok

read_tag : to_tag ok ≡ lit "ab12"
unfolding to_tag has_prefix trim_space
read_tag = refl

read_port : remote_port ok ≡ pos 4000
unfolding remote_port has_prefix trim_space
read_port = refl

read_addr : remote_addr ok ≡ lit "10.0.0.7"
unfolding remote_addr has_prefix trim_space
read_addr = refl
