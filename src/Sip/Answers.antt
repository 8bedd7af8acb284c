-- ===== src/Sip/Answers.antt =====
-- The answers to an INVITE that gateway/sip_uac.go sends, as makeOutboundCall and dialSIPCall read them.
pub mod Answered
mod Tests
use voiceagent.Base.{
  ℕ, zero, suc, ◌+◌, ◌-◌, ◌*◌, ◌^◌, ℤ, pos, negsuc, Bool, true, false, ◌&&◌, ◌||◌, List, [], ◌∷◌,
  ◌++◌, Option, none, some, if◌then◌else◌, leb, ltb, ◌==◌, take, drop, Text, lit, has_prefix,
  contains, is_space, trim_space, is_empty,
}

-- strings.SplitN(s, sep, 2)[0]
unfoldable pub before : Text → Text → Text
before sep [] = []
before sep (c ∷ s) = let rest = before sep s in if has_prefix (c ∷ s) sep then [] else c ∷ rest

-- s[strings.Index(s, p):], none when p is not in s.
unfoldable pub from_first : Text → Text → Option Text
from_first p [] = if is_empty p then some [] else none
from_first p (c ∷ s) =
    let rest = from_first p s in if has_prefix (c ∷ s) p then some (c ∷ s) else rest

abbrev pub crlf : Text
crlf = 13 ∷ 10 ∷ []

-- What one read gets of a datagram.
abbrev pub read : Text → Text
read datagram = take 4096 datagram

abbrev pub first_line : Text → Text
first_line response = before crlf response

abbrev pub is_provisional : Text → Bool
is_provisional line =
    contains line (lit "100") || (contains line (lit "180") || contains line (lit "183"))

abbrev pub is_ok : Text → Bool
is_ok line = contains line (lit "200")

abbrev pub is_failure : Text → Bool
is_failure line = contains line (lit "4") || (contains line (lit "5") || contains line (lit "6"))

-- What became of the INVITE: the read failed, at once or after a provisional response, or the line that
-- ended it, or the response that answered it.
pub data Reply : Type 0 where
  no_response : Reply
  timed_out : Reply
  rejected : Text → Reply
  not_answered : Text → Reply
  answered : Text → Reply

-- The datagrams that come; after the last one a read fails.
unfoldable pub await_answer : List Text → Reply
await_answer [] = timed_out
await_answer (m ∷ ms) =
    let rest = await_answer ms in
    let line = first_line (read m) in
    if is_ok line then answered (read m) else if is_failure line then rejected line else rest

unfoldable pub await_response : List Text → Reply
await_response [] = no_response
await_response (m ∷ ms) =
    let line = first_line (read m) in
    if is_provisional line
    then await_answer ms
    else if is_ok line
    then answered (read m)
    else not_answered line

-- fmt.Sscanf at a space of its format: one space or more, but no end of a line, before the value.
unfoldable pub skip_blanks : Text → Option Text
skip_blanks [] = none
skip_blanks (c ∷ s) =
    let rest = skip_blanks s in if c == 10 then none else if is_space c then rest else some (c ∷ s)

unfoldable pub at_space : Text → Option Text
unfolding skip_blanks
at_space [] = none
at_space (c ∷ s) = if is_space c then skip_blanks (c ∷ s) else none

abbrev pub is_digit : ℕ → Bool
is_digit c = leb 48 c && leb c 57

-- The value of the digits that the text begins with, read behind a value, and whether there is one.
unfoldable pub scan_digits : ℕ → Bool → Text → Option ℕ
scan_digits n found [] = if found then some n else none
scan_digits n found (c ∷ s) =
    let more = scan_digits (n * 10 + (c - 48)) true s in
    if is_digit c then more else if found then some n else none

unfoldable pub negated : ℕ → ℤ
negated zero = pos 0
negated (suc n) = negsuc n

-- The verb %d into an int; none leaves the variable as it is.
unfoldable pub scan_int : Text → Option ℤ
unfolding scan_digits negated
scan_int [] = none
scan_int (c ∷ s) =
    if c == 45
    then elim (scan_digits 0 false s) [
      | none ↦ none
      | some n ↦ if leb n (2 ^ 63) then some (negated n) else none
    ]
    else elim (scan_digits 0 false (if c == 43 then s else c ∷ s)) [
      | none ↦ none
      | some n ↦ if ltb n (2 ^ 63) then some (pos n) else none
    ]

-- The verb %s: what stands before the next white space.
unfoldable pub scan_word : Text → Text
scan_word [] = []
scan_word (c ∷ s) = let rest = scan_word s in if is_space c then [] else c ∷ rest

unfoldable pub remote_port : Text → ℤ
unfolding from_first at_space scan_int
remote_port response = elim (from_first (lit "m=audio") response) [
  | none ↦ pos 0
  | some s ↦ elim (at_space (drop 7 s)) [
    | none ↦ pos 0
    | some digits ↦ elim (scan_int digits) [ none ↦ pos 0 | some n ↦ n ]
  ]
]

unfoldable pub remote_addr : Text → Text
unfolding from_first at_space scan_word
remote_addr response = elim (from_first (lit "c=IN IP4") response) [
  | none ↦ []
  | some s ↦ elim (at_space (drop 8 s)) [ none ↦ [] | some word ↦ trim_space (scan_word word) ]
]

unfoldable pub to_tag : Text → Text
unfolding from_first before
to_tag response = elim (from_first (lit "To:") response) [
  | none ↦ []
  | some to_line ↦ elim (from_first (lit "tag=") to_line) [
    | none ↦ []
    | some tag ↦ before (62 ∷ []) (before (59 ∷ []) (trim_space (before crlf (drop 4 tag))))
  ]
]
