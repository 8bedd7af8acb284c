-- ===== src/Calls/Routing.antt =====
-- The routing of a call by its intent in gateway/routing.go, and the arrays of PostgreSQL that it reads
-- and gateway/db.go writes. What the queries scan into the variables is an argument. A score is a sum of
-- whole numbers, which a float64 holds exactly.
pub mod Arrays
pub mod Sorting
mod Tests
use voiceagent.Base.{
  ℕ, zero, suc, ◌+◌, ◌*◌, Bool, true, false, ◌||◌, List, [], ◌∷◌, ◌++◌, Option, none, some,
  if◌then◌else◌, ltb, length, ℤ, pos, ◌+ℤ◌, ◌-ℤ◌, ltb_ℤ, Text, lit, same, is_empty, contains,
  to_lower, trim_space, trim_prefix, trim_suffix, trim_byte, split,
}

-- The loop over the parts between the commas.
unfoldable pub keep_parts : List Text → List Text
keep_parts [] = []
keep_parts (p ∷ ps) =
    let part = trim_byte 34 (trim_space p) in
    let rest = keep_parts ps in if is_empty part then rest else part ∷ rest

-- Braces are the bytes 123 and 125, a comma is 44.
unfoldable pub parse_postgres_array : Text → List Text
unfolding keep_parts
parse_postgres_array s =
    let t = trim_space s in
    if is_empty t || (same t (lit "{}") || same t (lit "NULL"))
    then []
    else keep_parts (split 44 (trim_suffix 125 (trim_prefix t (lit "{"))))

-- strings.Join(arr, ",")
unfoldable pub join_comma : List Text → Text
join_comma [] = []
join_comma (p ∷ []) = p
join_comma (p ∷ q ∷ ps) = p ++ 44 ∷ join_comma (q ∷ ps)

unfoldable pub array_to_postgres : List Text → Text
unfolding join_comma
array_to_postgres arr = if is_empty arr then lit "{}" else 123 ∷ (join_comma arr ++ (125 ∷ []))

pub record QueueRow : Type 0 where
  pub name : Text
  pub skills : List Text

pub record RoutedAgent : Type 0 where
  pub agent_id : Text
  pub name : Text
  pub expertise : List Text
  pub languages : List Text
  pub priority : ℤ
  pub current_calls : ℤ

pub record AgentScore : Type 0 where
  pub agent_id : Text
  pub name : Text
  pub score : ℤ

-- The number of words that the text contains, in lower case.
unfoldable pub count_words : Text → List Text → ℕ
count_words lower [] = 0
count_words lower (w ∷ ws) =
    let rest = count_words lower ws in if contains lower (to_lower w) then 1 + rest else rest

-- The loop over the queues with the best one so far.
unfoldable pub best_queue : Text → List QueueRow → ℕ → Text → Text
best_queue lower [] best_score best = best
best_queue lower (q ∷ qs) best_score best =
    let score = count_words lower q.skills in
    if ltb best_score score
    then best_queue lower qs score q.name
    else best_queue lower qs best_score best

-- The rows by name; none when the query fails.
unfoldable pub match_queue : Option (List QueueRow) → Text → Text
match_queue none intent = lit "Support"
match_queue (some qs) intent = best_queue (to_lower intent) qs 0 (lit "Support")

unfoldable pub language_or_default : Text → Text
language_or_default language =
    if is_empty (to_lower language) then lit "english" else to_lower language

unfoldable pub score_routed : Text → Text → RoutedAgent → AgentScore
score_routed intent language a = record {
  agent_id = a.agent_id;
  name = a.name;
  score =
      pos (10 * count_words intent a.expertise)
      +ℤ pos (20 * count_words language a.languages)
      +ℤ (a.priority +ℤ a.priority +ℤ a.priority +ℤ a.priority +ℤ a.priority)
      -ℤ times_ten a.current_calls;
}
  where
    times_ten : ℤ → ℤ
    times_ten n = let m = n +ℤ n +ℤ n +ℤ n +ℤ n in m +ℤ m

-- What stands at place i and at place j after the test: the higher score comes to place i.
abbrev pub exchange : AgentScore → AgentScore → AgentScore × AgentScore
exchange x y = if ltb_ℤ x.score y.score then (y, x) else (x, y)

-- The inner loop from x at place i over the places after it.
unfoldable pub sweep : AgentScore → List AgentScore → AgentScore × List AgentScore
sweep x [] = (x, [])
sweep x (y ∷ ys) =
    let (high, low) = exchange x y in let (top, rest) = sweep high ys in (top, low ∷ rest)

-- The outer loop, with the number of places left.
unfoldable pub sort_from : ℕ → List AgentScore → List AgentScore
sort_from zero xs = xs
sort_from (suc n) [] = []
sort_from (suc n) (x ∷ xs) = (sweep x xs).0 ∷ sort_from n (sweep x xs).1

unfoldable pub score_all : Text → Text → List RoutedAgent → List AgentScore
score_all intent language [] = []
score_all intent language (a ∷ rows) =
    score_routed intent language a ∷ score_all intent language rows

unfoldable pub score_agents : Text → Text → List RoutedAgent → List AgentScore
unfolding language_or_default
score_agents intent language rows =
    sort_from (length rows) (score_all (to_lower intent) (language_or_default language) rows)

unfoldable pub first_of : List AgentScore → Option AgentScore
first_of [] = none
first_of (a ∷ rest) = some a

-- `agents_of` are the available agents of a queue, none when the query fails, which is an error.
unfoldable pub route_call :
    Bool
    → Option (List QueueRow)
    → (Text → Option (List RoutedAgent))
    → Text
    → Text
    → Option AgentScore × Text
unfolding first_of
route_call has_db queues agents_of intent language =
    if has_db
    then (let matched = match_queue queues intent in
        let name = if is_empty matched then lit "Support" else matched in
        elim (agents_of name) [
          | none ↦ (none, name)
          | some rows ↦ (first_of (score_agents intent language rows), name)
        ])
    else (none, [])
