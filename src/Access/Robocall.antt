-- ===== src/Access/Robocall.antt =====
-- The robocall filter of gateway/robocall.go: the block list, the phrases of a transcript and the
-- combined score. Floats are an argument; the writes to the database are left out.
pub mod Blocklist
pub mod Phrases
pub mod Blocking
mod Tests
use voiceagent.Base.{
  ℕ, ◌+◌, Bool, true, false, ◌&&◌, not, List, [], ◌∷◌, ◌++◌, Option, none, some, if◌then◌else◌, leb,
  map, Text, lit, same, is_empty, contains, to_lower, get, put, del,
}

-- A float64 with the operations that the filter uses; `over a b` is a > b, and `tenths n` is the
-- literal n / 10.
pub record FloatOps : Type 1 where
  pub Float : Type 0
  pub add : Float → Float → Float
  pub mul : Float → Float → Float
  pub over : Float → Float → Bool
  pub at_least : Float → Float → Bool
  pub tenths : ℕ → Float

pub record RobocallResult (A : Type 0) : Type 0 where
  pub score : A
  pub category : Text
  pub reason : Text
  pub keywords : List Text
  pub blocked : Bool

pub record Keyword (A : Type 0) : Type 0 where
  pub phrase : Text
  pub weight : A

pub record RobocallDetector (A : Type 0) : Type 0 where
  pub blocklist : List (Text × Text)
  pub custom_keywords : List (Keyword A)
  pub threshold : A
  pub auto_block : Bool

-- The digits of a number, bytes 48 to 57.
unfoldable pub normalize_number : Text → Text
normalize_number [] = []
normalize_number (c ∷ s) =
    let rest = normalize_number s in if leb 48 c && leb c 57 then c ∷ rest else rest

-- The rows of the table in the order of the query.
unfoldable pub load_blocklist : List (Text × Text) → List (Text × Text) → List (Text × Text)
load_blocklist [] blocklist = blocklist
load_blocklist ((number, reason) ∷ rows) blocklist =
    load_blocklist rows (put (normalize_number number) reason blocklist)

module _ (F : FloatOps) where
  unfoldable pub new_robocall_detector : List (Text × Text) → RobocallDetector F.Float
  new_robocall_detector rows = record {
    blocklist = load_blocklist rows [];
    custom_keywords = [];
    threshold = F.tenths 7;
    auto_block = false;
  }

  unfoldable pub check_blocklist : Text → RobocallDetector F.Float → Option (RobocallResult F.Float)
  check_blocklist number d = elim (get (normalize_number number) d.blocklist) [
    | none ↦ none
    | some reason ↦ some (record {
      score = F.tenths 10;
      category = lit "robocall";
      reason = lit "blocklist: " ++ reason;
      keywords = [];
      blocked = true;
    })
  ]

  unfoldable pub add_to_blocklist :
      Text → Text → RobocallDetector F.Float → RobocallDetector F.Float
  add_to_blocklist number reason d = record d {
    blocklist = put (normalize_number number) reason d.blocklist;
  }

  unfoldable pub remove_from_blocklist : Text → RobocallDetector F.Float → RobocallDetector F.Float
  remove_from_blocklist number d = record d {
    blocklist = del (normalize_number number) d.blocklist;
  }

  -- The code of the answer; GET lists the entries.
  unfoldable pub handle_blocklist :
      Text → Text → Text → RobocallDetector F.Float → RobocallDetector F.Float × ℕ
  unfolding add_to_blocklist remove_from_blocklist
  handle_blocklist method number reason d =
      if same method (lit "GET")
      then (d, 200)
      else if same method (lit "POST")
      then (if is_empty number then (d, 400) else (add_to_blocklist number reason d, 201))
      else if same method (lit "DELETE")
      then (remove_from_blocklist number d, 200)
      else (d, 405)

  unfoldable pub add_keyword : Text → F.Float → RobocallDetector F.Float → RobocallDetector F.Float
  add_keyword phrase weight d = record d {
    custom_keywords = d.custom_keywords ++ (record { phrase = phrase; weight = weight } ∷ []);
  }

  unfoldable pub without_phrase : Text → List (Keyword F.Float) → List (Keyword F.Float)
  without_phrase phrase [] = []
  without_phrase phrase (k ∷ ks) =
      let rest = without_phrase phrase ks in if same k.phrase phrase then rest else k ∷ rest

  unfoldable pub remove_keyword : Text → RobocallDetector F.Float → RobocallDetector F.Float
  remove_keyword phrase d = record d { custom_keywords = without_phrase phrase d.custom_keywords }

  abbrev built_in : Text → ℕ → Keyword F.Float
  built_in phrase n = record { phrase = phrase; weight = F.tenths n }

  abbrev pub robocall_keywords : List (Keyword F.Float)
  robocall_keywords =
      built_in (lit "press 1") 6
      ∷ built_in (lit "press 2") 5
      ∷ built_in (lit "press 9") 5
      ∷ built_in (lit "do not hang up") 7
      ∷ built_in (lit "this is not a sales call") 6
      ∷ built_in (lit "your account has been") 5
      ∷ built_in (lit "your amazon") 6
      ∷ built_in (lit "your apple") 5
      ∷ built_in (lit "irs") 6
      ∷ built_in (lit "social security") 6
      ∷ built_in (lit "auto warranty") 8
      ∷ built_in (lit "car warranty") 7
      ∷ built_in (lit "extended warranty") 8
      ∷ built_in (lit "student loan") 6
      ∷ built_in (lit "loan forgiveness") 5
      ∷ built_in (lit "tech support") 4
      ∷ built_in (lit "microsoft support") 6
      ∷ built_in (lit "your computer has") 6
      ∷ built_in (lit "you have won") 7
      ∷ built_in (lit "congratulations") 3
      ∷ built_in (lit "free vacation") 7
      ∷ built_in (lit "lower your interest") 6
      ∷ built_in (lit "reduce your debt") 5
      ∷ built_in (lit "this is an important message") 5
      ∷ built_in (lit "we have been trying to reach you") 6
      ∷ built_in (lit "final notice") 5
      ∷ built_in (lit "legal action") 5
      ∷ built_in (lit "arrest warrant") 7
      ∷ []

  -- The loop over one table of phrases, with the score and the matches so far.
  unfoldable pub match_phrases :
      Text → List (Keyword F.Float) → F.Float × List Text → F.Float × List Text
  match_phrases lower [] so_far = so_far
  match_phrases lower (k ∷ ks) (score, matched) = match_phrases lower ks (
      if contains lower k.phrase
      then (F.add score k.weight, matched ++ (k.phrase ∷ []))
      else (score, matched))

  abbrev capped : F.Float → F.Float
  capped score = if F.over score (F.tenths 10) then F.tenths 10 else score

  unfoldable pub category_of : F.Float → F.Float → F.Float → Text
  category_of high low score =
      if F.over score high
      then lit "robocall"
      else if F.over score low
      then lit "uncertain"
      else lit "human"

  -- The result of the total weight and of the phrases matched.
  unfoldable pub classified : F.Float × List Text → RobocallResult F.Float
  unfolding category_of
  classified (total, matched) = record {
    score = capped total;
    category = category_of (F.tenths 6) (F.tenths 3) (capped total);
    reason = lit "keyword_match";
    keywords = matched;
    blocked = false;
  }

  unfoldable pub classify_transcript : Text → RobocallDetector F.Float → RobocallResult F.Float
  classify_transcript text d =
      let lower = to_lower text in
      classified (
        match_phrases lower d.custom_keywords
          (match_phrases lower robocall_keywords (F.tenths 0, [])))

  -- A layer that ran and scored adds its share, in tenths, to the score, and its reason.
  unfoldable pub add_layer :
      ℕ → Option (RobocallResult F.Float) → F.Float × List Text → F.Float × List Text
  add_layer share none so_far = so_far
  add_layer share (some r) (score, reasons) =
      if F.over r.score (F.tenths 0)
      then (F.add score (F.mul r.score (F.tenths share)), reasons ++ (r.reason ∷ []))
      else (score, reasons)

  -- strings.Join(reasons, "; ")
  unfoldable pub join_reasons : List Text → Text
  join_reasons [] = []
  join_reasons (r ∷ []) = r
  join_reasons (r ∷ q ∷ rs) = r ++ lit "; " ++ join_reasons (q ∷ rs)

  unfoldable pub combined :
      Option (RobocallResult F.Float)
      → RobocallDetector F.Float
      → F.Float × List Text
      → RobocallResult F.Float
  unfolding category_of join_reasons
  combined keyword d (total, reasons) = record {
    score = capped total;
    category = category_of d.threshold (F.mul d.threshold (F.tenths 6)) (capped total);
    reason = join_reasons reasons;
    keywords = elim keyword [ none ↦ [] | some r ↦ r.keywords ];
    blocked = F.at_least (capped total) d.threshold && d.auto_block;
  }

  unfoldable pub combined_score :
      Option (RobocallResult F.Float)
      → Option (RobocallResult F.Float)
      → Option (RobocallResult F.Float)
      → RobocallDetector F.Float
      → RobocallResult F.Float
  combined_score (some listed) audio keyword d =
      let rest = combined keyword d (add_layer 6 keyword (add_layer 4 audio (F.tenths 0, []))) in
      if F.over listed.score (F.tenths 0) then listed else rest
  combined_score none audio keyword d =
      combined keyword d (add_layer 6 keyword (add_layer 4 audio (F.tenths 0, [])))
