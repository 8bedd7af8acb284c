-- ===== src/Access/Robocall/Blocklist.antt =====
-- What the block list of gateway/robocall.go answers after any requests to change it.
use voiceagent.Base.{
  ◌≡◌, refl, ap, ◌∙◌, true, false, ◌&&◌, not, List, [], ◌∷◌, ◌++◌, Option, none, some,
  if◌then◌else◌, arith, Text, lit, same, same_iff, is_empty, get, put, get-put, get-del,
}
use voiceagent.Access.Robocall.{
  FloatOps, RobocallDetector, normalize_number, load_blocklist, new_robocall_detector,
  check_blocklist, add_to_blocklist, remove_from_blocklist, handle_blocklist,
}

pub record BlocklistRequest : Type 0 where
  pub method : Text
  pub number : Text
  pub reason : Text

-- What the requests say last of the number with these digits, if what was said before them is `told`.
unfoldable pub last_told : Text → Option Text → List BlocklistRequest → Option Text
last_told digits told [] = told
last_told digits told (r ∷ rs) =
    last_told digits
      (if not (same (normalize_number r.number) digits)
        then told
        else if same r.method (lit "POST") && not (is_empty r.number)
        then some r.reason
        else if same r.method (lit "DELETE")
        then none
        else told)
      rs

-- The reason of the last row with these digits, if what was said before them is `told`.
unfoldable pub last_row : Text → Option Text → List (Text × Text) → Option Text
last_row digits told [] = told
last_row digits told ((number, reason) ∷ rows) =
    last_row digits (if same (normalize_number number) digits then some reason else told) rows

-- A method is at most one of the three.
methods :
    (m : Text)
    → ((same m (lit "GET") ≡ true)
        → (same m (lit "POST") ≡ false) × (same m (lit "DELETE") ≡ false))
      × ((same m (lit "POST") ≡ true) → same m (lit "DELETE") ≡ false)
unfolding same
methods m = (
  λ h. let e : m ≡ lit "GET" = (same_iff m (lit "GET")).0 h in (rw (e) refl, rw (e) refl),
  λ h. let e : m ≡ lit "POST" = (same_iff m (lit "POST")).0 h in rw (e) refl,
)

module _ (F : FloatOps) where
  unfoldable pub handle_all :
      List BlocklistRequest → RobocallDetector F.Float → RobocallDetector F.Float
  handle_all [] d = d
  handle_all (r ∷ rs) d = handle_all rs (handle_blocklist F r.method r.number r.reason d).0

  one_request :
      (r : BlocklistRequest) (digits : Text) (d : RobocallDetector F.Float)
      → get digits (handle_blocklist F r.method r.number r.reason d).0.blocklist ≡ (
          if not (same (normalize_number r.number) digits)
          then get digits d.blocklist
          else if same r.method (lit "POST") && not (is_empty r.number)
          then some r.reason
          else if same r.method (lit "DELETE")
          then none
          else get digits d.blocklist)
  unfolding handle_blocklist add_to_blocklist remove_from_blocklist
  one_request r digits d =
      let n = normalize_number r.number in
      ground (
        arith,
        methods r.method,
        get-put n digits r.reason d.blocklist,
        get-del n digits d.blocklist,
      )

  all_requests :
      (rs : List BlocklistRequest) (digits : Text) (d : RobocallDetector F.Float)
      → get digits (handle_all rs d).blocklist ≡ last_told digits (get digits d.blocklist) rs
  unfolding handle_all last_told
  all_requests [] digits d = refl
  all_requests (r ∷ rs) digits d =
      all_requests rs digits (handle_blocklist F r.method r.number r.reason d).0
      ∙ ap (λ told. last_told digits told rs) (one_request r digits d)

get-load_blocklist :
    (rows m : List (Text × Text)) (digits : Text)
    → get digits (load_blocklist rows m) ≡ last_row digits (get digits m) rows
unfolding load_blocklist last_row
get-load_blocklist [] m digits = refl
get-load_blocklist ((number, reason) ∷ rows) m digits =
    get-load_blocklist rows (put (normalize_number number) reason m) digits
    ∙ ap (λ told. last_row digits told rows) (get-put (normalize_number number) digits reason m)

-- Whatever rows the detector loads and whatever requests follow, a number is blocked, and with which
-- reason, by what was last said of a number with the same digits: by the requests that add and remove
-- numbers, or else by the rows.
pub check_blocklist-last_told :
    (F : FloatOps) (rows : List (Text × Text)) (rs : List BlocklistRequest) (number : Text)
    → check_blocklist F number (handle_all F rs (new_robocall_detector F rows))
      ≡ elim (last_told
          (normalize_number number)
          (last_row (normalize_number number) none rows)
          rs) [
            | none ↦ none
            | some reason ↦ some (record {
              score = F.tenths 10;
              category = lit "robocall";
              reason = lit "blocklist: " ++ reason;
              keywords = [];
              blocked = true;
            })
          ]
unfolding check_blocklist new_robocall_detector get
check_blocklist-last_told F rows rs number =
    let digits = normalize_number number in
    ap
      (λ told. elim told [
        | none ↦ none
        | some reason ↦ some (record {
          score = F.tenths 10;
          category = lit "robocall";
          reason = lit "blocklist: " ++ reason;
          keywords = [];
          blocked = true;
        })
      ])
      (all_requests F rs digits (new_robocall_detector F rows)
        ∙ ap (λ told. last_told digits told rs) (get-load_blocklist rows [] digits))
