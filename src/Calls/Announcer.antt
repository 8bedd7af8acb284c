-- ===== src/Calls/Announcer.antt =====
-- The announcements of gateway/queue_announcements.go: StartAnnouncements, StopAnnouncements and the end
-- of a loop. A cancel function is the number of the loop that it cancels.
pub mod Restart
mod Tests
use voiceagent.Base.{
  ℕ, ◌+◌, Bool, true, false, List, [], ◌∷◌, Option, none, some, if◌then◌else◌, ◌==◌, Text, get, put,
  del,
}

-- A goroutine of announcementLoop.
pub record AnnouncementLoop : Type 0 where
  pub number : ℕ
  pub call_id : Text
  pub queue_name : Text
  pub cancelled : Bool

pub record QueueAnnouncer : Type 0 where
  pub active : List (Text × ℕ)
  pub loops : List AnnouncementLoop
  pub started : ℕ

unfoldable pub new_queue_announcer : QueueAnnouncer
new_queue_announcer = record { active = []; loops = []; started = 0 }

unfoldable pub start_announcements : Text → Text → QueueAnnouncer → QueueAnnouncer
start_announcements call name qa = elim (get call qa.active) [
  | some _ ↦ qa
  | none ↦ record {
    active = put call qa.started qa.active;
    loops =
        record { number = qa.started; call_id = call; queue_name = name; cancelled = false }
        ∷ qa.loops;
    started = qa.started + 1;
  }
]

unfoldable pub cancel_loop : ℕ → List AnnouncementLoop → List AnnouncementLoop
cancel_loop n [] = []
cancel_loop n (l ∷ ls) =
    let rest = cancel_loop n ls in
    if l.number == n then record l { cancelled = true } ∷ rest else l ∷ rest

unfoldable pub stop_announcements : Text → QueueAnnouncer → QueueAnnouncer
stop_announcements call qa = elim (get call qa.active) [
  | none ↦ qa
  | some n ↦ record qa { active = del call qa.active; loops = cancel_loop n qa.loops }
]

unfoldable pub drop_loop : ℕ → List AnnouncementLoop → List AnnouncementLoop
drop_loop n [] = []
drop_loop n (l ∷ ls) = let rest = drop_loop n ls in if l.number == n then rest else l ∷ rest

-- A loop returns, cancelled or with its caller gone from the queue, and runs its deferred function.
unfoldable pub end_loop : AnnouncementLoop → QueueAnnouncer → QueueAnnouncer
end_loop l qa = record qa { active = del l.call_id qa.active; loops = drop_loop l.number qa.loops }
