-- ===== src/Calls/Announcer/Tests.antt =====
-- Announcements of one call in gateway/queue_announcements.go.
use voiceagent.Base.{
  ℕ, ◌+◌, ◌≡◌, refl, true, false, List, [], ◌∷◌, none, some, Text, lit, get, same, All,
}
use voiceagent.Calls.Announcer.{QueueAnnouncer, new_queue_announcer, start_announcements}

abbrev talking : QueueAnnouncer
talking = start_announcements (lit "anna") (lit "Sales") new_queue_announcer

-- A second start while the first loop is known does nothing.
start_twice : start_announcements (lit "anna") (lit "Support") talking ≡ talking
unfolding start_announcements new_queue_announcer get voiceagent.Base.put same
start_twice = refl
