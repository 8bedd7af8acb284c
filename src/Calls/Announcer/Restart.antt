-- ===== src/Calls/Announcer/Restart.antt =====
-- What stopping and starting announcements in gateway/queue_announcements.go leaves behind.
use voiceagent.Base.{
  ℕ, ◌≡◌, refl, ap, ◌∙◌, Bool, true, false, List, [], ◌∷◌, none, some, ◌==◌, arith, Text, same_refl,
  if_elim, get, put, del, All, get-del,
}
use voiceagent.Calls.Announcer.{
  AnnouncementLoop, QueueAnnouncer, new_queue_announcer, start_announcements, cancel_loop,
  stop_announcements, drop_loop, end_loop,
}

abbrev pub Silenced : ℕ → AnnouncementLoop → Type 0
Silenced n l = l.number ≡ n → l.cancelled ≡ true

cancel_loop-Silenced : (n : ℕ) (ls : List AnnouncementLoop) → All (Silenced n) (cancel_loop n ls)
unfolding cancel_loop
cancel_loop-Silenced n [] = tt
cancel_loop-Silenced n (l ∷ ls) =
    if_elim (All (Silenced n)) _ _ (l.number == n) (λ _. (λ _. refl, cancel_loop-Silenced n ls))
      (λ other. (λ e. ground (arith, other, e), cancel_loop-Silenced n ls))

-- Stopping the announcements of a call whose loop is known cancels that loop and forgets the call.
pub stop_announcements-Silenced :
    (call : Text) (n : ℕ) (qa : QueueAnnouncer)
    → get call qa.active ≡ some n
    → All (Silenced n) (stop_announcements call qa).loops
      × (get call (stop_announcements call qa).active ≡ none)
unfolding stop_announcements
stop_announcements-Silenced call n qa e =
    rw (e, stop_announcements)
      (cancel_loop-Silenced n qa.loops, ground (arith, get-del call call qa.active, same_refl call))

abbrev pub loop_of : ℕ → Text → Text → Bool → AnnouncementLoop
loop_of n call name cancelled = record {
  number = n;
  call_id = call;
  queue_name = name;
  cancelled = cancelled;
}

unfoldable announcing : List (Text × ℕ) → List AnnouncementLoop → ℕ → QueueAnnouncer
announcing active loops started = record { active = active; loops = loops; started = started }

stop-first :
    (call first : Text)
    → stop_announcements call (announcing ((call, 0) ∷ []) (loop_of 0 call first false ∷ []) 1)
      ≡ announcing [] (loop_of 0 call first true ∷ []) 1
unfolding stop_announcements get del cancel_loop announcing
stop-first call first = ground (arith, same_refl call)

end_loop-first :
    (call first second : Text)
    → end_loop (loop_of 0 call first true) (
        announcing
          ((call, 1) ∷ [])
          (loop_of 1 call second false ∷ loop_of 0 call first true ∷ [])
          2)
      ≡ announcing [] (loop_of 1 call second false ∷ []) 2
unfolding end_loop del drop_loop announcing
end_loop-first call first second = ground (arith, same_refl call)

-- A call that is stopped and started again, as a transfer to a queue does, before its first loop has
-- returned: that loop's deferred delete then removes the entry of the second, and stopping the call
-- again leaves the second loop running.
pub stop_announcements_deaf :
    (call first second : Text)
    → (stop_announcements call (
        end_loop (loop_of 0 call first true) (
          start_announcements call second
            (stop_announcements call (start_announcements call first new_queue_announcer))))).loops
      ≡ loop_of 1 call second false ∷ []
unfolding new_queue_announcer start_announcements stop_announcements get put announcing
stop_announcements_deaf call first second =
    ap
      (λ qa.
        (stop_announcements call
          (end_loop (loop_of 0 call first true) (start_announcements call second qa))).loops)
      (stop-first call first)
    ∙ ap (λ qa. (stop_announcements call qa).loops) (end_loop-first call first second)
