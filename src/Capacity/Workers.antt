-- ===== src/Capacity/Workers.antt =====
-- The WorkerPool of gateway/scale.go. The index counts the calls of Next, below 2^63; rand.Intn is an
-- argument.
pub mod Rotation
mod Tests
use voiceagent.Base.{
  ℕ, zero, suc, ◌+◌, ◌%◌, Bool, true, false, List, [], ◌∷◌, Option, none, some, if◌then◌else◌, ◌==◌,
  Text, same, get_elem?, length,
}

pub record Worker : Type 0 where
  pub url : Text
  pub healthy : Bool

pub record WorkerPool : Type 0 where
  pub workers : List Worker
  pub index : ℕ

unfoldable pub workers_of : List Text → List Worker
workers_of [] = []
workers_of (u ∷ urls) = record { url = u; healthy = true } ∷ workers_of urls

unfoldable pub new_worker_pool : List Text → WorkerPool
new_worker_pool urls = record { workers = workers_of urls; index = 0 }

abbrev pub is_healthy : Option Worker → Bool
is_healthy none = false
is_healthy (some w) = w.healthy

-- The loop from `start`, with i steps done and `left` still to do.
unfoldable pub find_healthy : List Worker → ℕ → ℕ → ℕ → Option ℕ
find_healthy ws start i zero = none
find_healthy ws start i (suc left) =
    let later = find_healthy ws start (i + 1) left in
    let idx = (start + i) % length ws in if is_healthy (get_elem? ws idx) then some idx else later

abbrev pub url_at : List Worker → ℕ → Option Text
url_at ws i = elim (get_elem? ws i) [ none ↦ none | some w ↦ some w.url ]

-- None is the error of a pool without workers, and leaves the index alone.
unfoldable pub next : (ℕ → ℕ) → WorkerPool → WorkerPool × Option Text
next rand_intn wp =
    let n = length wp.workers in
    let index = wp.index + 1 in
    if n == 0 then (wp, none) else (
      record wp { index = index },
      elim (find_healthy wp.workers (index % n) 0 n) [
        | some idx ↦ url_at wp.workers idx
        | none ↦ url_at wp.workers (rand_intn n)
      ],
    )

-- MarkUnhealthy marks the first worker with the url.
unfoldable pub mark_unhealthy : Text → List Worker → List Worker
mark_unhealthy url [] = []
mark_unhealthy url (w ∷ ws) =
    let rest = mark_unhealthy url ws in
    if same w.url url then record w { healthy = false } ∷ ws else w ∷ rest

-- What its goroutine does after the cooldown.
unfoldable pub recover_worker : ℕ → List Worker → List Worker
recover_worker i [] = []
recover_worker zero (w ∷ ws) = record w { healthy = true } ∷ ws
recover_worker (suc i) (w ∷ ws) = w ∷ recover_worker i ws

unfoldable pub healthy_count : List Worker → ℕ
healthy_count [] = 0
healthy_count (w ∷ ws) = (if w.healthy then 1 else 0) + healthy_count ws
