-- ===== src/Capacity/Workers/Tests.antt =====
-- Three workers of gateway/scale.go, one of them down.
use voiceagent.Base.{ℕ, ◌≡◌, refl, true, false, [], ◌∷◌, some, lit, same}
use voiceagent.Capacity.Workers.{
  WorkerPool, new_worker_pool, workers_of, next, find_healthy, mark_unhealthy, healthy_count,
}

abbrev pool : WorkerPool
pool = record {
  workers =
      record { url = lit "a"; healthy = true }
      ∷ record { url = lit "b"; healthy = false }
      ∷ record { url = lit "c"; healthy = true }
      ∷ [];
  index = 0;
}

abbrev first_of : ℕ → ℕ
first_of _ = 0

-- The worker that is down is passed over.
skips : (next first_of pool).1 ≡ some (lit "c")
unfolding next find_healthy
skips = refl

marked :
    healthy_count (mark_unhealthy (lit "b") (new_worker_pool (lit "a" ∷ lit "b" ∷ [])).workers) ≡ 1
unfolding healthy_count mark_unhealthy new_worker_pool workers_of same
marked = refl
