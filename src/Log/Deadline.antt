-- ===== src/Log/Deadline.antt =====
-- The timed wait of core/log.c.
use syswatcher.Base.{ℕ, ◌+◌, ◌*◌, ◌<◌, ◌≡◌, arith}
use syswatcher.Log.{deadline}

-- From a time of day with less than a million microseconds, the wait ends a tenth of a second later, at
-- a time with less than a thousand million nanoseconds.
pub deadline_lem :
    (tv_sec tv_usec : ℕ)
    → tv_usec < 1000000
    → ((deadline tv_sec tv_usec).0 * 1000000000 + (deadline tv_sec tv_usec).1
        ≡ tv_sec * 1000000000 + tv_usec * 1000 + 100000000)
      × ((deadline tv_sec tv_usec).1 < 1000000000)
unfolding deadline
deadline_lem tv_sec tv_usec h = (ground arith, ground arith)
