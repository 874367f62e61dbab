-- ===== src/Web/Cache.antt =====
-- internal/web/server.go: the cache of sessions. A moment is a number of nanoseconds; each function holds the
-- lock from end to end.
pub mod Recent
use logfalcon.Prelude.{ℕ, ◌-◌, ◌≤◌, Bool, true, Option, none, some, List, [], ltb, if◌then◌else◌}

-- `sessionsCacheTTL`
abbrev pub sessions_cache_ttl : ℕ
sessions_cache_ttl = 10000000000

-- The cache; `none` is the zero time.
pub record Cache (S : Type 0) : Type 0 where
  pub listed : List S
  pub ts : Option ℕ

-- `time.Since(ts) > sessionsCacheTTL`; the time since the zero time is the longest there is.
unfoldable pub is_stale : ℕ → Option ℕ → Bool
is_stale now none = true
is_stale now (some ts) = ltb sessions_cache_ttl (now - ts)

module _ {S : Type 0} where
  unfoldable pub new_cache : Cache S
  new_cache = record { listed = []; ts = none }

  -- What is kept of a listing; an error is logged.
  abbrev pub sessions_or_none : Option (List S) → List S
  sessions_or_none none = []
  sessions_or_none (some sessions) = sessions

  -- `getSessions`: `now` is the first reading of the clock, `stamp` the second, after the listing.
  unfoldable pub get_sessions : Option (List S) → ℕ → ℕ → Cache S → Cache S
  unfolding is_stale
  get_sessions listing now stamp c =
      if is_stale now c.ts then record { listed = sessions_or_none listing; ts = some stamp } else c

  -- `invalidateSessionsCache`
  unfoldable pub invalidate : Cache S → Cache S
  invalidate c = record c { ts = none }
