-- ===== src/Web/Cache/Recent.antt =====
-- internal/web/server.go: how old the sessions can be that the pages show.
use logfalcon.Prelude.{ℕ, ◌+◌, ◌≤◌, ◌≡◌, refl, false, Option, none, some, List, arith, on_if}
use logfalcon.Web.Cache.{
  sessions_cache_ttl, Cache, new_cache, is_stale, sessions_or_none, get_sessions, invalidate,
}

module _ {S : Type 0} (listing : ℕ → Option (List S)) where
  -- A cache after some calls, by the clock: `dropped` is the moment of the last invalidation.
  pub data Run : (clock dropped : ℕ) → Cache S → Type 0 where
    begins : Run 0 0 new_cache
    gets :
        {clock dropped : ℕ} {c : Cache S} (now moment stamp : ℕ)
        → Run clock dropped c
        → clock ≤ now
        → now ≤ moment
        → moment ≤ stamp
        → Run stamp dropped (get_sessions (listing moment) now stamp c)
    drops :
        {clock dropped : ℕ} {c : Cache S} (now : ℕ)
        → Run clock dropped c
        → clock ≤ now
        → Run now now (invalidate c)

  -- The sessions of a listing after the last invalidation, stamped at once.
  pub data Holds (dropped : ℕ) (sessions : List S) (stamp : ℕ) : Type 0 where
    taken :
        (moment : ℕ)
        → dropped ≤ moment
        → moment ≤ stamp
        → sessions ≡ sessions_or_none (listing moment)
        → Holds dropped sessions stamp

  abbrev HoldsAt : ℕ → ℕ → List S → Option ℕ → Type 0
  HoldsAt clock dropped sessions none = Unit {0}
  HoldsAt clock dropped sessions (some stamp) = Holds dropped sessions stamp × (stamp ≤ clock)

  get_sessions-HoldsAt :
      (clock dropped now moment stamp : ℕ) (c : Cache S)
      → dropped ≤ clock
      → clock ≤ now
      → now ≤ moment
      → moment ≤ stamp
      → HoldsAt clock dropped c.listed c.ts
      → HoldsAt stamp dropped
          (get_sessions (listing moment) now stamp c).listed
          (get_sessions (listing moment) now stamp c).ts
  unfolding get_sessions
  get_sessions-HoldsAt clock dropped now moment stamp c a b d e h =
      on_if {A = Cache S} (λ r. HoldsAt stamp dropped r.listed r.ts) (is_stale now c.ts) _ _
        (λ _. (taken moment (omega arith) e refl, omega arith)) (λ _. later c.ts h)
    where
      later :
          (ts : Option ℕ) → HoldsAt clock dropped c.listed ts → HoldsAt stamp dropped c.listed ts
      later none k = tt
      later (some t) k = (k.0, omega (arith, k.1))

  Run-HoldsAt :
      {clock dropped : ℕ} {c : Cache S}
      → Run clock dropped c
      → HoldsAt clock dropped c.listed c.ts × (dropped ≤ clock)
  unfolding new_cache invalidate
  Run-HoldsAt begins = (tt, omega arith)
  Run-HoldsAt (gets {clock} {dropped} {c} now moment stamp r a b d) =
      let (h, k) = Run-HoldsAt r in
      (get_sessions-HoldsAt clock dropped now moment stamp c k a b d h, omega (arith, k))
  Run-HoldsAt (drops now r a) = (tt, omega arith)

  -- The sessions that are shown now, of a listing made at `moment`.
  pub data IsRecent (dropped now : ℕ) (shown : List S) : Type 0 where
    recent :
        (moment stamp : ℕ)
        → dropped ≤ moment
        → moment ≤ stamp
        → now ≤ stamp + sessions_cache_ttl
        → shown ≡ sessions_or_none (listing moment)
        → IsRecent dropped now shown

  fresh_IsRecent :
      (now stamp dropped : ℕ) (sessions : List S)
      → is_stale now (some stamp) ≡ false
      → Holds dropped sessions stamp
      → IsRecent dropped now sessions
  unfolding is_stale
  fresh_IsRecent now stamp dropped sessions e (taken moment a b q) =
      recent moment stamp a b (ground arith) q

  kept_IsRecent :
      (clock dropped now : ℕ) (sessions : List S) (ts : Option ℕ)
      → is_stale now ts ≡ false
      → HoldsAt clock dropped sessions ts
      → IsRecent dropped now sessions
  unfolding is_stale
  kept_IsRecent clock dropped now sessions none e h = absurd (cc e)
  kept_IsRecent clock dropped now sessions (some stamp) e h =
      fresh_IsRecent now stamp dropped sessions e h.0

  -- What `getSessions` returns was listed after the last invalidation, and got its time stamp, after the
  -- listing, at most ten seconds ago; where the listing failed it is empty.
  pub get_sessions-IsRecent :
      {clock dropped : ℕ} {c : Cache S} (now moment stamp : ℕ)
      → Run clock dropped c
      → clock ≤ now
      → now ≤ moment
      → moment ≤ stamp
      → IsRecent dropped now (get_sessions (listing moment) now stamp c).listed
  unfolding get_sessions
  get_sessions-IsRecent {clock} {dropped} {c} now moment stamp r a b d =
      let (h, k) = Run-HoldsAt r in
      on_if {A = Cache S} (λ x. IsRecent dropped now x.listed) (is_stale now c.ts) _ _
        (λ _. recent moment stamp (omega (arith, k, a, b)) d (omega (arith, b, d)) refl)
        (λ e. kept_IsRecent clock dropped now c.listed c.ts e h)
