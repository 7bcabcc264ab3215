-- ===== src/Http/SingleFlight.antt =====
-- One refresh at a time.
use ytshare.Base.{ℕ, ◌+◌, ◌≡◌, Bool, length, is_some, if◌then◌else◌}
use ytshare.Http.Machine.{Machine}

abbrev pending : Bool → ℕ
pending b = if b then 1 else 0

module _ {S : Type 0} where
  -- The refreshes posted are those answered, and the one that `refreshPromise` stands for.
  record IsSingle (m : Machine S) : Type 0 where
    counted : length m.refresh_posts ≡ m.refresh_answers + pending (is_some m.refresh_promise)
