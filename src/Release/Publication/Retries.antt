-- ===== src/Release/Publication/Retries.antt =====
-- `confirmationRetries`: the number of re-reads is the least one whose delays cover the window.
use internal.Prelude.{ℕ, zero, suc, ◌+◌, ◌≤◌, ◌<◌}
use internal.Release.Publication.{confirmation_delay}

-- The time slept before the re-read with number `n`.
pub total_delay : ℕ → ℕ → ℕ
total_delay interval zero = 0
total_delay interval (suc n) = total_delay interval n + confirmation_delay interval n

module _ (interval window : ℕ) (positive : 0 < interval) where
  -- What the loop returns.
  record Covers (retries n : ℕ) : Type 0 where
    grows : retries ≤ n
    covered : window ≤ total_delay interval n
    least : (m : ℕ) → retries ≤ m → m < n → total_delay interval m < window
