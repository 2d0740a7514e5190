-- ===== src/Web/MobileRelease/Tests.antt =====
-- Releases at concrete versions.
use kall.Common.{ℕ, ◌≤◌, ◌<◌, ◌≡◌, refl, ◌⊎◌, true, false}
use kall.Web.MobileRelease.{Version, legacy_tester_version, version_at_most}

old_and_new :
    (version_at_most "1.1.6" legacy_tester_version ≡ true)
    × (version_at_most "1.1.10" legacy_tester_version ≡ false)
    × (version_at_most "1.1" legacy_tester_version ≡ false)
unfolding version_at_most
old_and_new = (refl, refl, refl)

abbrev version : ℕ → ℕ → ℕ → Version
version a b c = record { major = a; minor = b; patch = c }

abbrev Comes : ℕ → ℕ → ℕ → ℕ → ℕ → ℕ → Type 0
Comes a b c d e f = (a < d) ⊎ ((a ≡ d) × ((b < e) ⊎ ((b ≡ e) × (c ≤ f))))
