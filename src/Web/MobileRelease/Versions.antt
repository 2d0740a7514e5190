-- ===== src/Web/MobileRelease/Versions.antt =====
-- The order of versions, and which builds get which link.
use kall.Common.{
  ◌≤◌, ◌<◌, String, ◌≡◌, refl, ◌↔◌, ◌⊎◌, true, false, not, ◌&&◌, ◌||◌, Option, some, arith,
  if◌then◌else◌,
}
use kall.Web.MobileRelease.{
  Version, legacy_tester_version, at_most, version_at_most, get_release, is_ios, play_test_url,
  play_store_url,
}

-- The loop decides the lexicographic order of the three numbers.
pub at_most_iff :
    (left right : Version)
    → (at_most left right ≡ true) ↔ (
        (left.major < right.major)
        ⊎ ((left.major ≡ right.major)
            × ((left.minor < right.minor)
                ⊎ ((left.minor ≡ right.minor) × (left.patch ≤ right.patch)))))
unfolding at_most
at_most_iff left right = ground arith

-- It is an order that compares any two versions.
pub at_most_total :
    (a b c : Version)
    → (at_most a a ≡ true)
      × ((at_most a b || at_most b a) ≡ true)
      × (((at_most a b && at_most b c) && not (at_most a c)) ≡ false)
unfolding at_most
at_most_total a b c = (ground arith, ground arith, ground arith)

empty_version : (ceiling : Version) → version_at_most "" ceiling ≡ false
unfolding version_at_most
empty_version ceiling = refl

-- A build of any platform but iOS gets the link to the closed test exactly if the version it sends is
-- readable and comes no later than the last one of the closed test, and the public listing otherwise.
pub get_release-update_url :
    (platform : Option String) (installed : String)
    → is_ios platform ≡ false
    → (get_release platform (some installed)).update_url
      ≡ (if version_at_most installed legacy_tester_version then play_test_url else play_store_url)
unfolding get_release
get_release-update_url platform String.[] h = ground (arith, h, empty_version legacy_tester_version)
get_release-update_url platform (String.◌∷◌ c s) h = ground (arith, h)
