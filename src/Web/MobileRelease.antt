-- ===== src/Web/MobileRelease.antt =====
-- The manifest of the phone's releases, apps/web/app/api/mobile-release/route.ts.
pub mod Versions
pub mod Tests
use kall.Common.{
  ℕ, code, String, Bool, true, false, not, ◌&&◌, Option, none, some, List, [], ◌∷◌, str_eq, ltb,
  leb, ◌==◌, if◌then◌else◌,
}
use Prim.Native.String
use kall.Common.Text.{split, is_nonempty}
use kall.Common.Decimal.{value_from}

abbrev latest_android_version : String
latest_android_version = "1.2.0"

abbrev latest_ios_version : String
latest_ios_version = "1.2.0"

abbrev pub play_test_url : String
play_test_url = "https://play.google.com/apps/testing/com.skaldandstone.kall"

abbrev pub play_store_url : String
play_store_url = "https://play.google.com/store/apps/details?id=com.skaldandstone.kall"

abbrev pub app_store_url : String
app_store_url = "https://apps.apple.com/app/id6809954928"

abbrev is_digit : ℕ → Bool
is_digit c = leb b'0' c && leb c b'9'

unfoldable pub all_digits : String → Bool
all_digits String.[] = true
all_digits (String.◌∷◌ c s) = is_digit (code c) && all_digits s

abbrev is_number : String → Bool
is_number s = is_nonempty s && all_digits s

-- The three numbers of `/^\d+\.\d+\.\d+$/`, and of `ceiling`.
pub record Version : Type 0 where
  pub major : ℕ
  pub minor : ℕ
  pub patch : ℕ

abbrev numbers : List String → Option Version
numbers (a ∷ (b ∷ (c ∷ []))) =
    if is_number a && (is_number b && is_number c)
    then some (record { major = value_from 0 a; minor = value_from 0 b; patch = value_from 0 c })
    else none
numbers _ = none

unfoldable pub read_version : String → Option Version
unfolding split all_digits value_from
read_version value = numbers (split b'.' value)

-- `legacyTesterVersion`
abbrev pub legacy_tester_version : Version
legacy_tester_version = record { major = 1; minor = 1; patch = 6 }

-- The loop: the first number that differs decides.
unfoldable pub at_most : Version → Version → Bool
at_most left right =
    if not (left.major == right.major)
    then ltb left.major right.major
    else if not (left.minor == right.minor)
    then ltb left.minor right.minor
    else if not (left.patch == right.patch)
    then ltb left.patch right.patch
    else true

abbrev read_at_most : Option Version → Version → Bool
read_at_most none ceiling = false
read_at_most (some v) ceiling = at_most v ceiling

unfoldable pub version_at_most : String → Version → Bool
unfolding read_version at_most
version_at_most value ceiling = read_at_most (read_version value) ceiling

pub record Release : Type 0 where
  pub platform : String
  pub latest_version : String
  pub update_url : String

-- `installed && versionAtMost(…)`
abbrev is_legacy : Option String → Bool
is_legacy none = false
is_legacy (some installed) =
    is_nonempty installed && version_at_most installed legacy_tester_version

abbrev pub is_ios : Option String → Bool
is_ios none = false
is_ios (some platform) = str_eq platform "ios"

unfoldable pub get_release : (platform installed : Option String) → Release
unfolding version_at_most
get_release platform installed =
    if is_ios platform
    then record {
      platform = "ios";
      latest_version = latest_ios_version;
      update_url = app_store_url;
    }
    else record {
      platform = "android";
      latest_version = latest_android_version;
      update_url = if is_legacy installed then play_test_url else play_store_url;
    }
