-- ===== src/Mobile/Files.antt =====
-- The names of the files that the phone shares: `safeFileName` of apps/mobile/src/lib/files.ts.
pub mod Names
use kall.Common.{ℕ, Char, code, String, Bool, true, false, ◌&&◌, ◌||◌, leb, ◌==◌, if◌then◌else◌}
use Prim.Native.String
use kall.Common.Text.{is_nonempty}

-- `[\w.-]`
unfoldable pub is_safe : ℕ → Bool
is_safe c =
    (leb b'a' c && leb c b'z')
    || (leb b'A' c && leb c b'Z')
    || (leb b'0' c && leb c b'9')
    || (c == b'_' || c == b'.' || c == b'-')

-- `value.replace(/[^\w.-]+/g, "-")`: one dash for each run; `inside` says that one has begun.
unfoldable pub dashed : (inside : Bool) → String → String
unfolding is_safe
dashed inside String.[] = ""
dashed inside (String.◌∷◌ c s) =
    let kept = String.◌∷◌ c (dashed false s) in
    let run = dashed true s in
    if is_safe (code c) then kept else if inside then run else String.◌∷◌ "-" run

-- `replace(/^-+|-+$/g, "")`
unfoldable pub without_first_dashes : String → String
without_first_dashes String.[] = ""
without_first_dashes (String.◌∷◌ c s) =
    let rest = without_first_dashes s in if code c == b'-' then rest else String.◌∷◌ c s

abbrev put_unless_dash : Char → String → String
put_unless_dash c String.[] = if code c == b'-' then "" else String.◌∷◌ c ""
put_unless_dash c (String.◌∷◌ d s) = String.◌∷◌ c (String.◌∷◌ d s)

unfoldable pub without_last_dashes : String → String
without_last_dashes String.[] = ""
without_last_dashes (String.◌∷◌ c s) = put_unless_dash c (without_last_dashes s)

abbrev or_kall : String → String
or_kall s = if is_nonempty s then s else "kall"

unfoldable pub safe_file_name : String → String
unfolding dashed without_first_dashes without_last_dashes
safe_file_name value = or_kall (without_last_dashes (without_first_dashes (dashed false value)))
