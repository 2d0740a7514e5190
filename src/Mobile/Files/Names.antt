-- ===== src/Mobile/Files/Names.antt =====
-- What a shared file's name is made of.
use kall.Common.{Char, code, String, ◌≡◌, refl, inl, inr, Bool, Bool-cases, true, false, ◌==◌}
use kall.Common.Text.{is_nonempty}
use kall.Mobile.Files.{
  is_safe, dashed, without_first_dashes, without_last_dashes, safe_file_name, put_unless_dash,
  or_kall,
}

-- Every character of a text passes the test.
abbrev pub AllSafe : String → Type 0
AllSafe String.[] = Unit
AllSafe (String.◌∷◌ c s) = (is_safe (code c) ≡ true) × AllSafe s

abbrev starts_with_dash : String → Bool
starts_with_dash String.[] = false
starts_with_dash (String.◌∷◌ c s) = code c == b'-'

abbrev ends_with_dash : String → Bool
ends_with_dash String.[] = false
ends_with_dash (String.◌∷◌ c String.[]) = code c == b'-'
ends_with_dash (String.◌∷◌ c (String.◌∷◌ d s)) = ends_with_dash (String.◌∷◌ d s)

dashed-AllSafe : (inside : Bool) (s : String) → AllSafe (dashed inside s)
unfolding dashed
dashed-AllSafe inside String.[] = tt
dashed-AllSafe inside (String.◌∷◌ c s) = elim (Bool-cases (is_safe (code c))) [
  | inl safe ↦ rw safe (safe, dashed-AllSafe false s)
  | inr other ↦ elim (Bool-cases inside) [
    | inl i ↦ rw (other, i) (dashed-AllSafe true s)
    | inr i ↦ rw (other, i) (dash_is_safe, dashed-AllSafe true s)
  ]
]
  where
    dash_is_safe : is_safe b'-' ≡ true
    dash_is_safe = refl

first-AllSafe : (s : String) → AllSafe s → AllSafe (without_first_dashes s)
unfolding without_first_dashes
first-AllSafe String.[] h = tt
first-AllSafe (String.◌∷◌ c s) (h, hs) = elim (Bool-cases (code c == b'-')) [
  | inl dash ↦ rw dash (first-AllSafe s hs)
  | inr other ↦ rw other (h, hs)
]

first-starts : (s : String) → starts_with_dash (without_first_dashes s) ≡ false
unfolding without_first_dashes
first-starts String.[] = refl
first-starts (String.◌∷◌ c s) = elim (Bool-cases (code c == b'-')) [
  | inl dash ↦ rw dash (first-starts s)
  | inr other ↦ rw other other
]

put-AllSafe :
    (c : Char) (s : String) → is_safe (code c) ≡ true → AllSafe s → AllSafe (put_unless_dash c s)
put-AllSafe c String.[] h hs = elim (Bool-cases (code c == b'-')) [
  | inl dash ↦ rw dash tt
  | inr other ↦ rw other (h, tt)
]
put-AllSafe c (String.◌∷◌ d s) h hs = (h, hs)

last-AllSafe : (s : String) → AllSafe s → AllSafe (without_last_dashes s)
unfolding without_last_dashes
last-AllSafe String.[] h = tt
last-AllSafe (String.◌∷◌ c s) (h, hs) = put-AllSafe c (without_last_dashes s) h (last-AllSafe s hs)

put-ends :
    (c : Char) (s : String)
    → ends_with_dash s ≡ false
    → ends_with_dash (put_unless_dash c s) ≡ false
put-ends c String.[] h = elim (Bool-cases (code c == b'-')) [
  | inl dash ↦ rw dash refl
  | inr other ↦ rw other other
]
put-ends c (String.◌∷◌ d s) h = h

last-ends : (s : String) → ends_with_dash (without_last_dashes s) ≡ false
unfolding without_last_dashes
last-ends String.[] = refl
last-ends (String.◌∷◌ c s) = put-ends c (without_last_dashes s) (last-ends s)

put-starts :
    (c : Char) (s : String)
    → (code c == b'-') ≡ false
    → starts_with_dash (put_unless_dash c s) ≡ false
put-starts c String.[] h = rw h h
put-starts c (String.◌∷◌ d s) h = h

last-starts :
    (s : String) → starts_with_dash s ≡ false → starts_with_dash (without_last_dashes s) ≡ false
unfolding without_last_dashes
last-starts String.[] h = refl
last-starts (String.◌∷◌ c s) h = put-starts c (without_last_dashes s) h

-- A file name: only letters, digits and the marks `_`, `.` and `-`, not empty, with no dash at its ends.
abbrev pub IsName : String → Type 0
IsName s =
    AllSafe s × (is_nonempty s ≡ true) × (starts_with_dash s ≡ false) × (ends_with_dash s ≡ false)

or_kall-IsName :
    (s : String)
    → AllSafe s
    → starts_with_dash s ≡ false
    → ends_with_dash s ≡ false
    → IsName (or_kall s)
unfolding is_safe
or_kall-IsName String.[] h k l = ((refl, (refl, (refl, (refl, tt)))), refl, refl, refl)
or_kall-IsName (String.◌∷◌ c s) h k l = (h, refl, k, l)

-- Whatever the company is called, the name of the file is a file name.
pub safe_file_name-IsName : (value : String) → IsName (safe_file_name value)
unfolding safe_file_name
safe_file_name-IsName value =
    let first = without_first_dashes (dashed false value) in
    or_kall-IsName (without_last_dashes first)
      (last-AllSafe first (first-AllSafe (dashed false value) (dashed-AllSafe false value)))
      (last-starts first (first-starts (dashed false value))) (last-ends first)

safe_file_name_test : safe_file_name " R&D / Labs (UK)!" ≡ "R-D-Labs-UK"
unfolding safe_file_name
safe_file_name_test = refl
