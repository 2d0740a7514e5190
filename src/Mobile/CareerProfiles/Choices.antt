-- ===== src/Mobile/CareerProfiles/Choices.antt =====
-- What the fields of the questions offer and take: `mergeSuggestions`, ChoiceField and SearchChoiceField of
-- apps/mobile/src/screens/CareerProfilesScreen.tsx.
use kall.Common.{
  ap, Mem-append_left, Mem-append_right, All-append, All-imp, ℕ, zero, suc, ◌≤◌, Memᴰ, Mem-keep,
  ◌⊎◌, ◌∙◌, String, ◌≡◌, refl, inl, inr, Bool, Bool-cases, true, not, ◌&&◌, ◌||◌, List, [], ◌∷◌,
  ◌++◌, arith, str_eq, eq_refl, if◌then◌else◌, keep, keep-All, any, any-append, length, All, map,
}
use mathlib.Core.Path.{subst}
use kall.Common.Text.{trim, is_nonempty, has_prefix, includes}
use kall.Mobile.CareerProfiles.{SuggestedLists, FunctionalArea}

module _ (lower : String → String) where
  unfoldable pub same : String → String → Bool
  same a b = str_eq (lower a) (lower b)

  -- A list has the value, but for the case of its letters.
  abbrev pub has : List String → String → Bool
  has values value = any (λ item. same item value) values

  -- `mergeSuggestions` for one of the lists.
  unfoldable pub merged : (existing incoming : List String) → List String
  unfolding same
  merged existing incoming =
      existing ++ keep (λ value. is_nonempty value && not (has existing value)) incoming

  unfoldable pub merge_suggestions : (incoming current : SuggestedLists) → SuggestedLists
  unfolding merged
  merge_suggestions incoming current key = merged (current key) (incoming key)

  -- `add` of ChoiceField, and of SearchChoiceField, which does not trim.
  unfoldable pub add_value : String → List String → List String
  unfolding same
  add_value value values =
      if not (is_nonempty value) || has values value then values else values ++ value ∷ []

  unfoldable pub add_typed : String → List String → List String
  unfolding trim add_value
  add_typed raw values = add_value (trim raw) values

  abbrev take : ℕ → List String → List String
  take n [] = []
  take zero (x ∷ xs) = []
  take (suc n) (x ∷ xs) = x ∷ take n xs

  abbrev starts : String → String → Bool
  starts needle option = has_prefix needle (lower option)

  abbrev found : (options : List String) (needle : String) → List String
  found options needle =
      keep (starts needle) options
      ++ keep (λ option. not (starts needle option) && includes needle (lower option)) options

  -- `matches` of SearchChoiceField: the options that start with what is typed, then those that have it
  -- elsewhere, without what is chosen, eight at most.
  unfoldable pub matches : (options values : List String) (trimmed : String) → List String
  unfolding same has_prefix includes
  matches options values trimmed =
      if is_nonempty trimmed
      then take 8 (keep (λ option. not (has values option)) (found options (lower trimmed)))
      else []

  -- `impliedAreas`
  unfoldable pub implied_areas : (titles : List String) → List FunctionalArea → List String
  unfolding includes
  implied_areas titles areas =
      map (λ (area : FunctionalArea). area.name)
        (keep
          (λ (area : FunctionalArea).
            any (λ phrase. any (λ title. includes (lower phrase) (lower title)) titles)
              (area.name ∷ area.related_roles))
          areas)

  has-member : (xs : List String) {v : String} → Memᴰ v xs → has xs v ≡ true
  unfolding same
  has-member [] m = elim m [ ]
  has-member (x ∷ xs) {v} (Memᴰ.head e) =
      rw (subst (λ z. str_eq (lower z) (lower v) ≡ true) e (eq_refl (lower v))) refl
  has-member (x ∷ xs) {v} (Memᴰ.tail m) = ground (arith, has-member xs m)

  has-existing :
      (existing new : List String) (v : String)
      → has existing v ≡ true
      → has (existing ++ new) v ≡ true
  has-existing existing new v h = any-append (λ item. same item v) existing new ∙ rw h refl

  -- A list of suggestions after a merge still has what it had, and has every incoming value that is not
  -- empty, but for the case of its letters.
  pub merged-has :
      (existing incoming : List String) (v : String)
      → (has existing v ≡ true) ⊎ (Memᴰ v incoming × (is_nonempty v ≡ true))
      → has (merged existing incoming) v ≡ true
  unfolding merged
  merged-has existing incoming v (inl h) = has-existing existing _ v h
  merged-has existing incoming v (inr (m, h)) = elim (Bool-cases (has existing v)) [
    | inl known ↦ has-existing existing _ v known
    | inr fresh ↦
        let new : String → Bool = λ value. is_nonempty value && not (has existing value) in
        any-append (λ item. same item v) existing (keep new incoming)
        ∙ rw (fresh, has-member (keep new incoming) (Mem-keep new incoming m (rw (h, fresh) refl)))
            refl
  ]

  take-All {κ} : (P : String → Type κ) (n : ℕ) (xs : List String) → All P xs → All P (take n xs)
  take-All P n [] h = tt
  take-All P zero (x ∷ xs) h = tt
  take-All P (suc n) (x ∷ xs) (h, hs) = (h, take-All P n xs hs)

  length-take : (n : ℕ) (xs : List String) → length (take n xs) ≤ n
  length-take n [] = omega arith
  length-take zero (x ∷ xs) = omega arith
  length-take (suc n) (x ∷ xs) = ground (arith, length-take n xs)

  prefix-includes : (p s : String) → has_prefix p s ≡ true → includes p s ≡ true
  unfolding includes
  prefix-includes p String.[] h = h
  prefix-includes p (String.◌∷◌ c s) h = ground (arith, h)

  abbrev Has : (needle option : String) → Type 0
  Has needle option = includes needle (lower option) ≡ true

  found-Has : (options : List String) (needle : String) → All (Has needle) (found options needle)
  found-Has options needle =
      let elsewhere : String → Bool =
        λ option. not (starts needle option) && includes needle (lower option) in
      All-append (Has needle) (keep (starts needle) options) (keep elsewhere options)
        (All-imp (λ o. starts needle o ≡ true) (Has needle)
          (λ o h. prefix-includes needle (lower o) h) (keep (starts needle) options)
          (keep-All (starts needle) options))
        (All-imp (λ o. elsewhere o ≡ true) (Has needle) (λ o h. ground (arith, h))
          (keep elsewhere options) (keep-All elsewhere options))

  found-Mem :
      (options : List String) (needle o : String)
      → Memᴰ o options
      → includes needle (lower o) ≡ true
      → Memᴰ o (found options needle)
  found-Mem options needle o m h =
      let elsewhere : String → Bool =
        λ option. not (starts needle option) && includes needle (lower option) in
      elim (Bool-cases (starts needle o)) [
        | inl first ↦
            Mem-append_left (keep elsewhere options) (Mem-keep (starts needle) options m first)
        | inr later ↦
            Mem-append_right (keep (starts needle) options)
              (Mem-keep elsewhere options m (rw (later, h) refl))
      ]

  take-Mem :
      (n : ℕ) (xs : List String) {x : String}
      → Memᴰ x xs
      → Memᴰ x (take n xs) ⊎ (length (take n xs) ≡ n)
  take-Mem n [] m = elim m [ ]
  take-Mem zero (y ∷ xs) m = inr refl
  take-Mem (suc n) (y ∷ xs) (Memᴰ.head e) = inl (Memᴰ.head e)
  take-Mem (suc n) (y ∷ xs) (Memᴰ.tail m) = elim (take-Mem n xs m) [
    | inl k ↦ inl (Memᴰ.tail k)
    | inr k ↦ inr (ap suc k)
  ]

  -- An option has what is typed, and is not chosen already; letters match in either case.
  abbrev pub IsOffered : (typed : String) (values : List String) → String → Type 0
  IsOffered typed values option =
      (includes (lower typed) (lower option) ≡ true) × (not (has values option) ≡ true)

  both-All :
      (typed : String) (values xs : List String)
      → All (Has (lower typed)) xs
      → All (IsOffered typed values) (keep (λ option. not (has values option)) xs)
  both-All typed values [] h = tt
  both-All typed values (x ∷ xs) (h, hs) = elim (Bool-cases (has values x)) [
    | inl chosen ↦ rw chosen (both-All typed values xs hs)
    | inr fresh ↦ rw fresh ((h, rw fresh refl), both-All typed values xs hs)
  ]

  -- For what is typed, if it is not empty: every option that is offered has it and is not chosen already, at
  -- most eight are offered, and an option that has it and is not chosen is offered, unless eight are.
  pub matches-IsOffered :
      (options values : List String) (typed option : String)
      → is_nonempty typed ≡ true
      → Memᴰ option options
      → IsOffered typed values option
      → let offered = matches options values typed in
        All (IsOffered typed values) offered
        × (length offered ≤ 8)
        × (Memᴰ option offered ⊎ (length offered ≡ 8))
  unfolding matches
  matches-IsOffered options values typed option n m (h, fresh) =
      let xs = found options (lower typed) in
      let unchosen : String → Bool = λ o. not (has values o) in
      rw n (
        take-All (IsOffered typed values) 8 (keep unchosen xs)
            (both-All typed values xs (found-Has options (lower typed))),
        length-take 8 (keep unchosen xs),
        take-Mem 8 (keep unchosen xs)
            (Mem-keep unchosen xs (found-Mem options (lower typed) option m h) fresh),
      )
