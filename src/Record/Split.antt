-- ===== src/Record/Split.antt =====
-- `splitList` of apps/web/app/profiles/recordSchema.ts and of apps/mobile/src/lib/recordSchema.ts, which
-- are the same. The language's `toLowerCase` is an argument: what is proved holds for any.
use kall.Common.{
  code, String, ◌≡◌, refl, inl, inr, Bool, true, false, not, ◌||◌, List, [], ◌∷◌, map, arith,
  str_eq, eq_iff, if◌then◌else◌, Bool-cases, keep, contains,
}
use mathlib.Core.Path.{subst}
use kall.Common.Text.{is_space, trim, split, is_nonempty}

-- `item.replace(/\s+/g, ' ')`; `after` says whether the last character was white space.
unfoldable pub collapse : (after : Bool) → String → String
unfolding is_space
collapse after String.[] = ""
collapse after (String.◌∷◌ c s) =
    let spaced = collapse true s in
    let plain = String.◌∷◌ c (collapse false s) in
    if is_space (code c) then (if after then spaced else String.◌∷◌ " " spaced) else plain

unfoldable pub clean : String → String
unfolding collapse trim
clean item = trim (collapse false item)

module _ (lower : String → String) where
  -- The filter of `splitList`, with the texts that it has seen.
  unfoldable pub unseen : List String → List String → List String
  unseen seen [] = []
  unseen seen (item ∷ rest) =
      let kept = item ∷ unseen (lower item ∷ seen) rest in
      let dropped = unseen seen rest in
      if not (is_nonempty item) || contains (lower item) seen then dropped else kept

  unfoldable pub split_list : String → List String
  unfolding unseen clean split
  split_list value = unseen [] (map clean (split b',' value))

  -- No two of these are the same up to case, none is empty, and none is among `seen`.
  abbrev pub IsFresh : List String → List String → Type 0
  IsFresh seen [] = Unit
  IsFresh seen (item ∷ rest) =
      (is_nonempty item ≡ true)
      × (contains (lower item) seen ≡ false)
      × IsFresh (lower item ∷ seen) rest

  unseen-IsFresh : (seen items : List String) → IsFresh seen (unseen seen items)
  unfolding unseen
  unseen-IsFresh seen [] = tt
  unseen-IsFresh seen (item ∷ rest) =
      elim (Bool-cases (not (is_nonempty item) || contains (lower item) seen)) [
        | inl drop' ↦ rw drop' (unseen-IsFresh seen rest)
        | inr keep' ↦ rw keep' (ground arith, ground arith, unseen-IsFresh (lower item ∷ seen) rest)
      ]

  unseen-keys :
      (key : String) (seen items : List String)
      → (contains key (map lower (unseen seen items)) || contains key seen)
        ≡ (contains key (map lower (keep is_nonempty items)) || contains key seen)
  unfolding unseen
  unseen-keys key seen [] = refl
  unseen-keys key seen (String.[] ∷ rest) = unseen-keys key seen rest
  unseen-keys key seen (String.◌∷◌ c s ∷ rest) =
      let item : String = String.◌∷◌ c s in
      elim (Bool-cases (contains (lower item) seen)) [
        | inl known ↦ rw known (elim (Bool-cases (str_eq (lower item) key)) [
          | inl same ↦
              let there : contains key seen ≡ true =
                subst (λ j. contains j seen ≡ true) ((eq_iff (lower item) key).0 same) known in
              ground (arith, there)
          | inr other ↦ ground (arith, unseen-keys key seen rest)
        ])
        | inr new ↦ rw new (ground (arith, unseen-keys key (lower item ∷ seen) rest))
      ]

  -- An entry never gives an empty value or two values that differ only in case, whatever is typed.
  pub split_list-IsFresh : (value : String) → IsFresh [] (split_list value)
  unfolding split_list
  split_list-IsFresh value = unseen-IsFresh [] (map clean (split b',' value))

  -- And it loses none: up to case, the values are those of the parts between the commas that are not
  -- blank, with white space tidied.
  pub split_list-keys :
      (key value : String)
      → contains key (map lower (split_list value))
        ≡ contains key (map lower (keep is_nonempty (map clean (split b',' value))))
  unfolding split_list
  split_list-keys key value = ground (arith, unseen-keys key [] (map clean (split b',' value)))
