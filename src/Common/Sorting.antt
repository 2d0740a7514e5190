-- ===== src/Common/Sorting.antt =====
-- The language's stable sort, by a test that says whether its first argument may come first.
use mathlib.Core.Path.{◌≡◌, refl, subst}
use mathlib.Core.Bool.{Bool, true, false}
use mathlib.Core.Logic.{inl, inr}
use mathlib.Core.Option.{some, some-injective}
use mathlib.Core.List.{List, [], ◌∷◌, Memᴰ}
use native.Mathlib.Omega.{arith}
use kall.Common.Tests.{if◌then◌else◌, Bool-cases}
use kall.Common.Lists.{All, All-mem, head, length, keep}

module _ {A : Type 0} (before : A → A → Bool) where
  unfoldable pub insert : A → List A → List A
  insert x [] = x ∷ []
  insert x (y ∷ ys) = if before x y then x ∷ (y ∷ ys) else y ∷ insert x ys

  unfoldable pub sort : List A → List A
  unfolding insert
  sort [] = []
  sort (x ∷ xs) = insert x (sort xs)

  -- `x` may come before each of these.
  abbrev pub IsFirst : A → List A → Type 0
  IsFirst x ys = All (λ y. before x y ≡ true) ys

  abbrev pub IsSorted : List A → Type 0
  IsSorted [] = Unit
  IsSorted (x ∷ xs) = IsFirst x xs × IsSorted xs

  module _ {ℓ} (P : A → Type ℓ) where
    pub All-insert : (x : A) (xs : List A) → P x → All P xs → All P (insert x xs)
    unfolding insert
    All-insert x [] h hs = (h, tt)
    All-insert x (y ∷ ys) h (k, ks) = elim (Bool-cases (before x y)) [
      | inl first ↦ rw first (h, (k, ks))
      | inr later ↦ rw later (k, All-insert x ys h ks)
    ]

    All-of_insert : (x : A) (xs : List A) → All P (insert x xs) → P x × All P xs
    unfolding insert
    All-of_insert x [] h = h
    All-of_insert x (y ∷ ys) h = elim (Bool-cases (before x y)) [
      | inl first ↦ rw first at h
      | inr later ↦
          let (k, ks) : P y × All P (insert x ys) = rw later at h in
          let (px, rest) = All-of_insert x ys ks in (px, (k, rest))
    ]

    -- What holds of all holds of all after the sort, and the other way round.
    pub All-sort : (xs : List A) → All P xs → All P (sort xs)
    unfolding sort
    All-sort [] h = tt
    All-sort (x ∷ xs) (h, hs) = All-insert x (sort xs) h (All-sort xs hs)

    pub All-of_sort : (xs : List A) → All P (sort xs) → All P xs
    unfolding sort
    All-of_sort [] h = tt
    All-of_sort (x ∷ xs) h = let (k, ks) = All-of_insert x (sort xs) h in (k, All-of_sort xs ks)

  length-insert : (x : A) (xs : List A) → length (insert x xs) ≡ length (x ∷ xs)
  unfolding insert
  length-insert x [] = refl
  length-insert x (y ∷ ys) = ground (arith, length-insert x ys)

  pub length-sort : (xs : List A) → length (sort xs) ≡ length xs
  unfolding sort
  length-sort [] = refl
  length-sort (x ∷ xs) = ground (arith, length-insert x (sort xs), length-sort xs)

  -- How many of a list pass a test.
  length-keep-insert :
      (p : A → Bool) (x : A) (xs : List A)
      → length (keep p (insert x xs)) ≡ length (keep p (x ∷ xs))
  unfolding insert
  length-keep-insert p x [] = refl
  length-keep-insert p x (y ∷ ys) = ground (arith, length-keep-insert p x ys)

  pub length-keep-sort :
      (p : A → Bool) (xs : List A) → length (keep p (sort xs)) ≡ length (keep p xs)
  unfolding sort
  length-keep-sort p [] = refl
  length-keep-sort p (x ∷ xs) =
      ground (arith, length-keep-insert p x (sort xs), length-keep-sort p xs)

  module _ (total : (a b : A) → before a b ≡ false → before b a ≡ true)
      (trans : (a b c : A) → before a b ≡ true → before b c ≡ true → before a c ≡ true) where
    IsFirst-trans : (x y : A) (ys : List A) → before x y ≡ true → IsFirst y ys → IsFirst x ys
    IsFirst-trans x y [] h k = tt
    IsFirst-trans x y (z ∷ zs) h (k, ks) = (trans x y z h k, IsFirst-trans x y zs h ks)

    insert-IsSorted : (x : A) (xs : List A) → IsSorted xs → IsSorted (insert x xs)
    unfolding insert
    insert-IsSorted x [] h = (tt, tt)
    insert-IsSorted x (y ∷ ys) (h, hs) = elim (Bool-cases (before x y)) [
      | inl first ↦ rw first ((first, IsFirst-trans x y ys first h), (h, hs))
      | inr later ↦
          rw later
            (All-insert (λ z. before y z ≡ true) x ys (total x y later) h, insert-IsSorted x ys hs)
    ]

    pub sort-IsSorted : (xs : List A) → IsSorted (sort xs)
    unfolding sort
    sort-IsSorted [] = tt
    sort-IsSorted (x ∷ xs) = insert-IsSorted x (sort xs) (sort-IsSorted xs)

    may_repeat : (a : A) → before a a ≡ true
    may_repeat a = elim (Bool-cases (before a a)) [ inl h ↦ h | inr h ↦ total a a h ]

    head_first :
        (x b : A) (xs : List A)
        → IsSorted (x ∷ xs)
        → head (x ∷ xs) ≡ some b
        → All (λ y. before b y ≡ true) (x ∷ xs)
    head_first x b xs (h, hs) e =
        subst (λ c. All (λ y. before c y ≡ true) (x ∷ xs)) (some-injective x b e) (may_repeat x, h)

    head_of_sorted :
        (b : A) (xs : List A) → IsSorted xs → head xs ≡ some b → All (λ y. before b y ≡ true) xs
    head_of_sorted b [] h e = tt
    head_of_sorted b (x ∷ xs) h e = head_first x b xs h e

    -- The first after the sort may come before every other one.
    pub head-sort :
        (b other : A) (xs : List A)
        → head (sort xs) ≡ some b
        → Memᴰ other xs
        → before b other ≡ true
    head-sort b other xs e m =
        All-mem (λ y. before b y ≡ true) xs
          (All-of_sort (λ y. before b y ≡ true) xs
            (head_of_sorted b (sort xs) (sort-IsSorted xs) e))
          m
