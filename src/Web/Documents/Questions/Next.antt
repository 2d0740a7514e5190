-- ===== src/Web/Documents/Questions/Next.antt =====
-- The next question is the first pending one in the order, and the count is that of the pending ones.
use kall.Common.{
  ◌+◌, ◌≡◌, refl, inl, inr, Bool, true, false, not, none, some, List, [], ◌∷◌, arith, Bool-cases,
  length, keep, find, All, All-mem, Memᴰ,
}
use mathlib.Core.Path.{subst}
use mathlib.Core.Option.{some-injective}
use kall.Web.Documents.{TailoringChange, Panel}
use kall.Web.Documents.Questions.{
  comes_before, insert, ordered, is_pending, decided, current, pending_count,
}

comes_before_total : (a b : TailoringChange) → comes_before a b ≡ false → comes_before b a ≡ true
unfolding comes_before
comes_before_total a b h = ground arith

comes_before_trans :
    (a b c : TailoringChange)
    → comes_before a b ≡ true
    → comes_before b c ≡ true
    → comes_before a c ≡ true
unfolding comes_before
comes_before_trans a b c h k = ground arith

-- Every one of these comes no sooner than `x`.
abbrev pub IsFirst : TailoringChange → List TailoringChange → Type 0
IsFirst x ys = All (λ y. comes_before x y ≡ true) ys

abbrev IsSorted : List TailoringChange → Type 0
IsSorted [] = Unit
IsSorted (x ∷ xs) = IsFirst x xs × IsSorted xs

comes_before_refl : (a : TailoringChange) → comes_before a a ≡ true
unfolding comes_before
comes_before_refl a = ground arith

module _ {ℓ} (P : TailoringChange → Type ℓ) where
  All-insert :
      (x : TailoringChange) (xs : List TailoringChange) → P x → All P xs → All P (insert x xs)
  unfolding insert
  All-insert x [] h hs = (h, tt)
  All-insert x (y ∷ ys) h (k, ks) = elim (Bool-cases (comes_before x y)) [
    | inl first ↦ rw first (h, (k, ks))
    | inr later ↦ rw later (k, All-insert x ys h ks)
  ]

  All-of_insert :
      (x : TailoringChange) (xs : List TailoringChange) → All P (insert x xs) → P x × All P xs
  unfolding insert
  All-of_insert x [] h = h
  All-of_insert x (y ∷ ys) h = elim (Bool-cases (comes_before x y)) [
    | inl first ↦ rw first at h
    | inr later ↦
        let (k, ks) : P y × All P (insert x ys) = rw later at h in
        let (px, rest) = All-of_insert x ys ks in (px, (k, rest))
  ]

  All-ordered : (xs : List TailoringChange) → All P xs → All P (ordered xs)
  unfolding ordered
  All-ordered [] h = tt
  All-ordered (x ∷ xs) (h, hs) = All-insert x (ordered xs) h (All-ordered xs hs)

  All-of_ordered : (xs : List TailoringChange) → All P (ordered xs) → All P xs
  unfolding ordered
  All-of_ordered [] h = tt
  All-of_ordered (x ∷ xs) h =
      let (k, ks) = All-of_insert x (ordered xs) h in (k, All-of_ordered xs ks)

IsFirst-trans :
    (x y : TailoringChange) (ys : List TailoringChange)
    → comes_before x y ≡ true
    → IsFirst y ys
    → IsFirst x ys
IsFirst-trans x y [] h k = tt
IsFirst-trans x y (z ∷ zs) h (k, ks) = (comes_before_trans x y z h k, IsFirst-trans x y zs h ks)

insert-IsSorted :
    (x : TailoringChange) (xs : List TailoringChange) → IsSorted xs → IsSorted (insert x xs)
unfolding insert
insert-IsSorted x [] h = (tt, tt)
insert-IsSorted x (y ∷ ys) (h, hs) = elim (Bool-cases (comes_before x y)) [
  | inl first ↦ rw first ((first, IsFirst-trans x y ys first h), (h, hs))
  | inr later ↦ rw later (
    All-insert (λ z. comes_before y z ≡ true) x ys (comes_before_total x y later) h,
    insert-IsSorted x ys hs,
  )
]

ordered-IsSorted : (xs : List TailoringChange) → IsSorted (ordered xs)
unfolding ordered
ordered-IsSorted [] = tt
ordered-IsSorted (x ∷ xs) = insert-IsSorted x (ordered xs) (ordered-IsSorted xs)

-- No pending suggestion comes before this one.
abbrev IsNext : TailoringChange → TailoringChange → Type 0
IsNext c d = is_pending d ≡ true → comes_before c d ≡ true

IsNext-of_IsFirst :
    (c : TailoringChange) (xs : List TailoringChange) → IsFirst c xs → All (IsNext c) xs
IsNext-of_IsFirst c [] h = tt
IsNext-of_IsFirst c (x ∷ xs) (h, hs) = ((λ _. h), IsNext-of_IsFirst c xs hs)

find-IsNext :
    (xs : List TailoringChange) (c : TailoringChange)
    → IsSorted xs
    → find is_pending xs ≡ some c
    → (is_pending c ≡ true) × All (IsNext c) xs
find-IsNext [] c s h = cc
find-IsNext (x ∷ xs) c (first, s) h = elim (Bool-cases (is_pending x)) [
  | inl yes' ↦
      let same : x ≡ c = some-injective x c (rw yes' at h) in
      subst (λ d. (is_pending d ≡ true) × All (IsNext d) (x ∷ xs)) same
        (yes', ((λ _. comes_before_refl x), IsNext-of_IsFirst x xs first))
  | inr decided' ↦
      let (p, rest) = find-IsNext xs c s (rw decided' at h) in (p, ((λ q. cc (decided', q)), rest))
]

-- The question that is asked next is pending, and no pending suggestion comes before it: gaps of a
-- role first, then the summary, then the rest, by identifier.
pub current-IsNext :
    (s : Panel) (c d : TailoringChange)
    → current s ≡ some c
    → Memᴰ d s.tailoring_changes
    → is_pending d ≡ true
    → (is_pending c ≡ true) × (comes_before c d ≡ true)
unfolding current
current-IsNext s c d h m pending' =
    let (p, rest) =
      find-IsNext (ordered s.tailoring_changes) c (ordered-IsSorted s.tailoring_changes) h in
    (
      p,
      All-mem (IsNext c) s.tailoring_changes (All-of_ordered (IsNext c) s.tailoring_changes rest) m
          pending',
    )

find-eq-none :
    (xs : List TailoringChange) → find is_pending xs ≡ none → All (λ x. is_pending x ≡ false) xs
find-eq-none [] h = tt
find-eq-none (x ∷ xs) h = elim (Bool-cases (is_pending x)) [
  | inl yes' ↦ cc (rw yes' at h)
  | inr decided' ↦ (decided', find-eq-none xs (rw decided' at h))
]

-- There is no next question only when every suggestion is decided.
pub current-eq-none :
    (s : Panel) → current s ≡ none → All (λ x. is_pending x ≡ false) s.tailoring_changes
unfolding current
current-eq-none s h =
    All-of_ordered (λ x. is_pending x ≡ false) s.tailoring_changes
      (find-eq-none (ordered s.tailoring_changes) h)

count_insert :
    (p : TailoringChange → Bool) (x : TailoringChange) (xs : List TailoringChange)
    → length (keep p (insert x xs)) ≡ length (keep p (x ∷ xs))
unfolding insert
count_insert p x [] = refl
count_insert p x (y ∷ ys) = ground (arith, count_insert p x ys)

count_ordered :
    (p : TailoringChange → Bool) (xs : List TailoringChange)
    → length (keep p (ordered xs)) ≡ length (keep p xs)
unfolding ordered
count_ordered p [] = refl
count_ordered p (x ∷ xs) = ground (arith, count_insert p x (ordered xs), count_ordered p xs)

count_split :
    (p : TailoringChange → Bool) (xs : List TailoringChange)
    → length (keep p xs) + length (keep (λ x. not (p x)) xs) ≡ length xs
count_split p [] = refl
count_split p (x ∷ xs) = ground (arith, count_split p xs)

-- The count on the button is the number of suggestions that are pending.
pub pending_count-eq : (s : Panel) → pending_count s ≡ length (keep is_pending s.tailoring_changes)
unfolding pending_count decided
pending_count-eq s = omega (
  arith,
  count_split is_pending (ordered s.tailoring_changes),
  count_ordered is_pending s.tailoring_changes,
)
