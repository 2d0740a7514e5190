-- ===== src/Common/Lists.antt =====
-- Lists measured by native numbers, tested by Boolean functions, and keyed by texts.
use Prim.Native.Nat.{ℕ, suc, ◌+◌}
use Prim.Native.String.{String}
use mathlib.Core.Path.{◌≡◌, refl, sym, subst, ap}
use mathlib.Core.Bool.{Bool, true, false, ◌&&◌, ◌||◌}
use mathlib.Core.Logic.{inl, inr}
use mathlib.Core.Option.{Option, none, some}
use mathlib.Core.List.{List, [], ◌∷◌, ◌++◌, Memᴰ, map}
use native.Mathlib.Omega.{arith}
use text.Mathlib.Text.{◌==◌ as str_eq}
use kall.Common.Tests.{if◌then◌else◌, Bool-cases}

module _ {ℓ} {A : Type ℓ} where
  abbrev pub length : List A → ℕ
  length [] = 0
  length (x ∷ xs) = suc (length xs)

  abbrev pub any : (A → Bool) → List A → Bool
  any p [] = false
  any p (x ∷ xs) = p x || any p xs

  abbrev pub all : (A → Bool) → List A → Bool
  all p [] = true
  all p (x ∷ xs) = p x && all p xs

  -- `Array.prototype.filter`, by a Boolean test.
  abbrev pub keep : (A → Bool) → List A → List A
  keep p [] = []
  keep p (x ∷ xs) = if p x then x ∷ keep p xs else keep p xs

  -- `Array.prototype.find`
  abbrev pub find : (A → Bool) → List A → Option A
  find p [] = none
  find p (x ∷ xs) = if p x then some x else find p xs

  abbrev pub head : List A → Option A
  head [] = none
  head (x ∷ xs) = some x

  abbrev pub All {κ} : (A → Type κ) → List A → Type κ
  All P [] = Unit
  All P (x ∷ xs) = P x × All P xs

  pub length-append : (xs ys : List A) → length (xs ++ ys) ≡ length xs + length ys
  length-append [] ys = omega arith
  length-append (x ∷ xs) ys = omega (arith, length-append xs ys)

module _ {ℓ} {A : Type ℓ} where
  pub any-append : (p : A → Bool) (xs ys : List A) → any p (xs ++ ys) ≡ (any p xs || any p ys)
  any-append p [] ys = refl
  any-append p (x ∷ xs) ys = ground (arith, any-append p xs ys)

  pub All-append {κ} : (P : A → Type κ) (xs ys : List A) → All P xs → All P ys → All P (xs ++ ys)
  All-append P [] ys h k = k
  All-append P (x ∷ xs) ys (h, hs) k = (h, All-append P xs ys hs k)

  pub All-keep {κ} : (P : A → Type κ) (p : A → Bool) (xs : List A) → All P xs → All P (keep p xs)
  All-keep P p [] h = tt
  All-keep P p (x ∷ xs) (h, hs) = keep_one (All-keep P p xs hs) (p x)
    where
      keep_one : All P (keep p xs) → (b : Bool) → All P (if b then x ∷ keep p xs else keep p xs)
      keep_one rest true = (h, rest)
      keep_one rest false = rest

  pub All-mem {κ} : (P : A → Type κ) (xs : List A) {x : A} → All P xs → Memᴰ x xs → P x
  All-mem P [] h m = elim m [ ]
  All-mem P (y ∷ xs) (h, hs) (Memᴰ.head e) = subst P (sym e) h
  All-mem P (y ∷ xs) (h, hs) (Memᴰ.tail m) = All-mem P xs hs m

  pub keep-All : (p : A → Bool) (xs : List A) → All (λ x. p x ≡ true) (keep p xs)
  keep-All p [] = tt
  keep-All p (x ∷ xs) = elim (Bool-cases (p x)) [
    | inl h ↦ rw h (h, keep-All p xs)
    | inr h ↦ rw h (keep-All p xs)
  ]

  pub Mem-keep : (p : A → Bool) (xs : List A) {x : A} → Memᴰ x xs → p x ≡ true → Memᴰ x (keep p xs)
  Mem-keep p [] m h = elim m [ ]
  Mem-keep p (y ∷ xs) (Memᴰ.head e) h = rw (subst (λ z. p z ≡ true) e h) (Memᴰ.head e)
  Mem-keep p (y ∷ xs) (Memᴰ.tail m) h = elim (Bool-cases (p y)) [
    | inl k ↦ rw k (Memᴰ.tail (Mem-keep p xs m h))
    | inr k ↦ rw k (Mem-keep p xs m h)
  ]

module _ {ℓ} {A : Type ℓ} where
  pub Mem-append_left : {x : A} {xs : List A} (ys : List A) → Memᴰ x xs → Memᴰ x (xs ++ ys)
  Mem-append_left ys (Memᴰ.head e) = Memᴰ.head e
  Mem-append_left ys (Memᴰ.tail m) = Memᴰ.tail (Mem-append_left ys m)

  pub Mem-append_right : {x : A} (xs : List A) {ys : List A} → Memᴰ x ys → Memᴰ x (xs ++ ys)
  Mem-append_right [] m = m
  Mem-append_right (x ∷ xs) m = Memᴰ.tail (Mem-append_right xs m)

  pub All-imp {κ μ} :
      (P : A → Type κ) (Q : A → Type μ)
      → ((x : A) → P x → Q x)
      → (xs : List A) → All P xs
      → All Q xs
  All-imp P Q f [] h = tt
  All-imp P Q f (x ∷ xs) (h, hs) = (f x h, All-imp P Q f xs hs)

module _ {ℓ} {A B : Type ℓ} where
  pub Mem-map : (g : A → B) (xs : List A) {x : A} → Memᴰ x xs → Memᴰ (g x) (map g xs)
  Mem-map g [] m = elim m [ ]
  Mem-map g (y ∷ xs) (Memᴰ.head e) = Memᴰ.head (ap g e)
  Mem-map g (y ∷ xs) (Memᴰ.tail m) = Memᴰ.tail (Mem-map g xs m)

-- `Array.prototype.includes` and `Set.prototype.has` on texts.
abbrev pub contains : String → List String → Bool
contains s xs = any (λ x. str_eq x s) xs
