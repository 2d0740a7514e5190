-- ===== src/Web/Salary/Steps.antt =====
-- The steps that the pay range shows.
use kall.Common.{
  ℕ, ◌≤◌, ◌≡◌, refl, ap, ◌∙◌, Option, none, some, List, [], ◌∷◌, arith, All, All-mem, Memᴰ,
}
use kall.Web.Salary.{
  PayBasis, hourly, salary, distance, closer, nearest_from, nearest_step, round_div, to_display,
  to_annualized, steps_of, convert, initial_range, submitted,
}

-- An hourly figure that is turned into an annual one and back is itself.
pub to_display-to_annualized :
    (basis : PayBasis) (displayed : ℕ)
    → to_display basis (to_annualized basis displayed) ≡ displayed
unfolding to_display to_annualized round_div
to_display-to_annualized hourly displayed = omega arith
to_display-to_annualized salary displayed = refl

nearest_from-bound :
    (value closest : ℕ) (steps : List ℕ)
    → (distance (nearest_from value closest steps) value ≤ distance closest value)
      × All (λ step. distance (nearest_from value closest steps) value ≤ distance step value) steps
unfolding nearest_from
nearest_from-bound value closest [] = (omega arith, tt)
nearest_from-bound value closest (step ∷ steps) =
    let (h, hs) = nearest_from-bound value (closer value closest step) steps in
    (ground (arith, h), (ground (arith, h), hs))

-- What is shown is as near to the value as any step is.
pub nearest_step-bound :
    (steps : List ℕ) (value step : ℕ)
    → Memᴰ step steps
    → distance (nearest_step steps value) value ≤ distance step value
nearest_step-bound [] value step m = elim m [ ]
nearest_step-bound (first ∷ steps) value step m =
    All-mem (λ s. distance (nearest_from value first (first ∷ steps)) value ≤ distance s value)
      (first ∷ steps) ((nearest_from-bound value first (first ∷ steps)).1) m

distance-zero : (a b : ℕ) → distance a b ≤ 0 → a ≡ b
distance-zero a b h = omega (arith, h)

-- A value that is a step is shown as it is.
pub nearest_step-own :
    (steps : List ℕ) (value : ℕ) → Memᴰ value steps → nearest_step steps value ≡ value
nearest_step-own steps value m =
    distance-zero (nearest_step steps value) value
      (omega (arith, nearest_step-bound steps value value m))

-- Nothing is chosen, or one of the steps of the basis.
abbrev pub IsStep : PayBasis → Option ℕ → Type 0
IsStep basis none = Unit
IsStep basis (some n) = Memᴰ n (steps_of basis)

reopen :
    (basis : PayBasis) (o : Option ℕ)
    → IsStep basis o
    → convert
        (λ n. nearest_step (steps_of basis) (to_display basis n))
        (convert (to_annualized basis) o)
      ≡ o
reopen basis none h = refl
reopen basis (some n) h = ap some (
    ap (nearest_step (steps_of basis)) (to_display-to_annualized basis n)
    ∙ nearest_step-own (steps_of basis) n h)

-- A range of chosen steps that is saved and opened again, in its basis, is the same.
pub initial_range-submitted :
    (basis : PayBasis) (low high : Option ℕ)
    → IsStep basis low
    → IsStep basis high
    → (let sent = submitted (record { basis = basis; min_value = low; max_value = high }) in
        initial_range basis (sent.0) (sent.1))
      ≡ record { basis = basis; min_value = low; max_value = high }
unfolding initial_range submitted
initial_range-submitted basis low high h k =
    ap
      (λ o. record {
        basis = basis;
        min_value = o;
        max_value =
            convert (λ n. nearest_step (steps_of basis) (to_display basis n))
              (convert (to_annualized basis) high);
      })
      (reopen basis low h)
    ∙ ap (λ o. record { basis = basis; min_value = low; max_value = o }) (reopen basis high k)
