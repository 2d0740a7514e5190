-- ===== src/Plans/Order.antt =====
-- The upgrade that the paywall offers.
use kall.Common.{ℕ, ◌+◌, String, ◌≡◌, refl, ◌≢◌, ◌⊎◌, inl, inr, none, some, arith, eq_iff}
use kall.Plans.{
  PlanId, free, plus, premium, plan_key, Plan, plus_plan, premium_plan, next_plan_after,
}

-- How much a plan offers, by its place in the order.
abbrev pub rank : PlanId → ℕ
rank free = 0
rank plus = 1
rank premium = 2

-- The plan that is offered to a holder of `id` is the one just above it; the top has none above it.
pub next_plan_after-rank :
    (id : PlanId)
    → ((next_plan_after (plan_key id) ≡ none) × (id ≡ premium))
      ⊎ ((p : Plan) × (next_plan_after (plan_key id) ≡ some p) × (rank p.id ≡ rank id + 1))
unfolding next_plan_after
next_plan_after-rank free = inr (plus_plan, refl, refl)
next_plan_after-rank plus = inr (premium_plan, refl, refl)
next_plan_after-rank premium = inl (refl, refl)

-- A text that names no plan is offered none.
pub next_plan_after_unknown :
    (plan : String) → plan ≢ "free" → plan ≢ "plus" → next_plan_after plan ≡ none
unfolding next_plan_after
next_plan_after_unknown plan f p =
    ground (arith, eq_iff "free" plan, eq_iff "plus" plan, eq_iff "premium" plan)
