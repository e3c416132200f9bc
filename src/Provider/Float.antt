-- ===== src/Provider/Float.antt =====
-- Go's float64, of which nothing is known but what a theorem takes as a hypothesis. Comparisons with
-- NaN are false, so `lt` and `le` are tests and not each other's negation.
use ruleraven.Common.{◌≡◌, ℕ, Bool, true}

pub record Float64 : Type 1 where
  pub F : Type 0
  pub lt : F → F → Bool
  pub le : F → F → Bool
  pub add : F → F → F
  pub sub : F → F → F
  pub mul : F → F → F
  pub abs : F → F
  pub is_nan : F → Bool
  pub is_inf : F → Bool
  -- The float nearest to m * 10 ^ -e: a literal of the source, or float64 of a number at e = 0.
  pub decimal : ℕ → ℕ → F

-- What IEEE comparisons promise of the orders.
pub record IsOrdered (fl : Float64) : Type 0 where
  pub le_trans : (x y z : fl.F) → fl.le x y ≡ true → fl.le y z ≡ true → fl.le x z ≡ true
  pub le-lt_trans : (x y z : fl.F) → fl.le x y ≡ true → fl.lt y z ≡ true → fl.lt x z ≡ true
