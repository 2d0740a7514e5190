-- ===== src/Web/Salary/Tests.antt =====
-- The pay range at concrete figures.
use kall.Common.{◌≡◌, refl, none, some}
use kall.Web.Salary.{hourly, salary, change_basis}

-- From 60 an hour to the nearest annual step and back to 60.
there_and_back :
    change_basis hourly
      (change_basis salary (record { basis = hourly; min_value = some 60; max_value = none }))
    ≡ record { basis = hourly; min_value = some 60; max_value = none }
unfolding change_basis
there_and_back = refl
