-- ===== src/Tests/Expenses.antt =====
-- A rent on the thirty-first and a purchase in three parts.
use orbix_hub.Base.{◌≤◌, none, some, length, All}
use orbix_hub.Calendar.{Day}
use orbix_hub.Expenses.{monthly, yearly, Rule, proximas_ocorrencias, meses_de_esteira}
use orbix_hub.Expenses.Recurrence.{IsOccurrence, proximas_ocorrencias_lem}

abbrev last_of_january : Day
last_of_january = record { year = 2024; month = 0; day = 31 }

abbrev rent : Rule
rent = record {
  frequency = monthly;
  day_of_month = 31;
  month_of_year = none;
  starts_on = last_of_january;
  ends_on = some (record { year = 2024; month = 11; day = 1 });
}

proximas_ocorrencias_example :
    (length (proximas_ocorrencias rent none none) ≤ meses_de_esteira)
    × All (IsOccurrence rent) (proximas_ocorrencias rent none none)
proximas_ocorrencias_example = proximas_ocorrencias_lem rent none none

abbrev insurance : Rule
insurance = record rent { frequency = yearly; month_of_year = some 3; ends_on = none }
