-- ===== src/Tests/Rents.antt =====
-- A rent that repeats every month.
use orbix_hub.Base.{ℕ, ◌+◌, ◌≡◌, refl, none, some, List, [], ◌∷◌, arith, ok, false, map, ◌>>=◌}
use orbix_hub.Cashier.Config.{empty_config}
use orbix_hub.Expenses.Store.{Expense, Recurrence, Books}
use orbix_hub.Expenses.Create.{CreateDto, Generated}
use orbix_hub.Expenses.Esteira.{estender_regra}
use orbix_hub.Expenses.{monthly}
use orbix_hub.Expenses.Create.Plan.{count_from}
use orbix_hub.Expenses.Esteira.Months.{months_of}
use orbix_hub.Expenses.Esteira.Extended.{months-estender_regra}
use orbix_hub.Expenses.Esteira.Monthly.{OncePerMonth}
use orbix_hub.Expenses.Single.{create}
use orbix_hub.Expenses.Single.Kept.{operations-OncePerMonth}

abbrev nothing : Books
nothing = record {
  expenses = [];
  recurrences = [];
  categories = [];
  cash = record {
    sessions = [];
    entries = [];
    installments = [];
    grants = [];
    settings = empty_config;
    audit = [];
  };
  audit = [];
}

abbrev generated : Generated
generated = record { grupo = 30; regra = 31; parcela = λ i. i + 40 }

-- On the last day of each month from January.
abbrev rent : CreateDto
rent = record {
  id = none;
  recorrencia = some (record {
    frequency = none;
    day_of_month = none;
    month_of_year = none;
    ends_on = some (record { year = 2027; month = 3; day = 30 });
  });
  description = 97 ∷ [];
  due_date = record { year = 2026; month = 0; day = 31 };
  amount = some 900_000;
  category_id = none;
  notes = none;
  parcelas = 0;
  installment_ids = none;
  installment_group_id = none;
  supplier_name = none;
  supplier_doc = none;
}

abbrev uuid : ℕ → ℕ
uuid i = i + 80

abbrev again : Generated
again = record { grupo = 60; regra = 61; parcela = λ i. i + 120 }

abbrev rented : Books
rented = (create generated rent nothing).1

days_made :
    map (λ (e : Expense). e.due_date.day) rented.expenses
    ≡ 31 ∷ 28 ∷ 31 ∷ 30 ∷ 31 ∷ 30 ∷ 31 ∷ 31 ∷ 30 ∷ 31 ∷ 30 ∷ 31 ∷ 31 ∷ []
unfolding create ◌>>=◌
days_made = refl

-- Until April 2027.
months_extended :
    map (λ (e : Expense). e.due_date.month) (estender_regra uuid 31 rented).1.expenses
    ≡ 0 ∷ 1 ∷ 2 ∷ 3 ∷ 4 ∷ 5 ∷ 6 ∷ 7 ∷ 8 ∷ 9 ∷ 10 ∷ 11 ∷ 0 ∷ 1 ∷ 2 ∷ 3 ∷ []
unfolding create estender_regra ◌>>=◌
months_extended = refl

operations-OncePerMonth_example :
    OncePerMonth (create again rent rented).1 × OncePerMonth (estender_regra uuid 31 rented).1
operations-OncePerMonth_example =
    operations-OncePerMonth again rent uuid 31 rented (omega arith) tt
      (operations-OncePerMonth generated rent uuid 31 nothing (omega arith) tt (λ x. refl)).0

-- Without an end.
abbrev lasting : CreateDto
lasting = record rent {
  recorrencia =
      some (record { frequency = none; day_of_month = none; month_of_year = none; ends_on = none });
}

abbrev lasting_books : Books
lasting_books = (create generated lasting nothing).1

abbrev its_rule : Recurrence
its_rule = record {
  id = 31;
  description = 97 ∷ [];
  amount = 90_000;
  category_id = none;
  rule = record {
    frequency = monthly;
    day_of_month = 31;
    month_of_year = none;
    starts_on = record { year = 2026; month = 0; day = 31 };
    ends_on = none;
  };
  notes = none;
  generated_through = some (record { year = 2027; month = 0; day = 31 });
  disabled = false;
}

-- Thirteen months from January 2026, and twelve more.
abbrev twenty_five : List ℕ
twenty_five = count_from 24_312 25

months-estender_regra_example :
    ((estender_regra uuid 31 lasting_books).0 ≡ ok tt)
    × (months_of 31 (estender_regra uuid 31 lasting_books).1.expenses ≡ twenty_five)
unfolding create ◌>>=◌
months-estender_regra_example =
    months-estender_regra uuid 31 its_rule lasting_books refl refl refl refl (omega arith)
      (omega arith)
      (
        refl,
        refl,
        (
          refl,
          refl,
          (
            refl,
            refl,
            (
              refl,
              refl,
              (
                refl,
                refl,
                (
                  refl,
                  refl,
                  (
                    refl,
                    refl,
                    (refl, refl, (refl, refl, (refl, refl, (refl, refl, (refl, refl, tt))))),
                  ),
                ),
              ),
            ),
          ),
        ),
      )
      (operations-OncePerMonth generated lasting uuid 31 nothing (omega arith) tt (λ x. refl)).0
