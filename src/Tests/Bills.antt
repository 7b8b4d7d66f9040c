-- ===== src/Tests/Bills.antt =====
-- A purchase in two instalments: it goes to the bin and comes back, its first instalment is paid, and its total is edited.
use orbix_hub.Base.{ℕ, ◌+◌, map, false, ◌≡◌, refl, none, some, [], ◌∷◌, ok, err, ◌>>=◌}
use orbix_hub.Base.Triple.{Met}
use orbix_hub.Cashier
use orbix_hub.Cashier.Config.{empty_config}
use orbix_hub.Expenses.Store.{Expense, active, Books, conflict, parcela_anterior_em_aberto}
use orbix_hub.Expenses.Bin.{cancel, restore, purge}
use orbix_hub.Expenses.Whole.{canceled_whole, restored_whole, purged_whole, bin_whole}
use orbix_hub.Expenses.Recover.{cancel-restore}
use orbix_hub.Expenses.Payment.{PayDto, pay}
use orbix_hub.Money.{round2}
use orbix_hub.Expenses.Store.{in_active_group}
use orbix_hub.Expenses.Create.{CreateDto, Generated}
use orbix_hub.Expenses.Single.{create}
use orbix_hub.Expenses.Create.Born.{Born, create-Born}
use orbix_hub.Expenses.Edit.{UpdateDto, update_expense}
use orbix_hub.Expenses.Edit.Rows.{total_of}
use orbix_hub.Expenses.Edit.Redistributed.{update_expense-Redistributed}
use orbix_hub.Expenses.Payment.Paid.{Paid, pay-Paid}

abbrev instalment : (id numero : ℕ) → Expense
instalment id numero = record {
  id = id;
  description = 112 ∷ [];
  amount = 5000;
  due_date = record { year = 2026; month = numero; day = 10 };
  category_id = none;
  notes = none;
  supplier_name = none;
  supplier_doc = none;
  status = active;
  paid_at = none;
  paid_amount = none;
  paid_method = none;
  cash_entry_id = none;
  installment_group_id = some 9;
  installment_no = some numero;
  installment_total = some 2;
  recurrence_id = none;
  occurrence_on = none;
}

abbrev rent : Expense
rent = record (instalment 3 1) {
  installment_group_id = none;
  installment_no = none;
  installment_total = none;
}

abbrev desk : Cashier.Store.Db
desk = record {
  sessions = [];
  entries = [];
  installments = [];
  grants = [];
  settings = empty_config;
  audit = [];
}

abbrev books : Books
books = record {
  expenses = instalment 1 1 ∷ rent ∷ instalment 2 2 ∷ [];
  recurrences = [];
  categories = [];
  cash = desk;
  audit = [];
}

bin_whole_example :
    (cancel 2 books ≡ canceled_whole 2 (instalment 2 2) books)
    × (restore 2 books ≡ restored_whole 2 (instalment 2 2) books)
    × (purge 2 books ≡ purged_whole 2 (instalment 2 2) books)
bin_whole_example = bin_whole 2 (instalment 2 2) books (refl, (refl, (refl, tt))) refl

cancel-restore_example :
    ((restore 2 (cancel 2 books).1).0 ≡ ok tt)
    × ((restore 2 (cancel 2 books).1).1.expenses ≡ books.expenses)
unfolding cancel ◌>>=◌
cancel-restore_example =
    cancel-restore 2 (instalment 2 2) books (cancel 2 books).1 (refl, (refl, (refl, tt))) refl
      ((λ h. refl), ((λ h. refl), ((λ h. refl), tt))) refl

abbrev manager : Cashier.Store.Request
manager = record { user_id = 5; role = 1; now = 20; session_uuid = 70; entry_uuid = 80 }

abbrev in_cash : PayDto
in_cash = record {
  amount = none;
  method = none;
  paid_at = none;
  device_id = none;
  cash_entry_id = none;
}

-- The second waits for the first.
paid_early : (pay manager 2 in_cash books).0 ≡ err (conflict parcela_anterior_em_aberto)
unfolding pay ◌>>=◌
paid_early = refl

pay-Paid_example :
    Met
      (λ t. t.expenses ≡ books.expenses)
      (λ u t. Paid manager 1 in_cash (instalment 1 1) books t)
      (pay manager 1 in_cash books)
pay-Paid_example = pay-Paid manager 1 in_cash books (instalment 1 1) refl

-- 150.01 over both instalments.
abbrev dearer : UpdateDto
dearer = record {
  description = none;
  due_date = none;
  amount = some 150_005;
  category_id = none;
  notes = none;
  limpar_categoria = false;
  supplier_name = none;
  supplier_doc = none;
  limpar_fornecedor = false;
}

update_expense-Redistributed_example :
    Met
      (λ t. t ≡ books)
      (λ u t. total_of (in_active_group 9) t.expenses ≡ round2 150_005)
      (update_expense 1 dearer books)
update_expense-Redistributed_example =
    update_expense-Redistributed 1 9 150_005 dearer books (instalment 1 1) refl
      (refl, (refl, (refl, tt))) refl refl refl

abbrev generated : Generated
generated = record { grupo = 30; regra = 31; parcela = λ i. i + 20 }

-- A hundred in three.
abbrev tyres : CreateDto
tyres = record {
  id = none;
  recorrencia = none;
  description = 112 ∷ 110 ∷ [];
  due_date = record { year = 2026; month = 0; day = 31 };
  amount = some 100_000;
  category_id = none;
  notes = none;
  parcelas = 3;
  installment_ids = none;
  installment_group_id = none;
  supplier_name = none;
  supplier_doc = none;
}

create-Born_example :
    Met (λ t. t ≡ books) (Born generated tyres books) (create generated tyres books)
create-Born_example =
    create-Born generated tyres books 2 refl refl (refl, refl, (refl, refl, (refl, refl, tt))) refl

born_parts :
    map (λ (e : Expense). e.amount) ((create generated tyres books).1).expenses
    ≡ 5000 ∷ 5000 ∷ 5000 ∷ 3334 ∷ 3333 ∷ 3333 ∷ []
unfolding create ◌>>=◌
born_parts = refl
