-- ===== src/Tests/Receivables.antt =====
-- Two debtors, on the tenth day.
use orbix_hub.Base.{ℕ, ◌+◌, ◌≡◌, none, some, List, [], ◌∷◌, Text}
use orbix_hub.Receivables.{
  dia, ilegivel, os, sale, Titulo, Devedor, classificar, Vencimento, todos, vencidos, a_vencer,
  sem_prazo,
}
use orbix_hub.Receivables.Deadlines.{
  IsClassified, classificar-IsClassified, all_classified, count_of, queues_partition,
}

abbrev late : Titulo
late = record { origin = os; created_at = none; balance = 5000; proxima_parcela_em = some (dia 3) }

abbrev unread : Titulo
unread = record late { origin = sale; proxima_parcela_em = some ilegivel }

abbrev debtor : Devedor
debtor = record {
  customer_id = some 1;
  customer_name = 97 ∷ [];
  total_due = 10_000;
  title_count = 2;
  oldest_at = none;
  titulos = unread ∷ late ∷ [];
}

abbrev other : Devedor
other = record debtor { customer_id = some 2; titulos = unread ∷ [] }

classificar_example : IsClassified 10 (unread ∷ late ∷ []) (classificar 10 debtor).prazo
classificar_example = classificar-IsClassified 10 debtor

-- A decomposition of the letters without accents.
abbrev same_letter : ℕ → Text
same_letter c = c ∷ []

abbrev same_text : Text → Text
same_text s = s

abbrev counted : Vencimento → ℕ
counted v =
    count_of same_letter same_text (some (97 ∷ [])) (some os) 10 v
      (all_classified 10 (debtor ∷ other ∷ []))

queues_partition_example : counted vencidos + counted a_vencer + counted sem_prazo ≡ counted todos
queues_partition_example =
    queues_partition same_letter same_text (some (97 ∷ [])) (some os) 10 (debtor ∷ other ∷ [])

abbrev three : List ℕ
three = 4 ∷ 5 ∷ 6 ∷ []
