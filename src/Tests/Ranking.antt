-- ===== src/Tests/Ranking.antt =====
-- A customer with two orders and a sale, and a sale without a customer.
use orbix_hub.Base.{ℕ, ◌≡◌, refl, none, some, List, [], ◌∷◌, Option, keep, ◌==◌, if◌then◌else◌}
use orbix_hub.Report.{DocumentoDeCliente, RecebidoPorDocumento, ranquear_clientes}
use orbix_hub.Report.Tally.{docs_of, has_customer, Ranked, ranquear_clientes-Ranked}

abbrev document : (id at : ℕ) → DocumentoDeCliente
document id at = record {
  id = id;
  customer_id = some 4;
  customer_name = some (65 ∷ id ∷ []);
  created_at = at;
}

abbrev orders : List DocumentoDeCliente
orders = document 1 20 ∷ document 2 10 ∷ []

abbrev sales : List DocumentoDeCliente
sales =
    record (document 3 30) { customer_id = none }
    ∷ record (document 4 30) { customer_name = none }
    ∷ []

-- The first order was paid.
abbrev received : ℕ → Option RecebidoPorDocumento
received id = if id == 1 then some (record { recebido = 10_000; desconto = 500 }) else none

ranquear_clientes-Ranked_example :
    Ranked received
      (docs_of 4 orders)
      (docs_of 4 sales)
      (keep (has_customer 4) (ranquear_clientes received orders sales))
ranquear_clientes-Ranked_example = ranquear_clientes-Ranked received 4 orders sales

-- The name is the latest that is written, the mean is rounded.
ranked :
    ranquear_clientes received orders sales
    ≡ record {
      customer_id = 4;
      customer_name = 65 ∷ 1 ∷ [];
      recebido = 10_000;
      desconto = 500;
      atendimentos = 3;
      os_count = 2;
      sale_count = 1;
      ticket_medio = 3333;
      primeiro_em = 10;
      ultimo_em = 30;
    }
      ∷ []
unfolding ranquear_clientes
ranked = refl
