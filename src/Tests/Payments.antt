-- ===== src/Tests/Payments.antt =====
-- Discounts, balances and configurations of a shop.
use orbix_hub.Base.{◌≡◌, ◌↔◌, ◌<◌, refl, true, false, none, some, [], ◌∷◌, pos}
use orbix_hub.Money.{round2}
use orbix_hub.Cashier.Config.{pix, PartialConfig, array, known, unknown}
use orbix_hub.Cashier.Discount.{EntradaDesconto, granted, validar_desconto}
use orbix_hub.Cashier.Discount.Limits.{MayBeGranted, granted_iff}
use orbix_hub.Cashier.Installments.{plan_amounts}
use orbix_hub.Cashier.Installments.Plan.{sum_ℤ, sum-plan_amounts}

-- Twenty reais off a balance of a hundred, at most fifteen percent.
abbrev asked : EntradaDesconto
asked = record {
  desconto = pos 20_000;
  saldo = 100_000;
  amount = 80_000;
  pode_conceder = true;
  teto = record { max_percentual = some 15_000; max_valor = none };
}

granted_iff_example :
    (validar_desconto asked ≡ granted 2000)
    ↔ ((2000 ≡ round2 20_000) × (0 < 2000 → MayBeGranted asked 2000))
granted_iff_example = granted_iff asked 20_000 2000 refl

abbrev denied : EntradaDesconto
denied = record asked { pode_conceder = false }

abbrev posted : PartialConfig
posted = record {
  payment_methods = some (array (known pix ∷ unknown ∷ []));
  require_open_session = some true;
  count_cash_only = some false;
}

sum-plan_amounts_example : sum_ℤ (plan_amounts 100_000 3) ≡ pos (round2 100_000)
sum-plan_amounts_example = sum-plan_amounts 100_000 2
