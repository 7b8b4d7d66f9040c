-- ===== src/Cashier/Discount.antt =====
-- back/src/modules/cashier/cashier.discount.ts: whether a requested discount is granted.
pub mod Limits
use orbix_hub.Base.{
  ℕ, ◌+◌, ◌*◌, Bool, true, false, ◌&&◌, Option, none, some, ltb, ◌==◌, if◌then◌else◌, ℤ, pos,
  negsuc,
}
use orbix_hub.Money.{round2, round2_ℤ}

-- `none` is no limit. The percentage is in thousandths of a percent, the value of a real.
pub record TetoDesconto : Type 0 where
  pub max_percentual : Option ℕ
  pub max_valor : Option ℕ

abbrev pub sem_teto : TetoDesconto
sem_teto = record { max_percentual = none; max_valor = none }

-- Why a discount is refused.
pub data Motivo : Type 0 where
  negativo sem_permissao lancamento_vazio acima_do_saldo : Motivo
  acima_do_valor acima_do_percentual : ℕ → Motivo

-- The granted discount, in cents.
pub data ResultadoDesconto : Type 0 where
  granted : ℕ → ResultadoDesconto
  refused : Motivo → ResultadoDesconto

-- In thousandths of a real.
pub record EntradaDesconto : Type 0 where
  pub desconto : ℤ
  pub saldo : ℕ
  pub amount : ℕ
  pub pode_conceder : Bool
  pub teto : TetoDesconto

-- `desconto / saldo * 100 > max + 0.005`, multiplied out.
abbrev pub above_percentage : (desconto saldo max : ℕ) → Bool
above_percentage desconto saldo max = ltb ((max + 5) * saldo) (desconto * 100_000)

check_percentual : Option ℕ → (desconto saldo : ℕ) → ResultadoDesconto
check_percentual none desconto saldo = granted desconto
check_percentual (some max) desconto saldo =
    if ltb 0 saldo && above_percentage desconto saldo max
    then refused (acima_do_percentual max)
    else granted desconto

check_valor : Option ℕ → Option ℕ → (desconto saldo : ℕ) → ResultadoDesconto
unfolding check_percentual
check_valor none percentual desconto saldo = check_percentual percentual desconto saldo
check_valor (some max) percentual desconto saldo =
    if ltb (round2 max) desconto
    then refused (acima_do_valor (round2 max))
    else check_percentual percentual desconto saldo

-- The discount after rounding, in cents, decides the early returns.
decide_desconto : ℤ → EntradaDesconto → ResultadoDesconto
unfolding check_valor round2
decide_desconto (negsuc n) e = refused negativo
decide_desconto (pos d) e =
    if d == 0
    then granted 0
    else if e.pode_conceder
    then if round2 e.amount == 0 && d == 0
      then refused lancamento_vazio
      else if ltb (round2 e.saldo) d
      then refused acima_do_saldo
      else check_valor e.teto.max_valor e.teto.max_percentual d (round2 e.saldo)
    else refused sem_permissao

unfoldable pub validar_desconto : EntradaDesconto → ResultadoDesconto
unfolding decide_desconto round2_ℤ
validar_desconto e = decide_desconto (round2_ℤ e.desconto) e
