-- ===== src/Cashier/Discount/Limits.antt =====
-- What `validarDesconto` of back/src/modules/cashier/cashier.discount.ts lets through.
use orbix_hub.Base.{
  ℕ, ◌+◌, ◌*◌, ◌≤◌, ◌<◌, ◌≡◌, ◌↔◌, ◌≢◌, true, false, Option, none, some, pos, arith,
}
use orbix_hub.Money.{round2}
use orbix_hub.Cashier.Discount.{
  TetoDesconto, EntradaDesconto, granted, refused, sem_permissao, lancamento_vazio,
  validar_desconto,
}

-- The limits of the tenant, `none` being no limit.
abbrev pub WithinValor : Option ℕ → ℕ → Type 0
WithinValor none d = Unit
WithinValor (some max) d = d ≤ round2 max

abbrev pub WithinPercentual : Option ℕ → (d saldo : ℕ) → Type 0
WithinPercentual none d saldo = Unit
WithinPercentual (some max) d saldo = d * 100_000 ≤ (max + 5) * saldo

-- What a discount that is not zero must meet.
pub record MayBeGranted (e : EntradaDesconto) (d : ℕ) : Type 0 where
  pub allowed : e.pode_conceder ≡ true
  pub owed : d ≤ round2 e.saldo
  pub within_valor : WithinValor e.teto.max_valor d
  pub within_percentual : WithinPercentual e.teto.max_percentual d (round2 e.saldo)

-- A discount is granted exactly when it is the requested one rounded to cents and, unless that is
-- zero, the user may grant discounts, the balance covers it and both limits of the tenant hold.
pub granted_iff :
    (e : EntradaDesconto) (n d : ℕ)
    → e.desconto ≡ pos n
    → (validar_desconto e ≡ granted d) ↔ ((d ≡ round2 n) × (0 < d → MayBeGranted e d))
unfolding validar_desconto
granted_iff e n d p = (λ h. ground arith, λ m. ground arith)

-- A user who may not grant discounts learns nothing of the balance or of the limits: the refusal is
-- the same whatever they are.
pub refusal_hides_limits :
    (e : EntradaDesconto) (saldo amount : ℕ) (teto : TetoDesconto) (n : ℕ)
    → e.desconto ≡ pos n
    → 0 < round2 n
    → e.pode_conceder ≡ false
    → (validar_desconto e ≡ refused sem_permissao)
      × (validar_desconto (record e { saldo = saldo; amount = amount; teto = teto })
          ≡ refused sem_permissao)
unfolding validar_desconto
refusal_hides_limits e saldo amount teto n p h q = ground arith

-- The refusal of an entry with neither money nor discount is never given, whatever is asked.
pub never_lancamento_vazio : (e : EntradaDesconto) → validar_desconto e ≢ refused lancamento_vazio
unfolding validar_desconto
never_lancamento_vazio e = ground arith
