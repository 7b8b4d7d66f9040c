-- ===== src/Expenses/Create/Rows.antt =====
-- The rows of a purchase in instalments: `linhas` in `criarParcelado` of
-- back/src/modules/expenses/expenses.service.ts.
use orbix_hub.Base.{
  ℕ, suc, ◌+◌, ◌≡◌, refl, ap, sym, ◌∙◌, some, List, [], ◌∷◌, length, sum_by, map, arith,
}
use orbix_hub.Money.{of_cents, round2-of_cents}
use orbix_hub.Expenses.{ratear_parcelas, datas_das_parcelas}
use orbix_hub.Expenses.Split.{ratear_parcelas_lem, datas_das_parcelas_lem}
use orbix_hub.Expenses.Store.{Expense}
use orbix_hub.Expenses.Payment.{number_of}
use orbix_hub.Expenses.Create.{CreateDto, Contexto, Generated, ids_for, grupo_for, linhas, first_of}
use orbix_hub.Expenses.Create.Plan.{count_from, rows-carry}

sum-amounts :
    (rows : List Expense) → sum_by (λ r. r.amount) rows ≡ sum_by (λ v. v) (map (λ r. r.amount) rows)
sum-amounts [] = refl
sum-amounts (r ∷ rs) = ap (λ s. r.amount + s) (sum-amounts rs)

pub record First (rows : List Expense) : Type 0 where
  pub primeira : Expense
  pub is_first : first_of rows ≡ some primeira

pub numbered-First :
    (n : ℕ) (rows : List Expense) → map number_of rows ≡ count_from 1 (suc n) → First rows
numbered-First n [] h =
    absurd (let l : 0 ≡ suc (length (count_from 2 n)) = ap length h in omega (arith, l))
numbered-First n (r ∷ rs) h = record { primeira = r; is_first = refl }

module _ (g : Generated) (dto : CreateDto) (ctx : Contexto) where
  -- What the rows carry.
  pub record Carried : Type 0 where
    pub ids : map (λ r. r.id) (linhas g dto ctx) ≡ ids_for g dto
    pub amounts :
        map (λ r. r.amount) (linhas g dto ctx) ≡ ratear_parcelas (of_cents ctx.total) dto.parcelas
    pub dates :
        map (λ r. r.due_date) (linhas g dto ctx) ≡ datas_das_parcelas ctx.vencimento dto.parcelas
    pub numbers : map number_of (linhas g dto ctx) ≡ count_from 1 dto.parcelas

  module _ (n : ℕ) (parts : dto.parcelas ≡ suc n) where
    values : length (ratear_parcelas (of_cents ctx.total) dto.parcelas) ≡ dto.parcelas
    values = rw parts (ratear_parcelas_lem (of_cents ctx.total) n).0

    pub carried : length (ids_for g dto) ≡ dto.parcelas → Carried
    unfolding linhas
    carried l =
        let c =
          rows-carry dto ctx.fornecedor (grupo_for g dto) 0 (ids_for g dto)
            (ratear_parcelas (of_cents ctx.total) dto.parcelas)
            (datas_das_parcelas ctx.vencimento dto.parcelas) (l ∙ sym values)
            ((datas_das_parcelas_lem ctx.vencimento dto.parcelas).0 ∙ sym values) in
        record { ids = c.0; amounts = c.1; dates = c.2; numbers = c.3 ∙ ap (count_from 1) values }

    -- They add up to the total.
    pub amounts-total : Carried → sum_by (λ r. r.amount) (linhas g dto ctx) ≡ ctx.total
    amounts-total c =
        sum-amounts (linhas g dto ctx)
        ∙ ap (sum_by (λ v. v)) c.amounts
        ∙ ap (λ k. sum_by (λ v. v) (ratear_parcelas (of_cents ctx.total) k)) parts
        ∙ (ratear_parcelas_lem (of_cents ctx.total) n).1
        ∙ round2-of_cents ctx.total
