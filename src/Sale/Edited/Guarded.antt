-- ===== src/Sale/Edited/Guarded.antt =====
-- What `updateSale` of back/src/modules/sale/sale.service.ts checks before it writes.
use orbix_hub.Base.{
  ℕ, ◌+◌, ◌≤◌, ◌==◌, ◌≡◌, ◌⊎◌, inl, inr, refl, ◌∙◌, false, Bool-cases, Option, some, List, find,
  ltb, arith, ==_iff,
}
use orbix_hub.Base.Triple.{
  Triple, Triple-pure, Triple-gets, Triple-or_throw, Triple-transaction, Triple-throw_if,
  Triple-bind, Triple-given, Triple-relax,
}
use orbix_hub.Money.{of_cents}
use orbix_hub.Cashier.Payment.{build_payment_summary, eps}
use orbix_hub.Cashier.Store.{sum_settled_for_sale}
use orbix_hub.Cashier
use orbix_hub.Sale.Store.{Sale, Shop, sale_has_id, find_sale_by_id}
use orbix_hub.Sale.Lines.{ResolvedItem}
use orbix_hub.Sale.Service.{sale_or_throw}
use orbix_hub.Sale.Edit.{
  UpdateDto, Checked, new_money, has_invoice, paid_of, guard_money, check_edit,
}

-- What the payments of a sale have settled.
unfoldable pub settled : ℕ → Cashier.Store.Db → ℕ
unfolding sum_settled_for_sale
settled id cash = (sum_settled_for_sale id cash).recebido + (sum_settled_for_sale id cash).desconto

-- Total as before, or no invoice to contradict and no payment above the new one.
abbrev pub MayTotal : (old : Sale) → Cashier.Store.Db → (total : ℕ) → Type 0
MayTotal old cash total =
    (total ≡ old.total) ⊎ ((has_invoice old.fiscal_status ≡ false) × (settled old.id cash ≤ total))

-- What the checks of an edit have found.
pub record Checks (id : ℕ) (dto : UpdateDto) (resolved : Option (List ResolvedItem)) (c : Checked)
    (s : Shop) : Type 0 where
  pub found : find (sale_has_id id) s.sales ≡ some c.atual
  pub money : c.money ≡ new_money dto resolved c.atual
  pub allowed : MayTotal c.atual s.cash c.money.total

within :
    (atual : Sale) (total : ℕ) (s : Shop)
    → ltb (of_cents total + eps) (paid_of atual s).paid ≡ false
    → settled atual.id s.cash ≤ total
unfolding paid_of build_payment_summary settled
within atual total s h = ground arith

module _ (I : Shop → Type 0) where
  guard-allows :
      (atual : Sale) (total : ℕ)
      → Triple I I (guard_money atual total) (λ u s. I s × MayTotal atual s.cash total)
  unfolding guard_money
  guard-allows atual total = elim (Bool-cases (total == atual.total)) [
    | inl same ↦ rw same (Triple-pure _ (λ s p. (p, inl ((==_iff total atual.total).0 same))))
    | inr other ↦ rw other (
        Triple-bind _ _ (Triple-throw_if _ _ (λ s p. p) (λ e s p. (e, p))) (λ u.
          Triple-given _ (λ e.
            Triple-bind _ _
              (Triple-gets {Q = λ r s. I s × (r ≡ paid_of atual s)} _ (λ s p. (p, refl)))
              (λ pago.
                Triple-throw_if _ _ (λ s p. p.0)
                  (λ f s p. (p.0, inr (e, within atual total s (rw p.1 at f))))))))
  ]

  found-sale :
      (id : ℕ)
      → Triple I I (sale_or_throw id) (λ a s. I s × (find (sale_has_id id) s.sales ≡ some a))
  unfolding sale_or_throw find_sale_by_id
  found-sale id =
      Triple-bind _ _
        (Triple-gets {Q = λ o s. I s × (find (sale_has_id id) s.sales ≡ o)} _ (λ s p. (p, refl)))
        (λ o. Triple-or_throw o _ (λ s p. p.0) (λ a e s p. (p.0, p.1 ∙ e)))

module _ (I : Shop → Type 0) where
  pub check_edit-Checks :
      (id : ℕ) (dto : UpdateDto) (resolved : Option (List ResolvedItem))
      → Triple I I (check_edit id dto resolved) (λ c s. I s × Checks id dto resolved c s)
  unfolding check_edit
  check_edit-Checks id dto resolved =
      Triple-bind _ _ (Triple-transaction _ _ (λ s p. p) (found-sale I id)) (λ atual.
        Triple-bind _ _ (Triple-throw_if _ _ (λ s p. p.0) (λ e s p. p)) (λ u.
          Triple-bind _ _
            (Triple-relax _ (λ s p. p.0)
              (guard-allows (λ s. I s × (find (sale_has_id id) s.sales ≡ some atual)) atual
                (new_money dto resolved atual).total))
            (λ v.
              Triple-pure _
                (λ s p. (p.0.0, record { found = p.0.1; money = refl; allowed = p.1 })))))
