-- ===== src/Cashier/Commands/Traversal/Installments.antt =====
-- The methods of back/src/modules/cashier/cashier.service.impl.ts on instalments,
-- walked through.
use orbix_hub.Base.{ℕ, ◌≡◌, refl, Option, none, some, List, arith, Bool-cases, inl, inr}
use orbix_hub.Base.Keeps.{
  Keeps, Keeps-pure, Keeps-gets, Keeps-or_throw, Keeps-transaction, Keeps-modify, Keeps-throw_if,
  Keeps-bind, Keeps-then,
}
use orbix_hub.Cashier.Config.{SaleKind, direction_for_category, incoming}
use orbix_hub.Cashier.Store.{Installment, Db, Request}
use orbix_hub.Cashier.Installments.{
  CreatePlanDto, PayInstallmentDto, payment_row, insert_plan, create_installment_plan,
  update_installment, pay_installment, repeats, category_of,
}
use orbix_hub.Calendar.{Day}
use orbix_hub.Cashier.Commands.Traversal.{
  Primitives, aprovar_desconto-Keeps, audit_discount-Keeps, audit_log-Keeps, ensure_session-Keeps,
}

payment_coherent : (kind : SaleKind) → incoming ≡ direction_for_category (category_of kind)
unfolding direction_for_category
payment_coherent kind = ground arith

module _ {P : Db → Type 0} (p : Primitives P) where
  pub insert_plan-Keeps : (rows : Option (List Installment)) → Keeps P (insert_plan rows)
  unfolding insert_plan
  insert_plan-Keeps none = record { at = λ db h. h }
  insert_plan-Keeps (some rows) = record {
    at = λ db h. elim (Bool-cases (repeats db.installments rows)) [
      | inl r ↦ rw r h
      | inr r ↦ rw r (p.changes_installments _ db h)
    ];
  }

  pub plan-Keeps :
      (today : Day) (uuids : List ℕ) (dto : CreatePlanDto)
      → Keeps P (create_installment_plan today uuids dto)
  unfolding create_installment_plan
  plan-Keeps today uuids dto = Keeps-then _ _ (Keeps-throw_if _ _) (
      Keeps-transaction _ (
        Keeps-bind _ _ (Keeps-gets _) λ existing. Keeps-then _ _ (Keeps-throw_if _ _) (
          Keeps-then _ _ (Keeps-modify _ λ db h. p.changes_installments _ db h)
            (insert_plan-Keeps _))))

  pub update_installment-Keeps :
      (req : Request) (id amount : ℕ) → Keeps P (update_installment req id amount)
  unfolding update_installment
  update_installment-Keeps req id amount =
      Keeps-bind _ _
        (Keeps-transaction _ (
          Keeps-bind _ _ (Keeps-gets _) λ found. Keeps-bind _ _ (Keeps-or_throw _ _) λ inst.
            Keeps-then _ _ (Keeps-throw_if _ _) (
              Keeps-then _ _ (Keeps-throw_if _ _) (
                Keeps-then _ _ (Keeps-modify _ λ db h. p.changes_installments _ db h)
                  (Keeps-pure inst)))))
        λ inst. Keeps-then _ _ (audit_log-Keeps p _ _) (Keeps-pure _)

  pub pay_installment-Keeps :
      (req : Request) (id : ℕ) (dto : PayInstallmentDto) → Keeps P (pay_installment req id dto)
  unfolding pay_installment
  pay_installment-Keeps req id dto = Keeps-bind _ _ (Keeps-gets _) λ c.
      Keeps-bind _ _
        (Keeps-transaction _ (
          Keeps-bind _ _ (Keeps-gets _) λ found. Keeps-bind _ _ (Keeps-or_throw _ _) λ inst.
            Keeps-bind _ _ (ensure_session-Keeps p req c none) λ s.
              Keeps-bind _ _ (aprovar_desconto-Keeps p _ _ _ _) λ desconto.
                Keeps-bind _ _
                  (p.inserts_entry (payment_row req dto inst desconto s)
                    (record { coherent = payment_coherent inst.sale_kind; active = refl }))
                  λ e.
                    Keeps-then _ _ (Keeps-modify _ λ db h. p.changes_installments _ db h)
                      (Keeps-pure _)))
        λ result.
          Keeps-then _ _ (audit_log-Keeps p _ _)
            (Keeps-then _ _ (audit_discount-Keeps p req _ _ _) (Keeps-pure result))
