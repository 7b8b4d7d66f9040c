-- ===== src/Expenses/Payment/Paid.antt =====
-- What a payment leaves behind: `pay` of back/src/modules/expenses/expenses.service.ts.
use orbix_hub.Base.{
  ℕ, ◌≡◌, refl, ap, sym, subst, ◌∙◌, ◌==◌, true, false, none, ◌<◌, some, is_some, or_default, find,
  update_first, Result, ok, err, arith,
}
use orbix_hub.Base.Triple.{
  Triple, Met, Triple-pure, Triple-gets, Triple-or_throw, Triple-modify, Triple-throw_if,
  Triple-bind, Triple-given,
}
use orbix_hub.Money.{round2, of_cents, round2-of_cents}
use orbix_hub.Cashier
use orbix_hub.Cashier.Corrections.{registrar_saida_de_despesa}
use orbix_hub.Expenses.Store.{
  Expense, active, Books, expense_has_id, find_by_id, is_active, set_payment, audit_log,
}
use orbix_hub.Expenses.Bin.{is_paid, expense_or_throw}
use orbix_hub.Expenses.Payment.{
  PayDto, keep_books, at_desk, active_group, parcela_anterior, payment_of, saida_of, check_payment,
  pay,
}
use orbix_hub.Expenses.Payment.Order.{NoneBefore, in_use_of, unpaid_of, next_in_order}
use orbix_hub.Cashier.Config.{dinheiro}
use orbix_hub.Expenses.Payment.Mirrored.{Stands, Anything, registrar-Stands}

-- The value that is paid: the one asked, or the expense's own.
abbrev pub valor_of : PayDto → Expense → ℕ
valor_of dto atual = round2 (or_default dto.amount (of_cents atual.amount))

-- The expense may be paid: in use, open, with a value, and the next of its instalments.
pub record Payable (dto : PayDto) (atual : Expense) (db : Books) : Type 0 where
  pub in_use : atual.status ≡ active
  pub unpaid : atual.paid_at ≡ none
  pub in_order : NoneBefore atual.installment_group_id atual.installment_no db.expenses
  pub has_value : 0 < valor_of dto atual

-- It was payable, and now it is marked as paid by an entry of the book that stands, with its value.
pub record Paid (req : Cashier.Store.Request) (id : ℕ) (dto : PayDto) (atual : Expense)
    (db t : Books) : Type 0 where
  pub payable : Payable dto atual db
  pub entry_id : ℕ
  pub mirrored : Stands entry_id (valor_of dto atual) (some id) t.cash
  pub marked :
      t.expenses
      ≡ update_first
          (λ e. e.id == id)
          (λ e. record e {
            paid_at = some (or_default dto.paid_at req.now);
            paid_amount = some (valor_of dto atual);
            paid_method = some (or_default dto.method dinheiro);
            cash_entry_id = some entry_id;
          })
          db.expenses

at_desk-Met :
    {A : Type 0} (I P : Books → Type 0) (Q : A → Cashier.Store.Db → Type 0) (db : Books)
    (r : Result Cashier.Store.Error A × Cashier.Store.Db)
    → ((cash : Cashier.Store.Db) → I (record db { cash = cash }))
    → ((cash : Cashier.Store.Db) → P (record db { cash = cash }))
    → Met Anything Q r
    → Met I (λ a t. P t × Q a t.cash) (keep_books db r)
at_desk-Met I P Q db (ok a, cash) i p q = (p cash, q)
at_desk-Met I P Q db (err e, cash) i p q = i cash

module _ (req : Cashier.Store.Request) (id : ℕ) (dto : PayDto) (db : Books) where
  abbrev Same : Books → Type 0
  Same t = t.expenses ≡ db.expenses

  abbrev Start : Books → Type 0
  Start t = t ≡ db

  -- What the guards let through.
  abbrev Checked : Expense → (Expense × ℕ) → Books → Type 0
  Checked atual c t = (c.0 ≡ atual) × (c.1 ≡ valor_of dto atual) × Payable dto atual db × Start t

  same : (t : Books) → Start t → Same t
  same t p = ap (λ (b : Books). b.expenses) p

  found-Start :
      (atual : Expense)
      → find (expense_has_id id) db.expenses ≡ some atual
      → Triple Same Start (expense_or_throw id) (λ a t. (a ≡ atual) × Start t)
  unfolding expense_or_throw find_by_id
  found-Start atual f =
      Triple-bind _ _
        (Triple-gets {Q = λ o t. (o ≡ find (expense_has_id id) db.expenses) × Start t} _
          (λ t p. (ap (λ (b : Books). find (expense_has_id id) b.expenses) p, p)))
        (λ o. Triple-or_throw o _ (λ t p. same t p.1) (λ a e t p. (first a (sym e ∙ p.0 ∙ f), p.1)))
    where
      first : (a : Expense) → some a ≡ some atual → a ≡ atual
      first a g = cc

  check_payment-Checked :
      (atual : Expense)
      → find (expense_has_id id) db.expenses ≡ some atual
      → Triple Same Start (check_payment id dto) (Checked atual)
  unfolding check_payment
  check_payment-Checked atual f = Triple-bind _ _ (found-Start atual f) (λ a.
      Triple-given _ (λ same_row.
        Triple-bind _ _
          (Triple-gets {Q = λ g t. (g ≡ active_group a db) × Start t} _
            (λ t p. (ap (active_group a) p, p)))
          (λ grupo. Triple-given _ (λ g.
            Triple-bind _ _
              (Triple-throw_if {Q = λ u t. (is_active a.status ≡ true) × Start t} _ _ same
                (λ e t p. (ground arith, p)))
              (λ u. Triple-given _ (λ in_use.
                Triple-bind _ _
                  (Triple-throw_if {Q = λ u t. (is_paid a ≡ false) × Start t} _ _ same
                    (λ e t p. (e, p)))
                  (λ v. Triple-given _ (λ unpaid.
                    Triple-bind _ _
                      (Triple-throw_if
                        {Q = λ u t.
                          (is_some (parcela_anterior a (active_group a db)) ≡ false) × Start t}
                        _ _ same
                        (λ e t p. (ap (λ r. is_some (parcela_anterior a r)) (sym g) ∙ e, p)))
                      (λ w. Triple-given _ (λ in_order.
                        Triple-bind _ _
                          (Triple-throw_if {Q = λ u t. ((valor_of dto a == 0) ≡ false) × Start t} _
                            _ same (λ e t p. (e, p)))
                          (λ x. Triple-given _ (λ has_value. Triple-pure _ (λ t p. (
                            same_row,
                            ap (valor_of dto) same_row,
                            subst (λ r. Payable dto r db) same_row
                                (record {
                                  in_use = in_use_of a.status in_use;
                                  unpaid = unpaid_of a unpaid;
                                  in_order = next_in_order a db in_order;
                                  has_value = ground arith;
                                }),
                            p,
                          ))))))))))))))

  -- Between the cash book and the mark.
  record Ready (atual : Expense) (c : Expense × ℕ) (t : Books) : Type 0 where
    value : c.1 ≡ valor_of dto atual
    payable : Payable dto atual db
    rows : Same t

  at_the_desk :
      (atual : Expense) (c : Expense × ℕ) (t : Books)
      → Checked atual c t
      → Met Same
          (λ e t. Ready atual c t × Stands e c.1 (some id) t.cash)
          (at_desk (registrar_saida_de_despesa req (saida_of id dto c.0 c.1)) t)
  unfolding saida_of
  at_the_desk atual c t p =
      at_desk-Met Same (Ready atual c) (λ e cash. Stands e c.1 (some id) cash) t
        (registrar_saida_de_despesa req (saida_of id dto c.0 c.1) t.cash) (λ cash. same t p.3)
        (λ cash. record { value = p.1; payable = p.2; rows = same t p.3 })
        (rw (round2-of_cents c.1) at
          ((registrar-Stands req (saida_of id dto c.0 c.1)).at t.cash tt))

  marks :
      (atual : Expense) (c : Expense × ℕ) (entry : ℕ) (t : Books)
      → Ready atual c t
      → Stands entry c.1 (some id) t.cash
      → Paid req id dto atual db (set_payment id (payment_of id dto req c.1 entry) t)
  unfolding set_payment
  marks atual c entry t r k = record {
    payable = r.payable;
    entry_id = entry;
    mirrored = subst (λ v. Stands entry v (some id) t.cash) r.value k;
    marked = rw (r.rows, r.value) refl;
  }

  pays :
      (atual : Expense)
      → find (expense_has_id id) db.expenses ≡ some atual
      → Triple Same Start (pay req id dto) (λ u t. Paid req id dto atual db t)
  unfolding pay saida_of set_payment audit_log
  pays atual f = Triple-bind _ _ (check_payment-Checked atual f) (λ c.
      Triple-bind {Q = λ e t. Ready atual c t × Stands e c.1 (some id) t.cash} _ _
        (record { at = λ t p. at_the_desk atual c t p })
        (λ entry.
          Triple-bind {Q = λ u t. Paid req id dto atual db t} _ _
            (Triple-modify _ (λ t p. marks atual c entry t p.0 p.1))
            (λ u. Triple-modify _ (λ t k. record {
              payable = k.payable;
              entry_id = k.entry_id;
              mirrored = k.mirrored;
              marked = k.marked;
            }))))

-- Whoever pays, and whatever is asked: a payment that is refused, by the expenses or by the
-- cash book, marks no expense. One that succeeds was of an expense in use, not paid and with a
-- value, before which no other instalment of its purchase in use stays open; the first row
-- with its id is then the only one that changed, with the date asked (or now), the value, the
-- method asked (or cash) and the id of an entry of the cash book that stands, has this value
-- and points back to the expense.
pub pay-Paid :
    (req : Cashier.Store.Request) (id : ℕ) (dto : PayDto) (db : Books) (atual : Expense)
    → find (expense_has_id id) db.expenses ≡ some atual
    → Met (λ t. t.expenses ≡ db.expenses) (λ u t. Paid req id dto atual db t) (pay req id dto db)
pay-Paid req id dto db atual f = (pays req id dto db atual f).at db refl
