-- ===== src/Sale/Edited.antt =====
-- What an edit of a sale does to its money: `updateSale` of back/src/modules/sale/sale.service.ts.
pub mod Guarded
pub mod Total
use orbix_hub.Base.{
  ℕ, ◌+◌, ◌≤◌, ◌==◌, ◌||◌, ◌≡◌, ◌⊎◌, inl, inr, refl, ap, sym, subst, ◌∙◌, Bool, true, false,
  Bool-cases, Option, none, some, is_some, List, [], ◌∷◌, find, ltb, Text, trim_or_null,
  update_first, arith, ==_iff,
}
use orbix_hub.Base.Keeps.{Keeps, Keeps-gets, Keeps-pure, Keeps-bind, Keeps-then}
use orbix_hub.Base.Triple.{
  Triple, Triple-pure, Triple-gets, Triple-or_throw, Triple-transaction, Triple-modify,
  Triple-throw_if, Triple-bind, Triple-given, Triple-relax, Keeps-Triple, keeps_state,
}
use orbix_hub.Money.{of_cents}
use orbix_hub.Cashier.Payment.{build_payment_summary, eps}
use orbix_hub.Cashier.Store.{sum_settled_for_sale}
use orbix_hub.Cashier
use orbix_hub.Sale.{Discounted}
use orbix_hub.Sale.Store.{
  Sale, Shop, Request, sale_has_id, update_sale_row, find_sale_by_id, delete_items, with_customer,
  with_totals, SaleItemRow, consume, with_description,
}
use orbix_hub.Sale.Lines.{ResolvedItem}
use orbix_hub.Sale.Untouched.{Untouched, apply_stock-Keeps, give_back_rows-Keeps, audit_log-Keeps}
use orbix_hub.Sale.Reads.{buyer_asked-Reads, lines_asked-Reads}
use orbix_hub.Sale.Worth.{add_items-sales}
use orbix_hub.Sale.Service.{Buyer, sale_or_throw}
use orbix_hub.Sale.Edit.{
  UpdateDto, Checked, new_money, has_invoice, paid_of, guard_money, check_edit, write_buyer,
  write_lines, write_money, write_description, write_sale, move_stock, update_sale,
}
use orbix_hub.Sale.Edited.Guarded.{settled, MayTotal, Checks, check_edit-Checks}
use orbix_hub.Sale.Edited.Total.{HasTotal, buyer-HasTotal, lines-HasTotal, edit-HasTotal}

unasked :
    (dto : UpdateDto) (rs : Option (List ResolvedItem)) (atual : Sale)
    → (is_some rs || is_some dto.discount) ≡ false
    → (new_money dto rs atual).total ≡ atual.total
unfolding new_money
unasked dto rs atual e = rw e refl

-- The sale is there, and its total is one that it may have.
pub record Safe (id : ℕ) (old : Sale) (cash : Cashier.Store.Db) (db : Shop) : Type 0 where
  pub total : ℕ
  pub held : HasTotal id total db
  pub allowed : MayTotal old cash total

module _ (I : Shop → Type 0) (respects : (s t : Shop) → Untouched s t → I s → I t) where
  pub move_stock-Keeps :
      (id number : ℕ) (antigos : List SaleItemRow) (rs : Option (List ResolvedItem))
      → Keeps I (move_stock id number antigos rs)
  unfolding move_stock
  move_stock-Keeps id number antigos none = Keeps-pure _
  move_stock-Keeps id number antigos (some rs) =
      Keeps-then _ _ (give_back_rows-Keeps I respects id antigos) (
        Keeps-bind _ _ (Keeps-gets _) (λ rows. apply_stock-Keeps I respects id number rows consume))

-- Whatever the transaction writes, when the checks have passed.
edited-Safe :
    (req : Request) (id : ℕ) (dto : UpdateDto) (b : Option Buyer) (rs : Option (List ResolvedItem))
    (c : Checked) (s t : Shop) (old : Sale)
    → find (sale_has_id id) s.sales ≡ some old
    → t.sales ≡ s.sales
    → t.cash ≡ s.cash
    → Checks id dto rs c t
    → Safe id old s.cash (write_sale req id dto b rs c.money t)
edited-Safe req id dto b rs c s t old h sales cash k =
    let same : c.atual ≡ old =
      let e : some c.atual ≡ some old = sym k.found ∙ ap (find (sale_has_id id)) sales ∙ h in cc in
    record {
      total = c.money.total;
      held =
          edit-HasTotal req id c.atual.total dto b rs c.money t
            (λ e. ap (λ m. m.total) k.money ∙ unasked dto rs c.atual e)
            (record { row = c.atual; found = k.found; is = refl });
      allowed =
          subst (λ a. MayTotal a s.cash c.money.total) same
            (subst (λ x. MayTotal c.atual x c.money.total) cash k.allowed);
    }

Safe-respects :
    (id : ℕ) (old : Sale) (cash : Cashier.Store.Db) (s t : Shop)
    → Untouched s t
    → Safe id old cash s
    → Safe id old cash t
Safe-respects id old cash s t u f = record {
  total = f.total;
  held = record { row = f.held.row; found = rw u.same_sales f.held.found; is = f.held.is };
  allowed = f.allowed;
}

-- The sales and the cash desk as they were.
abbrev Before : Shop → Shop → Type 0
Before s t = (t.sales ≡ s.sales) × (t.cash ≡ s.cash)

Before-Safe :
    (id : ℕ) (s t : Shop) (old : Sale)
    → find (sale_has_id id) s.sales ≡ some old
    → Before s t
    → Safe id old s.cash t
Before-Safe id s t old h p = record {
  total = old.total;
  held = record { row = old; found = rw p.0 h; is = refl };
  allowed = inl refl;
}

edits :
    (req : Request) (id : ℕ) (dto : UpdateDto) (s : Shop) (old : Sale)
    → find (sale_has_id id) s.sales ≡ some old
    → Triple (Safe id old s.cash) (Before s) (update_sale req id dto) (λ w. Safe id old s.cash)
unfolding update_sale
edits req id dto s old h =
    let stays : (t : Shop) → Before s t → Safe id old s.cash t =
      λ t p. Before-Safe id s t old h p in
    let respects = Safe-respects id old s.cash in
    Triple-bind _ _ (Triple-relax _ stays (buyer_asked-Reads (Before s) dto.customer_id)) (λ b.
      Triple-bind _ _ (Triple-relax _ stays (lines_asked-Reads (Before s) dto.items)) (λ rs.
        Triple-given _ (λ r.
          Triple-bind _ _ (Triple-relax _ stays (check_edit-Checks (Before s) id dto rs)) (λ c.
            Triple-bind _ _
              (Triple-gets {Q = λ a t. Before s t × Checks id dto rs c t} _ (λ t p. p))
              (λ antigos.
                Triple-bind _ _
                  (Triple-modify _ (λ t p. edited-Safe req id dto b rs c s t old h p.0.0 p.0.1 p.1))
                  (λ u. Keeps-Triple _ (
                    Keeps-then _ _ (audit_log-Keeps (Safe id old s.cash) respects _ _) (
                      move_stock-Keeps (Safe id old s.cash) respects id c.atual.number antigos
                        rs))))))))

-- Whoever edits a sale, whatever is asked for, and whether or not the edit is refused: afterwards the
-- sale is there with the total it had, or it had no invoice that stands and its payments and their
-- discounts do not exceed its new total.
pub update_sale-Safe :
    (req : Request) (id : ℕ) (dto : UpdateDto) (s : Shop) (old : Sale)
    → find (sale_has_id id) s.sales ≡ some old
    → Safe id old s.cash (update_sale req id dto s).1
update_sale-Safe req id dto s old h =
    keeps_state (Safe id old s.cash) (update_sale req id dto s)
      ((edits req id dto s old h).at s (refl, refl))
