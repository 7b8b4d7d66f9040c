-- ===== src/Sale/Repriced.antt =====
-- The total of a sale follows its lines through an edit: `updateSale` of
-- back/src/modules/sale/sale.service.ts.
use orbix_hub.Base.{
  ℕ, ◌+◌, ◌==◌, ◌||◌, ◌≡◌, refl, ap, sym, subst, ◌∙◌, true, false, Bool-cases, inl, inr, Option,
  none, some, is_some, or_default, List, sum_by, find, if◌then◌else◌, Text, trim_or_null, arith,
  ==_iff,
}
use orbix_hub.Base.Keeps.{Keeps, Keeps-then}
use orbix_hub.Base.Triple.{
  Triple-gets, Triple-modify, Triple-bind, Triple-given, Triple-Keeps, Keeps-Triple,
}
use orbix_hub.Money.{of_cents}
use orbix_hub.Sale.{Discounted}
use orbix_hub.Sale.Store.{
  Sale, Shop, Request, sale_has_id, update_sale_row, delete_items, with_customer, with_totals,
  with_description,
}
use orbix_hub.Sale.Lines.{ResolvedItem}
use orbix_hub.Sale.Service.{CreateDto, Buyer, create_sale, mark_fiado, cancel_sale}
use orbix_hub.Sale.Edit.{
  UpdateDto, Checked, bruto_of, new_money, write_buyer, write_lines, write_money, write_description,
  write_sale, update_sale,
}
use orbix_hub.Sale.Untouched.{audit_log-Keeps}
use orbix_hub.Sale.Reads.{ResolvedIf, buyer_asked-Reads, lines_asked-Reads}
use orbix_hub.Sale.Worth.{
  gross_of, line_worth, lines_worth, Priced, worth, gross-worth, discount_for_lem, totals-gross,
  delete-worth, add_items-worth, add_items-sales,
}
use orbix_hub.Sale.Priced.{
  Priced-respects, row-Priced, create_sale-Priced, mark_fiado-Priced, cancel_sale-Priced,
}
use orbix_hub.Sale.Edited.Guarded.{Checks, check_edit-Checks}
use orbix_hub.Sale.Edited.Total.{HasTotal, buyer-HasTotal, lines-HasTotal}
use orbix_hub.Sale.Edited.{move_stock-Keeps}

-- What the lines of a sale come to when new ones are asked for.
abbrev lines_of : Option (List ResolvedItem) → (kept : ℕ) → ℕ
lines_of none kept = kept
lines_of (some rs) kept = worth rs

-- Every sale is priced, but one, whose lines are worth `w`.
abbrev PricedBut : (id w : ℕ) → Shop → Type 0
PricedBut id w db =
    (x : ℕ) → lines_worth x db ≡ (if id == x then w else gross_of (find (sale_has_id x) db.sales))

module _ (req : Request) (id : ℕ) where
  buyer-Priced : (b : Option Buyer) (db : Shop) → Priced db → Priced (write_buyer id req.now b db)
  unfolding write_buyer
  buyer-Priced none db p = p
  buyer-Priced (some b) db p =
      row-Priced id req.now (with_customer b.customer_id b.customer_name) db (λ s. refl) (λ s. refl)
        p

  description-Priced :
      (o : Option Text) (db : Shop) → Priced db → Priced (write_description id req.now o db)
  unfolding write_description
  description-Priced none db p = p
  description-Priced (some t) db p =
      row-Priced id req.now (with_description (trim_or_null t)) db (λ s. refl) (λ s. refl) p

  lines-PricedBut :
      (rs : Option (List ResolvedItem)) (db : Shop)
      → Priced db
      → PricedBut id (lines_of rs (lines_worth id db)) (write_lines req id rs db)
  unfolding write_lines delete_items
  lines-PricedBut none db p x = elim (Bool-cases (id == x)) [
    | inl own ↦ rw own (ap (λ y. lines_worth y db) (sym ((==_iff id x).0 own)))
    | inr other ↦ rw other (sym (p x))
  ]
  lines-PricedBut (some rs) db p x =
      let rows = add_items-worth x req id 0 rs (delete_items id db) in
      let gone = delete-worth x id db.items in
      let before = p x in
      rw (rows, add_items-sales req id 0 rs (delete_items id db), gone)
        (elim (Bool-cases (id == x)) [
          | inl own ↦ rw own (omega arith)
          | inr other ↦ rw other (omega (arith, before))
        ])

  money-Priced :
      (d : Discounted) (a : Sale) (db : Shop)
      → find (sale_has_id id) db.sales ≡ some a
      → PricedBut id (d.total + d.discount) db
      → Priced (write_money id req.now true d db)
  unfolding write_money update_sale_row
  money-Priced d a db f p x =
      totals-gross x id (λ s. record (with_totals d.total d.discount s) { updated_at = req.now })
        (d.total + d.discount) db.sales a (λ s. refl) (λ s. refl) f
      ∙ sym (p x)

  buyer-items : (b : Option Buyer) (db : Shop) → (write_buyer id req.now b db).items ≡ db.items
  unfolding write_buyer update_sale_row
  buyer-items none db = refl
  buyer-items (some b) db = refl

-- The new money of an edit is worth the lines it leaves.
money_sums :
    (dto : UpdateDto) (rs : Option (List ResolvedItem)) (atual : Sale)
    → ResolvedIf rs
    → (is_some rs || is_some dto.discount) ≡ true
    → (new_money dto rs atual).total + (new_money dto rs atual).discount
      ≡ lines_of rs (atual.total + atual.discount)
unfolding new_money
money_sums dto rs atual r asked = rw asked (
    discount_for_lem (bruto_of rs atual) (or_default dto.discount (of_cents atual.discount))
    ∙ bruto rs r)
  where
    bruto :
        (rs : Option (List ResolvedItem))
        → ResolvedIf rs
        → bruto_of rs atual ≡ lines_of rs (atual.total + atual.discount)
    bruto none r = refl
    bruto (some rs) r = gross-worth rs r

edit-Priced :
    (req : Request) (id : ℕ) (dto : UpdateDto) (b : Option Buyer) (rs : Option (List ResolvedItem))
    (c : Checked) (t : Shop)
    → ResolvedIf rs
    → Priced t
    → Checks id dto rs c t
    → Priced (write_sale req id dto b rs c.money t)
unfolding write_sale write_money write_lines
edit-Priced req id dto b rs c t r p k =
    description-Priced req id dto.description _
      (elim (Bool-cases (is_some rs || is_some dto.discount)) [
        | inl asked ↦
            rw asked (money-Priced req id c.money held.row lined held.found (worthy asked))
        | inr unasked ↦ rw unasked (unchanged rs unasked)
      ])
  where
    bought : Shop
    bought = write_buyer id req.now b t

    lined : Shop
    lined = write_lines req id rs bought

    held : HasTotal id c.atual.total lined
    held = lines-HasTotal req id c.atual.total rs bought (
        buyer-HasTotal req id c.atual.total b t
          (record { row = c.atual; found = k.found; is = refl }))

    kept : lines_worth id bought ≡ c.atual.total + c.atual.discount
    kept = ap (sum_by (line_worth id)) (buyer-items req id b t) ∙ sym (p id) ∙ ap gross_of k.found

    worthy :
        (is_some rs || is_some dto.discount) ≡ true
        → PricedBut id (c.money.total + c.money.discount) lined
    worthy asked =
        let sums = ap (λ m. m.total + m.discount) k.money ∙ money_sums dto rs c.atual r asked in
        subst (λ w. PricedBut id w lined) (ap (lines_of rs) kept ∙ sym sums)
          (lines-PricedBut req id rs bought (buyer-Priced req id b t p))

    unchanged :
        (rs : Option (List ResolvedItem))
        → (is_some rs || is_some dto.discount) ≡ false
        → Priced (write_money id req.now false c.money (write_lines req id rs bought))
    unchanged none e = buyer-Priced req id b t p
    unchanged (some rs) e = cc

update_sale-Priced :
    (req : Request) (id : ℕ) (dto : UpdateDto) → Keeps Priced (update_sale req id dto)
unfolding update_sale
update_sale-Priced req id dto = Triple-Keeps _ (
    Triple-bind _ _ (buyer_asked-Reads Priced dto.customer_id) (λ b.
      Triple-bind _ _ (lines_asked-Reads Priced dto.items) (λ rs. Triple-given _ (λ r.
        Triple-bind _ _ (check_edit-Checks Priced id dto rs) (λ c.
          Triple-bind _ _ (Triple-gets {Q = λ a t. Priced t × Checks id dto rs c t} _ (λ t p. p))
            (λ antigos.
              Triple-bind _ _ (Triple-modify _ (λ t p. edit-Priced req id dto b rs c t r p.0 p.1))
                (λ u. Keeps-Triple _ (
                  Keeps-then _ _ (audit_log-Keeps Priced Priced-respects _ _)
                    (move_stock-Keeps Priced Priced-respects id c.atual.number antigos rs)))))))))

-- In any state where the total and the discount of every sale make up the subtotals of its lines, and
-- no line is without its sale: they still do after a creation, if the sellers who commit during its
-- attempts keep it so, after an edit, after a declaration of credit and after a cancellation, each
-- refused or not.
pub operations-Priced :
    (rivals : ℕ → Shop → Shop) (req : Request) (dto : CreateDto) (id : ℕ) (edit : UpdateDto)
    (reason : Option Text)
    → ((k : ℕ) (db : Shop) → Priced db → Priced (rivals k db))
    → Keeps Priced (create_sale rivals req dto)
      × Keeps Priced (update_sale req id edit)
      × Keeps Priced (mark_fiado req id)
      × Keeps Priced (cancel_sale req id reason)
operations-Priced rivals req dto id edit reason honest = (
  create_sale-Priced rivals req dto honest,
  update_sale-Priced req id edit,
  mark_fiado-Priced req id,
  cancel_sale-Priced req id reason,
)
