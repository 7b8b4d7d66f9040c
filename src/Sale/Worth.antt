-- ===== src/Sale/Worth.antt =====
-- What a sale is worth, by its own row and by its lines: the tables of
-- back/src/modules/sale/sale.repository.ts under the writes of the service.
use orbix_hub.Base.{
  ℕ, suc, ◌+◌, ◌==◌, ◌≡◌, refl, ap, ◌∙◌, false, not, Option, none, some, List, [], ◌∷◌, ◌++◌, find,
  any, keep, update_first, sum_by, sum_by-append, All, if◌then◌else◌, pos, arith,
}
use orbix_hub.Base.Rows.{find-none}
use orbix_hub.Money.{round2-of_cents, of_cents}
use orbix_hub.Sale.{compute_subtotal, compute_sale_total, apply_sale_discount_lem}
use orbix_hub.Sale.Store.{Sale, SaleItemRow, Shop, Request, sale_has_id, of_sale, add_item}
use orbix_hub.Sale.Lines.{ResolvedItem, gross, add_items, sale_item_row}
use orbix_hub.Sale.Service.{discount_for}

abbrev pub gross_of : Option Sale → ℕ
gross_of none = 0
gross_of (some s) = s.total + s.discount

abbrev pub line_worth : ℕ → SaleItemRow → ℕ
line_worth id r = if of_sale id r then r.subtotal else 0

-- The subtotals of the lines of a sale.
abbrev pub lines_worth : ℕ → Shop → ℕ
lines_worth id db = sum_by (line_worth id) db.items

-- The total and the discount of every sale make up the subtotals of its lines, and only sales have lines.
abbrev pub Priced : Shop → Type 0
Priced db = (id : ℕ) → gross_of (find (sale_has_id id) db.sales) ≡ lines_worth id db

abbrev pub worth : List ResolvedItem → ℕ
worth rs = sum_by (λ r. r.subtotal) rs

abbrev pub IsResolved : ResolvedItem → Type 0
IsResolved r = r.subtotal ≡ compute_subtotal r.quantity (pos r.unit_price)

pub gross-worth : (rs : List ResolvedItem) → All IsResolved rs → gross rs ≡ worth rs
unfolding gross compute_sale_total
gross-worth [] h = refl
gross-worth (r ∷ rs) (h, hs) = omega (arith, h, gross-worth rs hs)

pub discount_for_lem :
    (bruto asked : ℕ)
    → (discount_for bruto asked).total + (discount_for bruto asked).discount ≡ bruto
unfolding discount_for
discount_for_lem bruto asked =
    (apply_sale_discount_lem (pos (of_cents bruto)) (pos asked)).0 ∙ round2-of_cents bruto

pub find-fresh :
    (s : Sale) (x : ℕ) (ss : List Sale)
    → any (sale_has_id s.id) ss ≡ false
    → gross_of (find (sale_has_id x) (ss ++ (s ∷ [])))
      ≡ (if s.id == x then s.total + s.discount else gross_of (find (sale_has_id x) ss))
find-fresh s x [] h = ground arith
find-fresh s x (t ∷ ss) h = ground (arith, find-fresh s x ss)

pub find-absent :
    (x : ℕ) (ss : List Sale)
    → any (sale_has_id x) ss ≡ false
    → gross_of (find (sale_has_id x) ss) ≡ 0
find-absent x ss h = ap gross_of (find-none (λ (s : Sale). s.id) x ss h)

pub update-gross :
    (x id : ℕ) (f : Sale → Sale) (ss : List Sale)
    → ((s : Sale) → (f s).id ≡ s.id)
    → ((s : Sale) → (f s).total + (f s).discount ≡ s.total + s.discount)
    → gross_of (find (sale_has_id x) (update_first (sale_has_id id) f ss))
      ≡ gross_of (find (sale_has_id x) ss)
update-gross x id f [] i g = refl
update-gross x id f (s ∷ ss) i g = ground (arith, update-gross x id f ss i g, i s, g s)

pub totals-gross :
    (x id : ℕ) (f : Sale → Sale) (g : ℕ) (ss : List Sale) (a : Sale)
    → ((s : Sale) → (f s).id ≡ s.id)
    → ((s : Sale) → (f s).total + (f s).discount ≡ g)
    → find (sale_has_id id) ss ≡ some a
    → gross_of (find (sale_has_id x) (update_first (sale_has_id id) f ss))
      ≡ (if id == x then g else gross_of (find (sale_has_id x) ss))
totals-gross x id f g [] a i e h = cc
totals-gross x id f g (s ∷ ss) a i e h = ground (arith, totals-gross x id f g ss a i e, i s, e s)

pub delete-worth :
    (x id : ℕ) (rows : List SaleItemRow)
    → sum_by (line_worth x) (keep (λ r. not (of_sale id r)) rows)
      ≡ (if id == x then 0 else sum_by (line_worth x) rows)
delete-worth x id [] = ground arith
delete-worth x id (r ∷ rows) = ground (arith, delete-worth x id rows)

pub add_items-worth :
    (x : ℕ) (req : Request) (sale_id k : ℕ) (rs : List ResolvedItem) (db : Shop)
    → lines_worth x (add_items req sale_id k rs db)
      ≡ lines_worth x db + (if sale_id == x then worth rs else 0)
unfolding add_items add_item sale_item_row
add_items-worth x req sale_id k [] db = ground arith
add_items-worth x req sale_id k (r ∷ rs) db =
    let rest =
      add_items-worth x req sale_id (suc k) rs
        (add_item (sale_item_row (req.line_uuid k) sale_id r) db) in
    let here =
      sum_by-append (line_worth x) db.items (sale_item_row (req.line_uuid k) sale_id r ∷ []) in
    ground (arith, rest, here)

pub add_items-sales :
    (req : Request) (sale_id k : ℕ) (rs : List ResolvedItem) (db : Shop)
    → (add_items req sale_id k rs db).sales ≡ db.sales
unfolding add_items add_item
add_items-sales req sale_id k [] db = refl
add_items-sales req sale_id k (r ∷ rs) db =
    add_items-sales req sale_id (suc k) rs (add_item (sale_item_row (req.line_uuid k) sale_id r) db)
