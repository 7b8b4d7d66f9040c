-- ===== src/Sale/Edited/Total.antt =====
-- The total of a sale under the writes of `updateSale` of back/src/modules/sale/sale.service.ts.
use orbix_hub.Base.{
  ℕ, ==_refl, ◌||◌, ◌≡◌, refl, ap, ◌∙◌, Bool, true, false, Option, none, some, is_some, List, find,
  Text, trim_or_null, update_first,
}
use orbix_hub.Sale.{Discounted}
use orbix_hub.Sale.Store.{
  Sale, Shop, Request, sale_has_id, update_sale_row, delete_items, with_customer, with_totals,
  with_description,
}
use orbix_hub.Sale.Lines.{ResolvedItem}
use orbix_hub.Sale.Worth.{add_items-sales}
use orbix_hub.Sale.Service.{Buyer}
use orbix_hub.Sale.Edit.{
  UpdateDto, write_buyer, write_lines, write_money, write_description, write_sale,
}
use orbix_hub.Base.Rows.{map_found, find-update_first}

-- A row that is updated is found again.
find-updated :
    (id : ℕ) (f : Sale → Sale) (ss : List Sale) (a : Sale)
    → ((s : Sale) → (f s).id ≡ s.id)
    → find (sale_has_id id) ss ≡ some a
    → find (sale_has_id id) (update_first (sale_has_id id) f ss) ≡ some (f a)
find-updated id f ss a i h =
    find-update_first (λ (s : Sale). s.id) id id f ss i ∙ rw (==_refl id) (ap (map_found f) h)

-- The sale behind an id, with its total.
pub record HasTotal (id total : ℕ) (db : Shop) : Type 0 where
  pub row : Sale
  pub found : find (sale_has_id id) db.sales ≡ some row
  pub is : row.total ≡ total

row-HasTotal :
    (id now t u : ℕ) (f : Sale → Sale) (db : Shop)
    → ((s : Sale) → (f s).id ≡ s.id)
    → ((s : Sale) → s.total ≡ t → (f s).total ≡ u)
    → HasTotal id t db
    → HasTotal id u (update_sale_row id now f db)
unfolding update_sale_row
row-HasTotal id now t u f db i g h = record {
  row = record (f h.row) { updated_at = now };
  found = find-updated id (λ s. record (f s) { updated_at = now }) db.sales h.row i h.found;
  is = g h.row h.is;
}

module _ (req : Request) (id : ℕ) where
  pub buyer-HasTotal :
      (t : ℕ) (b : Option Buyer) (db : Shop)
      → HasTotal id t db
      → HasTotal id t (write_buyer id req.now b db)
  unfolding write_buyer
  buyer-HasTotal t none db h = h
  buyer-HasTotal t (some b) db h =
      row-HasTotal id req.now t t (with_customer b.customer_id b.customer_name) db (λ s. refl)
        (λ s e. e) h

  pub lines-HasTotal :
      (t : ℕ) (rs : Option (List ResolvedItem)) (db : Shop)
      → HasTotal id t db
      → HasTotal id t (write_lines req id rs db)
  unfolding write_lines delete_items
  lines-HasTotal t none db h = h
  lines-HasTotal t (some rs) db h = record {
    row = h.row;
    found = rw (add_items-sales req id 0 rs (delete_items id db)) h.found;
    is = h.is;
  }

  money-HasTotal :
      (t : ℕ) (asked : Bool) (d : Discounted) (db : Shop)
      → (asked ≡ false → d.total ≡ t)
      → HasTotal id t db
      → HasTotal id d.total (write_money id req.now asked d db)
  unfolding write_money
  money-HasTotal t false d db e h = rw (e refl) h
  money-HasTotal t true d db e h =
      row-HasTotal id req.now t d.total (with_totals d.total d.discount) db (λ s. refl)
        (λ s x. refl) h

  description-HasTotal :
      (t : ℕ) (o : Option Text) (db : Shop)
      → HasTotal id t db
      → HasTotal id t (write_description id req.now o db)
  unfolding write_description
  description-HasTotal t none db h = h
  description-HasTotal t (some x) db h =
      row-HasTotal id req.now t t (with_description (trim_or_null x)) db (λ s. refl) (λ s e. e) h

  pub edit-HasTotal :
      (t : ℕ) (dto : UpdateDto) (b : Option Buyer) (rs : Option (List ResolvedItem))
      (d : Discounted) (db : Shop)
      → ((is_some rs || is_some dto.discount) ≡ false → d.total ≡ t)
      → HasTotal id t db
      → HasTotal id d.total (write_sale req id dto b rs d db)
  unfolding write_sale
  edit-HasTotal t dto b rs d db e h = description-HasTotal d.total dto.description _ (
      money-HasTotal t (is_some rs || is_some dto.discount) d _ e
        (lines-HasTotal t rs _ (buyer-HasTotal t b db h)))
