-- ===== src/Sale/Reads.antt =====
-- What reading the lines and the customer of a sale gives: nothing is written, and every subtotal is the computed one.
use orbix_hub.Base.{ℕ, refl, Option, none, some, List, [], ◌∷◌, All, Text}
use orbix_hub.Base.Triple.{
  Triple, Triple-pure, Triple-throw, Triple-gets, Triple-or_throw, Triple-bind, Triple-given,
}
use orbix_hub.Inventory.{live}
use orbix_hub.Sale.Store.{Shop}
use orbix_hub.Sale.Lines.{
  ItemDto, ResolvedItem, resolved_item, loose_item, resolve_item, resolve_items,
}
use orbix_hub.Sale.Service.{buyer_of, get_customer}
use orbix_hub.Sale.Edit.{buyer_asked, lines_asked}
use orbix_hub.Sale.Worth.{IsResolved}

-- If lines are asked for, they are resolved.
abbrev pub ResolvedIf : Option (List ResolvedItem) → Type 0
ResolvedIf none = Unit
ResolvedIf (some rs) = All IsResolved rs

module _ (I : Shop → Type 0) where
  loose_item-IsResolved :
      (it : ItemDto) (name : Text) → Triple I I (loose_item it name) (λ r s. IsResolved r × I s)
  unfolding loose_item resolved_item
  loose_item-IsResolved it [] = Triple-throw _ (λ s p. p)
  loose_item-IsResolved it (c ∷ cs) = Triple-pure _ (λ s p. (refl, p))

  resolve_item-IsResolved :
      (it : ItemDto) (id : Option ℕ) → Triple I I (resolve_item it id) (λ r s. IsResolved r × I s)
  unfolding resolve_item resolved_item
  resolve_item-IsResolved it none = loose_item-IsResolved it _
  resolve_item-IsResolved it (some id) = Triple-bind _ _ (Triple-gets _ (λ s p. p)) (λ found.
      Triple-bind _ _ (Triple-or_throw (live found) _ (λ s p. p) (λ a e s p. p))
        (λ item. Triple-pure _ (λ s p. (refl, p))))

  pub resolve_items-IsResolved :
      (its : List ItemDto) → Triple I I (resolve_items its) (λ rs s. All IsResolved rs × I s)
  unfolding resolve_items
  resolve_items-IsResolved [] = Triple-pure _ (λ s p. (tt, p))
  resolve_items-IsResolved (it ∷ its) =
      Triple-bind _ _ (resolve_item-IsResolved it it.inventory_item_id) (λ r. Triple-given _ (λ h.
        Triple-bind _ _ (resolve_items-IsResolved its)
          (λ rs. Triple-pure _ (λ s p. ((h, p.0), p.1)))))

  pub buyer_of-Reads :
      (id : Option ℕ) (apelido : Option Text) → Triple I I (buyer_of id apelido) (λ b. I)
  unfolding buyer_of get_customer
  buyer_of-Reads none apelido = Triple-pure _ (λ s p. p)
  buyer_of-Reads (some id) apelido =
      Triple-bind _ _
        (Triple-bind _ _ (Triple-gets _ (λ s p. p))
          (λ found. Triple-or_throw found _ (λ s p. p) (λ a e s p. p)))
        (λ customer. Triple-pure _ (λ s p. p))

  pub buyer_asked-Reads : (asked : Option (Option ℕ)) → Triple I I (buyer_asked asked) (λ b. I)
  unfolding buyer_asked
  buyer_asked-Reads none = Triple-pure _ (λ s p. p)
  buyer_asked-Reads (some id) =
      Triple-bind _ _ (buyer_of-Reads id none) (λ b. Triple-pure _ (λ s p. p))

  pub lines_asked-Reads :
      (asked : Option (List ItemDto)) → Triple I I (lines_asked asked) (λ rs s. ResolvedIf rs × I s)
  unfolding lines_asked
  lines_asked-Reads none = Triple-pure _ (λ s p. (tt, p))
  lines_asked-Reads (some its) =
      Triple-bind _ _ (resolve_items-IsResolved its) (λ rs. Triple-pure _ (λ s p. p))
