-- ===== src/Sale/Priced.antt =====
-- The total of a sale follows its lines through every operation of back/src/modules/sale/sale.service.ts.
use orbix_hub.Base.{
  ℕ, ◌+◌, ◌==◌, ◌≡◌, refl, sym, ◌∙◌, Bool, true, false, Bool-cases, inl, inr, Option, none, some,
  or_default, List, [], ◌∷◌, ◌++◌, any, All, if◌then◌else◌, Text, trimmed, ◌>>=◌, arith, ==_iff,
}
use orbix_hub.Base.Keeps.{
  Keeps, Keeps-pure, Keeps-gets, Keeps-or_throw, Keeps-if, Keeps-transaction, Keeps-modify,
  Keeps-throw_if, Keeps-bind, Keeps-then,
}
use orbix_hub.Base.Triple.{Triple-bind, Triple-given, Triple-Keeps, Keeps-Triple}
use orbix_hub.NumeroSequencial.Attempts.{criar-Keeps}
use orbix_hub.Sale.{Discounted}
use orbix_hub.Sale.Store.{
  Sale, Shop, Error, Request, consume, give_back, with_fiado, canceled_row, sale_has_id,
  sale_has_number, create_sale_row, update_sale_row, find_sale_by_id,
}
use orbix_hub.Sale.Untouched.{Untouched, apply_stock-Keeps, audit_log-Keeps}
use orbix_hub.Sale.Reads.{resolve_items-IsResolved, buyer_of-Reads}
use orbix_hub.Sale.Lines.{ResolvedItem, gross, add_items}
use orbix_hub.Sale.Service.{
  CreateDto, Buyer, insert_sale, new_sale, attempt_sale, eh_conflito_de_id, is_unique_violation,
  names_id, discount_for, create_resolved, create_sale, sale_or_throw, declare_fiado, mark_fiado,
  cancel_row, cancel_sale,
}
use orbix_hub.Sale.Worth.{
  Priced, worth, IsResolved, gross-worth, discount_for_lem, find-fresh, find-absent, update-gross,
  add_items-worth, add_items-sales,
}

pub Priced-respects : (s t : Shop) → Untouched s t → Priced s → Priced t
Priced-respects s t u p id = rw (u.same_sales, u.same_items) (p id)

-- A row that is new, or the rows as before.
pub adds_up :
    (own : Bool) {row lines row' lines' new : ℕ} {added : ℕ}
    → row' ≡ (if own then new else row)
    → lines' ≡ lines + (if own then added else 0)
    → row ≡ lines
    → new ≡ added
    → (own ≡ true → lines ≡ 0)
    → row' ≡ lines'
adds_up true a b c d e = let none_of = e refl in omega arith
adds_up false a b c d e = omega arith

insert-Priced :
    (req : Request) (s : Sale) (resolved : List ResolvedItem)
    → s.total + s.discount ≡ worth resolved
    → Keeps Priced (insert_sale req s resolved)
unfolding insert_sale create_sale_row ◌>>=◌
insert-Priced req s resolved e = record {
  at = λ db p. elim (Bool-cases (any (sale_has_id s.id) db.sales)) [
    | inl taken ↦ rw taken p
    | inr fresh ↦ elim (Bool-cases (any (sale_has_number s.number) db.sales)) [
      | inl taken ↦ rw (fresh, taken) p
      | inr free ↦ rw (fresh, free) (inserted db p fresh)
    ]
  ];
}
  where
    inserted :
        (db : Shop)
        → Priced db
        → any (sale_has_id s.id) db.sales ≡ false
        → Priced (add_items req s.id 0 resolved (record db { sales = db.sales ++ (s ∷ []) }))
    inserted db p fresh x =
        let db' : Shop = record db { sales = db.sales ++ (s ∷ []) } in
        let before = p x in
        let none_of = sym (p s.id) ∙ find-absent s.id db.sales fresh in
        let found = find-fresh s x db.sales fresh in
        let rows = add_items-worth x req s.id 0 resolved db' in
        rw (add_items-sales req s.id 0 resolved db')
          (adds_up (s.id == x) found rows before e (λ own. rw ((==_iff s.id x).0 own) at none_of))

attempt-Priced :
    (rivals : ℕ → Shop → Shop) (req : Request) (dto : CreateDto) (buyer : Buyer) (d : Discounted)
    (resolved : List ResolvedItem) (tentativa : ℕ)
    → ((k : ℕ) (db : Shop) → Priced db → Priced (rivals k db))
    → d.total + d.discount ≡ worth resolved
    → Keeps Priced (attempt_sale rivals req dto buyer d resolved tentativa)
unfolding attempt_sale new_sale
attempt-Priced rivals req dto buyer d resolved tentativa honest e =
    Keeps-bind _ _ (Keeps-gets _)
      (λ n. Keeps-then _ _ (Keeps-modify _ (honest tentativa)) (insert-Priced req _ resolved e))

conflito-Priced : (id : Option ℕ) (e : Error) → Keeps Priced (eh_conflito_de_id id e)
unfolding eh_conflito_de_id find_sale_by_id
conflito-Priced none e = Keeps-pure _
conflito-Priced (some id) e =
    Keeps-if (names_id e) _ _ (Keeps-pure _)
      (Keeps-bind _ _ (Keeps-transaction _ (Keeps-gets _)) (λ found. Keeps-pure _))

rest-Priced :
    (rivals : ℕ → Shop → Shop) (req : Request) (dto : CreateDto) (buyer : Buyer)
    (resolved : List ResolvedItem)
    → ((k : ℕ) (db : Shop) → Priced db → Priced (rivals k db))
    → All IsResolved resolved
    → Keeps Priced (create_resolved rivals req dto buyer resolved)
unfolding create_resolved
rest-Priced rivals req dto buyer resolved honest h =
    let d = discount_for (gross resolved) (or_default dto.discount 0) in
    let sums =
      discount_for_lem (gross resolved) (or_default dto.discount 0) ∙ gross-worth resolved h in
    Keeps-bind _ _
      (criar-Keeps Priced is_unique_violation (eh_conflito_de_id dto.id)
        (attempt_sale rivals req dto buyer d resolved) (conflito-Priced dto.id)
        (λ k. attempt-Priced rivals req dto buyer d resolved k honest sums) none)
      (λ s. Keeps-then _ _ (audit_log-Keeps Priced Priced-respects req.user_id _) (
        Keeps-bind _ _ (Keeps-gets _) (λ rows.
          Keeps-bind _ _ (apply_stock-Keeps Priced Priced-respects s.id s.number rows consume)
            (λ w. Keeps-pure _))))

pub create_sale-Priced :
    (rivals : ℕ → Shop → Shop) (req : Request) (dto : CreateDto)
    → ((k : ℕ) (db : Shop) → Priced db → Priced (rivals k db))
    → Keeps Priced (create_sale rivals req dto)
unfolding create_sale
create_sale-Priced rivals req dto honest = Triple-Keeps _ (
    Triple-bind _ _ (buyer_of-Reads Priced dto.customer_id dto.customer_note) (λ buyer.
      Triple-bind _ _ (resolve_items-IsResolved Priced dto.items) (λ resolved.
        Triple-given _ (λ h. Keeps-Triple _ (rest-Priced rivals req dto buyer resolved honest h)))))

pub row-Priced :
    (id now : ℕ) (f : Sale → Sale) (db : Shop)
    → ((s : Sale) → (f s).id ≡ s.id)
    → ((s : Sale) → (f s).total + (f s).discount ≡ s.total + s.discount)
    → Priced db
    → Priced (update_sale_row id now f db)
unfolding update_sale_row
row-Priced id now f db i g p x =
    update-gross x id (λ s. record (f s) { updated_at = now }) db.sales i g ∙ p x

pub found-Priced : (id : ℕ) → Keeps Priced (sale_or_throw id)
unfolding sale_or_throw find_sale_by_id
found-Priced id = Keeps-bind _ _ (Keeps-gets _) (λ found. Keeps-or_throw found _)

pub mark_fiado-Priced : (req : Request) (id : ℕ) → Keeps Priced (mark_fiado req id)
unfolding mark_fiado declare_fiado
mark_fiado-Priced req id =
    Keeps-bind _ _
      (Keeps-transaction _ (
        Keeps-bind _ _ (found-Priced id) (λ found. Keeps-then _ _ (Keeps-throw_if _ _) (
          Keeps-if _ _ _ (Keeps-pure _) (
            Keeps-then _ _
              (Keeps-modify _
                (λ s p. row-Priced id req.now (with_fiado req.now) s (λ x. refl) (λ x. refl) p))
              (Keeps-pure _))))))
      (λ ja_era. Keeps-if ja_era _ _ (Keeps-pure _) (audit_log-Keeps Priced Priced-respects _ _))

pub cancel_sale-Priced :
    (req : Request) (id : ℕ) (reason : Option Text) → Keeps Priced (cancel_sale req id reason)
unfolding cancel_sale cancel_row
cancel_sale-Priced req id reason =
    Keeps-bind _ _
      (Keeps-transaction _ (
        Keeps-bind _ _ (found-Priced id) (λ found. Keeps-then _ _ (Keeps-throw_if _ _) (
          Keeps-then _ _
            (Keeps-modify _ (λ s p.
              row-Priced id req.now (canceled_row req.user_id req.now (trimmed reason)) s
                (λ x. refl) (λ x. refl) p))
            (Keeps-pure _)))))
      (λ s. Keeps-then _ _ (audit_log-Keeps Priced Priced-respects _ _) (
        Keeps-bind _ _ (Keeps-gets _)
          (λ rows. apply_stock-Keeps Priced Priced-respects id s.number rows give_back)))
