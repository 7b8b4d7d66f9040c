-- ===== src/Os/Deleted.antt =====
-- What a deletion asks for and what it leaves: `deleteOrder` of back/src/modules/os/os.service.ts.
use orbix_hub.Base.{
  ℕ, suc, ◌≡◌, refl, ap, sym, ◌∙◌, ==_refl, true, false, not, Bool-cases, inl, inr, Option, none,
  some, is_some, List, [], ◌∷◌, length, find, keep, map, if◌then◌else◌, ltb, All, Result, ok, err,
  arith,
}
use orbix_hub.Base.Triple.{
  Triple, Met, Triple-pure, Triple-throw, Triple-gets, Triple-or_throw, Triple-modify,
  Triple-throw_if, Triple-bind, Triple-given,
}
use orbix_hub.Inventory
use orbix_hub.Os
use orbix_hub.Os.{OsStatus, LockAnswer, livre, primeiro_impedimento}
use orbix_hub.Os.Workflow.{primeiro_impedimento_iff}
use orbix_hub.Os.Consumption.{OrderLine, stock_line, reconcile_order_stock}
use orbix_hub.Os.Store.{
  ServiceOrder, ItemRow, Workshop, Request, order_has_id, live, order_or_throw, allow, items_of,
  line_of, update_row, with_deleted, audit_log,
}
use orbix_hub.Os.Service.{
  payment_of, open_installments, refuse_locked, check_deletion, stock_lines, give_back,
  delete_order,
}
use orbix_hub.Base.Rows.{map_found}
use orbix_hub.Os.Commands.Rows.{find-update}
use orbix_hub.Inventory.Returned.{IsReturned}
use orbix_hub.Os.Returned.{Returnable, lines-IsReturned}

-- Nothing stands against the deletion of the order.
pub record Deletable (req : Request) (id : ℕ) (o : ServiceOrder) (db : Workshop) : Type 0 where
  pub permitted : req.may_approve ≡ true
  pub there : live (find (order_has_id id) db.orders) ≡ some o
  pub unlocked : All (λ lock. lock ≡ livre) req.locks
  pub unpaid : (payment_of o db.cash).paid ≡ 0
  pub settled : open_installments id db.cash ≡ 0

abbrev pub lines_of : ℕ → Workshop → List OrderLine
lines_of id db = map line_of (items_of id db)

-- What a deletion leaves.
pub record Gone (req : Request) (id : ℕ) (db t : Workshop) : Type 0 where
  pub order : ServiceOrder
  pub allowed : Deletable req id order db
  pub hidden : live (find (order_has_id id) t.orders) ≡ none
  pub same_items : t.items ≡ db.items
  pub same_cash : t.cash ≡ db.cash
  pub returned :
      Returnable db.stock (lines_of id db)
      → All (λ line. IsReturned t.stock line.id (stock_line line)) (lines_of id db)

zero_of : (n : ℕ) → ltb 0 n ≡ false → n ≡ 0
zero_of n h = ground arith

not_zero : (n : ℕ) → ltb 0 (suc n) ≡ false → ⊥
not_zero n h = ground arith

-- No line points to the stock.
none_points :
    (s : Inventory.Stock) (is : List ItemRow)
    → ltb 0 (length (keep (λ i. is_some (stock_line (line_of i))) is)) ≡ false
    → All (λ line. IsReturned s line.id (stock_line line)) (map line_of is)
none_points s [] h = tt
none_points s (i ∷ is) h = elim (Bool-cases (is_some (stock_line (line_of i)))) [
  | inl points ↦ absurd (not_zero _ (rw points at h))
  | inr loose ↦ (none_of (stock_line (line_of i)) loose, none_points s is (rw loose at h))
]
  where
    none_of : (x : Option ℕ) → is_some x ≡ false → IsReturned s i.id x
    none_of none k = tt
    none_of (some y) k = cc

module _ (req : Request) (id : ℕ) (db : Workshop) where
  abbrev Start : Workshop → Type 0
  Start t = t ≡ db

  abbrev Checked : ServiceOrder → Workshop → Type 0
  Checked o t = Deletable req id o db × Start t

  found-Start :
      Triple Start Start
        (order_or_throw id)
        (λ o t. (live (find (order_has_id id) db.orders) ≡ some o) × Start t)
  unfolding order_or_throw
  found-Start =
      Triple-bind {Q = λ f t. (f ≡ find (order_has_id id) db.orders) × Start t} _ _
        (Triple-gets _ (λ t s. (ap (λ (w : Workshop). find (order_has_id id) w.orders) s, s)))
        (λ f. Triple-or_throw (live f) _ (λ t s. s.1) (λ o e t s. (ap live (sym s.0) ∙ e, s.1)))

  allow-Start :
      {A : Type 0} (r : Result Os.Error A)
      → Triple Start Start (allow r) (λ a t. (r ≡ ok a) × Start t)
  unfolding allow
  allow-Start (ok a) = record { at = λ t s. (refl, s) }
  allow-Start (err e) = record { at = λ t s. s }

  refuse_locked-Start :
      (lock : Option ℕ) → Triple Start Start (refuse_locked lock) (λ u t. (lock ≡ none) × Start t)
  refuse_locked-Start none = Triple-pure _ (λ t s. (refl, s))
  refuse_locked-Start (some m) = Triple-throw _ (λ t s. s)

  check_deletion-Checked : Triple Start Start (check_deletion req id) Checked
  unfolding check_deletion
  check_deletion-Checked =
      Triple-bind {Q = λ u t. (not req.may_approve ≡ false) × Start t} _ _
        (Triple-throw_if _ _ (λ t s. s) (λ e t s. (e, s)))
        (λ u. Triple-given _ (λ permitted. Triple-bind _ _ found-Start (λ o.
          Triple-given _ (λ there.
            Triple-bind _ _ (allow-Start (primeiro_impedimento req.locks)) (λ lock.
              Triple-given _ (λ answered. Triple-bind _ _ (refuse_locked-Start lock) (λ v.
                Triple-given _ (λ free.
                  Triple-bind {Q = λ p t. (p ≡ payment_of o db.cash) × Start t} _ _
                    (Triple-gets _ (λ t s. (ap (λ (w : Workshop). payment_of o w.cash) s, s)))
                    (λ payment. Triple-given _ (λ same_payment.
                      Triple-bind {Q = λ w t. (ltb 0 payment.paid ≡ false) × Start t} _ _
                        (Triple-throw_if _ _ (λ t s. s) (λ e t s. (e, s)))
                        (λ w. Triple-given _ (λ paid.
                          Triple-bind {Q = λ n t. (n ≡ open_installments id db.cash) × Start t} _ _
                            (Triple-gets _
                              (λ t s. (ap (λ (w : Workshop). open_installments id w.cash) s, s)))
                            (λ parcelas. Triple-given _ (λ same_parcelas.
                              Triple-bind {Q = λ y t. (ltb 0 parcelas ≡ false) × Start t} _ _
                                (Triple-throw_if _ _ (λ t s. s) (λ e t s. (e, s)))
                                (λ y. Triple-given _ (λ open_. Triple-pure _ (λ t s. (
                                  record {
                                    permitted = ground arith;
                                    there = there;
                                    unlocked =
                                        (primeiro_impedimento_iff req.locks).0
                                          (answered ∙ ap (λ l. ok l) free);
                                    unpaid =
                                        ap (λ q. q.paid) (sym same_payment)
                                        ∙ zero_of payment.paid paid;
                                    settled = sym same_parcelas ∙ zero_of parcelas open_;
                                  },
                                  s,
                                ))))))))))))))))))

  hidden_after :
      live (find (order_has_id id) (update_row id (with_deleted req.now) db).orders) ≡ none
  unfolding update_row
  hidden_after =
      rw (find-update id id (with_deleted req.now) db.orders (λ p. refl), ==_refl id)
        (by_found (find (order_has_id id) db.orders))
    where
      by_found :
          (found : Option ServiceOrder) → live (map_found (with_deleted req.now) found) ≡ none
      by_found none = refl
      by_found (some p) = refl

  returned_by :
      (o : ServiceOrder) (t : Workshop)
      → t ≡ update_row id (with_deleted req.now) db
      → let after =
          if ltb 0 (stock_lines (items_of id db))
          then give_back id o.cycle.status (items_of id db) t
          else t in
        (after.orders ≡ t.orders)
        × (after.items ≡ t.items)
        × (after.cash ≡ t.cash)
        × (Returnable db.stock (lines_of id db)
            → All (λ line. IsReturned after.stock line.id (stock_line line)) (lines_of id db))
  unfolding stock_lines give_back reconcile_order_stock update_row
  returned_by o t h = elim (Bool-cases (ltb 0 (stock_lines (items_of id db)))) [
    | inl some_lines ↦ rw some_lines (
      refl,
      refl,
      refl,
      λ r. rw (ap (λ (w : Workshop). w.stock) h) (lines-IsReturned id (lines_of id db) db.stock r),
    )
    | inr no_lines ↦
        rw no_lines (refl, refl, refl, λ r. none_points t.stock (items_of id db) no_lines)
  ]

  delete-Gone : Triple Start Start (delete_order req id) (λ u t. Gone req id db t)
  unfolding delete_order update_row audit_log
  delete-Gone = Triple-bind _ _ check_deletion-Checked (λ o. Triple-given _ (λ may.
      Triple-bind {Q = λ is t. (is ≡ items_of id db) × Start t} _ _
        (Triple-gets _ (λ t s. (ap (items_of id) s, s)))
        (λ is. Triple-given _ (λ same.
          Triple-bind {Q = λ u t. t ≡ update_row id (with_deleted req.now) db} _ _
            (Triple-modify _ (λ t s. ap (update_row id (with_deleted req.now)) s))
            (λ u.
              Triple-bind {Q = λ u t. Gone req id db t} _ _
                (Triple-modify _ (λ t s. gone_after o may is same t s))
                (λ v. Triple-modify _ (λ t g. record {
                  order = g.order;
                  allowed = g.allowed;
                  hidden = g.hidden;
                  same_items = g.same_items;
                  same_cash = g.same_cash;
                  returned = g.returned;
                })))))))
    where
      gone_after :
          (o : ServiceOrder)
          → Deletable req id o db
          → (is : List ItemRow) → is ≡ items_of id db
          → (t : Workshop) → t ≡ update_row id (with_deleted req.now) db
          → Gone req id db (if ltb 0 (stock_lines is) then give_back id o.cycle.status is t else t)
      gone_after o may is same t s =
          let after = returned_by o t s in
          rw same (record {
            order = o;
            allowed = may;
            hidden =
                ap (λ os. live (find (order_has_id id) os))
                  (after.0 ∙ ap (λ (w : Workshop). w.orders) s)
                ∙ hidden_after;
            same_items = after.1 ∙ ap (λ (w : Workshop). w.items) s;
            same_cash = after.2 ∙ ap (λ (w : Workshop). w.cash) s;
            returned = after.3;
          })

-- A deletion that is refused changes nothing. One that succeeds was asked by somebody with the
-- permission, of an order that was there, for which every lock of the other modules answered
-- that it is free, of which the cash book has settled nothing and no instalment is open; the
-- order is then found no more, its items and the cash book are as they were, and each of its
-- lines that points to a product of the stock, in the catalogue or deleted from it, has been
-- given back entirely, if these products had no negative balance and no line a negative
-- consumption.
pub delete_order-Gone :
    (req : Request) (id : ℕ) (db : Workshop)
    → Met (λ t. t ≡ db) (λ u t. Gone req id db t) (delete_order req id db)
delete_order-Gone req id db = (delete-Gone req id db).at db refl
