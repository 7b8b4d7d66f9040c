-- ===== src/Sale/Store.antt =====
-- The tables of back/src/modules/sale/sale.repository.ts, and beside them what the sale's service reaches
-- by the services of other modules: customers, stock and the cash desk. Amounts are in cents, quantities in
-- thousandths. The number of a sale stands for its text, `VND-` and the number.
use orbix_hub.Base.{
  ℕ, ◌==◌, Bool, false, not, Option, some, List, [], ◌∷◌, ◌++◌, find, any, keep, update_first, max,
  if◌then◌else◌, Text, Exec, ok, err, gets, modify,
}
use orbix_hub.Inventory
use orbix_hub.Inventory.{ItemKind}
use orbix_hub.Cashier

pub data SaleStatus : Type 0 where
  active canceled : SaleStatus

pub data FiscalStatus : Type 0 where
  rejeitada : FiscalStatus
  emitida : Text → FiscalStatus  -- any other value

pub record Sale : Type 0 where
  pub id : ℕ
  pub number : ℕ
  pub customer_id : Option ℕ
  pub customer_name : Option Text
  pub status : SaleStatus
  pub total : ℕ
  pub discount : ℕ
  pub description : Option Text
  pub fiscal_status : Option FiscalStatus
  pub fiado_at : Option ℕ
  pub created_by : ℕ
  pub canceled_by : Option ℕ
  pub canceled_at : Option ℕ
  pub canceled_reason : Option Text
  pub updated_at : ℕ

pub record SaleItemRow : Type 0 where
  pub id : ℕ
  pub sale_id : ℕ
  pub kind : ItemKind
  pub inventory_item_id : Option ℕ
  pub name : Text
  pub quantity : ℕ
  pub unit_price : ℕ
  pub subtotal : ℕ

pub record Customer : Type 0 where
  pub id : ℕ
  pub name : Text

pub data AuditEvent : Type 0 where
  sale_create : (id total discount items : ℕ) → AuditEvent
  sale_update : (id : ℕ) → AuditEvent
  sale_fiado : (id : ℕ) → AuditEvent
  sale_cancel : (id : ℕ) (reason : Option Text) → AuditEvent

pub record AuditRow : Type 0 where
  pub actor : ℕ
  pub event : AuditEvent

pub data Mode : Type 0 where
  consume give_back : Mode

-- A line whose stock did not follow the sale.
pub record StockWarning : Type 0 where
  pub item_id : ℕ
  pub name : Text
  pub message : Inventory.Error

-- `inventory_sale_unapplied`
pub record Notice : Type 0 where
  pub sale_id : ℕ
  pub sale_number : ℕ
  pub falhas : List StockWarning
  pub mode : Mode

pub record Shop : Type 0 where
  pub sales : List Sale
  pub items : List SaleItemRow
  pub customers : List Customer
  pub stock : Inventory.Stock
  pub cash : Cashier.Store.Db
  pub audit : List AuditRow
  pub notices : List Notice

pub data Message : Type 0 where
  cliente_nao_encontrado item_nao_encontrado nome_obrigatorio venda_nao_encontrada : Message
  venda_cancelada venda_ja_cancelada cancelada_nao_vira_fiado venda_tem_nota : Message
  cliente_ja_pagou : (paid total : ℕ) → Message

pub data Error : Type 0 where
  bad_request conflict not_found : Message → Error
  unique_violation : (names_id : Bool) → Error

abbrev pub Selling : Type 0 → Type 0
Selling A = Exec Shop Error A

-- The user, the clock, and what `gen_random_uuid()` answers for the sale and for each of its lines.
pub record Request : Type 0 where
  pub user_id : ℕ
  pub now : ℕ
  pub sale_uuid : ℕ
  pub line_uuid : ℕ → ℕ

abbrev pub sale_has_id : ℕ → Sale → Bool
sale_has_id id s = s.id == id

abbrev pub sale_has_number : ℕ → Sale → Bool
sale_has_number number s = s.number == number

abbrev pub of_sale : ℕ → SaleItemRow → Bool
of_sale id r = r.sale_id == id

-- `findSaleById`, without the lines.
unfoldable pub find_sale_by_id : ℕ → Selling (Option Sale)
find_sale_by_id id = gets (λ db. find (sale_has_id id) db.sales)

unfoldable pub list_items : ℕ → Shop → List SaleItemRow
list_items id db = keep (of_sale id) db.items

max_number : List Sale → ℕ
max_number [] = 0
max_number (s ∷ ss) = max s.number (max_number ss)

unfoldable pub max_sale_number : Shop → ℕ
unfolding max_number
max_sale_number db = max_number db.sales

-- The insert, under the primary key and `uq_sale_tenant_number`.
unfoldable pub create_sale_row : Sale → Selling (Unit {0})
create_sale_row s db =
    if any (sale_has_id s.id) db.sales
    then (err (unique_violation false), db)
    else if any (sale_has_number s.number) db.sales
    then (err (unique_violation false), db)
    else (ok tt, record db { sales = db.sales ++ (s ∷ []) })

unfoldable pub add_item : SaleItemRow → Shop → Shop
add_item r db = record db { items = db.items ++ (r ∷ []) }

unfoldable pub delete_items : ℕ → Shop → Shop
delete_items id db = record db { items = keep (λ r. not (of_sale id r)) db.items }

-- An update of a sale; every one of them stamps `updated_at`.
unfoldable pub update_sale_row : (id now : ℕ) → (Sale → Sale) → Shop → Shop
update_sale_row id now f db = record db {
  sales = update_first (sale_has_id id) (λ s. record (f s) { updated_at = now }) db.sales;
}

abbrev pub canceled_row : (user now : ℕ) → Option Text → Sale → Sale
canceled_row user now reason s = record s {
  status = canceled;
  canceled_at = some now;
  canceled_by = some user;
  canceled_reason = reason;
}

abbrev pub with_description : Option Text → Sale → Sale
with_description d s = record s { description = d }

abbrev pub with_fiado : (at : ℕ) → Sale → Sale
with_fiado at s = record s { fiado_at = some at }

abbrev pub with_totals : (total discount : ℕ) → Sale → Sale
with_totals total discount s = record s { total = total; discount = discount }

abbrev pub with_customer : Option ℕ → Option Text → Sale → Sale
with_customer id name s = record s { customer_id = id; customer_name = name }

unfoldable pub audit_log : ℕ → AuditEvent → Selling (Unit {0})
audit_log actor event =
    modify (λ db. record db { audit = db.audit ++ (record { actor = actor; event = event } ∷ []) })
