-- ===== src/Cashier/Entries.antt =====
-- The entries of the cash book: `createEntry` of
-- back/src/modules/cashier/cashier.service.impl.ts with its helpers `hasPermission`, `resolveSale` and
-- `aprovarDesconto`. A posted amount is in thousandths of a real.
use orbix_hub.Base.{
  ℕ, ◌+◌, ◌-◌, ◌==◌, Bool, true, false, not, ◌&&◌, Option, none, some, or_default, any,
  if◌then◌else◌, Text, trimmed, pos, pure, throw, throw_if, transaction, catch, gets, ◌>>=◌, ◌>>◌,
  ltb,
}
use orbix_hub.Money.{of_cents, round2}
use orbix_hub.Cashier.Config.{
  PaymentMethod, EntryCategory, os_payment, venda_avulsa, despesa, sangria, suprimento, SaleKind,
  os, sale, direction_for_category, CashierConfig,
}
use orbix_hub.Cashier.Discount.{sem_teto, granted, refused, ResultadoDesconto, validar_desconto}
use orbix_hub.Cashier.Store.{
  CashSession, CashEntry, Cashier, Request, Error, bad_request, conflict, forbidden,
  unique_violation, Permission, cashier_manage, cashier_discount, Grant, nao_ha_caixa_aberto,
  id_duplicado, gestao_exige_permissao, desconto_sem_documento, os_exige_vinculo, desconto_recusado,
  entry_create, discount_grant, get_config, find_open_session, create_session, create_entry_row,
  sum_settled_for_sale, audit_log, Settled,
}

abbrev permission_code : Permission → ℕ
permission_code cashier_manage = 0
permission_code cashier_discount = 1

abbrev pub grants_it : ℕ → Permission → Grant → Bool
grants_it role p g = g.role == role && permission_code g.permission == permission_code p

-- `hasPermission`
unfoldable pub has_permission : ℕ → Permission → Cashier Bool
has_permission role p = gets (λ db. any (grants_it role p) db.grants)

pub record SaleLink : Type 0 where
  pub sale_kind : Option SaleKind
  pub sale_id : Option ℕ

abbrev pub no_link : SaleLink
no_link = record { sale_kind = none; sale_id = none }

-- `resolveSale`
unfoldable pub resolve_sale : EntryCategory → Option SaleKind → Option ℕ → Cashier SaleLink
resolve_sale os_payment (some os) (some id) =
    pure (record { sale_kind = some os; sale_id = some id })
resolve_sale os_payment kind id = throw (bad_request os_exige_vinculo)
resolve_sale venda_avulsa kind (some id) =
    pure (record { sale_kind = some (or_default kind sale); sale_id = some id })
resolve_sale _ kind id = pure no_link

pub record CreateEntryDto : Type 0 where
  pub id : Option ℕ
  pub amount : ℕ
  pub discount : Option ℕ
  pub discount_reason : Option Text
  pub sale_total : Option ℕ
  pub method : PaymentMethod
  pub category : EntryCategory
  pub sale_kind : Option SaleKind
  pub sale_id : Option ℕ
  pub description : Option Text
  pub device_id : Option ℕ

-- `despesa`, `sangria` and `suprimento` are for the management.
abbrev pub is_adjustment : EntryCategory → Bool
is_adjustment despesa = true
is_adjustment sangria = true
is_adjustment suprimento = true
is_adjustment _ = false

unfoldable pub settle_discount : ResultadoDesconto → Cashier ℕ
settle_discount (granted d) = pure d
settle_discount (refused m) = throw (forbidden (desconto_recusado m))

-- `aprovarDesconto`; the balance in cents, the rest in thousandths, the answer in cents.
unfoldable pub aprovar_desconto : (role desconto saldo amount : ℕ) → Cashier ℕ
unfolding settle_discount has_permission validar_desconto
aprovar_desconto role desconto saldo amount = if desconto == 0 then pure 0 else do
  pode ← has_permission role cashier_discount
  settle_discount (
      validar_desconto (record {
        desconto = pos desconto;
        saldo = of_cents saldo;
        amount = amount;
        pode_conceder = pode;
        teto = sem_teto;
      }))

-- The balance that the discount may not exceed, in cents.
abbrev pub saldo_em_aberto : (sale_total : Option ℕ) (amount discount : ℕ) → Settled → ℕ
saldo_em_aberto none amount discount somas = round2 (amount + discount)
saldo_em_aberto (some total) amount discount somas =
    if total == 0
    then round2 (amount + discount)
    else round2 total - (somas.recebido + somas.desconto)

unfoldable pub approve_on : Request → CreateEntryDto → (discount : ℕ) → Option ℕ → Cashier ℕ
unfolding aprovar_desconto sum_settled_for_sale round2
approve_on req dto discount none = throw (bad_request desconto_sem_documento)
approve_on req dto discount (some sale_id) = do
  somas ← gets (sum_settled_for_sale sale_id)
  aprovar_desconto req.role discount (saldo_em_aberto dto.sale_total dto.amount discount somas)
      dto.amount

-- `if (dto.discount) { … }`
unfoldable pub approve_for_document : Request → CreateEntryDto → Option ℕ → Cashier ℕ
unfolding approve_on
approve_for_document req dto sale_id =
    let discount = or_default dto.discount 0 in
    if discount == 0 then pure 0 else approve_on req dto discount sale_id

-- The open session of the device, or an implicit one unless the configuration wants a ceremony.
unfoldable pub session_or_implicit :
    Request → CashierConfig → Option ℕ → Option CashSession → Cashier CashSession
unfolding create_session
session_or_implicit req config device (some s) = pure s
session_or_implicit req config device none =
    throw_if config.require_open_session (bad_request nao_ha_caixa_aberto)
    >> create_session req.session_uuid req.user_id 0 none device

unfoldable pub ensure_session : Request → CashierConfig → Option ℕ → Cashier CashSession
unfolding session_or_implicit find_open_session
ensure_session req config device = do
  found ← find_open_session device
  session_or_implicit req config device found

-- P2002 with an id from the client can only be the repeated id.
unfoldable pub explain_duplicate : Option ℕ → Error → Cashier CashEntry
explain_duplicate (some id) (unique_violation names_id) = throw (conflict id_duplicado)
explain_duplicate id e = throw e

abbrev pub row_of : Request → CreateEntryDto → SaleLink → (desconto : ℕ) → CashSession → CashEntry
row_of req dto link desconto s = record {
  id = or_default dto.id req.entry_uuid;
  cash_session_id = s.id;
  direction = direction_for_category dto.category;
  amount = round2 dto.amount;
  method = dto.method;
  category = dto.category;
  sale_kind = link.sale_kind;
  sale_id = link.sale_id;
  description = trimmed dto.description;
  discount = desconto;
  discount_reason = if desconto == 0 then none else trimmed dto.discount_reason;
  created_by = req.user_id;
  reversed_at = none;
  reversed_by = none;
  reversal_reason = none;
}

-- The discount has an audit event of its own, written only when there is one.
unfoldable pub audit_discount : Request → (target desconto : ℕ) → Option Text → Cashier (Unit {0})
unfolding audit_log
audit_discount req target desconto reason =
    if ltb 0 desconto
    then audit_log req.user_id (discount_grant target desconto (trimmed reason))
    else pure tt

unfoldable pub create_entry : Request → CreateEntryDto → Cashier CashEntry
unfolding has_permission resolve_sale get_config approve_for_document ensure_session
    create_entry_row explain_duplicate audit_log audit_discount round2 direction_for_category
create_entry req dto = do
  manages ← has_permission req.role cashier_manage
  throw_if (is_adjustment dto.category && not manages) (forbidden gestao_exige_permissao)
  link ← resolve_sale dto.category dto.sale_kind dto.sale_id
  config ← get_config
  desconto ← approve_for_document req dto link.sale_id
  entry ← transaction do
    s ← ensure_session req config dto.device_id
    catch (create_entry_row (row_of req dto link desconto s)) (explain_duplicate dto.id)
  audit_log req.user_id (
      entry_create entry.id dto.category (direction_for_category dto.category) entry.amount
        link.sale_kind link.sale_id)
  audit_discount req entry.id desconto dto.discount_reason
  pure entry
