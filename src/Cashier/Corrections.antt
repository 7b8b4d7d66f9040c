-- ===== src/Cashier/Corrections.antt =====
-- What happens to an entry after it was made: `updateEntry`, `reverseEntry`, `correctEntry`, and the
-- port of the expenses module, `registrarSaidaDeDespesa` and `estornarSaidaDeDespesa`, of
-- back/src/modules/cashier/cashier.service.impl.ts.
use orbix_hub.Base.{
  ℕ, Bool, true, false, not, Option, none, some, is_some, or_default, or_else, [], ◌∷◌, any,
  update_first, if◌then◌else◌, Text, trim, trim_or_null, pure, throw_if, or_throw, transaction,
  catch, modify, ◌>>=◌, ◌>>◌,
}
use orbix_hub.Money.{of_cents, round2}
use orbix_hub.Cashier.Config.{
  PaymentMethod, EntryCategory, despesa, expense, direction_for_category, CashierConfig, Label,
  known, unknown,
}
use orbix_hub.Cashier.Totals.{same_method, same_direction}
use orbix_hub.Cashier.Store.{
  CashEntry, Db, Cashier, Request, bad_request, conflict, not_found, lancamento_nao_encontrado,
  lancamento_estornado, lancamento_ja_estornado, troca_inverte_direcao, forma_nao_aceita,
  entry_create, entry_update, entry_correct, entry_reverse, get_config, entry_has_id,
  find_entry_by_id, create_entry_row, mark_reversed, audit_log,
}
use orbix_hub.Cashier.Entries.{CreateEntryDto, create_entry, ensure_session, explain_duplicate}

pub record UpdateEntryDto : Type 0 where
  pub description : Option Text
  pub category : Option EntryCategory

-- A given category that inverts the direction is refused.
abbrev pub inverts : EntryCategory → Option EntryCategory → Bool
inverts current none = false
inverts current (some c) =
    not (same_direction (direction_for_category c) (direction_for_category current))

abbrev pub edit_row : UpdateEntryDto → CashEntry → CashEntry
edit_row dto e = record e {
  description = edited_text dto.description;
  category = or_default dto.category e.category;
}
  where
    edited_text : Option Text → Option Text
    edited_text none = e.description
    edited_text (some t) = trim_or_null t

unfoldable pub write_edit : ℕ → UpdateEntryDto → Db → Db
unfolding trim_or_null
write_edit id dto db = record db {
  entries = update_first (entry_has_id id) (edit_row dto) db.entries;
}

-- The transaction of `updateEntry`, once the entry was looked up.
unfoldable pub edit_found : ℕ → UpdateEntryDto → Option CashEntry → Cashier CashEntry
unfolding write_edit direction_for_category
edit_found id dto found = do
  existing ← or_throw found (not_found lancamento_nao_encontrado)
  throw_if (is_some existing.reversed_at) (conflict lancamento_estornado)
  throw_if (inverts existing.category dto.category) (bad_request troca_inverte_direcao)
  modify (write_edit id dto)
  pure (edit_row dto existing)

unfoldable pub update_entry : Request → ℕ → UpdateEntryDto → Cashier CashEntry
unfolding find_entry_by_id edit_found audit_log
update_entry req id dto = do
  entry ← transaction do found ← find_entry_by_id id; edit_found id dto found
  audit_log req.user_id (entry_update id)
  pure entry

-- The transaction of `reverseEntry`, once the entry was looked up.
unfoldable pub reverse_found : Request → ℕ → Text → Option CashEntry → Cashier (Unit {0})
unfolding mark_reversed trim
reverse_found req id reason found = do
  existing ← or_throw found (not_found lancamento_nao_encontrado)
  throw_if (is_some existing.reversed_at) (conflict lancamento_ja_estornado)
  modify (mark_reversed id req.now req.user_id (trim reason))

unfoldable pub reverse_entry : Request → ℕ → Text → Cashier (Unit {0})
unfolding find_entry_by_id reverse_found audit_log trim
reverse_entry req id reason = do
  transaction do found ← find_entry_by_id id; reverse_found req id reason found
  audit_log req.user_id (entry_reverse id (trim reason))

pub record CorrectEntryDto : Type 0 where
  pub reason : Text
  pub amount : Option ℕ
  pub discount : Option ℕ
  pub discount_reason : Option Text
  pub method : Option PaymentMethod
  pub category : Option EntryCategory
  pub description : Option Text
  pub new_id : Option ℕ

-- Missing fields are inherited from the original; the new entry has no device and no total.
abbrev pub corrected : CashEntry → CorrectEntryDto → CreateEntryDto
corrected original dto = record {
  id = dto.new_id;
  amount = or_default dto.amount (of_cents original.amount);
  discount = some (or_default dto.discount (of_cents original.discount));
  discount_reason = or_else dto.discount_reason original.discount_reason;
  sale_total = none;
  method = or_default dto.method original.method;
  category = or_default dto.category original.category;
  sale_kind = original.sale_kind;
  sale_id = original.sale_id;
  description = or_else dto.description original.description;
  device_id = none;
}

-- The reversal is committed before the new entry is tried.
unfoldable pub correct_entry : Request → ℕ → CorrectEntryDto → Cashier CashEntry
unfolding find_entry_by_id reverse_entry create_entry audit_log
correct_entry req id dto = do
  found ← transaction (find_entry_by_id id)
  original ← or_throw found (not_found lancamento_nao_encontrado)
  throw_if (is_some original.reversed_at) (conflict lancamento_ja_estornado)
  reverse_entry req id dto.reason
  novo ← create_entry req (corrected original dto)
  audit_log req.user_id
      (entry_correct novo.id id original.amount novo.amount original.discount novo.discount)
  pure novo

pub record SaidaDeDespesa : Type 0 where
  pub amount : ℕ
  pub method : Label
  pub description : Text
  pub device_id : Option ℕ
  pub entry_id : Option ℕ
  pub origin_id : Option ℕ

-- `config.paymentMethods.includes(method)`
abbrev pub accepted : CashierConfig → Label → Option PaymentMethod
accepted config unknown = none
accepted config (known m) = if any (same_method m) config.payment_methods then some m else none

abbrev pub expense_row : Request → SaidaDeDespesa → PaymentMethod → (session : ℕ) → CashEntry
expense_row req input method session = record {
  id = or_default input.entry_id req.entry_uuid;
  cash_session_id = session;
  direction = direction_for_category despesa;
  amount = round2 input.amount;
  method = method;
  category = despesa;
  sale_kind = if is_some input.origin_id then some expense else none;
  sale_id = input.origin_id;
  description = trim_or_null input.description;
  discount = 0;
  discount_reason = none;
  created_by = req.user_id;
  reversed_at = none;
  reversed_by = none;
  reversal_reason = none;
}

unfoldable pub registrar_saida_de_despesa : Request → SaidaDeDespesa → Cashier ℕ
unfolding get_config ensure_session create_entry_row explain_duplicate audit_log round2 trim_or_null
    direction_for_category
registrar_saida_de_despesa req input = do
  config ← get_config
  method ← or_throw (accepted config input.method) (bad_request forma_nao_aceita)
  entry ← transaction do
    s ← ensure_session req config input.device_id
    catch (create_entry_row (expense_row req input method s.id)) (explain_duplicate input.entry_id)
  audit_log req.user_id
      (entry_create entry.id despesa (direction_for_category despesa) entry.amount none none)
  pure entry.id

-- "Pagamento da despesa desfeito"
abbrev pub pagamento_desfeito : Text
pagamento_desfeito =
    80 ∷ 97 ∷ 103 ∷ 97 ∷ 109 ∷ 101 ∷ 110 ∷ 116 ∷ 111 ∷ 32 ∷ 100 ∷ 97 ∷ 32 ∷ 100 ∷ 101 ∷ 115 ∷ 112
    ∷ 101 ∷ 115 ∷ 97 ∷ 32 ∷ 100 ∷ 101 ∷ 115 ∷ 102 ∷ 101 ∷ 105 ∷ 116 ∷ 111 ∷ []

-- A missing or reversed entry is left alone, in silence.
unfoldable pub undo_found : Request → ℕ → Option CashEntry → Cashier Bool
unfolding mark_reversed
undo_found req id none = pure false
undo_found req id (some e) =
    if is_some e.reversed_at
    then pure false
    else modify (mark_reversed id req.now req.user_id pagamento_desfeito) >> pure true

unfoldable pub audit_undo : Request → ℕ → Bool → Cashier (Unit {0})
unfolding audit_log
audit_undo req id true = audit_log req.user_id (entry_reverse id pagamento_desfeito)
audit_undo req id false = pure tt

unfoldable pub estornar_saida_de_despesa : Request → ℕ → Cashier (Unit {0})
unfolding find_entry_by_id undo_found audit_undo
estornar_saida_de_despesa req id = do
  done ← transaction do found ← find_entry_by_id id; undo_found req id found
  audit_undo req id done
