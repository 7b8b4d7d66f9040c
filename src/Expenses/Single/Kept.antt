-- ===== src/Expenses/Single/Kept.antt =====
-- The months of the rules under `create` and `estenderRegra` of back/src/modules/expenses/expenses.service.ts.
use orbix_hub.Base.{
  ℕ, ◌+◌, ◌<◌, ◌≡◌, refl, ◌∙◌, false, Option, none, some, or_default, List, [], ◌∷◌, All, any, keep,
  Text, pure,
}
use orbix_hub.Base.Keeps.{
  Keeps, Keeps-bind, Keeps-pure, Keeps-throw, Keeps-gets, Keeps-or_throw, Keeps-if, Keeps-modify,
  Keeps-throw_if, Keeps-transaction,
}
use orbix_hub.Base.Triple.{
  Triple, Triple-pure, Triple-throw, Triple-gets, Triple-modify, Triple-throw_if, Triple-bind,
  Triple-transaction, Triple-catch, Triple-relax, Triple-Keeps, Keeps-Triple,
}
use orbix_hub.Calendar.{Day}
use orbix_hub.Expenses.{monthly, ratear_parcelas, datas_das_parcelas}
use orbix_hub.Money.{of_cents}
use orbix_hub.Expenses.Store.{
  Expense, Recurrence, Books, Expenses, rule_has_id, create_row, insert_many, create_recurrence,
  AuditEvent, audit_log,
}
use orbix_hub.Expenses.Edit.{Fornecedor, is_digit, doc_of, normalizar_fornecedor, validar_categoria}
use orbix_hub.Expenses.Create.{
  CreateDto, RecurrenceDto, Contexto, Generated, ids_for, grupo_for, check_ids, linha, linhas_from,
  linhas, write_parcelas, criar_parcelado,
}
use orbix_hub.Expenses.Recurrence.{IsRuleMonth}
use orbix_hub.Expenses.Esteira.{last_made, estender_regra}
use orbix_hub.Expenses.Esteira.Months.{IsForeign, create_many-foreign}
use orbix_hub.Expenses.Esteira.Monthly.{
  OncePerMonth, has_same, Keeps-materializar, Keeps-estender_regra,
}
use orbix_hub.Expenses.Single.Fresh.{Fresh, Ready, is_month, with_rule, with_row}
use orbix_hub.Expenses.Single.{
  nova_regra, first_occurrence, criar_regra, conta, seguir, write_conta, create_single, create,
}

abbrev Anything : Books → Type 0
Anything db = Unit {0}

-- The rows of a purchase in instalments.
linhas_from-IsForeign :
    (x : ℕ) (dto : CreateDto) (f : Fornecedor) (group i : ℕ) (ids vs : List ℕ) (ds : List Day)
    → All (IsForeign x) (linhas_from dto f group i ids vs ds)
unfolding linhas_from linha
linhas_from-IsForeign x dto f group i [] vs ds = tt
linhas_from-IsForeign x dto f group i (id ∷ ids) [] ds = tt
linhas_from-IsForeign x dto f group i (id ∷ ids) (v ∷ vs) [] = tt
linhas_from-IsForeign x dto f group i (id ∷ ids) (v ∷ vs) (d ∷ ds) =
    (refl, linhas_from-IsForeign x dto f group (i + 1) ids vs ds)

linhas-IsForeign :
    (x : ℕ) (g : Generated) (dto : CreateDto) (ctx : Contexto)
    → All (IsForeign x) (linhas g dto ctx)
unfolding linhas
linhas-IsForeign x g dto ctx =
    linhas_from-IsForeign x dto ctx.fornecedor (grupo_for g dto) 0 (ids_for g dto)
      (ratear_parcelas (of_cents ctx.total) dto.parcelas)
      (datas_das_parcelas ctx.vencimento dto.parcelas)

Keeps-categoria : (c : Option ℕ) → Keeps OncePerMonth (validar_categoria c)
unfolding validar_categoria
Keeps-categoria none = Keeps-pure _
Keeps-categoria (some c) = Keeps-bind _ _ (Keeps-gets _) (λ b. Keeps-throw_if _ _)

Keeps-doc : (cru : Text) → Keeps OncePerMonth (doc_of cru)
Keeps-doc [] = Keeps-pure _
Keeps-doc (c ∷ cs) = Keeps-if _ _ _ (Keeps-throw _) (Keeps-pure _)

Keeps-log : (e : AuditEvent) → Keeps OncePerMonth (audit_log e)
unfolding audit_log
Keeps-log e = Keeps-modify _ (λ db h. h)

Keeps-check_ids : (n : ℕ) (ids : Option (List ℕ)) → Keeps OncePerMonth (check_ids n ids)
Keeps-check_ids n none = Keeps-pure _
Keeps-check_ids n (some ids) = Keeps-bind _ _ (Keeps-throw_if _ _) (λ u. Keeps-throw_if _ _)

Keeps-write_parcelas :
    (g : Generated) (dto : CreateDto) (ctx : Contexto)
    → Keeps OncePerMonth (write_parcelas g dto ctx)
unfolding write_parcelas insert_many
Keeps-write_parcelas g dto ctx = Keeps-transaction _ (
    Keeps-bind _ _ (Keeps-categoria dto.category_id) (λ u.
      Keeps-bind _ _
        (Keeps-bind _ _ (Keeps-throw_if _ _) (λ v. Keeps-modify _ (λ db h x.
          has_same refl
            (create_many-foreign x (linhas g dto ctx) db.expenses (linhas-IsForeign x g dto ctx))
            (h x))))
        (λ v. Keeps-gets _)))

Keeps-criar_parcelado :
    (g : Generated) (dto : CreateDto) (ctx : Contexto)
    → Keeps OncePerMonth (criar_parcelado g dto ctx)
unfolding criar_parcelado
Keeps-criar_parcelado g dto ctx = Keeps-bind _ _ (Keeps-throw_if _ _) (λ u.
    Keeps-bind _ _ (Keeps-check_ids _ _) (λ v.
      Keeps-bind _ _ (Keeps-write_parcelas g dto ctx) (λ found.
        Keeps-bind _ _ (Keeps-or_throw _ _)
          (λ e. Keeps-bind _ _ (Keeps-log _) (λ w. Keeps-pure _)))))

-- Whatever a refusal leaves: the transaction takes it back.
relaxed :
    {A : Type 0}
    → (m : Expenses A) → Keeps OncePerMonth m
    → Triple Anything OncePerMonth m (λ a. OncePerMonth)
relaxed m k = Triple-relax m (λ s h. tt) (Keeps-Triple m k)

abbrev pub IsRequested : Option RecurrenceDto → Type 0
IsRequested none = Unit
IsRequested (some rec) = IsRuleMonth rec.month_of_year

module _ (g : Generated) (dto : CreateDto) (in_year : dto.due_date.month < 12) where
  create_recurrence-Fresh :
      (r : Recurrence)
      → last_made r ≡ dto.due_date
      → IsRuleMonth r.rule.month_of_year
      → Triple Anything OncePerMonth (create_recurrence r) (λ u. Fresh r.id dto.due_date)
  unfolding create_recurrence
  create_recurrence-Fresh r new month =
      Triple-bind {Q = λ b db. (any (rule_has_id r.id) db.recurrences ≡ b) × OncePerMonth db} _ _
        (Triple-gets _ (λ db h. (refl, h)))
        (λ b.
          Triple-bind
            {Q = λ u db. (any (rule_has_id r.id) db.recurrences ≡ false) × OncePerMonth db} _ _
            (Triple-throw_if b _ (λ db h. tt) (λ e db h. (h.0 ∙ e, h.1)))
            (λ u.
              Triple-bind
                {Q = λ u db. (any (rule_has_id r.id) db.recurrences ≡ false) × OncePerMonth db} _ _
                (Triple-throw_if _ _ (λ db h. tt) (λ e db h. h))
                (λ v.
                  Triple-modify _ (λ db h. with_rule r dto.due_date new month in_year db h.0 h.1))))

  criar_regra-Ready :
      (valor : ℕ) (asked : Option RecurrenceDto)
      → IsRequested asked
      → Triple Anything OncePerMonth (criar_regra g dto valor asked) (λ rid. Ready rid dto.due_date)
  unfolding criar_regra nova_regra pure
  criar_regra-Ready valor none month = Triple-pure _ (λ db h. h)
  criar_regra-Ready valor (some rec) month =
      let r = nova_regra g dto valor rec (or_default rec.frequency monthly) in
      Triple-bind {Q = λ u. OncePerMonth} _ _ (Triple-throw_if _ _ (λ db h. tt) (λ e db h. h)) (λ u.
        Triple-bind {Q = λ u. Fresh r.id dto.due_date} _ _
          (create_recurrence-Fresh r refl (is_month _ rec.month_of_year dto.due_date month in_year))
          (λ v. Triple-pure _ (λ db h. h)))

  create_row-OncePerMonth :
      (rid : Option ℕ) (e : Expense)
      → e.recurrence_id ≡ rid
      → e.occurrence_on ≡ first_occurrence rid dto.due_date
      → Triple Anything (Ready rid dto.due_date) (create_row e) (λ u. OncePerMonth)
  unfolding create_row
  create_row-OncePerMonth rid e own on =
      Triple-bind {Q = λ b. Ready rid dto.due_date} _ _ (Triple-gets _ (λ db h. h)) (λ b.
        Triple-bind {Q = λ u. Ready rid dto.due_date} _ _
          (Triple-throw_if b _ (λ db h. tt) (λ e db h. h))
          (λ u. Triple-modify _ (λ db h. with_row rid e dto.due_date db own on h)))

  Keeps-seguir : (uuid : ℕ → ℕ) (rid : Option ℕ) → Keeps OncePerMonth (seguir uuid rid)
  unfolding seguir pure
  Keeps-seguir uuid none = Keeps-pure _
  Keeps-seguir uuid (some x) = Keeps-materializar uuid x

  Keeps-write_conta :
      (valor : ℕ) (f : Fornecedor)
      → IsRequested dto.recorrencia
      → Keeps OncePerMonth (write_conta g dto valor f)
  unfolding write_conta conta
  Keeps-write_conta valor f month = Triple-Keeps _ (
      Triple-transaction Anything _ (λ db h. h)
        (Triple-bind _ _ (relaxed _ (Keeps-categoria dto.category_id)) (λ u.
          Triple-bind _ _ (criar_regra-Ready valor dto.recorrencia month) (λ rid.
            Triple-bind {Q = λ u. OncePerMonth} _ _
              (Triple-catch {J = Anything} (Ready rid dto.due_date) _ _
                (create_row-OncePerMonth rid (conta g dto valor f rid) refl refl)
                (λ e. Triple-throw _ (λ db h. tt)))
              (λ v.
                Triple-bind _ _ (relaxed _ (Keeps-seguir _ rid))
                  (λ w. Triple-pure _ (λ db h. h)))))))

  Keeps-create : IsRequested dto.recorrencia → Keeps OncePerMonth (create g dto)
  unfolding create create_single normalizar_fornecedor
  Keeps-create month =
      Keeps-bind _ _
        (Keeps-bind _ _ (Keeps-doc (keep is_digit (or_default dto.supplier_doc [])))
          (λ d. Keeps-pure _))
        (λ f. Keeps-bind _ _ (Keeps-throw_if _ _) (λ u.
          Keeps-if _ _ _
            (Keeps-bind _ _ (Keeps-write_conta _ f month)
              (λ e. Keeps-bind _ _ (Keeps-log _) (λ v. Keeps-pure _)))
            (Keeps-criar_parcelado g dto _)))

-- If every rule in the books has at most one expense for a month, each of them up to the month of its last date
-- made, and no expense belongs to a rule that is not there, so it is after the creation of any expense (alone, in
-- instalments or with a rule) and after the extension of any rule, refused or not; the months that are given are
-- those of a year.
pub operations-OncePerMonth :
    (g : Generated) (dto : CreateDto) (uuid : ℕ → ℕ) (regra : ℕ) (db : Books)
    → dto.due_date.month < 12
    → IsRequested dto.recorrencia
    → OncePerMonth db
    → OncePerMonth (create g dto db).1 × OncePerMonth (estender_regra uuid regra db).1
operations-OncePerMonth g dto uuid regra db in_year month h =
    ((Keeps-create g dto in_year month).at db h, (Keeps-estender_regra uuid regra).at db h)
