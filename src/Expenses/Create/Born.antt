-- ===== src/Expenses/Create/Born.antt =====
-- What `create` and `criarParcelado` of back/src/modules/expenses/expenses.service.ts leave of a purchase in
-- instalments.
use orbix_hub.Base.{
  ◌==◌, ℕ, suc, ◌≡◌, refl, ap, sym, subst, ◌∙◌, false, Option, none, some, or_default, List, [],
  ◌∷◌, ◌++◌, length, any, keep, sum_by, map, Text, pure, or_throw, ◌>>=◌, ◌>>◌, arith,
}
use orbix_hub.Base.Triple.{
  Triple, Met, Triple-pure, Triple-throw, Triple-gets, Triple-modify, Triple-throw_if, Triple-bind,
  Triple-given, Triple-transaction, Triple-if,
}
use orbix_hub.Money.{round2, of_cents}
use orbix_hub.Expenses.{ratear_parcelas, datas_das_parcelas}
use orbix_hub.Expenses.Store.{
  Expense, Books, in_installment_group, in_active_group, Expenses, list_installment_group,
  create_many, insert_many, type_error, audit_log, expense_create,
}
use orbix_hub.Expenses.Payment.{number_of}
use orbix_hub.Expenses.Edit.{
  Fornecedor, is_digit, doc_of, normalizar_fornecedor, validar_categoria, sort_by_number,
}
use orbix_hub.Expenses.Create.{
  CreateDto, Contexto, Generated, check_ids, generate, ids_for, grupo_for, linhas, first_of,
  write_parcelas, criar_parcelado,
}
use orbix_hub.Expenses.Single.{create}
use orbix_hub.Expenses.Create.Rows.{numbered-First, Carried, carried, amounts-total}
use orbix_hub.Expenses.Create.Plan.{
  Free, length-generate, count_from, keep-append, keep-unused, create-rows, keep-rows, sort-rows,
}

-- What a creation leaves.
pub record Born (g : Generated) (dto : CreateDto) (db : Books) (primeira : Expense) (t : Books)
    : Type 0 where
  pub rows : List Expense
  pub added : t.expenses ≡ db.expenses ++ rows
  pub alone : list_installment_group (grupo_for g dto) t ≡ rows
  pub first : first_of rows ≡ some primeira
  pub ids : map (λ r. r.id) rows ≡ ids_for g dto
  pub numbers : map number_of rows ≡ count_from 1 dto.parcelas
  pub dates : map (λ r. r.due_date) rows ≡ datas_das_parcelas dto.due_date dto.parcelas
  pub total : sum_by (λ r. r.amount) rows ≡ round2 (or_default dto.amount 0)
  pub same_cash : t.cash ≡ db.cash

module _ (g : Generated) (dto : CreateDto) (db : Books) (n : ℕ) (parts : dto.parcelas ≡ suc n)
    (free : Free (ids_for g dto) db.expenses)
    (new : any (in_installment_group (grupo_for g dto)) db.expenses ≡ false) where
  abbrev Start : Books → Type 0
  Start t = t ≡ db

  check_ids-length :
      Triple Start Start
        (check_ids dto.parcelas dto.installment_ids)
        (λ u t. (length (ids_for g dto) ≡ dto.parcelas) × Start t)
  check_ids-length = by_ids dto.installment_ids
    where
      by_ids :
          (asked : Option (List ℕ))
          → Triple Start Start (check_ids dto.parcelas asked) (λ u t.
            (length (or_default asked (generate dto.parcelas 0 g.parcela)) ≡ dto.parcelas)
            × Start t)
      by_ids none = Triple-pure _ (λ t s. (length-generate dto.parcelas 0 g.parcela, s))
      by_ids (some ids) =
          Triple-bind {Q = λ u t. (length ids ≡ dto.parcelas) × Start t} _ _
            (Triple-throw_if _ _ (λ t s. s) (λ e t s. (ground arith, s)))
            (λ u. Triple-throw_if _ _ (λ t s. s.1) (λ e t s. s))

  module _ (f : Fornecedor) where
    abbrev ctx : Contexto
    ctx = record {
      vencimento = dto.due_date;
      total = round2 (or_default dto.amount 0);
      fornecedor = f;
    }

    -- After the insert.
    abbrev Inserted : Books → Type 0
    Inserted t =
        (t.expenses ≡ db.expenses ++ linhas g dto ctx)
        × (list_installment_group (grupo_for g dto) t ≡ linhas g dto ctx)
        × (t.cash ≡ db.cash)

    inserted :
        (t : Books)
        → Start t
        → Inserted (record t { expenses = create_many (linhas g dto ctx) t.expenses })
    unfolding linhas list_installment_group
    inserted t s =
        let grupo = grupo_for g dto in
        let made =
          create-rows dto f grupo 0 (ids_for g dto)
            (ratear_parcelas (of_cents ctx.total) dto.parcelas)
            (datas_das_parcelas ctx.vencimento dto.parcelas) db.expenses free in
        let here = ap (λ (b : Books). create_many (linhas g dto ctx) b.expenses) s ∙ made in
        (
          here,
          ap (keep (in_active_group grupo)) here
              ∙ keep-append (in_active_group grupo) db.expenses (linhas g dto ctx)
              ∙ rw (keep-unused grupo db.expenses new)
                  (keep-rows dto f grupo 0 (ids_for g dto) _ _),
          ap (λ (b : Books). b.cash) s,
        )

    categoria-Start : Triple Start Start (validar_categoria dto.category_id) (λ u. Start)
    unfolding validar_categoria
    categoria-Start = by_category dto.category_id
      where
        by_category : (c : Option ℕ) → Triple Start Start (validar_categoria c) (λ u. Start)
        by_category none = Triple-pure _ (λ t s. s)
        by_category (some c) =
            Triple-bind {Q = λ b. Start} _ _ (Triple-gets _ (λ t s. s))
              (λ b. Triple-throw_if _ _ (λ t s. s) (λ e t s. s))

    write-Inserted :
        Triple Start Start
          (write_parcelas g dto ctx)
          (λ found t. (found ≡ first_of (linhas g dto ctx)) × Inserted t)
    unfolding write_parcelas insert_many linhas
    write-Inserted =
        Triple-transaction Start _ (λ t s. s)
          (Triple-bind _ _ categoria-Start (λ u.
            Triple-bind {Q = λ u. Inserted} _ _
              (Triple-bind {Q = λ u. Start} _ _ (Triple-throw_if _ _ (λ t s. s) (λ e t s. s))
                (λ v. Triple-modify _ inserted))
              (λ v. Triple-gets _ (λ t i. (
                ap (λ es. first_of (sort_by_number es)) i.1
                    ∙ ap first_of (sort-rows dto f (grupo_for g dto) 0 (ids_for g dto) _ _),
                i,
              )))))

    born :
        (t : Books) (primeira : Expense)
        → Carried g dto ctx
        → Inserted t
        → first_of (linhas g dto ctx) ≡ some primeira
        → Born g dto db primeira t
    born t primeira c i h = record {
      rows = linhas g dto ctx;
      added = i.0;
      alone = i.1;
      first = h;
      ids = c.ids;
      numbers = c.numbers;
      dates = c.dates;
      total = amounts-total g dto ctx n parts c;
      same_cash = i.2;
    }

    finish : Expense → Expenses Expense
    finish primeira = do
      audit_log (expense_create primeira.id ctx.total dto.parcelas)
      pure primeira

    logged :
        (primeira : Expense) (t : Books)
        → Born g dto db primeira t
        → Met Start (Born g dto db) (finish primeira t)
    unfolding finish audit_log ◌>>=◌ list_installment_group
    logged primeira t b = record {
      rows = b.rows;
      added = b.added;
      alone = b.alone;
      first = b.first;
      ids = b.ids;
      numbers = b.numbers;
      dates = b.dates;
      total = b.total;
      same_cash = b.same_cash;
    }

    answer :
        length (ids_for g dto) ≡ dto.parcelas
        → (found : Option Expense) → found ≡ first_of (linhas g dto ctx)
        → Triple Start Inserted (or_throw found type_error >>= finish) (Born g dto db)
    unfolding ◌>>=◌
    answer l found same =
        let c = carried g dto ctx n parts l in
        let first = numbered-First n (linhas g dto ctx) (c.numbers ∙ ap (count_from 1) parts) in
        subst (λ o. Triple Start Inserted (or_throw o type_error >>= finish) (Born g dto db))
          (sym (same ∙ first.is_first))
          (record {
            at = λ t i. logged first.primeira t (born t first.primeira c i first.is_first);
          })

    criar-Born : Triple Start Start (criar_parcelado g dto ctx) (Born g dto db)
    unfolding criar_parcelado finish
    criar-Born =
        Triple-bind {Q = λ u. Start} _ _ (Triple-throw_if _ _ (λ t s. s) (λ e t s. s)) (λ u.
          Triple-bind _ _ check_ids-length (λ v. Triple-given _ (λ l.
            Triple-bind _ _ write-Inserted
              (λ found. Triple-given _ (λ same. answer l found same)))))

  doc-Start : (cru : Text) → Triple Start Start (doc_of cru) (λ d. Start)
  doc-Start [] = Triple-pure _ (λ t s. s)
  doc-Start (c ∷ cs) = Triple-if _ _ _ (Triple-throw _ (λ t s. s)) (Triple-pure _ (λ t s. s))

  creates : dto.recorrencia ≡ none → Triple Start Start (create g dto) (Born g dto db)
  unfolding create normalizar_fornecedor
  creates alone =
      let many : (dto.parcelas == 0) ≡ false = ground arith in
      Triple-bind {Q = λ f. Start} _ _
        (Triple-bind {Q = λ d. Start} _ _
          (doc-Start (keep is_digit (or_default dto.supplier_doc [])))
          (λ d. Triple-pure _ (λ t s. s)))
        (λ f.
          Triple-bind {Q = λ u. Start} _ _ (Triple-throw_if _ _ (λ t s. s) (λ e t s. s))
            (λ u. rw many (criar-Born f)))

-- The creation of a purchase in at least one instalment, without a recurrence, with ids for
-- its rows of which none is taken and none comes twice, and a group that no row has. A refusal
-- changes nothing. After a success the rows of the group stand after those that were there:
-- with the ids asked for or generated, numbered from one, due month by month, adding up to the
-- amount in cents; the first is the answer, and the cash book is as it was.
pub create-Born :
    (g : Generated) (dto : CreateDto) (db : Books) (n : ℕ)
    → dto.parcelas ≡ suc n
    → dto.recorrencia ≡ none
    → Free (ids_for g dto) db.expenses
    → any (in_installment_group (grupo_for g dto)) db.expenses ≡ false
    → Met (λ t. t ≡ db) (Born g dto db) (create g dto db)
create-Born g dto db n parts alone free new = (creates g dto db n parts free new alone).at db refl
