-- ===== src/Expenses/Edit/Redistributed.antt =====
-- The whole edit of an instalment: `update` and `redistribuirParcelamento` of
-- back/src/modules/expenses/expenses.service.ts.
use orbix_hub.Base.{
  ℕ, ◌-◌, ◌≡◌, refl, ap, sym, subst, ◌∙◌, ◌==◌, ==_refl, ==_iff, true, false, ◌&&◌, Bool-cases, inl,
  inr, Option, none, some, or_default, List, [], ◌∷◌, length, find, keep, ltb, leb, Text,
}
use orbix_hub.Base.Triple.{
  Triple, Met, Triple-pure, Triple-throw, Triple-gets, Triple-or_throw, Triple-modify,
  Triple-throw_if, Triple-bind, Triple-given, Triple-transaction, Triple-if,
}
use orbix_hub.Money.{round2, of_cents}
use orbix_hub.Expenses.{ratear_parcelas}
use orbix_hub.Expenses.Store.{
  Expense, Books, expense_has_id, in_active_group, is_active, list_installment_group, update,
  audit_log, find_by_id,
}
use orbix_hub.Expenses.Purchase.{Distinct}
use orbix_hub.Expenses.Bin.{is_paid, expense_or_throw}
use orbix_hub.Expenses.Edit.{
  UpdateDto, Fornecedor, abertas_of, comprometido_of, write_values, patched,
  redistribuir_parcelamento, redistribuir_total, redistribuir_de, redistribuir_grupo, edit_expense,
  update_expense, validar_categoria, normalizar_fornecedor, doc_of, is_digit,
}
use orbix_hub.Expenses.Edit.Rows.{total_of}
use orbix_hub.Expenses.Edit.Total.{written, new_total}

module _ (db : Books) where
  abbrev Start : Books → Type 0
  Start t = t ≡ db

  -- A transaction undoes whatever was written.
  abbrev Whatever : Books → Type 0
  Whatever t = Unit

  any_state : (t : Books) → Start t → Whatever t
  any_state t p = tt

  found-Start :
      (id : ℕ) (atual : Expense)
      → find (expense_has_id id) db.expenses ≡ some atual
      → Triple Whatever Start (expense_or_throw id) (λ a t. (a ≡ atual) × Start t)
  unfolding expense_or_throw find_by_id
  found-Start id atual f =
      Triple-bind _ _
        (Triple-gets {Q = λ o t. (o ≡ find (expense_has_id id) db.expenses) × Start t} _
          (λ t p. (ap (λ (b : Books). find (expense_has_id id) b.expenses) p, p)))
        (λ o. Triple-or_throw o _ (λ t p. tt) (λ a e t p. (first a (sym e ∙ p.0 ∙ f), p.1)))
    where
      first : (a : Expense) → some a ≡ some atual → a ≡ atual
      first a g = cc

  category-Start : (c : Option ℕ) → Triple Whatever Start (validar_categoria c) (λ u. Start)
  unfolding validar_categoria
  category-Start none = Triple-pure _ (λ t p. p)
  category-Start (some c) =
      Triple-bind {Q = λ b. Start} _ _ (Triple-gets _ (λ t p. p))
        (λ known. Triple-throw_if _ _ any_state (λ e t p. p))

  doc-Start : (cru : Text) → Triple Whatever Start (doc_of cru) (λ d. Start)
  doc-Start [] = Triple-pure _ (λ t p. p)
  doc-Start (c ∷ cs) = Triple-if _ _ _ (Triple-throw _ any_state) (Triple-pure _ (λ t p. p))

  supplier-Start :
      (name doc : Option Text) → Triple Whatever Start (normalizar_fornecedor name doc) (λ f. Start)
  unfolding normalizar_fornecedor
  supplier-Start name doc =
      Triple-bind {Q = λ d. Start} _ _ (doc-Start (keep is_digit (or_default doc [])))
        (λ cru. Triple-pure _ (λ t p. p))

  module _ (group : ℕ) (atual : Expense) (total : ℕ) where
    abbrev grupo : List Expense
    grupo = keep (in_active_group group) db.expenses

    abbrev loop : List Expense → ℕ × List Expense
    loop es =
        write_values atual.id (abertas_of grupo)
          (ratear_parcelas (of_cents (total - comprometido_of grupo)) (length (abertas_of grupo)))
          (total, es)

    -- The loop has run, and the guard let it.
    record Spread (meu : Option ℕ) (t : Books) : Type 0 where
      guarded : (ltb 0 (length (abertas_of grupo)) && leb total (comprometido_of grupo)) ≡ false
      value : meu ≡ some (written group atual db.expenses total).0
      rows : t.expenses ≡ (written group atual db.expenses total).1

    redistribuir_grupo-Spread :
        Triple Whatever Start
          (redistribuir_grupo atual.id total grupo)
          (λ meu t. Spread (some meu) t)
    redistribuir_grupo-Spread =
        Triple-bind
          {Q = λ u t.
            ((ltb 0 (length (abertas_of grupo)) && leb total (comprometido_of grupo)) ≡ false)
            × Start t}
          _ _ (Triple-throw_if _ _ any_state (λ e t p. (e, p)))
          (λ u. Triple-given _ (λ guard.
            Triple-bind {Q = λ meu t. (meu ≡ (written group atual db.expenses total).0) × Start t} _
              _ (Triple-gets _ (λ t p. (ap (λ (b : Books). (loop b.expenses).0) p, p)))
              (λ meu. Triple-given _ (λ value.
                Triple-bind {Q = λ v t. t.expenses ≡ (written group atual db.expenses total).1} _ _
                  (Triple-modify _ (λ t p. ap (λ (b : Books). (loop b.expenses).1) p))
                  (λ v. Triple-pure _ (λ t p. record {
                    guarded = guard;
                    value = ap (λ n. some n) value;
                    rows = p;
                  }))))))

    redistribuir_de-Spread :
        atual.installment_group_id ≡ some group
        → Triple Whatever Start
            (redistribuir_de atual total atual.installment_group_id)
            (λ meu t. Spread (some meu) t)
    unfolding list_installment_group
    redistribuir_de-Spread g =
        subst
          (λ o.
            Triple Whatever Start (redistribuir_de atual total o) (λ meu t. Spread (some meu) t))
          (sym g)
          (Triple-bind {Q = λ rows t. (rows ≡ grupo) × Start t} _ _
            (Triple-gets _ (λ t p. (ap (list_installment_group group) p, p)))
            (λ rows. Triple-given _ (λ same.
              subst
                (λ r.
                  Triple Whatever Start (redistribuir_grupo atual.id total r)
                    (λ meu t. Spread (some meu) t))
                (sym same) redistribuir_grupo-Spread)))

module _ (id group novo_total : ℕ) (dto : UpdateDto) (db : Books) (atual : Expense)
    (asked : dto.amount ≡ some novo_total) (d : Distinct db.expenses)
    (found : find (expense_has_id id) db.expenses ≡ some atual)
    (g : atual.installment_group_id ≡ some group) (in_use : is_active atual.status ≡ true) where
  abbrev Redistributed : Books → Type 0
  Redistributed t = total_of (in_active_group group) t.expenses ≡ round2 novo_total

  redistribuir_parcelamento-Spread :
      Triple
        (Whatever db)
        (Start db)
        (redistribuir_parcelamento atual dto.amount)
        (λ meu t. Spread db group atual (round2 novo_total) meu t)
  unfolding redistribuir_parcelamento
  redistribuir_parcelamento-Spread =
      subst
        (λ o.
          Triple (Whatever db) (Start db) (redistribuir_total atual o)
            (λ meu t. Spread db group atual (round2 novo_total) meu t))
        (sym asked)
        (Triple-bind _ _ (redistribuir_de-Spread db group atual (round2 novo_total) g)
          (λ meu. Triple-pure _ (λ t p. p)))

  own_id : (es : List Expense) → find (expense_has_id id) es ≡ some atual → atual.id ≡ id
  own_id [] f = cc
  own_id (e ∷ es) f = elim (Bool-cases (e.id == id)) [
    | inl own ↦
        let h : some e ≡ some atual = rw own at f in
        let row : e ≡ atual = cc in ap (λ (x : Expense). x.id) (sym row) ∙ (==_iff e.id id).0 own
    | inr other ↦ own_id es (rw other at f)
  ]

  last_write :
      (fornecedor : Fornecedor) (meu : Option ℕ) (t : Books)
      → is_paid atual ≡ false
      → Spread db group atual (round2 novo_total) meu t
      → Redistributed (record t { expenses = update id (patched dto fornecedor meu) t.expenses })
  unfolding patched
  last_write fornecedor meu t unpaid s =
      let same = own_id db.expenses found in
      let there : find (expense_has_id atual.id) db.expenses ≡ some atual =
        ap (λ n. find (expense_has_id n) db.expenses) same ∙ found in
      let own : in_active_group group atual ≡ true = rw (g, in_use, ==_refl group) refl in
      let written_total =
        new_total group atual db.expenses (round2 novo_total) (patched dto fornecedor meu) d there
          own unpaid s.guarded own (ap (λ m. or_default m atual.amount) s.value) in
      ap (λ n. total_of (in_active_group group) (update n (patched dto fornecedor meu) t.expenses))
        (sym same)
      ∙ ap (λ r. total_of (in_active_group group) (update atual.id (patched dto fornecedor meu) r))
          s.rows
      ∙ written_total

  edits : Triple (Start db) (Start db) (edit_expense id dto) (λ u. Redistributed)
  unfolding edit_expense
  edits =
      Triple-transaction (Whatever db) _ (λ t p. p)
        (Triple-bind _ _ (found-Start db id atual found) (λ a. Triple-given _ (λ row.
          Triple-bind {Q = λ u t. (is_paid a ≡ false) × Start db t} _ _
            (Triple-throw_if _ _ (any_state db) (λ e t p. (e, p)))
            (λ u. Triple-given _ (λ unpaid.
              Triple-bind _ _ (category-Start db dto.category_id) (λ v.
                Triple-bind _ _ (supplier-Start db dto.supplier_name dto.supplier_doc)
                  (λ fornecedor.
                    Triple-bind {Q = λ meu t. Spread db group atual (round2 novo_total) meu t} _ _
                      (subst
                        (λ r.
                          Triple (Whatever db) (Start db) (redistribuir_parcelamento r dto.amount)
                            (λ meu t. Spread db group atual (round2 novo_total) meu t))
                        (sym row) redistribuir_parcelamento-Spread)
                      (λ meu. Triple-modify _ (λ t s.
                        last_write fornecedor meu t (ap is_paid (sym row) ∙ unpaid) s)))))))))

  -- The amount of an instalment in use is edited, ids being distinct: a refusal changes nothing; after a
  -- success the instalments in use of its purchase add up to the new amount in cents.
  pub update_expense-Redistributed :
      Met (λ t. t ≡ db) (λ u t. Redistributed t) (update_expense id dto db)
  unfolding update_expense audit_log
  update_expense-Redistributed =
      (Triple-bind {Q = λ u. Redistributed} _ _ edits (λ u. Triple-modify _ (λ t r. r))).at db refl
