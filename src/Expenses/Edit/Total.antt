-- ===== src/Expenses/Edit/Total.antt =====
-- The total of a purchase after an edit: `update` of back/src/modules/expenses/expenses.service.ts.
use orbix_hub.Base.{
  ℕ, zero, suc, ◌-◌, ◌≤◌, ◌≡◌, refl, sym, ◌∙◌, Bool, true, false, ◌&&◌, some, List, [], ◌∷◌, length,
  find, any, keep, sum_by, ltb, leb, arith,
}
use orbix_hub.Money.{of_cents, round2-of_cents}
use orbix_hub.Expenses.{ratear_parcelas}
use orbix_hub.Expenses.Split.{ratear_parcelas_lem}
use orbix_hub.Expenses.Store.{Expense, expense_has_id, in_active_group, update}
use orbix_hub.Expenses.Purchase.{Distinct}
use orbix_hub.Expenses.Bin.{is_paid}
use orbix_hub.Expenses.Edit.{abertas_of, comprometido_of, write_values}
use orbix_hub.Expenses.Edit.Rows.{total_of, total-update, total-all}
use orbix_hub.Expenses.Edit.Sorted.{abertas_total, abertas-Stored, abertas-Distinct, any-abertas}

-- The parts of what is left add up to it, and there are as many as open instalments.
parts_add_up :
    (sobra n : ℕ)
    → 1 ≤ n
    → (length (ratear_parcelas (of_cents sobra) n) ≡ n)
      × (sum_by (λ p. p) (ratear_parcelas (of_cents sobra) n) ≡ sobra)
parts_add_up sobra zero h = omega (arith, h)
parts_add_up sobra (suc n) h =
    let split = ratear_parcelas_lem (of_cents sobra) n in (split.0, split.1 ∙ round2-of_cents sobra)

some_first : (q : Expense → Bool) (ps : List Expense) → any q ps ≡ true → 1 ≤ length ps
some_first q [] h = cc
some_first q (p ∷ ps) h = omega arith

module _ (group : ℕ) (atual : Expense) (es : List Expense) where
  abbrev q : Expense → Bool
  q = in_active_group group

  abbrev grupo : List Expense
  grupo = keep q es

  abbrev pub written : (total : ℕ) → ℕ × List Expense
  written total =
      write_values atual.id (abertas_of grupo)
        (ratear_parcelas (of_cents (total - comprometido_of grupo)) (length (abertas_of grupo)))
        (total, es)

  -- After the loop and the last write.
  pub new_total :
      (total : ℕ) (f : Expense → Expense)
      → Distinct es
      → find (expense_has_id atual.id) es ≡ some atual
      → q atual ≡ true
      → is_paid atual ≡ false
      → (ltb 0 (length (abertas_of grupo)) && leb total (comprometido_of grupo)) ≡ false
      → q (f atual) ≡ true
      → (f atual).amount ≡ (written total).0
      → total_of q (update atual.id f (written total).1) ≡ total
  new_total total f d found own unpaid guard k v =
      let there = any-abertas q atual.id es atual found own unpaid in
      let some_open = some_first (expense_has_id atual.id) (abertas_of grupo) there in
      let enough : comprometido_of grupo ≤ total = ground (arith, some_open) in
      let parts =
        parts_add_up (total - comprometido_of grupo) (length (abertas_of grupo)) some_open in
      let loop =
        total-all q (λ e w. refl) atual.id (abertas_of grupo) _ total es atual (sym parts.0) there
          found (abertas-Distinct q es d) (abertas-Stored q es d) in
      let last = total-update q f atual.id (written total).1 atual loop.0 own k in
      let sums = abertas_total grupo in omega (arith, enough, parts.1, loop.1, last, sums, v)
