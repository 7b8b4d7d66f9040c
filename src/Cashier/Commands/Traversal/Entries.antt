-- ===== src/Cashier/Commands/Traversal/Entries.antt =====
-- `createEntry` of back/src/modules/cashier/cashier.service.impl.ts, walked through.
use orbix_hub.Base.{ℕ, ◌≡◌, refl, Option, none, some, arith, ◌>>=◌, or_default, ◌==◌}
use orbix_hub.Base.Keeps.{
  Keeps, Keeps-read, Keeps-pure, Keeps-throw, Keeps-gets, Keeps-if, Keeps-transaction,
  Keeps-throw_if, Keeps-catch, Keeps-bind, Keeps-then,
}
use orbix_hub.Cashier.Config.{EntryCategory, SaleKind}
use orbix_hub.Cashier.Store.{Db, Request}
use orbix_hub.Cashier.Entries.{
  CreateEntryDto, resolve_sale, approve_on, approve_for_document, create_entry, row_of,
}
use orbix_hub.Cashier.Commands.Traversal.{
  Primitives, aprovar_desconto-Keeps, audit_discount-Keeps, audit_log-Keeps, ensure_session-Keeps,
  explain_duplicate-Keeps,
}

resolve_sale_reads :
    (c : EntryCategory) (kind : Option SaleKind) (id : Option ℕ) (db : Db)
    → (resolve_sale c kind id db).1 ≡ db
unfolding resolve_sale ◌>>=◌
resolve_sale_reads c kind id db = ground arith

module _ {P : Db → Type 0} (p : Primitives P) where
  pub resolve_sale-Keeps :
      (c : EntryCategory) (kind : Option SaleKind) (id : Option ℕ)
      → Keeps P (resolve_sale c kind id)
  resolve_sale-Keeps c kind id = Keeps-read _ (resolve_sale_reads c kind id)

  pub approve_on-Keeps :
      (req : Request) (dto : CreateEntryDto) (d : ℕ) (id : Option ℕ)
      → Keeps P (approve_on req dto d id)
  unfolding approve_on
  approve_on-Keeps req dto d none = Keeps-throw _
  approve_on-Keeps req dto d (some id) =
      Keeps-bind _ _ (Keeps-gets _) λ somas. aprovar_desconto-Keeps p _ _ _ _

  pub approve_for_document-Keeps :
      (req : Request) (dto : CreateEntryDto) (id : Option ℕ)
      → Keeps P (approve_for_document req dto id)
  unfolding approve_for_document
  approve_for_document-Keeps req dto id =
      Keeps-if (or_default dto.discount 0 == 0) _ _ (Keeps-pure 0) (approve_on-Keeps req dto _ id)

  pub create_entry-Keeps : (req : Request) (dto : CreateEntryDto) → Keeps P (create_entry req dto)
  unfolding create_entry
  create_entry-Keeps req dto = Keeps-bind _ _ (Keeps-gets _) λ manages.
      Keeps-then _ _ (Keeps-throw_if _ _) (
        Keeps-bind _ _ (resolve_sale-Keeps _ _ _) λ link. Keeps-bind _ _ (Keeps-gets _) λ c.
          Keeps-bind _ _ (approve_for_document-Keeps req dto link.sale_id) λ desconto.
            Keeps-bind _ _
              (Keeps-transaction _ (
                Keeps-bind _ _ (ensure_session-Keeps p req c dto.device_id) λ s.
                  Keeps-catch _ _
                    (p.inserts_entry (row_of req dto link desconto s)
                      (record { coherent = refl; active = refl }))
                    (explain_duplicate-Keeps p dto.id)))
              λ e.
                Keeps-then _ _ (audit_log-Keeps p _ _)
                  (Keeps-then _ _ (audit_discount-Keeps p req _ _ _) (Keeps-pure e)))
