-- ===== src/Report.antt =====
-- The customers by what they brought: back/src/modules/report/customers-ranking.ts. Received amounts are the cash
-- book's, in cents; a moment is a number. The two orders of the list are left to the sorting of the runtime.
pub mod Tally
use orbix_hub.Base.{
  ℕ, zero, suc, ◌+◌, ◌==◌, Bool, true, false, ◌&&◌, ◌||◌, Option, none, some, List, [], ◌∷◌, map,
  if◌then◌else◌, ltb, leb, Text,
}
use orbix_hub.Money.{of_cents, divide_rounded}

pub record DocumentoDeCliente : Type 0 where
  pub id : ℕ
  pub customer_id : Option ℕ
  pub customer_name : Option Text
  pub created_at : ℕ

pub record RecebidoPorDocumento : Type 0 where
  pub recebido : ℕ
  pub desconto : ℕ

pub record ClienteRanqueado : Type 0 where
  pub customer_id : ℕ
  pub customer_name : Text
  pub recebido : ℕ
  pub desconto : ℕ
  pub atendimentos : ℕ
  pub os_count : ℕ
  pub sale_count : ℕ
  pub ticket_medio : ℕ
  pub primeiro_em : ℕ
  pub ultimo_em : ℕ

-- `Map.get`, with what `??` puts for a missing document.
abbrev pub recebido_de : Option RecebidoPorDocumento → ℕ
recebido_de none = 0
recebido_de (some p) = p.recebido

abbrev pub desconto_de : Option RecebidoPorDocumento → ℕ
desconto_de none = 0
desconto_de (some p) = p.desconto

-- `'Cliente'`
abbrev pub cliente : Text
cliente = 67 ∷ 108 ∷ 105 ∷ 101 ∷ 110 ∷ 116 ∷ 101 ∷ []

abbrev pub name_or_cliente : Option Text → Text
name_or_cliente none = cliente
name_or_cliente (some t) = t

-- The name of a document wins if it is not empty and the document is the latest.
abbrev pub newer_name : (is_last : Bool) → Option Text → Text → Text
newer_name is_last none old = old
newer_name is_last (some []) old = old
newer_name is_last (some (c ∷ cs)) old = if is_last then c ∷ cs else old

-- The rounding of the sums changes nothing: they are whole cents.
unfoldable pub fechado : ClienteRanqueado → ClienteRanqueado
unfolding divide_rounded
fechado c = record c {
  ticket_medio =
      if ltb 0 c.atendimentos then divide_rounded (of_cents c.recebido) c.atendimentos else 0;
}

module _ (recebido_por_doc : ℕ → Option RecebidoPorDocumento) where
  unfoldable pub novo : (eh_os : Bool) → (customer_id : ℕ) → DocumentoDeCliente → ClienteRanqueado
  novo eh_os c d = record {
    customer_id = c;
    customer_name = name_or_cliente d.customer_name;
    recebido = recebido_de (recebido_por_doc d.id);
    desconto = desconto_de (recebido_por_doc d.id);
    atendimentos = 1;
    os_count = if eh_os then 1 else 0;
    sale_count = if eh_os then 0 else 1;
    ticket_medio = 0;
    primeiro_em = d.created_at;
    ultimo_em = d.created_at;
  }

  unfoldable pub somado : (eh_os : Bool) → DocumentoDeCliente → ClienteRanqueado → ClienteRanqueado
  somado eh_os d atual = record atual {
    customer_name =
        newer_name (leb atual.ultimo_em d.created_at) d.customer_name atual.customer_name;
    recebido = atual.recebido + recebido_de (recebido_por_doc d.id);
    desconto = atual.desconto + desconto_de (recebido_por_doc d.id);
    atendimentos = atual.atendimentos + 1;
    os_count = if eh_os then atual.os_count + 1 else atual.os_count;
    sale_count = if eh_os then atual.sale_count else atual.sale_count + 1;
    primeiro_em = if ltb d.created_at atual.primeiro_em then d.created_at else atual.primeiro_em;
    ultimo_em = if ltb atual.ultimo_em d.created_at then d.created_at else atual.ultimo_em;
  }

  -- The entry of the customer, or a new one behind the others.
  unfoldable pub acumular_em :
      (eh_os : Bool)
      → (customer_id : ℕ) → DocumentoDeCliente
      → List ClienteRanqueado
      → List ClienteRanqueado
  unfolding novo somado
  acumular_em eh_os c d [] = novo eh_os c d ∷ []
  acumular_em eh_os c d (r ∷ rs) =
      let rest = acumular_em eh_os c d rs in
      if r.customer_id == c then somado eh_os d r ∷ rs else r ∷ rest

  abbrev pub acumular_de :
      (eh_os : Bool) → Option ℕ → DocumentoDeCliente → List ClienteRanqueado → List ClienteRanqueado
  unfolding acumular_em
  acumular_de eh_os none d rows = rows
  acumular_de eh_os (some c) d rows = acumular_em eh_os c d rows

  unfoldable pub acumular :
      (eh_os : Bool) → DocumentoDeCliente → List ClienteRanqueado → List ClienteRanqueado
  unfolding acumular_em
  acumular eh_os d rows = acumular_de eh_os d.customer_id d rows

  unfoldable pub acumular_todos :
      (eh_os : Bool) → List DocumentoDeCliente → List ClienteRanqueado → List ClienteRanqueado
  unfolding acumular
  acumular_todos eh_os [] rows = rows
  acumular_todos eh_os (d ∷ ds) rows = acumular_todos eh_os ds (acumular eh_os d rows)

  unfoldable pub ranquear_clientes : (os vendas : List DocumentoDeCliente) → List ClienteRanqueado
  unfolding acumular_todos fechado
  ranquear_clientes os vendas =
      map fechado (acumular_todos false vendas (acumular_todos true os []))
