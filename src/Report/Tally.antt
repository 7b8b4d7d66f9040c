-- ===== src/Report/Tally.antt =====
-- What the ranking of back/src/modules/report/customers-ranking.ts says of a customer, against the documents.
use orbix_hub.Base.{
  ℕ, ◌+◌, ◌*◌, ◌<◌, ◌≡◌, refl, ap, ◌∙◌, ◌==◌, ==_refl, ==_iff, Bool, true, false, not, Bool-cases,
  inl, inr, Option, none, some, List, [], ◌∷◌, keep, sum_by, map, length, if◌then◌else◌, arith,
}
use orbix_hub.Report.{
  DocumentoDeCliente, RecebidoPorDocumento, ClienteRanqueado, recebido_de, desconto_de, novo,
  somado, acumular_em, acumular_de, acumular, acumular_todos, fechado, ranquear_clientes,
}

abbrev pub is_of : ℕ → Option ℕ → Bool
is_of c none = false
is_of c (some x) = x == c

-- The documents of a customer.
abbrev pub docs_of : ℕ → List DocumentoDeCliente → List DocumentoDeCliente
docs_of c ds = keep (λ d. is_of c d.customer_id) ds

abbrev pub has_customer : ℕ → ClienteRanqueado → Bool
has_customer c r = r.customer_id == c

module _ (paid : ℕ → Option RecebidoPorDocumento) where
  abbrev pub recebidos : List DocumentoDeCliente → ℕ
  recebidos ds = sum_by (λ d. recebido_de (paid d.id)) ds

  abbrev pub descontos : List DocumentoDeCliente → ℕ
  descontos ds = sum_by (λ d. desconto_de (paid d.id)) ds

  -- One entry with the sums, or none and nothing to sum.
  abbrev pub Counted : (os vendas recebido desconto : ℕ) → List ClienteRanqueado → Type 0
  Counted o v r e [] = (o ≡ 0) × (v ≡ 0) × (r ≡ 0) × (e ≡ 0)
  Counted o v r e (x ∷ []) =
      (x.os_count ≡ o)
      × (x.sale_count ≡ v)
      × (x.atendimentos ≡ o + v)
      × (x.recebido ≡ r)
      × (x.desconto ≡ e)
      × (0 < o + v)
  Counted o v r e (x ∷ y ∷ ys) = ⊥

  -- What a document does to the entries of its customer.
  abbrev next :
      (eh_os : Bool) → ℕ → DocumentoDeCliente → List ClienteRanqueado → List ClienteRanqueado
  unfolding novo somado
  next b c d [] = novo paid b c d ∷ []
  next b c d (r ∷ rs) = somado paid b d r ∷ rs

  keep-own :
      (b : Bool) (c : ℕ) (d : DocumentoDeCliente) (rows : List ClienteRanqueado)
      → keep (has_customer c) (acumular_em paid b c d rows)
        ≡ next b c d (keep (has_customer c) rows)
  unfolding acumular_em novo somado
  keep-own b c d [] = rw (==_refl c) refl
  keep-own b c d (r ∷ rs) = elim (Bool-cases (r.customer_id == c)) [
    | inl own ↦ rw (own, own) refl
    | inr other ↦ rw (other, other) (keep-own b c d rs)
  ]

  keep-other :
      (b : Bool) (c x : ℕ) (d : DocumentoDeCliente) (rows : List ClienteRanqueado)
      → (x == c) ≡ false
      → keep (has_customer c) (acumular_em paid b x d rows) ≡ keep (has_customer c) rows
  unfolding acumular_em novo somado
  keep-other b c x d [] h = rw h refl
  keep-other b c x d (r ∷ rs) h = elim (Bool-cases (r.customer_id == x)) [
    | inl own ↦
        let same = (==_iff r.customer_id x).0 own in
        let apart : (r.customer_id == c) ≡ false = ap (λ n. n == c) same ∙ h in rw (own, apart) refl
    | inr other ↦ elim (Bool-cases (r.customer_id == c)) [
      | inl k ↦ rw (other, k) (ap (◌∷◌ r) (keep-other b c x d rs h))
      | inr k ↦ rw (other, k) (keep-other b c x d rs h)
    ]
  ]

  abbrev one : Bool → ℕ
  one true = 1
  one false = 0

  next-Counted :
      (b : Bool) (c : ℕ) (d : DocumentoDeCliente) (o v r e : ℕ) (rows : List ClienteRanqueado)
      → Counted o v r e rows
      → Counted
          (o + one b)
          (v + one (not b))
          (r + recebido_de (paid d.id))
          (e + desconto_de (paid d.id))
          (next b c d rows)
  unfolding novo somado
  next-Counted true c d o v r e [] h = omega (arith, h)
  next-Counted false c d o v r e [] h = omega (arith, h)
  next-Counted true c d o v r e (x ∷ []) h = omega (arith, h)
  next-Counted false c d o v r e (x ∷ []) h = omega (arith, h)
  next-Counted b c d o v r e (x ∷ y ∷ ys) h = absurd h

  resum :
      {o v r e o' v' r' e' : ℕ} (rows : List ClienteRanqueado)
      → Counted o v r e rows
      → o ≡ o'
      → v ≡ v'
      → r ≡ r'
      → e ≡ e'
      → Counted o' v' r' e' rows
  resum [] k p q s t = omega (arith, p, q, s, t, k)
  resum (x ∷ []) k p q s t = omega (arith, p, q, s, t, k)
  resum (x ∷ y ∷ ys) k p q s t = absurd k

  -- What is counted after all the documents of one kind.
  abbrev Adds : Bool → (o v r e : ℕ) → List DocumentoDeCliente → List ClienteRanqueado → Type 0
  Adds b o v r e mine rows =
      Counted (o + one b * length mine) (v + one (not b) * length mine) (r + recebidos mine)
        (e + descontos mine) rows

  all-Counted :
      (b : Bool) (c : ℕ) (ds : List DocumentoDeCliente) (o v r e : ℕ) (rows : List ClienteRanqueado)
      → Counted o v r e (keep (has_customer c) rows)
      → Adds b o v r e (docs_of c ds) (keep (has_customer c) (acumular_todos paid b ds rows))
  unfolding acumular_todos acumular
  all-Counted b c [] o v r e rows h =
      resum (keep (has_customer c) rows) h (omega arith) (omega arith) (omega arith) (omega arith)
  all-Counted b c (d ∷ ds) o v r e rows h = by_customer d.customer_id (all-Counted b c ds)
    where
      by_customer :
          (who : Option ℕ)
          → ((o v r e : ℕ) (rows : List ClienteRanqueado)
              → Counted o v r e (keep (has_customer c) rows)
              → Adds b o v r e
                  (docs_of c ds)
                  (keep (has_customer c) (acumular_todos paid b ds rows)))
          → Adds b o v r e
              (if is_of c who then d ∷ docs_of c ds else docs_of c ds)
              (keep (has_customer c) (acumular_todos paid b ds (acumular_de paid b who d rows)))
      by_customer none rest = rest o v r e rows h
      by_customer (some x) rest = elim (Bool-cases (x == c)) [
        | inl own ↦
            let same = (==_iff x c).0 own in
            let kept : keep (has_customer c) (acumular_em paid b x d rows)
                ≡ next b c d (keep (has_customer c) rows) =
              ap (λ n. keep (has_customer c) (acumular_em paid b n d rows)) same
              ∙ keep-own b c d rows in
            let after = next-Counted b c d o v r e (keep (has_customer c) rows) h in
            let more =
              rest (o + one b) (v + one (not b)) (r + recebido_de (paid d.id))
                (e + desconto_de (paid d.id)) (acumular_em paid b x d rows) (rw kept after) in
            rw own (
              resum (keep (has_customer c) (acumular_todos paid b ds (acumular_em paid b x d rows)))
                more (omega arith) (omega arith) (omega arith) (omega arith))
        | inr other ↦
            rw other
              (rest o v r e (acumular_em paid b x d rows) (rw (keep-other b c x d rows other) h))
      ]

  -- What the ranking shows of a customer: nothing, without a document; else one entry with their number, by kind
  -- and in all, and with what was received and granted on them.
  abbrev pub Ranked : (os vendas : List DocumentoDeCliente) → List ClienteRanqueado → Type 0
  Ranked os vendas [] = (length os ≡ 0) × (length vendas ≡ 0)
  Ranked os vendas (x ∷ []) =
      (x.os_count ≡ length os)
      × (x.sale_count ≡ length vendas)
      × (x.atendimentos ≡ length os + length vendas)
      × (x.recebido ≡ recebidos os + recebidos vendas)
      × (x.desconto ≡ descontos os + descontos vendas)
      × (0 < length os + length vendas)
  Ranked os vendas (x ∷ y ∷ ys) = ⊥

  keep-fechado :
      (c : ℕ) (rows : List ClienteRanqueado)
      → keep (has_customer c) (map (fechado) rows) ≡ map fechado (keep (has_customer c) rows)
  unfolding fechado
  keep-fechado c [] = refl
  keep-fechado c (r ∷ rs) = elim (Bool-cases (r.customer_id == c)) [
    | inl k ↦ rw k (ap (◌∷◌ (fechado r)) (keep-fechado c rs))
    | inr k ↦ rw k (keep-fechado c rs)
  ]

  Counted-Ranked :
      (os vendas : List DocumentoDeCliente) (rows : List ClienteRanqueado)
      → Counted
          (length os)
          (length vendas)
          (recebidos os + recebidos vendas)
          (descontos os + descontos vendas)
          rows
      → Ranked os vendas (map fechado rows)
  unfolding fechado
  Counted-Ranked os vendas [] h = (h.0, h.1)
  Counted-Ranked os vendas (x ∷ []) h = (h.0, h.1, h.2, h.3, h.4, h.5)
  Counted-Ranked os vendas (x ∷ y ∷ ys) h = absurd h

  -- The ranking has, of every customer, one entry if a document is the customer's, and none otherwise: it counts
  -- these orders and sales, separately and together, and adds up what was received and granted on them.
  pub ranquear_clientes-Ranked :
      (c : ℕ) (os vendas : List DocumentoDeCliente)
      → Ranked
          (docs_of c os)
          (docs_of c vendas)
          (keep (has_customer c) (ranquear_clientes paid os vendas))
  unfolding ranquear_clientes
  ranquear_clientes-Ranked c os vendas =
      let rows = acumular_todos paid false vendas (acumular_todos paid true os []) in
      let first = all-Counted true c os 0 0 0 0 [] (refl, refl, refl, refl) in
      let both = all-Counted false c vendas _ _ _ _ (acumular_todos paid true os []) first in
      rw (keep-fechado c rows) (
        Counted-Ranked (docs_of c os) (docs_of c vendas) (keep (has_customer c) rows) (
          resum (keep (has_customer c) rows) both (omega arith) (omega arith) (omega arith)
            (omega arith)))
