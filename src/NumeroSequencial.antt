-- ===== src/NumeroSequencial.antt =====
-- back/src/common/database/numero-sequencial.ts: a numbered document (a sale, an order) is created
-- again when the number that was read is taken by somebody else in the meantime.
pub mod Attempts
use orbix_hub.Base.{
  ℕ, zero, suc, ◌+◌, ◌-◌, ◌≤◌, ◌<◌, ◌≡◌, refl, Bool, true, false, Bool-cases, inl, inr, Option,
  none, some, or_default, if◌then◌else◌, Result, ok, err, Exec, arith, All, List, [], ◌∷◌, length,
}

module _ {S E A : Type 0} where
  -- What is decided after a failed attempt, with `left` attempts to go: `again` is the next round.
  abbrev pub after_conflict : (again : Exec S E A) (e : E) → Result E Bool × S → Result E A × S
  after_conflict again e (ok true, s) = (err e, s)
  after_conflict again e (ok false, s) = again s
  after_conflict again e (err f, s) = (err f, s)

  abbrev pub after_attempt :
      (is_unique_violation : E → Bool) (eh_conflito_de_id : E → Exec S E Bool) (last : Bool)
      (again : Exec S E A)
      → Result E A × S
      → Result E A × S
  after_attempt unique conflito last again (ok a, s) = (ok a, s)
  after_attempt unique conflito true again (err e, s) = (err e, s)
  after_attempt unique conflito false again (err e, s) =
      if unique e then after_conflict again e (conflito e s) else (err e, s)

  -- The loop, with `left` attempts after this one. `criar` is told the attempt's number: what others
  -- commit between its reading and its writing differs from attempt to attempt.
  unfoldable pub tentar :
      (is_unique_violation : E → Bool) (eh_conflito_de_id : E → Exec S E Bool)
      (criar : ℕ → Exec S E A) (left tentativa : ℕ)
      → Exec S E A
  tentar unique conflito criar zero tentativa s =
      after_attempt unique conflito true (criar tentativa) (criar tentativa s)
  tentar unique conflito criar (suc left) tentativa s =
      after_attempt unique conflito false (tentar unique conflito criar left (tentativa + 1))
        (criar tentativa s)

  unfoldable pub criar_com_numero_sequencial :
      (is_unique_violation : E → Bool) (eh_conflito_de_id : E → Exec S E Bool)
      (criar : ℕ → Exec S E A) (tentativas : Option ℕ)
      → Exec S E A
  unfolding tentar
  criar_com_numero_sequencial unique conflito criar tentativas =
      tentar unique conflito criar (or_default tentativas 5 - 1) 1
