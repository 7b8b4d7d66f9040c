-- ===== src/Base/Service.antt =====
-- Methods of a service: they read and write the tenant's tables and may throw. What was written
-- before an exception stays written unless a transaction is rolled back.
use mathlib.Core.Bool.{Bool, true, false}
use mathlib.Core.Option.{Option, none, some}

pub data Result {ℓ} (E A : Type ℓ) : Type ℓ where
  ok : A → Result E A
  err : E → Result E A

abbrev pub Exec {ℓ} : (S E A : Type ℓ) → Type ℓ
Exec S E A = S → Result E A × S

module _ {ℓ} {S E A : Type ℓ} where
  unfoldable pub pure : A → Exec S E A
  pure a s = (ok a, s)

  unfoldable pub throw : E → Exec S E A
  throw e s = (err e, s)

  unfoldable pub gets : (S → A) → Exec S E A
  gets f s = (ok (f s), s)

  -- `if (!o) throw e;`
  unfoldable pub or_throw : Option A → E → Exec S E A
  or_throw none e s = (err e, s)
  or_throw (some a) e s = (ok a, s)

  abbrev pub roll_back : S → Result E A × S → Result E A × S
  roll_back s (ok a, t) = (ok a, t)
  roll_back s (err e, t) = (err e, s)

  -- `withTenantTx` and `runWithTenant`: an exception undoes the writes of the block.
  unfoldable pub transaction : Exec S E A → Exec S E A
  transaction m s = roll_back s (m s)

  abbrev pub on_error : (E → Exec S E A) → Result E A × S → Result E A × S
  on_error h (ok a, t) = (ok a, t)
  on_error h (err e, t) = h e t

  -- `try { m } catch (e) { h(e) }`
  unfoldable pub catch : Exec S E A → (E → Exec S E A) → Exec S E A
  catch m h s = on_error h (m s)

module _ {ℓ} {S E : Type ℓ} where
  unfoldable pub modify : (S → S) → Exec S E (Unit {ℓ})
  modify f s = (ok tt, f s)

  -- `if (b) throw e;`
  unfoldable pub throw_if : Bool → E → Exec S E (Unit {ℓ})
  throw_if true e s = (err e, s)
  throw_if false e s = (ok tt, s)

module _ {ℓ} {S E A B : Type ℓ} where
  abbrev pub continue : (A → Exec S E B) → Result E A × S → Result E B × S
  continue f (ok a, s) = f a s
  continue f (err e, s) = (err e, s)

  infixl 5 ◌>>=◌ ◌>>◌
  -- To open it opens the other combinators.
  unfoldable pub ◌>>=◌ : Exec S E A → (A → Exec S E B) → Exec S E B
  unfolding pure throw gets or_throw transaction catch modify throw_if
  ◌>>=◌ m f s = continue f (m s)

  abbrev pub ◌>>◌ : Exec S E A → Exec S E B → Exec S E B
  m >> k = m >>= λ _. k
