-- ===== src/Base/Keeps.antt =====
-- Invariants of methods: one rule for each way to build a method. `m` keeps `P` if the state that
-- it leaves, whether it returns or throws, satisfies `P` whenever the first one did.
use mathlib.Core.Path.{◌≡◌}
use mathlib.Core.Bool.{Bool, true, false}
use mathlib.Core.Option.{Option, none, some}
use orbix_hub.Base.Tests.{if◌then◌else◌}
use orbix_hub.Base.Service.{
  continue, on_error, roll_back, Result, ok, err, Exec, pure, throw, gets, or_throw, transaction,
  catch, modify, throw_if, ◌>>=◌, ◌>>◌,
}

pub record Keeps {ℓ} {S E A : Type ℓ} (P : S → Type ℓ) (m : Exec S E A) : Type ℓ where
  pub at : (s : S) → P s → P (m s).1

-- The same of the pair that a method has answered.
module _ {ℓ} {S E A : Type ℓ} (P : S → Type ℓ) where
  after_roll_back : (s : S) (r : Result E A × S) → P s → P r.1 → P (roll_back s r).1
  after_roll_back s (ok a, t) h k = k
  after_roll_back s (err e, t) h k = h

  after_error :
      (h : E → Exec S E A) (r : Result E A × S)
      → ((e : E) → Keeps P (h e))
      → P r.1
      → P (on_error h r).1
  after_error h (ok a, t) kh k = k
  after_error h (err e, t) kh k = (kh e).at t k

  after_continue :
      {B : Type ℓ} (f : A → Exec S E B) (r : Result E A × S)
      → ((a : A) → Keeps P (f a))
      → P r.1
      → P (continue f r).1
  after_continue f (ok a, t) kf k = (kf a).at t k
  after_continue f (err e, t) kf k = k

module _ {ℓ} {S E A : Type ℓ} {P : S → Type ℓ} where
  -- Reading methods leave the state as it is.
  pub Keeps-read : (m : Exec S E A) → ((s : S) → (m s).1 ≡ s) → Keeps P m
  Keeps-read m e = record { at = λ s h. rw (e s) h }

  pub Keeps-pure : (a : A) → Keeps P (pure {E = E} a)
  unfolding ◌>>=◌
  Keeps-pure a = record { at = λ s h. h }

  pub Keeps-throw : (e : E) → Keeps P (throw {A = A} e)
  unfolding ◌>>=◌
  Keeps-throw e = record { at = λ s h. h }

  pub Keeps-gets : (f : S → A) → Keeps P (gets {E = E} f)
  unfolding ◌>>=◌
  Keeps-gets f = record { at = λ s h. h }

  pub Keeps-or_throw : (o : Option A) (e : E) → Keeps P (or_throw o e)
  unfolding ◌>>=◌
  Keeps-or_throw none e = record { at = λ s h. h }
  Keeps-or_throw (some a) e = record { at = λ s h. h }

  pub Keeps-if :
      (b : Bool) (m n : Exec S E A) → Keeps P m → Keeps P n → Keeps P (if b then m else n)
  Keeps-if true m n km kn = km
  Keeps-if false m n km kn = kn

  pub Keeps-transaction : (m : Exec S E A) → Keeps P m → Keeps P (transaction m)
  unfolding ◌>>=◌
  Keeps-transaction m km = record { at = λ s h. after_roll_back P s (m s) h (km.at s h) }

module _ {ℓ} {S E : Type ℓ} {P : S → Type ℓ} where
  pub Keeps-modify : (f : S → S) → ((s : S) → P s → P (f s)) → Keeps P (modify {E = E} f)
  unfolding ◌>>=◌
  Keeps-modify f k = record { at = k }

  pub Keeps-throw_if : (b : Bool) (e : E) → Keeps P (throw_if b e)
  unfolding ◌>>=◌
  Keeps-throw_if true e = record { at = λ s h. h }
  Keeps-throw_if false e = record { at = λ s h. h }

module _ {ℓ} {S E A : Type ℓ} {P : S → Type ℓ} where
  pub Keeps-catch :
      (m : Exec S E A) (h : E → Exec S E A)
      → Keeps P m
      → ((e : E) → Keeps P (h e))
      → Keeps P (catch m h)
  unfolding ◌>>=◌
  Keeps-catch m h km kh = record { at = λ s p. after_error P h (m s) kh (km.at s p) }

module _ {ℓ} {S E A B : Type ℓ} {P : S → Type ℓ} where
  pub Keeps-bind :
      (m : Exec S E A) (f : A → Exec S E B)
      → Keeps P m
      → ((a : A) → Keeps P (f a))
      → Keeps P (m >>= f)
  unfolding ◌>>=◌
  Keeps-bind m f km kf = record { at = λ s p. after_continue P f (m s) kf (km.at s p) }

  pub Keeps-then : (m : Exec S E A) (k : Exec S E B) → Keeps P m → Keeps P k → Keeps P (m >> k)
  Keeps-then m k km kk = Keeps-bind m (λ _. k) km (λ _. kk)

-- To carry what a reading found: the rest is proved at the state that was read.
module _ {ℓ} {S E A B : Type ℓ} {P : S → Type ℓ} where
  pub Keeps-bind_gets :
      (g : S → A) (f : A → Exec S E B) → ((s : S) → P s → P (f (g s) s).1) → Keeps P (gets g >>= f)
  unfolding ◌>>=◌
  Keeps-bind_gets g f k = record { at = k }
