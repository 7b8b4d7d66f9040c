-- ===== src/Base/Triple.antt =====
-- What methods answer, and in which state: one rule for each way to build a method. From a state with
-- `P`, the method either returns a value and a state with `Q`, or throws and leaves a state with `I`.
use mathlib.Core.Path.{◌≡◌, refl}
use mathlib.Core.Bool.{Bool, true, false}
use mathlib.Core.Option.{Option, none, some}
use orbix_hub.Base.Tests.{if◌then◌else◌}
use orbix_hub.Base.Keeps.{Keeps}
use orbix_hub.Base.Service.{
  continue, roll_back, on_error, catch, Result, ok, err, Exec, pure, throw, gets, or_throw,
  transaction, modify, throw_if, ◌>>=◌,
}

module _ {S E A : Type 0} where
  abbrev pub Met : (I : S → Type 0) (Q : A → S → Type 0) → Result E A × S → Type 0
  Met I Q (ok a, s) = Q a s
  Met I Q (err e, s) = I s

  pub record Triple (I P : S → Type 0) (m : Exec S E A) (Q : A → S → Type 0) : Type 0 where
    pub at : (s : S) → P s → Met I Q (m s)

  Met-weaken :
      (I : S → Type 0) (Q R : A → S → Type 0) (r : Result E A × S)
      → ((a : A) (s : S) → Q a s → R a s)
      → Met I Q r
      → Met I R r
  Met-weaken I Q R (ok a, s) w q = w a s q
  Met-weaken I Q R (err e, s) w q = q

  rolled_back :
      (I J : S → Type 0) (Q : A → S → Type 0) (s : S) (r : Result E A × S)
      → I s
      → Met J Q r
      → Met I Q (roll_back s r)
  rolled_back I J Q s (ok a, t) i q = q
  rolled_back I J Q s (err e, t) i q = i

  pub keeps_state : (I : S → Type 0) (r : Result E A × S) → Met I (λ a. I) r → I r.1
  keeps_state I (ok a, s) i = i
  keeps_state I (err e, s) i = i

  state-Met : (I : S → Type 0) (r : Result E A × S) → I r.1 → Met I (λ a. I) r
  state-Met I (ok a, s) i = i
  state-Met I (err e, s) i = i

module _ {S E A : Type 0} {I P : S → Type 0} {Q : A → S → Type 0} where
  pub Triple-pure : (a : A) → ((s : S) → P s → Q a s) → Triple {E = E} I P (pure a) Q
  unfolding ◌>>=◌
  Triple-pure a q = record { at = q }

  pub Triple-throw : (e : E) → ((s : S) → P s → I s) → Triple I P (throw e) Q
  unfolding ◌>>=◌
  Triple-throw e i = record { at = i }

  pub Triple-gets : (f : S → A) → ((s : S) → P s → Q (f s) s) → Triple {E = E} I P (gets f) Q
  unfolding ◌>>=◌
  Triple-gets f q = record { at = q }

  pub Triple-or_throw :
      (o : Option A) (e : E)
      → ((s : S) → P s → I s)
      → ((a : A) → o ≡ some a → (s : S) → P s → Q a s)
      → Triple I P (or_throw o e) Q
  unfolding ◌>>=◌
  Triple-or_throw none e i q = record { at = i }
  Triple-or_throw (some a) e i q = record { at = q a refl }

  pub Triple-transaction :
      (J : S → Type 0) (m : Exec S E A)
      → ((s : S) → P s → I s)
      → Triple J P m Q
      → Triple I P (transaction m) Q
  unfolding ◌>>=◌
  Triple-transaction J m i t = record { at = λ s p. rolled_back I J Q s (m s) (i s p) (t.at s p) }

  pub Triple-weaken :
      (R : A → S → Type 0) (m : Exec S E A)
      → ((a : A) (s : S) → R a s → Q a s)
      → Triple I P m R
      → Triple I P m Q
  Triple-weaken R m w t = record { at = λ s p. Met-weaken I R Q (m s) w (t.at s p) }

module _ {S E : Type 0} {I P : S → Type 0} {Q : Unit {0} → S → Type 0} where
  pub Triple-modify : (f : S → S) → ((s : S) → P s → Q tt (f s)) → Triple {E = E} I P (modify f) Q
  unfolding ◌>>=◌
  Triple-modify f q = record { at = q }

  pub Triple-throw_if :
      (b : Bool) (e : E)
      → ((s : S) → P s → I s)
      → (b ≡ false → (s : S) → P s → Q tt s)
      → Triple I P (throw_if b e) Q
  unfolding ◌>>=◌
  Triple-throw_if true e i q = record { at = i }
  Triple-throw_if false e i q = record { at = q refl }

module _ {S E A B : Type 0} {I : S → Type 0} {Q : A → S → Type 0} {R : B → S → Type 0} where
  then-Met :
      (f : A → Exec S E B) (r : Result E A × S)
      → ((a : A) → Triple I (Q a) (f a) R)
      → Met I Q r
      → Met I R (continue f r)
  then-Met f (ok a, s) t q = (t a).at s q
  then-Met f (err e, s) t q = q

module _ {S E A B : Type 0} {I P : S → Type 0} {Q : A → S → Type 0} {R : B → S → Type 0} where
  pub Triple-bind :
      (m : Exec S E A) (f : A → Exec S E B)
      → Triple I P m Q
      → ((a : A) → Triple I (Q a) (f a) R)
      → Triple I P (m >>= f) R
  unfolding ◌>>=◌
  Triple-bind m f t u = record { at = λ s p. then-Met f (m s) u (t.at s p) }

module _ {S E A : Type 0} {I : S → Type 0} where
  pub Triple-Keeps : (m : Exec S E A) → Triple I I m (λ a. I) → Keeps I m
  Triple-Keeps m t = record { at = λ s i. keeps_state I (m s) (t.at s i) }

  pub Keeps-Triple : (m : Exec S E A) → Keeps I m → Triple I I m (λ a. I)
  Keeps-Triple m k = record { at = λ s i. state-Met I (m s) (k.at s i) }

module _ {S E A : Type 0} {I P : S → Type 0} {Q : A → S → Type 0} where
  -- What does not speak of the state may be taken out.
  pub Triple-given :
      {C : Type 0} (m : Exec S E A) → (C → Triple I P m Q) → Triple I (λ s. C × P s) m Q
  Triple-given m t = record { at = λ s p. (t p.0).at s p.1 }

  pub Triple-if :
      (b : Bool) (m n : Exec S E A)
      → Triple I P m Q
      → Triple I P n Q
      → Triple I P (if b then m else n) Q
  Triple-if true m n t u = t
  Triple-if false m n t u = u

  -- To promise less where the method throws.
  pub Triple-relax :
      {J : S → Type 0} (m : Exec S E A) → ((s : S) → J s → I s) → Triple J P m Q → Triple I P m Q
  Triple-relax {J = J} m w t = record { at = λ s p. relaxed J w (m s) (t.at s p) }
    where
      relaxed :
          (J : S → Type 0) → ((s : S) → J s → I s) → (r : Result E A × S) → Met J Q r → Met I Q r
      relaxed J w (ok a, s) q = q
      relaxed J w (err e, s) j = w s j

module _ {S E A : Type 0} {I J : S → Type 0} {Q : A → S → Type 0} where
  handled :
      (h : E → Exec S E A) (r : Result E A × S)
      → ((e : E) → Triple I J (h e) Q)
      → Met J Q r
      → Met I Q (on_error h r)
  handled h (ok a, s) t q = q
  handled h (err e, s) t j = (t e).at s j

  pub Triple-catch :
      (P : S → Type 0) (m : Exec S E A) (h : E → Exec S E A)
      → Triple J P m Q
      → ((e : E) → Triple I J (h e) Q)
      → Triple I P (catch m h) Q
  unfolding ◌>>=◌
  Triple-catch P m h t u = record { at = λ s p. handled h (m s) u (t.at s p) }

-- Nothing is asked, nothing is said.
module _ {S E A : Type 0} (P : S → Type 0) where
  some_result : (r : Result E A × S) → Met (λ s. Unit {0}) (λ a s. Unit {0}) r
  some_result (ok a, s) = tt
  some_result (err e, s) = tt

  pub Triple-any : (m : Exec S E A) → Triple (λ s. Unit {0}) P m (λ a s. Unit {0})
  Triple-any m = record { at = λ s p. some_result (m s) }
