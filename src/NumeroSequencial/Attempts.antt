-- ===== src/NumeroSequencial/Attempts.antt =====
-- The attempts of back/src/common/database/numero-sequencial.ts: how many there are, and which one is
-- answered.
use orbix_hub.Base.{
  ℕ, zero, suc, ◌+◌, ◌-◌, ◌≤◌, ◌<◌, ◌≡◌, refl, Bool, true, false, not, ◌&&◌, ◌==◌, Bool-cases, inl,
  inr, Option, or_default, if◌then◌else◌, Result, ok, err, Exec, arith,
}
use orbix_hub.Base.Keeps.{Keeps}
use orbix_hub.NumeroSequencial.{after_conflict, after_attempt, tentar, criar_com_numero_sequencial}

module _ {S E A : Type 0} (unique : E → Bool) (conflito : E → Exec S E Bool)
    (criar : ℕ → Exec S E A) where
  -- From an attempt in a state to a later one: each attempt between meets a number that is taken, and
  -- the id is no conflict.
  pub data Collides : ℕ → S → ℕ → S → Type 0 where
    here : {k : ℕ} {s : S} → Collides k s k s
    taken :
        {j : ℕ} {s : S} {k : ℕ} {t : S} (e : E) (u v : S)
        → criar j s ≡ (err e, u)
        → unique e ≡ true
        → conflito e u ≡ (ok false, v)
        → Collides (j + 1) v k t
        → Collides j s k t

  -- The answer when no attempt follows: an error is thrown on, unless asking for the conflict fails.
  abbrev pub thrown : E → Result E Bool × S → Result E A × S
  thrown e (ok b, s) = (err e, s)
  thrown e (err f, s) = (err f, s)

  abbrev pub last_answer : (last : Bool) → Result E A × S → Result E A × S
  last_answer last (ok a, s) = (ok a, s)
  last_answer true (err e, s) = (err e, s)
  last_answer false (err e, s) = if unique e then thrown e (conflito e s) else (err e, s)

  -- Is another attempt worth while?
  abbrev pub is_free : Result E Bool → Bool
  is_free (ok b) = not b
  is_free (err f) = false

  abbrev pub may_retry : Result E A × S → Bool
  may_retry (ok a, s) = false
  may_retry (err e, s) = unique e && is_free (conflito e s).0

  -- The attempt that is answered, of those from `j` on with `left` to go after it.
  pub record Answered (left j : ℕ) (s : S) (r : Result E A × S) : Type 0 where
    pub attempt : ℕ
    pub start : S
    pub bound : attempt ≤ j + left
    pub reached : Collides j s attempt start
    pub answer : r ≡ last_answer (attempt == j + left) (criar attempt start)
    pub decisive : attempt < j + left → may_retry (criar attempt start) ≡ false

  settled :
      (again : Exec S E A) (e : E) (c : Result E Bool × S)
      → is_free c.0 ≡ false
      → after_conflict again e c ≡ thrown e c
  settled again e (ok true, t) h = refl
  settled again e (ok false, t) h = cc
  settled again e (err f, t) h = refl

  decided :
      (again : Exec S E A) (q : Result E A × S)
      → may_retry q ≡ false
      → after_attempt unique conflito false again q ≡ last_answer false q
  decided again (ok a, t) h = refl
  decided again (err e, t) h = elim (Bool-cases (unique e)) [
    | inl u ↦ rw u (settled again e (conflito e t) (rw u at h))
    | inr u ↦ rw u refl
  ]

  -- Nothing is tried again.
  at_once :
      (left j : ℕ) (s : S) (q : Result E A × S) (again : Exec S E A)
      → criar j s ≡ q
      → may_retry q ≡ false
      → Answered (suc left) j s (after_attempt unique conflito false again q)
  at_once left j s q again e h =
      let more : (j == j + suc left) ≡ false = ground arith in
      record {
        attempt = j;
        start = s;
        bound = omega arith;
        reached = here;
        answer = rw (e, more) (decided again q h);
        decisive = λ l. rw e h;
      }

  -- The next attempt is the first of those that follow.
  later :
      (left j : ℕ) (s u v : S) (e : E) (r : Result E A × S)
      → criar j s ≡ (err e, u)
      → unique e ≡ true
      → conflito e u ≡ (ok false, v)
      → Answered left (j + 1) v r
      → Answered (suc left) j s r
  later left j s u v e r c q f a =
      let sum : j + 1 + left ≡ j + suc left = omega arith in
      record {
        attempt = a.attempt;
        start = a.start;
        bound = omega (arith, a.bound);
        reached = taken e u v c q f a.reached;
        answer = rw sum at a.answer;
        decisive = λ l. a.decisive (omega (arith, l));
      }

  conflict_splits :
      (left j : ℕ) (s u : S) (e : E) (c : Result E Bool × S) (again : Exec S E A)
      → criar j s ≡ (err e, u)
      → unique e ≡ true
      → conflito e u ≡ c
      → ((v : S) → Answered left (j + 1) v (again v))
      → Answered (suc left) j s (after_conflict again e c)
  conflict_splits left j s u e (ok false, v) again c q f ih =
      later left j s u v e (again v) c q f (ih v)
  conflict_splits left j s u e (ok true, v) again c q f ih =
      rw (q, f) at (at_once left j s (err e, u) again c (rw (q, f) refl))
  conflict_splits left j s u e (err g, v) again c q f ih =
      rw (q, f) at (at_once left j s (err e, u) again c (rw (q, f) refl))

  attempt_splits :
      (left j : ℕ) (s : S) (q : Result E A × S) (again : Exec S E A)
      → criar j s ≡ q
      → ((v : S) → Answered left (j + 1) v (again v))
      → Answered (suc left) j s (after_attempt unique conflito false again q)
  attempt_splits left j s (ok a, t) again c ih = at_once left j s (ok a, t) again c refl
  attempt_splits left j s (err e, t) again c ih = elim (Bool-cases (unique e)) [
    | inl u ↦ rw u (conflict_splits left j s t e (conflito e t) again c u refl ih)
    | inr u ↦ at_once left j s (err e, t) again c (rw u refl)
  ]

  only_attempt :
      (q : Result E A × S) (again : Exec S E A)
      → after_attempt unique conflito true again q ≡ last_answer true q
  only_attempt (ok a, t) again = refl
  only_attempt (err e, t) again = refl

  tentar-Answered : (left j : ℕ) (s : S) → Answered left j s (tentar unique conflito criar left j s)
  unfolding tentar
  tentar-Answered zero j s =
      let only : (j == j + 0) ≡ true = ground arith in
      record {
        attempt = j;
        start = s;
        bound = omega arith;
        reached = here;
        answer = rw only (only_attempt (criar j s) (criar j));
        decisive = λ l. absurd (omega (arith, l));
      }
  tentar-Answered (suc left) j s =
      attempt_splits left j s (criar j s) (tentar unique conflito criar left (j + 1)) refl
        (λ v. tentar-Answered left (j + 1) v)

  -- From any state, whatever others commit: one of at most the given number of attempts (five, if none
  -- is given) is answered; each one before it met a taken number that was no conflict of ids, and if
  -- it is not the last one allowed then trying again could not help.
  pub criar_com_numero_sequencial-Answered :
      (tentativas : Option ℕ) (s : S)
      → Answered
          (or_default tentativas 5 - 1)
          1
          s
          (criar_com_numero_sequencial unique conflito criar tentativas s)
  unfolding criar_com_numero_sequencial
  criar_com_numero_sequencial-Answered tentativas s =
      tentar-Answered (or_default tentativas 5 - 1) 1 s

-- What every attempt keeps, and asking for the conflict keeps, is kept.
module _ {S E A : Type 0} (P : S → Type 0) (unique : E → Bool) (conflito : E → Exec S E Bool)
    (criar : ℕ → Exec S E A) (asks : (e : E) → Keeps P (conflito e))
    (tries : (k : ℕ) → Keeps P (criar k)) where
  conflict-Keeps :
      (again : Exec S E A) (e : E) (c : Result E Bool × S)
      → Keeps P again
      → P c.1
      → P (after_conflict again e c).1
  conflict-Keeps again e (ok true, s) k p = p
  conflict-Keeps again e (ok false, s) k p = k.at s p
  conflict-Keeps again e (err f, s) k p = p

  attempt-Keeps :
      (last : Bool) (again : Exec S E A) (r : Result E A × S)
      → Keeps P again
      → P r.1
      → P (after_attempt unique conflito last again r).1
  attempt-Keeps last again (ok a, s) k p = p
  attempt-Keeps true again (err e, s) k p = p
  attempt-Keeps false again (err e, s) k p = elim (Bool-cases (unique e)) [
    | inl u ↦ rw u (conflict-Keeps again e (conflito e s) k ((asks e).at s p))
    | inr u ↦ rw u p
  ]

  tentar-Keeps : (left j : ℕ) → Keeps P (tentar unique conflito criar left j)
  unfolding tentar
  tentar-Keeps zero j = record {
    at = λ s p. attempt-Keeps true (criar j) (criar j s) (tries j) ((tries j).at s p);
  }
  tentar-Keeps (suc left) j = record {
    at = λ s p. attempt-Keeps false _ (criar j s) (tentar-Keeps left (j + 1)) ((tries j).at s p);
  }

  pub criar-Keeps :
      (tentativas : Option ℕ)
      → Keeps P (criar_com_numero_sequencial unique conflito criar tentativas)
  unfolding criar_com_numero_sequencial
  criar-Keeps tentativas = tentar-Keeps (or_default tentativas 5 - 1) 1
