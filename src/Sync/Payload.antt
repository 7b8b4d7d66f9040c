-- ===== src/Sync/Payload.antt =====
-- The second validation of a replayed mutation: `validatePayload` of
-- back/src/modules/sync/sync.service.ts. A JavaScript object is the function that reads its own keys.
use orbix_hub.Base.{
  ◌≡◌, refl, ap, ◌∙◌, fun_ext, Bool, true, false, Bool-cases, inl, inr, Option, none, some, or_else,
  List, [], ◌∷◌, any, if◌then◌else◌, Text, same_text, Result, ok, err, arith,
}

abbrev pub Fields : (J : Type 0) → Type 0
Fields J = Text → Option J

pub record Split (J : Type 0) : Type 0 where
  pub rest : Fields J
  pub structural : Fields J

abbrev pub is_key : List Text → Text → Bool
unfolding same_text
is_key keys x = any (same_text x) keys

module _ {J : Type 0} where
  -- `o[k] = v`
  abbrev pub assign : Text → J → Fields J → Fields J
  assign k v o = λ x. if same_text x k then some v else o x

  -- `delete o[k]`
  abbrev pub remove : Text → Fields J → Fields J
  remove k o = λ x. if same_text x k then none else o x

  -- `{ ...a, ...b }`
  abbrev pub spread : Fields J → Fields J → Fields J
  spread a b = λ x. or_else (b x) (a x)

  abbrev pub move_key : Text → Option J → Split J → Split J
  move_key k none s = s
  move_key k (some v) s = record { rest = remove k s.rest; structural = assign k v s.structural }

  -- The loop over `def.structuralKeys`.
  unfoldable pub split_keys : List Text → Split J → Split J
  unfolding same_text
  split_keys [] s = s
  split_keys (k ∷ ks) s = split_keys ks (move_key k (s.rest k) s)

  abbrev pub whole : Fields J → Split J
  whole payload = record { rest = payload; structural = λ x. none }

  abbrev pub with_structural : {M : Type 0} → Fields J → Result M (Fields J) → Result M (Fields J)
  with_structural structural (ok instance_fields) = ok (spread instance_fields structural)
  with_structural structural (err m) = err m

  -- `dto` is class-transformer's and class-validator's reading of the fields of a DTO: an instance, or
  -- the first violated constraint.
  unfoldable pub validate_payload :
      {M : Type 0} (dto : Fields J → Result M (Fields J)) (structural_keys : List Text)
      (payload : Fields J)
      → Result M (Fields J)
  unfolding split_keys
  validate_payload dto keys payload =
      let s = split_keys keys (whole payload) in with_structural s.structural (dto s.rest)

  -- The fields that are no routing keys.
  abbrev pub unrouted : List Text → Fields J → Fields J
  unrouted keys payload = λ x. if is_key keys x then none else payload x

  abbrev routed : List Text → Fields J → Fields J
  routed keys payload = λ x. if is_key keys x then payload x else none

  -- What a field of the answer is, by whether it is a routing key, and by what the payload and the DTO
  -- have of it.
  abbrev pub answered_field : (key : Bool) → (in_payload in_dto : Option J) → Option J
  answered_field true (some v) d = some v
  answered_field true none d = d
  answered_field false p d = d

same_text-≡ : (s t : Text) → same_text s t ≡ true → s ≡ t
unfolding same_text
same_text-≡ [] [] h = refl
same_text-≡ [] (d ∷ t) h = cc
same_text-≡ (c ∷ s) [] h = cc
same_text-≡ (c ∷ s) (d ∷ t) h = ground (arith, same_text-≡ s t)

module _ {J : Type 0} where
  moved_rest :
      (k : Text) (o : Option J) (s : Split J) (x : Text)
      → s.rest k ≡ o
      → (move_key k o s).rest x ≡ (if same_text x k then none else s.rest x)
  moved_rest k (some v) s x h = refl
  moved_rest k none s x h = elim (Bool-cases (same_text x k)) [
    | inl same ↦ rw same (ap s.rest (same_text-≡ x k same) ∙ h)
    | inr other ↦ rw other refl
  ]

  moved_structural :
      (k : Text) (o : Option J) (s : Split J) (x : Text)
      → s.rest k ≡ o
      → (move_key k o s).structural x
        ≡ or_else (if same_text x k then s.rest x else none) (s.structural x)
  moved_structural k o s x h = elim (Bool-cases (same_text x k)) [
    | inl same ↦ here o (ap s.rest (same_text-≡ x k same) ∙ h) same
    | inr other ↦ rw other (away o other)
  ]
    where
      here :
          (o : Option J)
          → s.rest x ≡ o
          → same_text x k ≡ true
          → (move_key k o s).structural x
            ≡ or_else (if same_text x k then s.rest x else none) (s.structural x)
      here none e same = rw (same, e) refl
      here (some v) e same = rw (same, e) refl

      away : (o : Option J) → same_text x k ≡ false → (move_key k o s).structural x ≡ s.structural x
      away none other = refl
      away (some v) other = rw other refl

  -- What is left for the DTO.
  split_rest :
      (ks : List Text) (s : Split J) (x : Text)
      → (split_keys ks s).rest x ≡ (if is_key ks x then none else s.rest x)
  unfolding split_keys
  split_rest [] s x = refl
  split_rest (k ∷ ks) s x =
      let rest = split_rest ks (move_key k (s.rest k) s) x in
      let moved = moved_rest k (s.rest k) s x refl in ground (arith, rest, moved)

  -- What is kept for the routing.
  split_structural :
      (ks : List Text) (s : Split J) (x : Text)
      → (split_keys ks s).structural x
        ≡ or_else (if is_key ks x then s.rest x else none) (s.structural x)
  unfolding split_keys
  split_structural [] s x = refl
  split_structural (k ∷ ks) s x =
      let rest = split_structural ks (move_key k (s.rest k) s) x in
      let moved = moved_structural k (s.rest k) s x refl in
      let left = moved_rest k (s.rest k) s x refl in ground (arith, rest, moved, left)

  split_answer :
      {M : Type 0} (dto : Fields J → Result M (Fields J)) (keys : List Text) (payload : Fields J)
      → validate_payload dto keys payload
        ≡ with_structural (routed keys payload) (dto (unrouted keys payload))
  unfolding validate_payload
  split_answer dto keys payload =
      let rest = fun_ext (split_rest keys (whole payload)) in
      let kept =
        fun_ext (λ x. split_structural keys (whole payload) x ∙ no_more (routed keys payload x)) in
      ap (λ r. with_structural (split_keys keys (whole payload)).structural (dto r)) rest
      ∙ ap (λ r. with_structural r (dto (unrouted keys payload))) kept
    where
      no_more : (o : Option J) → or_else o none ≡ o
      no_more none = refl
      no_more (some v) = refl

  -- The answer, by what the reading of the DTO says of the fields that it is given.
  abbrev pub AnswersAs :
      {M : Type 0} → List Text → Fields J → (read answer : Result M (Fields J)) → Type 0
  AnswersAs keys payload (err e) answer = answer ≡ err e
  AnswersAs keys payload (ok fields) answer =
      answer ≡ ok (λ x. answered_field (is_key keys x) (payload x) (fields x))

  spread_field :
      (keys : List Text) (payload fields : Fields J) (x : Text)
      → spread fields (routed keys payload) x
        ≡ answered_field (is_key keys x) (payload x) (fields x)
  spread_field keys payload fields x = by_key (is_key keys x) (payload x)
    where
      by_key :
          (k : Bool) (p : Option J)
          → or_else (if k then p else none) (fields x) ≡ answered_field k p (fields x)
      by_key true none = refl
      by_key true (some v) = refl
      by_key false none = refl
      by_key false (some v) = refl

  -- For any reading of the DTO, any routing keys and any payload: the DTO is given exactly the fields
  -- that are no routing keys; its refusal is the answer, and otherwise the answer has every routing key
  -- of the payload as the payload has it, even one that the DTO declares too, and the rest as the DTO
  -- has it.
  pub validate_payload_lem :
      {M : Type 0} (dto : Fields J → Result M (Fields J)) (keys : List Text) (payload : Fields J)
      → AnswersAs keys payload (dto (unrouted keys payload)) (validate_payload dto keys payload)
  validate_payload_lem {M = M} dto keys payload =
      by_reading (dto (unrouted keys payload)) (validate_payload dto keys payload)
        (split_answer dto keys payload)
    where
      by_reading :
          (read answer : Result M (Fields J))
          → answer ≡ with_structural (routed keys payload) read
          → AnswersAs keys payload read answer
      by_reading (err e) answer h = h
      by_reading (ok fields) answer h =
          h ∙ ap (λ f. ok f) (fun_ext (spread_field keys payload fields))
