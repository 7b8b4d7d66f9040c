-- ===== src/Tests/Replay.antt =====
-- A tablet that replays its outbox, twice, and a counter that draws numbers.
use orbix_hub.Base.{
  ℕ, suc, ◌-◌, ◌≡◌, refl, Bool, true, false, none, some, or_default, List, [], ◌∷◌, map, ◌>>=◌, ltb,
  if◌then◌else◌, Text, same_text, Result, ok, err,
}
use orbix_hub.Billing.{active, canceled}
use orbix_hub.Sync.{finite}
use orbix_hub.Sync.Payload.{Fields, validate_payload, validate_payload_lem, AnswersAs, unrouted}
use orbix_hub.Sync.Store.{
  SyncMutationRow, error, Message, SyncMutation, Db, error_of, SyncOpDef, Services, Request,
}
use orbix_hub.Sync.Push.{push, process}
use orbix_hub.Sync.Push.Ledger.{unchanged}
use orbix_hub.Sync.Push.Answers.{Answers, push-Answers, push_again}
use orbix_hub.Sync.Push.Allowed.{OnlyRecorded, unchecked-OnlyRecorded}
use orbix_hub.NumeroSequencial.{criar_com_numero_sequencial}
use orbix_hub.NumeroSequencial.Attempts.{Answered, criar_com_numero_sequencial-Answered}

-- The payload `{ id: 7, name: 8 }`; the keys are written by their first letter.
abbrev payload : Fields ℕ
unfolding same_text
payload =
    λ x. if same_text x (105 ∷ []) then some 7 else if same_text x (110 ∷ []) then some 8 else none

-- A DTO that declares an `id` of its own.
abbrev overwriting : Fields ℕ → Result Message (Fields ℕ)
unfolding same_text
overwriting f = ok (λ x. if same_text x (105 ∷ []) then some 0 else f x)

validate_payload_example :
    AnswersAs
      ((105 ∷ []) ∷ [])
      payload
      (overwriting (unrouted ((105 ∷ []) ∷ []) payload))
      (validate_payload overwriting ((105 ∷ []) ∷ []) payload)
validate_payload_example = validate_payload_lem overwriting ((105 ∷ []) ∷ []) payload

-- Counts, and refuses from three on.
abbrev count : SyncOpDef ℕ ℕ
count = record {
  dto = λ f. ok f;
  module_key = 115 ∷ [];
  permission = 119 ∷ [];
  structural_keys = (105 ∷ []) ∷ [];
  get_updated_at = some (λ user p w. ok (some w));
  apply = λ user p w. if ltb w 3 then (ok (some w), suc w) else (err (error_of (99 ∷ [])), w);
}

abbrev services : Services ℕ ℕ
unfolding same_text
services = record {
  sync_ops = λ key. if same_text key (115 ∷ 46 ∷ 99 ∷ []) then some count else none;
  permissions_of = λ role w key. same_text key (119 ∷ []);
  get_module_access = λ key w. record { status = active; enabled = true; is_core = false };
  enforce_subscription = true;
}

abbrev without_modules : Services ℕ ℕ
without_modules = record services {
  get_module_access = λ key w. record { status = canceled; enabled = false; is_core = false };
}

abbrev seller : Request
seller = record { user_id = 5; role = 1; now = λ id. 60 }

abbrev mutation : ℕ → Text → SyncMutation ℕ
mutation id op = record {
  client_mutation_id = id;
  entity = 115 ∷ [];
  op = op;
  payload = payload;
  client_updated_at = finite 40;
}

abbrev outbox : List (SyncMutation ℕ)
outbox = mutation 1 (99 ∷ []) ∷ mutation 2 (120 ∷ []) ∷ mutation 1 (99 ∷ []) ∷ []

abbrev fresh : Db ℕ
fresh = record { world = 0; ledger = []; audit = [] }

-- Others work in the meantime, without pushing.
abbrev busy : ℕ → Db ℕ → Db ℕ
busy id d = record d { world = suc d.world }

push-Answers_example : Answers 5 outbox (push services busy seller 5 outbox) fresh
push-Answers_example = push-Answers services busy seller (λ id d. unchanged) outbox fresh

push_again_example :
    push without_modules busy seller 5 outbox (push services busy seller 5 outbox fresh).1
    ≡ push services busy seller 5 outbox fresh
push_again_example =
    push_again services without_modules busy busy seller seller (λ id d. unchanged) refl outbox
      fresh

-- There is no such operation.
unchecked-OnlyRecorded_example :
    OnlyRecorded services seller
      (λ key. true)
      (mutation 2 (120 ∷ []))
      (process services busy seller (λ key. true) [] (mutation 2 (120 ∷ [])) none fresh)
      (busy 2 fresh)
unfolding same_text
unchecked-OnlyRecorded_example =
    unchecked-OnlyRecorded services seller (λ key. true) busy [] (mutation 2 (120 ∷ [])) fresh
      (λ passes. let listed : none ≡ some passes.op = passes.listed in cc)

recorded_refusal :
    map
      (λ (r : SyncMutationRow). r.result)
      (process services busy seller (λ key. true) [] (mutation 2 (120 ∷ [])) none fresh).1.ledger
    ≡ error ∷ []
unfolding process ◌>>=◌
recorded_refusal = refl

-- The numbers up to two are taken.
abbrev draw : ℕ → ℕ → Result Bool ℕ × ℕ
draw k s = if ltb k 3 then (err true, suc s) else (ok k, s)

abbrev never : Bool → ℕ → Result Bool Bool × ℕ
never e s = (ok false, s)

criar_example :
    Answered
      (λ e. e)
      never
      draw
      (or_default none 5 - 1)
      1
      0
      (criar_com_numero_sequencial (λ e. e) never draw none 0)
criar_example = criar_com_numero_sequencial-Answered (λ e. e) never draw none 0
