-- ===== src/Sync/Push/Allowed.antt =====
-- What a replayed mutation has to pass before it reaches the service of another module.
use orbix_hub.Base.{
  ℕ, [], ◌∷◌, ◌++◌, find, ◌≡◌, ap, ◌⊎◌, inl, inr, refl, Bool, true, false, Bool-cases, Option, none,
  some, Option-cases, Text, Result, ok, err, ◌>>=◌,
}
use orbix_hub.Sync.{lww_discards}
use orbix_hub.Sync.Payload.{Fields, validate_payload}
use orbix_hub.Sync.Store.{
  SyncStatus, applied, operacao_desconhecida, sem_permissao, Message, SyncMutation,
  SyncMutationOutcome, SyncMutationRow, PushResultItem, with_outcome, to_result, recorded, matches,
  find_mutation, create_mutation, Db, Error, SyncOpDef, Services, Request,
}
use orbix_hub.Sync.Push.{
  refused, discarded_outcome, Cache, module_denial, current_updated_at, replay,
  replay_unless_denied, apply_op, apply_mutation, op_key, process, record_mutation, after_violation,
}

abbrev pub is_applied : SyncStatus → Bool
is_applied applied = true
is_applied _ = false

-- It is answered, not as applied, and nothing is changed before the answer is recorded.
record Refuses {W : Type 0} (r : Result Error (SyncMutationOutcome × Cache) × Db W) (s : Db W)
    : Type 0 where
  outcome : SyncMutationOutcome
  cache : Cache
  answers : r ≡ (ok (outcome, cache), s)
  not_applied : is_applied outcome.status ≡ false

module _ {W J : Type 0} (services : Services W J) (req : Request) (granted : Text → Bool) where
  -- Everything that a mutation has to pass, in the state it finds; `denial` is what the push decided
  -- for the module, now or for an earlier mutation.
  pub record Passes (m : SyncMutation J) (cache : Cache) (s : Db W) : Type 0 where
    pub op : SyncOpDef W J
    pub listed : services.sync_ops (op_key m) ≡ some op
    pub may : granted op.permission ≡ true
    pub admitted : (module_denial services op.module_key cache s.world).0 ≡ none
    pub value : Fields J
    pub is_valid : validate_payload op.dto op.structural_keys m.payload ≡ ok value
    pub wins :
        lww_discards
          (current_updated_at op req.user_id m s.world)
          m.client_updated_at
          (req.now m.client_mutation_id)
        ≡ false

  late_or_not :
      (op : SyncOpDef W J) (m : SyncMutation J) (cache : Cache) (s : Db W)
      (v : Result Message (Fields J))
      → services.sync_ops (op_key m) ≡ some op
      → granted op.permission ≡ true
      → (denial : Option Message × Cache)
      → module_denial services op.module_key cache s.world ≡ denial
      → validate_payload op.dto op.structural_keys m.payload ≡ v
      → Passes m cache s ⊎ Refuses (replay_unless_denied op req m denial s) s
  unfolding replay_unless_denied replay ◌>>=◌
  late_or_not op m cache s v l g (some message, c) d e =
      inr (record { outcome = refused message; cache = c; answers = refl; not_applied = refl })
  late_or_not op m cache s (err message) l g (none, c) d e =
      inr (record { outcome = refused message; cache = c; answers = rw e refl; not_applied = refl })
  late_or_not op m cache s (ok value) l g (none, c) d e =
      let late =
        lww_discards (current_updated_at op req.user_id m s.world) m.client_updated_at
          (req.now m.client_mutation_id) in
      elim (Bool-cases late) [
        | inl h ↦ inr (record {
          outcome = discarded_outcome;
          cache = c;
          answers = rw (e, h) refl;
          not_applied = refl;
        })
        | inr h ↦ inl (record {
          op = op;
          listed = l;
          may = g;
          admitted = ap (λ x. x.0) d;
          value = value;
          is_valid = e;
          wins = h;
        })
      ]

  applied_or_refused :
      (cache : Cache) (m : SyncMutation J) (s : Db W)
      → Passes m cache s ⊎ Refuses (apply_mutation services req granted cache m s) s
  unfolding apply_mutation apply_op ◌>>=◌
  applied_or_refused cache m s = elim (Option-cases (services.sync_ops (op_key m))) [
    | inl none_listed ↦ inr (record {
      outcome = refused operacao_desconhecida;
      cache = cache;
      answers = rw none_listed refl;
      not_applied = refl;
    })
    | inr (op, listed) ↦ elim (Bool-cases (granted op.permission)) [
      | inl may ↦ rw (listed, may) (late_or_not op m cache s _ listed may _ refl refl)
      | inr may_not ↦ inr (record {
        outcome = refused sem_permissao;
        cache = cache;
        answers = rw (listed, may_not) refl;
        not_applied = refl;
      })
    ]
  ]

  -- What a refused mutation leaves of the state that the others left.
  pub record OnlyRecorded (m : SyncMutation J) (r : Result Error (PushResultItem × Cache) × Db W)
      (t : Db W) : Type 0 where
    pub outcome : SyncMutationOutcome
    pub cache : Cache
    pub not_applied : is_applied outcome.status ≡ false
    pub ends :
        ((find (matches req.user_id m) t.ledger ≡ none)
          × (r ≡ (
            ok (with_outcome m.client_mutation_id outcome, cache),
            record t { ledger = t.ledger ++ (recorded req.user_id m outcome ∷ []) },
          )))
        ⊎ ((winner : SyncMutationRow) × ((find (matches req.user_id m) t.ledger ≡ some winner)
              × (r ≡ (ok (to_result winner, cache), t))))

  records :
      (m : SyncMutation J) (o : SyncMutationOutcome) (t : Db W)
      → ((find (matches req.user_id m) t.ledger ≡ none)
          × (record_mutation req.user_id m o t
              ≡ (ok none, record t { ledger = t.ledger ++ (recorded req.user_id m o ∷ []) })))
        ⊎ ((winner : SyncMutationRow) × ((find (matches req.user_id m) t.ledger ≡ some winner)
              × (record_mutation req.user_id m o t ≡ (ok (some winner), t))))
  unfolding record_mutation create_mutation after_violation find_mutation ◌>>=◌
  records m o t = elim (Option-cases (find (matches req.user_id m) t.ledger)) [
    | inl free ↦ inl (free, rw free refl)
    | inr (winner, taken) ↦ inr (winner, (taken, rw taken (ap (λ o. (ok o, t)) taken)))
  ]

  -- A mutation that is not recorded yet and is not on the list of operations, or not permitted
  -- to the role, or of a module that is denied, or with an invalid payload, or that loses to a
  -- later write: processing it leaves the tables of the other modules and the audit log as those
  -- who commit meanwhile left them, and the answer is not that it was applied, but for what they
  -- recorded themselves under its id, which is then the answer; otherwise the ledger gets one
  -- row, with the answer.
  pub unchecked-OnlyRecorded :
      (rivals : ℕ → Db W → Db W) (cache : Cache) (m : SyncMutation J) (s : Db W)
      → (Passes m cache s → ⊥)
      → OnlyRecorded m
          (process services rivals req granted cache m none s)
          (rivals m.client_mutation_id s)
  unfolding process ◌>>=◌
  unchecked-OnlyRecorded rivals cache m s fails = elim (applied_or_refused cache m s) [
    | inl passes ↦ absurd (fails passes)
    | inr refuses ↦ elim (records m refuses.outcome (rivals m.client_mutation_id s)) [
      | inl (free, done) ↦ record {
        outcome = refuses.outcome;
        cache = refuses.cache;
        not_applied = refuses.not_applied;
        ends = inl (free, rw (refuses.answers, done) refl);
      }
      | inr (winner, (taken, done)) ↦ record {
        outcome = refuses.outcome;
        cache = refuses.cache;
        not_applied = refuses.not_applied;
        ends = inr (winner, (taken, rw (refuses.answers, done) refl));
      }
    ]
  ]
