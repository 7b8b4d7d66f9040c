-- ===== src/Sync/Push/Ledger.antt =====
-- The ledger of replayed mutations: rows are only added, and only for an author and an id that have none.
use orbix_hub.Base.{
  ℕ, ◌≡◌, refl, ap, ◌∙◌, Bool, true, false, Option, none, some, List, [], ◌∷◌, ◌++◌, find, Text,
  Result, ok, err, Exec, continue, arith, gets, pure, ◌>>=◌, if◌then◌else◌,
}
use orbix_hub.Sync.Payload.{Fields, validate_payload}
use orbix_hub.Sync.Store.{
  Message, SyncMutation, SyncMutationRow, Db, Thrown, Error, SyncOpDef, Services, Request,
  by_author,
}
use orbix_hub.Sync.Push.{
  Cache, try_service, log_overwrite, after_apply, replay, replay_unless_denied, apply_op,
  apply_mutation, op_key,
}

-- What may happen to the table under its unique index.
pub data Extends : List SyncMutationRow → List SyncMutationRow → Type 0 where
  unchanged : {l : List SyncMutationRow} → Extends l l
  inserted :
      {l k : List SyncMutationRow} (r : SyncMutationRow)
      → find (by_author r.author_user_id r.client_mutation_id) l ≡ none
      → Extends (l ++ (r ∷ [])) k
      → Extends l k

pub Extends-trans : (l k j : List SyncMutationRow) → Extends l k → Extends k j → Extends l j
Extends-trans l k j unchanged f = f
Extends-trans l k j (inserted r h e) f = inserted r h (Extends-trans (l ++ (r ∷ [])) k j e f)

find-append :
    (p : SyncMutationRow → Bool) (l k : List SyncMutationRow) (r : SyncMutationRow)
    → find p l ≡ some r
    → find p (l ++ k) ≡ some r
find-append p [] k r h = cc
find-append p (x ∷ l) k r h = ground (arith, find-append p l k r)

pub find-append_none :
    (p : SyncMutationRow → Bool) (l k : List SyncMutationRow)
    → find p l ≡ none
    → find p (l ++ k) ≡ find p k
find-append_none p [] k h = refl
find-append_none p (x ∷ l) k h = ground (arith, find-append_none p l k)

-- A recorded outcome stays what it is.
pub Extends-find :
    (l k : List SyncMutationRow) (p : SyncMutationRow → Bool) (r : SyncMutationRow)
    → Extends l k
    → find p l ≡ some r
    → find p k ≡ some r
Extends-find l k p r unchanged h = h
Extends-find l k p r (inserted x q e) h =
    Extends-find (l ++ (x ∷ [])) k p r e (find-append p l (x ∷ []) r h)

module _ {W : Type 0} where
  -- A method that never throws and leaves the ledger as it is.
  pub record Quiet {A : Type 0} (m : Exec (Db W) Error A) (s : Db W) : Type 0 where
    pub value : A
    pub after : Db W
    pub runs : m s ≡ (ok value, after)
    pub same : after.ledger ≡ s.ledger

  Quiet-bind :
      {A B : Type 0} (m : Exec (Db W) Error A) (f : A → Exec (Db W) Error B) (s : Db W)
      (q : Quiet m s)
      → Quiet (f q.value) q.after
      → Quiet (m >>= f) s
  unfolding ◌>>=◌
  Quiet-bind m f s q r = record {
    value = r.value;
    after = r.after;
    runs = ap (continue f) q.runs ∙ r.runs;
    same = r.same ∙ q.same;
  }

  Quiet-pure : {A : Type 0} (a : A) (s : Db W) → Quiet (pure a) s
  unfolding ◌>>=◌
  Quiet-pure a s = record { value = a; after = s; runs = refl; same = refl }

  Quiet-bind_gets :
      {A B : Type 0} (g : Db W → A) (f : A → Exec (Db W) Error B) (s : Db W)
      → Quiet (f (g s)) s
      → Quiet (gets g >>= f) s
  unfolding ◌>>=◌
  Quiet-bind_gets g f s q = record {
    value = q.value;
    after = q.after;
    runs = q.runs;
    same = q.same;
  }

  Quiet-try_service : {A : Type 0} (m : Exec W Thrown A) (s : Db W) → Quiet (try_service m) s
  unfolding ◌>>=◌
  Quiet-try_service m s = record {
    value = (m s.world).0;
    after = record s { world = (m s.world).1 };
    runs = refl;
    same = refl;
  }

  Quiet-if :
      {A : Type 0} (b : Bool) (m n : Exec (Db W) Error A) (s : Db W)
      → Quiet m s
      → Quiet n s
      → Quiet (if b then m else n) s
  Quiet-if true m n s p q = p
  Quiet-if false m n s p q = q

module _ {W J : Type 0} (req : Request) where
  log_overwrite-Quiet :
      (m : SyncMutation J) (current id : Option ℕ) (s : Db W)
      → Quiet (log_overwrite req m current id) s
  unfolding log_overwrite ◌>>=◌
  log_overwrite-Quiet m none id s = Quiet-pure tt s
  log_overwrite-Quiet m (some t) id s = record {
    value = tt;
    after = (log_overwrite req m (some t) id s).1;
    runs = refl;
    same = refl;
  }

  after_apply-Quiet :
      (m : SyncMutation J) (current : Option ℕ) (r : Result Thrown (Option ℕ)) (s : Db W)
      → Quiet (after_apply req m current r) s
  unfolding after_apply
  after_apply-Quiet m current (err e) s = Quiet-pure _ s
  after_apply-Quiet m current (ok id) s =
      let q = log_overwrite-Quiet m current id s in Quiet-bind _ _ s q (Quiet-pure _ q.after)

  replay-Quiet :
      (op : SyncOpDef W J) (m : SyncMutation J) (v : Result Message (Fields J)) (s : Db W)
      → Quiet (replay op req m v) s
  unfolding replay
  replay-Quiet op m (err message) s = Quiet-pure _ s
  replay-Quiet op m (ok value) s = Quiet-bind_gets _ _ s (
      Quiet-if _ _ _ s (Quiet-pure _ s) (
        let q = Quiet-try_service (op.apply req.user_id value) s in
        Quiet-bind _ _ s q (after_apply-Quiet m _ q.value q.after)))

  unless_denied-Quiet :
      (op : SyncOpDef W J) (m : SyncMutation J) (denial : Option Message × Cache) (s : Db W)
      → Quiet (replay_unless_denied op req m denial) s
  unfolding replay_unless_denied
  unless_denied-Quiet op m (some message, cache) s = Quiet-pure _ s
  unless_denied-Quiet op m (none, cache) s =
      let q = replay-Quiet op m (validate_payload op.dto op.structural_keys m.payload) s in
      Quiet-bind _ _ s q (Quiet-pure _ q.after)

  module _ (services : Services W J) (granted : Text → Bool) where
    apply_op-Quiet :
        (cache : Cache) (m : SyncMutation J) (op : Option (SyncOpDef W J)) (s : Db W)
        → Quiet (apply_op services req granted cache m op) s
    unfolding apply_op
    apply_op-Quiet cache m none s = Quiet-pure _ s
    apply_op-Quiet cache m (some op) s =
        Quiet-if _ _ _ s (Quiet-pure _ s) (Quiet-bind_gets _ _ s (unless_denied-Quiet op m _ s))

    pub apply_mutation-Quiet :
        (cache : Cache) (m : SyncMutation J) (s : Db W)
        → Quiet (apply_mutation services req granted cache m) s
    unfolding apply_mutation
    apply_mutation-Quiet cache m s = apply_op-Quiet cache m (services.sync_ops (op_key m)) s
