-- ===== src/Sync/Push/Answers.antt =====
-- What a push answers, and what pushing the same mutations again does.
use orbix_hub.Base.{
  ℕ, ◌≡◌, refl, sym, ap, ◌∙◌, ◌==◌, ==_refl, Bool, true, inl, inr, Option, none, some, Option-cases,
  List, [], ◌∷◌, ◌++◌, find, map, Text, ok, Exec, ◌>>=◌,
}
use orbix_hub.Sync.Store.{
  SyncMutation, SyncMutationOutcome, SyncMutationRow, PushResultItem, Db, Error, Services, Request,
  to_result, recorded, matches, find_mutation,
}
use orbix_hub.Sync.Push.{Cache, answer_of, record_mutation, process, process_all, push}
use orbix_hub.Sync.Push.Ledger.{
  Extends, unchanged, inserted, Extends-trans, Extends-find, find-append_none, apply_mutation-Quiet,
}

abbrev pub result_of_row : Option SyncMutationRow → Option PushResultItem
result_of_row none = none
result_of_row (some r) = some (to_result r)

-- What the ledger says of a mutation of an author.
abbrev pub answer_in :
    {J : Type 0} → ℕ → List SyncMutationRow → SyncMutation J → Option PushResultItem
answer_in author l m = result_of_row (find (matches author m) l)

-- An answer stays what it is.
Extends-answer :
    {J : Type 0} (author : ℕ) (l k : List SyncMutationRow) (m : SyncMutation J) (a : PushResultItem)
    → Extends l k
    → answer_in author l m ≡ some a
    → answer_in author k m ≡ some a
Extends-answer author l k m a e h = elim (Option-cases (find (matches author m) l)) [
  | inl absent ↦ let clash : none ≡ some a = sym (ap result_of_row absent) ∙ h in cc
  | inr (r, found) ↦
      ap result_of_row (Extends-find l k (matches author m) r e found)
      ∙ sym (ap result_of_row found)
      ∙ h
]

-- Rivals, too, only insert rows that the unique index admits.
abbrev pub RespectsIndex : {W : Type 0} → (ℕ → Db W → Db W) → Type 0
RespectsIndex {W = W} rivals = (id : ℕ) (d : Db W) → Extends d.ledger (rivals id d).ledger

module _ {W J : Type 0} where
  -- The mutation is recorded, with the answer given.
  record Settled (author : ℕ) (m : SyncMutation J) (o : SyncMutationOutcome) (s : Db W)
      : Type 0 where
    winner : Option SyncMutationRow
    after : Db W
    runs : record_mutation author m o s ≡ (ok winner, after)
    grows : Extends s.ledger after.ledger
    answer : answer_in author after.ledger m ≡ some (answer_of m o winner)

  record_mutation-Settled :
      (author : ℕ) (m : SyncMutation J) (o : SyncMutationOutcome) (s : Db W) → Settled author m o s
  unfolding record_mutation find_mutation ◌>>=◌
  record_mutation-Settled author m o s = elim (Option-cases (find (matches author m) s.ledger)) [
    | inl free ↦ record {
      winner = none;
      after = record s { ledger = s.ledger ++ (recorded author m o ∷ []) };
      runs = rw free refl;
      grows = inserted (recorded author m o) free unchanged;
      answer = ap result_of_row (find-append_none (matches author m) s.ledger _ free ∙ own);
    }
    | inr (r, taken) ↦ record {
      winner = some r;
      after = s;
      runs = rw (taken, taken) refl;
      grows = unchanged;
      answer = ap result_of_row taken;
    }
  ]
    where
      own : find (matches author m) (recorded author m o ∷ []) ≡ some (recorded author m o)
      own = rw (==_refl author, ==_refl m.client_mutation_id) refl

  -- A mutation is processed: its answer is in the ledger from then on.
  record Stepped (author : ℕ) (m : SyncMutation J)
      (run : Exec (Db W) Error (PushResultItem × Cache)) (s : Db W) : Type 0 where
    item : PushResultItem
    cache : Cache
    after : Db W
    runs : run s ≡ (ok (item, cache), after)
    grows : Extends s.ledger after.ledger
    answer : answer_in author after.ledger m ≡ some item

  -- A list of mutations is processed.
  pub record Answers (author : ℕ) (ms : List (SyncMutation J))
      (run : Exec (Db W) Error (List PushResultItem)) (s : Db W) : Type 0 where
    pub items : List PushResultItem
    pub after : Db W
    pub runs : run s ≡ (ok items, after)
    pub grows : Extends s.ledger after.ledger
    pub answers : map (answer_in author after.ledger) ms ≡ map some items

  module _ (services : Services W J) (rivals : ℕ → Db W → Db W) (req : Request)
      (granted : Text → Bool) (respects : RespectsIndex rivals) where
    process-Stepped :
        (cache : Cache) (m : SyncMutation J) (s : Db W) (prior : Option SyncMutationRow)
        → find (matches req.user_id m) s.ledger ≡ prior
        → Stepped req.user_id m (process services rivals req granted cache m prior) s
    unfolding process ◌>>=◌
    process-Stepped cache m s (some r) h = record {
      item = to_result r;
      cache = cache;
      after = s;
      runs = refl;
      grows = unchanged;
      answer = ap result_of_row h;
    }
    process-Stepped cache m s none h =
        let q = apply_mutation-Quiet req services granted cache m s in
        let raced = rivals m.client_mutation_id q.after in
        let st = record_mutation-Settled req.user_id m q.value.0 raced in
        record {
          item = answer_of m q.value.0 st.winner;
          cache = q.value.1;
          after = st.after;
          runs = rw (q.runs, st.runs) refl;
          grows =
              Extends-trans _ _ _ (rw q.same at (respects m.client_mutation_id q.after)) st.grows;
          answer = st.answer;
        }

    process_all-Answers :
        (cache : Cache) (ms : List (SyncMutation J)) (s : Db W)
        → Answers req.user_id ms (process_all services rivals req granted cache ms) s
    unfolding process_all ◌>>=◌
    process_all-Answers cache [] s = record {
      items = [];
      after = s;
      runs = refl;
      grows = unchanged;
      answers = refl;
    }
    process_all-Answers cache (m ∷ ms) s =
        let st = process-Stepped cache m s (find (matches req.user_id m) s.ledger) refl in
        let rest = process_all-Answers st.cache ms st.after in
        record {
          items = st.item ∷ rest.items;
          after = rest.after;
          runs = rw (st.runs, rest.runs) refl;
          grows = Extends-trans _ _ _ st.grows rest.grows;
          answers = rw (Extends-answer _ _ _ m _ rest.grows st.answer, rest.answers) refl;
        }

  -- A user's own push of any list of mutations, in any state, with any registry, and with others
  -- inserting rows of their own at any mutation, never fails as a whole: it answers each mutation, in
  -- order, by what the ledger then says of it, and the ledger has only grown by rows that the unique
  -- index admits.
  pub push-Answers :
      (services : Services W J) (rivals : ℕ → Db W → Db W) (req : Request)
      → RespectsIndex rivals
      → (ms : List (SyncMutation J)) (s : Db W)
      → Answers req.user_id ms (push services rivals req req.user_id ms) s
  unfolding push ◌>>=◌
  push-Answers services rivals req respects ms s =
      let granted = services.permissions_of req.role s.world in
      let all = process_all-Answers services rivals req granted respects [] ms s in
      record {
        items = all.items;
        after = all.after;
        runs = rw (==_refl req.user_id) all.runs;
        grows = all.grows;
        answers = all.answers;
      }

  module _ (services : Services W J) (rivals : ℕ → Db W → Db W) (req : Request)
      (granted : Text → Bool) where
    known_step :
        (cache : Cache) (m : SyncMutation J) (i : PushResultItem) (s : Db W)
        (prior : Option SyncMutationRow)
        → result_of_row prior ≡ some i
        → process services rivals req granted cache m prior s ≡ (ok (i, cache), s)
    unfolding process ◌>>=◌
    known_step cache m i s none h = cc
    known_step cache m i s (some r) h =
        let same : to_result r ≡ i = cc in ap (λ x. (ok (x, cache), s)) same

    all_known :
        (cache : Cache) (ms : List (SyncMutation J)) (items : List PushResultItem) (s : Db W)
        → map (answer_in req.user_id s.ledger) ms ≡ map some items
        → process_all services rivals req granted cache ms s ≡ (ok items, s)
    unfolding process_all ◌>>=◌
    all_known cache [] [] s h = refl
    all_known cache [] (i ∷ is) s h = cc
    all_known cache (m ∷ ms) [] s h = cc
    all_known cache (m ∷ ms) (i ∷ is) s h =
        let head : answer_in req.user_id s.ledger m ≡ some i = cc in
        let tail : map (answer_in req.user_id s.ledger) ms ≡ map some is = cc in
        rw (known_step cache m i s _ head, all_known cache ms is s tail) refl

  push_known :
      (services : Services W J) (rivals : ℕ → Db W → Db W) (req : Request) (author : ℕ)
      → req.user_id ≡ author
      → (ms : List (SyncMutation J)) (items : List PushResultItem) (s : Db W)
      → map (answer_in author s.ledger) ms ≡ map some items
      → push services rivals req author ms s ≡ (ok items, s)
  unfolding push ◌>>=◌
  push_known services rivals req author e ms items s h =
      let own : (author == req.user_id) ≡ true = rw e (==_refl author) in
      let granted = services.permissions_of req.role s.world in
      rw own (all_known services rivals req granted [] ms items s (rw e h))

  -- To push the same mutations again right after, in whatever role, with whatever registry and clock,
  -- answers the same as before and changes nothing.
  pub push_again :
      (services services' : Services W J) (rivals rivals' : ℕ → Db W → Db W) (req req' : Request)
      → RespectsIndex rivals
      → req'.user_id ≡ req.user_id
      → (ms : List (SyncMutation J)) (s : Db W)
      → let first = push services rivals req req.user_id ms s in
        push services' rivals' req' req.user_id ms first.1 ≡ first
  push_again services services' rivals rivals' req req' respects same ms s =
      let a = push-Answers services rivals req respects ms s in
      rw a.runs (push_known services' rivals' req' req.user_id same ms a.items a.after a.answers)
