-- ===== src/Sync/Pull/Complete.antt =====
-- A device that pulls page after page, by `getChanges` of back/src/modules/sync/sync.service.ts, until it is told
-- that there is no more.
use orbix_hub.Base.{
  ℕ, zero, suc, ◌*◌, ◌≤◌, ◌≡◌, refl, true, false, Bool-cases, inl, inr, Option, none, some,
  or_default, List, [], ◌∷◌, ◌++◌, length, take, drop, if◌then◌else◌, leb, Text, Exec, Result, ok,
  pure, ◌>>=◌, arith,
}
use orbix_hub.ChangedSince.{
  ChangeCursor, ChangedSincePage, changed_since, query_changed_since, page_of, last_stamp,
  clamp_changed_since_limit,
}
use orbix_hub.ChangedSince.Order.{Distinct, Ascending, order-Ascending, keep-Distinct}
use orbix_hub.ChangedSince.Pages.{
  take-drop, length-drop, short-take, end_of, end-drop, changed-next,
}
use orbix_hub.Sync.Store.{Services}
use orbix_hub.Sync.Push.{resolve_module_denial}
use orbix_hub.Sync.Pull.{
  PullRouteDef, PullChangesQuery, Refusal, whole, list_changed_since, get_changes,
}

-- What a device has taken, and the cursor that it keeps.
pub record Pulled (A : Type 0) : Type 0 where
  pub rows : List A
  pub cursor : Option ChangeCursor

-- The query from a cursor.
abbrev pub since : Option ChangeCursor → PullChangesQuery → PullChangesQuery
since none q = record q { since_ts = none; since_id = none }
since (some c) q = record q { since_ts = some c.ts; since_id = some c.id }

abbrev pub limit_of : PullChangesQuery → ℕ
unfolding clamp_changed_since_limit
limit_of q = clamp_changed_since_limit (whole (or_default q.limit 500))

abbrev pub advance : Option ChangeCursor → Option ChangeCursor → Option ChangeCursor
advance none old = old
advance (some c) old = some c

abbrev pub prepend : {A : Type 0} → List A → Pulled A → Pulled A
prepend rows p = record p { rows = rows ++ p.rows }

module _ {W A : Type 0} where
  -- With what is next, if there is more.
  abbrev pub go_on :
      Exec W Refusal (Pulled A)
      → (next : Option ChangeCursor) → ChangedSincePage A
      → Exec W Refusal (Pulled A)
  go_on rest next page =
      if page.has_more
      then (rest >>= λ p. pure (prepend page.rows p))
      else pure (record { rows = page.rows; cursor = next })

module _ {W A J : Type 0} (stamp : A → ChangeCursor) (services : Services W J)
    (pull_routes : Text → Option (PullRouteDef W A)) (role now : ℕ) (query : PullChangesQuery) where
  unfoldable pub download : (requests : ℕ) → Option ChangeCursor → Exec W Refusal (Pulled A)
  unfolding get_changes
  download zero cursor = pure (record { rows = []; cursor = cursor })
  download (suc n) cursor = do
    c ← get_changes stamp services pull_routes role now (since cursor query)
    let next = advance c.page.next_cursor cursor
    go_on (download n next) next c.page

  -- The user may read the entity.
  pub record Readable (w : W) : Type 0 where
    pub route : PullRouteDef W A
    pub read : W → List A
    pub known : pull_routes query.entity ≡ some route
    pub owned : route.tables query.entity ≡ some read
    pub permitted : services.permissions_of role w route.permission ≡ true
    pub unlocked : resolve_module_denial services route.module_key false w ≡ none

  clamp-whole : (n : ℕ) → 1 ≤ n → n ≤ 500 → clamp_changed_since_limit (whole n) ≡ n
  unfolding clamp_changed_since_limit
  clamp-whole n h k = ground arith

  limit-bounds : (1 ≤ limit_of query) × (limit_of query ≤ 500)
  unfolding clamp_changed_since_limit
  limit-bounds = ground arith

  answered :
      (w : W) (c : Option ChangeCursor) (r : Readable w)
      → get_changes stamp services pull_routes role now (since c query) w ≡ (
        ok (record {
          page = query_changed_since stamp (r.read w) c (limit_of query);
          server_time = now;
        }),
        w,
      )
  unfolding get_changes list_changed_since ◌>>=◌
  answered w none r =
      rw
        (
          r.known,
          r.permitted,
          r.unlocked,
          r.owned,
          clamp-whole (limit_of query) limit-bounds.0 limit-bounds.1,
        )
        refl
  answered w (some c) r =
      rw
        (
          r.known,
          r.permitted,
          r.unlocked,
          r.owned,
          clamp-whole (limit_of query) limit-bounds.0 limit-bounds.1,
        )
        refl

  module _ (w : W) (r : Readable w) (distinct : Distinct stamp (r.read w)) where
    -- The rows, and the cursor at their end.
    abbrev Taken : Option ChangeCursor → List A → Result Refusal (Pulled A) × W
    Taken c xs = (ok (record { rows = xs; cursor = end_of stamp c xs }), w)

    abbrev Downloads : ℕ → Type 0
    Downloads n =
        (c : Option ChangeCursor)
        → length (changed_since stamp c (r.read w)) ≤ n * limit_of query
        → download n c w ≡ Taken c (changed_since stamp c (r.read w))

    next_page :
        (n : ℕ)
        → Downloads n
        → (c : Option ChangeCursor) (k : ℕ) → limit_of query ≡ suc k
        → (xs : List A) → changed_since stamp c (r.read w) ≡ xs
        → length xs ≤ suc n * limit_of query
        → let page = page_of stamp (suc k) (take (suc k) xs) in
          let next = advance page.next_cursor c in go_on (download n next) next page w ≡ Taken c xs
    unfolding ◌>>=◌
    next_page n rest c k l [] e h = refl
    next_page n rest c k l (x ∷ xs) e h =
        let d = last_stamp stamp x (take k xs) in
        let after : changed_since stamp (some d) (r.read w) ≡ drop k xs =
          changed-next stamp (r.read w) c x xs k distinct e in
        elim (Bool-cases (leb (suc k) (suc (length (take k xs))))) [
          | inl more ↦
              let left : length (drop k xs) ≤ n * limit_of query =
                omega (arith, length-drop k xs, h, l) in
              let then_ = rest (some d) (rw after left) in
              rw (more, then_, after, end-drop stamp x xs k, take-drop k xs) refl
          | inr no_more ↦ rw (no_more, short-take k xs (ground arith)) refl
        ]

    downloads : (n : ℕ) → Downloads n
    unfolding download ◌>>=◌ query_changed_since
    downloads zero c h = nothing_left (changed_since stamp c (r.read w)) (omega (arith, h))
      where
        nothing_left : (xs : List A) → length xs ≤ 0 → Taken c [] ≡ Taken c xs
        nothing_left [] k = refl
        nothing_left (x ∷ xs) k = absurd (omega (arith, k))
    downloads (suc n) c h = rw (answered w c r) (paged (downloads n) (limit_of query) refl)
      where
        paged :
            Downloads n
            → (l : ℕ) → limit_of query ≡ l
            → let page = query_changed_since stamp (r.read w) c l in
              let next = advance page.next_cursor c in
              go_on (download n next) next page w ≡ Taken c (changed_since stamp c (r.read w))
        paged rest zero e = absurd (omega (arith, e, limit-bounds.0))
        paged rest (suc k) e = next_page n rest c k e (changed_since stamp c (r.read w)) refl h

-- A user who may read an entity, whose rows have distinct ids, asks from any cursor for page after page as long
-- as more is announced. As many requests as the rows past the cursor need, at the size of a page asked for (500 at
-- most), take all of them, each once and in ascending order of their stamps, and leave the cursor of the last.
pub download_lem :
    {W A J : Type 0} (stamp : A → ChangeCursor) (services : Services W J)
    (pull_routes : Text → Option (PullRouteDef W A)) (role now : ℕ) (query : PullChangesQuery)
    (w : W) (r : Readable stamp services pull_routes role now query w)
    → Distinct stamp (r.read w)
    → (requests : ℕ) (c : Option ChangeCursor)
    → length (changed_since stamp c (r.read w)) ≤ requests * limit_of query
    → (download stamp services pull_routes role now query requests c w ≡ (
      ok (record {
        rows = changed_since stamp c (r.read w);
        cursor = end_of stamp c (changed_since stamp c (r.read w));
      }),
      w,
    ))
      × Ascending stamp (changed_since stamp c (r.read w))
unfolding changed_since
download_lem stamp services pull_routes role now query w r d n c h = (
  downloads stamp services pull_routes role now query w r d n c h,
  order-Ascending stamp _ (keep-Distinct stamp _ _ d),
)
