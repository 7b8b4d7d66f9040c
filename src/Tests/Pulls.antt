-- ===== src/Tests/Pulls.antt =====
-- A tablet that pulls the sales, two at a time, from where it stood.
use orbix_hub.Base.{ℕ, ◌*◌, ◌≡◌, ◌≤◌, refl, true, none, some, List, [], ◌∷◌, length, ok, arith}
use orbix_hub.Billing.{past_due}
use orbix_hub.ChangedSince.{ChangeCursor, changed_since, clamp_changed_since_limit}
use orbix_hub.ChangedSince.Order.{Ascending, Distinct}
use orbix_hub.ChangedSince.Pages.{end_of}
use orbix_hub.Sync.Store.{Services}
use orbix_hub.Sync.Push.{resolve_module_denial}
use orbix_hub.Sync.Pull.{PullRouteDef, PullChangesQuery}
use orbix_hub.Sync.Pull.Complete.{Readable, limit_of, download, download_lem}

-- A row is its own stamp.
abbrev sales : List ChangeCursor
sales =
    record { ts = 9; id = 1 }
    ∷ record { ts = 4; id = 2 }
    ∷ record { ts = 9; id = 3 }
    ∷ record { ts = 7; id = 4 }
    ∷ []

abbrev stamp : ChangeCursor → ChangeCursor
stamp r = r

-- A subscription that is past due lets read.
abbrev services : Services (List ChangeCursor) ℕ
services = record {
  sync_ops = λ key. none;
  permissions_of = λ role w key. true;
  get_module_access = λ key w. record { status = past_due; enabled = true; is_core = true };
  enforce_subscription = true;
}

abbrev sale_route : PullRouteDef (List ChangeCursor) ChangeCursor
sale_route = record {
  tables = λ entity. some (λ w. w);
  module_key = 115 ∷ [];
  permission = 114 ∷ [];
}

abbrev query : PullChangesQuery
query = record { entity = 115 ∷ []; since_ts = none; since_id = none; limit = some 2 }

abbrev known_until : ChangeCursor
known_until = record { ts = 4; id = 2 }

readable : Readable stamp services (λ entity. some sale_route) 1 60 query sales
unfolding resolve_module_denial
readable = record {
  route = sale_route;
  read = λ w. w;
  known = refl;
  owned = refl;
  permitted = refl;
  unlocked = refl;
}

three_left :
    changed_since stamp (some known_until) sales
    ≡ record { ts = 7; id = 4 } ∷ record { ts = 9; id = 1 } ∷ record { ts = 9; id = 3 } ∷ []
unfolding changed_since
three_left = refl

enough : length (changed_since stamp (some known_until) sales) ≤ 2 * limit_of query
unfolding changed_since clamp_changed_since_limit
enough = omega arith

sales-Distinct : Distinct stamp sales
sales-Distinct = ((refl, (refl, (refl, tt))), ((refl, (refl, tt)), ((refl, tt), (tt, tt))))

download_example :
    (download stamp services (λ entity. some sale_route) 1 60 query 2 (some known_until) sales ≡ (
      ok (record {
        rows = changed_since stamp (some known_until) sales;
        cursor = end_of stamp (some known_until) (changed_since stamp (some known_until) sales);
      }),
      sales,
    ))
    × Ascending stamp (changed_since stamp (some known_until) sales)
unfolding readable
download_example =
    download_lem stamp services (λ entity. some sale_route) 1 60 query sales readable sales-Distinct
      2 (some known_until) enough
