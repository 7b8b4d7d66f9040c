-- ===== src/Billing.antt =====
-- Who may do what: back/src/modules/billing/subscription-access.ts and the decision of
-- back/src/modules/billing/module-access.guard.ts.
use orbix_hub.Base.{
  ◌≡◌, ◌↔◌, ◌⊎◌, Bool, true, false, not, ◌&&◌, Option, none, some, or_default, if◌then◌else◌,
  Result, ok, err, arith,
}

pub data Status : Type 0 where
  trialing active past_due canceled other : Status

abbrev pub is_paying : Status → Bool
is_paying trialing = true
is_paying active = true
is_paying _ = false

abbrev pub is_past_due : Status → Bool
is_past_due past_due = true
is_past_due _ = false

unfoldable pub subscription_allows : Status → (is_write enforce : Bool) → Bool
subscription_allows status is_write enforce =
    if not enforce
    then true
    else if is_paying status
    then true
    else is_past_due status && not is_write

-- `tenant_module` with its module.
pub record TenantModule : Type 0 where
  pub enabled : Bool
  pub is_core : Bool

pub data Refusal : Type 0 where
  unauthenticated module_not_enabled subscription_forbids : Refusal

abbrev pub enabled_of : Option TenantModule → Bool
enabled_of none = false
enabled_of (some m) = m.enabled

abbrev pub is_core_of : Option TenantModule → Bool
is_core_of none = false
is_core_of (some m) = m.is_core

-- `canActivate` of a route that requires a module.
unfoldable pub can_activate :
    (authenticated : Bool)
    → Option Status
    → Option TenantModule
    → (is_write enforce : Bool) → Result Refusal (Unit {0})
unfolding subscription_allows
can_activate authenticated sub tm is_write enforce =
    if not authenticated
    then err unauthenticated
    else if not (is_core_of tm) && not (enabled_of tm)
    then err module_not_enabled
    else if subscription_allows (or_default sub canceled) is_write enforce
    then ok tt
    else err subscription_forbids

-- The tenant has the module: its row is there, and the module is a core one or enabled.
pub record HasModule (tm : Option TenantModule) : Type 0 where
  pub row : TenantModule
  pub there : tm ≡ some row
  pub usable : (row.is_core ≡ true) ⊎ (row.enabled ≡ true)

-- In trial or active, or late with the payment and the request only reads.
abbrev pub Runs : Option Status → (is_write : Bool) → Type 0
Runs sub is_write =
    (sub ≡ some trialing) ⊎ ((sub ≡ some active) ⊎ ((sub ≡ some past_due) × (is_write ≡ false)))

-- A request passes exactly when it has a user, the tenant has the module, as a core one or
-- enabled, and the charging is not enforced, or there is a subscription that is in trial or
-- active, or late with its payment while the request only reads.
pub can_activate_iff :
    (authenticated : Bool) (sub : Option Status) (tm : Option TenantModule)
    (is_write enforce : Bool)
    → (can_activate authenticated sub tm is_write enforce ≡ ok tt)
      ↔ ((authenticated ≡ true) × (HasModule tm × ((enforce ≡ false) ⊎ Runs sub is_write)))
unfolding can_activate
can_activate_iff authenticated sub tm w e = ground arith

-- What may be written may be read: of the same user and module, a read passes where a write does.
pub write_then_read :
    (sub : Option Status) (tm : Option TenantModule) (enforce : Bool)
    → can_activate true sub tm true enforce ≡ ok tt
    → can_activate true sub tm false enforce ≡ ok tt
unfolding can_activate
write_then_read sub tm enforce h = ground arith
