-- ===== src/Tests/Access.antt =====
-- A shop whose payment is late, a tablet whose clock is ahead, and a sale with a discount too large.
use orbix_hub.Base.{◌≡◌, ◌↔◌, ◌⊎◌, Option, true, false, some, ok}
use orbix_hub.Billing.{
  Status, past_due, TenantModule, HasModule, Runs, can_activate, can_activate_iff,
}

abbrev cashier_module : TenantModule
cashier_module = record { enabled = true; is_core = false }

abbrev late : Option Status
late = some past_due

-- Reading is what a late payment leaves.
can_activate_example :
    (can_activate true late (some cashier_module) false true ≡ ok tt)
    ↔ ((true ≡ true) × (HasModule (some cashier_module) × ((true ≡ false) ⊎ Runs late false)))
can_activate_example = can_activate_iff true late (some cashier_module) false true
