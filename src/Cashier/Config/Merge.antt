-- ===== src/Cashier/Config/Merge.antt =====
-- What `mergeCashierConfig` of back/src/modules/cashier/cashier.config.ts guarantees.
use orbix_hub.Base.{◌≡◌, ◌≢◌, refl, false, some, List, [], ◌∷◌, ap}
use orbix_hub.Cashier.Config.{
  PaymentMethod, CashierConfig, PartialConfig, array, all_known, known_methods, or_all_methods,
  empty_config, merge_cashier_config,
}

-- The configuration as it is written into the settings.
abbrev pub stored : CashierConfig → PartialConfig
stored c = record {
  payment_methods = some (array (all_known c.payment_methods));
  require_open_session = some c.require_open_session;
  count_cash_only = some c.count_cash_only;
}

known_methods-all_known : (ms : List PaymentMethod) → known_methods (all_known ms) ≡ ms
known_methods-all_known [] = refl
known_methods-all_known (m ∷ ms) = ap (◌∷◌ m) (known_methods-all_known ms)

or_all_methods_ne : (ms : List PaymentMethod) → or_all_methods ms ≢ []
or_all_methods_ne [] = cc
or_all_methods_ne (m ∷ ms) = cc

or_all_methods_idem :
    (ms : List PaymentMethod) → or_all_methods (or_all_methods ms) ≡ or_all_methods ms
or_all_methods_idem [] = refl
or_all_methods_idem (m ∷ ms) = refl

-- Whatever is stored and whatever is posted, an open session is never required and the tenant is
-- never left without a payment method.
pub merge_safe :
    (current patch : PartialConfig)
    → let c = merge_cashier_config current patch in
      (c.require_open_session ≡ false) × (c.payment_methods ≢ [])
unfolding merge_cashier_config
merge_safe current patch = (refl, or_all_methods_ne _)

-- A merged configuration that is stored and read back is unchanged.
pub merge-stored :
    (current patch : PartialConfig)
    → let c = merge_cashier_config current patch in merge_cashier_config (stored c) empty_config ≡ c
unfolding merge_cashier_config
merge-stored current patch = rw (known_methods-all_known _, or_all_methods_idem _)
