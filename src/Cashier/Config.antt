-- ===== src/Cashier/Config.antt =====
-- back/src/modules/cashier/cashier.config.ts: the enumerations of the cash book, the tenant's
-- configuration, and the closing arithmetic.
pub mod Merge
use orbix_hub.Base.{
  ℕ, ◌+◌, Bool, true, false, Option, none, some, List, [], ◌∷◌, or_default, ℤ, sub_ℕ, ◌-ℤ◌, pos,
}

pub data PaymentMethod : Type 0 where
  pix dinheiro cartao_credito cartao_debito outro : PaymentMethod

pub data EntryCategory : Type 0 where
  os_payment venda_avulsa despesa sangria suprimento : EntryCategory

pub data EntryDirection : Type 0 where
  incoming outgoing : EntryDirection

pub data SaleKind : Type 0 where
  os sale expense : SaleKind

abbrev pub payment_methods : List PaymentMethod
payment_methods = pix ∷ dinheiro ∷ cartao_credito ∷ cartao_debito ∷ outro ∷ []

-- The direction is derived from the category, never taken from the client.
unfoldable pub direction_for_category : EntryCategory → EntryDirection
direction_for_category despesa = outgoing
direction_for_category sangria = outgoing
direction_for_category _ = incoming

pub record CashierConfig : Type 0 where
  pub payment_methods : List PaymentMethod
  pub require_open_session : Bool
  pub count_cash_only : Bool

-- A label found in the stored or posted list: one of the known methods, or any other value.
pub data Label : Type 0 where
  known : PaymentMethod → Label
  unknown : Label

-- What stands under `paymentMethods` in the JSON.
pub data RawMethods : Type 0 where
  not_array : RawMethods
  array : List Label → RawMethods

pub record PartialConfig : Type 0 where
  pub payment_methods : Option RawMethods
  pub require_open_session : Option Bool
  pub count_cash_only : Option Bool

abbrev pub empty_config : PartialConfig
empty_config = record {
  payment_methods = none;
  require_open_session = none;
  count_cash_only = none;
}

abbrev pub all_known : List PaymentMethod → List Label
all_known [] = []
all_known (m ∷ ms) = known m ∷ all_known ms

abbrev known_methods : List Label → List PaymentMethod
known_methods [] = []
known_methods (known m ∷ ls) = m ∷ known_methods ls
known_methods (unknown ∷ ls) = known_methods ls

abbrev filtered_methods : RawMethods → List PaymentMethod
filtered_methods not_array = []
filtered_methods (array ls) = known_methods ls

abbrev or_all_methods : List PaymentMethod → List PaymentMethod
or_all_methods [] = payment_methods
or_all_methods (m ∷ ms) = m ∷ ms

-- Both arguments are partial: a missing current value falls to the default.
unfoldable pub merge_cashier_config : PartialConfig → PartialConfig → CashierConfig
merge_cashier_config current patch =
    let base = or_default current.payment_methods (array (all_known payment_methods)) in
    let raw = or_default patch.payment_methods base in
    record {
      payment_methods = or_all_methods (filtered_methods raw);
      require_open_session = false;
      count_cash_only = or_default patch.count_cash_only (or_default current.count_cash_only true);
    }

-- Amounts in cents: sums of whole cents, on which `round2` is the identity.
unfoldable pub compute_expected : (opening total_in total_out : ℕ) → ℤ
compute_expected opening total_in total_out = sub_ℕ (opening + total_in) total_out

unfoldable pub compute_difference : (counted : ℕ) (expected : ℤ) → ℤ
compute_difference counted expected = pos counted -ℤ expected
