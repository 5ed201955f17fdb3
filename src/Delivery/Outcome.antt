-- ===== src/Delivery/Outcome.antt =====
-- src/delivery/result.rs: what became of each recipient of a message.
pub mod Partition
use my_mta.Prelude.{
  ℕ, List, [], ◌∷◌, ◌++◌, map, Bool, true, false, ◌||◌, Option, none, some, any, all, select,
}
use my_mta.Prelude.Text.{Text}
use my_mta.Delivery.Error.{DeliveryError}

pub data RecipientResult : Type 0 where
  success : (message : Text) → RecipientResult
  permanent_failure : (error : DeliveryError) → RecipientResult
  transient_failure : (error : DeliveryError) → RecipientResult

unfoldable pub is_success : RecipientResult → Bool
is_success (success message) = true
is_success _ = false

unfoldable pub is_permanent : RecipientResult → Bool
is_permanent (permanent_failure e) = true
is_permanent _ = false

unfoldable pub is_transient : RecipientResult → Bool
is_transient (transient_failure e) = true
is_transient _ = false

unfoldable pub error_of : RecipientResult → Option DeliveryError
error_of (permanent_failure e) = some e
error_of (transient_failure e) = some e
error_of _ = none

pub record DeliveryResult : Type 0 where
  pub recipients : List (Text × RecipientResult)
  pub connected : Bool
  pub tls_used : Bool
  pub mx_server : Option Text

unfoldable pub new : Option Text → DeliveryResult
new mx_server = record {
  recipients = [];
  connected = false;
  tls_used = false;
  mx_server = mx_server;
}

unfoldable pub add_recipient : DeliveryResult → Text → RecipientResult → DeliveryResult
add_recipient r address result = record r { recipients = r.recipients ++ (address, result) ∷ [] }

unfoldable pub all_succeeded : DeliveryResult → Bool
unfolding is_success
all_succeeded r = all (λ e. is_success e.1) r.recipients

unfoldable pub all_permanent_failures : DeliveryResult → Bool
unfolding is_success is_permanent
all_permanent_failures r = all (λ e. is_success e.1 || is_permanent e.1) r.recipients

unfoldable pub has_transient_failures : DeliveryResult → Bool
unfolding is_transient
has_transient_failures r = any (λ e. is_transient e.1) r.recipients

-- `filter` and `map`
unfoldable pub addresses_with : (RecipientResult → Bool) → DeliveryResult → List Text
addresses_with p r = map (λ e. e.0) (select (λ e. p e.1) r.recipients)

unfoldable pub successful_recipients : DeliveryResult → List Text
unfolding addresses_with is_success
successful_recipients r = addresses_with is_success r

unfoldable pub permanent_failed_recipients : DeliveryResult → List Text
unfolding addresses_with is_permanent
permanent_failed_recipients r = addresses_with is_permanent r

unfoldable pub transient_failed_recipients : DeliveryResult → List Text
unfolding addresses_with is_transient
transient_failed_recipients r = addresses_with is_transient r
