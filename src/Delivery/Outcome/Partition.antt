-- ===== src/Delivery/Outcome/Partition.antt =====
-- Every recipient of src/delivery/result.rs is in one of the three groups.
use my_mta.Prelude.{
  ◌+◌, List, [], ◌∷◌, map, select, Bool, not, ◌≡◌, refl, arith, length, ◌||◌, any, all,
}
use my_mta.Prelude.Text.{Text}
use my_mta.Delivery.Outcome.{
  RecipientResult, DeliveryResult, is_success, is_permanent, is_transient, success,
  permanent_failure, transient_failure, successful_recipients, permanent_failed_recipients,
  transient_failed_recipients, all_permanent_failures, has_transient_failures, addresses_with,
}

addresses_of : (RecipientResult → Bool) → List (Text × RecipientResult) → List Text
addresses_of p rs = map (λ e. e.0) (select (λ e. p e.1) rs)

counts :
    (rs : List (Text × RecipientResult))
    → length (addresses_of is_success rs)
        + length (addresses_of is_permanent rs)
        + length (addresses_of is_transient rs)
      ≡ length rs
unfolding addresses_of is_success is_permanent is_transient
counts [] = refl
counts ((x, success message) ∷ rs) = ground (arith, counts rs)
counts ((x, permanent_failure e) ∷ rs) = ground (arith, counts rs)
counts ((x, transient_failure e) ∷ rs) = ground (arith, counts rs)

agree :
    (rs : List (Text × RecipientResult))
    → all (λ e. is_success e.1 || is_permanent e.1) rs ≡ not (any (λ e. is_transient e.1) rs)
unfolding is_success is_permanent is_transient
agree [] = refl
agree ((x, success message) ∷ rs) = agree rs
agree ((x, permanent_failure e) ∷ rs) = agree rs
agree ((x, transient_failure e) ∷ rs) = refl

-- The three lists of recipients together are as long as the list of all recipients, and a message
-- has only final outcomes exactly if no recipient is to be tried again.
groups_are_all :
    (r : DeliveryResult)
    → (length (successful_recipients r)
          + length (permanent_failed_recipients r)
          + length (transient_failed_recipients r)
        ≡ length r.recipients)
      × (all_permanent_failures r ≡ not (has_transient_failures r))
unfolding successful_recipients permanent_failed_recipients transient_failed_recipients
    all_permanent_failures has_transient_failures addresses_of addresses_with
groups_are_all r = (counts r.recipients, agree r.recipients)
