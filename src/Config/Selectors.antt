-- ===== src/Config/Selectors.antt =====
-- The lookups of DKIM selectors of src/config.rs. The list of the selectors is in the map's iteration
-- order.
use my_mta.Prelude.{List, [], ◌∷◌, select, Bool, ◌&&◌, Option, none, some, if◌then◌else◌}
use my_mta.Prelude.Text.{Text, ◌=ₜ◌}
use my_mta.Prelude.Text.Table.{get}
use my_mta.Config.{DkimSelectorConfig, Floats, Config}

-- `iter().find(..)`
unfoldable pub find_entry {ℓ} : {A : Type ℓ} → (A → Bool) → List A → Option A
find_entry p [] = none
find_entry p (x ∷ xs) = if p x then some x else find_entry p xs

module _ (floats : Floats) where
  unfoldable pub get_dkim_selector : Config floats → Text → Option DkimSelectorConfig
  get_dkim_selector cfg name = get cfg.dkim_selectors name

  unfoldable pub find_dkim_selector_for_domain :
      Config floats → Text → Option Text → Option (Text × DkimSelectorConfig)
  unfolding find_entry ◌=ₜ◌
  find_dkim_selector_for_domain cfg domain (some selector) =
      find_entry (λ e. e.0 =ₜ selector && e.1.domain =ₜ domain) cfg.dkim_selectors
  find_dkim_selector_for_domain cfg domain none =
      find_entry (λ e. e.1.domain =ₜ domain) cfg.dkim_selectors

  unfoldable pub get_dkim_selectors_for_domain :
      Config floats → Text → List (Text × DkimSelectorConfig)
  unfolding ◌=ₜ◌
  get_dkim_selectors_for_domain cfg domain = select (λ e. e.1.domain =ₜ domain) cfg.dkim_selectors
