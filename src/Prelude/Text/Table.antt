-- ===== src/Prelude/Text/Table.antt =====
-- `HashMap<String, V>` of Rust's standard library as a list of pairs.
use mathlib.Core.Path.{◌≡◌, refl, ap, sym, ◌∙◌}
use mathlib.Core.Logic.{inl, inr}
use mathlib.Core.Bool.{true, false}
use mathlib.Core.Option.{Option, none, some}
use mathlib.Core.List.{List, [], ◌∷◌}
use native.Mathlib.Omega.{arith}
use my_mta.Prelude.Tests.{Bool-cases, if◌then◌else◌}
use my_mta.Prelude.Text.{Text, ◌=ₜ◌, =ₜ_iff}

-- `HashMap::get`
unfoldable pub get {ℓ} : {V : Type ℓ} → List (Text × V) → Text → Option V
unfolding ◌=ₜ◌
get [] key = none
get ((k, v) ∷ m) key = if k =ₜ key then some v else get m key

-- `HashMap::insert`
unfoldable pub insert {ℓ} : {V : Type ℓ} → List (Text × V) → Text → V → List (Text × V)
unfolding ◌=ₜ◌
insert [] key v = (key, v) ∷ []
insert ((k, w) ∷ m) key v = if k =ₜ key then (k, v) ∷ m else (k, w) ∷ insert m key v

pub distinct : (i k j : Text) → (i =ₜ k) ≡ false → (k =ₜ j) ≡ true → (i =ₜ j) ≡ false
distinct i k j h e = ap (λ x. i =ₜ x) (sym ((=ₜ_iff k j).0 e)) ∙ h

-- A key finds what was put under it, and every other key what it found before.
pub get-insert {ℓ} :
    {V : Type ℓ} (m : List (Text × V)) (key asked : Text) (v : V)
    → get (insert m key v) asked ≡ (if key =ₜ asked then some v else get m asked)
unfolding get insert
get-insert [] key asked v = refl
get-insert ((k, w) ∷ m) key asked v = elim (Bool-cases (k =ₜ key)) [
  | inl e ↦
      let same : k ≡ key = (=ₜ_iff k key).0 e in
      rw (e, get) (ground (arith, ap (λ x. x =ₜ asked) same))
  | inr e ↦ rw (e, get) (ground (arith, get-insert m key asked v, distinct k key asked e))
]
