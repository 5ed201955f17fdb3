-- ===== src/Spool/Files.antt =====
-- A directory: what `tokio::fs` keeps, as names with their bytes.
use my_mta.Prelude.{
  ℕ, List, [], ◌∷◌, true, Option, none, some, ◌≡◌, refl, ap, arith, Bool-cases, inl, inr,
  if◌then◌else◌,
}
use my_mta.Prelude.Text.{Text, ◌=ₜ◌, =ₜ_iff, =ₜ_refl}

abbrev pub Files : Type 0
Files = List (Text × List ℕ)

unfoldable pub read : Text → Files → Option (List ℕ)
read name [] = none
read name ((n, bytes) ∷ fs) = if n =ₜ name then some bytes else read name fs

unfoldable pub write : Text → List ℕ → Files → Files
write name bytes [] = (name, bytes) ∷ []
write name bytes ((n, old) ∷ fs) =
    let rest = write name bytes fs in if n =ₜ name then (n, bytes) ∷ fs else (n, old) ∷ rest

unfoldable pub delete : Text → Files → Files
delete name [] = []
delete name ((n, bytes) ∷ fs) =
    let rest = delete name fs in if n =ₜ name then rest else (n, bytes) ∷ rest

joins : (i j k : Text) → (i =ₜ j) ≡ true → (k =ₜ j) ≡ true → (i =ₜ k) ≡ true
joins i j k h h' = rw ((=ₜ_iff i j).0 h, (=ₜ_iff k j).0 h') (=ₜ_refl j)

-- A written file reads as it was written, and every other as before.
pub read-write :
    (name asked : Text) (bytes : List ℕ) (fs : Files)
    → read asked (write name bytes fs) ≡ (if name =ₜ asked then some bytes else read asked fs)
unfolding read write
read-write name asked bytes [] = refl
read-write name asked bytes ((n, old) ∷ fs) = elim (Bool-cases (n =ₜ name)) [
  | inl e ↦ rw (e, read) (ground (arith, ap (λ x. x =ₜ asked) ((=ₜ_iff n name).0 e)))
  | inr e ↦ rw (e, read) (ground (arith, read-write name asked bytes fs, joins n asked name))
]

-- A deleted file is gone, and every other is as before.
pub read-delete :
    (name asked : Text) (fs : Files)
    → read asked (delete name fs) ≡ (if name =ₜ asked then none else read asked fs)
unfolding read delete
read-delete name asked [] = ground arith
read-delete name asked ((n, old) ∷ fs) = elim (Bool-cases (n =ₜ name)) [
  | inl e ↦
      rw (e, read)
        (ground (arith, read-delete name asked fs, ap (λ x. x =ₜ asked) ((=ₜ_iff n name).0 e)))
  | inr e ↦ rw (e, read) (ground (arith, read-delete name asked fs, joins n asked name))
]
