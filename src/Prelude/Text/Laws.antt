-- ===== src/Prelude/Text/Laws.antt =====
-- Laws of the text functions.
use Prim.Native.Nat.{ℕ, ◌<◌}
use mathlib.Core.Path.{◌≡◌, refl}
use mathlib.Core.Bool.{Bool, false}
use mathlib.Core.Option.{none, some}
use mathlib.Core.List.{[], ◌∷◌, ◌++◌}
use native.Mathlib.Omega.{arith}
use my_mta.Prelude.Tests.{◌==◌}
use my_mta.Prelude.Lists.{All, any}
use my_mta.Prelude.Text.{Text, trim_end_matches, split_once, rsplit_once, as_bytes}

-- No character of the text passes the test.
abbrev pub Lacks : (ℕ → Bool) → Text → Type 0
Lacks p s = All (λ c. p c ≡ false) s

pub Lacks-any : (p : ℕ → Bool) (s : Text) → any p s ≡ false → Lacks p s
Lacks-any p [] h = tt
Lacks-any p (c ∷ s) h = (ground arith, Lacks-any p s (ground arith))

-- What has no such character keeps its end.
pub trim_end_matches-Lacks : (p : ℕ → Bool) (s : Text) → Lacks p s → trim_end_matches p s ≡ s
unfolding trim_end_matches
trim_end_matches-Lacks p [] h = refl
trim_end_matches-Lacks p (c ∷ s) h = ground (arith, trim_end_matches-Lacks p s h.1)

-- A tail of such characters goes.
pub trim_end_matches-append :
    (p : ℕ → Bool) (s t : Text)
    → Lacks p s
    → trim_end_matches p t ≡ []
    → trim_end_matches p (s ++ t) ≡ s
unfolding trim_end_matches
trim_end_matches-append p [] t h e = e
trim_end_matches-append p (c ∷ s) t h e = ground (arith, trim_end_matches-append p s t h.1 e)

-- A text whose last character stays is not trimmed.
pub trim_end_matches-last :
    (p : ℕ → Bool) (s : Text) (d : ℕ) → p d ≡ false → trim_end_matches p (s ++ d ∷ []) ≡ s ++ d ∷ []
unfolding trim_end_matches
trim_end_matches-last p [] d e = ground arith
trim_end_matches-last p (c ∷ []) d e = ground arith
trim_end_matches-last p (c ∷ b ∷ s) d e = ground (arith, trim_end_matches-last p (b ∷ s) d e)

pub split_once-append :
    (d : ℕ) (s t : Text) → Lacks (λ c. c == d) s → split_once d (s ++ d ∷ t) ≡ some (s, t)
unfolding split_once
split_once-append d [] t h = ground arith
split_once-append d (c ∷ s) t h = ground (arith, split_once-append d s t h.1)

-- The parts spell the text, and the first has no separator.
pub split_once_sound :
    (d : ℕ) (s a b : Text) → split_once d s ≡ some (a, b) → (s ≡ a ++ d ∷ b) × Lacks (λ c. c == d) a
unfolding split_once
split_once_sound d [] a b e = ground arith
split_once_sound d (c ∷ s) [] b e = ground arith
split_once_sound d (c ∷ s) (x ∷ a) b e = ground (arith, split_once_sound d s a b)

pub rsplit_once-Lacks : (d : ℕ) (s : Text) → Lacks (λ c. c == d) s → rsplit_once d s ≡ none
unfolding rsplit_once
rsplit_once-Lacks d [] h = refl
rsplit_once-Lacks d (c ∷ s) h = ground (arith, rsplit_once-Lacks d s h.1)

pub rsplit_once-append :
    (d : ℕ) (s t : Text) → Lacks (λ c. c == d) t → rsplit_once d (s ++ d ∷ t) ≡ some (s, t)
unfolding rsplit_once
rsplit_once-append d [] t h = ground (arith, rsplit_once-Lacks d t h)
rsplit_once-append d (c ∷ s) t h = ground (arith, rsplit_once-append d s t h)

pub rsplit_once-none : (d : ℕ) (s : Text) → rsplit_once d s ≡ none → Lacks (λ c. c == d) s
unfolding rsplit_once
rsplit_once-none d [] e = tt
rsplit_once-none d (c ∷ s) e = ground (arith, rsplit_once-none d s)

pub rsplit_once_sound :
    (d : ℕ) (s a b : Text)
    → rsplit_once d s ≡ some (a, b)
    → (s ≡ a ++ d ∷ b) × Lacks (λ c. c == d) b
unfolding rsplit_once
rsplit_once_sound d [] a b e = ground arith
rsplit_once_sound d (c ∷ s) [] b e = ground (arith, rsplit_once-none d s)
rsplit_once_sound d (c ∷ s) (x ∷ a) b e = ground (arith, rsplit_once_sound d s a b)

-- ASCII text is its own encoding.
pub as_bytes-ascii : (s : Text) → All (λ c. c < 0x80) s → as_bytes s ≡ s
unfolding as_bytes
as_bytes-ascii [] h = refl
as_bytes-ascii (c ∷ s) h = ground (arith, as_bytes-ascii s h.1)
