-- ===== src/Prelude/Text/Bytes.antt =====
-- The UTF-8 bytes of texts.
use Prim.Native.Nat.{ℕ}
use mathlib.Core.Path.{◌≡◌, refl, sym}
use mathlib.Core.Bool.{false}
use mathlib.Core.List.{[], ◌∷◌, ◌++◌, append_assoc}
use native.Mathlib.Omega.{arith}
use my_mta.Prelude.Tests.{◌==◌}
use my_mta.Prelude.Lists.{All-append}
use my_mta.Prelude.Text.{Text, utf8, as_bytes}
use my_mta.Prelude.Text.Laws.{Lacks}

pub as_bytes-append : (s t : Text) → as_bytes (s ++ t) ≡ as_bytes s ++ as_bytes t
unfolding as_bytes
as_bytes-append [] t = refl
as_bytes-append (c ∷ s) t =
    rw (as_bytes-append s t) (sym (append_assoc (utf8 c) (as_bytes s) (as_bytes t)))

utf8-Lacks_feed : (c : ℕ) → (c == 10) ≡ false → Lacks (λ b. b == 10) (utf8 c)
unfolding utf8
utf8-Lacks_feed c h = ground arith

-- The bytes of a text without line feed have none.
pub as_bytes-Lacks_feed : (s : Text) → Lacks (λ c. c == 10) s → Lacks (λ b. b == 10) (as_bytes s)
unfolding as_bytes
as_bytes-Lacks_feed [] h = tt
as_bytes-Lacks_feed (c ∷ s) (h, hs) =
    All-append (λ b. (b == 10) ≡ false) (utf8 c) (as_bytes s) (utf8-Lacks_feed c h)
      (as_bytes-Lacks_feed s hs)
