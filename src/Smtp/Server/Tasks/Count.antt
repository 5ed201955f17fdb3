-- ===== src/Smtp/Server/Tasks/Count.antt =====
-- The messages of the spool that the tasks of src/smtp/server.rs share, counted.
use my_mta.Prelude.{ℕ, ◌+◌, List, [], ◌∷◌, ◌++◌, Bool, ◌≡◌, refl, ap, if◌then◌else◌, arith}
use my_mta.Message.Envelope.{Envelope}
use my_mta.Smtp.Server.{Connection}

-- How many messages pass a test: of a list, and of what the tasks have stored.
abbrev pub count : (Envelope × List ℕ → Bool) → List (Envelope × List ℕ) → ℕ
count test [] = 0
count test (m ∷ ms) = (if test m then 1 else 0) + count test ms

abbrev pub total : (Envelope × List ℕ → Bool) → List Connection → ℕ
total test [] = 0
total test (c ∷ cs) = count test c.spooled + total test cs

module _ (test : Envelope × List ℕ → Bool) where
  pub count-append :
      (ms ns : List (Envelope × List ℕ)) → count test (ms ++ ns) ≡ count test ms + count test ns
  count-append [] ns = omega arith
  count-append (m ∷ ms) ns = omega (arith, count-append ms ns)

  pub total-accepted :
      (cs : List Connection) (c : Connection)
      → c.spooled ≡ []
      → total test (cs ++ c ∷ []) ≡ total test cs
  total-accepted [] c e = rw e refl
  total-accepted (x ∷ cs) c e = omega (arith, total-accepted cs c e)

  pub total-replaced :
      (front back : List Connection) (c d : Connection) (more : List (Envelope × List ℕ))
      → d.spooled ≡ c.spooled ++ more
      → total test (front ++ d ∷ back) ≡ total test (front ++ c ∷ back) + count test more
  total-replaced [] back c d more e = omega (arith, ap (count test) e, count-append c.spooled more)
  total-replaced (x ∷ front) back c d more e = omega (arith, total-replaced front back c d more e)
