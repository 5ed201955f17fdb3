-- ===== src/Dns/Resolver/Mock/Chain.antt =====
-- The CNAME chains of the mock resolver of src/dns/resolver.rs.
use my_mta.Prelude.{
  ℕ, zero, suc, ◌+◌, ◌-◌, ◌≤◌, ◌<◌, ◌≡◌, refl, sym, ap, ◌∙◌, arith, List, [], ◌∷◌, true, false,
  Option, none, some, leb, any, All, Bool-cases, Option-cases, inl, inr, Result, ok, err,
}
use mathlib.Core.Path.{subst}
use my_mta.Prelude.Text.{Text, ◌=ₜ◌, =ₜ_iff}
use my_mta.Prelude.Text.Table.{get}
use my_mta.Dns.Error.{DnsError, cname_loop}
use my_mta.Dns.Resolver.Mock.{MockDnsResolver, too_long, chain_loop, resolve_cname_chain}

module _ (cname : List (Text × Text)) where
  -- At most so many names from here, the last of which is no alias.
  unfoldable pub follow : ℕ → Text → Option Text
  follow zero name = none
  follow (suc n) name = elim (get cname name) [ none ↦ some name | some target ↦ follow n target ]

  -- So many links and one more lead from one name to another.
  Leads : ℕ → Text → Text → Type 0
  Leads zero a b = get cname a ≡ some b
  Leads (suc n) a b = (t : Text) × (get cname a ≡ some t) × Leads n t b

  Leads-on : (n : ℕ) (a b c : Text) → Leads n a b → get cname b ≡ some c → Leads (suc n) a c
  unfolding Leads
  Leads-on zero a b c h e = (b, h, e)
  Leads-on (suc n) a b c (t, h, rest) e = (t, h, Leads-on n t b c rest e)

  follow-Leads : (n k : ℕ) (a b : Text) → Leads n a b → follow (suc (n + k)) a ≡ follow k b
  unfolding follow Leads
  follow-Leads zero k a b h = let e : 0 + k ≡ k = omega arith in rw (follow, h, e) refl
  follow-Leads (suc n) k a b (t, h, rest) =
      let e : suc n + k ≡ suc (n + k) = omega arith in rw (follow, h, e) (follow-Leads n k t b rest)

  -- Too few names are too few if there are fewer.
  follow_less : (n k : ℕ) (a : Text) → follow (n + k) a ≡ none → follow n a ≡ none
  unfolding follow
  follow_less zero k a h = refl
  follow_less (suc n) k a h =
      let e : suc n + k ≡ suc (n + k) = omega arith in
      let h' : follow (suc (n + k)) a ≡ none = ap (λ j. follow j a) (sym e) ∙ h in
      elim (Option-cases (get cname a)) [
        | inl g ↦ cc (rw (g, follow) at h')
        | inr (t, g) ↦ rw (follow, g) (follow_less n k t (rw (g, follow) at h'))
      ]

  -- A name that leads to itself leads to no name that is no alias.
  around : (n : ℕ) (a : Text) → Leads n a a → (m : ℕ) → (k : ℕ) × (m ≤ k) × (follow k a ≡ none)
  unfolding follow
  around n a h zero = (0, omega arith, refl)
  around n a h (suc m) =
      let (k, le, e) = around n a h m in (suc (n + k), omega arith, follow-Leads n k a a h ∙ e)

  endless : (n : ℕ) (a : Text) → Leads n a a → (m : ℕ) → follow m a ≡ none
  endless n a h m =
      let (k, le, e) = around n a h m in
      let eq : m + (k - m) ≡ k = omega arith in
      follow_less m (k - m) a (ap (λ j. follow j a) eq ∙ e)

  -- Each name visited leads to the present one.
  abbrev Visited : Text → List Text → Type 0
  Visited current visited = All (λ v. (n : ℕ) × Leads n v current) visited

  Visited-next :
      (a b : Text) (visited : List Text)
      → Visited a visited
      → get cname a ≡ some b
      → Visited b visited
  Visited-next a b [] h e = tt
  Visited-next a b (v ∷ visited) ((n, leads), rest) e =
      ((suc n, Leads-on n v a b leads e), Visited-next a b visited rest e)

  Visited-again :
      (a : Text) (visited : List Text)
      → Visited a visited
      → any (λ v. v =ₜ a) visited ≡ true
      → (n : ℕ) × Leads n a a
  Visited-again a [] h e = cc
  Visited-again a (v ∷ visited) ((n, leads), rest) e = elim (Bool-cases (v =ₜ a)) [
    | inl same ↦ (n, subst (λ x. Leads n x a) ((=ₜ_iff v a).0 same) leads)
    | inr other ↦ Visited-again a visited rest (rw other at e)
  ]

-- The answer that a chain of at most so many names has.
abbrev pub chain_answer : MockDnsResolver → Text → Option Text → Result DnsError Text
chain_answer m start none = err (cname_loop start m.max_cname_depth)
chain_answer m start (some name) = ok name

module _ (lower : Text → Text) (m : MockDnsResolver) (start : Text) where
  loop_follows :
      (fuel left depth : ℕ) (current : Text) (visited : List Text)
      → depth + left ≡ m.max_cname_depth
      → left < fuel
      → Visited m.cname current visited
      → chain_loop lower m start fuel current visited depth
        ≡ some (chain_answer m start (follow m.cname left current))
  unfolding follow chain_loop too_long Leads
  loop_follows zero left depth current visited total fuel_left seen = absurd (omega arith)
  loop_follows (suc fuel) zero depth current visited total fuel_left seen =
      let stop : leb m.max_cname_depth depth ≡ true = ground arith in rw (chain_loop, stop) refl
  loop_follows (suc fuel) (suc left) depth current visited total fuel_left seen =
      let go_on : leb m.max_cname_depth depth ≡ false = ground arith in
      elim (Bool-cases (any (λ v. v =ₜ current) visited)) [
        | inl again ↦
            let (n, leads) = Visited-again m.cname current visited seen again in
            rw (chain_loop, go_on, again, endless m.cname n current leads (suc left)) refl
        | inr first ↦ elim (Option-cases (get m.cname current)) [
          | inl g ↦ rw (chain_loop, go_on, first, follow, g) refl
          | inr (target, g) ↦
              rw (chain_loop, go_on, first, follow, g)
                (loop_follows fuel left (suc depth) target (current ∷ visited) (omega arith)
                  (omega arith) ((zero, g), Visited-next m.cname current target visited seen g))
        ]
      ]

  -- Following a chain always ends, and gives the name at its end if that is reached within the
  -- allowed depth, and the error of a loop otherwise: remembering the visited names changes no answer.
  pub resolve_cname_chain-follow :
      resolve_cname_chain lower m start
      ≡ some (chain_answer m start (follow m.cname m.max_cname_depth (lower start)))
  unfolding resolve_cname_chain
  resolve_cname_chain-follow =
      loop_follows (suc m.max_cname_depth) m.max_cname_depth 0 (lower start) [] (omega arith)
        (omega arith) tt
