-- ===== src/Prelude/Text/Lines.antt =====
-- Laws of `lines`.
use mathlib.Core.List.{[], ◌∷◌, ◌++◌, reverse_aux}
use mathlib.Core.Path.{◌≡◌, refl}
use mathlib.Core.Logic.{inl, inr}
use my_mta.Prelude.Tests.{◌==◌, Bool-cases}
use my_mta.Prelude.Lists.{All}
use my_mta.Prelude.Text.{Text, codes, end_line, lines_from, lines}
use my_mta.Prelude.Text.Laws.{Lacks}

abbrev pub NoFeed : Text → Type 0
NoFeed = Lacks λ c. c == 10

reverse_aux-NoFeed : (s t : Text) → NoFeed s → NoFeed t → NoFeed (reverse_aux s t)
reverse_aux-NoFeed [] t h k = k
reverse_aux-NoFeed (c ∷ s) t (h, hs) k = reverse_aux-NoFeed s (c ∷ t) hs (h, k)

end_line-NoFeed : (cur : Text) → NoFeed cur → NoFeed (end_line cur)
unfolding end_line
end_line-NoFeed [] h = tt
end_line-NoFeed (c ∷ cur) (h, hs) = elim (Bool-cases (c == 13)) [
  | inl e ↦ rw (end_line, e) (reverse_aux-NoFeed cur [] hs tt)
  | inr e ↦ rw (end_line, e) (reverse_aux-NoFeed (c ∷ cur) [] (h, hs) tt)
]

lines_from-NoFeed : (cur s : Text) → NoFeed cur → All NoFeed (lines_from cur s)
unfolding lines_from
lines_from-NoFeed [] [] h = tt
lines_from-NoFeed (c ∷ cur) [] h = (reverse_aux-NoFeed (c ∷ cur) [] h tt, tt)
lines_from-NoFeed cur (c ∷ s) h = elim (Bool-cases (c == 10)) [
  | inl e ↦ rw (lines_from, e) (end_line-NoFeed cur h, lines_from-NoFeed [] s tt)
  | inr e ↦ rw (lines_from, e) (lines_from-NoFeed (c ∷ cur) s (e, h))
]

-- No line has a line feed.
pub lines-NoFeed : (s : Text) → All NoFeed (lines s)
unfolding lines
lines-NoFeed s = lines_from-NoFeed [] s tt

lines_from-line :
    (cur line rest : Text)
    → NoFeed line
    → lines_from cur (line ++ (codes "\r\n" ++ rest)) ≡ reverse_aux cur line ∷ lines_from [] rest
unfolding lines_from end_line
lines_from-line [] [] rest h = refl
lines_from-line (c ∷ cur) [] rest h = refl
lines_from-line [] (b ∷ line) rest (h, hs) =
    rw (lines_from, h) (lines_from-line (b ∷ []) line rest hs)
lines_from-line (c ∷ cur) (b ∷ line) rest (h, hs) =
    rw (lines_from, h) (lines_from-line (b ∷ c ∷ cur) line rest hs)

-- A line without line feed, with its end, is the first of the lines.
pub lines-line :
    (line rest : Text) → NoFeed line → lines (line ++ (codes "\r\n" ++ rest)) ≡ line ∷ lines rest
unfolding lines
lines-line line rest h = lines_from-line [] line rest h
