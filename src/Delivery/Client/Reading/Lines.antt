-- ===== src/Delivery/Client/Reading/Lines.antt =====
-- One line of a reply that has a code of three digits, as `read_response` of src/delivery/client.rs
-- takes it apart.
use my_mta.Prelude.{
  ℕ, suc, ◌+◌, ◌-◌, ◌%◌, ◌<◌, [], ◌∷◌, ◌++◌, true, false, ◌==◌, leb, some, ◌≡◌, refl, ◌⊎◌, inl, inr,
  arith,
}
use my_mta.Prelude.Text.{Text, utf8, as_bytes, len}
use my_mta.Prelude.Text.Numbers.{parse_uint, u16_max}
use my_mta.Delivery.Client.Reading.{
  Progress, more, finished, split_at, read_code, read_text, push_from, fourth, push, read_line,
}

pub digit_lt : (n : ℕ) → (b'0' + n % 10) < 0x80
digit_lt n = omega arith

len_ascii : (c : ℕ) → c < 0x80 → len (c ∷ []) ≡ 1
unfolding len
len_ascii c h = ground arith

split_at_start : (s : Text) → split_at s 0 ≡ some ([], s)
unfolding split_at
split_at_start [] = refl
split_at_start (c ∷ s) = refl

split_at_ascii :
    (c n : ℕ) (s before after : Text)
    → c < 0x80
    → split_at s n ≡ some (before, after)
    → split_at (c ∷ s) (suc n) ≡ some (c ∷ before, after)
unfolding split_at
split_at_ascii c n s before after h e =
    let one : suc n - 1 ≡ n = omega arith in rw (split_at, len_ascii c h, one, e) (ground arith)

-- A line that begins with three ASCII characters and a separator.
module _ (a b c sep : ℕ) (ascii_a : a < 0x80) (ascii_b : b < 0x80) (ascii_c : c < 0x80)
    (ascii_sep : sep < 0x80) where
  split_three : (line : Text) → split_at (a ∷ b ∷ c ∷ line) 3 ≡ some (a ∷ b ∷ c ∷ [], line)
  split_three line = split_at_ascii a 2 (b ∷ c ∷ line) (b ∷ c ∷ []) line ascii_a (
      split_at_ascii b 1 (c ∷ line) (c ∷ []) line ascii_b
        (split_at_ascii c 0 line [] line ascii_c (split_at_start line)))

  split_four :
      (line : Text) → split_at (a ∷ b ∷ c ∷ sep ∷ line) 4 ≡ some (a ∷ b ∷ c ∷ sep ∷ [], line)
  split_four line = split_at_ascii a 3 (b ∷ c ∷ sep ∷ line) (b ∷ c ∷ sep ∷ []) line ascii_a (
      split_at_ascii b 2 (c ∷ sep ∷ line) (c ∷ sep ∷ []) line ascii_b (
        split_at_ascii c 1 (sep ∷ line) (sep ∷ []) line ascii_c
          (split_at_ascii sep 0 line [] line ascii_sep (split_at_start line))))

  fourth-sep : (line : Text) → fourth (as_bytes (a ∷ b ∷ c ∷ sep ∷ line)) ≡ some sep
  unfolding fourth as_bytes utf8
  fourth-sep line = ground arith

  long_enough : (line : Text) → leb 3 (len (a ∷ b ∷ c ∷ line)) ≡ true
  unfolding len
  long_enough line = ground arith

  -- The code is read from the first line, and kept on the others.
  pub code_read :
      (line : Text) (p : Progress) (code : ℕ)
      → parse_uint u16_max (a ∷ b ∷ c ∷ []) ≡ some code
      → p.code ≡ 0 ⊎ p.code ≡ code
      → 0 < code
      → read_code (a ∷ b ∷ c ∷ sep ∷ line) p ≡ more (record p { code = code })
  unfolding read_code
  code_read line p code h (inl e) pos =
      rw (read_code, e, long_enough (sep ∷ line), split_three (sep ∷ line), h) refl
  code_read line p code h (inr e) pos =
      let known : (code == 0) ≡ false = ground arith in rw (read_code, e, known) refl

  pub last_line_read :
      (line : Text) (p : Progress) (code : ℕ)
      → sep ≡ b' '
      → read_code (a ∷ b ∷ c ∷ sep ∷ line) p ≡ more (record p { code = code })
      → read_line (a ∷ b ∷ c ∷ sep ∷ line) p
        ≡ finished (record { lines = p.lines ++ line ∷ []; code = code })
  unfolding read_line read_text push_from push
  last_line_read line p code is_space h =
      let space : (sep == b' ') ≡ true = ground arith in
      rw (read_line, h, read_text, fourth-sep line, space, push_from, split_four line) refl

  pub other_line_read :
      (line : Text) (p : Progress) (code : ℕ)
      → sep ≡ b'-'
      → read_code (a ∷ b ∷ c ∷ sep ∷ line) p ≡ more (record p { code = code })
      → read_line (a ∷ b ∷ c ∷ sep ∷ line) p
        ≡ more (record { lines = p.lines ++ line ∷ []; code = code })
  unfolding read_line read_text push_from push
  other_line_read line p code is_dash h =
      let space : (sep == b' ') ≡ false = ground arith in
      let dash : (sep == b'-') ≡ true = ground arith in
      rw (read_line, h, read_text, fourth-sep line, space, dash, push_from, split_four line) refl
