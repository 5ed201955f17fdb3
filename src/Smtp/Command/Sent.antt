-- ===== src/Smtp/Command/Sent.antt =====
-- Command lines as a client writes them, and what `SmtpCommand::parse` of src/smtp/command.rs makes
-- of them.
use my_mta.Prelude.{
  ℕ, List, [], ◌∷◌, ◌++◌, append_assoc, append-nil, is_empty, false, ◌==◌, some, ◌≡◌, refl, sym, ap,
  ◌∙◌, arith, All, ok, ◌>>=◌, if◌then◌else◌,
}
use my_mta.Prelude.Text.{
  Text, codes, ◌=ₜ◌, trim, trim_end_matches, drop_while, is_whitespace, starts_with, split_once,
  split_whitespace, to_ascii_uppercase,
}
use my_mta.Prelude.Text.Laws.{Lacks, split_once-append}
use my_mta.Prelude.Text.Trim.{trim_word, trim_again, trim_to_word, split_whitespace_word}
use my_mta.Prelude.Text.Numbers.{decimal}
use my_mta.Prelude.Text.Numbers.Decimal.{IsDigit, decimal-IsDigit, decimal_ne_nil}
use my_mta.Smtp.Command.{
  ehlo, start_data, required, mail_from, rcpt_to, parse, parse_verb, verb_of, verb_and_args,
  parse_mail_from, parse_rcpt_to, extract_angle_address, mail_from_parts, rcpt_to_parts,
}
use my_mta.Smtp.Command.Address.{validate_email_address}

abbrev pub ehlo_line : Text → Text
ehlo_line host = codes "EHLO " ++ (host ++ codes "\r\n")

abbrev pub mail_from_line : Text → ℕ → Text
mail_from_line sender size =
    codes "MAIL FROM:<" ++ sender ++ codes "> SIZE=" ++ decimal size ++ codes "\r\n"

abbrev pub rcpt_to_line : Text → Text
rcpt_to_line recipient = codes "RCPT TO:<" ++ (recipient ++ codes ">\r\n")

abbrev pub size_text : ℕ → Text
size_text size = codes "SIZE=" ++ decimal size

-- What stands behind the verb, once the line is trimmed.
parse-split :
    (raw verb args input : Text)
    → trim raw ≡ input
    → is_empty input ≡ false
    → split_once b' ' input ≡ some (verb, args)
    → parse raw ≡ parse_verb (verb_of (to_ascii_uppercase verb)) verb (trim args)
unfolding parse verb_and_args
parse-split raw verb args input h n e = rw (parse, h, n, verb_and_args, e) refl

-- The address between the brackets, with what follows.
angle :
    (address after : Text)
    → trim (codes "<" ++ (address ++ (codes ">" ++ after)))
      ≡ codes "<" ++ (address ++ (codes ">" ++ after))
    → Lacks (λ c. c == b'>') address
    → extract_angle_address (codes "<" ++ (address ++ (codes ">" ++ after)))
      ≡ ok (address, if is_empty (trim after) then [] else split_whitespace (trim after))
unfolding extract_angle_address starts_with
angle address after h k =
    rw (extract_angle_address, h, split_once-append b'>' (codes "<" ++ address) after (refl, k))
      refl

-- `RCPT TO:<address>`
pub parse-rcpt_to_line :
    (address : Text)
    → validate_email_address address ≡ ok tt
    → is_empty address ≡ false
    → Lacks (λ c. c == b'>') address
    → parse (codes "RCPT TO:<" ++ (address ++ codes ">\r\n")) ≡ ok (rcpt_to address [])
unfolding parse_verb verb_of parse_rcpt_to rcpt_to_parts ◌=ₜ◌ to_ascii_uppercase split_once
    starts_with is_whitespace trim_end_matches trim drop_while
parse-rcpt_to_line [] valid n k = cc
parse-rcpt_to_line (c ∷ a) valid n k =
    let address = c ∷ a in
    let inner = trim_to_word b'<' address (codes ">") [] refl refl (refl, tt) refl in
    parse-split (codes "RCPT TO:<" ++ (address ++ codes ">\r\n")) (codes "RCPT")
      (codes "TO:<" ++ (address ++ codes ">")) (codes "RCPT TO:<" ++ (address ++ codes ">"))
      (trim_to_word b'R' (codes "CPT TO:<" ++ address) (codes ">") (codes "\r\n") refl refl
        (refl, tt) refl)
      refl refl
    ∙ ap parse_rcpt_to
        (trim_to_word b'T' (codes "O:<" ++ address) (codes ">") [] refl refl (refl, tt) refl)
    ∙ ap (λ t. extract_angle_address t >>= rcpt_to_parts) inner
    ∙ ap (λ r. r >>= rcpt_to_parts) (angle address [] inner k)
    ∙ rw (rcpt_to_parts, valid) refl

words : (s : Text) → All IsDigit s → Lacks is_whitespace s
unfolding is_whitespace
words [] h = tt
words (c ∷ s) (h, hs) = (ground arith, words s hs)

decimal_words : (n : ℕ) → Lacks is_whitespace (decimal n)
decimal_words n = words (decimal n) (decimal-IsDigit n)

-- A text that ends in `SIZE=` and a number is trimmed to it.
trim_to_size :
    (c : ℕ) (s : Text) (size : ℕ) (t : Text)
    → is_whitespace c ≡ false
    → trim_end_matches is_whitespace t ≡ []
    → trim (c ∷ (s ++ (decimal size ++ t))) ≡ c ∷ (s ++ decimal size)
trim_to_size c s size t h e =
    trim_to_word c s (decimal size) t h (decimal_ne_nil size) (decimal_words size) e

trim_sized :
    (c : ℕ) (s : Text) (size : ℕ)
    → is_whitespace c ≡ false
    → trim (c ∷ (s ++ decimal size)) ≡ c ∷ (s ++ decimal size)
unfolding trim_end_matches
trim_sized c s size h =
    ap (λ d. trim (c ∷ (s ++ d))) (sym (append-nil (decimal size)))
    ∙ trim_to_size c s size [] h refl

regroup : (x y z w : Text) → x ++ (y ++ (z ++ w)) ≡ (x ++ (y ++ z)) ++ w
regroup x y z w = ap (λ t. x ++ t) (sym (append_assoc y z w)) ∙ sym (append_assoc x (y ++ z) w)

trim_path :
    (c : ℕ) (x address : Text) (size : ℕ) (t : Text)
    → is_whitespace c ≡ false
    → trim_end_matches is_whitespace t ≡ []
    → trim (c ∷ (x ++ (address ++ (codes "> SIZE=" ++ (decimal size ++ t)))))
      ≡ c ∷ (x ++ (address ++ (codes "> SIZE=" ++ decimal size)))
trim_path c x address size t h e =
    ap (λ y. trim (c ∷ y)) (regroup x address (codes "> SIZE=") (decimal size ++ t))
    ∙ trim_to_size c (x ++ (address ++ codes "> SIZE=")) size t h e
    ∙ ap (λ y. c ∷ y) (sym (regroup x address (codes "> SIZE=") (decimal size)))

trimmed_path :
    (c : ℕ) (x address : Text) (size : ℕ)
    → is_whitespace c ≡ false
    → trim (c ∷ (x ++ (address ++ (codes "> SIZE=" ++ decimal size))))
      ≡ c ∷ (x ++ (address ++ (codes "> SIZE=" ++ decimal size)))
unfolding trim_end_matches
trimmed_path c x address size h =
    ap (λ d. trim (c ∷ (x ++ (address ++ (codes "> SIZE=" ++ d)))))
      (sym (append-nil (decimal size)))
    ∙ trim_path c x address size [] h refl

mail_accepted :
    (address : Text) (parameters : List Text)
    → validate_email_address address ≡ ok tt
    → mail_from_parts (address, parameters) ≡ ok (mail_from address parameters)
unfolding mail_from_parts
mail_accepted [] parameters valid = refl
mail_accepted (c ∷ a) parameters valid = rw (mail_from_parts, valid) refl

-- The parameter behind the address.
size_parameter :
    (size : ℕ)
    → (if is_empty (trim (codes " SIZE=" ++ decimal size))
        then []
        else split_whitespace (trim (codes " SIZE=" ++ decimal size)))
      ≡ (codes "SIZE=" ++ decimal size) ∷ []
unfolding trim drop_while is_whitespace
size_parameter size =
    let e : trim (codes " SIZE=" ++ decimal size) ≡ codes "SIZE=" ++ decimal size =
      trim_sized b'S' (codes "IZE=") size refl in
    rw e (
      split_whitespace_word b'S' (codes "IZE=" ++ decimal size)
        (refl, (refl, (refl, (refl, (refl, decimal_words size))))))

parse-mail_from_text :
    (address : Text) (size : ℕ)
    → validate_email_address address ≡ ok tt
    → Lacks (λ c. c == b'>') address
    → parse
        (codes "MAIL FROM:<" ++ (address ++ (codes "> SIZE=" ++ (decimal size ++ codes "\r\n"))))
      ≡ ok (mail_from address ((codes "SIZE=" ++ decimal size) ∷ []))
unfolding parse_verb verb_of parse_mail_from ◌=ₜ◌ to_ascii_uppercase split_once starts_with
    is_whitespace trim_end_matches
parse-mail_from_text address size valid k =
    let path = address ++ (codes "> SIZE=" ++ decimal size) in
    parse-split _ (codes "MAIL") (codes "FROM:<" ++ path) (codes "MAIL FROM:<" ++ path)
      (trim_path b'M' (codes "AIL FROM:<") address size (codes "\r\n") refl refl) refl refl
    ∙ ap parse_mail_from (trimmed_path b'F' (codes "ROM:<") address size refl)
    ∙ ap (λ t. extract_angle_address t >>= mail_from_parts) (trimmed_path b'<' [] address size refl)
    ∙ ap (λ r. r >>= mail_from_parts)
        (angle address (codes " SIZE=" ++ decimal size) (trimmed_path b'<' [] address size refl) k)
    ∙ ap (λ parameters. mail_from_parts (address, parameters)) (size_parameter size)
    ∙ mail_accepted address ((codes "SIZE=" ++ decimal size) ∷ []) valid

-- `MAIL FROM:<address> SIZE=size`, also for the null sender.
pub parse-mail_from_line :
    (address : Text) (size : ℕ)
    → validate_email_address address ≡ ok tt
    → Lacks (λ c. c == b'>') address
    → parse (mail_from_line address size) ≡ ok (mail_from address (size_text size ∷ []))
parse-mail_from_line address size valid k =
    ap (λ t. parse (codes "MAIL FROM:<" ++ t))
      (append_assoc (address ++ codes "> SIZE=") (decimal size) (codes "\r\n")
        ∙ append_assoc address (codes "> SIZE=") (decimal size ++ codes "\r\n"))
    ∙ parse-mail_from_text address size valid k

-- `EHLO host`
pub parse-ehlo_line :
    (host : Text)
    → is_empty host ≡ false
    → Lacks is_whitespace host
    → parse (codes "EHLO " ++ (host ++ codes "\r\n")) ≡ ok (ehlo host)
unfolding parse_verb verb_of required ◌=ₜ◌ to_ascii_uppercase split_once is_whitespace
    trim_end_matches
parse-ehlo_line [] n k = cc
parse-ehlo_line (c ∷ h) n k =
    parse-split (codes "EHLO " ++ ((c ∷ h) ++ codes "\r\n")) (codes "EHLO") (c ∷ h)
      (codes "EHLO " ++ (c ∷ h))
      (trim_to_word b'E' (codes "HLO ") (c ∷ h) (codes "\r\n") refl refl k refl) refl refl
    ∙ ap (λ args. required args (codes "EHLO requires a domain or address literal") ehlo)
        (trim_word c h k)

pub parse_data_line : parse (codes "DATA\r\n") ≡ ok start_data
unfolding parse trim ◌=ₜ◌ to_ascii_uppercase split_once
parse_data_line = refl

-- A line that was trimmed before is the same command.
pub parse-trim : (raw : Text) → parse (trim raw) ≡ parse raw
unfolding parse
parse-trim raw = rw (parse, trim_again raw) refl
