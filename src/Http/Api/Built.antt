-- ===== src/Http/Api/Built.antt =====
-- The message that src/http/api.rs builds for an injection of fields.
use my_mta.Prelude.{
  ◌≡◌, refl, ◌∙◌, List, [], ◌∷◌, ◌++◌, append_assoc, none, some, Option-cases, inl, inr, ap,
}
use my_mta.Prelude.Text.{Text, codes}
use my_mta.Config.{over}
use my_mta.Http.Api.{InjectRequest, build_message, join_comma, extra_lines, field_line}

-- The fields of a message, as lines.
abbrev pub lines_of : List (Text × Text) → Text
lines_of [] = []
lines_of ((name, value) ∷ fields) = (name ++ codes ": " ++ value ++ codes "\r\n") ++ lines_of fields

-- The message of an injection of fields: its fields in order, an empty line, and the body.
abbrev pub message_of : InjectRequest → Text → Text
message_of req date =
    lines_of (
      (codes "From", req.from)
      ∷ (codes "To", join_comma req.to)
      ∷ (codes "Date", date)
      ∷ ((elim req.subject [ none ↦ [] | some subject ↦ (codes "Subject", subject) ∷ [] ])
          ++ over req.headers []))
    ++ codes "\r\n"
    ++ req.body
    ++ codes "\r\n"

extra_lines-lines_of : (headers : List (Text × Text)) → extra_lines headers ≡ lines_of headers
unfolding extra_lines field_line
extra_lines-lines_of [] = refl
extra_lines-lines_of ((name, value) ∷ headers) =
    ap (λ t. (name ++ codes ": " ++ value ++ codes "\r\n") ++ t) (extra_lines-lines_of headers)

-- The lines of the first three fields, with those of the others.
regrouped :
    (from : Text) (to : List Text) (date body subject headers rest : Text)
    → subject ++ headers ≡ rest
    → let f = field_line (codes "From") from in
      let t = field_line (codes "To") (join_comma to) in
      let d = field_line (codes "Date") date in
      f ++ t ++ d ++ subject ++ headers ++ codes "\r\n" ++ body ++ codes "\r\n"
      ≡ (f ++ (t ++ (d ++ rest))) ++ codes "\r\n" ++ body ++ codes "\r\n"
regrouped from to date body subject headers rest e =
    let f = field_line (codes "From") from in
    let t = field_line (codes "To") (join_comma to) in
    let d = field_line (codes "Date") date in
    ap (λ x. x ++ codes "\r\n" ++ body ++ codes "\r\n")
      (append_assoc (f ++ t ++ d) subject headers
        ∙ ap (λ x. f ++ t ++ d ++ x) e
        ∙ append_assoc (f ++ t) d rest
        ∙ append_assoc f t (d ++ rest))

pub build_message-message_of :
    (req : InjectRequest) (date : Text) → build_message req date ≡ message_of req date
unfolding build_message field_line
build_message-message_of req date =
    let whole = regrouped req.from req.to date req.body in
    elim (Option-cases req.subject) [
      | inl none_given ↦ elim (Option-cases req.headers) [
        | inl no_headers ↦
            rw (none_given, no_headers, build_message, message_of) (whole [] [] [] refl)
        | inr (headers, some_headers) ↦
            rw (none_given, some_headers, build_message, message_of)
              (whole [] (extra_lines headers) (lines_of headers) (extra_lines-lines_of headers))
      ]
      | inr (subject, given) ↦
          let line = field_line (codes "Subject") subject in
          elim (Option-cases req.headers) [
            | inl no_headers ↦
                rw (given, no_headers, build_message, message_of) (whole line [] (line ++ []) refl)
            | inr (headers, some_headers) ↦
                rw (given, some_headers, build_message, message_of)
                  (whole line (extra_lines headers) (line ++ lines_of headers)
                    (ap (λ t. line ++ t) (extra_lines-lines_of headers)))
          ]
    ]
