-- ===== src/Http/Api/Injection.antt =====
-- What an injection of src/http/api.rs stores.
use my_mta.Prelude.{
  ℕ, ◌≤◌, ◌<◌, ◌≡◌, refl, ◌∙◌, arith, List, [], ◌∷◌, ◌++◌, append-nil, append_assoc, length, Bool,
  true, false, Option, All, Bool-cases, Result-cases, inl, inr, ltb, is_empty, Result, ok, err,
}
use mathlib.Core.Path.{subst}
use my_mta.Prelude.Text.{Text, codes, as_bytes}
use my_mta.Config.{over}
use my_mta.Message.Envelope
use my_mta.Message.Envelope.{Envelope, add_recipient, stamp, set_sender, received_header}
use my_mta.Message.Parser.{ParsedMessage, parse, ensure_message_id, prepend_received, to_bytes}
use my_mta.Smtp.Session.QueueId.{generate_queue_id}
use my_mta.Spool.Files.{read}
use my_mta.Spool.Disk.{DiskSpool, store}
use my_mta.Spool.Disk.Atomic.{KeepsOrStores, store-KeepsOrStores}
use my_mta.Http.Api.{
  InjectRequest, InjectRawRequest, ErrorResponse, Config, Effects, validate_recipients,
  add_recipients, envelope_for, answer, process_and_spool, unless_error, inject_raw, inject,
  bad_request, build_message, enriched,
}
use my_mta.Http.Api.Built.{message_of, build_message-message_of}
use my_mta.Http.Api.Checks.{
  IsValidAddress, raw_sender_sound, sender_sound, validate_recipients_sound,
}

add_recipients-recipients :
    (e : Envelope) (l : List Text)
    → ((add_recipients e l).recipients ≡ e.recipients ++ l)
      × ((add_recipients e l).sender ≡ e.sender)
      × ((add_recipients e l).id ≡ e.id)
unfolding add_recipients add_recipient
add_recipients-recipients e [] = (rw append-nil refl, refl, refl)
add_recipients-recipients e (a ∷ l) =
    let (r, s, i) = add_recipients-recipients (add_recipient e a) l in
    (r ∙ append_assoc e.recipients (a ∷ []) l, s, i)

envelope_for_fields :
    (fx : Effects) (sender : Text) (recipients : List Text) (priority : ℕ)
    → ((envelope_for fx sender recipients priority).recipients ≡ recipients)
      × ((envelope_for fx sender recipients priority).sender ≡ sender)
      × ((envelope_for fx sender recipients priority).id ≡ generate_queue_id fx.uuid)
      × ((envelope_for fx sender recipients priority).priority ≡ priority)
unfolding envelope_for Envelope.new stamp set_sender
envelope_for_fields fx sender recipients priority =
    let (r, s, i) =
      add_recipients-recipients
        (set_sender (stamp (Envelope.new fx.now) (generate_queue_id fx.uuid) fx.now) sender [])
        recipients in
    (r, s, i, refl)

module _ (encode : Envelope → Option (List ℕ)) (decode : List ℕ → Option Envelope)
    (lossy : List ℕ → Text) (date : ℕ → Text) where
  -- The outcomes of an injection: an id for a checked request whose message is stored under that id,
  -- for its sender and recipients; or an error that leaves all files as they were.
  abbrev pub Injects :
      Config
      → Effects
      → DiskSpool
      → Text
      → List Text
      → List ℕ
      → ℕ
      → DiskSpool × Result ErrorResponse Text
      → Type 0
  Injects config fx disk sender recipients raw priority (after, ok id) =
      (0 < length recipients)
      × (length recipients ≤ config.max_recipients)
      × IsValidAddress sender
      × All IsValidAddress recipients
      × (length raw ≤ config.max_message_size)
      × (id ≡ generate_queue_id fx.uuid)
      × ((e : Envelope) × (m : ParsedMessage) × (parse lossy raw ≡ ok m)
          × (e.id ≡ id)
          × (e.sender ≡ sender)
          × (e.recipients ≡ recipients)
          × (e.priority ≡ priority)
          × (store encode decode disk fx.fault e (
                to_bytes (
                  prepend_received (ensure_message_id m fx.message_uuid fx.now config.hostname)
                    (received_header date e config.hostname)))
              ≡ (after, true)))
  Injects config fx disk sender recipients raw priority (after, err e) =
      (asked : Text) → read asked after.files ≡ read asked disk.files

  answer-Injects :
      (config : Config) (fx : Effects) (disk : DiskSpool) (sender : Text) (recipients : List Text)
      (raw : List ℕ) (priority : ℕ) (e : Envelope) (m : ParsedMessage) (p : DiskSpool × Bool)
      → parse lossy raw ≡ ok m
      → store encode decode disk fx.fault e (enriched encode decode lossy date config fx e m) ≡ p
      → (0 < length recipients)
        × (length recipients ≤ config.max_recipients)
        × All IsValidAddress recipients
      → IsValidAddress sender
      → length raw ≤ config.max_message_size
      → e.id ≡ generate_queue_id fx.uuid
      → e.sender ≡ sender
      → e.recipients ≡ recipients
      → e.priority ≡ priority
      → Injects config fx disk sender recipients raw priority
          (answer encode decode lossy date fx e.id p)
  unfolding answer enriched
  answer-Injects config fx disk sender recipients raw priority e m (after, true) parsed st
        (some_, few, each) v small i s r pr =
      (some_, few, v, each, small, i, (e, m, parsed, refl, s, r, pr, st))
  answer-Injects config fx disk sender recipients raw priority e m (after, false) parsed st checked
        v small i s r pr =
      λ asked.
        elim (subst
          (λ p.
            KeepsOrStores encode decode disk e (enriched encode decode lossy date config fx e m) p
              asked)
          st
          (store-KeepsOrStores encode decode disk fx.fault e
            (enriched encode decode lossy date config fx e m) asked)) [
              | inl same ↦ same
              | inr (json, found, its, stored, whole) ↦ cc
            ]

  process_and_spool-Injects :
      (config : Config) (fx : Effects) (disk : DiskSpool) (raw : List ℕ) (sender : Text)
      (recipients : List Text) (priority : ℕ)
      → (0 < length recipients)
        × (length recipients ≤ config.max_recipients)
        × All IsValidAddress recipients
      → IsValidAddress sender
      → Injects config fx disk sender recipients raw priority
          (process_and_spool encode decode lossy date config fx disk raw sender recipients priority)
  unfolding process_and_spool
  process_and_spool-Injects config fx disk raw sender recipients priority checked v =
      elim (Bool-cases (ltb config.max_message_size (length raw))) [
        | inl e ↦ rw (e, process_and_spool) (λ asked. refl)
        | inr e ↦ elim (Result-cases (parse lossy raw)) [
          | inr (x, f) ↦ rw (e, f, process_and_spool) (λ asked. refl)
          | inl (m, f) ↦
              rw (e, f, process_and_spool)
                (let (r, s, i, pr) = envelope_for_fields fx sender recipients priority in
                  answer-Injects config fx disk sender recipients raw priority
                    (envelope_for fx sender recipients priority) m _ f refl checked v (ground arith)
                    i s r pr)
        ]
      ]

  unless_error-Injects :
      (config : Config) (fx : Effects) (disk : DiskSpool) (sender : Text) (recipients : List Text)
      (raw : List ℕ) (priority : ℕ) (test : Result ErrorResponse (Unit {0}))
      (rest : DiskSpool × Result ErrorResponse Text)
      → ((u : Unit {0}) → test ≡ ok u → Injects config fx disk sender recipients raw priority rest)
      → Injects config fx disk sender recipients raw priority
          (unless_error encode decode lossy date disk test rest)
  unfolding unless_error
  unless_error-Injects config fx disk sender recipients raw priority (ok u) rest h = h u refl
  unless_error-Injects config fx disk sender recipients raw priority (err e) rest h = λ asked. refl

  checked-Injects :
      (config : Config) (fx : Effects) (disk : DiskSpool) (sender : Text) (recipients : List Text)
      (raw : List ℕ) (priority : ℕ) (test : Result ErrorResponse (Unit {0}))
      → ((u : Unit {0}) → test ≡ ok u → IsValidAddress sender)
      → Injects config fx disk sender recipients raw priority (
          unless_error encode decode lossy date disk test (
            unless_error encode decode lossy date disk
              (validate_recipients recipients config.max_recipients)
              (process_and_spool encode decode lossy date config fx disk raw sender recipients
                priority)))
  checked-Injects config fx disk sender recipients raw priority test valid =
      unless_error-Injects config fx disk sender recipients raw priority test _ (λ u h.
        unless_error-Injects config fx disk sender recipients raw priority _ _ (λ w k.
          process_and_spool-Injects config fx disk raw sender recipients priority
            (validate_recipients_sound recipients config.max_recipients w k) (valid u h)))

  -- A raw injection that answers with a queue id has checked its recipients, of which there are some
  -- and not too many, its sender and its size, and has stored under that id, for exactly these and
  -- with normal priority, the message that its bytes parse to, with a Message-ID and a Received
  -- field. One that answers with an error has changed no file of the spool.
  pub inject_raw-Injects :
      (config : Config) (fx : Effects) (disk : DiskSpool) (req : InjectRawRequest)
      → Injects config fx disk req.sender req.recipients
          (as_bytes req.raw_message)
          1
          (inject_raw encode decode lossy date config fx disk req)
  unfolding inject_raw
  inject_raw-Injects config fx disk req =
      checked-Injects config fx disk req.sender req.recipients (as_bytes req.raw_message) 1 _
        (raw_sender_sound (codes "invalid sender address: ") req.sender)

  -- The sender of an injection of fields is not empty, and the rest is as `Injects` says.
  abbrev pub InjectsFields :
      Config → Effects → DiskSpool → InjectRequest → DiskSpool × Result ErrorResponse Text → Type 0
  InjectsFields config fx disk req result =
      Injects config fx disk req.from req.to (as_bytes (message_of req (date fx.now)))
        (over req.priority 1) result
      × ((id : Text) → result.1 ≡ ok id → is_empty req.from ≡ false)

  -- An injection of fields that answers with a queue id has checked its recipients, of which there are
  -- some and not too many, its sender, which is not empty, and the size of its message, and has
  -- stored under that id, for exactly these and with the priority that was asked for or else the
  -- normal one, what this message parses to, with a Message-ID and a Received field: the message has
  -- the fields From, To, Date, Subject if there is one, and the extra ones, then an empty line and
  -- the body. One that answers with an error has changed no file of the spool.
  pub inject-Injects :
      (config : Config) (fx : Effects) (disk : DiskSpool) (req : InjectRequest)
      → InjectsFields config fx disk req (inject encode decode lossy date config fx disk req)
  unfolding inject
  inject-Injects config fx disk req = (
    subst
        (λ t.
          Injects config fx disk req.from req.to (as_bytes t) (over req.priority 1)
            (inject encode decode lossy date config fx disk req))
        (build_message-message_of req (date fx.now))
        (checked-Injects config fx disk req.from req.to (as_bytes (build_message req (date fx.now)))
          (over req.priority 1) _
          (sender_sound (codes "invalid sender address: ") req.from
            (bad_request (codes "sender (from) is required")))),
    λ id h. elim (Bool-cases (is_empty req.from)) [
      | inr filled ↦ filled
      | inl missing ↦ cc (rw (missing, inject, unless_error) at h)
    ],
  )
