-- ===== src/Spool/Disk.antt =====
-- src/spool/disk.rs. `encode` and `decode` are serde's JSON of an envelope, and `decode` gives `none`
-- where it reports an error. A `Fault` says where the calls of `atomic_write` fail, if they do.
pub mod Atomic
pub mod Enqueued
use my_mta.Prelude.{
  ℕ, List, [], ◌∷◌, ◌++◌, reverse, map, select, Bool, true, false, ◌&&◌, ◌==◌, Option, none, some,
  if◌then◌else◌, Result, ok, err,
}
use my_mta.Prelude.Text.{Text, codes, ends_with, split_once_text}
use my_mta.Message.Envelope.{Envelope}
use my_mta.Spool.Files.{Files, read, write, delete}

abbrev pub sep : List ℕ
sep = codes "\n---MESSAGE---\n"

-- The directory of the spool and its `tmp`.
pub record DiskSpool : Type 0 where
  pub files : Files
  pub tmp : Files

pub data ReadError : Type 0 where
  not_found missing_separator bad_envelope : ReadError

pub data Fault : Type 0 where
  create_fails : Fault
  write_fails : (written : List ℕ) → Fault
  sync_fails : Fault
  rename_fails : Fault
  no_fault : Fault

abbrev pub file_name : Text → Text
file_name queue_id = queue_id ++ codes ".msg"

-- `fs::rename` from `tmp`.
rename : DiskSpool → Text → DiskSpool
unfolding read write delete
rename d name = elim (read name d.tmp) [
  | none ↦ d
  | some bytes ↦ record d { files = write name bytes d.files; tmp = delete name d.tmp }
]

-- The Boolean is false where an error is returned.
unfoldable pub atomic_write : DiskSpool → Fault → Text → List ℕ → DiskSpool × Bool
unfolding rename write
atomic_write d create_fails name bytes = (d, false)
atomic_write d (write_fails written) name bytes =
    (record d { tmp = write name written d.tmp }, false)
atomic_write d sync_fails name bytes = (record d { tmp = write name bytes d.tmp }, false)
atomic_write d rename_fails name bytes = (record d { tmp = write name bytes d.tmp }, false)
atomic_write d no_fault name bytes = (rename (record d { tmp = write name bytes d.tmp }) name, true)

-- `trim_end_matches(".msg")`, on the name in reverse.
trim_msg : Text → Text
trim_msg (a ∷ b ∷ c ∷ d ∷ s) =
    let rest = trim_msg s in
    if a == b'g' && b == b's' && c == b'm' && d == b'.' then rest else a ∷ b ∷ c ∷ d ∷ s
trim_msg s = s

-- The ids of the files, in the order in which the directory is read.
unfoldable pub list_queue : DiskSpool → List Text
unfolding trim_msg ends_with
list_queue d =
    map (λ f. reverse (trim_msg (reverse f.0))) (select (λ f. ends_with f.0 (codes ".msg")) d.files)

-- The Boolean says whether `fs::remove_file` works; its error is ignored.
unfoldable pub remove : DiskSpool → Bool → Text → DiskSpool
unfolding delete
remove d works queue_id =
    if works then record d { files = delete (file_name queue_id) d.files } else d

module _ (encode : Envelope → Option (List ℕ)) (decode : List ℕ → Option Envelope) where
  -- The changed disk, and whether the message was stored.
  unfoldable pub store : DiskSpool → Fault → Envelope → List ℕ → DiskSpool × Bool
  unfolding atomic_write
  store d fault e data_bytes = elim (encode e) [
    | none ↦ (d, false)
    | some json ↦ atomic_write d fault (file_name e.id) (json ++ (sep ++ data_bytes))
  ]

  unfoldable pub parse_msg_file : List ℕ → Result ReadError (Envelope × List ℕ)
  unfolding split_once_text
  parse_msg_file bytes = elim (split_once_text sep bytes) [
    | none ↦ err missing_separator
    | some (env_bytes, msg_bytes) ↦ elim (decode env_bytes) [
      | none ↦ err bad_envelope
      | some e ↦ ok (e, msg_bytes)
    ]
  ]

  unfoldable pub read_parts : DiskSpool → Text → Result ReadError (Envelope × List ℕ)
  unfolding parse_msg_file read
  read_parts d queue_id = elim (read (file_name queue_id) d.files) [
    | none ↦ err not_found
    | some bytes ↦ parse_msg_file bytes
  ]

  unfoldable pub read_envelope : DiskSpool → Text → Result ReadError Envelope
  unfolding read_parts
  read_envelope d queue_id = elim (read_parts d queue_id) [ err e ↦ err e | ok (e, m) ↦ ok e ]

  unfoldable pub read_message : DiskSpool → Text → Result ReadError (List ℕ)
  unfolding read_parts
  read_message d queue_id = elim (read_parts d queue_id) [ err e ↦ err e | ok (e, m) ↦ ok m ]
