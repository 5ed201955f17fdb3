-- ===== src/Spool/Disk/Atomic.antt =====
-- What src/spool/disk.rs keeps when a write fails, and what it reads back.
use my_mta.Prelude.{
  ℕ, List, [], ◌∷◌, ◌++◌, Bool, true, Option, none, some, ◌≡◌, refl, sym, ◌∙◌, arith, Bool-cases,
  Option-cases, inl, inr, ◌⊎◌, if◌then◌else◌, ok, ◌==◌,
}
use mathlib.Core.Path.{subst}
use my_mta.Prelude.Text.{Text, ◌=ₜ◌, =ₜ_iff, =ₜ_refl, starts_with, split_once_text}
use my_mta.Prelude.Text.Laws.{Lacks}
use my_mta.Message.Envelope.{Envelope}
use my_mta.Spool.Files.{read, write, read-write, read-delete}
use my_mta.Spool.Disk.{
  DiskSpool, Fault, create_fails, write_fails, sync_fails, rename_fails, no_fault, sep, file_name,
  atomic_write, store, parse_msg_file, read_parts, remove, rename,
}

-- What a write may do to the file `asked`: nothing, or, where it succeeds and that is its file, give
-- it all of the bytes.
abbrev pub IsAtomic : DiskSpool → Text → List ℕ → DiskSpool × Bool → Text → Type 0
IsAtomic d name bytes after asked =
    (read asked after.0.files ≡ read asked d.files)
    ⊎ ((name ≡ asked) × (after.1 ≡ true) × (read asked after.0.files ≡ some bytes))

-- A whole write: the file has the bytes, and the others are as before.
written :
    (d : DiskSpool) (name asked : Text) (bytes : List ℕ)
    → read asked (atomic_write d no_fault name bytes).0.files
      ≡ (if name =ₜ asked then some bytes else read asked d.files)
unfolding atomic_write rename
written d name asked bytes =
    let there : read name (write name bytes d.tmp) ≡ some bytes =
      rw (read-write name name bytes d.tmp, =ₜ_refl name) refl in
    rw (there, rename, atomic_write) (read-write name asked bytes d.files)

atomic_write-IsAtomic :
    (d : DiskSpool) (fault : Fault) (name asked : Text) (bytes : List ℕ)
    → IsAtomic d name bytes (atomic_write d fault name bytes) asked
unfolding atomic_write
atomic_write-IsAtomic d create_fails name asked bytes = inl refl
atomic_write-IsAtomic d (write_fails written) name asked bytes = inl refl
atomic_write-IsAtomic d sync_fails name asked bytes = inl refl
atomic_write-IsAtomic d rename_fails name asked bytes = inl refl
atomic_write-IsAtomic d no_fault name asked bytes = elim (Bool-cases (name =ₜ asked)) [
  | inl e ↦ inr ((=ₜ_iff name asked).0 e, refl, written d name asked bytes ∙ rw e refl)
  | inr e ↦ inl (written d name asked bytes ∙ rw e refl)
]

-- A text is split at the first place where the separator stands: here the only one, for the part
-- before it has no line feed.
split_sep :
    (front back : Text)
    → Lacks (λ c. c == 10) front
    → split_once_text sep (front ++ (sep ++ back)) ≡ some (front, back)
unfolding split_once_text starts_with
split_sep [] back h = refl
split_sep (c ∷ s) back h = ground (arith, split_sep s back h.1)

module _ (encode : Envelope → Option (List ℕ)) (decode : List ℕ → Option Envelope) where
  -- What the spool relies on of serde's compact JSON of an envelope: it reads back, and has no line
  -- feed.
  pub record IsCodec (e : Envelope) : Type 0 where
    pub reads : (json : List ℕ) → encode e ≡ some json → decode json ≡ some e
    pub one_line : (json : List ℕ) → encode e ≡ some json → Lacks (λ c. c == 10) json

  -- What a store may do to the file `asked`: nothing, or, where it succeeds and that is its file,
  -- give it the envelope, the separator and the message.
  abbrev pub KeepsOrStores : DiskSpool → Envelope → List ℕ → DiskSpool × Bool → Text → Type 0
  KeepsOrStores d e bytes after asked =
      (read asked after.0.files ≡ read asked d.files)
      ⊎ ((json : List ℕ) × (encode e ≡ some json)
          × (file_name e.id ≡ asked)
          × (after.1 ≡ true)
          × (read asked after.0.files ≡ some (json ++ (sep ++ bytes))))

  KeepsOrStores-of :
      (d : DiskSpool) (e : Envelope) (json bytes : List ℕ) (after : DiskSpool × Bool) (asked : Text)
      → encode e ≡ some json
      → IsAtomic d (file_name e.id) (json ++ (sep ++ bytes)) after asked
      → KeepsOrStores d e bytes after asked
  KeepsOrStores-of d e json bytes after asked found (inl same) = inl same
  KeepsOrStores-of d e json bytes after asked found (inr (its, stored, whole)) =
      inr (json, found, its, stored, whole)

  -- Whatever call of a store fails, every file of the spool is as it was before, except that a store
  -- that succeeds gives the file of its message the envelope, the separator and the message, whole.
  pub store-KeepsOrStores :
      (d : DiskSpool) (fault : Fault) (e : Envelope) (bytes : List ℕ) (asked : Text)
      → KeepsOrStores d e bytes (store encode decode d fault e bytes) asked
  unfolding store
  store-KeepsOrStores d fault e bytes asked = elim (Option-cases (encode e)) [
    | inl failed ↦ inl (rw (failed, store) refl)
    | inr (json, found) ↦
        let same : store encode decode d fault e bytes
            ≡ atomic_write d fault (file_name e.id) (json ++ (sep ++ bytes)) =
          rw (found, store) refl in
        subst (λ after. KeepsOrStores d e bytes after asked) (sym same)
          (KeepsOrStores-of d e json bytes
            (atomic_write d fault (file_name e.id) (json ++ (sep ++ bytes))) asked found
            (atomic_write-IsAtomic d fault (file_name e.id) asked (json ++ (sep ++ bytes))))
  ]

  parse_msg_file-written :
      (e : Envelope) (json bytes : List ℕ)
      → IsCodec e
      → encode e ≡ some json
      → parse_msg_file encode decode (json ++ (sep ++ bytes)) ≡ ok (e, bytes)
  unfolding parse_msg_file
  parse_msg_file-written e json bytes codec found =
      rw (split_sep json bytes (codec.one_line json found), codec.reads json found, parse_msg_file)
        refl

  -- Where the JSON of its envelope reads back and has no line feed, a message that is stored with
  -- no fault reads back with its envelope, whatever bytes it has, the separator among them; the
  -- store reports success, and a removal that works leaves no file of it.
  pub store_roundtrip :
      (d : DiskSpool) (e : Envelope) (json bytes : List ℕ)
      → IsCodec e
      → encode e ≡ some json
      → let after = store encode decode d no_fault e bytes in
        (after.1 ≡ true)
        × (read_parts encode decode after.0 e.id ≡ ok (e, bytes))
        × (read (file_name e.id) (remove after.0 true e.id).files ≡ none)
  unfolding store read_parts remove
  store_roundtrip d e json bytes codec found =
      let name = file_name e.id in
      let whole = json ++ (sep ++ bytes) in
      let stored : store encode decode d no_fault e bytes ≡ atomic_write d no_fault name whole =
        rw (found, store) refl in
      let there : read name (atomic_write d no_fault name whole).0.files ≡ some whole =
        written d name name whole ∙ rw (=ₜ_refl name) refl in
      rw stored (
        unfold atomic_write in refl,
        rw (there, read_parts) (parse_msg_file-written e json bytes codec found),
        read-delete name name (atomic_write d no_fault name whole).0.files ∙ rw (=ₜ_refl name) refl,
      )
