-- ===== src/Ctlog/Staging.antt =====
-- Staging bundles (ctlog.go): the uploads of a batch in one object, and their application.
pub mod Bundle
use sunlight.Prelude.{
  ℕ, ◌≡◌, List, [], ◌∷◌, ◌++◌, Option, none, some, Bool, true, false, Outcome, ok, err, panic, map,
  ◌>>=◌, if◌then◌else◌,
}
use sunlight.Errors.{LogError, archive_failed, backend_failed}
use sunlight.Cryptobyte.Wire.{Bytes}
use sunlight.Ctlog.Action.{Act, continue}
use sunlight.Ctlog.World.{World, UploadOptions, upload}
use sunlight.Ctlog.Types.{UploadAction}

-- A file of a tar archive, as far as the code uses it: its name, the PAX record SUNLIGHT.opts,
-- and its content.
pub record TarFile : Type 0 where
  pub name : Bytes
  pub opts : Option Bytes
  pub content : Bytes

-- What a reader of an archive comes upon, up to the end of the archive.
pub data TarItem : Type 0 where
  file : TarFile → TarItem
  bad_header : TarItem
  bad_content : Bytes → Option Bytes → TarItem

-- What the code uses of archive/tar and encoding/json: files that were written are read back, in
-- order, and so are options.
pub record Archive : Type 0 where
  pub json_marshal : UploadOptions → Outcome LogError Bytes
  pub json_unmarshal : Bytes → Outcome LogError UploadOptions
  pub write_tar : List TarFile → Outcome LogError Bytes
  pub read_tar : Bytes → List TarItem
  pub unmarshal-marshal :
      (o : UploadOptions) (s : Bytes) → json_marshal o ≡ ok s → json_unmarshal s ≡ ok o
  pub read-write : (fs : List TarFile) (s : Bytes) → write_tar fs ≡ ok s → read_tar s ≡ map file fs

module _ (archive : Archive) where
  -- The files of `marshalStagedUploads`.
  unfoldable pub tar_files : List UploadAction → Outcome LogError (List TarFile)
  tar_files [] = ok []
  tar_files (u ∷ us) = do
    opts ← archive.json_marshal u.options
    files ← tar_files us
    ok (record { name = u.key; opts = some opts; content = u.content } ∷ files)

  unfoldable pub marshal_staged_uploads : List UploadAction → Outcome LogError Bytes
  unfolding tar_files
  marshal_staged_uploads uploads = tar_files uploads >>= archive.write_tar

  -- The upload of one file: an error before it starts, or the upload.
  unfoldable pub file_options : Option Bytes → Outcome LogError UploadOptions
  file_options none = err archive_failed
  file_options (some s) = archive.json_unmarshal s

-- `g.Wait()`
abbrev pub group_result : Option LogError → Outcome LogError (Unit {0})
group_result none = ok tt
group_result (some e) = err e

-- The group keeps the first error, and uploads go on behind it.
abbrev pub first_error : Option LogError → LogError → Option LogError
first_error none e = some e
first_error (some e) _ = some e

-- After an upload of the group: its error is kept for the end, and a panic ends the process.
abbrev pub next_upload :
    Outcome LogError (Unit {0}) × World
    → Option LogError
    → (Option LogError → Act World (Unit {0}))
    → Outcome LogError (Unit {0}) × World
next_upload (ok _, w) failed rest = rest failed w
next_upload (err e, w) failed rest = rest (first_error failed e) w
next_upload (panic, w) failed rest = (panic, w)

module _ (archive : Archive) where
  -- The loop of `applyStagedUploads`, with the group's first error so far. The uploads of a group
  -- run at once and each may fail; they have distinct keys, so they are taken in order.
  unfoldable pub apply_items : List TarItem → Option LogError → Act World (Unit {0})
  unfolding file_options
  apply_items [] failed w = (group_result failed, w)
  apply_items (bad_header ∷ items) failed w = (err archive_failed, w)
  apply_items (bad_content name opts ∷ items) failed w = (err archive_failed, w)
  apply_items (file f ∷ items) failed w =
      let rest = apply_items items in
      continue (file_options archive f.opts, w)
        λ opts v. next_upload (upload f.name f.content opts v) failed rest

  unfoldable pub apply_staged_uploads : Bytes → Act World (Unit {0})
  unfolding apply_items
  apply_staged_uploads staged = apply_items (archive.read_tar staged) none
