-- ===== src/Ctlog/Staging/Bundle.antt =====
-- Applying the bundle that `marshalStagedUploads` built is making its uploads, and what is stored
-- then, whichever of them fail.
use sunlight.Prelude.{
  ◌≡◌, refl, ◌∙◌, ap, List, [], ◌∷◌, Option, none, some, Outcome, ok, err, panic, map, inl, inr,
  ◌⊎◌, >>=-eq-ok, ok-injective,
}
use sunlight.Prelude.Maps.{Map, bytes_eq}
use sunlight.Errors.{LogError}
use sunlight.Cryptobyte.Wire.{Bytes}
use sunlight.Ctlog.Action.{Act}
use sunlight.Ctlog.World.{Object, World, upload}
use sunlight.Ctlog.World.Frames.{put, upload_cases}
use sunlight.Ctlog.Types.{UploadAction}
use sunlight.Ctlog.Staging.{
  TarFile, file, Archive, tar_files, marshal_staged_uploads, group_result, first_error, next_upload,
  apply_items, apply_staged_uploads, file_options,
}

-- The uploads themselves, in a group.
unfoldable pub upload_all : List UploadAction → Option LogError → Act World (Unit {0})
upload_all [] failed w = (group_result failed, w)
upload_all (u ∷ us) failed w =
    let rest = upload_all us in next_upload (upload u.key u.content u.options w) failed rest

-- The objects when each upload had its effect.
unfoldable pub store_all : List UploadAction → Map Bytes Object → Map Bytes Object
store_all [] objects = objects
store_all (u ∷ us) objects = store_all us (put u.key u.content u.options objects)

-- The objects when some of the uploads had their effect.
pub data Partly : List UploadAction → Map Bytes Object → Map Bytes Object → Type 0 where
  none_left : (m : Map Bytes Object) → Partly [] m m
  skips :
      (u : UploadAction) (us : List UploadAction) (m m' : Map Bytes Object)
      → Partly us m m'
      → Partly (u ∷ us) m m'
  stores :
      (u : UploadAction) (us : List UploadAction) (m m' : Map Bytes Object)
      → Partly us (put u.key u.content u.options m) m'
      → Partly (u ∷ us) m m'

pub Partly-none : (us : List UploadAction) (m : Map Bytes Object) → Partly us m m
Partly-none [] m = none_left m
Partly-none (u ∷ us) m = skips u us m m (Partly-none us m)

pub Partly-all : (us : List UploadAction) (m : Map Bytes Object) → Partly us m (store_all us m)
unfolding store_all
Partly-all [] m = none_left m
Partly-all (u ∷ us) m = stores u us m _ (Partly-all us _)

-- One more upload before those that stored some objects.
Partly-step :
    (u : UploadAction) (us : List UploadAction) {m m₁ m' : Map Bytes Object}
    → m₁ ≡ m ⊎ m₁ ≡ put u.key u.content u.options m
    → Partly us m₁ m'
    → Partly (u ∷ us) m m'
Partly-step u us (inl h) p = skips u us _ _ (rw h at p)
Partly-step u us (inr h) p = stores u us _ _ (rw h at p)

next_upload_ext :
    (r : Outcome LogError (Unit {0}) × World) (failed : Option LogError)
    (f g : Option LogError → Act World (Unit {0}))
    → ((o : Option LogError) (w : World) → f o w ≡ g o w)
    → next_upload r failed f ≡ next_upload r failed g
next_upload_ext (ok _, w) failed f g h = h failed w
next_upload_ext (err e, w) failed f g h = h (first_error failed e) w
next_upload_ext (panic, w) failed f g h = refl

module _ (archive : Archive) where
  apply_items-tar_files :
      (us : List UploadAction) (fs : List TarFile)
      → tar_files archive us ≡ ok fs
      → (failed : Option LogError) (w : World)
      → apply_items archive (map file fs) failed w ≡ upload_all us failed w
  unfolding tar_files apply_items upload_all file_options
  apply_items-tar_files [] fs h failed w = rw (← ok-injective [] fs h) refl
  apply_items-tar_files (u ∷ us) fs h failed w =
      let (opts, marshalled, h') = >>=-eq-ok (archive.json_marshal u.options) _ h in
      let (files, rest, shape) = >>=-eq-ok (tar_files archive us) _ h' in
      rw (← ok-injective _ fs shape, archive.unmarshal-marshal u.options opts marshalled)
        (next_upload_ext (upload u.key u.content u.options w) failed _ _
          (apply_items-tar_files us files rest))

  -- A bundle that `marshalStagedUploads` built is applied by making its uploads, in their order:
  -- the result and what is stored are the same, for each script of faults.
  pub apply-marshal_staged_uploads :
      (us : List UploadAction) (staged : Bytes) (w : World)
      → marshal_staged_uploads archive us ≡ ok staged
      → apply_staged_uploads archive staged w ≡ upload_all us none w
  unfolding marshal_staged_uploads apply_staged_uploads
  apply-marshal_staged_uploads us staged w h =
      let (fs, files, written) = >>=-eq-ok (tar_files archive us) archive.write_tar h in
      rw (archive.read-write fs staged written) (apply_items-tar_files us fs files none w)

module _ (Q : Outcome LogError (Unit {0}) × World → Type 0) where
  -- After an error of the group: some of the objects are stored, and the error stands.
  upload_all_failed :
      (us : List UploadAction) (e : LogError) (w : World)
      → ((w' : World) → w'.lock ≡ w.lock → Partly us w.objects w'.objects → Q (err e, w'))
      → ((w' : World) → w'.lock ≡ w.lock → Partly us w.objects w'.objects → Q (panic, w'))
      → Q (upload_all us (some e) w)
  unfolding upload_all
  upload_all_failed [] e w bad dead = bad w refl (none_left _)
  upload_all_failed (u ∷ us) e w bad dead =
      upload_cases u.key u.content u.options (λ x. Q (next_upload x (some e) (upload_all us))) w
        (λ w' l o.
          upload_all_failed us e w' (λ v k p. bad v (k ∙ l) (Partly-step u us (inr o) p))
            (λ v k p. dead v (k ∙ l) (Partly-step u us (inr o) p)))
        (λ w' l o.
          upload_all_failed us e w' (λ v k p. bad v (k ∙ l) (Partly-step u us o p))
            (λ v k p. dead v (k ∙ l) (Partly-step u us o p)))
        (λ w' l o. dead w' l (Partly-step u us o (Partly-none us w'.objects)))

  -- Uploads of a group store some of their objects; all of them, if the group succeeds. The lock is
  -- left alone.
  pub upload_all_cases :
      (us : List UploadAction) (w : World)
      → ((w' : World) → w'.lock ≡ w.lock → w'.objects ≡ store_all us w.objects → Q (ok tt, w'))
      → ((e : LogError) (w' : World)
          → w'.lock ≡ w.lock
          → Partly us w.objects w'.objects
          → Q (err e, w'))
      → ((w' : World) → w'.lock ≡ w.lock → Partly us w.objects w'.objects → Q (panic, w'))
      → Q (upload_all us none w)
  unfolding upload_all store_all
  upload_all_cases [] w good bad dead = good w refl refl
  upload_all_cases (u ∷ us) w good bad dead =
      upload_cases u.key u.content u.options (λ x. Q (next_upload x none (upload_all us))) w
        (λ w' l o.
          upload_all_cases us w' (λ v k p. good v (k ∙ l) (p ∙ ap (store_all us) o))
            (λ e v k p. bad e v (k ∙ l) (Partly-step u us (inr o) p))
            (λ v k p. dead v (k ∙ l) (Partly-step u us (inr o) p)))
        (λ w' l o.
          upload_all_failed us _ w' (λ v k p. bad _ v (k ∙ l) (Partly-step u us o p))
            (λ v k p. dead v (k ∙ l) (Partly-step u us o p)))
        (λ w' l o. dead w' l (Partly-step u us o (Partly-none us w'.objects)))
