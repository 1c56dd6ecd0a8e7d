-- ===== src/Ctlog/Stubs.antt =====
-- Concrete packages that meet the laws of the model's parameters, for runs of the log (ctlog.go) on
-- concrete input.
use sunlight.Prelude.{
  leb, le→leb, if◌then◌else◌, ℕ, zero, suc, ◌+◌, ◌/◌, ◌%◌, ◌≡◌, refl, ◌∙◌, ap, List, [], ◌∷◌, ◌++◌,
  append_assoc, Option, none, some, Bool, true, false, Outcome, ok, err, length, ok-injective, map,
  replicate,
}
use sunlight.Prelude.Int.{ℤ, pos, negsuc}
use sunlight.Prelude.Maps.{codes}
use sunlight.Errors.{LogError, archive_failed, tlog_failed}
use sunlight.Cryptobyte.Wire.{Bytes, take_exact, take_exact-append}
use sunlight.Ctlog.World.{UploadOptions}
use sunlight.Ctlog.Types.{Tlog, TreeWithTimestamp}
use sunlight.Ctlog.Staging.{TarFile, TarItem, file, bad_header, Archive}
use sunlight.Ctlog.Sequencer.{CheckpointSigner}

abbrev pub bit : Bool → ℕ
bit true = 1
bit false = 0

abbrev pub is_one : ℕ → Bool
is_one zero = false
is_one (suc n) = true

is_one-bit : (b : Bool) → is_one (bit b) ≡ b
is_one-bit true = refl
is_one-bit false = refl

unfoldable pub marshal_options : UploadOptions → Bytes
marshal_options o = bit o.compress ∷ bit o.immutable ∷ o.content_type

unfoldable pub unmarshal_options : Bytes → Outcome LogError UploadOptions
unmarshal_options (c ∷ i ∷ t) =
    ok (record { content_type = t; compress = is_one c; immutable = is_one i })
unmarshal_options _ = err archive_failed

pub unmarshal-marshal_options : (o : UploadOptions) → unmarshal_options (marshal_options o) ≡ ok o
unfolding marshal_options unmarshal_options
unmarshal-marshal_options o = rw (is_one-bit o.compress, is_one-bit o.immutable) refl

-- A string behind its length.
abbrev pub part : Bytes → Bytes
part s = length s ∷ s

abbrev pub opts_part : Option Bytes → Bytes
opts_part none = 0 ∷ []
opts_part (some o) = 1 ∷ part o

-- A file is its three parts.
unfoldable pub write_file : TarFile → Bytes
write_file f = part f.name ++ (opts_part f.opts ++ part f.content)

unfoldable pub write_files : List TarFile → Bytes
unfolding write_file
write_files [] = []
write_files (f ∷ fs) = write_file f ++ write_files fs

module _ {X : Type 0} where
  abbrev pub with_part : Option (Bytes × Bytes) → (Bytes → Bytes → Option X) → Option X
  with_part none k = none
  with_part (some (p, r)) k = k p r

  unfoldable pub read_part : Bytes → (Bytes → Bytes → Option X) → Option X
  unfolding take_exact
  read_part [] k = none
  read_part (n ∷ s) k = with_part (take_exact n s) k

  pub read_part-part :
      (p r : Bytes) (k : Bytes → Bytes → Option X) → read_part (part p ++ r) k ≡ k p r
  unfolding read_part
  read_part-part p r k = rw (take_exact-append p r) refl

  unfoldable pub read_opts : Bytes → (Option Bytes → Bytes → Option X) → Option X
  unfolding read_part
  read_opts [] k = none
  read_opts (zero ∷ s) k = k none s
  read_opts (suc n ∷ s) k = read_part s (λ o r. k (some o) r)

  read_opts-opts_part :
      (o : Option Bytes) (r : Bytes) (k : Option Bytes → Bytes → Option X)
      → read_opts (opts_part o ++ r) k ≡ k o r
  unfolding read_opts
  read_opts-opts_part none r k = refl
  read_opts-opts_part (some o) r k = read_part-part o r _

unfoldable pub read_file : Bytes → Option (TarFile × Bytes)
unfolding read_part read_opts
read_file s = read_part s λ name s₁. read_opts s₁ λ opts s₂.
    read_part s₂ λ content s₃. some (record { name = name; opts = opts; content = content }, s₃)

read_file-write_file : (f : TarFile) (r : Bytes) → read_file (write_file f ++ r) ≡ some (f, r)
unfolding read_file write_file
read_file-write_file f r =
    rw (append_assoc f.name _ r, append_assoc (opts_part f.opts) _ r)
      (read_part-part f.name _ _ ∙ (read_opts-opts_part f.opts _ _ ∙ read_part-part f.content r _))

abbrev pub next_file : Option (TarFile × Bytes) → (Bytes → List TarItem) → List TarItem
next_file none rest = bad_header ∷ []
next_file (some (f, r)) rest = file f ∷ rest r

unfoldable pub read_files : ℕ → Bytes → List TarItem
unfolding read_file
read_files zero s = []
read_files (suc n) s = let rest = read_files n in next_file (read_file s) rest

pub read_files-write_files :
    (fs : List TarFile) → read_files (length fs) (write_files fs) ≡ map file fs
unfolding read_files write_files
read_files-write_files [] = refl
read_files-write_files (f ∷ fs) =
    rw (read_file-write_file f (write_files fs))
      (ap (λ xs. file f ∷ xs) (read_files-write_files fs))

abbrev pub read_archive : Bytes → List TarItem
read_archive [] = []
read_archive (n ∷ s) = read_files n s

-- Archives with the number of their files in front.
abbrev pub plain_archive : Archive
plain_archive = record {
  json_marshal = λ o. ok (marshal_options o);
  json_unmarshal = unmarshal_options;
  write_tar = λ fs. ok (length fs ∷ write_files fs);
  read_tar = read_archive;
  unmarshal-marshal =
      λ o s h. rw (← ok-injective (marshal_options o) s h) (unmarshal-marshal_options o);
  read-write =
      λ fs s h. rw (← ok-injective (length fs ∷ write_files fs) s h) (read_files-write_files fs);
}

abbrev pub sign_plain : TreeWithTimestamp → Outcome LogError Bytes
sign_plain t = ok (t.n ∷ t.time ∷ t.hash)

abbrev pub open_signed : ℕ → Bytes → Outcome LogError TreeWithTimestamp
open_signed now (n ∷ time ∷ hash) =
    if leb time now
    then ok (record { tree = record { n = n; hash = hash }; time = time })
    else err tlog_failed
open_signed now _ = err tlog_failed

-- A checkpoint that shows the head as it is.
abbrev pub plain_signer : CheckpointSigner
plain_signer = record {
  sign_tree_head = sign_plain;
  open_checkpoint = open_signed;
  open-sign = λ t b now h late.
      rw (← ok-injective (t.n ∷ t.time ∷ t.hash) b h, le→leb t.time now late) refl;
}

abbrev pub level_code : ℤ → ℕ
level_code (pos l) = l + 1
level_code (negsuc l) = 0

-- Hashes of leaves only, stored at their indexes; the hash of a tree is its size.
abbrev pub plain_tlog : Tlog
plain_tlog = record {
  stored_hash_index = λ l n. n;
  stored_hashes = λ n input reader. ok (input ∷ []);
  tile_for_index = λ h i. record { h = h; l = pos 0; n = i / 256; w = i % 256 + 1 };
  new_tiles = λ h old n. record { h = h; l = pos 0; n = n / 256; w = n % 256 } ∷ [];
  read_tile_data = λ t reader. ok (t.n ∷ t.w ∷ []);
  hash_from_tile = λ t b i. ok [];
  tree_hash = λ n reader. ok (n ∷ []);
  edge_plan = λ t ids. record { h = 8; l = pos 0; n = t.n / 256; w = t.n % 256 } ∷ [];
  edge_check = λ t ids tiles bs. ok [];
  record_hash = λ s. [];
  path = λ t. codes "tile/8/" ++ (level_code t.l ∷ t.n ∷ t.w ∷ []);
  tile_for_index-stored_hash_index = λ n. refl;
}

-- 32 bytes
abbrev pub plain_sha256 : Bytes → Bytes
plain_sha256 s = replicate 32 (length s % 256)
