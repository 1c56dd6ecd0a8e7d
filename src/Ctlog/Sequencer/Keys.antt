-- ===== src/Ctlog/Sequencer/Keys.antt =====
-- The objects that the sequencer (ctlog.go) stores have distinct keys: tiles, bundles, checkpoint.
use sunlight.Prelude.{ℕ, ◌≡◌, ◌≢◌, refl, ◌∙◌, ap, List, [], ◌∷◌, some, All, arith}
use sunlight.Prelude.Maps.{Map, lookup, bytes_eq, bytes_beq_iff, lookup-insert, lookup-insert_self}
use sunlight.Cryptobyte.Wire.{Bytes}
use sunlight.Ctlog.World.{UploadOptions, Object}
use sunlight.Ctlog.World.Frames.{put}
use sunlight.Ctlog.Types.{Tree, UploadAction}
use sunlight.Ctlog.Paths.{staging_path, checkpoint_key}
use sunlight.Ctlog.Batch.Entries.{IsTileKey, IsTileUpload}
use sunlight.Ctlog.Staging.Bundle.{Partly, none_left, skips, stores}

pub lookup-put_self :
    (k c : Bytes) (o : UploadOptions) (m : Map Bytes Object)
    → lookup k (put k c o m) ≡ some (record { content = c; options = o })
lookup-put_self k c o m = lookup-insert_self k _ m

pub lookup-put_other :
    (k k' c : Bytes) (o : UploadOptions) (m : Map Bytes Object)
    → k ≢ k'
    → lookup k' (put k c o m) ≡ lookup k' m
lookup-put_other k k' c o m h =
    ground
      (arith, lookup-insert k k' (record { content = c; options = o }) m, (bytes_beq_iff k k').0)

pub lookup-Partly :
    (k : Bytes) (us : List UploadAction) (m m' : Map Bytes Object)
    → ¬ IsTileKey k
    → All IsTileUpload us
    → Partly us m m'
    → lookup k m' ≡ lookup k m
lookup-Partly k [] m m' other keys (none_left _) = refl
lookup-Partly k (u ∷ us) m m' other keys (skips _ _ _ _ p) = lookup-Partly k us m m' other keys.1 p
lookup-Partly k (u ∷ us) m m' other keys (stores _ _ _ _ p) =
    lookup-Partly k us _ m' other keys.1 p
    ∙ lookup-put_other u.key k u.content u.options m (λ same. other (rw (← same) keys.0))

abbrev head_of : Bytes → ℕ
head_of [] = 0
head_of (x ∷ s) = x

-- "s", "t" and "c", with which bundles, tiles and the checkpoint begin
s_ne_t : ◌≢◌ {A = ℕ} 115 116
s_ne_t = omega arith

c_ne_t : ◌≢◌ {A = ℕ} 99 116
c_ne_t = omega arith

s_ne_c : ◌≢◌ {A = ℕ} 115 99
s_ne_c = omega arith

pub staging_path_other : (t : Tree) → ¬ IsTileKey (staging_path t)
unfolding staging_path
staging_path_other t (r, h) = s_ne_t (ap head_of h)

pub checkpoint_key_other : ¬ IsTileKey checkpoint_key
checkpoint_key_other (r, h) = c_ne_t (ap head_of h)

pub staging_path-ne-checkpoint_key : (t : Tree) → staging_path t ≢ checkpoint_key
unfolding staging_path
staging_path-ne-checkpoint_key t h = s_ne_c (ap head_of h)
