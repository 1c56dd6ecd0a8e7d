-- ===== src/Ctlog/World.antt =====
-- What outlives the process: the object storage, the lock database and the deduplication cache, as
-- the interfaces `Backend` and `LockBackend` of ctlog.go and the table of cache.go describe them.
-- A script says of each call whether it works, fails before or after its effect, or whether the
-- process ends then; when the script is used up, calls work.
pub mod Frames
pub mod Reads
use sunlight.Prelude.{
  ℕ, List, [], ◌∷◌, Option, none, some, Bool, true, false, Outcome, ok, err, panic, if◌then◌else◌,
}
use sunlight.Prelude.Maps.{Map, lookup, insert, bytes_beq, bytes_eq}
use sunlight.Errors.{LogError, backend_failed, not_found, lock_failed}
use sunlight.Cryptobyte.Wire.{Bytes}
use sunlight.Ctlog.Action.{Act, pure, ◌>>=◌}

pub record UploadOptions : Type 0 where
  pub content_type : Bytes
  pub compress : Bool
  pub immutable : Bool

pub record Object : Type 0 where
  pub content : Bytes
  pub options : UploadOptions

-- A row of the table `cache`.
pub record CacheRow : Type 0 where
  pub key : Bytes
  pub timestamp : ℕ
  pub leaf_index : ℕ

pub data Fault : Type 0 where
  works fails_before fails_after dies_before dies_after : Fault

pub record World : Type 0 where
  pub objects : Map Bytes Object
  pub lock : Option Bytes
  pub cache : List CacheRow
  pub now : ℕ
  pub faults : List Fault

-- A call with the effect `f`, whose failure is the error `e`.
unfoldable pub perform : Fault → (World → World) → LogError → Act World (Unit {0})
perform works f e w = (ok tt, f w)
perform fails_before f e w = (err e, w)
perform fails_after f e w = (err e, f w)
perform dies_before f e w = (panic, w)
perform dies_after f e w = (panic, f w)

abbrev pub first_fault : List Fault → Fault
first_fault [] = works
first_fault (x ∷ xs) = x

abbrev pub rest_faults : List Fault → List Fault
rest_faults [] = []
rest_faults (x ∷ xs) = xs

unfoldable pub call : (World → World) → LogError → Act World (Unit {0})
unfolding perform
call f e w = perform (first_fault w.faults) f e (record w { faults = rest_faults w.faults })

-- `Backend.Upload`
unfoldable pub upload : Bytes → Bytes → UploadOptions → Act World (Unit {0})
unfolding call insert
upload key content options =
    call
      (λ w. record w {
        objects = insert key (record { content = content; options = options }) w.objects;
      })
      backend_failed

abbrev pub object_content : Option Object → Outcome LogError Bytes
object_content none = err not_found
object_content (some o) = ok o.content

-- A call with no effect, whose result is `r` if it works.
unfoldable pub ask : {A : Type 0} → (World → Outcome LogError A) → LogError → Act World A
unfolding call
ask r e = call (λ v. v) e >>= λ _ w. (r w, w)

-- `Backend.Fetch`
unfoldable pub fetch : Bytes → Act World Bytes
unfolding ask lookup
fetch key = ask (λ w. object_content (lookup key w.objects)) backend_failed

abbrev pub locked : Option Bytes → Outcome LogError Bytes
locked none = err not_found
locked (some b) = ok b

-- `LockBackend.Fetch`; a locked checkpoint is its bytes, which a replacement compares.
unfoldable pub lock_fetch : Act World Bytes
unfolding ask
lock_fetch = ask (λ w. locked w.lock) lock_failed

abbrev pub holds : Option Bytes → Bytes → Bool
holds none old = false
holds (some b) old = bytes_beq b old

-- `LockBackend.Replace`, a compare-and-swap. A call that is refused has no effect, but may fail, or the
-- process may end in it, like any other.
unfoldable pub lock_replace : Bytes → Bytes → Act World Bytes
unfolding call ask
lock_replace old new w =
    if holds w.lock old
    then (call (λ v. record v { lock = some new }) lock_failed >>= λ _. pure new) w
    else ask (λ _. err lock_failed) lock_failed w

abbrev pub is_some : {A : Type 0} → Option A → Bool
is_some none = false
is_some (some a) = true

-- `LockBackend.Create`
unfoldable pub lock_create : Bytes → Act World (Unit {0})
unfolding call ask
lock_create new w =
    if is_some w.lock
    then ask (λ _. err lock_failed) lock_failed w
    else call (λ v. record v { lock = some new }) lock_failed w
