-- ===== src/Ctlog/History/Frames.antt =====
-- `addLeafToPool` and `LoadLog` (ctlog.go) leave the lock alone, whatever fails in them, and the first
-- also leaves the log's tree alone.
use sunlight.Prelude.{
  ◌≡◌, refl, ◌∙◌, List, [], ◌∷◌, Option, none, some, true, false, Outcome, ok, err, panic, inl, inr,
  Bool, Outcome-cases, if◌then◌else◌,
}
use sunlight.Prelude.Maps.{Map, bytes_eq, bytes_beq}
use sunlight.Errors.{LogError}
use sunlight.Cryptobyte.{Cryptobyte}
use sunlight.Cryptobyte.Wire.{Bytes}
use sunlight.Tile.{LogEntry}
use sunlight.Ctlog.Action.{Act, continue}
use sunlight.Ctlog.World.{World, ask, call, fetch, upload, first_fault, rest_faults}
use sunlight.Ctlog.World.Frames.{perform_cases, upload_cases}
use sunlight.Ctlog.Types.{PendingLogEntry, WaitEntry}
use sunlight.Ctlog.Paths.{issuer_path}
use sunlight.Ctlog.Entries.{cache_get, leaf_hash}
use sunlight.Ctlog.Pool.{
  State, Source, is_full, pool_at, on_world, caught, opts_issuer, upload_issuer, upload_issuers,
  add_new_leaf, find_or_add, add_under_lock, add_leaf_to_pool,
}

-- The tree, its checkpoint and the lock are what they were.
pub record IsQuiet (s s' : State) : Type 0 where
  pub tree : s'.log.tree ≡ s.log.tree
  pub lock_checkpoint : s'.log.lock_checkpoint ≡ s.log.lock_checkpoint
  pub lock : s'.world.lock ≡ s.world.lock

IsQuiet-refl : (s : State) → IsQuiet s s
IsQuiet-refl s = record { tree = refl; lock_checkpoint = refl; lock = refl }

-- A call of the world, in a method
on_world-IsQuiet :
    {A : Type 0} (s t : State) (m : Act World A)
    → ((w : World) → (m w).1.lock ≡ w.lock)
    → IsQuiet s t
    → IsQuiet s (on_world m t).1
on_world-IsQuiet s t m kept q = record {
  tree = q.tree;
  lock_checkpoint = q.lock_checkpoint;
  lock = kept t.world ∙ q.lock;
}

caught-IsQuiet :
    {A B : Type 0} (s : State) (x : Outcome LogError A × State) (f : A → Act State B)
    (g : LogError → Act State B)
    → IsQuiet s x.1
    → ((a : A) (t : State) → IsQuiet s t → IsQuiet s (f a t).1)
    → ((e : LogError) (t : State) → IsQuiet s t → IsQuiet s (g e t).1)
    → IsQuiet s (caught x f g).1
caught-IsQuiet s (ok a, t) f g q good bad = good a t q
caught-IsQuiet s (err e, t) f g q good bad = bad e t q
caught-IsQuiet s (panic, t) f g q good bad = q

continue-IsQuiet :
    {A B : Type 0} (s : State) (x : Outcome LogError A × State) (f : A → Act State B)
    → IsQuiet s x.1
    → ((a : A) (t : State) → IsQuiet s t → IsQuiet s (f a t).1)
    → IsQuiet s (continue x f).1
continue-IsQuiet s (ok a, t) f q good = good a t q
continue-IsQuiet s (err e, t) f q good = q
continue-IsQuiet s (panic, t) f q good = q

pub ask-lock :
    {A : Type 0} (r : World → Outcome LogError A) (e : LogError) (w : World)
    → (ask r e w).1.lock ≡ w.lock
unfolding ask call
ask-lock r e w =
    perform_cases (λ v. v) e (λ x. (continue x (λ _ v. (r v, v))).1.lock ≡ w.lock)
      (record w { faults = rest_faults w.faults }) (first_fault w.faults) refl refl refl refl refl

pub fetch-lock : (key : Bytes) (w : World) → (fetch key w).1.lock ≡ w.lock
unfolding fetch
fetch-lock key w = ask-lock _ _ w

upload-lock : (key content : Bytes) (w : World) → (upload key content opts_issuer w).1.lock ≡ w.lock
upload-lock key content w =
    upload_cases key content opts_issuer (λ x. x.1.lock ≡ w.lock) w (λ v l o. l) (λ v l o. l)
      (λ v l o. l)

-- Both branches of a test
pub either-branch :
    {A : Type 0} (P : A → Type 0) (b : Bool) {x y : A} → P x → P y → P (if b then x else y)
either-branch P true p q = p
either-branch P false p q = q

module _ {Builder : Type 0} (cb : Cryptobyte Builder) (sha256 : Bytes → Bytes) (s : State) where
  upload_issuer-IsQuiet :
      (cert : Bytes) (t : State) → IsQuiet s t → IsQuiet s (upload_issuer cb sha256 cert t).1
  unfolding upload_issuer
  upload_issuer-IsQuiet cert t q =
      either-branch (λ (x : Outcome LogError (Unit {0}) × State). IsQuiet s x.1) _ q
        (caught-IsQuiet s (on_world (fetch (issuer_path (sha256 cert))) t) _ _
          (on_world-IsQuiet s t (fetch (issuer_path (sha256 cert))) (fetch-lock _) q)
          (λ old u r.
            either-branch (λ (f : Act State (Unit {0})). IsQuiet s (f u).1) (bytes_beq old cert)
              (remembered u r) r)
          (λ _ u r.
            caught-IsQuiet s (on_world (upload _ cert opts_issuer) u) _ _
              (on_world-IsQuiet s u (upload (issuer_path (sha256 cert)) cert opts_issuer)
                (upload-lock _ cert) r)
              (λ _ v k. remembered v k) (λ _ v k. k)))
    where
      remembered :
          {m : Map Bytes Bool} (u : State)
          → IsQuiet s u
          → IsQuiet s (record u { log = record u.log { issuers = m } })
      remembered u r = record { tree = r.tree; lock_checkpoint = r.lock_checkpoint; lock = r.lock }

  upload_issuers-IsQuiet :
      (certs : List Bytes) (t : State)
      → IsQuiet s t
      → IsQuiet s (upload_issuers cb sha256 certs t).1
  unfolding upload_issuers
  upload_issuers-IsQuiet [] t q = q
  upload_issuers-IsQuiet (c ∷ cs) t q =
      continue-IsQuiet s (upload_issuer cb sha256 c t) _ (upload_issuer-IsQuiet c t q)
        (λ a u. upload_issuers-IsQuiet cs u)

  add_new_leaf-IsQuiet :
      (h : Bytes) (leaf : PendingLogEntry) (found : Option LogEntry) (t : State)
      → IsQuiet s t
      → IsQuiet s (add_new_leaf cb sha256 h leaf found t).1
  unfolding add_new_leaf
  add_new_leaf-IsQuiet h leaf (some e) t q = q
  add_new_leaf-IsQuiet h leaf none t q =
      either-branch (λ (x : Outcome LogError (WaitEntry × Source) × State). IsQuiet s x.1)
        (is_full cb sha256 t.log.pool_size (pool_at t.log.pools t.log.current_pool)) q
        (record { tree = q.tree; lock_checkpoint = q.lock_checkpoint; lock = q.lock })

  cache_get-lock :
      (leaf : PendingLogEntry) (w : World) → (cache_get cb sha256 leaf w).1.lock ≡ w.lock
  unfolding cache_get
  cache_get-lock leaf w = elim (Outcome-cases (leaf_hash cb sha256 leaf)) [
    | inl (h, e) ↦ rw (e) (ask-lock _ _ w)
    | inr (inl (f, e)) ↦ rw (e) refl
    | inr (inr e) ↦ rw (e) refl
  ]

  find_or_add-IsQuiet :
      (h : Bytes) (leaf : PendingLogEntry) (found sequencing : Option WaitEntry) (t : State)
      → IsQuiet s t
      → IsQuiet s (find_or_add cb sha256 h leaf found sequencing t).1
  unfolding find_or_add
  find_or_add-IsQuiet h leaf (some f) sequencing t q = q
  find_or_add-IsQuiet h leaf none (some f) t q = q
  find_or_add-IsQuiet h leaf none none t q =
      caught-IsQuiet s (on_world (cache_get cb sha256 leaf) t) _ _
        (on_world-IsQuiet s t (cache_get cb sha256 leaf) (cache_get-lock leaf) q)
        (add_new_leaf-IsQuiet h leaf) (λ e u r. r)

  add_under_lock-IsQuiet :
      (leaf : PendingLogEntry) (t : State)
      → IsQuiet s t
      → IsQuiet s (add_under_lock cb sha256 leaf t).1
  unfolding add_under_lock
  add_under_lock-IsQuiet leaf t q = elim (Outcome-cases (leaf_hash cb sha256 leaf)) [
    | inl (h, e) ↦ rw (e) (find_or_add-IsQuiet h leaf _ _ t q)
    | inr (inl (f, e)) ↦ rw (e) q
    | inr (inr e) ↦ rw (e) q
  ]

  pub add_leaf_to_pool-IsQuiet :
      (leaf : PendingLogEntry) → IsQuiet s (add_leaf_to_pool cb sha256 leaf s).1
  unfolding add_leaf_to_pool
  add_leaf_to_pool-IsQuiet leaf =
      caught-IsQuiet s (upload_issuers cb sha256 leaf.issuers s) _ _
        (upload_issuers-IsQuiet leaf.issuers s (IsQuiet-refl s)) (λ _. add_under_lock-IsQuiet leaf)
        (λ e t q. q)
