-- ===== src/Ctlog/History.antt =====
-- The life of a log (ctlog.go): processes that load it, add leaves to it and sequence them, over one
-- object storage, lock and cache. Any number of them run at once, and each may end at any time; a
-- call of `addLeafToPool`, `sequence` or `LoadLog` is one step.
pub mod Frames
pub mod Loads
pub mod Growth
pub mod Created
mod Tests
use sunlight.Prelude.{ℕ, ◌≤◌, ◌≡◌, List, ◌∷◌, ◌++◌, Outcome, ok, err, panic}
use sunlight.Errors.{LogError}
use sunlight.Cryptobyte.{Cryptobyte}
use sunlight.Cryptobyte.Wire.{Bytes}
use sunlight.Ctlog.World.{World, Fault}
use sunlight.Ctlog.Types.{Tlog, PendingLogEntry, Log}
use sunlight.Ctlog.Pool.{State, add_leaf_to_pool}
use sunlight.Ctlog.Staging.{Archive}
use sunlight.Ctlog.Sequencer.{CheckpointSigner, sequence}
use sunlight.Ctlog.Loading.{load_log}
use sunlight.Ctlog.Loading.Crashes.{restarted}

-- What outlives the processes, and the log of each process.
pub record System : Type 0 where
  pub world : World
  pub logs : List Log

module _ (before after : List Log) where
  -- A process goes on behind an error of `addLeafToPool`, which its caller answers.
  abbrev pub answered : {A : Type 0} → Outcome LogError A × State → System
  answered (ok _, s) = record { world = s.world; logs = before ++ s.log ∷ after }
  answered (err _, s) = record { world = s.world; logs = before ++ s.log ∷ after }
  answered (panic, s) = record { world = s.world; logs = before ++ after }

  -- An error of `sequence` ends the sequencer: `RunSequencer` returns it.
  abbrev pub ticked : {A : Type 0} → Outcome LogError A × State → System
  ticked (ok _, s) = record { world = s.world; logs = before ++ s.log ∷ after }
  ticked (err _, s) = record { world = s.world; logs = before ++ after }
  ticked (panic, s) = record { world = s.world; logs = before ++ after }

-- A new process, if `LoadLog` succeeds.
abbrev pub started : List Log → Outcome LogError Log × World → System
started logs (ok log, w) = record { world = w; logs = log ∷ logs }
started logs (err _, w) = record { world = w; logs = logs }
started logs (panic, w) = record { world = w; logs = logs }

-- Between two steps time passes, and a script of faults for the next step is drawn.
abbrev pub later : ℕ → List Fault → System → System
later now faults p = record p { world = restarted now faults p.world }

module _ {Builder : Type 0} (cb : Cryptobyte Builder) (sha256 : Bytes → Bytes) (tlog : Tlog)
    (archive : Archive) (signer : CheckpointSigner) where
  pub data Step (p q : System) : Type 0 where
    adds :
        (now : ℕ) (faults : List Fault) (before after : List Log) (log : Log)
        (leaf : PendingLogEntry)
        → p.world.now ≤ now
        → p.logs ≡ before ++ log ∷ after
        → q
          ≡ later now faults (
              answered before after
                (add_leaf_to_pool cb sha256 leaf (record { log = log; world = p.world })))
        → Step p q
    ticks :
        (now : ℕ) (faults : List Fault) (before after : List Log) (log : Log)
        → p.world.now ≤ now
        → p.logs ≡ before ++ log ∷ after
        → q
          ≡ later now faults (
              ticked before after
                (sequence cb sha256 tlog archive signer (record { log = log; world = p.world })))
        → Step p q
    stops :
        (before after : List Log) (log : Log)
        → p.logs ≡ before ++ log ∷ after
        → q ≡ record p { logs = before ++ after }
        → Step p q
    loads :
        (now : ℕ) (faults : List Fault) (pool_size : ℕ)
        → p.world.now ≤ now
        → q ≡ later now faults (started p.logs (load_log cb tlog archive signer pool_size p.world))
        → Step p q

  -- Any number of steps
  pub data Reach (p : System) : System → Type 0 where
    here : Reach p p
    next : {q r : System} → Reach p q → Step q r → Reach p r
