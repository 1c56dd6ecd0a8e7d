-- ===== src/Ctlog/History/Growth.antt =====
-- What any history of a log (ctlog.go) keeps: the lock holds one line of trees, each later and no
-- smaller than the one before it, and no process has a tree that is not on it.
use sunlight.Prelude.{
  ℕ, ◌≤◌, ◌<◌, ◌≡◌, refl, sym, ◌∙◌, ap, List, [], ◌∷◌, ◌++◌, some, Outcome, ok, err, panic, inl,
  inr, ◌⊎◌, All, arith, ok-injective,
}
use sunlight.Errors.{LogError}
use sunlight.Cryptobyte.{Cryptobyte}
use sunlight.Cryptobyte.Wire.{Bytes}
use sunlight.Ctlog.World.{World, Fault}
use sunlight.Ctlog.Types.{Tlog, TreeWithTimestamp, Log}
use sunlight.Ctlog.Pool.{State}
use sunlight.Ctlog.Staging.{Archive}
use sunlight.Ctlog.Sequencer.{CheckpointSigner, end_sequencing, sequence, sequence_pool, rotate}
use sunlight.Ctlog.Sequencer.Crashes.{LockedWithBundle, head_of, grown}
use sunlight.Ctlog.Sequencer.Guarantees.{sequence_pool-lock, sequence_pool-signed}
use sunlight.Ctlog.Loading.{load_log}
use sunlight.Ctlog.Loading.Recovery.{load_log-IsLoaded}
use sunlight.Ctlog.Loading.Crashes.{restarted}
use sunlight.Ctlog.History.{
  System, answered, ticked, started, later, Step, adds, ticks, stops, loads, Reach, here, next,
}
use sunlight.Ctlog.History.Frames.{IsQuiet, add_leaf_to_pool-IsQuiet}
use sunlight.Ctlog.History.Loads.{load_log-lock}

-- The same tree, or a later one that is no smaller
abbrev pub Extends : TreeWithTimestamp → TreeWithTimestamp → Type 0
Extends t u = (u ≡ t) ⊎ ((t.time < u.time) × (t.n ≤ u.n))

Extends-trans : (t u v : TreeWithTimestamp) → Extends t u → Extends u v → Extends t v
Extends-trans t u v (inl e) k = rw (← e) k
Extends-trans t u v (inr h) (inl e) = rw (e) (inr h)
Extends-trans t u v (inr h) (inr k) = inr (omega (arith, h, k))

Extends-time : (t u : TreeWithTimestamp) → Extends t u → t.time ≤ u.time
Extends-time t u (inl e) = rw (e) (omega arith)
Extends-time t u (inr h) = omega (arith, h)

module _ {Builder : Type 0} (cb : Cryptobyte Builder) (sha256 : Bytes → Bytes) (tlog : Tlog)
    (archive : Archive) (signer : CheckpointSigner) where
  -- The lock holds a checkpoint that was signed for a tree, at some time up to now.
  abbrev pub Locks : World → TreeWithTimestamp → Type 0
  Locks w t = (b : Bytes) × (w.lock ≡ some b) × (signer.sign_tree_head t ≡ ok b) × (t.time ≤ w.now)

  -- A process knows the checkpoint of its tree, which the tree of the lock extends.
  abbrev pub IsBehind : TreeWithTimestamp → Log → Type 0
  IsBehind t log = (signer.sign_tree_head log.tree ≡ ok log.lock_checkpoint) × Extends log.tree t

  abbrev pub IsSound : System → TreeWithTimestamp → Type 0
  IsSound p t = Locks p.world t × All (IsBehind t) p.logs

  -- What follows a system whose lock held the tree `t`.
  abbrev Sound : System → TreeWithTimestamp → Type 0
  Sound q t = (u : TreeWithTimestamp) × IsSound q u × Extends t u

  same_signed :
      (t u : TreeWithTimestamp) (b : Bytes) (now : ℕ)
      → signer.sign_tree_head t ≡ ok b
      → signer.sign_tree_head u ≡ ok b
      → t.time ≤ now
      → u.time ≤ now
      → t ≡ u
  same_signed t u b now st su lt lu =
      ok-injective _ _ (sym (signer.open-sign t b now st lt) ∙ signer.open-sign u b now su lu)

  IsBehind-Extends :
      (t u : TreeWithTimestamp) (logs : List Log)
      → Extends t u
      → All (IsBehind t) logs
      → All (IsBehind u) logs
  IsBehind-Extends t u [] e h = tt
  IsBehind-Extends t u (l ∷ ls) e h =
      ((h.0.0, Extends-trans l.tree t u h.0.1 e), IsBehind-Extends t u ls e h.1)

  -- A process of the list, and the others
  module _ (t : TreeWithTimestamp) (log : Log) where
    picked :
        (before after : List Log)
        → All (IsBehind t) (before ++ log ∷ after)
        → IsBehind t log × All (IsBehind t) (before ++ after)
    picked [] after h = h
    picked (l ∷ before) after h =
        let (found, others) = picked before after h.1 in (found, (h.0, others))

    put_back :
        (before after : List Log)
        → IsBehind t log
        → All (IsBehind t) (before ++ after)
        → All (IsBehind t) (before ++ log ∷ after)
    put_back [] after h k = (h, k)
    put_back (l ∷ before) after h k = (k.0, put_back before after h k.1)

  -- Nothing was locked: the system is as sound as it was.
  unlocked :
      (now : ℕ) (faults : List Fault) (w : World) (p : System) (t : TreeWithTimestamp)
      (logs : List Log)
      → p.world.now ≤ now
      → Locks p.world t
      → w.lock ≡ p.world.lock
      → All (IsBehind t) logs
      → Sound (later now faults (record { world = w; logs = logs })) t
  unlocked now faults w p t logs passed (b, locked, signed, time) kept behind =
      (t, ((b, kept ∙ locked, signed, omega (arith, passed, time)), behind), inl refl)

  IsQuiet-IsBehind :
      (t : TreeWithTimestamp) (log : Log) (w : World) (s : State)
      → IsQuiet (record { log = log; world = w }) s
      → IsBehind t log
      → IsBehind t s.log
  IsQuiet-IsBehind t log w s quiet (signed, older) =
      rw (quiet.tree, quiet.lock_checkpoint) (signed, older)

  module _ (now : ℕ) (faults : List Fault) (before after : List Log) (log : Log) (p : System)
      (t : TreeWithTimestamp) (passed : p.world.now ≤ now) (locks : Locks p.world t)
      (behind : IsBehind t log) (others : All (IsBehind t) (before ++ after)) where
    adds-Sound :
        {A : Type 0} (x : Outcome LogError A × State)
        → IsQuiet (record { log = log; world = p.world }) x.1
        → Sound (later now faults (answered before after x)) t
    adds-Sound (ok a, s) quiet =
        unlocked now faults s.world p t _ passed locks quiet.lock
          (put_back t s.log before after (IsQuiet-IsBehind t log p.world s quiet behind) others)
    adds-Sound (err a, s) quiet =
        unlocked now faults s.world p t _ passed locks quiet.lock
          (put_back t s.log before after (IsQuiet-IsBehind t log p.world s quiet behind) others)
    adds-Sound (panic, s) quiet = unlocked now faults s.world p t _ passed locks quiet.lock others

    -- What `sequence` runs on
    abbrev start : State
    start = rotate cb sha256 tlog archive signer (record { log = log; world = p.world })

    abbrev run : Outcome LogError (Unit {0}) × State
    run = sequence_pool cb sha256 tlog archive signer log.current_pool start

    -- The tree of the lock behind the run extends the one before it, and the log is behind it.
    abbrev Advanced : Type 0
    Advanced =
        (u : TreeWithTimestamp) × Locks (restarted now faults run.1.world) u
        × Extends t u
        × IsBehind u run.1.log

    kept_lock : run.1.world.lock ≡ p.world.lock → Advanced
    unfolding rotate
    kept_lock kept =
        let (b, locked, signed, time) = locks in
        (
          t,
          (b, kept ∙ locked, signed, omega (arith, passed, time)),
          inl refl,
          elim (sequence_pool-signed cb sha256 tlog archive signer log.current_pool start) [
            | inl (tree, checkpoint) ↦ rw (tree, checkpoint) behind
            | inr ((mine, held), at_now) ↦
                let same : b ≡ run.1.log.lock_checkpoint = cc (locked, kept, held) in
                let tree =
                  same_signed run.1.log.tree t b p.world.now (rw (same) mine) signed
                    (rw (at_now) (omega arith)) time in
                (mine, inl (sym tree))
          ],
        )

    new_lock :
        LockedWithBundle cb sha256 tlog archive signer log.current_pool start run.1.world.lock
          run.1.world.objects
        → Advanced
    unfolding rotate
    new_lock (c, checkpoint, sign_new, old, new, _) =
        let (b, locked, signed, time) = locks in
        let u = head_of cb sha256 tlog archive signer log.current_pool start c in
        let (later_time, larger) =
          grown cb sha256 tlog archive signer log.current_pool start c u refl in
        let same : b ≡ log.lock_checkpoint = cc (locked, old) in
        let tree : t ≡ log.tree =
          same_signed t log.tree b p.world.now signed (rw (same) behind.0) time
            (omega (arith, time, Extends-time log.tree t behind.1)) in
        let extended : Extends log.tree u = inr (later_time, omega (arith, larger)) in
        (
          u,
          (checkpoint, new, sign_new, passed),
          rw (tree) extended,
          elim (sequence_pool-signed cb sha256 tlog archive signer log.current_pool start) [
            | inl (tree', checkpoint') ↦ rw (tree', checkpoint') (behind.0, extended)
            | inr ((mine, held), at_now) ↦
                let same' : checkpoint ≡ run.1.log.lock_checkpoint = cc (new, held) in
                let tree' =
                  same_signed run.1.log.tree u checkpoint p.world.now (rw (same') mine) sign_new
                    (rw (at_now) (omega arith)) (omega arith) in
                (mine, inl (sym tree'))
          ],
        )

    advanced : Advanced
    unfolding rotate
    advanced = elim (sequence_pool-lock cb sha256 tlog archive signer log.current_pool start) [
      | inl kept ↦ kept_lock kept
      | inr new ↦ new_lock new
    ]

    ticks-Sound :
        Sound
          (later now faults (
            ticked before after
              (sequence cb sha256 tlog archive signer (record { log = log; world = p.world }))))
          t
    unfolding sequence
    ticks-Sound = ended run advanced
      where
        ended :
            (x : Outcome LogError (Unit {0}) × State)
            → (u : TreeWithTimestamp) × Locks (restarted now faults x.1.world) u
              × Extends t u
              × IsBehind u x.1.log
            → Sound
                (later now faults
                  (ticked before after (end_sequencing cb sha256 tlog archive signer x)))
                t
        ended (ok _, s) (u, locks', extends, mine) = (
          u,
          (
            locks',
            put_back u (record s.log { in_sequencing = [] }) before after mine
                (IsBehind-Extends t u (before ++ after) extends others),
          ),
          extends,
        )
        ended (err e, s) (u, locks', extends, mine) =
            (u, (locks', IsBehind-Extends t u (before ++ after) extends others), extends)
        ended (panic, s) (u, locks', extends, mine) =
            (u, (locks', IsBehind-Extends t u (before ++ after) extends others), extends)

  -- A log that was loaded has the tree of the lock.
  loads-Sound :
      (now : ℕ) (faults : List Fault) (pool_size : ℕ) (p : System) (t : TreeWithTimestamp)
      → p.world.now ≤ now
      → IsSound p t
      → Sound
          (later now faults (started p.logs (load_log cb tlog archive signer pool_size p.world)))
          t
  loads-Sound now faults pool_size p t passed ((b, locked, signed, time), behind) =
      when_loaded (load_log cb tlog archive signer pool_size p.world) refl
        (load_log-lock cb tlog archive signer pool_size p.world)
    where
      when_loaded :
          (x : Outcome LogError Log × World)
          → load_log cb tlog archive signer pool_size p.world ≡ x
          → x.1.lock ≡ p.world.lock
          → Sound (later now faults (started p.logs x)) t
      when_loaded (ok log, w) is kept =
          let l = load_log-IsLoaded cb tlog archive signer pool_size p.world log w is in
          let same : b ≡ log.lock_checkpoint = cc (locked, l.held) in
          let opened : signer.open_checkpoint p.world.now b ≡ ok log.tree =
            ap (signer.open_checkpoint p.world.now) same ∙ l.opened in
          let tree : t ≡ log.tree =
            ok-injective _ _ (sym (signer.open-sign t b p.world.now signed time) ∙ opened) in
          unlocked now faults w p t (log ∷ p.logs) passed (b, locked, signed, time) kept
            ((rw (← tree, ← same) signed, inl tree), behind)
      when_loaded (err e, w) is kept =
          unlocked now faults w p t p.logs passed (b, locked, signed, time) kept behind
      when_loaded (panic, w) is kept =
          unlocked now faults w p t p.logs passed (b, locked, signed, time) kept behind

  Step-Sound :
      (p q : System) (t : TreeWithTimestamp)
      → IsSound p t
      → Step cb sha256 tlog archive signer p q
      → Sound q t
  Step-Sound p q t (locks, behind) (adds now faults before after log leaf passed logs is) =
      let (mine, others) = picked t log before after (rw (logs) at behind) in
      rw (is) (
        adds-Sound now faults before after log p t passed locks mine others _
          (add_leaf_to_pool-IsQuiet cb sha256 (record { log = log; world = p.world }) leaf))
  Step-Sound p q t (locks, behind) (ticks now faults before after log passed logs is) =
      let (mine, others) = picked t log before after (rw (logs) at behind) in
      rw (is) (ticks-Sound now faults before after log p t passed locks mine others)
  Step-Sound p q t (locks, behind) (stops before after log logs is) =
      let (mine, others) = picked t log before after (rw (logs) at behind) in
      rw (is) (t, (locks, others), inl refl)
  Step-Sound p q t sound (loads now faults pool_size passed is) =
      rw (is) (loads-Sound now faults pool_size p t passed sound)

  -- For processes that read one clock, which does not go back, and sign and open tree heads such that
  -- a signed one opens again: of a system whose lock holds the signed checkpoint of a tree, which each
  -- process's own signed tree is or precedes, this holds again after any steps of any processes,
  -- whatever fails in them and whenever processes end or are started, side by side as well: the lock
  -- then holds the same tree, or one that is later and no smaller, and every process's tree is that
  -- tree or is earlier and no larger.
  pub Reach-IsSound :
      (p q : System) (t : TreeWithTimestamp)
      → IsSound p t
      → Reach cb sha256 tlog archive signer p q
      → (u : TreeWithTimestamp) × IsSound q u × Extends t u
  Reach-IsSound p q t sound here = (t, sound, inl refl)
  Reach-IsSound p q t sound (next {q = r} before step) =
      let (u, between, first) = Reach-IsSound p r t sound before in
      let (v, after, second) = Step-Sound r q u between step in
      (v, after, Extends-trans t u v first second)
