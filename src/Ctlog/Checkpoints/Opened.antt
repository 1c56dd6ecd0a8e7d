-- ===== src/Ctlog/Checkpoints/Opened.antt =====
-- What a checkpoint that `openCheckpoint` (ctlog.go) accepts has been checked for.
use sunlight.Prelude.{
  ℕ, ◌≤◌, ◌≡◌, refl, sym, ◌∙◌, ap, subst, List, [], ◌∷◌, true, false, ◌&&◌, ltb, ◌==◌, ==_iff,
  Outcome, ok, >>=-eq-ok, ok-injective, arith, inl, inr, ◌⊎◌, Bool-cases, All,
}
use mathlib.Core.List.{Memᴰ}
use mathlib.Core.List.Memᴰ
use sunlight.Prelude.Maps.{bytes_beq, bytes_beq_iff}
use sunlight.Errors.{
  LogError, verifier_key_not_constructed, ed25519_verifier_not_constructed, checkpoint_not_verified,
  timestamp_not_extracted, checkpoint_not_parsed,
}
use sunlight.Cryptobyte.{Cryptobyte}
use sunlight.Cryptobyte.Wire.{Bytes}
use sunlight.Extensions.{is_empty}
use sunlight.Checkpoint.{Checkpoint, Texts, parse_checkpoint}
use sunlight.Checkpoint.Signature.{Verification, signature_timestamp}
use sunlight.Checkpoint.Verifier.{Verifier, Names}
use sunlight.Ctlog.Action.{renamed}
use sunlight.Ctlog.Batch.Entries.{renamed-eq-ok}
use sunlight.Ctlog.Checkpoints.Notes.{NoteSig, Note, NotePackage, IsVerified}
use sunlight.Ctlog.Checkpoints.{
  Config, Found, find_signatures, verifier_of, ed25519_verifier, check_opened, check_note,
  open_checkpoint,
}

is_empty-nil : (s : Bytes) → is_empty s ≡ true → s ≡ []
is_empty-nil [] h = refl
is_empty-nil (x ∷ s) h = absurd (cc h)

module _ {Builder : Type 0} (cb : Cryptobyte Builder) (tx : Texts) (vf : Verification) (nm : Names)
    (np : NotePackage tx) (c : Config) where
  abbrev Marks : Type 0
  Marks = Found cb tx vf nm np c

  -- A signature with this key hash, and the timestamp that it carries
  abbrev pub HasTimestamp : ℕ → List NoteSig → ℕ → Type 0
  HasTimestamp h1 ss t =
      (s : NoteSig) × Memᴰ s ss × (s.hash ≡ h1) × (signature_timestamp cb tx vf s.base64 ≡ ok t)

  abbrev pub HasKey : ℕ → List NoteSig → Type 0
  HasKey h2 ss = (s : NoteSig) × Memᴰ s ss × (s.hash ≡ h2)

  abbrev Seen : ℕ → ℕ → List NoteSig → Marks → Marks → Type 0
  Seen h1 h2 ss f g =
      ((g.timestamp ≡ f.timestamp × g.v1_found ≡ f.v1_found) ⊎ HasTimestamp h1 ss g.timestamp)
      × ((g.v2_found ≡ f.v2_found) ⊎ HasKey h2 ss)

  find_signatures-Seen :
      (h1 h2 : ℕ) (ss : List NoteSig) (f g : Marks)
      → find_signatures cb tx vf nm np c h1 h2 ss f ≡ ok g
      → Seen h1 h2 ss f g
  unfolding find_signatures
  find_signatures-Seen h1 h2 [] f g h = rw (← ok-injective _ _ h) (inl (refl, refl), inl refl)
  find_signatures-Seen h1 h2 (s ∷ ss) f g h = elim (Bool-cases (s.hash == h1)) [
    | inl first ↦
        let (t, read, h₁) =
          >>=-eq-ok (renamed timestamp_not_extracted (signature_timestamp cb tx vf s.base64)) _
            (rw (first) at h) in
        let (one, two) = find_signatures-Seen h1 h2 ss _ g h₁ in
        (
          inr (elim one [
            | inl (same, _) ↦ (
              s,
              Memᴰ.head refl,
              (==_iff s.hash h1).0 first,
              renamed-eq-ok _ _ read ∙ ap ok (sym same),
            )
            | inr (r, m, hash, time) ↦ (r, Memᴰ.tail m, hash, time)
          ]),
          behind two,
        )
    | inr other ↦ elim (Bool-cases (s.hash == h2)) [
      | inl second ↦
          let (one, two) = find_signatures-Seen h1 h2 ss _ g (rw (other, second) at h) in
          (before one, inr (s, Memᴰ.head refl, (==_iff s.hash h2).0 second))
      | inr neither ↦
          let (one, two) = find_signatures-Seen h1 h2 ss _ g (rw (other, neither) at h) in
          (before one, behind two)
    ]
  ]
    where
      before : {A : Type 0} {t : ℕ} → A ⊎ HasTimestamp h1 ss t → A ⊎ HasTimestamp h1 (s ∷ ss) t
      before (inl a) = inl a
      before (inr (r, m, hash, time)) = inr (r, Memᴰ.tail m, hash, time)

      behind : {A : Type 0} → A ⊎ HasKey h2 ss → A ⊎ HasKey h2 (s ∷ ss)
      behind (inl a) = inl a
      behind (inr (r, m, k)) = inr (r, Memᴰ.tail m, k)

  -- What was found, of nothing before
  find_signatures-found :
      (h1 h2 : ℕ) (ss : List NoteSig) (g : Marks)
      → find_signatures cb tx vf nm np c h1 h2 ss
          (record { timestamp = 0; v1_found = false; v2_found = false })
        ≡ ok g
      → g.v1_found && g.v2_found ≡ true
      → HasTimestamp h1 ss g.timestamp × HasKey h2 ss
  find_signatures-found h1 h2 ss g h both =
      let (one, two) = find_signatures-Seen h1 h2 ss _ g h in
      (
        elim one [ inl (_, none) ↦ absurd (ground arith) | inr k ↦ k ],
        elim two [ inl none ↦ absurd (ground arith) | inr k ↦ k ],
      )

  -- A signature of the text with this key hash, which one of the verifiers with that hash accepts, and
  -- the timestamp that it carries
  abbrev pub SignsTime : List Verifier → Note → ℕ → ℕ → Type 0
  SignsTime known n h1 t =
      (s : NoteSig) × Memᴰ s n.sigs
      × (s.hash ≡ h1)
      × (signature_timestamp cb tx vf s.base64 ≡ ok t)
      × IsVerified tx known n.text s

  abbrev pub Signs : List Verifier → Note → ℕ → Type 0
  Signs known n h2 = (s : NoteSig) × Memᴰ s n.sigs × (s.hash ≡ h2) × IsVerified tx known n.text s

  All-member : (P : NoteSig → Type 0) (ss : List NoteSig) (s : NoteSig) → All P ss → Memᴰ s ss → P s
  All-member P [] s a m = absurd (Memᴰ.not-nil m)
  All-member P (x ∷ ss) s a m = elim (Memᴰ.cases_cons m) [
    | inl same ↦ subst P (sym same) a.0
    | inr later ↦ All-member P ss s a.1 later
  ]

  HasTimestamp-SignsTime :
      (known : List Verifier) (n : Note) (h t : ℕ)
      → All (IsVerified tx known n.text) n.sigs
      → HasTimestamp h n.sigs t
      → SignsTime known n h t
  HasTimestamp-SignsTime known n h t a (s, m, hash, time) =
      (s, m, hash, time, All-member (IsVerified tx known n.text) n.sigs s a m)

  HasKey-Signs :
      (known : List Verifier) (n : Note) (h : ℕ)
      → All (IsVerified tx known n.text) n.sigs
      → HasKey h n.sigs
      → Signs known n h
  HasKey-Signs known n h a (s, m, hash) =
      (s, m, hash, All-member (IsVerified tx known n.text) n.sigs s a m)

  -- What a checkpoint `b` was checked for, when it was opened at the time `now`
  pub record IsOpened (now : ℕ) (b : Bytes) (k : Checkpoint) (t : ℕ) : Type 0 where
    pub v1 : Verifier
    pub v2 : Verifier
    pub n : Note
    pub log_key : verifier_of cb tx vf nm np c ≡ ok v1
    pub witness_key :
        ed25519_verifier cb tx vf nm np c verifier_key_not_constructed
          ed25519_verifier_not_constructed
        ≡ ok v2
    pub verified : np.open_note b (v1 ∷ v2 ∷ []) ≡ ok n
    pub has_timestamp : SignsTime (v1 ∷ v2 ∷ []) n v1.hash t
    pub has_witness : Signs (v1 ∷ v2 ∷ []) n v2.hash
    pub parsed : parse_checkpoint tx n.text ≡ ok k
    pub origin : k.origin ≡ c.name
    pub extension : k.extension ≡ []
    pub past : t ≤ now

  check_opened-eq-ok :
      (now t u : ℕ) (k l : Checkpoint)
      → check_opened cb tx vf nm np c now t k ≡ ok (l, u)
      → (l ≡ k) × (u ≡ t) × (t ≤ now) × (k.origin ≡ c.name) × (k.extension ≡ [])
  check_opened-eq-ok now t u k l h = elim (Bool-cases (ltb now t)) [
    | inl future ↦ absurd (cc (rw (future) at h))
    | inr past ↦ elim (Bool-cases (bytes_beq k.origin c.name)) [
      | inr other ↦ absurd (cc (rw (past, other) at h))
      | inl origin ↦ elim (Bool-cases (is_empty k.extension)) [
        | inr extended ↦ absurd (cc (rw (past, origin, extended) at h))
        | inl empty ↦
            let done : ◌≡◌ {A = Outcome LogError (Checkpoint × ℕ)} (ok (k, t)) (ok (l, u)) =
              rw (past, origin, empty) at h in
            let same = ok-injective _ _ done in
            (
              sym (ap (λ x. x.0) same),
              sym (ap (λ x. x.1) same),
              ground arith,
              (bytes_beq_iff k.origin c.name).0 origin,
              is_empty-nil k.extension empty,
            )
      ]
    ]
  ]

  -- A checkpoint is opened only if the package note opens it with the verifiers of the log's key and
  -- of the witness's; if the note has a signature with the key hash of each of the two, whose bytes one
  -- of the two verifiers with that key hash accepts for the text of the note, and the returned
  -- timestamp, which is not in the future, is the one in such a signature with the key hash of the
  -- log's key; and if the text parses to the returned checkpoint, whose origin is the name of the log,
  -- without extension lines.
  pub open_checkpoint-IsOpened :
      (now : ℕ) (b : Bytes) (k : Checkpoint) (t : ℕ)
      → open_checkpoint cb tx vf nm np c now b ≡ ok (k, t)
      → IsOpened now b k t
  unfolding open_checkpoint check_note
  open_checkpoint-IsOpened now b k t h =
      let (v1, log_key, h₁) = >>=-eq-ok (verifier_of cb tx vf nm np c) _ h in
      let (v2, witness_key, h₂) =
        >>=-eq-ok
          (ed25519_verifier cb tx vf nm np c verifier_key_not_constructed
            ed25519_verifier_not_constructed)
          _ h₁ in
      let (n, verified, h₃) =
        >>=-eq-ok (renamed checkpoint_not_verified (np.open_note b (v1 ∷ v2 ∷ []))) _ h₂ in
      let (f, found, h₄) =
        >>=-eq-ok
          (find_signatures cb tx vf nm np c v1.hash v2.hash n.sigs
            (record { timestamp = 0; v1_found = false; v2_found = false }))
          _ h₃ in
      elim (Bool-cases (f.v1_found && f.v2_found)) [
        | inr missing ↦ absurd (cc (rw (missing) at h₄))
        | inl both ↦
            let (l, parsed, h₅) =
              >>=-eq-ok (renamed checkpoint_not_parsed (parse_checkpoint tx n.text)) _
                (rw (both) at h₄) in
            let (same, time, past, origin, empty) = check_opened-eq-ok now f.timestamp t l k h₅ in
            let (one, two) = find_signatures-found v1.hash v2.hash n.sigs f found both in
            let accepted =
              np.open_note-IsVerified b (v1 ∷ v2 ∷ []) n
                (renamed-eq-ok checkpoint_not_verified (np.open_note b (v1 ∷ v2 ∷ [])) verified) in
            record {
              v1 = v1;
              v2 = v2;
              n = n;
              log_key = log_key;
              witness_key = witness_key;
              verified = renamed-eq-ok _ _ verified;
              has_timestamp =
                  HasTimestamp-SignsTime (v1 ∷ v2 ∷ []) n v1.hash t accepted
                    (subst (HasTimestamp v1.hash n.sigs) (sym time) one);
              has_witness = HasKey-Signs (v1 ∷ v2 ∷ []) n v2.hash accepted two;
              parsed = renamed-eq-ok _ _ parsed ∙ ap ok (sym same);
              origin = ap (λ (x : Checkpoint). x.origin) same ∙ origin;
              extension = ap (λ (x : Checkpoint). x.extension) same ∙ empty;
              past = omega (arith, time, past);
            }
      ]
