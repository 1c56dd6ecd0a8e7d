-- ===== src/Ctlog/Checkpoints/RoundTrip.antt =====
-- A checkpoint that `signTreeHead` made is one that `openCheckpoint` opens (ctlog.go).
use sunlight.Prelude.{
  ℕ, ◌+◌, ◌^◌, ◌≤◌, ◌<◌, ◌≡◌, refl, sym, ◌∙◌, ap, subst, List, [], ◌∷◌, ◌++◌, Bool, true, false,
  le→ltb, ◌==◌, ==_iff, All, All-append, length, map, ok, >>=-eq-ok, ok-injective, arith, inl, inr,
  Bool-cases,
}
use mathlib.Core.List.{Perm}
use mathlib.Core.List.Perm
use sunlight.Prelude.Int.{pos, to_uint64}
use sunlight.Prelude.Maps.{bytes_beq_iff}
use sunlight.Errors.{
  LogError, verifier_key_not_constructed, ed25519_verifier_not_constructed,
  ed25519_signer_not_constructed, note_not_signed,
}
use sunlight.Cryptobyte.{Cryptobyte}
use sunlight.Cryptobyte.Wire.{Bytes, IsByte, be, be-IsByte, length-be}
use sunlight.Checkpoint.{
  Checkpoint, Texts, AllPlain, max_checkpoint_size, format_checkpoint, parse_checkpoint,
}
use sunlight.Checkpoint.Lines.{join}
use sunlight.Checkpoint.RoundTrip.{parse-format_checkpoint}
use sunlight.Checkpoint.Signature.{ecdsa, Verification, verify, signature_timestamp}
use sunlight.Checkpoint.Verifier.{Verifier, Names, is_valid_name, new_rfc6962_verifier}
use sunlight.Ctlog.Action.{renamed}
use sunlight.Ctlog.Batch.Entries.{renamed-eq-ok}
use sunlight.Ctlog.Types.{TreeWithTimestamp}
use sunlight.Ctlog.Signing.{note_signature}
use sunlight.Ctlog.Signing.Verified.{layout, note_signature-eq-ok, verify-note_signature}
use sunlight.Ctlog.Checkpoints.Notes.{NoteSig, Note, NotePackage, Signed, IsAccepted}
use sunlight.Ctlog.Checkpoints.{
  Config, Draw, shuffled, find_signatures, verifier_of, ed25519_verifier, ed25519_signer,
  injected_signer, new_ed25519_signer, unsigned_note, grease_signatures, sign_tree_head, check_note,
  open_checkpoint,
}

layout-IsByte : (t : ℕ) (der : Bytes) → All IsByte der → All IsByte (layout t der)
layout-IsByte t der h =
    All-append IsByte (be 8 t) _ (be-IsByte 8 t)
      (omega arith, (omega arith, All-append IsByte (be 2 (length der)) der (be-IsByte 2 _) h))

-- Two elements in either order, and a map over them
map-shuffled :
    {A B : Type 0} (f : A → B) (swapped : Bool) (a b : A)
    → map f (shuffled swapped a b) ≡ shuffled swapped (f a) (f b)
map-shuffled f true a b = refl
map-shuffled f false a b = refl

All-shuffled :
    {A : Type 0} (P : A → Type 0) (swapped : Bool) (a b : A)
    → P a
    → P b
    → All P (shuffled swapped a b)
All-shuffled P true a b p q = (q, (p, tt))
All-shuffled P false a b p q = (p, (q, tt))

length-shuffled : {A : Type 0} (swapped : Bool) (a b : A) → length (shuffled swapped a b) ≡ 2
length-shuffled true a b = refl
length-shuffled false a b = refl

shuffled-Perm : {A : Type 0} (swapped : Bool) (a b : A) → Perm (shuffled swapped a b) (a ∷ b ∷ [])
shuffled-Perm true a b = Perm.swap a b []
shuffled-Perm false a b = Perm.refl (a ∷ b ∷ [])

module _ {Builder : Type 0} (cb : Cryptobyte Builder) (tx : Texts) (vf : Verification) (nm : Names)
    (np : NotePackage tx) (c : Config) where
  is_valid_name-AllPlain : (name : Bytes) → is_valid_name cb tx vf nm name ≡ true → AllPlain name
  unfolding is_valid_name
  is_valid_name-AllPlain name h = nm.has_space-AllPlain name (ground arith)

  -- The verifier of the log's key has the log's name, which is one line.
  verifier_of-eq-ok :
      (v : Verifier)
      → verifier_of cb tx vf nm np c ≡ ok v
      → (v.name ≡ c.name) × (v.verify ≡ verify cb tx vf c.key) × AllPlain c.name
  unfolding new_rfc6962_verifier
  verifier_of-eq-ok v h =
      let made : new_rfc6962_verifier cb tx vf nm c.name c.key ≡ ok v = renamed-eq-ok _ _ h in
      elim (Bool-cases (is_valid_name cb tx vf nm c.name)) [
        | inr invalid ↦ absurd (cc (rw (invalid) at made))
        | inl valid ↦
            let (pkix, _, done) = >>=-eq-ok (nm.marshal_pkix c.key) _ (rw (valid) at made) in
            let same = ok-injective _ _ done in
            (
              ap (λ (x : Verifier). x.name) (sym same),
              ap (λ (x : Verifier). x.verify) (sym same),
              is_valid_name-AllPlain c.name valid,
            )
      ]

  -- The verifier of the witness's key has the log's name, and accepts what the key signs; and it is
  -- the same whatever the errors are called.
  ed25519_verifier-eq-ok :
      (e e' f f' : LogError) (v : Verifier)
      → ed25519_verifier cb tx vf nm np c e e' ≡ ok v
      → (v.name ≡ c.name)
        × ((msg : Bytes) → v.verify msg (np.ed25519_sign c.witness_key msg) ≡ ok true)
        × (ed25519_verifier cb tx vf nm np c f f' ≡ ok v)
  ed25519_verifier-eq-ok e e' f f' v h =
      let (vk, made_key, h₁) =
        >>=-eq-ok (renamed e (np.new_ed25519_verifier_key c.name (np.ed25519_public c.witness_key)))
          _ h in
      let key = renamed-eq-ok _ _ made_key in
      let made = renamed-eq-ok _ _ h₁ in
      let (name, accepts) = np.verify-ed25519_sign c.name c.witness_key vk v key made in
      (name, accepts, rw (key, made) refl)

  -- The loop finds both signatures, in either order.
  find_signatures-shuffled :
      (swapped : Bool) (h1 h2 t : ℕ) (s1 s2 : NoteSig)
      → s1.hash ≡ h1
      → s2.hash ≡ h2
      → ¬ (h1 ≡ h2)
      → signature_timestamp cb tx vf s1.base64 ≡ ok t
      → find_signatures cb tx vf nm np c h1 h2
          (shuffled swapped s1 s2)
          (record { timestamp = 0; v1_found = false; v2_found = false })
        ≡ ok (record { timestamp = t; v1_found = true; v2_found = true })
  unfolding find_signatures
  find_signatures-shuffled swapped h1 h2 t s1 s2 first second differ read = in_order swapped
    where
      one : (s1.hash == h1) ≡ true
      one = (==_iff s1.hash h1).1 first

      not_one : (s2.hash == h1) ≡ false
      not_one = ground (arith, second, differ)

      two : (s2.hash == h2) ≡ true
      two = (==_iff s2.hash h2).1 second

      in_order :
          (b : Bool)
          → find_signatures cb tx vf nm np c h1 h2
              (shuffled b s1 s2)
              (record { timestamp = 0; v1_found = false; v2_found = false })
            ≡ ok (record { timestamp = t; v1_found = true; v2_found = true })
      in_order true = rw (not_one, two, one, read) refl
      in_order false = rw (one, read, not_one, two) refl

  -- The end of `openCheckpoint`, where both signatures are found and the text is the log's
  check_note-ok :
      (now t : ℕ) (v1 v2 : Verifier) (n : Note) (k : Checkpoint)
      → find_signatures cb tx vf nm np c v1.hash v2.hash n.sigs
          (record { timestamp = 0; v1_found = false; v2_found = false })
        ≡ ok (record { timestamp = t; v1_found = true; v2_found = true })
      → parse_checkpoint tx n.text ≡ ok k
      → t ≤ now
      → k.origin ≡ c.name
      → k.extension ≡ []
      → check_note cb tx vf nm np c now v1 v2 n ≡ ok (k, t)
  unfolding check_note
  check_note-ok now t v1 v2 n k found parsed past origin empty =
      rw (found, parsed, le→ltb now t past, (bytes_beq_iff k.origin c.name).1 origin, empty) refl

  -- The key hashes of the log's key and of the witness's differ.
  abbrev pub HaveDistinctKeys : Type 0
  HaveDistinctKeys =
      (v1 v2 : Verifier)
      → verifier_of cb tx vf nm np c ≡ ok v1
      → ed25519_verifier cb tx vf nm np c verifier_key_not_constructed
          ed25519_verifier_not_constructed
        ≡ ok v2
      → ¬ (v1.hash ≡ v2.hash)

  -- The log's key verifies what it signs, in signatures that are bytes.
  abbrev pub SignsWith : Bytes → Type 0
  SignsWith key =
      (c.key ≡ ecdsa key)
      × ((digest der : Bytes)
          → c.sign_digest digest ≡ ok der
          → (vf.verify_asn1 key digest der ≡ true) × All IsByte der)

  -- The checkpoint of a tree of `m` leaves
  abbrev pub checkpoint_for : ℕ → Bytes → Checkpoint
  checkpoint_for m hash = record { origin = c.name; n = pos m; hash = hash; extension = [] }

  abbrev pub head_of : ℕ → Bytes → ℕ → TreeWithTimestamp
  head_of m hash t = record { tree = record { n = m; hash = hash }; time = t }

  -- What Go's types and the formats say of a tree head
  abbrev pub IsHead : ℕ → Bytes → ℕ → Type 0
  IsHead m hash t =
      (m < 2 ^ 63)
      × (t < 2 ^ 63)
      × All IsByte hash
      × (length hash ≡ 32)
      × (length (format_checkpoint tx (checkpoint_for m hash)) ≤ max_checkpoint_size)
      × (np.is_text (format_checkpoint tx (checkpoint_for m hash)) ≡ true)

  module _ (key hash : Bytes) (m t : ℕ) (signs : SignsWith key) (fits : IsHead m hash t) where
    -- The log's signature is accepted, and its timestamp is read back.
    note_signature-accepted :
        (sig : Bytes) (v : Verifier)
        → note_signature cb vf c.sign_digest (pos m) (pos t) hash ≡ ok sig
        → verifier_of cb tx vf nm np c ≡ ok v
        → (v.verify (format_checkpoint tx (checkpoint_for m hash)) sig ≡ ok true)
          × (signature_timestamp cb tx vf (tx.encode (be 4 v.hash ++ sig)) ≡ ok t)
    note_signature-accepted sig v made is_v =
        let (m_fits, t_fits, bytes, whole, short, _) = fits in
        let (is_ecdsa, verifies) = signs in
        let (_, verify_is, plain) = verifier_of-eq-ok v is_v in
        let (sth, der, _, signed, _, sig_is) =
          note_signature-eq-ok cb vf c.sign_digest (pos m) (pos t) hash sig made in
        let sig_bytes : All IsByte sig =
          subst (All IsByte) (sym sig_is)
            (layout-IsByte (to_uint64 (pos t)) der (verifies _ der signed).1) in
        let (accepted, read) =
          verify-note_signature cb vf c.sign_digest tx key c.name hash sig (be 4 v.hash) m t plain
            m_fits bytes whole t_fits short (length-be 4 v.hash)
            (All-append IsByte (be 4 v.hash) sig (be-IsByte 4 v.hash) sig_bytes)
            (λ digest der h. (verifies digest der h).0) made in
        (
          ap (λ f. f (format_checkpoint tx (checkpoint_for m hash)) sig)
                (verify_is ∙ ap (verify cb tx vf) is_ecdsa)
              ∙ accepted,
          read,
        )

    -- The note that a checkpoint is signed as, with its two signatures
    abbrev signed_of : Verifier → Verifier → Bytes → Bool → List Signed
    signed_of v1 v2 sig swapped =
        shuffled swapped
          (record { signer = injected_signer cb tx vf nm np c v1 sig; verifier = v1; sig = sig })
          (record {
            signer = ed25519_signer cb tx vf nm np c v2;
            verifier = v2;
            sig = np.ed25519_sign c.witness_key (format_checkpoint tx (checkpoint_for m hash));
          })

    -- A note with the two signatures is opened.
    open_signed :
        (d : Draw) (b : Bytes) (now : ℕ) (v1 v2 : Verifier) (sig : Bytes)
        → HaveDistinctKeys
        → length b ≤ np.max_note_size
        → t ≤ now
        → note_signature cb vf c.sign_digest (pos m) (pos t) hash ≡ ok sig
        → verifier_of cb tx vf nm np c ≡ ok v1
        → ed25519_verifier cb tx vf nm np c verifier_key_not_constructed
            ed25519_verifier_not_constructed
          ≡ ok v2
        → ((msg : Bytes) → v2.verify msg (np.ed25519_sign c.witness_key msg) ≡ ok true)
        → np.sign
            (unsigned_note cb tx vf nm np c (head_of m hash t) d)
            (map (λ (s : Signed). s.signer) (signed_of v1 v2 sig d.signers_swapped))
          ≡ ok b
        → open_checkpoint cb tx vf nm np c now b ≡ ok (checkpoint_for m hash, t)
    unfolding open_checkpoint grease_signatures join
    open_signed d b now v1 v2 sig distinct small past signature is_v1 is_v2 accepts2 signed =
        let (m_fits, t_fits, bytes, whole, short, text) = fits in
        let (_, _, plain) = verifier_of-eq-ok v1 is_v1 in
        let (accepts1, read) = note_signature-accepted sig v1 signature is_v1 in
        let differ = distinct v1 v2 is_v1 is_v2 in
        let few : length (grease_signatures cb tx vf nm np c d)
              + length (signed_of v1 v2 sig d.signers_swapped)
            ≤ 100 =
          omega
            (arith, length-shuffled d.grease_swapped _ _, length-shuffled d.signers_swapped _ _) in
        let (n, opened, text_is, sigs_are) =
          np.open-sign (unsigned_note cb tx vf nm np c (head_of m hash t) d)
            (signed_of v1 v2 sig d.signers_swapped) (v1 ∷ v2 ∷ []) b signed refl text small few
            (All-shuffled (IsAccepted (format_checkpoint tx (checkpoint_for m hash)))
              d.signers_swapped _ _ (refl, refl, refl, accepts1) (refl, refl, refl, accepts2 _))
            (subst (λ vs. Perm vs (v1 ∷ v2 ∷ []))
              (sym (map-shuffled (λ (s : Signed). s.verifier) d.signers_swapped _ _))
              (shuffled-Perm d.signers_swapped v1 v2))
            (((λ _. differ), tt), (tt, tt)) in
        let found =
          ap
            (λ ss.
              find_signatures cb tx vf nm np c v1.hash v2.hash ss
                (record { timestamp = 0; v1_found = false; v2_found = false }))
            (sigs_are ∙ map-shuffled _ d.signers_swapped _ _)
          ∙ find_signatures-shuffled d.signers_swapped v1.hash v2.hash t _ _ refl refl differ
              read in
        let parsed =
          ap (parse_checkpoint tx) text_is
          ∙ parse-format_checkpoint tx c.name hash m [] plain m_fits bytes whole tt short in
        rw (is_v1, is_v2, opened)
          (check_note-ok now t v1 v2 n (checkpoint_for m hash) found parsed past refl refl)

    -- A checkpoint that was made for a tree head is opened again, at the time of the head or later, as
    -- the checkpoint of that tree with that timestamp, whatever was drawn for the grease and the
    -- order of the signatures: if the log's key is an ECDSA key that verifies what it signs, and the
    -- key hashes of its key and of the witness's differ; if size and time of the head are int64 and
    -- the hash has 32 bytes; if the text of the head is one that the package note accepts, so without
    -- control characters in the name of the log, which signTreeHead does not check, and no longer than
    -- a checkpoint may be; and if the note is no larger than a note may be.
    pub open-sign_tree_head :
        (d : Draw) (b : Bytes) (now : ℕ)
        → HaveDistinctKeys
        → length b ≤ np.max_note_size
        → t ≤ now
        → sign_tree_head cb tx vf nm np c (head_of m hash t) d ≡ ok b
        → open_checkpoint cb tx vf nm np c now b ≡ ok (checkpoint_for m hash, t)
    unfolding sign_tree_head open_checkpoint new_ed25519_signer grease_signatures
    open-sign_tree_head d b now distinct small past made =
        let (sig, signature, h₁) =
          >>=-eq-ok (note_signature cb vf c.sign_digest (pos m) (pos t) hash) _ made in
        let (v1, is_v1, h₂) = >>=-eq-ok (verifier_of cb tx vf nm np c) _ h₁ in
        let (ws, is_ws, h₃) = >>=-eq-ok (new_ed25519_signer cb tx vf nm np c) _ h₂ in
        let (v2, is_v2, is_signer) =
          >>=-eq-ok
            (ed25519_verifier cb tx vf nm np c ed25519_signer_not_constructed
              ed25519_signer_not_constructed)
            _ is_ws in
        let (name2, accepts2, is_v2') =
          ed25519_verifier-eq-ok ed25519_signer_not_constructed ed25519_signer_not_constructed
            verifier_key_not_constructed ed25519_verifier_not_constructed v2 is_v2 in
        let signers =
          map-shuffled (λ (s : Signed). s.signer) d.signers_swapped _ _
          ∙ ap (shuffled d.signers_swapped (injected_signer cb tx vf nm np c v1 sig))
              (ok-injective _ _ is_signer) in
        let signed : np.sign (unsigned_note cb tx vf nm np c (head_of m hash t) d)
              (map (λ (s : Signed). s.signer) (signed_of v1 v2 sig d.signers_swapped))
            ≡ ok b =
          ap (np.sign (unsigned_note cb tx vf nm np c (head_of m hash t) d)) signers
          ∙ renamed-eq-ok note_not_signed _ h₃ in
        open_signed d b now v1 v2 sig distinct small past signature is_v1 is_v2' accepts2 signed
