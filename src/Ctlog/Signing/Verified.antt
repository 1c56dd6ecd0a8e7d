-- ===== src/Ctlog/Signing/Verified.antt =====
-- The signature that the log makes (ctlog.go) is one that the verifier of checkpoint.go accepts.
use sunlight.Prelude.{
  ℕ, ◌-◌, ◌%◌, ◌^◌, ◌<◌, ◌≤◌, ◌≡◌, refl, sym, ◌∙◌, ap, [], ◌∷◌, ◌++◌, append-nil, true, ltb, ltb→lt,
  le→ltb, Bool-cases, inl, inr, length, All, some, Outcome, ok, err, panic, ◌>>=◌, >>=-eq-ok,
  ok-injective, arith,
}
use sunlight.Prelude.Int.{ℤ, pos, to_uint64}
use sunlight.Errors.{LogError, EcdsaError, codec, length_overflow}
use sunlight.Cryptobyte.{Cryptobyte, append_prefixed}
use sunlight.Cryptobyte.Wire.{Bytes, IsByte, be, read_prefixed}
use sunlight.Cryptobyte.Reading.{
  read_be-be, read_be_one, read_prefixed-prefixed, take_exact-append_at,
}
use sunlight.Ctlog.Action.{of_codec}
use sunlight.Checkpoint.{Checkpoint, Texts, AllPlain, max_checkpoint_size, format_checkpoint}
use sunlight.Checkpoint.Lines.{join}
use sunlight.Checkpoint.RoundTrip.{parse-format_checkpoint}
use sunlight.Checkpoint.Signature.{
  ecdsa, Verification, read_note_signature, verify, signature_timestamp,
}
use sunlight.Ctlog.Signing.{of_ecdsa, digitally_sign, note_signature}

-- The bytes of the signature: the timestamp, SHA-256, ECDSA, and the signature behind its length
abbrev pub layout : ℕ → Bytes → Bytes
layout time der = be 8 time ++ (4 ∷ 3 ∷ (be 2 (length der) ++ der))

of_ecdsa-eq-ok : (m : Outcome EcdsaError Bytes) {b : Bytes} → of_ecdsa m ≡ ok b → m ≡ ok b
of_ecdsa-eq-ok (ok b) h = ap ok (ok-injective _ _ h)
of_ecdsa-eq-ok (err e) h = absurd (cc h)
of_ecdsa-eq-ok panic h = absurd (cc h)

prefixed-eq-ok :
    (s c : Bytes) {b : Bytes}
    → of_codec (append_prefixed 2 s c) ≡ ok b
    → (length c < 256 ^ 2) × (b ≡ s ++ (be 2 (length c) ++ c))
prefixed-eq-ok s c {b} h = elim (Bool-cases (ltb (length c) (256 ^ 2))) [
  | inl fits ↦
      let done : ◌≡◌ {A = Outcome LogError Bytes} (ok (s ++ (be 2 (length c) ++ c))) (ok b) =
        rw (fits) at h in
      (ltb→lt (length c) (256 ^ 2) fits, sym (ok-injective _ _ done))
  | inr not_fits ↦
      let failed : ◌≡◌ {A = Outcome LogError Bytes} (err (codec length_overflow)) (ok b) =
        rw (not_fits) at h in
      absurd (cc failed)
]

module _ {Builder : Type 0} (cb : Cryptobyte Builder) (vf : Verification)
    (sign_digest : Bytes → Outcome EcdsaError Bytes) where
  bytes-header : cb.bytes (cb.add_uint8 (cb.add_uint8 (cb.new_builder []) 4) 3) ≡ ok (4 ∷ 3 ∷ [])
  unfolding be
  bytes-header =
      cb.bytes-add_uint8 (cb.add_uint8 (cb.new_builder []) 4) 3
      ∙ ap (λ m. m >>= λ s. ok (s ++ be 1 3))
          (cb.bytes-add_uint8 (cb.new_builder []) 4
            ∙ ap (λ m. m >>= λ s. ok (s ++ be 1 4)) (cb.bytes-new_builder []))

  bytes-body : (der : Bytes) → cb.bytes (cb.add_bytes (cb.new_builder []) der) ≡ ok der
  bytes-body der =
      cb.bytes-add_bytes (cb.new_builder []) der
      ∙ ap (λ m. m >>= λ s. ok (s ++ der)) (cb.bytes-new_builder [])

  digitally_sign-eq-ok :
      (msg sig : Bytes)
      → digitally_sign cb vf sign_digest msg ≡ ok sig
      → (der : Bytes) × (sign_digest (vf.sha256 msg) ≡ ok der)
        × (length der < 256 ^ 2)
        × (sig ≡ 4 ∷ 3 ∷ (be 2 (length der) ++ der))
  unfolding digitally_sign
  digitally_sign-eq-ok msg sig h =
      let (der, signed, h₁) = >>=-eq-ok (of_ecdsa (sign_digest (vf.sha256 msg))) _ h in
      let header = cb.add_uint8 (cb.add_uint8 (cb.new_builder []) 4) 3 in
      let built : cb.bytes (cb.add_uint16_length_prefixed header (λ b. cb.add_bytes b der))
          ≡ append_prefixed 2 (4 ∷ 3 ∷ []) der =
        cb.bytes-add_uint16_length_prefixed header (λ b. cb.add_bytes b der)
        ∙ (ap
              (λ m. m >>= λ s.
                cb.bytes (cb.add_bytes (cb.new_builder []) der) >>= λ c. append_prefixed 2 s c)
              bytes-header
            ∙ ap (λ m. m >>= λ c. append_prefixed 2 (4 ∷ 3 ∷ []) c) (bytes-body der)) in
      let (short, layout_is) = prefixed-eq-ok (4 ∷ 3 ∷ []) der (rw (built) at h₁) in
      (der, of_ecdsa-eq-ok _ signed, short, layout_is)

  pub note_signature-eq-ok :
      (n time : ℤ) (hash sig : Bytes)
      → note_signature cb vf sign_digest n time hash ≡ ok sig
      → (sth : Bytes) × (der : Bytes) × (vf.serialize_sth
            (record { tree_size = to_uint64 n; timestamp = to_uint64 time; root_hash = hash })
          ≡ ok sth)
        × (sign_digest (vf.sha256 sth) ≡ ok der)
        × (length der < 256 ^ 2)
        × (sig ≡ layout (to_uint64 time) der)
  unfolding note_signature
  note_signature-eq-ok n time hash sig h =
      let t = to_uint64 time in
      let (sth, serialized, h₁) =
        >>=-eq-ok
          (vf.serialize_sth (record { tree_size = to_uint64 n; timestamp = t; root_hash = hash })) _
          h in
      let (signature, signed, h₂) = >>=-eq-ok (digitally_sign cb vf sign_digest sth) _ h₁ in
      let (der, made, short, layout_is) = digitally_sign-eq-ok sth signature signed in
      let built : cb.bytes (cb.add_bytes (cb.add_uint64 (cb.new_builder []) t) signature)
          ≡ ok (be 8 t ++ signature) =
        cb.bytes-add_bytes (cb.add_uint64 (cb.new_builder []) t) signature
        ∙ ap (λ m. m >>= λ s. ok (s ++ signature))
            (cb.bytes-add_uint64 (cb.new_builder []) t
              ∙ ap (λ m. m >>= λ s. ok (s ++ be 8 t)) (cb.bytes-new_builder [])) in
      let done : ◌≡◌ {A = Outcome LogError Bytes} (ok (be 8 t ++ signature)) (ok sig) =
        rw (built) at h₂ in
      (
        sth,
        der,
        serialized,
        made,
        short,
        sym (ok-injective _ _ done) ∙ ap (λ x. be 8 t ++ x) layout_is,
      )

  module _ (tx : Texts) where
    read-layout :
        (t : ℕ) (der : Bytes)
        → t < 2 ^ 64
        → length der < 256 ^ 2
        → read_note_signature cb tx vf (layout t der)
          ≡ some (record { timestamp = t; sig_alg = 3; signature = der })
    unfolding read_note_signature
    read-layout t der small short =
        rw
          (
            cb.read_uint64_lem (layout t der),
            read_be-be 8 t (4 ∷ 3 ∷ (be 2 (length der) ++ der)) small,
            cb.read_uint8_lem (4 ∷ 3 ∷ (be 2 (length der) ++ der)),
            read_be_one 4 (3 ∷ (be 2 (length der) ++ der)),
            cb.read_uint8_lem (3 ∷ (be 2 (length der) ++ der)),
            read_be_one 3 (be 2 (length der) ++ der),
            cb.read_uint16_length_prefixed_lem (be 2 (length der) ++ der),
            whole,
          )
          refl
      where
        whole : read_prefixed 2 (be 2 (length der) ++ der) ≡ some (der, [])
        whole =
            ap (read_prefixed 2) (sym (append-nil (be 2 (length der) ++ der)))
            ∙ read_prefixed-prefixed 2 der [] short

    timestamp-layout :
        (t : ℕ) (h der : Bytes)
        → t < 2 ^ 63
        → length h ≡ 4
        → All IsByte (h ++ layout t der)
        → signature_timestamp cb tx vf (tx.encode (h ++ layout t der)) ≡ ok t
    unfolding signature_timestamp
    timestamp-layout t h der small four bytes =
        rw
          (
            tx.decode-encode (h ++ layout t der) bytes,
            cb.skip_lem (h ++ layout t der) 4,
            take_exact-append_at 4 h (layout t der) four,
            cb.read_uint64_lem (layout t der),
            read_be-be 8 t (4 ∷ 3 ∷ (be 2 (length der) ++ der)) (omega (arith, small)),
            le→ltb (2 ^ 63 - 1) t (omega (arith, small)),
          )
          refl

    -- The checkpoint of a tree without extension lines
    abbrev head : Bytes → ℕ → Bytes → Checkpoint
    head origin m hash = record { origin = origin; n = pos m; hash = hash; extension = [] }

    -- The signature that is made for a tree head is accepted by the verifier of the log's key, on the
    -- checkpoint of that tree, if the key verifies what it signs; and its timestamp, read from the note
    -- it is put in behind the four bytes of a key hash, is that of the tree head.
    pub verify-note_signature :
        (key origin hash sig h : Bytes) (m t : ℕ)
        → AllPlain origin
        → m < 2 ^ 63
        → All IsByte hash
        → length hash ≡ 32
        → t < 2 ^ 63
        → length (format_checkpoint tx (head origin m hash)) ≤ max_checkpoint_size
        → length h ≡ 4
        → All IsByte (h ++ sig)
        → ((digest der : Bytes)
            → sign_digest digest ≡ ok der
            → vf.verify_asn1 key digest der ≡ true)
        → note_signature cb vf sign_digest (pos m) (pos t) hash ≡ ok sig
        → (verify cb tx vf (ecdsa key) (format_checkpoint tx (head origin m hash)) sig ≡ ok true)
          × (signature_timestamp cb tx vf (tx.encode (h ++ sig)) ≡ ok t)
    unfolding verify join
    verify-note_signature key origin hash sig h m t plain ml bytes whole tl short four note_bytes
          verifies made =
        let (sth, der, serialized, signed, der_short, sig_is) =
          note_signature-eq-ok (pos m) (pos t) hash sig made in
        let time : t % 2 ^ 64 ≡ t = omega (arith, tl) in
        let parsed = parse-format_checkpoint tx origin hash m [] plain ml bytes whole tt short in
        let read : read_note_signature cb tx vf sig
            ≡ some (record { timestamp = t % 2 ^ 64; sig_alg = 3; signature = der }) =
          ap (read_note_signature cb tx vf) sig_is
          ∙ read-layout (t % 2 ^ 64) der (omega arith) der_short in
        let sig_t : sig ≡ layout t der = sig_is ∙ ap (λ u. layout u der) time in
        (
          rw (parsed, read, serialized, verifies (vf.sha256 sth) der signed) refl,
          ap (λ s. signature_timestamp cb tx vf (tx.encode (h ++ s))) sig_t
              ∙ timestamp-layout t h der tl four (rw (sig_t) at note_bytes),
        )
