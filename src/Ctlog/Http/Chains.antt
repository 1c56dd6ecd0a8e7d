-- ===== src/Ctlog/Http/Chains.antt =====
-- What a request to add a chain (http.go) submits to the log.
use sunlight.Prelude.{
  ◌⊎◌, map, replicate, ℕ, ◌≡◌, refl, sym, ◌∙◌, ap, subst, inl, inr, List, [], ◌∷◌, Bool, true,
  false, not, Option, none, some, Outcome, ok, err, >>=-eq-ok, or_err, or_err-eq-ok, ok-injective,
  after_guard, if◌then◌else◌, Bool-cases,
}
use sunlight.Cryptobyte.Wire.{Bytes}
use sunlight.Ctlog.Types.{PendingLogEntry}
use sunlight.Ctlog.Http.{
  Certificate, Ctfe, bad_request, internal_server_error, final_entry, defanged, entry_of_precert,
  entry_of_chain, not_empty, check_type, requested_entry,
}

module _ (ch : Ctfe) (sha256 : Bytes → Bytes) where
  -- A final certificate is logged as it is, with nothing about a precertificate.
  pub record IsFinal (leaf : Certificate) (issuers : List Certificate) (e : PendingLogEntry)
      : Type 0 where
    pub type : e.is_precert ≡ false
    pub certificate : e.certificate ≡ leaf.raw
    pub chain : e.issuers ≡ map (λ c. c.raw) issuers
    pub issuer_key_hash : e.issuer_key_hash ≡ replicate 32 0
    pub pre_certificate : e.pre_certificate ≡ []

  -- A precertificate is logged by the TBSCertificate that its final certificate will have (RFC 6962,
  -- 3.2), by the hash of the key that will sign that, and with the submitted bytes beside it.
  pub record IsPrecert (leaf : Certificate) (issuers : List Certificate)
      (pre_issuer : Option Certificate) (final_issuer : Certificate) (e : PendingLogEntry)
      : Type 0 where
    pub type : e.is_precert ≡ true
    pub certificate : ch.build_precert_tbs leaf.raw_tbs_certificate pre_issuer ≡ some e.certificate
    pub chain : e.issuers ≡ map (λ c. c.raw) issuers
    pub issuer_key_hash : e.issuer_key_hash ≡ sha256 final_issuer.raw_subject_public_key_info
    pub pre_certificate : e.pre_certificate ≡ leaf.raw

  -- Who issues the final certificate for the chain of a precertificate: its own issuer, or, if that is
  -- a precertificate signing certificate, the issuer of that one
  pub data Issues : List Certificate → Option Certificate → Certificate → Type 0 where
    itself :
        (issuer : Certificate) (rest : List Certificate)
        → ch.is_pre_issuer issuer ≡ false
        → Issues (issuer ∷ rest) none issuer
    behind :
        (pre issuer : Certificate) (rest : List Certificate)
        → ch.is_pre_issuer pre ≡ true
        → Issues (pre ∷ issuer ∷ rest) (some pre) issuer

  -- The entry that a leaf certificate and its issuers stand for
  abbrev pub Stands : Certificate → List Certificate → PendingLogEntry → Type 0
  Stands leaf issuers e =
      ((ch.is_precertificate leaf ≡ some false) × IsFinal leaf issuers e)
      ⊎ ((ch.is_precertificate leaf ≡ some true)
          × ((pre : Option Certificate) × (issuer : Certificate) × Issues issuers pre issuer
              × IsPrecert leaf issuers pre issuer e))

  defanged-eq-ok :
      (leaf : Certificate) (issuers : List Certificate) (pre : Option Certificate)
      (issuer : Certificate) {e : PendingLogEntry}
      → defanged ch sha256 leaf issuers pre issuer ≡ ok e
      → IsPrecert leaf issuers pre issuer e
  defanged-eq-ok leaf issuers pre issuer h =
      let (tbs, built, done) =
        >>=-eq-ok (or_err (ch.build_precert_tbs leaf.raw_tbs_certificate pre) internal_server_error)
          _ h in
      subst (IsPrecert leaf issuers pre issuer) (ok-injective _ _ done) (record {
        type = refl;
        certificate = or_err-eq-ok _ _ built;
        chain = refl;
        issuer_key_hash = refl;
        pre_certificate = refl;
      })

  entry_of_precert-Stands :
      (leaf : Certificate) (issuers : List Certificate) (e : PendingLogEntry)
      → ch.is_precertificate leaf ≡ some true
      → entry_of_precert ch sha256 leaf issuers ≡ ok e
      → Stands leaf issuers e
  entry_of_precert-Stands leaf [] e p h = absurd (cc h)
  entry_of_precert-Stands leaf (issuer ∷ []) e p h = elim (Bool-cases (ch.is_pre_issuer issuer)) [
    | inl pre ↦
        let failed : ◌≡◌ {A = Outcome ℕ PendingLogEntry} (err bad_request) (ok e) = rw (pre) at h in
        absurd (cc failed)
    | inr other ↦ inr (
      p,
      (
        none,
        issuer,
        itself issuer [] other,
        defanged-eq-ok leaf (issuer ∷ []) none issuer (rw (other) at h),
      ),
    )
  ]
  entry_of_precert-Stands leaf (issuer ∷ next ∷ rest) e p h =
      elim (Bool-cases (ch.is_pre_issuer issuer)) [
        | inl pre ↦ inr (
          p,
          (
            some issuer,
            next,
            behind issuer next rest pre,
            defanged-eq-ok leaf (issuer ∷ next ∷ rest) (some issuer) next (rw (pre) at h),
          ),
        )
        | inr other ↦ inr (
          p,
          (
            none,
            issuer,
            itself issuer (next ∷ rest) other,
            defanged-eq-ok leaf (issuer ∷ next ∷ rest) none issuer (rw (other) at h),
          ),
        )
      ]

  entry_of_chain-Stands :
      (chain : List Certificate) (e : PendingLogEntry)
      → entry_of_chain ch sha256 chain ≡ ok e
      → (leaf : Certificate) × (issuers : List Certificate) × (chain ≡ leaf ∷ issuers)
        × Stands leaf issuers e
  unfolding entry_of_chain
  entry_of_chain-Stands [] e h = absurd (cc h)
  entry_of_chain-Stands (leaf ∷ issuers) e h =
      let (b, read, rest) = >>=-eq-ok (or_err (ch.is_precertificate leaf) bad_request) _ h in
      (leaf, issuers, refl, by_type b (or_err-eq-ok _ _ read) rest)
    where
      by_type :
          (b : Bool)
          → ch.is_precertificate leaf ≡ some b
          → (if b
              then entry_of_precert ch sha256 leaf issuers
              else ok (final_entry ch sha256 leaf issuers))
            ≡ ok e
          → Stands leaf issuers e
      by_type true p h = entry_of_precert-Stands leaf issuers e p h
      by_type false p h = inl (
        p,
        subst (IsFinal leaf issuers) (ok-injective _ _ h) (record {
          type = refl;
          certificate = refl;
          chain = refl;
          issuer_key_hash = refl;
          pre_certificate = refl;
        }),
      )

  check_type-eq-ok :
      (wants : Bool) (e : PendingLogEntry) {e' : PendingLogEntry}
      → check_type ch sha256 wants e ≡ ok e'
      → (e' ≡ e) × (e.is_precert ≡ wants)
  check_type-eq-ok true e h =
      after_guard (not e.is_precert) bad_request _ h
        λ p done. (sym (ok-injective _ _ done), positive e.is_precert p)
    where
      positive : (b : Bool) → not b ≡ false → b ≡ true
      positive true h = refl
      positive false h = sym h
  check_type-eq-ok false e h =
      after_guard e.is_precert bad_request _ h λ p done. (sym (ok-injective _ _ done), p)

  -- A leaf is submitted to the log only for a chain that was validated, and it is a precertificate
  -- for add-pre-chain and a final certificate for add-chain. The entry of a final certificate has its
  -- bytes; that of a precertificate has the TBSCertificate without what the final one will not have,
  -- the submitted bytes, and the hash of the key that will sign the final one, which is the key of the
  -- second issuer if the first is a precertificate signing certificate; both have the bytes of all
  -- issuers.
  pub requested_entry-Stands :
      (wants_precert : Bool) (body : Bytes) (e : PendingLogEntry)
      → requested_entry ch sha256 wants_precert body ≡ ok e
      → (chain : List Bytes) × (leaf : Certificate) × (issuers : List Certificate) × (ch.parse_chain
            body
          ≡ some chain)
        × (ch.validate_chain chain ≡ some (leaf ∷ issuers))
        × (e.is_precert ≡ wants_precert)
        × Stands leaf issuers e
  unfolding requested_entry
  requested_entry-Stands wants body e h =
      let (chain, parsed, h₁) = >>=-eq-ok (or_err (ch.parse_chain body) bad_request) _ h in
      let (chain', same, h₂) = >>=-eq-ok (not_empty ch sha256 chain) _ h₁ in
      let (certs, validated, h₃) = >>=-eq-ok (or_err (ch.validate_chain chain') bad_request) _ h₂ in
      let (e', made, h₄) = >>=-eq-ok (entry_of_chain ch sha256 certs) _ h₃ in
      let (e_is, type) = check_type-eq-ok wants e' h₄ in
      let (leaf, issuers, certs_are, stands) = entry_of_chain-Stands certs e' made in
      let chain_is = not_empty-eq-ok chain same in
      (
        chain,
        leaf,
        issuers,
        or_err-eq-ok _ _ parsed,
        ap ch.validate_chain (sym chain_is) ∙ (or_err-eq-ok _ _ validated ∙ ap some certs_are),
        ap (λ x. x.is_precert) e_is ∙ type,
        subst (λ x. Stands leaf issuers x) (sym e_is) stands,
      )
    where
      not_empty-eq-ok :
          (cs : List Bytes) {cs' : List Bytes} → not_empty ch sha256 cs ≡ ok cs' → cs' ≡ cs
      not_empty-eq-ok [] h = absurd (cc h)
      not_empty-eq-ok (x ∷ cs) h = sym (ok-injective _ _ h)
