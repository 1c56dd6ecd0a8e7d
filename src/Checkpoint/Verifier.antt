-- ===== src/Checkpoint/Verifier.antt =====
-- The verifier of a log's tree heads (checkpoint.go): NewRFC6962Verifier, with its name, key hash and
-- verification.
use sunlight.Prelude.{
  ℕ, [], ◌∷◌, ◌++◌, Bool, true, false, not, ◌&&◌, ◌==◌, ◌≡◌, if◌then◌else◌, Outcome, ok, err, ◌>>=◌,
}
use sunlight.Errors.{LogError, invalid_name}
use sunlight.Cryptobyte.{Cryptobyte}
use sunlight.Cryptobyte.Wire.{Bytes, be_value}
use sunlight.Extensions.{is_empty}
use sunlight.Checkpoint.{Texts, AllPlain}
use sunlight.Checkpoint.Signature.{PublicKey, Verification, verify}

-- A `note.Verifier`, by the results of its methods
pub record Verifier : Type 0 where
  pub name : Bytes
  pub hash : ℕ
  pub verify : Bytes → Bytes → Outcome LogError Bool

-- The functions of unicode/utf8, strings and unicode on names, and `x509.MarshalPKIXPublicKey`. A line
-- end is a space.
pub record Names : Type 0 where
  pub valid_string : Bytes → Bool
  pub has_space : Bytes → Bool
  pub marshal_pkix : PublicKey → Outcome LogError Bytes
  pub has_space-AllPlain : (s : Bytes) → has_space s ≡ false → AllPlain s

-- `strings.Contains(name, "+")`
unfoldable pub contains_plus : Bytes → Bool
contains_plus [] = false
contains_plus (x ∷ s) = if x == 43 then true else contains_plus s

-- The first four bytes, which `binary.BigEndian.Uint32` reads
abbrev pub first_four : Bytes → Bytes
first_four (a ∷ b ∷ c ∷ d ∷ s) = a ∷ b ∷ c ∷ d ∷ []
first_four s = s

module _ {Builder : Type 0} (cb : Cryptobyte Builder) (tx : Texts) (vf : Verification)
    (nm : Names) where
  -- `isValidName`
  unfoldable pub is_valid_name : Bytes → Bool
  unfolding contains_plus
  is_valid_name name =
      not (is_empty name)
      && (nm.valid_string name && (not (nm.has_space name) && not (contains_plus name)))

  -- `keyHash`
  unfoldable pub key_hash : Bytes → Bytes → ℕ
  unfolding be_value
  key_hash name key = be_value 0 (first_four (vf.sha256 (name ++ (10 ∷ key))))

  -- `NewRFC6962Verifier`
  unfoldable pub new_rfc6962_verifier : Bytes → PublicKey → Outcome LogError Verifier
  unfolding is_valid_name key_hash verify
  new_rfc6962_verifier name key =
      if not (is_valid_name name)
      then err invalid_name
      else (nm.marshal_pkix key >>= λ pkix. ok (record {
        name = name;
        hash = key_hash name (5 ∷ vf.sha256 pkix);
        verify = verify cb tx vf key;
      }))
