-- ===== src/Ctlog/Checkpoints/Plain.antt =====
-- A package of notes, and names, that meet the laws of the model's parameters, for running the code of
-- ctlog.go that signs and opens checkpoints: a note is its parts, each behind its length.
use mathlib.Core.List.{Memᴰ, Mem, Perm}
use mathlib.Core.List.Memᴰ
use mathlib.Core.List.Perm
use mathlib.Core.Logic.{∥∥₁_elim}
use sunlight.Prelude.{
  ◌&&◌, ◌||◌, >>=-eq-ok, ==_iff, arith, ℕ, zero, suc, ◌≡◌, refl, sym, ◌∙◌, ap, subst, List, [], ◌∷◌,
  ◌++◌, Bool, true, false, ◌==◌, if◌then◌else◌, All, Option, none, some, Outcome, ok, err, panic,
  ◌>>=◌, length, map, ok-injective, Bool-cases, inl, inr,
}
use sunlight.Prelude.Maps.{bytes_beq, bytes_beq_iff}
use sunlight.Errors.{LogError, EcdsaError, archive_failed, s_is_zero}
use sunlight.Cryptobyte.Wire.{Bytes, IsByte, be}
use sunlight.Cryptobyte.Plain.{are_bytes, All-IsByte}
use sunlight.Checkpoint.{AllPlain}
use sunlight.Checkpoint.Plain.{raised, lowered, lowered-raised, plain_texts}
use sunlight.Checkpoint.Signature.{ecdsa}
use sunlight.Checkpoint.Verifier.{Verifier, Names}
use sunlight.Ctlog.Stubs.{part, read_part, read_part-part}
use sunlight.Ctlog.Signing.Plain.{sign_digest}
use sunlight.Ctlog.Checkpoints.Notes.{
  Signer, NoteSig, Note, NotePackage, Signed, IsAccepted, IsVerified,
}
use sunlight.Ctlog.Checkpoints.{Config}

-- The signature of a signer, behind the hash of its key
abbrev recorded : Signer → Bytes → NoteSig
recorded s sig = record { name = s.name; hash = s.hash; base64 = raised (be 4 s.hash ++ sig) }

unfoldable sign_all : Bytes → List Signer → Outcome LogError (List NoteSig)
sign_all text [] = ok []
sign_all text (s ∷ ss) =
    s.sign text >>= λ sig. sign_all text ss >>= λ rest. ok (recorded s sig ∷ rest)

unfoldable write_sigs : List NoteSig → Bytes
write_sigs [] = []
write_sigs (s ∷ ss) = part s.name ++ (part s.base64 ++ (s.hash ∷ write_sigs ss))

abbrev with_sig : Bytes → Bytes → Bytes → (Bytes → Option (List NoteSig)) → Option (List NoteSig)
with_sig name base64 [] rest = none
with_sig name base64 (hash ∷ s) rest = elim (rest s) [
  | none ↦ none
  | some ss ↦ some (record { name = name; hash = hash; base64 = base64 } ∷ ss)
]

unfoldable read_sigs : ℕ → Bytes → Option (List NoteSig)
unfolding read_part
read_sigs zero s = some []
read_sigs (suc n) s =
    let rest = read_sigs n in
    read_part s λ name s₁. read_part s₁ λ base64 s₂. with_sig name base64 s₂ rest

read_sigs-write_sigs : (ss : List NoteSig) → read_sigs (length ss) (write_sigs ss) ≡ some ss
unfolding read_sigs write_sigs
read_sigs-write_sigs [] = refl
read_sigs-write_sigs (s ∷ ss) =
    read_part-part s.name _ _ ∙ (read_part-part s.base64 _ _ ∙ rw (read_sigs-write_sigs ss) refl)

unfoldable pub sign_plain_note : Note → List Signer → Outcome LogError Bytes
unfolding sign_all write_sigs
sign_plain_note n signers =
    sign_all n.text signers >>= λ ss. ok (length ss ∷ (part n.text ++ write_sigs ss))

abbrev with_text : Bytes → Option (List NoteSig) → Option Note
with_text text none = none
with_text text (some ss) = some (record { text = text; sigs = ss; unverified_sigs = [] })

abbrev or_failed : Option Note → Outcome LogError Note
or_failed none = err archive_failed
or_failed (some n) = ok n

abbrev drop_hash : Bytes → Bytes
drop_hash (a ∷ b ∷ c ∷ d ∷ s) = s
drop_hash s = []

abbrev is_true : Outcome LogError Bool → Bool
is_true (ok b) = b
is_true r = false

-- Whether a verifier has the name and the key hash of a signature, and accepts it.
abbrev accepts : Bytes → NoteSig → Verifier → Bool
accepts text s v =
    let sig = drop_hash (lowered s.base64) in
    bytes_beq v.name s.name
    && (v.hash == s.hash
        && (bytes_beq (lowered s.base64) (be 4 s.hash ++ sig) && is_true (v.verify text sig)))

abbrev one_accepts : Bytes → NoteSig → List Verifier → Bool
one_accepts text s [] = false
one_accepts text s (v ∷ vs) = accepts text s v || one_accepts text s vs

abbrev all_verified : List Verifier → Bytes → List NoteSig → Bool
all_verified known text [] = true
all_verified known text (s ∷ ss) = one_accepts text s known && all_verified known text ss

abbrev checked_note : List Verifier → Note → Outcome LogError Note
checked_note known n = if all_verified known n.text n.sigs then ok n else err archive_failed

unfoldable pub open_plain_note : Bytes → List Verifier → Outcome LogError Note
unfolding read_sigs read_part be
open_plain_note [] known = err archive_failed
open_plain_note (n ∷ s) known =
    or_failed (read_part s λ text rest. with_text text (read_sigs n rest)) >>= checked_note known

is_true-ok : (r : Outcome LogError Bool) → is_true r ≡ true → r ≡ ok true
is_true-ok (ok b) h = ap ok h
is_true-ok (err e) h = absurd (cc h)
is_true-ok panic h = absurd (cc h)

one_accepts-IsVerified :
    (text : Bytes) (s : NoteSig) (known : List Verifier)
    → one_accepts text s known ≡ true
    → IsVerified plain_texts known text s
one_accepts-IsVerified text s [] h = absurd (cc h)
one_accepts-IsVerified text s (v ∷ vs) h = elim (Bool-cases (accepts text s v)) [
  | inl here ↦ (
    v,
    Memᴰ.head refl,
    (bytes_beq_iff v.name s.name).0 (ground arith),
    ground arith,
    drop_hash (lowered s.base64),
    ap some (
        (bytes_beq_iff (lowered s.base64) (be 4 s.hash ++ drop_hash (lowered s.base64))).0
          (ground arith)),
    is_true-ok _ (ground arith),
  )
  | inr there ↦
      let (u, m, name, hash, sig, decoded, verifies) =
        one_accepts-IsVerified text s vs (rw (there) at h) in
      (u, Memᴰ.tail m, name, hash, sig, decoded, verifies)
]

all_verified-IsVerified :
    (known : List Verifier) (text : Bytes) (ss : List NoteSig)
    → all_verified known text ss ≡ true
    → All (IsVerified plain_texts known text) ss
all_verified-IsVerified known text [] h = tt
all_verified-IsVerified known text (s ∷ ss) h = (
  one_accepts-IsVerified text s known (ground arith),
  all_verified-IsVerified known text ss (ground arith),
)

pub open_plain_note-IsVerified :
    (b : Bytes) (known : List Verifier) (n : Note)
    → open_plain_note b known ≡ ok n
    → All (IsVerified plain_texts known n.text) n.sigs
unfolding open_plain_note
open_plain_note-IsVerified [] known n h = absurd (cc h)
open_plain_note-IsVerified (x ∷ s) known n h =
    let (n', _, checked) =
      >>=-eq-ok (or_failed (read_part s λ text rest. with_text text (read_sigs x rest))) _ h in
    elim (Bool-cases (all_verified known n'.text n'.sigs)) [
      | inl good ↦
          let same : n' ≡ n = ok-injective {E = LogError} _ _ (rw (good) at checked) in
          subst (λ (m : Note). All (IsVerified plain_texts known m.text) m.sigs) same
            (all_verified-IsVerified known n'.text n'.sigs good)
      | inr bad ↦ absurd (cc (rw (bad) at checked))
    ]

sign_all-IsAccepted :
    (text : Bytes) (signed : List Signed)
    → All (IsAccepted text) signed
    → sign_all text (map (λ (s : Signed). s.signer) signed)
      ≡ ok (map (λ (s : Signed). recorded s.signer s.sig) signed)
unfolding sign_all
sign_all-IsAccepted text [] h = refl
sign_all-IsAccepted text (s ∷ ss) h = rw (h.0.2, sign_all-IsAccepted text ss h.1) refl

drop_hash-be : (h : ℕ) (sig : Bytes) → drop_hash (be 4 h ++ sig) ≡ sig
unfolding be
drop_hash-be h sig = refl

accepts-ok :
    (text sig : Bytes) (s : NoteSig) (v : Verifier)
    → lowered s.base64 ≡ be 4 s.hash ++ sig
    → v.name ≡ s.name
    → v.hash ≡ s.hash
    → v.verify text sig ≡ ok true
    → accepts text s v ≡ true
accepts-ok text sig s v bytes name hash verifies =
    rw
      (
        bytes,
        drop_hash-be s.hash sig,
        (bytes_beq_iff v.name s.name).1 name,
        (==_iff v.hash s.hash).1 hash,
        (bytes_beq_iff (be 4 s.hash ++ sig) (be 4 s.hash ++ sig)).1 refl,
        verifies,
      )
      refl

-- A verifier that accepts a signature is found.
one_accepts-member :
    (text : Bytes) (s : Signed) (known : List Verifier)
    → IsAccepted text s
    → Memᴰ s.verifier known
    → one_accepts text (recorded s.signer s.sig) known ≡ true
one_accepts-member text s [] a m = absurd (Memᴰ.not-nil m)
one_accepts-member text s (v ∷ vs) (name, hash, signs, verifies) m = elim (Memᴰ.cases_cons m) [
  | inl same ↦
      let accepted =
        accepts-ok text s.sig (recorded s.signer s.sig) s.verifier
          (lowered-raised (be 4 s.signer.hash ++ s.sig)) (sym name) (sym hash) verifies in
      subst
        (λ u.
          accepts text (recorded s.signer s.sig) u || one_accepts text (recorded s.signer s.sig) vs
          ≡ true)
        same (rw (accepted) refl)
  | inr later ↦
      let found = one_accepts-member text s vs (name, hash, signs, verifies) later in
      by_either (accepts text (recorded s.signer s.sig) v) found
]
  where
    by_either : (b : Bool) {c : Bool} → c ≡ true → b || c ≡ true
    by_either true h = refl
    by_either false h = h

all_verified-signed :
    (text : Bytes) (signed : List Signed) (known : List Verifier)
    → All (IsAccepted text) signed
    → ((v : Verifier) → Memᴰ v (map (λ (s : Signed). s.verifier) signed) → Mem v known)
    → all_verified known text (map (λ (s : Signed). recorded s.signer s.sig) signed) ≡ true
all_verified-signed text [] known a m = refl
all_verified-signed text (s ∷ ss) known a m =
    let here : one_accepts text (recorded s.signer s.sig) known ≡ true =
      ∥∥₁_elim (m s.verifier (Memᴰ.head refl)) (hlevel) (one_accepts-member text s known a.0) in
    rw (here) (all_verified-signed text ss known a.1 (λ v k. m v (Memᴰ.tail k)))

pub open-sign_plain_note :
    (n : Note) (signed : List Signed) (known : List Verifier) (msg : Bytes)
    → sign_plain_note n (map (λ (s : Signed). s.signer) signed) ≡ ok msg
    → All (IsAccepted n.text) signed
    → Perm (map (λ (s : Signed). s.verifier) signed) known
    → open_plain_note msg known
      ≡ ok (record {
        text = n.text;
        sigs = map (λ (s : Signed). recorded s.signer s.sig) signed;
        unverified_sigs = [];
      })
unfolding sign_plain_note open_plain_note
open-sign_plain_note n signed known msg made accepted keys =
    let sigs = map (λ (s : Signed). recorded s.signer s.sig) signed in
    let msg_is : length sigs ∷ (part n.text ++ write_sigs sigs) ≡ msg =
      ok-injective _ _ (rw (sign_all-IsAccepted n.text signed accepted) at made) in
    let good =
      all_verified-signed n.text signed known accepted (λ v m. (Perm.mem_iff keys).0 ∣ m ∣₁) in
    ap (λ x. open_plain_note x known) (sym msg_is)
    ∙ (ap (λ x. or_failed x >>= checked_note known)
          (read_part-part n.text (write_sigs sigs) _
            ∙ ap (with_text n.text) (read_sigs-write_sigs sigs))
        ∙ rw (good) refl)

-- An Ed25519 key signs the length of a message.
abbrev pub plain_note : NotePackage plain_texts
plain_note = record {
  is_text = λ s. true;
  max_note_size = 1000000;
  sign = sign_plain_note;
  open_note = open_plain_note;
  new_ed25519_verifier_key = λ name key. ok name;
  new_verifier = λ name.
      ok (record {
        name = name;
        hash = 7;
        verify = λ msg sig. ok (bytes_beq sig (length msg ∷ []));
      });
  ed25519_public = λ key. key;
  ed25519_sign = λ key msg. length msg ∷ [];
  verify-ed25519_sign = λ name key vk v is_key is_v.
      let same = ok-injective _ _ is_v in
      (
        ap (λ (x : Verifier). x.name) (sym same) ∙ sym (ok-injective name vk is_key),
        λ msg.
            ap (λ (x : Verifier). x.verify msg (length msg ∷ [])) (sym same)
            ∙ ap ok ((bytes_beq_iff (length msg ∷ []) (length msg ∷ [])).1 refl),
      );
  open_note-IsVerified = open_plain_note-IsVerified;
  open-sign = λ n signed known msg made none text small few accepted keys distinct.
      (_, open-sign_plain_note n signed known msg made accepted keys, refl, refl);
}

unfoldable pub has_newline : Bytes → Bool
has_newline [] = false
has_newline (x ∷ s) = if x == 10 then true else has_newline s

pub has_newline-AllPlain : (s : Bytes) → has_newline s ≡ false → AllPlain s
unfolding has_newline
has_newline-AllPlain [] h = tt
has_newline-AllPlain (x ∷ s) h = elim (Bool-cases (x == 10)) [
  | inl line_end ↦ absurd (cc (rw (line_end) at h))
  | inr plain ↦ (plain, has_newline-AllPlain s (rw (plain) at h))
]

abbrev pub plain_names : Names
plain_names = record {
  valid_string = λ s. true;
  has_space = has_newline;
  marshal_pkix = λ key. ok (1 ∷ []);
  has_space-AllPlain = has_newline-AllPlain;
}

-- Signatures that are bytes
abbrev pub checked : Outcome EcdsaError Bytes → Outcome EcdsaError Bytes
checked (ok der) = if are_bytes der then ok der else err s_is_zero
checked r = r

pub checked-eq-ok :
    (r : Outcome EcdsaError Bytes) (der : Bytes)
    → checked r ≡ ok der
    → (r ≡ ok der) × All IsByte der
checked-eq-ok (ok d) der h = elim (Bool-cases (are_bytes d)) [
  | inl bytes ↦
      let same : d ≡ der = ok-injective {E = EcdsaError} _ _ (rw (bytes) at h) in
      (ap ok same, subst (All IsByte) same (All-IsByte d bytes))
  | inr not_bytes ↦ absurd (cc (rw (not_bytes) at h))
]
checked-eq-ok (err e) der h = absurd (cc h)
checked-eq-ok panic der h = absurd (cc h)

-- The log `x.`
abbrev pub plain_config : Config
plain_config = record {
  name = 120 ∷ 46 ∷ [];
  key = ecdsa [];
  sign_digest = λ digest. checked (sign_digest digest);
  witness_key = 9 ∷ [];
}
