-- ===== src/Checkpoint/Accepted.antt =====
-- The texts that ParseCheckpoint (checkpoint.go) accepts.
use sunlight.Prelude.{
  ℕ, zero, suc, ◌≤◌, ◌≡◌, refl, ◌∙◌, ap, inl, inr, List, [], ◌∷◌, ◌++◌, Bool, true, false, not,
  ◌||◌, ltb, ◌==◌, ==_iff, length, All, Option, none, some, Outcome, ok, panic, >>=-eq-ok, or_err,
  or_err-eq-ok, ok-injective, after_guard, after_test, arith, Bool-cases, Option-cases,
}
use sunlight.Prelude.Int.{ℤ}
use sunlight.Prelude.Maps.{bytes_beq, bytes_beq_iff}
use sunlight.Errors.{LogError, malformed_checkpoint}
use sunlight.Cryptobyte.Wire.{Bytes}
use sunlight.Checkpoint.{
  Checkpoint, Texts, AllPlain, count_newlines, ends, cut_line, before_with, split, is_negative,
  line_then, max_checkpoint_size, extension_loop, parse_size, parse_hash, parse_lines,
  parse_checkpoint,
}
use sunlight.Checkpoint.Lines.{join, IsLine}

-- What is cut off is the first line, without its end.
cut_line_split : (s a b : Bytes) → cut_line s ≡ some (a, b) → (s ≡ a ++ (10 ∷ b)) × AllPlain a
unfolding cut_line
cut_line_split [] a b h = absurd (cc h)
cut_line_split (x ∷ s) a b h = elim (Bool-cases (x == 10)) [
  | inl newline ↦
      let cut : ◌≡◌ {A = Option (Bytes × Bytes)} (some ([], s)) (some (a, b)) = rw (newline) at h in
      first_line x s a b ((==_iff x 10).0 newline) cut
  | inr other ↦ later x s a b other (cut_line s) (cut_line_split s) (rw (other) at h)
]
  where
    first_line :
        (x : ℕ) (s a b : Bytes)
        → x ≡ 10
        → ◌≡◌ {A = Option (Bytes × Bytes)} (some ([], s)) (some (a, b))
        → (x ∷ s ≡ a ++ (10 ∷ b)) × AllPlain a
    first_line x s a b h k =
        let a_is : [] ≡ a = cc k in let b_is : s ≡ b = cc k in rw (← a_is, ← b_is, h) (refl, tt)

    later :
        (x : ℕ) (s a b : Bytes)
        → (x == 10) ≡ false
        → (o : Option (Bytes × Bytes))
        → ((a b : Bytes) → o ≡ some (a, b) → (s ≡ a ++ (10 ∷ b)) × AllPlain a)
        → before_with x o ≡ some (a, b)
        → (x ∷ s ≡ a ++ (10 ∷ b)) × AllPlain a
    later x s a b other none k h = absurd (cc h)
    later x s a b other (some (c, d)) k h =
        let (same, plain) = k c d refl in
        let a_is : x ∷ c ≡ a = cc h in
        let b_is : d ≡ b = cc h in rw (← a_is, ← b_is) (ap (λ t. x ∷ t) same, (other, plain))

-- Where the loop over the extension ends well, it went over lines that are not empty.
extension_loop_split :
    (rounds : ℕ) (rest : Bytes)
    → extension_loop rounds rest ≡ true
    → (ls : List Bytes) × (rest ≡ join ls) × All IsLine ls
unfolding extension_loop join
extension_loop_split zero [] h = ([], refl, tt)
extension_loop_split zero (x ∷ s) h = absurd (cc h)
extension_loop_split (suc rounds) [] h = ([], refl, tt)
extension_loop_split (suc rounds) (x ∷ s) h =
    by_line (cut_line (x ∷ s)) (cut_line_split (x ∷ s)) (extension_loop_split rounds) h
  where
    by_line :
        (o : Option (Bytes × Bytes))
        → ((a b : Bytes) → o ≡ some (a, b) → (x ∷ s ≡ a ++ (10 ∷ b)) × AllPlain a)
        → ((r : Bytes)
            → extension_loop rounds r ≡ true
            → (ls : List Bytes) × (r ≡ join ls) × All IsLine ls)
        → line_then (extension_loop rounds) o ≡ true
        → (ls : List Bytes) × (x ∷ s ≡ join ls) × All IsLine ls
    by_line none k ih h = absurd (cc h)
    by_line (some ([], b)) k ih h = absurd (cc h)
    by_line (some (y ∷ a, b)) k ih h =
        let (same, plain) = k (y ∷ a) b refl in
        let (ls, rest, lines) = ih b h in
        ((y ∷ a) ∷ ls, same ∙ ap (λ t. y ∷ (a ++ (10 ∷ t))) rest, ((plain, refl), lines))

-- The text of a checkpoint: its size in canonical form, its hash in base64, and lines that are not
-- empty, within the bound
pub record IsText (tx : Texts) (text : Bytes) (c : Checkpoint) : Type 0 where
  pub hash_line : Bytes
  pub lines : List Bytes
  pub layout :
      text ≡ c.origin ++ (10 ∷ (tx.format_int c.n ++ (10 ∷ (hash_line ++ (10 ∷ c.extension)))))
  pub origin_plain : AllPlain c.origin
  pub size : is_negative c.n ≡ false
  pub hash : tx.decode hash_line ≡ some c.hash
  pub hash_length : length c.hash ≡ 32
  pub extension : c.extension ≡ join lines
  pub lines_whole : All IsLine lines
  pub text_bounded : length text ≤ max_checkpoint_size

module _ (tx : Texts) where
  parse_size-eq-ok :
      (line : Bytes) {n : ℤ}
      → parse_size tx line ≡ ok n
      → (line ≡ tx.format_int n) × (is_negative n ≡ false)
  parse_size-eq-ok line {n} h =
      let (m, _, rest) = >>=-eq-ok (or_err (tx.parse_int line) malformed_checkpoint) _ h in
      after_guard (is_negative m || not (bytes_beq line (tx.format_int m))) malformed_checkpoint _
        rest
        λ good done.
          let same : m ≡ n = ok-injective _ _ done in
          rw (← same) (
            canonical m (is_negative m) refl (bytes_beq line (tx.format_int m))
              ((bytes_beq_iff line (tx.format_int m)).0) good)
    where
      canonical :
          (m : ℤ) (a : Bool)
          → is_negative m ≡ a
          → (b : Bool) → (b ≡ true → line ≡ tx.format_int m)
          → (a || not b) ≡ false
          → (line ≡ tx.format_int m) × (is_negative m ≡ false)
      canonical m true e b k h = absurd (cc h)
      canonical m false e true k h = (k refl, e)
      canonical m false e false k h = absurd (cc h)

  parse_hash-eq-ok :
      (line : Bytes) {s : Bytes}
      → parse_hash tx line ≡ ok s
      → (tx.decode line ≡ some s) × (length s ≡ 32)
  parse_hash-eq-ok line {s} h =
      let (t, decoded, rest) = >>=-eq-ok (or_err (tx.decode line) malformed_checkpoint) _ h in
      after_guard (not (length t == 32)) malformed_checkpoint _ rest λ good done.
        let same : t ≡ s = ok-injective _ _ done in
        rw (← same) (or_err-eq-ok _ _ decoded, ground (arith, good))

  lines-eq-ok :
      (text origin size hash rest : Bytes) {c : Checkpoint}
      → length text ≤ max_checkpoint_size
      → text ≡ origin ++ (10 ∷ (size ++ (10 ∷ (hash ++ (10 ∷ rest)))))
      → AllPlain origin
      → parse_lines tx (origin ∷ size ∷ hash ∷ rest ∷ []) ≡ ok c
      → IsText tx text c
  unfolding extension_loop
  lines-eq-ok text origin size hash rest {c} short layout plain h =
      let (n, sized, h₁) = >>=-eq-ok (parse_size tx size) _ h in
      let (canonical, positive) = parse_size-eq-ok size sized in
      let (d, hashed, h₂) = >>=-eq-ok (parse_hash tx hash) _ h₁ in
      let (decoded, whole) = parse_hash-eq-ok hash hashed in
      let (good, c_is) = after_test (extension_loop (length rest) rest) malformed_checkpoint _ h₂ in
      let (ls, rest_is, lines) = extension_loop_split (length rest) rest good in
      rw (c_is) record {
        hash_line = hash;
        lines = ls;
        layout = layout ∙ ap (λ t. origin ++ (10 ∷ (t ++ (10 ∷ (hash ++ (10 ∷ rest)))))) canonical;
        origin_plain = plain;
        size = positive;
        hash = decoded;
        hash_length = whole;
        extension = rest_is;
        lines_whole = lines;
        text_bounded = short;
      }

  no_panic : {A : Type 0} {c : Checkpoint} → ◌≡◌ {A = Outcome LogError Checkpoint} panic (ok c) → A
  no_panic h = absurd (cc h)

  -- The pieces of a text that is parsed are its first three lines and the rest.
  pieces-eq-ok :
      (text : Bytes) {c : Checkpoint}
      → length text ≤ max_checkpoint_size
      → parse_lines tx (split 3 text) ≡ ok c
      → IsText tx text c
  unfolding split parse_lines
  pieces-eq-ok text short h = elim (Option-cases (cut_line text)) [
    | inl no_line ↦ no_panic (rw (no_line) at h)
    | inr ((a, s), first) ↦ elim (Option-cases (cut_line s)) [
      | inl no_line ↦ no_panic (rw (first, no_line) at h)
      | inr ((b, t), second) ↦ elim (Option-cases (cut_line t)) [
        | inl no_line ↦ no_panic (rw (first, second, no_line) at h)
        | inr ((d, u), third) ↦
            let (text_is, plain) = cut_line_split text a s first in
            let (s_is, _) = cut_line_split s b t second in
            let (t_is, _) = cut_line_split t d u third in
            lines-eq-ok text a b d u short
              (text_is ∙ ap (λ v. a ++ (10 ∷ v)) (s_is ∙ ap (λ v. b ++ (10 ∷ v)) t_is)) plain
              (rw (first, second, third) at h)
      ]
    ]
  ]

  -- A text is accepted only if it is the text of the checkpoint that is returned: the size is written
  -- in its one canonical form and is not negative, the hash has 32 bytes, the extension is lines that
  -- are not empty, and the text is no longer than a checkpoint may be.
  pub parse_checkpoint-IsText :
      (text : Bytes) (c : Checkpoint) → parse_checkpoint tx text ≡ ok c → IsText tx text c
  unfolding parse_checkpoint
  parse_checkpoint-IsText text c h =
      after_guard (ltb (count_newlines text) 3 || ltb max_checkpoint_size (length text))
        malformed_checkpoint _ h
        λ sized h₁.
          after_guard (not (ends text)) malformed_checkpoint _ h₁
            λ ended h₂. pieces-eq-ok text (ground (arith, sized)) h₂
