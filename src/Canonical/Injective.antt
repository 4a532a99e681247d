-- ===== src/Canonical/Injective.antt =====
-- The encoding of parts that hold `:`, `|` or digits (app/shards/models.py, `idempotency_hash`).
use ggumirror_be.Base.{
  ℕ, zero, suc, ◌+◌, ◌-◌, ◌*◌, ◌/◌, ◌%◌, ◌<◌, ◌≡◌, ◌≢◌, refl, List, [], ◌∷◌, ◌++◌, arith, ap, ap₂,
  ◌∙◌, sym, ltb, Bool-cases, inl, inr,
}
use mathlib.Core.List.{append_assoc}
use ggumirror_be.Base.Text.{Text}
use ggumirror_be.Canonical.{length, digits, decimal, part, rest_parts, canonical}

-- The number that a text of digits stands for.
value : ℕ → Text → ℕ
value n [] = n
value n (c ∷ s) = value (10 * n + (c - b'0')) s

value-append : (n c : ℕ) (s : Text) → value n (s ++ c ∷ []) ≡ 10 * value n s + (c - b'0')
unfolding value
value-append n c [] = refl
value-append n c (x ∷ s) = value-append (10 * n + (x - b'0')) c s

value-digits : (f n : ℕ) → n < f → value 0 (digits f n) ≡ n
unfolding digits
value-digits zero n h = absurd (omega arith)
value-digits (suc f) n h = elim (Bool-cases (ltb n 10)) [
  | inl small ↦ rw small (unfold value in omega arith)
  | inr large ↦
      let smaller : n / 10 < f = ground arith in
      rw (large, value-append 0 (b'0' + n % 10) (digits f (n / 10)))
        (omega (arith, value-digits f (n / 10) smaller))
]

value-decimal : (n : ℕ) → value 0 (decimal n) ≡ n
unfolding decimal
value-decimal n = value-digits (suc n) n (omega arith)

-- No character of the text is a colon.
abbrev NoColon : Text → Type 0
NoColon [] = Unit
NoColon (c ∷ s) = (c ≢ b':') × NoColon s

NoColon-append : (s t : Text) → NoColon s → NoColon t → NoColon (s ++ t)
NoColon-append [] t h k = k
NoColon-append (c ∷ s) t h k = (h.0, NoColon-append s t h.1 k)

digits-NoColon : (f n : ℕ) → NoColon (digits f n)
unfolding digits
digits-NoColon zero n = tt
digits-NoColon (suc f) n = elim (Bool-cases (ltb n 10)) [
  | inl small ↦ rw small (ground arith, tt)
  | inr large ↦
      rw large (NoColon-append (digits f (n / 10)) _ (digits-NoColon f (n / 10)) (omega arith, tt))
]

decimal-NoColon : (n : ℕ) → NoColon (decimal n)
unfolding decimal
decimal-NoColon n = digits-NoColon (suc n) n

-- Two texts that agree, each split at its first colon.
colon_split :
    (s t x y : Text) → NoColon s → NoColon t → s ++ b':' ∷ x ≡ t ++ b':' ∷ y → (s ≡ t) × (x ≡ y)
colon_split [] [] x y h k e = (refl, cc)
colon_split [] (c ∷ t) x y h k e = ground arith
colon_split (c ∷ s) [] x y h k e = ground arith
colon_split (c ∷ s) (d ∷ t) x y h k e = ground (arith, colon_split s t x y h.1 k.1)

-- Two texts that agree, each split after as many characters.
length_split : (s t x y : Text) → length s ≡ length t → s ++ x ≡ t ++ y → (s ≡ t) × (x ≡ y)
unfolding length
length_split [] [] x y l e = (refl, e)
length_split [] (d ∷ t) x y l e = absurd (omega arith)
length_split (c ∷ s) [] x y l e = absurd (omega arith)
length_split (c ∷ s) (d ∷ t) x y l e = ground (arith, length_split s t x y)

part_split : (p q x y : Text) → part p ++ x ≡ part q ++ y → (p ≡ q) × (x ≡ y)
unfolding part
part_split p q x y e =
    let shifted : decimal (length p) ++ b':' ∷ (p ++ x) ≡ decimal (length q) ++ b':' ∷ (q ++ y) =
      sym (append_assoc (decimal (length p)) (b':' ∷ p) x)
      ∙ e
      ∙ append_assoc (decimal (length q)) (b':' ∷ q) y in
    let (ds, rest) =
      colon_split (decimal (length p)) (decimal (length q)) (p ++ x) (q ++ y)
        (decimal-NoColon (length p)) (decimal-NoColon (length q)) shifted in
    let lengths : length p ≡ length q =
      sym (value-decimal (length p)) ∙ ap (value 0) ds ∙ value-decimal (length q) in
    length_split p q x y lengths rest

rest_parts-injective : (ps qs : List Text) → rest_parts ps ≡ rest_parts qs → ps ≡ qs
unfolding rest_parts
rest_parts-injective [] [] e = refl
rest_parts-injective [] (q ∷ qs) e = cc
rest_parts-injective (p ∷ ps) [] e = cc
rest_parts-injective (p ∷ ps) (q ∷ qs) e =
    let (same, rest) = part_split p q (rest_parts ps) (rest_parts qs) (cc) in
    ap₂ ◌∷◌ same (rest_parts-injective ps qs rest)

colon-nonempty : (s p x : Text) → (s ++ b':' ∷ p) ++ x ≢ []
colon-nonempty [] p x e = cc
colon-nonempty (c ∷ s) p x e = cc

part-nonempty : (p x : Text) → part p ++ x ≢ []
unfolding part
part-nonempty p x = colon-nonempty (decimal (length p)) p x

-- Two lists of texts with one encoding are one list, whatever separators the texts hold.
pub canonical-injective : (ps qs : List Text) → canonical ps ≡ canonical qs → ps ≡ qs
unfolding canonical
canonical-injective [] [] e = refl
canonical-injective [] (q ∷ qs) e = absurd (part-nonempty q (rest_parts qs) (sym e))
canonical-injective (p ∷ ps) [] e = absurd (part-nonempty p (rest_parts ps) e)
canonical-injective (p ∷ ps) (q ∷ qs) e =
    let (same, rest) = part_split p q (rest_parts ps) (rest_parts qs) e in
    ap₂ ◌∷◌ same (rest_parts-injective ps qs rest)
