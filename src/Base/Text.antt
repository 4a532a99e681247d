-- ===== src/Base/Text.antt =====
-- A Python `str` as its UTF-8 bytes, and equality as a Boolean test by an instance.
use ggumirror_be.Base.Tests.{nat_eqb, ltb, leb, if◌then◌else◌}
use Prim.Native.Nat.{ℕ, ◌+◌}
use Prim.Native.Char.{code}
use Prim.Native.String.{String}
use mathlib.Core.Path.{◌≡◌, refl}
use mathlib.Core.Logic.{◌↔◌}
use mathlib.Core.Bool.{Bool, true, false, ◌&&◌}
use mathlib.Core.List.{List, [], ◌∷◌}
use native.Mathlib.Omega.{arith}

abbrev pub Text : Type 0
Text = List ℕ

-- The bytes of an ASCII literal.
abbrev pub codes : String → Text
codes String.[] = []
codes (String.◌∷◌ c s) = code c ∷ codes s

unfoldable pub text_eqb : Text → Text → Bool
text_eqb [] [] = true
text_eqb (a ∷ s) (b ∷ t) = nat_eqb a b && text_eqb s t
text_eqb _ _ = false

text_eqb→eq : (s t : Text) → text_eqb s t ≡ true → s ≡ t
unfolding text_eqb
text_eqb→eq [] [] h = refl
text_eqb→eq [] (b ∷ t) h = cc
text_eqb→eq (a ∷ s) [] h = cc
text_eqb→eq (a ∷ s) (b ∷ t) h = ground (arith, text_eqb→eq s t)

text_eqb_refl : (s : Text) → text_eqb s s ≡ true
unfolding text_eqb
text_eqb_refl [] = refl
text_eqb_refl (a ∷ s) = ground (arith, text_eqb_refl s)

pub text_eqb_iff : (s t : Text) → (text_eqb s t ≡ true) ↔ (s ≡ t)
text_eqb_iff s t = (text_eqb→eq s t, λ e. ground (arith, text_eqb_refl s))

pub record Eq (A : Type 0) : Type 0 where
  pub beq : A → A → Bool
  pub beq_iff : (a b : A) → (beq a b ≡ true) ↔ (a ≡ b)

infix 50 ◌==◌
abbrev pub ◌==◌ : {A : Type 0} ⦃e : Eq A⦄ → A → A → Bool
◌==◌ ⦃e⦄ = e.beq

instance abbrev pub text_eq : Eq Text
text_eq = record { beq = text_eqb; beq_iff = text_eqb_iff }

-- A pair of a collection and a document key.
unfoldable pub pair_eqb : Text × Text → Text × Text → Bool
pair_eqb (a, b) (c, d) = text_eqb a c && text_eqb b d

pub pair_eqb_iff : (p q : Text × Text) → (pair_eqb p q ≡ true) ↔ (p ≡ q)
unfolding pair_eqb
pair_eqb_iff (a, b) (c, d) = ground (arith, text_eqb_iff a c, text_eqb_iff b d)

instance abbrev pub pair_eq : Eq (Text × Text)
pair_eq = record { beq = pair_eqb; beq_iff = pair_eqb_iff }

-- `len(text)`: the bytes that begin a character.
unfoldable pub char_count : Text → ℕ
char_count [] = 0
char_count (b ∷ t) = (if leb 128 b && ltb b 192 then 0 else 1) + char_count t
