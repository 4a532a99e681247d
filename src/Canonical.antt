-- ===== src/Canonical.antt =====
-- The encoding behind every document key: `"|".join(f"{len(part.encode())}:{part}" for part in …)`
-- in app/shards/models.py, app/marketplace/models.py, app/iap/models.py and app/capacity/models.py.
-- Texts are UTF-8 bytes, so `len(part.encode())` is a length and `encode` of the whole is itself.
pub mod Injective
use ggumirror_be.Base.{ℕ, zero, suc, ◌+◌, ◌/◌, ◌%◌, List, [], ◌∷◌, ◌++◌, ltb, if◌then◌else◌}
use ggumirror_be.Base.Text.{Text}

unfoldable pub length : {A : Type 0} → List A → ℕ
length [] = 0
length (x ∷ xs) = suc (length xs)

-- `str(n)`; a number has fewer digits than one more than itself, which is the fuel.
unfoldable pub digits : ℕ → ℕ → Text
digits zero n = []
digits (suc f) n =
    let rest = digits f (n / 10) in
    if ltb n 10 then (b'0' + n) ∷ [] else rest ++ (b'0' + n % 10) ∷ []

unfoldable pub decimal : ℕ → Text
unfolding digits
decimal n = digits (suc n) n

-- `f"{len(part.encode())}:{part}"`
unfoldable pub part : Text → Text
unfolding decimal length
part p = decimal (length p) ++ b':' ∷ p

unfoldable pub rest_parts : List Text → Text
unfolding part
rest_parts [] = []
rest_parts (p ∷ ps) = b'|' ∷ part p ++ rest_parts ps

unfoldable pub canonical : List Text → Text
unfolding part rest_parts
canonical [] = []
canonical (p ∷ ps) = part p ++ rest_parts ps
