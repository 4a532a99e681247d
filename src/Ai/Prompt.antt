-- ===== src/Ai/Prompt.antt =====
-- app/ai/prompt.py, `normalize_prompt`, and `_checked_request_id` of app/ai/service.py. A `str` is
-- its list of code points here; `str.isspace` and the control and format categories of Python's
-- `unicodedata` are parameters.
pub mod Laws
use ggumirror_be.Base.{
  ℕ, Bool, true, false, not, ◌&&◌, ◌||◌, List, [], ◌∷◌, ◌++◌, ltb, if◌then◌else◌,
}
use ggumirror_be.Base.Exec.{
  Result, ok, err, ◌>>=◌, ◌>>◌, raise_if, ai_sticker_error, empty_prompt, prompt_too_long,
  invalid_request_id,
}
use ggumirror_be.Canonical.{length}
use ggumirror_be.Ai.Models.{max_prompt_length, max_request_id_length}

abbrev pub Characters : Type 0
Characters = List ℕ

abbrev pub is_empty : {A : Type 0} → List A → Bool
is_empty [] = true
is_empty (x ∷ xs) = false

abbrev pub space : ℕ
space = 32

unfoldable pub filter : (ℕ → Bool) → Characters → Characters
filter keep [] = []
filter keep (c ∷ cs) = let rest = filter keep cs in if keep c then c ∷ rest else rest

unfoldable pub any : (ℕ → Bool) → Characters → Bool
any p [] = false
any p (c ∷ cs) = p c || any p cs

-- A word in hand ends where white space comes, if it has begun.
unfoldable pub end_word : Characters → List Characters → List Characters
end_word [] words = words
end_word (c ∷ w) words = (c ∷ w) ∷ words

-- `str.split()`, with the word in hand
unfoldable pub split_from : (ℕ → Bool) → Characters → Characters → List Characters
unfolding end_word
split_from is_space w [] = end_word w []
split_from is_space w (c ∷ cs) =
    let after = split_from is_space [] cs in
    let longer = split_from is_space (w ++ c ∷ []) cs in
    if is_space c then end_word w after else longer

abbrev pub joined_rest : List Characters → Characters
joined_rest [] = []
joined_rest (w ∷ ws) = space ∷ w ++ joined_rest ws

-- `" ".join(words)`
unfoldable pub join : List Characters → Characters
join [] = []
join (w ∷ ws) = w ++ joined_rest ws

-- `str.lstrip()`
unfoldable pub left_strip : (ℕ → Bool) → Characters → Characters
left_strip is_space [] = []
left_strip is_space (c ∷ cs) =
    let rest = left_strip is_space cs in if is_space c then rest else c ∷ cs

-- `str.rstrip()`
unfoldable pub right_strip : (ℕ → Bool) → Characters → Characters
right_strip is_space [] = []
right_strip is_space (c ∷ cs) =
    let rest = right_strip is_space cs in if is_space c && is_empty rest then [] else c ∷ rest

module _ (is_space is_hidden : ℕ → Bool) where
  -- The characters that stay: white space, and all but the control and format characters.
  unfoldable pub cleaned : Characters → Characters
  unfolding filter
  cleaned raw = filter (λ c. is_space c || not (is_hidden c)) raw

  unfoldable pub collapsed : Characters → Characters
  unfolding cleaned split_from join
  collapsed raw = join (split_from is_space [] (cleaned raw))

  unfoldable pub normalize_prompt : Characters → Result Characters
  unfolding collapsed
  normalize_prompt raw = do
    let line = collapsed raw
    raise_if (is_empty line) (ai_sticker_error empty_prompt)
    raise_if (ltb max_prompt_length (length line)) (ai_sticker_error prompt_too_long)
    ok line

unfoldable pub checked_request_id : (ℕ → Bool) → Characters → Result Characters
unfolding left_strip right_strip any
checked_request_id is_space raw = do
  let trimmed = right_strip is_space (left_strip is_space raw)
  raise_if (is_empty trimmed || ltb max_request_id_length (length trimmed))
      (ai_sticker_error invalid_request_id)
  raise_if (any (λ c. is_space c || ltb c 32) trimmed) (ai_sticker_error invalid_request_id)
  ok trimmed
