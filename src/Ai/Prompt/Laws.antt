-- ===== src/Ai/Prompt/Laws.antt =====
-- What `normalize_prompt` (app/ai/prompt.py) sends on.
use ggumirror_be.Base.{
  ℕ, ◌≤◌, ◌≡◌, ◌≢◌, refl, ap, ◌∙◌, inl, inr, Bool, true, false, not, ◌||◌, List, [], ◌∷◌, ◌++◌,
  arith, Bool-cases,
}
use mathlib.Core.List.{append-nil, append_assoc}
use ggumirror_be.Base.Exec.{ok}
use ggumirror_be.Canonical.{length}
use ggumirror_be.Ai.Models.{max_prompt_length}
use ggumirror_be.Ai.Prompt.{
  Characters, space, filter, end_word, split_from, joined_rest, join, cleaned, collapsed,
  normalize_prompt,
}

module _ (is_space is_hidden : ℕ → Bool) where
  abbrev keep : ℕ → Bool
  keep c = is_space c || not (is_hidden c)

  abbrev pub AllKept : Characters → Type 0
  AllKept [] = Unit {0}
  AllKept (c ∷ cs) = (keep c ≡ true) × AllKept cs

  -- Neither white space nor a control or format character.
  abbrev pub AllPlain : Characters → Type 0
  AllPlain [] = Unit {0}
  AllPlain (c ∷ cs) = (is_space c ≡ false) × (is_hidden c ≡ false) × AllPlain cs

  abbrev IsWord : Characters → Type 0
  IsWord [] = ⊥
  IsWord (c ∷ w) = AllPlain (c ∷ w)

  abbrev AllWords : List Characters → Type 0
  AllWords [] = Unit {0}
  AllWords (w ∷ ws) = IsWord w × AllWords ws

  IsWord-AllPlain : (w : Characters) → IsWord w → AllPlain w
  IsWord-AllPlain [] h = absurd h
  IsWord-AllPlain (c ∷ w) h = h

  filter-AllKept : (cs : Characters) → AllKept (filter keep cs)
  unfolding filter
  filter-AllKept [] = tt
  filter-AllKept (c ∷ cs) = elim (Bool-cases (keep c)) [
    | inl yes_kept ↦ rw yes_kept (yes_kept, filter-AllKept cs)
    | inr dropped ↦ rw dropped (filter-AllKept cs)
  ]

  AllPlain-snoc :
      (w : Characters) (c : ℕ)
      → AllPlain w
      → is_space c ≡ false
      → is_hidden c ≡ false
      → AllPlain (w ++ c ∷ [])
  AllPlain-snoc [] c h p q = (p, q, tt)
  AllPlain-snoc (b ∷ w) c h p q = (h.0, h.1, AllPlain-snoc w c h.2 p q)

  end_word-AllWords :
      (w : Characters) (ws : List Characters) → AllPlain w → AllWords ws → AllWords (end_word w ws)
  unfolding end_word
  end_word-AllWords [] ws h k = k
  end_word-AllWords (c ∷ w) ws h k = (h, k)

  kept_plain : (c : ℕ) → keep c ≡ true → is_space c ≡ false → is_hidden c ≡ false
  kept_plain c k p = ground arith

  split_from-AllWords :
      (w cs : Characters) → AllPlain w → AllKept cs → AllWords (split_from is_space w cs)
  unfolding split_from
  split_from-AllWords w [] h k = end_word-AllWords w [] h tt
  split_from-AllWords w (c ∷ cs) h k = elim (Bool-cases (is_space c)) [
    | inl ends ↦ rw ends (end_word-AllWords w _ h (split_from-AllWords [] cs tt k.1))
    | inr goes_on ↦ rw goes_on (
        split_from-AllWords (w ++ c ∷ []) cs
          (AllPlain-snoc w c h goes_on (kept_plain c k.0 goes_on)) k.1)
  ]

  -- Splitting a line of words at its first word.
  split-word :
      (w v rest : Characters)
      → AllPlain v
      → split_from is_space w (v ++ rest) ≡ split_from is_space (w ++ v) rest
  unfolding split_from
  split-word w [] rest h = rw (append-nil w) refl
  split-word w (c ∷ v) rest h = rw (h.0) (
      split-word (w ++ c ∷ []) v rest h.2
      ∙ ap (λ (x : Characters). split_from is_space x rest) (append_assoc w (c ∷ []) v))

  module _ (spaced : is_space space ≡ true) where
    split-joined_rest :
        (w : Characters) (ws : List Characters)
        → IsWord w
        → AllWords ws
        → split_from is_space w (joined_rest ws) ≡ w ∷ ws
    unfolding split_from end_word
    split-joined_rest [] ws h k = absurd h
    split-joined_rest (c ∷ w) [] h k = refl
    split-joined_rest (c ∷ w) (v ∷ ws) h k = rw spaced (
        ap (λ (x : List Characters). (c ∷ w) ∷ x)
          (split-word [] v (joined_rest ws) (IsWord-AllPlain v k.0)
            ∙ split-joined_rest v ws k.0 k.1))

    split-join : (ws : List Characters) → AllWords ws → split_from is_space [] (join ws) ≡ ws
    unfolding join split_from end_word
    split-join [] h = refl
    split-join (w ∷ ws) h =
        split-word [] w (joined_rest ws) (IsWord-AllPlain w h.0) ∙ split-joined_rest w ws h.0 h.1

    filter-plain :
        (v rest : Characters) → AllPlain v → filter keep (v ++ rest) ≡ v ++ filter keep rest
    unfolding filter
    filter-plain [] rest h = refl
    filter-plain (c ∷ v) rest h =
        rw (h.0, h.1) (ap (λ (x : Characters). c ∷ x) (filter-plain v rest h.2))

    filter-joined_rest :
        (ws : List Characters) → AllWords ws → filter keep (joined_rest ws) ≡ joined_rest ws
    unfolding filter
    filter-joined_rest [] h = refl
    filter-joined_rest (w ∷ ws) h = rw spaced (
        ap (λ (x : Characters). space ∷ x)
          (filter-plain w (joined_rest ws) (IsWord-AllPlain w h.0)
            ∙ ap (λ (x : Characters). w ++ x) (filter-joined_rest ws h.1)))

    cleaned-join :
        (ws : List Characters) → AllWords ws → cleaned is_space is_hidden (join ws) ≡ join ws
    unfolding cleaned join filter
    cleaned-join [] h = refl
    cleaned-join (w ∷ ws) h =
        filter-plain w (joined_rest ws) (IsWord-AllPlain w h.0)
        ∙ ap (λ (x : Characters). w ++ x) (filter-joined_rest ws h.1)

    collapsed_again :
        (raw : Characters)
        → collapsed is_space is_hidden (collapsed is_space is_hidden raw)
          ≡ collapsed is_space is_hidden raw
    unfolding collapsed cleaned
    collapsed_again raw =
        let words = split_from is_space [] (cleaned is_space is_hidden raw) in
        let good : AllWords words = split_from-AllWords [] _ tt (filter-AllKept raw) in
        ap (λ (x : Characters). join (split_from is_space [] x)) (cleaned-join words good)
        ∙ ap join (split-join words good)

    passes :
        (raw prompt : Characters)
        → normalize_prompt is_space is_hidden raw ≡ ok prompt
        → (collapsed is_space is_hidden raw ≡ prompt)
          × (prompt ≢ [])
          × (length prompt ≤ max_prompt_length)
    unfolding normalize_prompt
    passes raw prompt h = (ground arith, ground arith, ground arith)

    passed :
        (line : Characters)
        → collapsed is_space is_hidden line ≡ line
        → line ≢ []
        → length line ≤ max_prompt_length
        → normalize_prompt is_space is_hidden line ≡ ok line
    unfolding normalize_prompt
    passed line e some_text short = ground arith

    -- A prompt that is sent on is not empty and is at most 200 characters long, and normalising it
    -- again gives the same prompt, where the space is white space.
    pub normalize_prompt_again :
        (raw prompt : Characters)
        → normalize_prompt is_space is_hidden raw ≡ ok prompt
        → (prompt ≢ [])
          × (length prompt ≤ max_prompt_length)
          × (normalize_prompt is_space is_hidden prompt ≡ ok prompt)
    normalize_prompt_again raw prompt h =
        let (line, some_text, short) = passes raw prompt h in
        let again : collapsed is_space is_hidden prompt ≡ prompt =
          rw (← line) (collapsed_again raw) in
        (some_text, short, passed prompt again some_text short)
