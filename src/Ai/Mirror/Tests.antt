-- ===== src/Ai/Mirror/Tests.antt =====
-- A mirror that alice asks for twice, the first time in vain.
use ggumirror_be.Base.{◌≡◌, refl, true, arith, nat_eqb, ltb}
use ggumirror_be.Base.Int.{pos, ◌+ℤ◌}
use ggumirror_be.Base.Text.{codes, text_eqb}
use ggumirror_be.Base.Dict.{get, insert}
use ggumirror_be.Base.Exec.{ok, ai_sticker_error, provider_rejected}
use ggumirror_be.Canonical.{canonical, part, rest_parts, length, decimal, digits}
use ggumirror_be.Shards.Models.{reason_value, empty_wallet}
use ggumirror_be.Shards.Keys.{idempotency_hash}
use ggumirror_be.Shards.Store.{
  apply, apply_new, claim_conflict, already_applied, quota_full, wallet, write_change,
  changed_wallet, changed_entry, moved_wallet, new_entry,
}
use ggumirror_be.Shards.Ledger.{balance_of}
use ggumirror_be.Shards.Tests.{plain, alice, granted, granted-IsSound}
use ggumirror_be.Ai.Models.{generation_id}
use ggumirror_be.Ai.Prompt.{
  normalize_prompt, cleaned, collapsed, filter, split_from, end_word, join,
}
use ggumirror_be.Ai.Tests.{typed, fine, refused}
use ggumirror_be.Ai.Mirror.{AiMirrorService, generate_mirror, mirror_refund_id}
use ggumirror_be.Ai.Mirror.Laws.{IsSold, mirror_of, mirror_retry_unpaid}

abbrev mirrors : AiMirrorService
mirrors = record {
  is_configured = true;
  model = codes "m1";
  has_shards = true;
  price = pos 5;
  sha256 = plain;
  is_space = λ n. nat_eqb n 32;
  is_hidden = λ n. ltb n 32;
}

typed-IsSold : IsSold mirrors alice typed (codes "r1") (codes "a cat")
unfolding normalize_prompt cleaned collapsed filter split_from end_word join generation_id canonical
    part rest_parts length decimal digits
typed-IsSold = record {
  configured = refl;
  ledger = refl;
  amount = record { positive = omega arith; bounded = omega arith };
  normal = refl;
  named = λ e. cc;
}

mirror_retry_unpaid_example :
    let failed = (generate_mirror mirrors alice typed (codes "r1") refused granted).1 in
    let (answer, s) = generate_mirror mirrors alice typed (codes "r1") fine failed in
    (answer ≡ ok (mirror_of mirrors alice typed (codes "r1") (codes "png")))
    × (balance_of s alice ≡ balance_of granted alice)
unfolding apply apply_new claim_conflict already_applied quota_full get wallet empty_wallet ◌+ℤ◌
    write_change changed_wallet changed_entry moved_wallet new_entry insert balance_of
    idempotency_hash canonical part rest_parts length decimal digits reason_value text_eqb
    generation_id mirror_refund_id
mirror_retry_unpaid_example =
    mirror_retry_unpaid mirrors alice typed (codes "r1") (codes "a cat") typed-IsSold refused fine
      granted (codes "png") granted-IsSound refl (omega arith) (λ a b e. e) refl refl
      (ai_sticker_error provider_rejected) refl refl
