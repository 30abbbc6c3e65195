-- ===== src/Token/Tests.antt =====
-- Concrete strings.
use mri.Prelude.{ℕ, ◌+◌, ◌-◌, ◌≡◌, refl, arith, [], ◌∷◌, replicate}
use mri.TryCatch.{set_exception_code}
use mri.Libc.{c_string}
use mri.Token.Core.{Token, clear_token_object, string_at, get_token, copy_token}
use mri.Token.Split.{
  split_string, copy_string_into_token, copy_string_loop, split_string_copy_into_tokens, split_loop,
  add_token, skip_while_separator, char_is_separator,
}
use mri.Token.Copies.{copy_token-get_token}

abbrev fresh : ℕ → Token
fresh address = record {
  exn = 0;
  address = address;
  copy_of_string = replicate 65 0;
  token_pointers = replicate 10 0;
  token_count = 0;
  token_separators = c_string (b' ' ∷ []);
}

-- " a bc " has the tokens "a" and "bc".
split_two :
    (split_string
      (fresh 100)
      (c_string (b' ' ∷ b'a' ∷ b' ' ∷ b'b' ∷ b'c' ∷ b' ' ∷ []))).token_pointers
    ≡ 101 ∷ 103 ∷ replicate 8 0
unfolding split_string copy_string_into_token copy_string_loop split_string_copy_into_tokens
    split_loop add_token skip_while_separator char_is_separator clear_token_object
    set_exception_code
split_two = refl

-- Two tokens at 101 and 103.
abbrev two : Token
two = record (fresh 100) {
  copy_of_string = 0 ∷ b'a' ∷ 0 ∷ b'b' ∷ b'c' ∷ 0 ∷ replicate 59 0;
  token_pointers = 101 ∷ 103 ∷ replicate 8 0;
  token_count = 2;
}

copy_token_example :
    let copied = copy_token (fresh 500) two in
    let p = (get_token copied 1).0 in
    let original = (get_token two 1).0 in
    (p ≡ 500 + (original - 100)) × (string_at copied p ≡ string_at two original)
copy_token_example = copy_token-get_token (fresh 500) two 1 (omega arith) (omega arith)
