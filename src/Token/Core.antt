-- ===== src/Token/Core.antt =====
-- core/token.c: the structure, and the routines that look for a token.
use mri.Prelude.{
  ℕ, zero, suc, ◌+◌, ◌-◌, List, [], ◌∷◌, Option, none, some, Bool, false, ltb, ◌==◌, if◌then◌else◌,
  get_or, set, drop, replicate, length,
}
use mri.TryCatch.{set_exception_code, invalid_index_exception}
use mri.Libc.{strcmp, strstr, is_zero, c_string}

-- `Token`, with `mriExceptionCode`. `address` is that of `copyOfString`; the pointers to the tokens are
-- addresses, and 0 is NULL.
pub record Token : Type 0 where
  pub exn : ℕ
  pub address : ℕ
  pub copy_of_string : List ℕ
  pub token_pointers : List ℕ
  pub token_count : ℕ
  pub token_separators : List ℕ

-- `TOKEN_MAX_TOKENS`
abbrev pub token_max_tokens : ℕ
token_max_tokens = 10

-- `TOKEN_MAX_STRING`
abbrev pub token_max_string : ℕ
token_max_string = 64

-- What a pointer into the copy of the string points to.
abbrev pub string_at : Token → ℕ → List ℕ
string_at t p = drop (p - t.address) t.copy_of_string

-- `clearTokenObject`
unfoldable pub clear_token_object : Token → Token
clear_token_object t = record t {
  token_pointers = replicate token_max_tokens 0;
  token_count = 0;
  copy_of_string = set t.copy_of_string 0 0;
}

-- `Token_InitWith`
unfoldable pub init_with : Token → List ℕ → Token
init_with t these_token_separators = record (clear_token_object t) {
  token_separators = these_token_separators;
}

-- `Token_Init`
unfoldable pub init_tokens : Token → Token
init_tokens t = init_with t (c_string (b' ' ∷ 9 ∷ []))

-- `Token_GetTokenCount`
abbrev pub get_token_count : Token → ℕ
get_token_count t = t.token_count

-- `Token_GetToken`
unfoldable pub get_token : Token → ℕ → ℕ × Token
get_token t token_index =
    if ltb token_index t.token_count
    then (get_or t.token_pointers token_index 0, t)
    else (0, record t { exn = set_exception_code invalid_index_exception t.exn })

-- The loop of the two searches, over the `n` tokens from `i` on.
unfoldable pub find_loop : (List ℕ → Bool) → Token → ℕ → ℕ → Option ℕ
find_loop matches t i zero = none
find_loop matches t i (suc n) =
    let rest = find_loop matches t (i + 1) n in
    let p = get_or t.token_pointers i 0 in if matches (string_at t p) then some p else rest

-- `Token_MatchingString`
unfoldable pub matching_string : Token → List ℕ → Option ℕ
matching_string t token_to_search_for =
    find_loop (λ p. is_zero (strcmp p token_to_search_for)) t 0 t.token_count

-- What is found of a prefix is the token itself exactly when nothing is left in front of it.
abbrev pub found_at_start : List ℕ → Option (List ℕ) → Bool
found_at_start p none = false
found_at_start p (some found) = length found == length p

-- `Token_MatchingStringPrefix`
unfoldable pub matching_string_prefix : Token → List ℕ → Option ℕ
matching_string_prefix t token_prefix_to_search_for =
    find_loop (λ p. found_at_start p (strstr p token_prefix_to_search_for)) t 0 t.token_count

-- `adjustTokenPointers`, for the `n` tokens from `i` on
unfoldable pub adjust_token_pointers : ℕ → ℕ → ℕ → ℕ → List ℕ → List ℕ
adjust_token_pointers address original i zero token_pointers = token_pointers
adjust_token_pointers address original i (suc n) token_pointers =
    adjust_token_pointers address original (i + 1) n
      (set token_pointers i (address + (get_or token_pointers i 0 - original)))

-- `Token_Copy`
unfoldable pub copy_token : Token → Token → Token
copy_token token_copy token_original = record token_original {
  exn = token_copy.exn;
  address = token_copy.address;
  token_pointers =
      adjust_token_pointers token_copy.address token_original.address 0 token_original.token_count
        token_original.token_pointers;
}
