-- ===== src/Token/Split.antt =====
-- core/token.c: `Token_SplitString`. A pointer into the copy of the string is kept as its index.
use mri.Prelude.{
  ℕ, zero, suc, ◌+◌, List, [], ◌∷◌, Bool, true, false, not, ◌&&◌, ltb, ◌==◌, if◌then◌else◌, get_or,
  set, drop,
}
use mri.TryCatch.{set_exception_code, buffer_overrun_exception, no_exception}
use mri.Libc.{peek, next}
use mri.Token.Core.{Token, clear_token_object, token_max_tokens, token_max_string}

-- `*p`
abbrev char_at : Token → ℕ → ℕ
char_at t p = get_or t.copy_of_string p 0

-- `charIsSeparator`
unfoldable pub char_is_separator : List ℕ → ℕ → Bool
char_is_separator [] c = false
char_is_separator (separator ∷ separators) c =
    if separator == 0
    then false
    else (if c == separator then true else char_is_separator separators c)

-- The loop of `findFirstNonSeparator` and, with `separator` false, of `findFirstSeparator`: `chars` is
-- what the pointer points to.
unfoldable pub skip_while_separator : Bool → List ℕ → List ℕ → ℕ → ℕ
skip_while_separator separator separators [] p = p
skip_while_separator separator separators (c ∷ chars) p =
    let rest = skip_while_separator separator separators chars (p + 1) in
    let skipped =
      if separator then char_is_separator separators c else not (char_is_separator separators c) in
    if not (c == 0) && skipped then rest else p

-- `findFirstNonSeparator`
abbrev pub find_first_non_separator : Token → ℕ → ℕ
find_first_non_separator t p =
    skip_while_separator true t.token_separators (drop p t.copy_of_string) p

-- `findFirstSeparator`
abbrev pub find_first_separator : Token → ℕ → ℕ
find_first_separator t p = skip_while_separator false t.token_separators (drop p t.copy_of_string) p

-- The loop of `copyStringIntoToken`, with `bytesLeft - 1`; the results are the array and `pSource`.
unfoldable pub copy_string_loop : List ℕ → ℕ → ℕ → List ℕ → List ℕ × List ℕ
copy_string_loop dest i zero source = (set dest i 0, source)
copy_string_loop dest i (suc bytes_left) source =
    let rest = copy_string_loop (set dest i (peek source)) (i + 1) bytes_left (next source) in
    if peek source == 0 then (set dest i 0, source) else rest

-- `copyStringIntoToken`
unfoldable pub copy_string_into_token : Token → List ℕ → Token
copy_string_into_token t string_to_copy =
    let (copy, source) = copy_string_loop t.copy_of_string 0 token_max_string string_to_copy in
    let t' = record t { copy_of_string = copy } in
    if peek source == 0
    then t'
    else record t' { exn = set_exception_code buffer_overrun_exception t.exn }

-- `addToken`
unfoldable pub add_token : Token → ℕ → Token
add_token t p =
    if char_at t p == 0
    then t
    else (if ltb t.token_count token_max_tokens
        then record t {
          token_pointers = set t.token_pointers t.token_count (t.address + p);
          token_count = t.token_count + 1;
        }
        else record t { exn = set_exception_code buffer_overrun_exception t.exn })

-- The loop of `splitStringCopyIntoTokens`; a round moves `p` up, so the fuel is the size of the copy.
unfoldable pub split_loop : ℕ → Token → ℕ → Token
split_loop zero t p = t
split_loop (suc fuel) t p =
    let p₁ = find_first_non_separator t p in
    let t₁ = add_token (record t { exn = no_exception }) p₁ in
    let p₂ = find_first_separator t₁ p₁ in
    let at_end = split_loop fuel t₁ p₂ in
    let further =
      split_loop fuel (record t₁ { copy_of_string = set t₁.copy_of_string p₂ 0 }) (p₂ + 1) in
    if char_at t p == 0
    then t
    else (if t₁.exn == 0 then (if char_at t₁ p₂ == 0 then at_end else further) else t₁)

-- `splitStringCopyIntoTokens`
unfoldable pub split_string_copy_into_tokens : Token → Token
split_string_copy_into_tokens t = split_loop (token_max_string + 1) t 0

-- `Token_SplitString`
unfoldable pub split_string : Token → List ℕ → Token
split_string t string_to_split =
    let t₁ =
      copy_string_into_token (clear_token_object (record t { exn = no_exception }))
        string_to_split in
    let t₂ = split_string_copy_into_tokens t₁ in if t₁.exn == 0 then t₂ else t₁
