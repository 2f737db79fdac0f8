-- ===== src/Mask.antt =====
-- mask.go: the masking of texts for the log, on their bytes. A text is ASCII, where Go's runes and bytes
-- agree; the number of visible characters is not negative.
pub mod Hidden
use aic_verifier.Prelude.{
  ℕ, zero, suc, ◌+◌, ◌-◌, ◌*◌, ◌/◌, Bool, ◌||◌, Option, none, some, List, [], ◌∷◌, ◌++◌, length,
  take, drop, leb, ltb, ◌==◌, if◌then◌else◌,
}
use aic_verifier.Merkle.{Bytes}

abbrev pub default_mask_rune : ℕ
default_mask_rune = 42

abbrev pub repeat : ℕ → Bytes
repeat zero = []
repeat (suc n) = default_mask_rune ∷ repeat n

-- all but the first and the last bytes replaced
abbrev pub masked : ℕ → ℕ → Bytes → Bytes
masked first last text =
    let n = length text in take first text ++ repeat (n - (first + last)) ++ drop (n - last) text

unfoldable pub mask_string : Bytes → ℕ → Bytes
mask_string text visible = if leb (length text) visible then text else masked 0 visible text

unfoldable pub keep_of : ℕ → ℕ
keep_of n = let keep = if ltb (n / 2 / 2) 4 then n / 2 / 2 else 4 in if ltb keep 1 then 1 else keep

unfoldable pub mask_token : Bytes → Bytes
mask_token token =
    let n = length token in if leb n 8 then repeat n else masked (keep_of n) (keep_of n) token

-- the text cut before the last byte that passes, `LastIndex`
unfoldable pub last_cut : (ℕ → Bool) → Bytes → Option (Bytes × Bytes)
last_cut p [] = none
last_cut p (b ∷ bs) = behind (last_cut p bs)
  where
    behind : Option (Bytes × Bytes) → Option (Bytes × Bytes)
    behind (some (before, rest)) = some (b ∷ before, rest)
    behind none = if p b then some ([], b ∷ bs) else none

-- the first and the last byte stay, where there are more than two
unfoldable pub mask_inner : Bytes → Bytes
mask_inner text = let n = length text in if leb n 2 then repeat n else masked 1 1 text

abbrev pub with_extension : Bytes → Option (Bytes × Bytes) → Bytes
with_extension name none = repeat (length name)
with_extension name (some (base, ext)) = mask_inner base ++ ext

unfoldable pub mask_basename : Bytes → Bytes
mask_basename name = with_extension name (last_cut (λ b. b == 46) name)

abbrev pub with_directory : Bytes → Option (Bytes × Bytes) → Bytes
with_directory path none = mask_basename path
with_directory path (some (dir, rest)) = dir ++ take 1 rest ++ mask_basename (drop 1 rest)

unfoldable pub mask_file_path : Bytes → Bytes
mask_file_path path = with_directory path (last_cut (λ b. (b == 47) || (b == 92)) path)

abbrev pub with_domain : Bytes → Option (Bytes × Bytes) → Bytes
with_domain email none = mask_string email 4
with_domain email (some (local, domain)) = mask_inner local ++ domain

unfoldable pub mask_email : Bytes → Bytes
mask_email email = with_domain email (last_cut (λ b. b == 64) email)
