-- ===== src/Examples/Masks.antt =====
-- The masks of small texts, and the theorem on tokens at two tokens of nine bytes.
use aic_verifier.Prelude.{◌≡◌, refl, inl, [], ◌∷◌, ◌++◌, arith}
use aic_verifier.Merkle.{Bytes}
use aic_verifier.Mask.{
  mask_token, keep_of, mask_email, mask_file_path, mask_basename, mask_inner, last_cut,
}
use aic_verifier.Mask.Hidden.{mask_token_hides}

abbrev shown_bytes : Bytes
shown_bytes = 97 ∷ 98 ∷ []

abbrev secret_bytes : Bytes
secret_bytes = 49 ∷ 50 ∷ 51 ∷ 52 ∷ 53 ∷ []

abbrev other_bytes : Bytes
other_bytes = 54 ∷ 55 ∷ 56 ∷ 57 ∷ 48 ∷ []

token_masked :
    mask_token (shown_bytes ++ (secret_bytes ++ shown_bytes))
    ≡ 97 ∷ 98 ∷ 42 ∷ 42 ∷ 42 ∷ 42 ∷ 42 ∷ 97 ∷ 98 ∷ []
unfolding mask_token keep_of
token_masked = refl

-- abc@d
email_masked : mask_email (97 ∷ 98 ∷ 99 ∷ 64 ∷ 100 ∷ []) ≡ 97 ∷ 42 ∷ 99 ∷ 64 ∷ 100 ∷ []
unfolding mask_email mask_inner last_cut
email_masked = refl

-- a/bcd.e
path_masked :
    mask_file_path (97 ∷ 47 ∷ 98 ∷ 99 ∷ 100 ∷ 46 ∷ 101 ∷ [])
    ≡ 97 ∷ 47 ∷ 98 ∷ 42 ∷ 100 ∷ 46 ∷ 101 ∷ []
unfolding mask_file_path mask_basename mask_inner last_cut
path_masked = refl

mask_token_hides_example :
    mask_token (shown_bytes ++ (secret_bytes ++ shown_bytes))
    ≡ mask_token (shown_bytes ++ (other_bytes ++ shown_bytes))
mask_token_hides_example =
    mask_token_hides shown_bytes secret_bytes other_bytes shown_bytes refl (inl (omega arith))
      (inl (omega arith))
