-- ===== src/Download/Signed.antt =====
-- src/services/DownloadService.cpp: what signAll puts on the files of a plan.
use custom_game_launcher_bac.Base.{
  ◌≡◌, refl, ap, ◌∙◌, inl, inr, List, [], ◌∷◌, map, All, ℤ, Bytes, eq_bytes_iff, find_row,
  find_row_holds, find_row-All, Option-cases,
}
use custom_game_launcher_bac.Domain.Delta.{DeltaFile}
use custom_game_launcher_bac.Storage.BlobStore.{storage_key_for}
use custom_game_launcher_bac.Storage.DownloadUrlSigner.{sign}
use custom_game_launcher_bac.Download.{DownloadEnv, DownloadFile}
use custom_game_launcher_bac.Download.Plan.{sign_all, is_url_of}

-- The file of a plan without its address.
abbrev pub delta_file : DownloadFile → DeltaFile
delta_file f = record { entry = f.entry; copy_from_relative_path = f.copy_from_relative_path }

-- The address is the one for the blob of the file.
abbrev pub IsSigned : DownloadEnv → ℤ → DownloadFile → Type 0
IsSigned env expires_at f =
    f.url ≡ sign env.md5 env.signing (storage_key_for f.entry.blob_sha256) expires_at

module _ (env : DownloadEnv) (expires_at : ℤ) where
  -- The map `urls` has the address of each blob that it names.
  abbrev IsUrl : Bytes × Bytes → Type 0
  IsUrl (sha256, url) = url ≡ sign env.md5 env.signing (storage_key_for sha256) expires_at

  pub delta_file-sign_all :
      (urls : List (Bytes × Bytes)) (fs : List DeltaFile)
      → map delta_file (sign_all env expires_at urls fs) ≡ fs
  unfolding sign_all
  delta_file-sign_all urls [] = refl
  delta_file-sign_all urls (f ∷ fs) =
      elim (Option-cases (find_row (is_url_of f.entry.blob_sha256) urls)) [
        | inr ((s, url), found) ↦
            rw (found, sign_all) (ap (λ rest. f ∷ rest) (delta_file-sign_all urls fs))
        | inl new ↦
            rw (new, sign_all)
              (ap (λ rest. f ∷ rest)
                (delta_file-sign_all
                  ((
                    f.entry.blob_sha256,
                    sign env.md5 env.signing (storage_key_for f.entry.blob_sha256) expires_at,
                  )
                    ∷ urls)
                  fs))
      ]

  pub All-IsSigned :
      (urls : List (Bytes × Bytes)) (fs : List DeltaFile)
      → All IsUrl urls
      → All (IsSigned env expires_at) (sign_all env expires_at urls fs)
  unfolding sign_all
  All-IsSigned urls [] h = tt
  All-IsSigned urls (f ∷ fs) h =
      elim (Option-cases (find_row (is_url_of f.entry.blob_sha256) urls)) [
        | inr ((s, url), found) ↦
            let right = find_row-All IsUrl (is_url_of f.entry.blob_sha256) urls (s, url) h found in
            let same =
              (eq_bytes_iff s f.entry.blob_sha256).0
                (find_row_holds (is_url_of f.entry.blob_sha256) urls (s, url) found) in
            rw (found, sign_all, All)
              (
                right ∙ ap (λ b. sign env.md5 env.signing (storage_key_for b) expires_at) same,
                All-IsSigned urls fs h,
              )
        | inl new ↦
            rw (new, sign_all, All)
              (
                refl,
                All-IsSigned
                    ((
                      f.entry.blob_sha256,
                      sign env.md5 env.signing (storage_key_for f.entry.blob_sha256) expires_at,
                    )
                      ∷ urls)
                    fs (refl, h),
              )
      ]
