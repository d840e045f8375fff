-- ===== src/Domain/Manifest/Order.antt =====
-- src/domain/Manifest.cpp: the canonical document and the order of the files.
use mathlib.Core.List.{map, Nodup, Nodup-cons, Nodup-nil, not-mem-nil, mem-cons}
use mathlib.Core.Logic.Or
use custom_game_launcher_bac.Base.{
  ◌≡◌, List, [], ◌∷◌, Mem, Perm, none, arith, Bytes, eq_bytes_iff, sort_by-eq_of_perm,
}
use custom_game_launcher_bac.Domain.Manifest.{ManifestEntry, canonical_manifest_document}
use custom_game_launcher_bac.Domain.Delta.{find_path}
use custom_game_launcher_bac.Domain.Delta.Facts.{Distinct}

abbrev paths : List ManifestEntry → List Bytes
paths = map (λ (e : ManifestEntry). e.relative_path)

ManifestEntry-set : IsSet ManifestEntry
ManifestEntry-set = hlevel

not_listed : (p : Bytes) (es : List ManifestEntry) → find_path p es ≡ none → ¬ Mem p (paths es)
unfolding find_path
not_listed p [] h m = not-mem-nil m
not_listed p (e ∷ es) h m =
    Or.elim (λ x y. absurd x) (mem-cons.0 m)
      (λ same. ground (arith, eq_bytes_iff e.relative_path p))
      (λ later. not_listed p es (ground arith) later)

pub Nodup-Distinct : (es : List ManifestEntry) → Distinct es → Nodup (paths es)
Nodup-Distinct [] d = Nodup-nil
Nodup-Distinct (e ∷ es) d = Nodup-cons.1 (not_listed e.relative_path es d.0, Nodup-Distinct es d.1)

-- The same files in another order, with no path listed twice, give the same bytes, and so the same
-- manifest hash.
pub canonical_manifest_document-perm :
    (entries others : List ManifestEntry) (entrypoint default_launch_args : Bytes)
    → Distinct entries
    → Perm entries others
    → canonical_manifest_document entries entrypoint default_launch_args
      ≡ canonical_manifest_document others entrypoint default_launch_args
unfolding canonical_manifest_document
canonical_manifest_document-perm entries others entrypoint args d p = rw (
    sort_by-eq_of_perm (λ e. e.relative_path) ManifestEntry-set entries others p
      (Nodup-Distinct entries d))
