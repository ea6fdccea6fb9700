-- ===== src/Backup/Listing/Prefix.antt =====
-- The listing over a check store whose `list_all_after` lists by prefix, as that of a bucket does.
use mathlib.Core.List.{reverse}
use prose_pod_server.Common.{
  ◌≡◌, refl, ◌∙◌, ap, Bool, true, false, not, ◌||◌, some, List, [], ◌∷◌, ◌++◌, map, Text, same,
  same→eq, keep, All, starts_with, arith, inl, inr, Bool-cases,
}
use prose_pod_server.Common.Members.{IsIn, IsIn-reverse, contains, contains-keep}
use prose_pod_server.Backup.Id.{External, BackupId, parse}
use prose_pod_server.Backup.Store.{ObjectMetadata, ok}
use prose_pod_server.Backup.Listing.{BackupDto, Stores, is_backup, dtos_of, list_rows}
use prose_pod_server.Backup.Listing.Signed.{sig, IsIn-dtos_of, dto_of-signed}

-- A name without the prefix is not among names with it.
contains-starts_with :
    (n prefix : Text) (ms : List ObjectMetadata)
    → All (λ m. starts_with m.file_name prefix ≡ true) ms
    → starts_with n prefix ≡ false
    → contains n (map (λ m. m.file_name) ms) ≡ false
contains-starts_with n prefix [] h k = refl
contains-starts_with n prefix (m ∷ ms) h k = elim (Bool-cases (same m.file_name n)) [
  | inl hit ↦
      let e : m.file_name ≡ n = same→eq m.file_name n hit in
      let e' : starts_with m.file_name prefix ≡ starts_with n prefix =
        ap (λ x. starts_with x prefix) e in
      absurd (ground (arith, h.0))
  | inr miss ↦ rw (miss, contains-starts_with n prefix ms h.1 k) refl
]

module _ (ext : External) (s : Stores) (mandatory : Bool) where
  -- Where the check store lists by prefix, the listing succeeds and says of every backup whose name
  -- does not begin with that of the oldest one that it is not signed, even if its signature is stored.
  pub list_rows-unsigned :
      (oldest o : ObjectMetadata) (newer checks : List ObjectMetadata) (id : BackupId ext.Time)
      → s.checks_after oldest.file_name ≡ ok checks
      → All (λ m. starts_with m.file_name oldest.file_name ≡ true) checks
      → starts_with (o.file_name ++ sig) oldest.file_name ≡ false
      → IsIn o newer
      → parse ext o.file_name ≡ some id
      → (dtos : List (BackupDto ext.Time)) × (d : BackupDto ext.Time) × (list_rows ext s mandatory
            (oldest ∷ newer)
          ≡ ok dtos)
        × IsIn d dtos
        × (d.id ≡ id)
        × (d.is_signed ≡ false)
        × (d.can_be_restored ≡ not mandatory)
  unfolding list_rows
  list_rows-unsigned oldest o newer checks id listed prefixed other i e =
      let found = keep (λ n. not (is_backup s n)) (map (λ m. m.file_name) checks) in
      let unseen : contains (o.file_name ++ sig) found ≡ false = ground (
        arith,
        contains-keep (o.file_name ++ sig) (λ n. not (is_backup s n))
            (map (λ m. m.file_name) checks),
        contains-starts_with (o.file_name ++ sig) oldest.file_name checks prefixed other,
      ) in
      let (d, row, same_id, signed, restorable) = dto_of-signed ext mandatory found o id e in
      (
        dtos_of ext mandatory found (reverse (oldest ∷ newer)),
        d,
        rw (listed, list_rows) refl,
        IsIn-dtos_of ext mandatory found o d (reverse (oldest ∷ newer)) row
            (IsIn-reverse o (oldest ∷ newer) (inr i)),
        same_id,
        signed ∙ unseen,
        restorable ∙ ap (λ b. not mandatory || b) unseen ∙ ground arith,
      )
