-- ===== src/Sync/Names.antt =====
-- The names of remote objects: app/src/app/core/sync/sync-target.ts.
use easy_docket.Base.{
  ℕ, Bool, true, false, ◌&&◌, ◌||◌, Option, none, some, List, [], ◌∷◌, ◌++◌, if◌then◌else◌, leb,
  ltb, ◌==◌, length,
}
use easy_docket.Base.Text.{Text, codes, eq_text, leb_text, split}
use easy_docket.Dates.{is_digit}

-- `opsPrefix`
unfoldable pub ops_prefix : Text → Text
ops_prefix vault_id = codes "vaults/" ++ (vault_id ++ codes "/ops/")

-- `opsObjectName`
unfoldable pub ops_object_name : Text → Text → Text
ops_object_name vault_id head = ops_prefix vault_id ++ (head ++ codes ".edk")

-- `snapshotPrefix`
unfoldable pub snapshot_prefix : Text → Text
snapshot_prefix vault_id = codes "vaults/" ++ (vault_id ++ codes "/snapshots/")

-- `snapshotObjectName`
unfoldable pub snapshot_object_name : Text → Text → Text
snapshot_object_name vault_id watermark = snapshot_prefix vault_id ++ (watermark ++ codes ".edk")

-- What follows the last slash.
unfoldable pub last_part : Text → Option Text
last_part [] = none
last_part (c ∷ t) =
    let rest = last_part t in
    elim rest [ some part ↦ some part | none ↦ if c == b'/' then some t else none ]

-- The text before a suffix that it ends with.
unfoldable pub strip_suffix : Text → Text → Option Text
strip_suffix suffix [] = if eq_text [] suffix then some [] else none
strip_suffix suffix (c ∷ t) =
    let rest = strip_suffix suffix t in
    if eq_text (c ∷ t) suffix then some [] else elim rest [ none ↦ none | some u ↦ some (c ∷ u) ]

unfoldable pub every : (ℕ → Bool) → Text → Bool
every test [] = true
every test (c ∷ t) = test c && every test t

unfoldable pub is_hex : ℕ → Bool
is_hex c = is_digit c || (leb b'a' c && leb c b'f')

unfoldable pub is_alnum : ℕ → Bool
is_alnum c = is_digit c || (leb b'A' c && leb c b'Z') || (leb b'a' c && leb c b'z')

-- `[0-9]{19}-[0-9a-f]{4}-[A-Za-z0-9]+`
unfoldable pub is_stamp_parts : List Text → Bool
is_stamp_parts (physical ∷ counter ∷ device ∷ []) =
    length physical == 19
    && every is_digit physical
    && length counter == 4
    && every is_hex counter
    && ltb 0 (length device)
    && every is_alnum device
is_stamp_parts _ = false

unfoldable pub is_stamp : Text → Bool
is_stamp t = is_stamp_parts (split b'-' t)

-- `stampFromObjectName`
unfoldable pub stamp_from_object_name : Text → Option Text
stamp_from_object_name name = elim (last_part name) [
  | none ↦ none
  | some part ↦ elim (strip_suffix (codes ".edk") part) [
    | none ↦ none
    | some stamp ↦ if is_stamp stamp then some stamp else none
  ]
]

-- `coveredBy` of app/src/app/core/sync/sync.service.ts
unfoldable pub covered_by : Text → Text → Bool
covered_by name watermark = elim (stamp_from_object_name name) [
  | none ↦ false
  | some stamp ↦ leb_text stamp watermark
]
