-- ===== src/Session/Expiry.antt =====
-- The deadlines of instance Pods, kept in their labels, and times.
use training_platform.Shared.{
  Bytes, codes, ◌/◌, ◌^◌, ◌≡◌, ◌≢◌, refl, Bool, false, not, ◌&&◌, ◌||◌, none, some, [], arith,
  if◌then◌else◌, str_eq, str_eq_iff,
}
use training_platform.Shared.Int.{ℤ, pos, negsuc, ◌≤ℤ◌, ltb_ℤ, eqb_ℤ}
use training_platform.Shared.Decimal.{sscanf_d}
use training_platform.Shared.Table.{Table, lookup, insert, lookup-insert}

unfoldable pub managed_by_label : Bytes
managed_by_label = codes "app.kubernetes.io/managed-by"

unfoldable pub managed_by_value : Bytes
managed_by_value = codes "training-platform"

unfoldable pub session_id_label : Bytes
session_id_label = codes "training.kalw/session-id"

unfoldable pub expires_at_label : Bytes
expires_at_label = codes "training.kalw/expires-at"

unfoldable pub idle_expires_at_label : Bytes
idle_expires_at_label = codes "training.kalw/idle-expires-at"

-- labels[key] in Go: the empty text when the key is missing.
unfoldable pub label : Table Bytes → Bytes → Bytes
label labels key = elim (lookup key labels) [ none ↦ [] | some v ↦ v ]

-- A time.Time or a time.Duration, in nanoseconds; Time.Unix rounds down to seconds.
unfoldable pub unix : ℤ → ℤ
unix (pos n) = pos (n / 10 ^ 9)
unix (negsuc n) = negsuc (n / 10 ^ 9)

-- The switch of effectiveExpiry.
unfoldable pub sooner : ℤ → ℤ → ℤ
sooner hard idle =
    if eqb_ℤ hard (pos 0)
    then idle
    else if eqb_ℤ idle (pos 0)
    then hard
    else if ltb_ℤ idle hard
    then idle
    else hard

-- effectiveExpiry
unfoldable pub effective_expiry : Table Bytes → ℤ
effective_expiry labels =
    sooner (sscanf_d (label labels expires_at_label))
      (sscanf_d (label labels idle_expires_at_label))

-- exp != 0 && exp < now
unfoldable pub passed : ℤ → ℤ → Bool
passed exp now = not (eqb_ℤ exp (pos 0)) && ltb_ℤ exp now

-- A Pod is past its effective expiry exactly if one of its two deadlines is set and past.
pub passed-effective_expiry :
    (labels : Table Bytes) (now : ℤ)
    → passed (effective_expiry labels) now ≡ (
        passed (sscanf_d (label labels expires_at_label)) now
        || passed (sscanf_d (label labels idle_expires_at_label)) now)
unfolding passed effective_expiry sooner
passed-effective_expiry labels now = ground arith

pub sooner-le_hard : (hard idle : ℤ) → hard ≢ pos 0 → sooner hard idle ≤ℤ hard
unfolding sooner
sooner-le_hard hard idle h = ground arith

pub idle_label_ne : str_eq idle_expires_at_label expires_at_label ≡ false
unfolding idle_expires_at_label expires_at_label str_eq
idle_label_ne = refl

-- A label just written is read back, and the other deadline is not touched.
pub label-insert_self : (labels : Table Bytes) (k v : Bytes) → label (insert k v labels) k ≡ v
unfolding label
label-insert_self labels k v = ground (arith, lookup-insert k k v labels, str_eq_iff k k)

pub label-insert_ne :
    (labels : Table Bytes) (k j v : Bytes)
    → str_eq k j ≡ false
    → label (insert k v labels) j ≡ label labels j
unfolding label
label-insert_ne labels k j v h = ground (arith, lookup-insert k j v labels)
