-- ===== src/Sql.antt =====
-- The SQL statements of the services, on a table whose primary key is a text. A table is the list
-- of its rows in rowid order. Whether the driver carries a statement out is the caller's `Bool`;
-- a statement that fails leaves the table as it was.
pub mod Laws
pub mod Sequence
use mathlib.Core.Option
use tiny_aws.Go.Fmt.{scan_id}
use tiny_aws.Prelude.{
  ℕ, String, Bool, true, false, Option, none, some, List, [], ◌∷◌, ◌++◌, ◌==◌, if◌then◌else◌,
}

-- `_, err := db.Exec(…)`: the table after it, and whether `err == nil`. The statement itself is
-- `none` where it breaks a constraint.
unfoldable pub exec {ℓ} : {T : Type ℓ} → Bool → Option T → T → T × Bool
exec true (some t') t = (t', true)
exec true none t = (t, false)
exec false statement t = (t, false)

module _ {ℓ} {R : Type ℓ} (key : R → String) where
  -- `SELECT … WHERE key = ?`
  unfoldable pub find : String → List R → Option R
  find k [] = none
  find k (r ∷ t) = if key r == k then some r else find k t

  unfoldable pub has : String → List R → Bool
  has k [] = false
  has k (r ∷ t) = if key r == k then true else has k t

  -- `INSERT INTO … VALUES …`
  unfoldable pub insert : R → List R → Option (List R)
  unfolding has
  insert r t = if has (key r) t then none else some (t ++ r ∷ [])

  -- `INSERT … ON CONFLICT(key) DO NOTHING`
  unfoldable pub insert_or_ignore : R → List R → List R
  unfolding has
  insert_or_ignore r t = if has (key r) t then t else t ++ r ∷ []

  -- `INSERT … ON CONFLICT(key) DO UPDATE SET` of every other column
  unfoldable pub upsert : R → List R → List R
  upsert r [] = r ∷ []
  upsert r (x ∷ t) = if key x == key r then r ∷ t else x ∷ upsert r t

  -- `UPDATE … WHERE key = ?`
  unfoldable pub update : String → (R → R) → List R → List R
  update k f [] = []
  update k f (r ∷ t) = (if key r == k then f r else r) ∷ update k f t

  -- `DELETE … WHERE key = ?`
  unfoldable pub remove : String → List R → List R
  remove k [] = []
  remove k (r ∷ t) = let rest = remove k t in if key r == k then rest else r ∷ rest

-- `SELECT … WHERE test ORDER BY rowid LIMIT 1`
unfoldable pub select_first {ℓ} : {R : Type ℓ} → (R → Bool) → List R → Option R
select_first p [] = none
select_first p (r ∷ t) = if p r then some r else select_first p t

-- `SELECT … ORDER BY rowid DESC LIMIT 1`
unfoldable pub last_row {ℓ} : {R : Type ℓ} → List R → Option R
last_row [] = none
last_row (r ∷ t) = elim (last_row t) [ none ↦ some r | some x ↦ some x ]

abbrev scan_last : String → Option String → ℕ
scan_last prefix none = 0
scan_last prefix (some id) = scan_id prefix id

-- `SELECT id FROM … ORDER BY rowid DESC LIMIT 1`, read by `fmt.Sscanf`: the number that a sequence
-- starts from
unfoldable pub load_seq {ℓ} : {R : Type ℓ} → String → (R → String) → List R → ℕ
load_seq prefix key t = scan_last prefix (Option.map key (last_row t))
