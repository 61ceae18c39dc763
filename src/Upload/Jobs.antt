-- ===== src/Upload/Jobs.antt =====
-- The table `upload_jobs` (server/migrations) and the statements that the handlers run on it.
use nexa_drive.Prelude.{
  ℕ, ◌+◌, ◌-◌, ◌≡◌, refl, Bool, true, false, ◌&&◌, ◌||◌, not, Option, none, some, List, [], ◌∷◌,
  map, arith, ◌==◌, ltb, if◌then◌else◌, Bool-cases, inl, inr,
}
use nexa_drive.Text.{Text}
use nexa_drive.Error.{Message}

pub data Status : Type 0 where
  receiving staging completed failed : Status

-- What `last_error` holds: a literal, or the text of an error.
pub data JobError : Type 0 where
  cancelled expired : JobError
  from_error : Message → JobError

pub record Job : Type 0 where
  pub id : ℕ
  pub user_id : ℕ
  pub path : Text
  pub size_bytes : ℕ
  pub status : Status
  pub updated_at : ℕ
  pub bytes_received : ℕ
  pub total_bytes : Option ℕ
  pub checksum_sha256 : Option Text
  pub last_error : Option JobError

unfoldable pub is_completed : Status → Bool
is_completed completed = true
is_completed _ = false

-- `status IN ('receiving','staging')`
unfoldable pub is_live : Status → Bool
is_live receiving = true
is_live staging = true
is_live _ = false

-- `WHERE id=$1 AND user_id=$2`
unfoldable pub is_row : ℕ → ℕ → Job → Bool
is_row id user j = j.id == id && j.user_id == user

unfoldable pub find : ℕ → ℕ → List Job → Option Job
find id user [] = none
find id user (j ∷ js) = if is_row id user j then some j else find id user js

unfoldable pub update : ℕ → ℕ → (Job → Job) → List Job → List Job
update id user f = map (λ j. if is_row id user j then f j else j)

unfoldable pub has_id : ℕ → List Job → Bool
has_id id [] = false
has_id id (j ∷ js) = j.id == id || has_id id js

-- A job of another account under the same id is not found.
pub find-not_has_id : (id user : ℕ) (js : List Job) → has_id id js ≡ false → find id user js ≡ none
unfolding find has_id is_row
find-not_has_id id user [] h = refl
find-not_has_id id user (j ∷ js) h = ground (arith, find-not_has_id id user js)

abbrev pub map_option : (Job → Job) → Option Job → Option Job
map_option f none = none
map_option f (some j) = some (f j)

-- The row of a job after an update that keeps its key.
pub find-update :
    (id user : ℕ) (f : Job → Job) (js : List Job)
    → ((j : Job) → ((f j).id ≡ j.id) × ((f j).user_id ≡ j.user_id))
    → find id user (update id user f js) ≡ map_option f (find id user js)
unfolding find update
find-update id user f [] k = refl
find-update id user f (j ∷ js) k = elim (Bool-cases (is_row id user j)) [
  | inl e ↦
      let e' : is_row id user (f j) ≡ true =
        unfold is_row in rw ((k j).0, (k j).1) (unfold is_row in e) in
      rw (e, e') refl
  | inr e ↦ rw (e, e) (find-update id user f js k)
]

-- The bytes of one job that are still to come: `MAX(COALESCE(total_bytes,size_bytes) -
-- bytes_received, 0)`.
unfoldable pub outstanding : Job → ℕ
outstanding j = elim j.total_bytes [
  | none ↦ j.size_bytes - j.bytes_received
  | some t ↦ t - j.bytes_received
]

unfoldable pub is_excluded : Option ℕ → Job → Bool
is_excluded none j = false
is_excluded (some id) j = j.id == id

unfoldable pub reserved_upload_bytes : ℕ → Option ℕ → List Job → ℕ
reserved_upload_bytes user exclude [] = 0
reserved_upload_bytes user exclude (j ∷ js) =
    (if j.user_id == user && (is_live j.status && not (is_excluded exclude j))
      then outstanding j
      else 0)
    + reserved_upload_bytes user exclude js

-- Bytes of the jobs of a user that completed after `cutoff`.
unfoldable pub bytes_completed_since : ℕ → ℕ → List Job → ℕ
bytes_completed_since user cutoff [] = 0
bytes_completed_since user cutoff (j ∷ js) =
    (if j.user_id == user && (is_completed j.status && ltb cutoff j.updated_at)
      then j.size_bytes
      else 0)
    + bytes_completed_since user cutoff js
