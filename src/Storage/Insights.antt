-- ===== src/Storage/Insights.antt =====
-- The insights into a user's storage (server/src/handlers/storage.rs): files by type, by size and by day, and the
-- five largest.
pub mod Largest
pub mod Longest
pub mod Shares
use nexa_drive.Prelude.{
  ℕ, zero, suc, ◌+◌, ◌-◌, ◌*◌, ◌/◌, Bool, true, false, ◌&&◌, Option, none, some, List, [], ◌∷◌,
  ◌++◌, ltb, leb, if◌then◌else◌, length, String,
}
use nexa_drive.Text.{Text, codes, one_of, join, replace}
use nexa_drive.Text.Decimal.{saturating_add}
use nexa_drive.Error.{Result, ok, err, AppError, io, guard, ◌>>=◌, ◌>>◌}
use nexa_drive.Paths.{FilePath}
use nexa_drive.Paths.Mime.{lower_extension}
use nexa_drive.Upload.Staging.{is_staging_name}
use nexa_drive.Upload.World.{I64}
use nexa_drive.Storage.Tree.{
  Metadata, Reading, present, missing, failing, Directory, Walker, walk_tree,
}
use nexa_drive.Storage.Stats.{account_quota, map_walk, stop_at_error}

-- A row of a breakdown: its key, its label, and the files that fell into it.
pub record Share : Type 0 where
  pub key : Text
  pub label : Text
  pub bytes : ℕ
  pub count : ℕ

pub record LargestFile : Type 0 where
  pub name : Text
  pub path : Text
  pub size_bytes : ℕ
  pub modified_at : Option ℕ

pub record Insights : Type 0 where
  pub used_bytes : ℕ
  pub file_count : ℕ
  pub type_breakdown : List Share
  pub activity_last_7_days : List Share
  pub size_distribution : List Share
  pub largest_files : List LargestFile

-- The clock, as days since 1970, and how the `chrono` crate writes a day and its weekday.
pub record Calendar : Type 0 where
  pub today : ℕ
  pub date_text : ℕ → Text
  pub weekday_text : ℕ → Text

abbrev pub literals : List String → List Text
literals [] = []
literals (s ∷ ss) = codes s ∷ literals ss

abbrev pub image_extensions : List Text
image_extensions = literals (
    "jpg" ∷ "jpeg" ∷ "png" ∷ "gif" ∷ "webp" ∷ "heic" ∷ "heif" ∷ "avif" ∷ "bmp" ∷ "tif" ∷ "tiff"
    ∷ "svg" ∷ [])

abbrev pub video_extensions : List Text
video_extensions =
    literals ("mp4" ∷ "mov" ∷ "m4v" ∷ "mkv" ∷ "webm" ∷ "avi" ∷ "3gp" ∷ "mpeg" ∷ "mpg" ∷ "ts" ∷ [])

abbrev pub audio_extensions : List Text
audio_extensions =
    literals ("mp3" ∷ "m4a" ∷ "aac" ∷ "wav" ∷ "flac" ∷ "ogg" ∷ "opus" ∷ "wma" ∷ "aiff" ∷ [])

abbrev pub document_extensions : List Text
document_extensions = literals (
    "pdf" ∷ "doc" ∷ "docx" ∷ "xls" ∷ "xlsx" ∷ "ppt" ∷ "pptx" ∷ "txt" ∷ "md" ∷ "rtf" ∷ "csv" ∷ "epub"
    ∷ "odt" ∷ "ods" ∷ "odp" ∷ [])

abbrev pub archive_extensions : List Text
archive_extensions = literals ("zip" ∷ "7z" ∷ "rar" ∷ "tar" ∷ "gz" ∷ "bz2" ∷ "xz" ∷ "tgz" ∷ [])

unfoldable pub index_of_extension : Text → ℕ
index_of_extension e =
    if one_of image_extensions e
    then 0
    else if one_of video_extensions e
    then 1
    else if one_of audio_extensions e
    then 2
    else if one_of document_extensions e
    then 3
    else if one_of archive_extensions e
    then 4
    else 5

unfoldable pub storage_type_index : FilePath → ℕ
storage_type_index path = index_of_extension (lower_extension path)

unfoldable pub size_index : ℕ → ℕ
size_index size =
    if ltb size 1048576
    then 0
    else if ltb size 10485760
    then 1
    else if ltb size 104857600
    then 2
    else 3

abbrev pub empty_share : Text → Text → Share
empty_share key label = record { key = key; label = label; bytes = 0; count = 0 }

abbrev pub type_definitions : List Share
type_definitions =
    empty_share (codes "images") (codes "Images")
    ∷ empty_share (codes "videos") (codes "Videos")
    ∷ empty_share (codes "audio") (codes "Audio")
    ∷ empty_share (codes "documents") (codes "Documents")
    ∷ empty_share (codes "archives") (codes "Archives")
    ∷ empty_share (codes "other") (codes "Other")
    ∷ []

abbrev pub size_definitions : List Share
size_definitions =
    empty_share (codes "under_1mb") (codes "Under 1 MB")
    ∷ empty_share (codes "1_to_10mb") (codes "1–10 MB")
    ∷ empty_share (codes "10_to_100mb") (codes "10–100 MB")
    ∷ empty_share (codes "over_100mb") (codes "100 MB and above")
    ∷ []

unfoldable pub first_day : Calendar → ℕ
first_day c = c.today - 6

-- The days from `day` on, `n` of them.
unfoldable pub days_from : Calendar → ℕ → ℕ → List Share
days_from c day zero = []
days_from c day (suc n) =
    empty_share (c.date_text day) (c.weekday_text day) ∷ days_from c (day + 1) n

unfoldable pub grow : ℕ → Share → Share
grow size s = record s { bytes = saturating_add s.bytes size; count = saturating_add s.count 1 }

-- One more file at an index of a breakdown. (The indices of the callers are in range.)
unfoldable pub add_at : ℕ → ℕ → List Share → List Share
add_at i size [] = []
add_at zero size (s ∷ ss) = grow size s ∷ ss
add_at (suc i) size (s ∷ ss) = s ∷ add_at i size ss

-- The day of the last change, where it is one of the seven.
unfoldable pub add_activity : Calendar → Option ℕ → ℕ → List Share → List Share
add_activity c none size days = days
add_activity c (some modified) size days =
    if leb (first_day c) (modified / 86400) && ltb (modified / 86400 - first_day c) 7
    then add_at (modified / 86400 - first_day c) size days
    else days

-- The size of the smallest file, the last argument where no other is smaller.
unfoldable pub smallest : List LargestFile → ℕ → ℕ
smallest [] least = least
smallest (f ∷ fs) least =
    if ltb f.size_bytes least then smallest fs f.size_bytes else smallest fs least

-- The first file of a size is replaced.
unfoldable pub replace_first : ℕ → LargestFile → List LargestFile → List LargestFile
replace_first size new [] = []
replace_first size new (f ∷ fs) =
    let rest = replace_first size new fs in if leb f.size_bytes size then new ∷ fs else f ∷ rest

unfoldable pub replace_smallest : LargestFile → List LargestFile → List LargestFile
replace_smallest new [] = []
replace_smallest new (f ∷ fs) =
    if ltb (smallest fs f.size_bytes) new.size_bytes
    then replace_first (smallest fs f.size_bytes) new (f ∷ fs)
    else f ∷ fs

unfoldable pub keep_largest : LargestFile → List LargestFile → List LargestFile
keep_largest new files =
    if ltb (length files) 5 then files ++ new ∷ [] else replace_smallest new files

unfoldable pub add_largest : FilePath → Text → Metadata → List LargestFile → List LargestFile
add_largest at name m files =
    if ltb 0 m.len
    then keep_largest
        (record {
          name = name;
          path = replace 92 47 (join 47 (at ++ name ∷ []));
          size_bytes = m.len;
          modified_at = m.modified;
        })
        files
    else files

unfoldable pub add_file : Calendar → FilePath → Text → Metadata → Insights → Insights
add_file c at name m i = record {
  used_bytes = saturating_add i.used_bytes m.len;
  file_count = saturating_add i.file_count 1;
  type_breakdown = add_at (storage_type_index (at ++ name ∷ [])) m.len i.type_breakdown;
  activity_last_7_days = add_activity c m.modified m.len i.activity_last_7_days;
  size_distribution = add_at (size_index m.len) m.len i.size_distribution;
  largest_files = add_largest at name m i.largest_files;
}

unfoldable pub read_file : Calendar → FilePath → Text → Reading → Insights → Result Insights
read_file c at name (present m) i = ok (add_file c at name m i)
read_file c at name missing i = ok i
read_file c at name failing i = err io

unfoldable pub insights_walker : Calendar → Walker Insights
insights_walker c = record {
  is_lenient = true;
  visit = λ at name r i. if is_staging_name name then ok i else read_file c at name r i;
}

unfoldable pub no_insights : Calendar → Insights
no_insights c = record {
  used_bytes = 0;
  file_count = 0;
  type_breakdown = type_definitions;
  activity_last_7_days = days_from c (first_day c) 7;
  size_distribution = size_definitions;
  largest_files = [];
}

-- `sort_by_key(Reverse(size_bytes))`: a stable sort, the largest first.
unfoldable pub insert_largest : LargestFile → List LargestFile → List LargestFile
insert_largest f [] = f ∷ []
insert_largest f (g ∷ gs) =
    let rest = insert_largest f gs in if leb g.size_bytes f.size_bytes then f ∷ g ∷ gs else g ∷ rest

unfoldable pub sort_largest : List LargestFile → List LargestFile
sort_largest [] = []
sort_largest (f ∷ fs) = insert_largest f (sort_largest fs)

unfoldable pub sorted : Result Insights → Result Insights
sorted r = r >>= λ i. ok (record i { largest_files = sort_largest i.largest_files })

unfoldable pub tree_insights : Calendar → Directory → Option (Result Insights)
tree_insights c root = map_walk sorted (walk_tree (insights_walker c) root (no_insights c))

pub record StorageResponse : Type 0 where
  pub insights : Insights
  pub quota_bytes : Option I64

unfoldable pub with_quota : Result (Option (Option I64)) → Result Insights → Result StorageResponse
with_quota rows stats = do
  i ← stats
  quota ← account_quota rows
  ok (record { insights = i; quota_bytes = quota })

unfoldable pub storage_insights :
    Calendar → Bool → Result (Option (Option I64)) → Directory → Option (Result StorageResponse)
storage_insights c can_create rows root =
    stop_at_error (guard can_create io) (map_walk (with_quota rows) (tree_insights c root))
