-- ===== src/Shelf.antt =====
-- Files, folders and the trash (server/src/handlers/files.rs, and the trash of server/src/handlers/storage.rs): the
-- entries below the storage root with what is neither file nor folder, the table of the trash, and
-- the calls on whole entries.
pub mod Subtree
pub mod Entry
pub mod Transfer
pub mod Trash
pub mod Frame
pub mod Restored
pub mod Apart
pub mod Confined
pub mod Refused
pub mod Listing
use nexa_drive.Prelude.{
  ℕ, Bool, true, false, not, ◌&&◌, ◌||◌, Option, none, some, List, [], ◌∷◌, if◌then◌else◌,
}
use nexa_drive.Text.{Text}
use nexa_drive.Error.{AppError, Result, ok, err, internal}
use nexa_drive.Error.Exec.{Exec, check}
use nexa_drive.Paths.{FilePath}
use nexa_drive.Upload.Files.{Node, file, folder}
use nexa_drive.Upload.World.{World, Moment}
use nexa_drive.Storage.Tree.{Directory}

-- A symbolic link, or an entry that is neither a file nor a folder.
pub data Special : Type 0 where
  symlink other : Special

-- `std::fs::FileType`, of the entry itself.
pub data FileType : Type 0 where
  file_type dir_type symlink_type other_type : FileType

-- A row of `trash_items`.
pub record TrashItem : Type 0 where
  pub id : ℕ
  pub user_id : ℕ
  pub original_path : Text
  pub trash_path : FilePath
  pub name : Text
  pub kind : FileType
  pub size_bytes : ℕ

pub record Vault : Type 0 where
  pub world : World
  pub specials : FilePath → Option Special
  pub trash_items : List TrashItem

-- The calls of these handlers that can fail for reasons outside of the model, beside those of `Call`.
pub data Op : Type 0 where
  stat_entry stat_destination rename_entry read_length copy_entries insert_trash insert_tombstone
        select_trash delete_tombstone delete_trash remove_entry :
      Op

-- What a request meets: the uploads' moment, the failing calls, the id of `Uuid::new_v4`, the trees that walks
-- meet, where paths lead (`canonicalize`, and the node behind a link), which folders are empty, and which entries
-- a copy or a removal reaches before it fails.
pub record Pass : Type 0 where
  pub moment : Moment
  pub fails : Op → Bool
  pub new_id : ℕ
  pub tree : FilePath → Directory
  pub canonical : FilePath → Option FilePath
  pub link_leads : FilePath → Option Node
  pub is_vacant : FilePath → Bool
  pub reached : FilePath → Bool

abbrev pub attempt_op : Pass → Op → AppError → Exec Vault (Unit {0})
attempt_op t o e = check (not (t.fails o)) e

abbrev pub back_in : {A : Type 0} → Vault → Result A × World → Result A × Vault
back_in v (r, w) = (r, record v { world = w })

-- A handler of the uploads' world.
unfoldable pub in_world : {A : Type 0} → Exec World A → Exec Vault A
in_world m v = back_in v (m v.world)

abbrev pub special_type : Special → FileType
special_type symlink = symlink_type
special_type other = other_type

abbrev pub node_type : Node → FileType
node_type (file b) = file_type
node_type folder = dir_type

abbrev pub type_of_node : Option Node → Option FileType
type_of_node none = none
type_of_node (some n) = some (node_type n)

abbrev pub type_of : Option Special → Option Node → Option FileType
type_of (some s) n = some (special_type s)
type_of none n = type_of_node n

-- `fs::symlink_metadata(p)`, its type.
unfoldable pub type_at : FilePath → Vault → Option FileType
type_at p v = type_of (v.specials p) (v.world.files p)

abbrev pub is_symlink : FileType → Bool
is_symlink symlink_type = true
is_symlink _ = false

abbrev pub is_dir : FileType → Bool
is_dir dir_type = true
is_dir _ = false

abbrev pub is_file_type : FileType → Bool
is_file_type file_type = true
is_file_type _ = false

-- `p.exists()` and `p.is_dir()` follow a link.
unfoldable pub leads_to : Pass → FilePath → Vault → Option FileType
leads_to t p v = elim (type_at p v) [
  | none ↦ none
  | some k ↦ if is_symlink k then type_of_node (t.link_leads p) else some k
]

abbrev pub is_some : Option FileType → Bool
is_some none = false
is_some (some k) = true

abbrev pub is_some_dir : Option FileType → Bool
is_some_dir none = false
is_some_dir (some k) = is_dir k

-- A walk's result; the walk always returns one.
abbrev pub walked : {A : Type 0} → Option (Result A) → Result A
walked none = err internal
walked (some r) = r
