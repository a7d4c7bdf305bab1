-- ===== src/FileSize.antt =====
-- `mb_getsize` of src/micbench-utils.c. What the file system answers is an argument.
use micbench.Base.{ℕ, Bool, Option, none, some, if◌then◌else◌, not}
use micbench.Base.Int.{ℤ, pos, negsuc}
use micbench.Base.Text.{Text}

pub data OpenMode : Type 0 where
  o_rdonly o_wronly o_rdwr : OpenMode

-- What fstat(2) says of an open file; for a block device, what ioctl(BLKGETSIZE64) says of it.
pub data Stat : Type 0 where
  regular : ℕ → Stat
  block_device : Option ℕ → Stat
  other_file : Stat

pub record FileSystem : Type 0 where
  pub open_ok : OpenMode → Text → Bool
  pub fstat : Text → Option Stat
  -- fopen(3) for writing
  pub create_ok : Text → Bool

pub stat_size : Option Stat → ℤ
stat_size none = negsuc 0
stat_size (some (regular size)) = pos size
stat_size (some (block_device none)) = negsuc 0
stat_size (some (block_device (some dev_sz))) = pos dev_sz
stat_size (some other_file) = negsuc 0

-- `mb_getsize`: -1 if the size is not to be had.
unfoldable pub getsize : FileSystem → Text → ℤ
unfolding stat_size
getsize fs path = if not (fs.open_ok o_rdonly path) then negsuc 0 else stat_size (fs.fstat path)
