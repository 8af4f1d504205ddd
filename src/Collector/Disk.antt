-- ===== src/Collector/Disk.antt =====
-- inspect/collector/host.go: which file systems of `df` are reported.
pub mod Filter
use we_term.Model.Float.{FloatOps}
use we_term.Model.Host.{DiskUsage}
use we_term.Prelude.{
  Bool, List, Option, String, [], false, if◌then◌else◌, is_empty, keep, map, none, not, some, ◌==◌,
  ◌∷◌,
}
use we_term.Prelude.Fields.{fields, join}
use we_term.Prelude.Search.{has_prefix, trim_suffix}
use we_term.Prelude.Sorting.{mem}
use we_term.Prelude.Words.{split_on, trim_space}

-- diskFsBlocklist, diskFsAllowlist and diskFsNFS
abbrev pub disk_fs_blocklist : List String
disk_fs_blocklist =
    "tmpfs" ∷ "devtmpfs" ∷ "overlay" ∷ "overlayfs" ∷ "squashfs" ∷ "shm" ∷ "proc" ∷ "sysfs"
    ∷ "cgroup" ∷ "cgroup2" ∷ "autofs" ∷ "binfmt_misc" ∷ "mqueue" ∷ "pstore" ∷ "debugfs" ∷ "tracefs"
    ∷ "ramfs" ∷ "rpc_pipefs" ∷ "fusectl" ∷ "configfs" ∷ "securityfs" ∷ "hugetlbfs" ∷ "fuse.lxcfs"
    ∷ "fuse.gvfsd-fuse" ∷ "devpts" ∷ "nsfs" ∷ []

abbrev pub disk_fs_allowlist : List String
disk_fs_allowlist =
    "xfs" ∷ "ext2" ∷ "ext3" ∷ "ext4" ∷ "btrfs" ∷ "zfs" ∷ "f2fs" ∷ "ufs" ∷ "jfs" ∷ "reiserfs"
    ∷ "vfat" ∷ []

abbrev pub disk_fs_nfs : List String
disk_fs_nfs = "nfs" ∷ "nfs4" ∷ "cifs" ∷ "smbfs" ∷ "smb3" ∷ []

-- shouldCollectFs
unfoldable pub should_collect_fs : String → Bool → Bool
should_collect_fs fs_type include_nfs =
    if mem fs_type disk_fs_blocklist
    then false
    else if mem fs_type disk_fs_nfs
    then include_nfs
    else mem fs_type disk_fs_allowlist

-- one line of `df`, by its columns
pub record DfLine : Type 0 where
  pub fs_type : String
  pub usage : String
  pub mount_point : String

-- the columns of a line, none where there are fewer than seven
unfoldable pub df_line : String → Option DfLine
df_line line = columns (fields line)
  where
    columns : List String → Option DfLine
    columns (f0 ∷ f1 ∷ f2 ∷ f3 ∷ f4 ∷ f5 ∷ f6 ∷ more) =
        some (record { fs_type = f1; usage = f5; mount_point = join " " (f6 ∷ more) })
    columns _ = none

-- the header that df emits is skipped, where it stands first
unfoldable pub without_header : List String → List String
without_header [] = []
without_header (line ∷ lines) =
    if has_prefix (trim_space line) "Filesystem" then lines else line ∷ lines

-- explicitPaths
unfoldable pub explicit_paths : String → List String
explicit_paths mount_paths = keep (λ p. not (p == "")) (map trim_space (split_on 58 mount_paths))

-- whether a line is kept
unfoldable pub is_collected : List String → Bool → DfLine → Bool
is_collected paths include_nfs l =
    if mem l.fs_type disk_fs_blocklist
    then false
    else if not (is_empty paths)
    then mem l.mount_point paths
    else should_collect_fs l.fs_type include_nfs

module _ {F : Type 0} ⦃fl : FloatOps F⦄ where
  unfoldable pub disk_usage_of : DfLine → DiskUsage F
  disk_usage_of l = record {
    mount_point = l.mount_point;
    fs_type = l.fs_type;
    usage = l.usage;
    usage_float = (fl.parse_float (trim_suffix "%" l.usage)).0;
  }

  -- the body of the loop over the lines, with what the later lines give
  unfoldable pub disk_step :
      List String
      → Bool
      → Option DfLine
      → List (DiskUsage F) × List String
      → List (DiskUsage F) × List String
  disk_step paths include_nfs none later = later
  disk_step paths include_nfs (some l) later = (
    if is_collected paths include_nfs l then disk_usage_of l ∷ later.0 else later.0,
    l.mount_point ∷ later.1,
  )

  unfoldable pub disk_loop : List String → Bool → List String → List (DiskUsage F) × List String
  disk_loop paths include_nfs [] = ([], [])
  disk_loop paths include_nfs (line ∷ lines) =
      disk_step paths include_nfs (df_line line) (disk_loop paths include_nfs lines)

  -- parseDiskUsage: the usages, and all mount points seen
  unfoldable pub parse_disk_usage : String → String → Bool → List (DiskUsage F) × List String
  parse_disk_usage output mount_paths include_nfs =
      disk_loop (explicit_paths mount_paths) include_nfs (without_header (split_on 10 output))
