-- ===== src/Collector/Disk/Filter.antt =====
-- inspect/collector/host.go: which file systems are reported, and which never are.
use we_term.Collector.Disk.{
  DfLine, df_line, disk_fs_blocklist, disk_loop, disk_step, disk_usage_of, explicit_paths,
  is_collected, parse_disk_usage, without_header,
}
use we_term.Model.Float.{FloatOps}
use we_term.Model.Host.{DiskUsage}
use we_term.Prelude.{
  All, Bool, Bool-cases, List, Option, String, [], ap, arith, false, inl, inr, is_empty, keep, map,
  none, refl, some, true, ◌||◌, ◌∙◌, ◌∷◌, ◌≡◌,
}
use we_term.Prelude.Sorting.{mem}
use we_term.Prelude.Words.{split_on}

-- the lines of `df` with at least seven columns, in order
abbrev add_line : Option DfLine → List DfLine → List DfLine
add_line none later = later
add_line (some l) later = l ∷ later

unfoldable pub df_lines : List String → List DfLine
df_lines [] = []
df_lines (line ∷ lines) = add_line (df_line line) (df_lines lines)

module _ {F : Type 0} (fl : FloatOps F) where
  -- what is reported of these lines
  abbrev pub reported : List String → Bool → List DfLine → List (DiskUsage F) × List String
  reported paths include_nfs ls = (
    map (disk_usage_of ⦃fl = fl⦄) (keep (is_collected paths include_nfs) ls),
    map (λ l. l.mount_point) ls,
  )

  disk_step_exact :
      (paths : List String) (include_nfs : Bool) (line : Option DfLine) (ls : List DfLine)
      → disk_step ⦃fl = fl⦄ paths include_nfs line (reported paths include_nfs ls)
        ≡ reported paths include_nfs (add_line line ls)
  unfolding disk_step
  disk_step_exact paths include_nfs none ls = refl
  disk_step_exact paths include_nfs (some l) ls =
      elim (Bool-cases (is_collected paths include_nfs l)) [
        | inl c ↦ simp c refl
        | inr c ↦ simp c refl
      ]

  disk_loop_exact :
      (paths : List String) (include_nfs : Bool) (lines : List String)
      → disk_loop ⦃fl = fl⦄ paths include_nfs lines ≡ reported paths include_nfs (df_lines lines)
  unfolding disk_loop df_lines
  disk_loop_exact paths include_nfs [] = refl
  disk_loop_exact paths include_nfs (line ∷ lines) =
      ap (disk_step ⦃fl = fl⦄ paths include_nfs (df_line line))
        (disk_loop_exact paths include_nfs lines)
      ∙ disk_step_exact paths include_nfs (df_line line) (df_lines lines)

  -- parseDiskUsage reports exactly the lines behind the header that the rules keep, in order, and
  -- the mount points of all lines with enough columns.
  parse_disk_usage_exact :
      (output mount_paths : String) (include_nfs : Bool)
      → parse_disk_usage ⦃fl = fl⦄ output mount_paths include_nfs
        ≡ reported
            (explicit_paths mount_paths)
            include_nfs
            (df_lines (without_header (split_on 10 output)))
  unfolding parse_disk_usage
  parse_disk_usage_exact output mount_paths include_nfs = disk_loop_exact _ include_nfs _

  -- an entry that may be reported
  abbrev pub IsAllowed : List String → DiskUsage F → Type 0
  IsAllowed paths d =
      (mem d.fs_type disk_fs_blocklist ≡ false)
      × ((is_empty paths || mem d.mount_point paths) ≡ true)

  collected-IsAllowed :
      (paths : List String) (include_nfs : Bool) (l : DfLine)
      → is_collected paths include_nfs l ≡ true
      → IsAllowed paths (disk_usage_of ⦃fl = fl⦄ l)
  unfolding is_collected disk_usage_of
  collected-IsAllowed paths include_nfs l c = elim (Bool-cases (mem l.fs_type disk_fs_blocklist)) [
    | inl b ↦ absurd (cc (simp b at c))
    | inr b ↦ (b, ground arith)
  ]

  reported-IsAllowed :
      (paths : List String) (include_nfs : Bool) (ls : List DfLine)
      → All (IsAllowed paths) (reported paths include_nfs ls).0
  reported-IsAllowed paths include_nfs [] = tt
  reported-IsAllowed paths include_nfs (l ∷ ls) =
      elim (Bool-cases (is_collected paths include_nfs l)) [
        | inl c ↦
            simp c
              (collected-IsAllowed paths include_nfs l c, reported-IsAllowed paths include_nfs ls)
        | inr c ↦ simp c (reported-IsAllowed paths include_nfs ls)
      ]

  -- Whatever `df` writes and whatever is configured, no file system of the blocklist is reported;
  -- and where mount paths are configured, every reported mount point is one of them.
  pub parse_disk_usage-IsAllowed :
      (output mount_paths : String) (include_nfs : Bool)
      → All
          (IsAllowed (explicit_paths mount_paths))
          (parse_disk_usage ⦃fl = fl⦄ output mount_paths include_nfs).0
  parse_disk_usage-IsAllowed output mount_paths include_nfs =
      rw (parse_disk_usage_exact output mount_paths include_nfs)
        (reported-IsAllowed (explicit_paths mount_paths) include_nfs _)
