-- ===== src/Collector/HostOutput.antt =====
-- inspect/collector/host.go: parseHostOutput and CollectAllHosts.
use we_term.Collector.Disk.{parse_disk_usage}
use we_term.Collector.Host.{
  append_disk_warning, no_stats, parse_cpu_usage, parse_free, parse_ss_output,
}
use we_term.Collector.Sections.{parse_sections}
use we_term.Model.Float.{FloatOps}
use we_term.Model.Host.{HostMetrics}
use we_term.Prelude.{
  Bool, List, Option, String, [], if◌then◌else◌, is_empty, map, none, some, ◌==◌, ◌∷◌,
}
use we_term.Prelude.Assoc.{lookup}
use we_term.Prelude.Attempt.{Attempt, done, fail}
use we_term.Prelude.Fields.{fields}
use we_term.Prelude.Int.{pos, ℤ}
use we_term.Prelude.Numerals.{atoi_value}
use we_term.Prelude.Search.{cut, has_prefix}
use we_term.Prelude.Text.{concat}
use we_term.Prelude.Words.{split_on, trim_space}

-- what stands before the first line break and behind it
abbrev first_line_cut : String → Option (String × String)
first_line_cut output = cut "\n" output

-- strings.TrimSpace of a section, where it is there
unfoldable pub section_or : String → String → List (String × String) → String
section_or unchanged tag sections = elim (lookup tag sections) [
  | none ↦ unchanged
  | some s ↦ trim_space s
]

-- strconv.Atoi of a section, 0 where it is missing
unfoldable pub section_number : String → List (String × String) → ℤ
section_number tag sections = elim (lookup tag sections) [
  | none ↦ pos 0
  | some s ↦ atoi_value (trim_space s)
]

module _ {F : Type 0} ⦃fl : FloatOps F⦄ where
  -- model.HostMetrics{IP: ip}
  unfoldable pub blank_metrics : String → HostMetrics F
  blank_metrics ip = record {
    ip = ip;
    cpu_usage = fl.zero_float;
    mem_usage = fl.zero_float;
    load_avg1 = fl.zero_float;
    load_avg5 = fl.zero_float;
    load_avg15 = fl.zero_float;
    swap_usage = fl.zero_float;
    disk_usage = [];
    inode_usage = [];
    max_open_files = pos 0;
    process_total = pos 0;
    ntpd = "";
    chronyd = "";
    selinux = "";
    firewalld = "";
    proxy = pos 0;
    iptables = "";
    network = no_stats;
    run_days = pos 0;
    version = "";
    kernel = "";
    memory = fl.zero_float;
    swap = fl.zero_float;
    core = pos 0;
    manufacturer = "";
    product = "";
    serial = "";
    error = "";
  }

  unfoldable pub with_load : Option String → HostMetrics F → HostMetrics F
  with_load none m = m
  with_load (some s) m = elim (fields s) [
    | a ∷ b ∷ c ∷ more ↦ record m {
      load_avg1 = (fl.parse_float a).0;
      load_avg5 = (fl.parse_float b).0;
      load_avg15 = (fl.parse_float c).0;
    }
    | _ ↦ m
  ]

  unfoldable pub with_free : Option String → HostMetrics F → HostMetrics F
  with_free none m = m
  with_free (some s) m = record m { mem_usage = (parse_free s).0; swap_usage = (parse_free s).1 }

  unfoldable pub with_disks : String → Bool → Option String → HostMetrics F → HostMetrics F
  with_disks mount_paths include_nfs none m = m
  with_disks mount_paths include_nfs (some s) m =
      let found = parse_disk_usage s mount_paths include_nfs in
      if trim_space s == "" then m else record m {
        disk_usage = found.0;
        error =
            if is_empty found.0 then append_disk_warning m.error mount_paths found.1 else m.error;
      }

  unfoldable pub with_inodes : String → Bool → Option String → HostMetrics F → HostMetrics F
  with_inodes mount_paths include_nfs none m = m
  with_inodes mount_paths include_nfs (some s) m =
      if trim_space s == ""
      then m
      else record m { inode_usage = (parse_disk_usage s mount_paths include_nfs).0 }

  unfoldable pub with_run_days : Option String → HostMetrics F → HostMetrics F
  with_run_days none m = m
  with_run_days (some s) m = elim (fields s) [
    | [] ↦ m
    | a ∷ more ↦ record m {
      run_days = fl.truncate (fl.over (fl.parse_float a).0 (fl.of_int (pos 86400)));
    }
  ]

  -- the body of the loop over the lines of MEMINFO
  unfoldable pub meminfo_line : String → HostMetrics F → HostMetrics F
  meminfo_line line m = elim (fields line) [
    | a ∷ b ∷ more ↦
        let megabytes = fl.over (fl.parse_float b).0 (fl.of_int (pos 1024)) in
        if has_prefix line "MemTotal:"
        then record m { memory = megabytes }
        else if has_prefix line "SwapTotal:"
        then record m { swap = megabytes }
        else m
    | _ ↦ m
  ]

  unfoldable pub meminfo_lines : List String → HostMetrics F → HostMetrics F
  meminfo_lines [] m = m
  meminfo_lines (line ∷ lines) m = meminfo_lines lines (meminfo_line line m)

  unfoldable pub with_meminfo : Option String → HostMetrics F → HostMetrics F
  with_meminfo none m = m
  with_meminfo (some s) m = meminfo_lines (split_on 10 s) m

  -- strings.SplitN(s, "---", 3)
  unfoldable pub with_hardware : Option String → HostMetrics F → HostMetrics F
  with_hardware none m = m
  with_hardware (some s) m = elim (cut "---" s) [
    | none ↦ m
    | some (manufacturer, behind) ↦ elim (cut "---" behind) [
      | none ↦ m
      | some (product, serial) ↦ record m {
        manufacturer = trim_space manufacturer;
        product = trim_space product;
        serial = trim_space serial;
      }
    ]
  ]

  -- the sections that are copied as they are, or as a number
  unfoldable pub with_plain : List (String × String) → HostMetrics F → HostMetrics F
  with_plain sections m = record m {
    max_open_files = section_number "ULIMIT" sections;
    process_total = section_number "PROCS" sections;
    ntpd = section_or "" "NTPD" sections;
    chronyd = section_or "" "CHRONYD" sections;
    selinux = section_or "" "SELINUX" sections;
    firewalld = section_or "" "FIREWALLD" sections;
    iptables = section_or "" "IPTABLES" sections;
    network = elim (lookup "SS" sections) [ none ↦ no_stats | some s ↦ parse_ss_output s ];
    version = section_or "" "VERSION" sections;
    kernel = section_or "" "KERNEL" sections;
    core = section_number "CPUCOUNT" sections;
  }

  -- parseHostOutput
  unfoldable pub parse_host_output : String → String → String → String → Bool → HostMetrics F
  parse_host_output ip cpu_stat1 raw_output mount_paths include_nfs =
      elim (first_line_cut raw_output) [
        | none ↦ record (blank_metrics ip) { error = "incomplete output" }
        | some (cpu_stat2, batch_output) ↦
            of_sections (parse_sections batch_output) (record (blank_metrics ip) {
              cpu_usage = parse_cpu_usage cpu_stat1 (trim_space cpu_stat2);
            })
      ]
    where
      of_sections : List (String × String) → HostMetrics F → HostMetrics F
      of_sections sections m = with_hardware (lookup "DMIDECODE" sections) (
          with_meminfo (lookup "MEMINFO" sections) (
            with_run_days (lookup "UPTIME" sections) (
              with_plain sections (
                with_inodes mount_paths include_nfs (lookup "DFI" sections) (
                  with_disks mount_paths include_nfs (lookup "DF" sections) (
                    with_free (lookup "FREE" sections)
                      (with_load (lookup "LOADAVG" sections) m)))))))

  -- CollectAllHosts for one host: what `client.Run` answers to the first command, and the output of
  -- the second one, whose error is not looked at. The goroutines write to one slot each.
  unfoldable pub collect_host :
      String → Bool → Attempt String String → String → String → HostMetrics F
  collect_host mount_paths include_nfs (fail e) second ip = record (blank_metrics ip) {
    error = concat ("SSH error: " ∷ e ∷ []);
  }
  collect_host mount_paths include_nfs (done first) second ip =
      parse_host_output ip (trim_space first) second mount_paths include_nfs

  -- CollectAllHosts
  unfoldable pub collect_all_hosts :
      (String → Attempt String String)
      → (String → String)
      → List String
      → String
      → Bool
      → List (HostMetrics F)
  collect_all_hosts first second hosts mount_paths include_nfs =
      map (λ ip. collect_host mount_paths include_nfs (first ip) (second ip) ip) hosts
