-- ===== src/Checker/Host/Health.antt =====
-- What CheckHost says of a host.
use mathlib.Core.Path.{◌∙◌}
use we_term.Checker.Host.{
  check_host, check_usage, grade, load_climbs, load_value, percent_threshold, percent_value,
  usage_number,
}
use we_term.Config.Thresholds.{Thresholds}
use we_term.Model.Float.{FloatOps}
use we_term.Model.Host.{DiskUsage, HostMetrics}
use we_term.Model.Status.{CheckResult, is_warn, ok, warn}
use we_term.Prelude.{
  All, All-append, Bool, List, String, [], arith, count_if, count_if-append, if◌then◌else◌, map,
  not, refl, ℕ, ◌&&◌, ◌++◌, ◌+◌, ◌==◌, ◌∷◌, ◌≡◌, ◌⊎◌,
}
use we_term.Prelude.Int.{ltb_ℤ}
use we_term.Prelude.Text.{concat, itoa}

warns-grade :
    (breached : Bool) (field value threshold : String)
    → is_warn (grade breached field value threshold) ≡ breached
unfolding grade
warns-grade breached field value threshold = ground arith

-- one for a condition that holds
abbrev pub one_if : Bool → ℕ
one_if b = if b then 1 else 0

-- the warnings among two results, two stretches and five results
warns-host_shape :
    (a b c d e f g : CheckResult) (xs ys : List CheckResult)
    → count_if is_warn (a ∷ b ∷ (xs ++ (ys ++ (c ∷ d ∷ e ∷ f ∷ g ∷ []))))
      ≡ one_if (is_warn a)
        + one_if (is_warn b)
        + count_if is_warn xs
        + count_if is_warn ys
        + one_if (is_warn c)
        + one_if (is_warn d)
        + one_if (is_warn e)
        + one_if (is_warn f)
        + one_if (is_warn g)
warns-host_shape a b c d e f g xs ys = omega (
  arith,
  count_if-append is_warn xs (ys ++ (c ∷ d ∷ e ∷ f ∷ g ∷ [])),
  count_if-append is_warn ys (c ∷ d ∷ e ∷ f ∷ g ∷ []),
)

-- every status is OK or a warning
abbrev pub OkOrWarn : CheckResult → Type 0
OkOrWarn r = (r.status ≡ ok) ⊎ (r.status ≡ warn)

grade-OkOrWarn :
    (breached : Bool) (field value threshold : String)
    → OkOrWarn (grade breached field value threshold)
unfolding grade
grade-OkOrWarn breached field value threshold = ground arith

-- a service that is neither in its expected state nor absent
abbrev pub deviates : String → String → Bool
deviates state expected = not (state == expected) && not (state == "N/A")

module _ {F : Type 0} ⦃fl : FloatOps F⦄ where
  check_usages-OkOrWarn :
      (name : String) (threshold : F) (dus : List (DiskUsage F))
      → All OkOrWarn (map (check_usage name threshold) dus)
  unfolding check_usage grade
  check_usages-OkOrWarn name threshold [] = tt
  check_usages-OkOrWarn name threshold (du ∷ dus) =
      (ground arith, check_usages-OkOrWarn name threshold dus)

  -- CheckHost never gives an Unknown or a Notice.
  check_host-OkOrWarn : (h : HostMetrics F) (t : Thresholds F) → All OkOrWarn (check_host h t)
  unfolding check_host
  check_host-OkOrWarn h t = (
    grade-OkOrWarn _ _ _ _,
    (
      grade-OkOrWarn _ _ _ _,
      All-append OkOrWarn (map (check_usage "disk_usage" t.disk_usage) h.disk_usage) _
          (check_usages-OkOrWarn _ _ h.disk_usage)
          (All-append OkOrWarn (map (check_usage "inode_usage" t.inode_usage) h.inode_usage) _
            (check_usages-OkOrWarn _ _ h.inode_usage)
            (
              grade-OkOrWarn _ _ _ _,
              (
                grade-OkOrWarn _ _ _ _,
                (grade-OkOrWarn _ _ _ _, (grade-OkOrWarn _ _ _ _, (grade-OkOrWarn _ _ _ _, tt))),
              ),
            )),
    ),
  )

  -- the entries of a list that reach a threshold
  abbrev pub full_mounts : F → List (DiskUsage F) → ℕ
  full_mounts threshold dus = count_if (λ du. fl.less_eq threshold (usage_number du)) dus

  warns-check_usages :
      (name : String) (threshold : F) (dus : List (DiskUsage F))
      → count_if is_warn (map (check_usage name threshold) dus) ≡ full_mounts threshold dus
  unfolding check_usage grade
  warns-check_usages name threshold [] = refl
  warns-check_usages name threshold (du ∷ dus) =
      ground (arith, warns-check_usages name threshold dus)

  -- The warnings of a host are one for each of: the CPU and the memory at their thresholds, each
  -- file system and each inode table at theirs, too few open files, SELinux, firewalld and chronyd
  -- in another state than expected, and a climbing load; there are no others.
  pub warns-check_host :
      (h : HostMetrics F) (t : Thresholds F)
      → count_if is_warn (check_host h t)
        ≡ one_if (fl.less_eq t.cpu_usage h.cpu_usage)
          + one_if (fl.less_eq t.mem_usage h.mem_usage)
          + full_mounts t.disk_usage h.disk_usage
          + full_mounts t.inode_usage h.inode_usage
          + one_if (ltb_ℤ h.max_open_files t.max_open_files)
          + one_if (deviates h.selinux "Disabled")
          + one_if (deviates h.firewalld "inactive")
          + one_if (deviates h.chronyd "active")
          + one_if (load_climbs h)
  unfolding check_host
  warns-check_host h t =
      warns-host_shape
        (grade (fl.less_eq t.cpu_usage h.cpu_usage) "cpu_usage" (percent_value h.cpu_usage)
          (percent_threshold t.cpu_usage))
        (grade (fl.less_eq t.mem_usage h.mem_usage) "mem_usage" (percent_value h.mem_usage)
          (percent_threshold t.mem_usage))
        (grade (ltb_ℤ h.max_open_files t.max_open_files) "max_open_files" (itoa h.max_open_files)
          (concat ("< " ∷ itoa t.max_open_files ∷ [])))
        (grade (deviates h.selinux "Disabled") "selinux" h.selinux "期望 Disabled")
        (grade (deviates h.firewalld "inactive") "firewalld" h.firewalld "期望 inactive")
        (grade (deviates h.chronyd "active") "chronyd" h.chronyd "期望 active")
        (grade (load_climbs h) "load_average" (load_value h) "")
        (map (check_usage "disk_usage" t.disk_usage) h.disk_usage)
        (map (check_usage "inode_usage" t.inode_usage) h.inode_usage)
      ∙ simp (warns-grade, warns-check_usages)
