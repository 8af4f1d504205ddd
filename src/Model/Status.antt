-- ===== src/Model/Status.antt =====
-- inspect/model/types.go: the status of a rule check, its result, and the summary of a run.
use we_term.Prelude.{Bool, String, false, true, ℕ}

-- CheckStatus. `unset` is Go's "" of a cell that no rule has coloured.
pub data CheckStatus : Type 0 where
  unset ok warn unknown notice : CheckStatus

pub record CheckResult : Type 0 where
  pub field : String
  pub value : String
  pub status : CheckStatus
  pub threshold : String

pub record CheckSummary : Type 0 where
  pub total : ℕ
  pub ok_count : ℕ
  pub warn_count : ℕ
  pub unknown_count : ℕ

-- r.Status == s, for the constants of the type
abbrev pub is_ok : CheckResult → Bool
is_ok r = elim r.status [ ok ↦ true | _ ↦ false ]

abbrev pub is_warn : CheckResult → Bool
is_warn r = elim r.status [ warn ↦ true | _ ↦ false ]

abbrev pub is_unknown : CheckResult → Bool
is_unknown r = elim r.status [ unknown ↦ true | _ ↦ false ]

abbrev pub is_notice : CheckResult → Bool
is_notice r = elim r.status [ notice ↦ true | _ ↦ false ]
