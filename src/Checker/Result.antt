-- ===== src/Checker/Result.antt =====
-- What the rules share: building a result, and the loops over slices whose items are changed in
-- place.
pub mod Loops
use we_term.Model.Status.{CheckResult, CheckStatus}
use we_term.Prelude.{List, String, [], ◌++◌, ◌∷◌}

-- model.CheckResult{…}
abbrev pub result : String → String → CheckStatus → String → CheckResult
result field value status threshold = record {
  field = field;
  value = value;
  status = status;
  threshold = threshold;
}

-- the results of a loop, in order
unfoldable pub collect {ℓ} : {A : Type ℓ} → (A → List CheckResult) → List A → List CheckResult
collect f [] = []
collect f (x ∷ xs) = f x ++ collect f xs

-- the results and the changed items of a loop over a slice, both in order
unfoldable pub check_each {ℓ} :
    {A : Type ℓ} → (A → List CheckResult × A) → List A → List CheckResult × List A
check_each f [] = ([], [])
check_each f (x ∷ xs) = ((f x).0 ++ (check_each f xs).0, (f x).1 ∷ (check_each f xs).1)
