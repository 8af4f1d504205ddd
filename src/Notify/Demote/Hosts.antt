-- ===== src/Notify/Demote/Hosts.antt =====
-- demotePending of inspect/notify/notify.go on the checks of the single hosts, which are what the
-- HTML and the JSON report show of a host.
use mathlib.Core.Path.{ap₂}
use we_term.Model.Report.{HostCheckResult, InspectReport}
use we_term.Model.Status.{CheckResult, is_warn}
use we_term.Notify.Demote.{demote_check, demote_host, demote_pending}
use we_term.Notify.Demote.Agrees.{keep-unflagged_nil, unflagged}
use we_term.Notify.Item.{AlertItem, PendingItem, item_key}
use we_term.Notify.Persistence.{apply_persistence, confirmed}
use we_term.Notify.Persistence.Filter.{apply_persistence_exact, apply_persistence_off, has_key}
use we_term.Prelude.{
  Bool, Bool-cases, List, String, [], arith, if◌then◌else◌, inl, inr, keep, map, not, refl, sym, ℕ,
  ◌&&◌, ◌++◌, ◌∙◌, ◌∷◌, ◌≡◌,
}
use we_term.Prelude.Assoc.{lookup, lookup_or}
use we_term.Prelude.Int.{ltb_ℤ, pos, ℤ}

-- the warnings among the checks of one host, as items of that host
abbrev pub host_items : String → List CheckResult → List AlertItem
host_items ip [] = []
host_items ip (c ∷ cs) =
    let rest = host_items ip cs in
    if is_warn c
    then record { host = ip; field = c.field; value = c.value; threshold = c.threshold } ∷ rest
    else rest

-- the warnings that the report shows at its hosts
abbrev pub shown_on_hosts : {F : Type 0} → List (HostCheckResult F) → List AlertItem
shown_on_hosts [] = []
shown_on_hosts (h ∷ hs) = host_items h.metrics.ip h.checks ++ shown_on_hosts hs

-- The item is held back in a run with these raw alerts: its key is among them and was not yet
-- there for N runs.
abbrev pub is_held : List AlertItem → List (String × PendingItem) → ℤ → ℕ → AlertItem → Bool
is_held raw prev n now it =
    ltb_ℤ (pos 1) n && (has_key (item_key it) raw && not (confirmed prev n now (item_key it)))

pub keep-append {ℓ} :
    {A : Type ℓ} (p : A → Bool) (xs ys : List A) → keep p (xs ++ ys) ≡ keep p xs ++ keep p ys
keep-append p [] ys = refl
keep-append p (x ∷ xs) ys = ground (arith, keep-append p xs ys)

host_items-demote :
    (pk : List (String × Bool)) (ip : String) (cs : List CheckResult)
    → host_items ip (map (demote_check pk ip) cs) ≡ keep (unflagged pk) (host_items ip cs)
unfolding demote_check
host_items-demote pk ip [] = refl
host_items-demote pk ip (c ∷ cs) = ground (arith, host_items-demote pk ip cs)

shown_on_hosts-demote :
    {F : Type 0} (pk : List (String × Bool)) (hs : List (HostCheckResult F))
    → shown_on_hosts (map (demote_host pk) hs) ≡ keep (unflagged pk) (shown_on_hosts hs)
unfolding demote_host
shown_on_hosts-demote pk [] = refl
shown_on_hosts-demote pk (h ∷ hs) =
    ap₂ ◌++◌ (host_items-demote pk h.metrics.ip h.checks) (shown_on_hosts-demote pk hs)
    ∙ sym (keep-append (unflagged pk) (host_items h.metrics.ip h.checks) (shown_on_hosts hs))

pub keep_all_same :
    (p q : AlertItem → Bool)
    → ((it : AlertItem) → p it ≡ q it)
    → (its : List AlertItem) → keep p its ≡ keep q its
keep_all_same p q h [] = refl
keep_all_same p q h (it ∷ its) = ground (arith, h it, keep_all_same p q h its)

pub unflagged-held :
    (raw : List AlertItem) (prev : List (String × PendingItem)) (n : ℤ) (now : ℕ) (it : AlertItem)
    → unflagged (apply_persistence raw prev n now).pending_keys it ≡ not (is_held raw prev n now it)
unflagged-held raw prev n now it = elim (Bool-cases (ltb_ℤ (pos 1) n)) [
  | inl on ↦ ground (arith, on, (apply_persistence_exact raw prev n now (item_key it) on).2)
  | inr off ↦
      rw ((apply_persistence_off raw prev n now (ground arith)).2, off)
        (unfold lookup_or lookup in refl)
]

shown_on_hosts-pending :
    {F : Type 0} (report : InspectReport F) (pk : List (String × Bool))
    → shown_on_hosts (demote_pending report pk).hosts
      ≡ keep (unflagged pk) (shown_on_hosts report.hosts)
unfolding demote_pending
shown_on_hosts-pending report [] = sym (keep-unflagged_nil [] _ refl)
shown_on_hosts-pending report (e ∷ pk) = shown_on_hosts-demote (e ∷ pk) report.hosts

-- After the demotion a report shows at its hosts those warnings that it showed before and that are
-- not held back, in their order.
pub shown_on_hosts-confirmed :
    {F : Type 0} (report : InspectReport F) (raw : List AlertItem)
    (prev : List (String × PendingItem)) (n : ℤ) (now : ℕ)
    → shown_on_hosts (demote_pending report (apply_persistence raw prev n now).pending_keys).hosts
      ≡ keep (λ it. not (is_held raw prev n now it)) (shown_on_hosts report.hosts)
shown_on_hosts-confirmed report raw prev n now =
    shown_on_hosts-pending report _
    ∙ keep_all_same _ _ (unflagged-held raw prev n now) (shown_on_hosts report.hosts)
