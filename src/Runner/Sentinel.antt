-- ===== src/Runner/Sentinel.antt =====
-- inspect/collector/replication.go: what CrossCheckSentinelMaster finds.
use Prim.Native.Char.{code}
use we_term.Prelude.{
  Bool, Bool-cases, List, String, ap, arith, eq_iff, eqb, false, if◌then◌else◌, inl, inr, none, not,
  refl, some, true, ◌&&◌, ◌==◌, ◌∷◌, ◌≡◌,
}
use we_term.Prelude.Sorting.{mem}
use we_term.Prelude.Text.{append}
use we_term.Runner.{before_last_colon, master_env_match, master_ip}

-- no character of the text is a colon
abbrev pub no_colon : String → Bool
no_colon String.[] = true
no_colon (String.◌∷◌ c s) = not (eqb (code c) 58) && no_colon s

before_last_colon-none : (s : String) → no_colon s ≡ true → before_last_colon s ≡ none
unfolding before_last_colon
before_last_colon-none String.[] h = refl
before_last_colon-none (String.◌∷◌ c s) h = ground (arith, before_last_colon-none s (ground arith))

before_last_colon-append :
    (ip port : String)
    → no_colon port ≡ true
    → before_last_colon (append ip (append ":" port)) ≡ some ip
unfolding before_last_colon append
before_last_colon-append String.[] port h = rw (before_last_colon-none port h) refl
before_last_colon-append (String.◌∷◌ c ip) port h = rw (before_last_colon-append ip port h) refl

append-not_empty : (s t : String) → (s == "") ≡ false → (append s t == "") ≡ false
unfolding append
append-not_empty String.[] t h = absurd (ground arith)
append-not_empty (String.◌∷◌ c s) t h = elim (Bool-cases (String.◌∷◌ c (append s t) == "")) [
  | inr e ↦ e
  | inl e ↦ absurd (cc ((eq_iff (String.◌∷◌ c (append s t)) "").0 e))
]

master_ip-append :
    (ip port : String)
    → (ip == "") ≡ false
    → no_colon port ≡ true
    → master_ip (append ip (append ":" port)) ≡ ip
unfolding master_ip
master_ip-append ip port i p = ground (arith, before_last_colon-append ip port p)

-- For a master that Sentinel reports as an address and a port, the cross-check says ok if the
-- address is one of the configured ones and warn if not, whatever the port is; the address may
-- have colons itself.
master_env_match_exact :
    (ip port m : String) (ms : List String)
    → (ip == "") ≡ false
    → no_colon port ≡ true
    → master_env_match (append ip (append ":" port)) (m ∷ ms)
      ≡ (if mem ip (m ∷ ms) then "ok" else "warn")
unfolding master_env_match
master_env_match_exact ip port m ms i p =
    rw (append-not_empty ip (append ":" port) i)
      (ap (λ x. if mem x (m ∷ ms) then "ok" else "warn") (master_ip-append ip port i p))
