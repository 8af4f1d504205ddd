-- ===== src/Config/Env.antt =====
-- inspect/config/config.go: how one environment variable is read.
use Prim.Native.Char.{Char, code}
use we_term.Model.Float.{FloatOps}
use we_term.Prelude.{
  All, Bool, Bool-cases, List, Option, String, [], eqb, false, if◌then◌else◌, inl, inr, leb, none,
  not, some, true, ℕ, ◌&&◌, ◌+◌, ◌==◌, ◌||◌, ◌∷◌, ◌≡◌,
}
use we_term.Prelude.Attempt.{Attempt, done, fail, ◌>>=◌}
use we_term.Prelude.Int.{ℤ}
use we_term.Prelude.Numerals.{atoi}
use we_term.Prelude.Words.{Trimmed, split_on, trim_space, trim_space-Trimmed}

-- os.LookupEnv
abbrev pub Env : Type 0
Env = String → Option String

-- os.Getenv: "" for a variable that is not set
abbrev pub getenv : Env → String → String
getenv env key = elim (env key) [ none ↦ "" | some v ↦ v ]

-- The errors of Load, with what stands in their messages.
pub data LoadError (F : Type 0) : Type 0 where
  invalid_float : String → String → LoadError F
  invalid_int : String → String → LoadError F
  not_positive : String → F → LoadError F

-- the loop of parseIPList and of splitVHostList over the pieces
unfoldable pub trimmed_items : List String → List String
trimmed_items [] = []
trimmed_items (p ∷ ps) =
    let rest = trimmed_items ps in let t = trim_space p in if not (t == "") then t ∷ rest else rest

-- splitVHostList; 44 is the code of ','
unfoldable pub split_vhost_list : String → List String
unfolding trimmed_items
split_vhost_list val = trimmed_items (split_on 44 val)

-- parseIPList
unfoldable pub parse_ip_list : String → List String
unfolding trimmed_items
parse_ip_list val = if val == "" then [] else trimmed_items (split_on 44 val)

-- firstNonEmpty
unfoldable pub first_non_empty : List String → String
first_non_empty [] = ""
first_non_empty (v ∷ vs) = let rest = first_non_empty vs in if not (v == "") then v else rest

-- envOrDefault
unfoldable pub env_or_default : Env → String → String → String
env_or_default env key default = let v = getenv env key in if not (v == "") then v else default

-- parseIntEnv
unfoldable pub parse_int_env : {F : Type 0} → Env → String → ℤ → Attempt (LoadError F) ℤ
parse_int_env env key default =
    let v = getenv env key in
    if v == ""
    then done default
    else elim (atoi v) [ none ↦ fail (invalid_int key v) | some n ↦ done n ]

-- parseStalledVHostBlacklist, without its warning on stderr
unfoldable pub parse_stalled_blacklist : Env → List String → List String
parse_stalled_blacklist env default = elim (env "INSPECT_RABBITMQ_STALLED_VHOST_BLACKLIST") [
  | some v ↦ split_vhost_list v
  | none ↦ elim (env "INSPECT_RABBITMQ_NO_CONSUMER_VHOST_BLACKLIST") [
    | some v ↦ split_vhost_list v
    | none ↦ default
  ]
]

-- the code of the lower-case letter, for A to Z
abbrev lower_code : Char → ℕ
lower_code c = if leb 65 (code c) && leb (code c) 90 then code c + 32 else code c

-- Whether strings.ToLower of the text is the word. The words that parseBoolEnv looks for have no
-- letter that ToLower gives for a letter outside ASCII.
abbrev lowers_to : String → String → Bool
lowers_to String.[] String.[] = true
lowers_to String.[] (String.◌∷◌ d w) = false
lowers_to (String.◌∷◌ c s) String.[] = false
lowers_to (String.◌∷◌ c s) (String.◌∷◌ d w) = eqb (lower_code c) (code d) && lowers_to s w

-- parseBoolEnv
unfoldable pub parse_bool_env : Env → String → Bool → Bool
parse_bool_env env key default =
    let v = trim_space (getenv env key) in
    if v == ""
    then default
    else lowers_to v "1" || lowers_to v "true" || lowers_to v "yes" || lowers_to v "on"

module _ {F : Type 0} ⦃fl : FloatOps F⦄ where
  -- parseFloatEnv
  unfoldable pub parse_float_env : Env → String → F → Attempt (LoadError F) F
  parse_float_env env key default =
      let v = getenv env key in
      if v == ""
      then done default
      else let read = fl.parse_float v in if read.1 then done read.0 else fail (invalid_float key v)

  -- the test of parsePositiveFloatEnv on a number that was read
  abbrev require_positive : String → F → Attempt (LoadError F) F
  require_positive key f = if fl.less_eq f fl.zero_float then fail (not_positive key f) else done f

  -- parsePositiveFloatEnv
  unfoldable pub parse_positive_float_env : Env → String → F → Attempt (LoadError F) F
  parse_positive_float_env env key default =
      parse_float_env env key default >>= require_positive key

-- An item of a list of addresses: not empty, and without spaces around it.
abbrev pub IsItem : String → Type 0
IsItem s = ((s == "") ≡ false) × Trimmed s

trimmed_items-IsItem : (ps : List String) → All IsItem (trimmed_items ps)
unfolding trimmed_items
trimmed_items-IsItem [] = tt
trimmed_items-IsItem (p ∷ ps) = elim (Bool-cases (trim_space p == "")) [
  | inl e ↦ rw e (trimmed_items-IsItem ps)
  | inr e ↦ rw e ((e, trim_space-Trimmed p), trimmed_items-IsItem ps)
]

-- Every item of a parsed address list is a text that is not empty and has no space around it.
pub parse_ip_list-IsItem : (val : String) → All IsItem (parse_ip_list val)
unfolding parse_ip_list
parse_ip_list-IsItem val = elim (Bool-cases (val == "")) [
  | inl e ↦ rw e tt
  | inr e ↦ rw e (trimmed_items-IsItem (split_on 44 val))
]
