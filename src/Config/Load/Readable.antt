-- ===== src/Config/Load/Readable.antt =====
-- inspect/config/config.go: when Load goes through, and what it then returns.
use we_term.Config.Env.{
  Env, LoadError, getenv, parse_float_env, parse_int_env, parse_positive_float_env,
}
use we_term.Config.Load.{load, load_thresholds}
use we_term.Model.Float.{FloatOps}
use we_term.Prelude.{
  Bool, Bool-cases, List, Option-cases, String, [], ap, false, if◌then◌else◌, inl, inr, none, not,
  refl, some, true, ◌&&◌, ◌==◌, ◌||◌, ◌∙◌, ◌∷◌, ◌≡◌,
}
use we_term.Prelude.Attempt.{Attempt, done, fail, is_done, ◌>>=◌}
use we_term.Prelude.Int.{ℤ}
use we_term.Prelude.Numerals.{atoi}

-- a variable that is not set, or names an integer
abbrev pub reads_int : Env → String → Bool
reads_int env key =
    getenv env key == "" || elim (atoi (getenv env key)) [ none ↦ false | some n ↦ true ]

step_int {ℓ} :
    {F : Type 0} {B : Type ℓ} (env : Env) (key : String) (default : ℤ)
    (f : ℤ → Attempt (LoadError F) B) (b : Bool)
    → ((n : ℤ) → is_done (f n) ≡ b)
    → is_done (parse_int_env env key default >>= f) ≡ (reads_int env key && b)
unfolding parse_int_env
step_int env key default f b h = elim (Bool-cases (getenv env key == "")) [
  | inl e ↦ rw e (h default)
  | inr e ↦ elim (Option-cases (atoi (getenv env key))) [
    | inl g ↦ rw (e, g) refl
    | inr g ↦ rw (e, g.1) (h g.0)
  ]
]

-- a variable that is not set, or names a number
abbrev reads_float : {F : Type 0} → FloatOps F → Env → String → Bool
reads_float fl env key = getenv env key == "" || (fl.parse_float (getenv env key)).1

-- the number that a variable gives
abbrev float_of : {F : Type 0} → FloatOps F → Env → String → F → F
float_of fl env key default =
    if getenv env key == "" then default else (fl.parse_float (getenv env key)).0

abbrev every : List Bool → Bool
every [] = true
every (b ∷ bs) = b && every bs

-- Every threshold variable is readable, and the acknowledge rate is positive.
abbrev pub readable : {F : Type 0} → FloatOps F → Env → Bool
readable fl env = every (
    reads_float fl env "INSPECT_CPU_THRESHOLD"
    ∷ reads_float fl env "INSPECT_DISK_THRESHOLD"
    ∷ reads_float fl env "INSPECT_INODE_THRESHOLD"
    ∷ reads_float fl env "INSPECT_MEM_THRESHOLD"
    ∷ reads_int env "INSPECT_MAX_OPEN_FILES"
    ∷ reads_int env "INSPECT_MYSQL_REPL_LAG_THRESHOLD"
    ∷ reads_int env "INSPECT_REDIS_REPL_IO_THRESHOLD"
    ∷ reads_int env "INSPECT_RABBITMQ_QUEUE_BACKLOG_THRESHOLD"
    ∷ reads_float fl env "INSPECT_RABBITMQ_STALLED_ACK_RATE_MAX"
    ∷ not (
        fl.less_eq
          (float_of fl env "INSPECT_RABBITMQ_STALLED_ACK_RATE_MAX" (fl.parse_float "0.01").0)
          fl.zero_float)
    ∷ reads_float fl env "INSPECT_RABBITMQ_STALLED_PUBLISH_RATE_MIN"
    ∷ reads_int env "INSPECT_ES_HEAP_THRESHOLD"
    ∷ reads_int env "INSPECT_ES_RAM_THRESHOLD"
    ∷ reads_int env "INSPECT_ES_UNASSIGNED_SHARDS_THRESHOLD"
    ∷ reads_int env "INSPECT_REDIS_CELERY_QUEUE_THRESHOLD"
    ∷ reads_int env "INSPECT_REDIS_MONITOR_QUEUE_THRESHOLD"
    ∷ reads_int env "INSPECT_DOCKER_EXITED_THRESHOLD"
    ∷ [])

module _ {F : Type 0} ⦃fl : FloatOps F⦄ where
  step_float {ℓ} :
      {B : Type ℓ} (env : Env) (key : String) (default : F) (f : F → Attempt (LoadError F) B)
      (b : Bool)
      → ((x : F) → is_done (f x) ≡ b)
      → is_done (parse_float_env env key default >>= f) ≡ (reads_float fl env key && b)
  unfolding parse_float_env
  step_float env key default f b h = elim (Bool-cases (getenv env key == "")) [
    | inl e ↦ rw e (h default)
    | inr e ↦ elim (Bool-cases (fl.parse_float (getenv env key)).1) [
      | inl g ↦ rw e (rw g (h (fl.parse_float (getenv env key)).0))
      | inr g ↦ rw e (rw g refl)
    ]
  ]

  step_positive {ℓ} :
      {B : Type ℓ} (env : Env) (key : String) (default : F) (f : F → Attempt (LoadError F) B)
      (b : Bool)
      → ((x : F) → is_done (f x) ≡ b)
      → is_done (parse_positive_float_env env key default >>= f) ≡ (
          reads_float fl env key
          && (not (fl.less_eq (float_of fl env key default) fl.zero_float) && b))
  unfolding parse_positive_float_env parse_float_env
  step_positive env key default f b h = elim (Bool-cases (getenv env key == "")) [
    | inl e ↦ rw e (elim (Bool-cases (fl.less_eq default fl.zero_float)) [
      | inl g ↦ rw g refl
      | inr g ↦ rw g (h default)
    ])
    | inr e ↦ rw e (elim (Bool-cases (fl.parse_float (getenv env key)).1) [
      | inr g ↦ rw g refl
      | inl g ↦
          rw g (elim (Bool-cases (fl.less_eq (fl.parse_float (getenv env key)).0 fl.zero_float)) [
            | inl k ↦ rw k refl
            | inr k ↦ rw k (h (fl.parse_float (getenv env key)).0)
          ])
    ])
  ]

is_done-load_thresholds :
    {F : Type 0} (fl : FloatOps F) (env : Env)
    → is_done (load_thresholds ⦃fl = fl⦄ env) ≡ readable fl env
unfolding load_thresholds
is_done-load_thresholds fl env = step_float ⦃fl = fl⦄ env "INSPECT_CPU_THRESHOLD" _ _ _ (λ x.
    step_float ⦃fl = fl⦄ env "INSPECT_DISK_THRESHOLD" _ _ _ (λ x.
      step_float ⦃fl = fl⦄ env "INSPECT_INODE_THRESHOLD" _ _ _ (λ x.
        step_float ⦃fl = fl⦄ env "INSPECT_MEM_THRESHOLD" _ _ _ (λ x.
          step_int env "INSPECT_MAX_OPEN_FILES" _ _ _ (λ x.
            step_int env "INSPECT_MYSQL_REPL_LAG_THRESHOLD" _ _ _ (λ x.
              step_int env "INSPECT_REDIS_REPL_IO_THRESHOLD" _ _ _ (λ x.
                step_int env "INSPECT_RABBITMQ_QUEUE_BACKLOG_THRESHOLD" _ _ _ (λ x.
                  step_positive ⦃fl = fl⦄ env "INSPECT_RABBITMQ_STALLED_ACK_RATE_MAX" _ _ _ (λ x.
                    step_float ⦃fl = fl⦄ env "INSPECT_RABBITMQ_STALLED_PUBLISH_RATE_MIN" _ _ _ (λ x.
                      step_int env "INSPECT_ES_HEAP_THRESHOLD" _ _ _ (λ x.
                        step_int env "INSPECT_ES_RAM_THRESHOLD" _ _ _ (λ x.
                          step_int env "INSPECT_ES_UNASSIGNED_SHARDS_THRESHOLD" _ _ _ (λ x.
                            step_int env "INSPECT_REDIS_CELERY_QUEUE_THRESHOLD" _ _ _ (λ x.
                              step_int env "INSPECT_REDIS_MONITOR_QUEUE_THRESHOLD" _ _ _ (λ x.
                                step_int env "INSPECT_DOCKER_EXITED_THRESHOLD" _ _ _
                                  (λ x. refl))))))))))))))))

is_done->>= {ℓ κ} :
    {A : Type ℓ} {B : Type κ} {E : Type 0} (m : Attempt E A) (f : A → Attempt E B) (b : Bool)
    → ((x : A) → is_done (f x) ≡ b)
    → is_done (m >>= f) ≡ (is_done m && b)
is_done->>= (done a) f b h = h a
is_done->>= (fail e) f b h = refl

-- Load succeeds exactly when every variable that it reads as a number is unset, empty or a number,
-- and the acknowledge rate is positive.
pub load_succeeds :
    {F : Type 0} (fl : FloatOps F) (env : Env) (output_dir : String)
    → is_done (load ⦃fl = fl⦄ env output_dir) ≡ (
        readable fl env
        && (reads_int env "INSPECT_SSH_PORT"
            && (reads_int env "INSPECT_RABBITMQ_API_TIMEOUT_SEC" && true)))
unfolding load
load_succeeds fl env output_dir =
    is_done->>= (load_thresholds ⦃fl = fl⦄ env) _ _ (λ t.
      step_int env "INSPECT_SSH_PORT" _ _ _
        (λ p. step_int env "INSPECT_RABBITMQ_API_TIMEOUT_SEC" _ _ _ (λ a. refl)))
    ∙ ap
        (λ b.
          b
          && (reads_int env "INSPECT_SSH_PORT"
              && (reads_int env "INSPECT_RABBITMQ_API_TIMEOUT_SEC" && true)))
        (is_done-load_thresholds fl env)
