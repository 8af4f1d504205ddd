-- ===== src/Collector/Probe/Classes.antt =====
-- inspect/collector/probe.go: errors always get a class.
use we_term.Collector.Probe.{
  ErrorClass, Failure, ProbeResult, class_of_text, class_text, classify, classify_mongo,
  classify_mysql, classify_redis, curl_err_class, err_auth, err_network, err_none, err_protocol,
  err_timeout, err_unknown, is_none_class, run_probe,
}
use we_term.Prelude.{arith, false, if◌then◌else◌, refl, some, ◌==◌, ◌≡◌}
use we_term.Prelude.Int.{ℤ}

-- the class is one of those that a report shows
abbrev IsClassed : ErrorClass → Type 0
IsClassed c = is_none_class c ≡ false

-- only the empty class has an empty text
pub class_text-not_empty : (c : ErrorClass) → (class_text c == "") ≡ is_none_class c
unfolding class_text
class_text-not_empty err_none = refl
class_text-not_empty err_network = refl
class_text-not_empty err_auth = refl
class_text-not_empty err_protocol = refl
class_text-not_empty err_timeout = refl
class_text-not_empty err_unknown = refl

classify-IsClassed : (e : Failure) → IsClassed (classify e)
unfolding classify class_of_text
classify-IsClassed e = ground arith

-- Whatever an error is, none of the classifiers gives it the empty class: the general one and those
-- of Redis, MySQL, MongoDB and curl.
pub all_classifiers-IsClassed :
    (e : Failure)
    → IsClassed (classify e)
      × IsClassed (classify_redis e)
      × IsClassed (classify_mysql e)
      × IsClassed (classify_mongo e)
      × IsClassed (curl_err_class e)
unfolding classify_redis classify_mysql classify_mongo curl_err_class
all_classifiers-IsClassed e =
    let general = classify-IsClassed e in
    (
      general,
      ground (arith, general),
      ground (arith, general),
      ground (arith, general),
      ground (arith, general),
    )

-- A probe that ends with an error is reported with that error and a class: the one that it chose
-- itself, and the general one of the error where it chose none.
run_probe-IsClassed :
    (elapsed : ℤ) (r : ProbeResult) (e : Failure)
    → r.err ≡ some e
    → ((run_probe elapsed r).err ≡ some e)
      × IsClassed (run_probe elapsed r).err_class
      × ((run_probe elapsed r).err_class
          ≡ (if is_none_class r.err_class then classify e else r.err_class))
unfolding run_probe
run_probe-IsClassed elapsed r e h =
    (ground arith, ground (arith, classify-IsClassed e), ground arith)
