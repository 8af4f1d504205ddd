-- ===== src/Collector/Probe.antt =====
-- inspect/collector/probe.go with the classifiers of the components: an error gets one of a fixed
-- number of classes.
pub mod Classes
use we_term.Prelude.{Bool, Option, String, eqb, false, if◌then◌else◌, none, some, true, ℕ, ◌||◌}
use we_term.Prelude.Case.{contains_folded, lower_code, upper_code}
use we_term.Prelude.Int.{eqb_ℤ, pos, ℤ}

pub data ErrorClass : Type 0 where
  err_none err_network err_auth err_protocol err_timeout err_unknown : ErrorClass

-- string(class)
unfoldable pub class_text : ErrorClass → String
class_text err_none = ""
class_text err_network = "network"
class_text err_auth = "auth"
class_text err_protocol = "protocol"
class_text err_timeout = "timeout"
class_text err_unknown = "unknown"

-- An error as the program looks at it: its text, and what errors.Is and errors.As find in it.
pub record Failure : Type 0 where
  -- err.Error()
  pub text : String
  -- context.DeadlineExceeded or context.Canceled
  pub cancelled : Bool
  -- a net.Error whose Timeout() is true, a *net.OpError, a *net.DNSError
  pub net_timeout : Bool
  pub net_op : Bool
  pub dns : Bool
  -- strconv.ErrSyntax or strconv.ErrRange
  pub conversion : Bool
  -- the Number of a *mysql.MySQLError, the Code of a mongo.CommandError
  pub mysql_number : Option ℕ
  pub mongo_code : Option ℤ
  -- the exit code and the stderr of an *exec.ExitError
  pub exit_code : Option ℤ

module _ (e : Failure) where
  abbrev says : String → Bool
  says phrase = contains_folded lower_code e.text phrase

  -- the class that the text of an error gives
  unfoldable pub class_of_text : ErrorClass
  class_of_text =
      if says "i/o timeout" || says "deadline exceeded"
      then err_timeout
      else if says "connection refused"
          || says "no route to host"
          || says "network is unreachable"
          || says "no such host"
      then err_network
      else if says "access denied"
          || says "authentication failed"
          || says "noauth"
          || says "wrongpass"
      then err_auth
      else err_unknown

  -- Classify, of an error that is not nil
  unfoldable pub classify : ErrorClass
  unfolding class_of_text
  classify =
      if e.cancelled
      then err_timeout
      else if e.net_timeout
      then err_timeout
      else if e.net_op
      then err_network
      else if e.dns
      then err_network
      else class_of_text

  -- classifyRedis
  unfoldable pub classify_redis : ErrorClass
  classify_redis =
      if contains_folded upper_code e.text "NOAUTH"
        || contains_folded upper_code e.text "WRONGPASS"
        || contains_folded upper_code e.text "INVALID PASSWORD"
      then err_auth
      else if e.conversion
      then err_protocol
      else classify

  -- classifyMySQL
  unfoldable pub classify_mysql : ErrorClass
  classify_mysql = elim e.mysql_number [
    | none ↦ classify
    | some n ↦ if eqb n 1045 || eqb n 1044 || eqb n 1698 then err_auth else err_protocol
  ]

  -- classifyMongo
  unfoldable pub classify_mongo : ErrorClass
  classify_mongo = elim e.mongo_code [
    | none ↦ classify
    | some n ↦ if eqb_ℤ n (pos 13) || eqb_ℤ n (pos 18) then err_auth else err_protocol
  ]

  -- curlErrClass
  unfoldable pub curl_err_class : ErrorClass
  curl_err_class = elim e.exit_code [
    | none ↦ classify
    | some n ↦
        if eqb_ℤ n (pos 6) || eqb_ℤ n (pos 7)
        then err_network
        else if eqb_ℤ n (pos 22)
        then err_protocol
        else if eqb_ℤ n (pos 28)
        then err_timeout
        else if eqb_ℤ n (pos 67)
        then err_auth
        else err_unknown
  ]

-- ProbeResult; the latency is a number of nanoseconds
pub record ProbeResult : Type 0 where
  pub target : String
  pub latency : ℤ
  pub err : Option Failure
  pub err_class : ErrorClass

abbrev pub is_none_class : ErrorClass → Bool
is_none_class c = elim c [ err_none ↦ true | _ ↦ false ]

-- RunProbe, of a probe that ends with the result `r` after the time `elapsed`
unfoldable pub run_probe : ℤ → ProbeResult → ProbeResult
run_probe elapsed r = elim r.err [
  | none ↦ timed
  | some e ↦ if is_none_class r.err_class then record timed { err_class = classify e } else timed
]
  where
    timed : ProbeResult
    timed = if eqb_ℤ r.latency (pos 0) then record r { latency = elapsed } else r
