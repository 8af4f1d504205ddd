-- ===== src/Collector/RabbitApi/CurlClass.antt =====
-- inspect/collector/rabbitmq.go: the class of a failed call of the management interface.
use we_term.Collector.Probe.{Failure, class_of_text, classify, curl_err_class}
use we_term.Collector.RabbitApi.{CurlFailure, plain_failure, rmq_api}
use we_term.Prelude.{String, [], false, refl, ◌==◌, ◌∷◌, ◌≡◌}
use we_term.Prelude.Attempt.{fail}
use we_term.Prelude.Text.{concat}
use we_term.Prelude.Words.{trim_space}

-- Where curl wrote to stderr, the error that rmqAPI makes has lost the exit code: its class is the
-- one that its text alone gives, whatever the exit code was.
curl_err_class-rmq_api :
    (endpoint : String) (e : CurlFailure)
    → (e.stderr == "") ≡ false
    → (f : Failure) × (rmq_api endpoint (fail e) ≡ fail f) × (curl_err_class f ≡ class_of_text f)
unfolding rmq_api plain_failure curl_err_class classify
curl_err_class-rmq_api endpoint e h =
    (plain_failure (concat (e.failure.text ∷ ": " ∷ trim_space e.stderr ∷ [])), rw h refl, refl)
