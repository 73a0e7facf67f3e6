-- ===== src/Tests/Configs.antt =====
-- The configuration: an empty one with its defaults, and a valid one.
use diki_operator.Common.{◌≡◌, ◌↔◌, refl, true, false, none, some, arith}
use diki_operator.Common.{[], ◌∷◌, eq_iff, if◌then◌else◌}
use diki_operator.Common.Int.{ℤ, pos, is_negative}
use diki_operator.Api.Config.{DikiOperatorConfiguration}
use diki_operator.Config.Defaults
use diki_operator.Config.Defaults.{set_object_defaults, or_default}
use diki_operator.Config.Defaults.Complete.{IsRecommending}
use diki_operator.Config.Validation
use diki_operator.Config.Validation.{validate}
use diki_operator.Config.Validation.Valid.{IsChecking, IsValid, validate_iff}

-- A library that recommends to take part in the election.
abbrev pub electing : Defaults.Library
electing = record {
  recommended = λ l. record l { leader_elect = some true };
  info_level = "info";
  format_json = "json";
}

pub electing-IsRecommending : IsRecommending electing
electing-IsRecommending = record {
  again = λ l. refl;
  lock_kept = λ l h. refl;
  names_kept = λ l namespace name. refl;
  level_named = λ p. ground (arith, eq_iff "info" "");
  format_named = λ p. ground (arith, eq_iff "json" "");
}

abbrev pub empty_config : DikiOperatorConfiguration
empty_config = record {
  log = record { level = ""; format = "" };
  leader_election = none;
  controllers = record {
    compliance_scan = record {
      sync_period = none;
      diki_runner = record { namespace = ""; labels = []; pod_completion_timeout = none };
    };
  };
  server = record {
    webhooks = record {
      server = record { port = pos 0; bind_address = "" };
      tls = record { server_cert_dir = "/certs" };
    };
    health_probes = none;
    metrics = none;
  };
}

abbrev pub checking : Validation.Library
checking = record {
  validate_leader_election = λ l path. [];
  validate_labels = λ labels path. [];
  validate_nonnegative_field = λ n path.
      if is_negative n
      then Validation.from_library path "must be greater than or equal to 0" ∷ []
      else [];
  all_log_levels = "debug" ∷ "info" ∷ "error" ∷ [];
  all_log_formats = "json" ∷ "text" ∷ [];
}

pub checking-IsChecking : IsChecking checking
checking-IsChecking = record {
  number = λ n path. number n path;
  labels_anywhere = λ labels p q h. refl;
  election_anywhere = λ l p q h. refl;
}
  where
    number :
        (n : ℤ) (path : Validation.FieldPath)
        → (checking.validate_nonnegative_field n path ≡ []) ↔ (is_negative n ≡ false)
    number n path = ground arith

validate_iff_example : (validate checking empty_config ≡ []) ↔ IsValid checking empty_config
validate_iff_example = validate_iff checking checking-IsChecking empty_config
