-- ===== src/Sdk/Tests.antt =====
-- The theorems on the services, at an SDK whose first build of a client fails.
use karpenter_provider_huawe.Base.{
  ℕ, ◌+◌, ◌≤◌, ◌≡◌, refl, List, [], ◌∷◌, none, some, if◌then◌else◌, eqb, ok, err, plain, arith,
}
use karpenter_provider_huawe.Sdk.{Sdk, VpcMethod, list_subnets, list_security_groups, Service, call}
use karpenter_provider_huawe.Sdk.Built.{Call, SafeBuilds, run, run-builds_once, call-retries}

-- How often SafeBuild was called, how often it built a client, and what else was sent.
abbrev vpc : Sdk VpcMethod
vpc = record {
  Request = λ m. ℕ;
  Response = λ m. ℕ;
  HttpConfig = Unit {0};
  default_http_config = tt;
  Client = ℕ;
  World = ℕ × ℕ × ℕ;
  safe_build = λ config w. (
    if eqb w.0 0 then err (plain "no project id") else ok w.0,
    (w.0 + 1, (if eqb w.0 0 then w.1 else w.1 + 1), w.2),
  );
  send = λ m client request w. (ok (client + request), (w.0, w.1, w.2 + 1));
}

abbrev counts : SafeBuilds vpc
counts = record {
  asked = λ w. w.0;
  built = λ w. w.1;
  asked-safe_build = λ config w. refl;
  built-safe_build = λ config w. ground arith;
  asked-send = λ m client request w. refl;
  built-send = λ m client request w. refl;
}

abbrev start : Service vpc
start = record { client = none; http_config = tt; world = (0, 0, 0) }

abbrev calls : List (Call vpc)
calls = (list_subnets, 5) ∷ (list_subnets, 6) ∷ (list_security_groups, 7) ∷ []

builds_run : (run vpc calls start).world ≡ (2, 1, 2)
unfolding call
builds_run = refl

run-builds_once_example :
    (counts.built (run vpc calls start).world ≤ counts.built start.world + 1)
    × ((client : ℕ)
        → start.client ≡ some client
        → (counts.asked (run vpc calls start).world ≡ counts.asked start.world)
          × ((run vpc calls start).client ≡ some client))
run-builds_once_example = run-builds_once vpc counts calls start

failed_build_run :
    ((call vpc list_subnets 5 start).0 ≡ err (plain "no project id"))
    × ((call vpc list_subnets 5 start).1.client ≡ none)
failed_build_run = call-retries vpc list_subnets 5 start (plain "no project id") refl refl
