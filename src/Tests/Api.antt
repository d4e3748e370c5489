-- ===== src/Tests/Api.antt =====
-- The rate limiter and the client's address at work.
use native.Mathlib.Decide.{ℕ_discrete}
use cyber_threat_intelligenc.Prelude.{
  ℕ, ◌≡◌, refl, true, false, some, List, [], ◌∷◌, ◌++◌, arith, ◌==◌,
}
use cyber_threat_intelligenc.Prelude.Text.{split, Text, text_eq, codes, strip}
use cyber_threat_intelligenc.Api.ClientIp.{IpLibrary, Request, hops, trusts, client_ip}
use cyber_threat_intelligenc.Api.ClientIp.Laws.{client_ip_unforgeable}
use cyber_threat_intelligenc.Api.RateLimit.{new_limiter}
use cyber_threat_intelligenc.Api.RateLimit.Window.{run, spec_run, spec_step, sliding_window}

-- An address is its text, and a network holds the addresses equal to it.
abbrev plain_ip : IpLibrary
plain_ip = record {
  Address = Text;
  Network = Text;
  ip_address = λ a. some a;
  ip_network = λ n. some n;
  is_in = λ a n. a == n;
}

abbrev proxy : Text
proxy = codes "10.0.0.1"

abbrev client : Text
client = codes "203.0.113.9"

abbrev forged : Text
forged = codes "1.1.1.1, 8.8.8.8"

abbrev request : Request
request = record {
  path = codes "/api/v1/iocs";
  peer = some proxy;
  forwarded = forged ++ 44 ∷ client;
}

client_ip_unforgeable_example :
    client_ip plain_ip (proxy ∷ []) request
    ≡ client_ip plain_ip (proxy ∷ []) (record request { forwarded = client })
unfolding hops split strip trusts text_eq ℕ_discrete
client_ip_unforgeable_example =
    client_ip_unforgeable plain_ip (proxy ∷ []) forged client client request refl

-- Two requests a minute: the third within the minute is refused, and one more than a minute after
-- the first is admitted. Another client is not affected.
abbrev requests : List (ℕ × Text)
requests =
    (1000000, client)
    ∷ (2000000, client)
    ∷ (3000000, client)
    ∷ (3000000, proxy)
    ∷ (61500000, client)
    ∷ []

sliding_window_example : run requests (new_limiter 2) ≡ true ∷ true ∷ false ∷ true ∷ true ∷ []
unfolding spec_run spec_step text_eq ℕ_discrete
sliding_window_example =
    sliding_window 2 requests
      (omega arith, (omega arith, (omega arith, (omega arith, (omega arith, tt)))))
