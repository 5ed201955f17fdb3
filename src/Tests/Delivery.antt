-- ===== src/Tests/Delivery.antt =====
-- Deliveries of src/delivery to one domain with two hosts.
use my_mta.Prelude.{List, [], ◌∷◌, true, false, none}
use my_mta.Prelude.Text.{codes, to_ascii_lowercase}
use my_mta.Dns.Error.{DnsError}
use my_mta.Dns.Records.{v4, MxResult, AddrResult}
use my_mta.Delivery.Error.{DeliveryError}
use my_mta.Delivery.Outcome.{DeliveryResult, success, transient_failure}
use my_mta.Delivery.MxResolve.{
  SocketAddr, ResolvedDestination, DnsResolver, MxResolver, with_port, resolve,
}
use my_mta.Delivery.MxResolve.Answers.{Resolves, resolve-Resolves}

abbrev result : DeliveryResult
result = record {
  recipients =
      (codes "a@b.com", success (codes "250 OK"))
      ∷ (codes "c@b.com", transient_failure (DeliveryError.content_error (codes "x")))
      ∷ [];
  connected = true;
  tls_used = false;
  mx_server = none;
}

abbrev dns : DnsResolver
dns = record {
  resolve_mx = λ domain. MxResult.ok (
      record { preference = 20; exchange = codes "mx2.b.com." }
      ∷ record { preference = 10; exchange = codes "mx1.b.com" }
      ∷ []);
  resolve_a = λ host. AddrResult.ok (v4 1 ∷ []);
  resolve_aaaa = λ host. AddrResult.err (DnsError.timeout host);
}

abbrev resolver : MxResolver
resolver = with_port dns 2525

resolve-Resolves_example :
    Resolves to_ascii_lowercase resolver
      (to_ascii_lowercase (codes "B.com"))
      (resolver.resolver.resolve_mx (to_ascii_lowercase (codes "B.com")))
      (resolve to_ascii_lowercase resolver (codes "B.com"))
resolve-Resolves_example = resolve-Resolves to_ascii_lowercase resolver (codes "B.com")

abbrev destinations : List ResolvedDestination
destinations =
    record {
      domain = codes "b.com";
      exchange = codes "mx1.b.com";
      addresses = v4 1 ∷ [];
      preference = 10;
      port = 25;
    }
    ∷ record {
      domain = codes "b.com";
      exchange = codes "mx2.b.com";
      addresses = v4 1 ∷ v4 2 ∷ [];
      preference = 20;
      port = 25;
    }
    ∷ []

abbrev attempted : List SocketAddr
attempted = record { ip = v4 1; port = 25 } ∷ []
