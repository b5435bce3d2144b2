-- ===== src/Tenant/Runs.antt =====
-- The tenants on concrete inputs.
use dmqtt.Base.{
  ℕ, suc, ◌≡◌, refl, ◌&&◌, ◌==◌, bytes_eq, bytes_beq_iff, List, [], ◌∷◌, true, codes, arith,
}
use dmqtt.Base.Map.{lookup, insert}
use dmqtt.Broker.Topic.{topic_match, contains}
use dmqtt.Tenant.{
  Tenant, RateLibrary, Manager, find_tenant, get_state, open_connection, on_disconnect,
  get_topic_prefix, get_tenant_id, parse_tenants, failed, duplicate_tenant_id,
}
use dmqtt.Tenant.Topics.{on_subscribe, with_prefix, without_prefix}
use dmqtt.Tenant.Isolation.{IsName, topic_match-on_subscribe, without_prefix-with_prefix}
use dmqtt.Tenant.Quota.{Call, connects, disconnects, KeepsQuota, run, run-KeepsQuota}
use dmqtt.Tenant.Overlaps.{reconnected}

-- A limiter that counts down the messages that are left, whatever the time.
abbrev countdown : RateLibrary
countdown = record { Limiter = ℕ; of_rate = λ n. n; infinite = 1000000; allow = λ n now. (n, true) }

abbrev acme : Tenant
acme = record {
  id = codes "acme";
  max_connections = 2;
  max_message_rate = 0;
  max_message_size = 0;
  topic_prefix = codes "acme";
}

abbrev one_tenant : Manager countdown
one_tenant = record {
  tenants =
      (codes "acme", record { config = acme; increments = 0; decrements = 0; rate_limiter = 1 })
      ∷ [];
  default_state = record {
    config = record acme { id = []; max_connections = 0; topic_prefix = [] };
    increments = 0;
    decrements = 0;
    rate_limiter = 1;
  };
  clients = [];
}

acme_IsName : IsName (codes "acme")
unfolding contains
acme_IsName = record {
  no_slash = refl;
  no_plus = refl;
  no_hash = refl;
  not_hidden = refl;
  not_empty = λ e. cc;
}

globex_IsName : IsName (codes "globex")
unfolding contains
globex_IsName = record {
  no_slash = refl;
  no_plus = refl;
  no_hash = refl;
  not_hidden = refl;
  not_empty = λ e. cc;
}

-- Two tenants with a client each.
abbrev two_tenants : Manager countdown
two_tenants = record one_tenant {
  tenants =
      (codes "acme", record { config = acme; increments = 1; decrements = 0; rate_limiter = 1 })
      ∷ (
        codes "globex",
        record {
          config = record acme { id = codes "globex"; topic_prefix = codes "globex" };
          increments = 1;
          decrements = 0;
          rate_limiter = 1;
        },
      )
      ∷ [];
  clients = (codes "a", codes "acme") ∷ (codes "g", codes "globex") ∷ [];
}

topic_match-on_subscribe_example :
    topic_match
      (on_subscribe countdown two_tenants (codes "a") (codes "#"))
      (with_prefix (get_topic_prefix countdown two_tenants (codes "g")) (codes "a/b"))
    ≡ (get_tenant_id countdown two_tenants (codes "a")
          == get_tenant_id countdown two_tenants (codes "g")
        && topic_match (codes "#") (codes "a/b"))
unfolding lookup get_state find_tenant
topic_match-on_subscribe_example =
    topic_match-on_subscribe countdown two_tenants (codes "a") (codes "g") (codes "acme")
      (codes "globex") (codes "#") (codes "a/b") refl refl acme_IsName globex_IsName (λ e. cc) refl
      refl

without_prefix-with_prefix_example :
    without_prefix (codes "acme") (with_prefix (codes "acme") (codes "a/b")) ≡ codes "a/b"
without_prefix-with_prefix_example =
    without_prefix-with_prefix (codes "acme") (codes "a/b") acme_IsName

one_tenant-KeepsQuota : KeepsQuota countdown one_tenant
unfolding get_state find_tenant lookup
one_tenant-KeepsQuota t = ground (arith, bytes_beq_iff t [], bytes_beq_iff (codes "acme") t)

abbrev three_clients : List Call
three_clients =
    connects (codes "a") (codes "acme")
    ∷ connects (codes "b") (codes "acme")
    ∷ connects (codes "c") (codes "acme")
    ∷ disconnects (codes "a")
    ∷ []

run-KeepsQuota_example : KeepsQuota countdown (run countdown one_tenant three_clients)
run-KeepsQuota_example = run-KeepsQuota countdown one_tenant three_clients one_tenant-KeepsQuota

abbrev taken_over : Manager countdown
taken_over =
    on_disconnect countdown
      (open_connection countdown (open_connection countdown one_tenant (codes "a") (codes "acme"))
        (codes "a") (codes "acme"))
      (codes "a")

reconnected_example :
    (get_topic_prefix countdown taken_over (codes "a") ≡ [])
    × (on_disconnect countdown taken_over (codes "a") ≡ taken_over)
    × ((get_state countdown taken_over (codes "acme")).increments
        ≡ suc (suc (get_state countdown one_tenant (codes "acme")).increments))
    × ((get_state countdown taken_over (codes "acme")).decrements
        ≡ suc (get_state countdown one_tenant (codes "acme")).decrements)
reconnected_example = reconnected countdown one_tenant (codes "a") (codes "acme")

same_name_twice : parse_tenants (acme ∷ acme ∷ []) ≡ failed (duplicate_tenant_id (codes "acme"))
unfolding parse_tenants lookup insert
same_name_twice = refl
