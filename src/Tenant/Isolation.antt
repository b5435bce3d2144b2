-- ===== src/Tenant/Isolation.antt =====
-- A tenant sees its own messages and no others.
use dmqtt.Base.{
  ℕ, suc, ◌≡◌, ◌≢◌, refl, ap, Bytes, List, [], ◌∷◌, ◌++◌, length, nat_beq, nat_beq_iff, ◌==◌,
  bytes_eq, bytes_beq_iff, true, false, ◌&&◌, some, ◌∙◌, Bool-cases, drop-length_append, inl, inr,
  arith,
}
use dmqtt.Broker.Topic.{split, cons_head, match_parts, topic_match, starts_with, contains}
use dmqtt.Base.Map.{lookup}
use dmqtt.Tenant.{RateLibrary, Manager, get_state, get_topic_prefix, get_tenant_id}
use dmqtt.Tenant.Topics.{has_prefix, with_prefix, without_prefix, on_subscribe}

-- A prefix that is one level of a topic: no slash, no wildcard, not empty and not a `$`-name.
pub record IsName (p : Bytes) : Type 0 where
  pub no_slash : contains b'/' p ≡ false
  pub no_plus : contains b'+' p ≡ false
  pub no_hash : contains b'#' p ≡ false
  pub not_hidden : starts_with b'$' p ≡ false
  pub not_empty : p ≢ []

split-level : (p t : Bytes) → contains b'/' p ≡ false → split (p ++ (b'/' ∷ t)) ≡ p ∷ split t
unfolding split contains cons_head
split-level [] t h = refl
split-level (c ∷ p) t h = ground (arith, nat_beq_iff c b'/', split-level p t)

starts_with-append : (c : ℕ) (p s : Bytes) → p ≢ [] → starts_with c (p ++ s) ≡ starts_with c p
starts_with-append c [] s h = absurd (h refl)
starts_with-append c (d ∷ p) s h = refl

has_prefix_dollar : (s : Bytes) → has_prefix s (b'$' ∷ []) ≡ starts_with b'$' s
has_prefix_dollar [] = refl
has_prefix_dollar (c ∷ s) = ground arith

level_ne : (c : ℕ) (q : Bytes) → contains c q ≡ false → (q == (c ∷ [])) ≡ false
unfolding contains
level_ne c [] h = refl
level_ne c (d ∷ q) h = ground (arith, nat_beq_iff d c)

nat_beq-suc : (n m : ℕ) → nat_beq (suc n) (suc m) ≡ nat_beq n m
nat_beq-suc n m = ground (arith, nat_beq_iff n m, nat_beq_iff (suc n) (suc m))

name_ne : (p : Bytes) → p ≢ [] → (p == []) ≡ false
name_ne [] h = absurd (h refl)
name_ne (c ∷ p) h = refl

with_prefix-name :
    (p t : Bytes) → IsName p → starts_with b'$' t ≡ false → with_prefix p t ≡ p ++ (b'/' ∷ t)
unfolding with_prefix
with_prefix-name p t h ht = rw (name_ne p h.not_empty, has_prefix_dollar t, ht) refl

-- One level more in front of filter and topic, neither of them a wildcard.
match_parts-level :
    (q p : Bytes) (fs ts : List Bytes) (n m : ℕ)
    → contains b'+' q ≡ false
    → contains b'#' q ≡ false
    → match_parts (q ∷ fs) (p ∷ ts) (nat_beq (suc n) (suc m))
      ≡ (q == p && match_parts fs ts (nat_beq n m))
unfolding match_parts contains
match_parts-level q p fs ts n m no_plus no_hash =
    rw (level_ne b'#' q no_hash, level_ne b'+' q no_plus, nat_beq-suc n m)
      (ground (arith, bytes_beq_iff q p))

-- A filter with a prefix matches a topic with one exactly if the prefixes are equal and the filter matches
-- the topic: for prefixes that are names, and no filter or topic that starts with `$`.
pub topic_match-with_prefix :
    (q p filter topic : Bytes)
    → IsName q
    → IsName p
    → starts_with b'$' filter ≡ false
    → starts_with b'$' topic ≡ false
    → topic_match (with_prefix q filter) (with_prefix p topic)
      ≡ (q == p && topic_match filter topic)
unfolding topic_match
topic_match-with_prefix q p filter topic hq hp hf ht =
    rw
      (
        with_prefix-name q filter hq hf,
        with_prefix-name p topic hp ht,
        starts_with-append b'$' p (b'/' ∷ topic) hp.not_empty,
        hp.not_hidden,
        ht,
        split-level q filter hq.no_slash,
        split-level p topic hp.no_slash,
      )
      (match_parts-level q p (split filter) (split topic) (length (split filter))
        (length (split topic)) hq.no_plus hq.no_hash)

prefix_of_client :
    (R : RateLibrary) (m : Manager R) (c b : Bytes)
    → lookup c m.clients ≡ some b
    → get_topic_prefix R m c ≡ (get_state R m b).config.topic_prefix
unfolding get_topic_prefix
prefix_of_client R m c b h = rw (h, get_topic_prefix) refl

tenant_of_client :
    (R : RateLibrary) (m : Manager R) (c b : Bytes)
    → lookup c m.clients ≡ some b
    → get_tenant_id R m c ≡ b
unfolding get_tenant_id
tenant_of_client R m c b h = rw (h, get_tenant_id) refl

same_beq : (q p b a : Bytes) → (q ≡ p → b ≡ a) → (b ≡ a → q ≡ p) → (q == p) ≡ (b == a)
same_beq q p b a f g = ground (arith, bytes_beq_iff q p, bytes_beq_iff b a)

-- Inside the broker, where the prefixes of tenants stand before filters and topics, the filter of a client
-- matches the topic of another exactly if both are of one tenant and the filter matches the topic as they
-- wrote them: for clients of tenants whose prefixes are names (`IsName`), and are equal only if the tenants
-- are the same. Filters and topics that start with `$`, which get no prefix, are not considered.
pub topic_match-on_subscribe :
    (R : RateLibrary) (m : Manager R) (c d b a filter topic : Bytes)
    → lookup c m.clients ≡ some b
    → lookup d m.clients ≡ some a
    → IsName (get_state R m b).config.topic_prefix
    → IsName (get_state R m a).config.topic_prefix
    → ((get_state R m b).config.topic_prefix ≡ (get_state R m a).config.topic_prefix → b ≡ a)
    → starts_with b'$' filter ≡ false
    → starts_with b'$' topic ≡ false
    → topic_match (on_subscribe R m c filter) (with_prefix (get_topic_prefix R m d) topic)
      ≡ (get_tenant_id R m c == get_tenant_id R m d && topic_match filter topic)
unfolding on_subscribe
topic_match-on_subscribe R m c d b a filter topic hc hd nb na apart hf ht =
    let q = (get_state R m b).config.topic_prefix in
    let p = (get_state R m a).config.topic_prefix in
    rw
      (
        prefix_of_client R m c b hc,
        prefix_of_client R m d a hd,
        tenant_of_client R m c b hc,
        tenant_of_client R m d a hd,
      )
      (topic_match-with_prefix q p filter topic nb na hf ht
        ∙ ap (λ same. same && topic_match filter topic)
            (same_beq q p b a apart (ap (λ t. (get_state R m t).config.topic_prefix))))

has_prefix-append : (p s : Bytes) → has_prefix (p ++ s) p ≡ true
has_prefix-append [] s = refl
has_prefix-append (c ∷ p) s = ground (arith, nat_beq_iff c c, has_prefix-append p s)

append_slash : (p t : Bytes) → p ++ (b'/' ∷ t) ≡ (p ++ (b'/' ∷ [])) ++ t
append_slash [] t = refl
append_slash (c ∷ p) t = ap (◌∷◌ c) (append_slash p t)

-- A `$`-topic does not begin with a tenant's prefix.
hidden_unprefixed :
    (p s t : Bytes)
    → p ≢ []
    → starts_with b'$' p ≡ false
    → starts_with b'$' t ≡ true
    → has_prefix t (p ++ s) ≡ false
hidden_unprefixed [] s t h hp ht = absurd (h refl)
hidden_unprefixed (c ∷ p) s [] h hp ht = refl
hidden_unprefixed (c ∷ p) s (d ∷ t) h hp ht = ground (arith, nat_beq_iff d c)

-- What a client publishes, another client of the tenant gets delivered under the same topic,
-- for a prefix that is a name (`IsName`).
pub without_prefix-with_prefix :
    (p topic : Bytes) → IsName p → without_prefix p (with_prefix p topic) ≡ topic
unfolding with_prefix without_prefix
without_prefix-with_prefix p topic h = elim (Bool-cases (starts_with b'$' topic)) [
  | inl hidden ↦
      rw
        (
          name_ne p h.not_empty,
          has_prefix_dollar topic,
          hidden,
          hidden_unprefixed p (b'/' ∷ []) topic h.not_empty h.not_hidden hidden,
        )
        refl
  | inr shown ↦
      rw
        (
          name_ne p h.not_empty,
          has_prefix_dollar topic,
          shown,
          append_slash p topic,
          has_prefix-append (p ++ (b'/' ∷ [])) topic,
          drop-length_append (p ++ (b'/' ∷ [])) topic,
        )
        refl
]
