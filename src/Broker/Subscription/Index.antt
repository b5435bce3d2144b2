-- ===== src/Broker/Subscription/Index.antt =====
-- The two sides of the index agree, and the index is a table from client and filter to QoS.
use dmqtt.Base.{
  ℕ, Bytes, [], ◌∷◌, ◌==◌, bytes_eq, bytes_beq_iff, if◌then◌else◌, none, some, ◌&&◌, ◌≡◌, ◌↔◌, refl,
  arith, Bool-cases, Option-cases, inl, inr,
}
use dmqtt.Base.Map.{Map, lookup, insert, lookup-insert, insert-IsMap}
use dmqtt.Base.Nested.{or_empty, put, at, at-put, at-remove_at, at-erase, at_absent, at_present}
use dmqtt.Broker.Subscription.{
  SubscriptionIndex, Entries, Filters, new_subscription_index, add, drop_entry, remove,
  drop_entries, remove_all,
}
use dmqtt.Broker.Subscription.Lookup.{
  qos_in, noted_in, OneEach, drop_entry-OneEach, qos_in-drop_entry,
}

filters-add :
    (idx : SubscriptionIndex) (c f : Bytes) (q : ℕ)
    → (add idx c f q).filters ≡ insert f (insert c q (or_empty (lookup f idx.filters))) idx.filters
unfolding add
filters-add idx c f q = ground arith

pub qos_in-add :
    (idx : SubscriptionIndex) (c f d g : Bytes) (q : ℕ)
    → qos_in (add idx c f q).filters d g
      ≡ (if (c == d) && (f == g) then some q else qos_in idx.filters d g)
unfolding add at or_empty
qos_in-add idx c f d g q =
    let es = or_empty (lookup f idx.filters) in
    ground (
      arith,
      lookup-insert f g (insert c q es) idx.filters,
      lookup-insert c d q es,
      bytes_beq_iff f g,
      bytes_beq_iff c d,
    )

add-OneEach :
    (idx : SubscriptionIndex) (c f : Bytes) (q : ℕ)
    → OneEach idx.filters
    → OneEach (add idx c f q).filters
unfolding or_empty
add-OneEach idx c f q o g = rw (filters-add idx c f q) (
    rw (lookup-insert f g (insert c q (or_empty (lookup f idx.filters))) idx.filters)
      (elim (Bool-cases (f == g)) [ inl e ↦ rw e (insert-IsMap c q _ (o f)) | inr e ↦ rw e (o g) ]))

clients-add_new :
    (idx : SubscriptionIndex) (c f : Bytes) (q : ℕ)
    → qos_in idx.filters c f ≡ none
    → (add idx c f q).clients ≡ put c f tt idx.clients
unfolding add at
clients-add_new idx c f q h = ground arith

clients-add_again :
    (idx : SubscriptionIndex) (c f : Bytes) (q : ℕ) {r : ℕ}
    → qos_in idx.filters c f ≡ some r
    → (add idx c f q).clients ≡ idx.clients
unfolding add at
clients-add_again idx c f q {r} h = ground arith

drop_entries-OneEach :
    (c : Bytes) (fs : Filters) (filters : Map Bytes Entries)
    → OneEach filters
    → OneEach (drop_entries c fs filters)
unfolding drop_entries
drop_entries-OneEach c [] filters o = o
drop_entries-OneEach c ((f, u) ∷ fs) filters o =
    drop_entries-OneEach c fs (drop_entry c f filters) (drop_entry-OneEach c f filters o)

qos_in-drop_entries :
    (c d g : Bytes) (fs : Filters) (filters : Map Bytes Entries)
    → OneEach filters
    → qos_in (drop_entries c fs filters) d g ≡ (
        if c == d
        then (elim (lookup g fs) [ none ↦ qos_in filters d g | some u ↦ none ])
        else qos_in filters d g)
unfolding drop_entries lookup
qos_in-drop_entries c d g [] filters o = ground arith
qos_in-drop_entries c d g ((f, u) ∷ fs) filters o = ground (
  arith,
  qos_in-drop_entries c d g fs (drop_entry c f filters) (drop_entry-OneEach c f filters o),
  qos_in-drop_entry c f d g filters o,
)

-- Each slice has a client once at most, and a filter is noted for a client exactly when the client
-- has an entry in the filter's slice.
pub record IsConsistent (idx : SubscriptionIndex) : Type 0 where
  pub one_each : OneEach idx.filters
  pub agree : (c f : Bytes) → (qos_in idx.filters c f ≡ none) ↔ (noted_in idx.clients c f ≡ none)

pub new-IsConsistent : IsConsistent new_subscription_index
unfolding new_subscription_index at lookup or_empty
new-IsConsistent = record { one_each = λ f. tt; agree = λ c f. (λ h. refl, λ h. refl) }

add-IsConsistent :
    (idx : SubscriptionIndex) (c f : Bytes) (q : ℕ)
    → IsConsistent idx
    → IsConsistent (add idx c f q)
add-IsConsistent idx c f q v = record {
  one_each = add-OneEach idx c f q v.one_each;
  agree = λ d g. elim (Option-cases (qos_in idx.filters c f)) [
    | inl fresh ↦ ground (
      arith,
      qos_in-add idx c f d g q,
      clients-add_new idx c f q fresh,
      at-put c d f g tt idx.clients,
      v.agree d g,
    )
    | inr (r, old) ↦ ground (
      arith,
      qos_in-add idx c f d g q,
      clients-add_again idx c f q {r = r} old,
      v.agree d g,
      bytes_beq_iff c d,
      bytes_beq_iff f g,
    )
  ];
}

remove-IsConsistent :
    (idx : SubscriptionIndex) (c f : Bytes) → IsConsistent idx → IsConsistent (remove idx c f)
unfolding remove
remove-IsConsistent idx c f v = record {
  one_each = drop_entry-OneEach c f idx.filters v.one_each;
  agree = λ d g. ground (
    arith,
    qos_in-drop_entry c f d g idx.filters v.one_each,
    at-remove_at c d f g idx.clients,
    v.agree d g,
  );
}

qos_in-remove_all :
    (idx : SubscriptionIndex) (c d g : Bytes)
    → IsConsistent idx
    → qos_in (remove_all idx c).filters d g ≡ (if c == d then none else qos_in idx.filters d g)
unfolding remove_all
qos_in-remove_all idx c d g v = elim (Option-cases (lookup c idx.clients)) [
  | inl e ↦
      rw (e, remove_all)
        (ground (arith, v.agree c g, at_absent idx.clients c g e, bytes_beq_iff c d))
  | inr (fs, e) ↦
      rw (e, remove_all)
        (ground (
          arith,
          qos_in-drop_entries c d g fs idx.filters v.one_each,
          v.agree c g,
          at_present idx.clients c g fs e,
          bytes_beq_iff c d,
        ))
]

noted_in-remove_all :
    (idx : SubscriptionIndex) (c d g : Bytes)
    → noted_in (remove_all idx c).clients d g ≡ (if c == d then none else noted_in idx.clients d g)
unfolding remove_all
noted_in-remove_all idx c d g = elim (Option-cases (lookup c idx.clients)) [
  | inl e ↦ rw (e, remove_all) (ground (arith, at_absent idx.clients c g e, bytes_beq_iff c d))
  | inr (fs, e) ↦ rw (e, remove_all) (at-erase c d g idx.clients)
]

remove_all-OneEach :
    (idx : SubscriptionIndex) (c : Bytes) → OneEach idx.filters → OneEach (remove_all idx c).filters
unfolding remove_all
remove_all-OneEach idx c o = elim (Option-cases (lookup c idx.clients)) [
  | inl e ↦ rw (e, remove_all) o
  | inr (fs, e) ↦ rw (e, remove_all) (drop_entries-OneEach c fs idx.filters o)
]

-- Subscribing, unsubscribing and dropping a client keep the two sides of the index in agreement.
pub subscriptions-IsConsistent :
    (idx : SubscriptionIndex) (c f : Bytes) (q : ℕ)
    → IsConsistent idx
    → IsConsistent (add idx c f q) × IsConsistent (remove idx c f) × IsConsistent (remove_all idx c)
subscriptions-IsConsistent idx c f q v = (
  add-IsConsistent idx c f q v,
  remove-IsConsistent idx c f v,
  record {
    one_each = remove_all-OneEach idx c v.one_each;
    agree = λ d g.
        ground (arith, qos_in-remove_all idx c d g v, noted_in-remove_all idx c d g, v.agree d g);
  },
)

-- A consistent index is a table from client and filter to QoS: subscribing writes one place of the
-- table, unsubscribing clears one place, and dropping a client clears exactly its places.
pub subscription_table :
    (idx : SubscriptionIndex) (c f d g : Bytes) (q : ℕ)
    → IsConsistent idx
    → (qos_in (add idx c f q).filters d g
        ≡ (if (c == d) && (f == g) then some q else qos_in idx.filters d g))
      × (qos_in (remove idx c f).filters d g
          ≡ (if (c == d) && (f == g) then none else qos_in idx.filters d g))
      × (qos_in (remove_all idx c).filters d g ≡ (if c == d then none else qos_in idx.filters d g))
unfolding remove
subscription_table idx c f d g q v = (
  qos_in-add idx c f d g q,
  qos_in-drop_entry c f d g idx.filters v.one_each,
  qos_in-remove_all idx c d g v,
)
