-- ===== src/Broker/Subscription/Match.antt =====
-- `Match` gives each client the highest QoS of its matching filters.
use dmqtt.Base.{
  ℕ, ◌≤◌, Bytes, [], ◌∷◌, ltb, ◌==◌, bytes_eq, bytes_beq_iff, if◌then◌else◌, Option, none, some,
  true, false, ◌≡◌, ◌⊎◌, refl, arith, Bool-cases, Option-cases, inl, inr,
}
use dmqtt.Base.Map.{Map, lookup, lookup-insert, IsMap, beq_self}
use dmqtt.Broker.Topic.{topic_match}
use dmqtt.Base.Nested.{or_empty, at}
use dmqtt.Broker.Subscription.{
  SubscriptionIndex, Entries, raise, raise_all, match_loop, match_topic,
}
use dmqtt.Broker.Subscription.Lookup.{qos_in, OneEach}

-- What an entry does to the best QoS so far.
abbrev better : Option ℕ → Option ℕ → Option ℕ
better none o = o
better (some q) none = some q
better (some q) (some existing) = some (if ltb existing q then q else existing)

lookup-raise :
    (c d : Bytes) (q : ℕ) (best : Entries)
    → lookup d (raise c q best)
      ≡ (if c == d then better (some q) (lookup c best) else lookup d best)
unfolding raise
lookup-raise c d q best = ground (arith, lookup-insert c d q best, bytes_beq_iff c d)

lookup-raise_all :
    (c : Bytes) (es best : Entries)
    → IsMap es
    → lookup c (raise_all es best) ≡ better (lookup c es) (lookup c best)
unfolding raise_all lookup
lookup-raise_all c [] best m = refl
lookup-raise_all c ((d, q) ∷ es) best m =
    ground (
      arith,
      lookup-raise_all c es (raise d q best) m.1,
      lookup-raise d c q best,
      bytes_beq_iff d c,
    )

OneEach-tail :
    (f : Bytes) (es : Entries) (fs : Map Bytes Entries)
    → IsMap ((f, es) ∷ fs)
    → OneEach ((f, es) ∷ fs)
    → IsMap es × OneEach fs
unfolding lookup or_empty
OneEach-tail f es fs m o = (
  rw (beq_self f) at (o f),
  λ g. elim (Bool-cases (f == g)) [
    | inl e ↦ ground (arith, bytes_beq_iff f g, m.0)
    | inr e ↦ rw e at (o g)
  ],
)

-- The best QoS so far never falls.
match_loop_grows :
    (topic c : Bytes) (fs : Map Bytes Entries) (best : Entries) (x : ℕ)
    → IsMap fs
    → OneEach fs
    → lookup c best ≡ some x
    → (r : ℕ) × (lookup c (match_loop topic fs best) ≡ some r) × (x ≤ r)
unfolding match_loop
match_loop_grows topic c [] best x m o h = (x, h, omega arith)
match_loop_grows topic c ((f, es) ∷ fs) best x m o h = elim (Bool-cases (topic_match f topic)) [
  | inl hit ↦ rw hit (elim (Option-cases (lookup c es)) [
    | inl e ↦
        match_loop_grows topic c fs (raise_all es best) x m.1 (OneEach-tail f es fs m o).1
          (ground (arith, lookup-raise_all c es best (OneEach-tail f es fs m o).0))
    | inr (q, e) ↦
        let (r, e1, le) =
          match_loop_grows topic c fs (raise_all es best) (if ltb x q then q else x) m.1
            (OneEach-tail f es fs m o).1
            (ground (arith, lookup-raise_all c es best (OneEach-tail f es fs m o).0)) in
        (r, e1, ground arith)
  ])
  | inr miss ↦ rw miss (match_loop_grows topic c fs best x m.1 (OneEach-tail f es fs m o).1 h)
]

qos_in-cons :
    (c f g : Bytes) (es : Entries) (fs : Map Bytes Entries)
    → qos_in ((g, es) ∷ fs) c f ≡ (if g == f then lookup c es else qos_in fs c f)
unfolding at or_empty lookup
qos_in-cons c f g es fs = ground arith

lookup_empty : (c : Bytes) → lookup {V = ℕ} c [] ≡ none
unfolding lookup
lookup_empty c = refl

qos_in_nil : (c f : Bytes) → qos_in [] c f ≡ none
unfolding at or_empty lookup
qos_in_nil c f = refl

match_loop_hit :
    (topic g : Bytes) (es : Entries) (fs : Map Bytes Entries) (best : Entries)
    → topic_match g topic ≡ true
    → match_loop topic ((g, es) ∷ fs) best ≡ match_loop topic fs (raise_all es best)
unfolding match_loop
match_loop_hit topic g es fs best h = rw h

match_loop_miss :
    (topic g : Bytes) (es : Entries) (fs : Map Bytes Entries) (best : Entries)
    → topic_match g topic ≡ false
    → match_loop topic ((g, es) ∷ fs) best ≡ match_loop topic fs best
unfolding match_loop
match_loop_miss topic g es fs best h = rw h

-- A client with an entry in the slice ends with that QoS at least.
raise_all_upper :
    (c : Bytes) (q : ℕ) (es best : Entries)
    → IsMap es
    → lookup c es ≡ some q
    → (x : ℕ) × (lookup c (raise_all es best) ≡ some x) × (q ≤ x)
raise_all_upper c q es best m h = elim (Option-cases (lookup c best)) [
  | inl e ↦ (q, ground (arith, lookup-raise_all c es best m), omega arith)
  | inr (y, e) ↦
      (if ltb y q then q else y, ground (arith, lookup-raise_all c es best m), ground arith)
]

match_loop_upper :
    (topic c f : Bytes) (q : ℕ) (fs : Map Bytes Entries) (best : Entries)
    → IsMap fs
    → OneEach fs
    → qos_in fs c f ≡ some q
    → topic_match f topic ≡ true
    → (r : ℕ) × (lookup c (match_loop topic fs best) ≡ some r) × (q ≤ r)
match_loop_upper topic c f q [] best m o h hit = ground (arith, qos_in_nil c f)
match_loop_upper topic c f q ((g, es) ∷ fs) best m o h hit = elim (Bool-cases (g == f)) [
  | inl e ↦
      let hit' : topic_match g topic ≡ true = ground (arith, bytes_beq_iff g f) in
      let (x, e1, le) =
        raise_all_upper c q es best (OneEach-tail g es fs m o).0
          (ground (arith, qos_in-cons c f g es fs)) in
      let (r, e2, le') =
        match_loop_grows topic c fs (raise_all es best) x m.1 (OneEach-tail g es fs m o).1 e1 in
      (r, rw (match_loop_hit topic g es fs best hit') e2, omega arith)
  | inr e ↦
      let h' : qos_in fs c f ≡ some q = ground (arith, qos_in-cons c f g es fs) in
      let o' = (OneEach-tail g es fs m o).1 in
      elim (Bool-cases (topic_match g topic)) [
        | inl t ↦
            rw (match_loop_hit topic g es fs best t)
              (match_loop_upper topic c f q fs (raise_all es best) m.1 o' h' hit)
        | inr t ↦
            rw (match_loop_miss topic g es fs best t)
              (match_loop_upper topic c f q fs best m.1 o' h' hit)
      ]
]

-- Where a client's QoS in the result comes from: it was there before, or is that of a filter.
abbrev Attained : Bytes → Bytes → ℕ → Map Bytes Entries → Entries → Type 0
Attained topic c r fs best =
    (lookup c best ≡ some r)
    ⊎ ((f : Bytes) × (topic_match f topic ≡ true) × (qos_in fs c f ≡ some r))

qos_in_absent : (c g : Bytes) (fs : Map Bytes Entries) → lookup g fs ≡ none → qos_in fs c g ≡ none
unfolding at or_empty
qos_in_absent c g fs h = rw (h, or_empty) (lookup_empty c)

raise_all_origin :
    (c : Bytes) (r : ℕ) (es best : Entries)
    → IsMap es
    → lookup c (raise_all es best) ≡ some r
    → (lookup c best ≡ some r) ⊎ (lookup c es ≡ some r)
raise_all_origin c r es best m h = elim (Option-cases (lookup c es)) [
  | inl e ↦ inl (ground (arith, lookup-raise_all c es best m))
  | inr (q, e) ↦ elim (Option-cases (lookup c best)) [
    | inl e' ↦ inr (ground (arith, lookup-raise_all c es best m))
    | inr (y, e') ↦ elim (Bool-cases (ltb y q)) [
      | inl t ↦ inr (ground (arith, lookup-raise_all c es best m))
      | inr t ↦ inl (ground (arith, lookup-raise_all c es best m))
    ]
  ]
]

Attained-cons :
    (topic c : Bytes) (r : ℕ) (g : Bytes) (es : Entries) (fs : Map Bytes Entries)
    (before best : Entries)
    → IsMap ((g, es) ∷ fs)
    → ((lookup c before ≡ some r)
        → (lookup c best ≡ some r) ⊎ ((topic_match g topic ≡ true) × (lookup c es ≡ some r)))
    → Attained topic c r fs before
    → Attained topic c r ((g, es) ∷ fs) best
Attained-cons topic c r g es fs before best m origin (inl e) = elim (origin e) [
  | inl e' ↦ inl e'
  | inr (t, e') ↦ inr (g, t, ground (arith, qos_in-cons c g g es fs, bytes_beq_iff g g))
]
Attained-cons topic c r g es fs before best m origin (inr (f, t, e)) =
    inr (f, t, ground (arith, qos_in-cons c f g es fs, bytes_beq_iff g f, qos_in_absent c g fs m.0))

match_loop-Attained :
    (topic c : Bytes) (r : ℕ) (fs : Map Bytes Entries) (best : Entries)
    → IsMap fs
    → OneEach fs
    → lookup c (match_loop topic fs best) ≡ some r
    → Attained topic c r fs best
match_loop-Attained topic c r [] best m o h = inl (unfold match_loop in h)
match_loop-Attained topic c r ((g, es) ∷ fs) best m o h = elim (Bool-cases (topic_match g topic)) [
  | inl t ↦
      Attained-cons topic c r g es fs (raise_all es best) best m
        (λ e. elim (raise_all_origin c r es best (OneEach-tail g es fs m o).0 e) [
          | inl e' ↦ inl e'
          | inr e' ↦ inr (t, e')
        ])
        (match_loop-Attained topic c r fs (raise_all es best) m.1 (OneEach-tail g es fs m o).1
          (rw (match_loop_hit topic g es fs best t) at h))
  | inr t ↦
      Attained-cons topic c r g es fs best best m (λ e. inl e)
        (match_loop-Attained topic c r fs best m.1 (OneEach-tail g es fs m o).1
          (rw (match_loop_miss topic g es fs best t) at h))
]

-- A client that subscribes to a filter which matches the topic is listed, with the QoS of that
-- subscription at least.
pub match_topic_upper :
    (idx : SubscriptionIndex) (topic c f : Bytes) (q : ℕ)
    → IsMap idx.filters
    → OneEach idx.filters
    → qos_in idx.filters c f ≡ some q
    → topic_match f topic ≡ true
    → (r : ℕ) × (lookup c (match_topic idx topic) ≡ some r) × (q ≤ r)
unfolding match_topic
match_topic_upper idx topic c f q m o h hit = match_loop_upper topic c f q idx.filters [] m o h hit

-- A client that is listed subscribes with just that QoS to a filter which matches the topic.
pub match_topic_attained :
    (idx : SubscriptionIndex) (topic c : Bytes) (r : ℕ)
    → IsMap idx.filters
    → OneEach idx.filters
    → lookup c (match_topic idx topic) ≡ some r
    → (f : Bytes) × (topic_match f topic ≡ true) × (qos_in idx.filters c f ≡ some r)
unfolding match_topic
match_topic_attained idx topic c r m o h =
    elim (match_loop-Attained topic c r idx.filters [] m o h) [
      | inl e ↦ ground (arith, lookup_empty c)
      | inr found ↦ found
    ]
