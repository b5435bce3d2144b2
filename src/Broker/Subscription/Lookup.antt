-- ===== src/Broker/Subscription/Lookup.antt =====
-- The subscription of one client to one filter, and what each operation does to it.
use dmqtt.Base.{
  ℕ, Bytes, [], ◌∷◌, ◌==◌, bytes_eq, bytes_beq_iff, if◌then◌else◌, Option, none, ◌&&◌, ◌≡◌, refl,
  arith, Bool-cases, inl, inr,
}
use dmqtt.Base.Map.{Map, lookup, lookup-insert, lookup-erase, IsMap}
use dmqtt.Base.Nested.{or_empty, is_empty-eq-nil, at}
use dmqtt.Broker.Subscription.{Entries, Filters, erase_first, cut_entry, drop_entry}

-- The QoS with which a client subscribes to a filter.
abbrev pub qos_in : Map Bytes Entries → Bytes → Bytes → Option ℕ
qos_in filters c f = at filters f c

-- Whether the other side of the index notes the filter for the client.
abbrev pub noted_in : Map Bytes Filters → Bytes → Bytes → Option (Unit {0})
noted_in clients c f = at clients c f

-- Each slice has one entry for a client at most.
abbrev pub OneEach : Map Bytes Entries → Type 0
OneEach filters = (f : Bytes) → IsMap (or_empty (lookup f filters))

lookup-erase_first :
    (c d : Bytes) (es : Entries)
    → IsMap es
    → lookup d (erase_first c es) ≡ (if c == d then none else lookup d es)
unfolding erase_first lookup
lookup-erase_first c d [] m = ground arith
lookup-erase_first c d ((b, q) ∷ es) m =
    ground (
      arith,
      lookup-erase_first c d es m.1,
      bytes_beq_iff b c,
      bytes_beq_iff c d,
      bytes_beq_iff b d,
    )

erase_first-IsMap : (c : Bytes) (es : Entries) → IsMap es → IsMap (erase_first c es)
unfolding erase_first
erase_first-IsMap c [] m = tt
erase_first-IsMap c ((b, q) ∷ es) m =
    ground (arith, erase_first-IsMap c es m.1, lookup-erase_first c b es m.1, bytes_beq_iff c b)

erase_first_absent : (c : Bytes) (es : Entries) → lookup c es ≡ none → erase_first c es ≡ es
unfolding erase_first lookup
erase_first_absent c [] h = refl
erase_first_absent c ((b, q) ∷ es) h = ground (arith, erase_first_absent c es)

slice-cut_entry :
    (c f g : Bytes) (filters : Map Bytes Entries)
    → or_empty (lookup g (cut_entry c f filters)) ≡ (
        if f == g then erase_first c (or_empty (lookup f filters)) else or_empty (lookup g filters))
unfolding cut_entry or_empty
slice-cut_entry c f g filters = ground (
  arith,
  lookup-insert f g (erase_first c (or_empty (lookup f filters))) filters,
  erase_first_absent c (or_empty (lookup f filters)),
  bytes_beq_iff f g,
)

-- The slice of a filter after a removal.
pub slice-drop_entry :
    (c f g : Bytes) (filters : Map Bytes Entries)
    → or_empty (lookup g (drop_entry c f filters)) ≡ (
        if f == g then erase_first c (or_empty (lookup f filters)) else or_empty (lookup g filters))
unfolding drop_entry or_empty
slice-drop_entry c f g filters = ground (
  arith,
  slice-cut_entry c f g filters,
  slice-cut_entry c f f filters,
  lookup-erase f g (cut_entry c f filters),
  bytes_beq_iff f g,
  is_empty-eq-nil (or_empty (lookup f (cut_entry c f filters))),
)

pub drop_entry-OneEach :
    (c f : Bytes) (filters : Map Bytes Entries) → OneEach filters → OneEach (drop_entry c f filters)
drop_entry-OneEach c f filters o g =
    rw (slice-drop_entry c f g filters) (elim (Bool-cases (f == g)) [
      | inl e ↦ rw e (erase_first-IsMap c _ (o f))
      | inr e ↦ rw e (o g)
    ])

pub qos_in-drop_entry :
    (c f d g : Bytes) (filters : Map Bytes Entries)
    → OneEach filters
    → qos_in (drop_entry c f filters) d g
      ≡ (if (c == d) && (f == g) then none else qos_in filters d g)
unfolding at
qos_in-drop_entry c f d g filters o = rw (slice-drop_entry c f g filters) (
    ground (
      arith,
      lookup-erase_first c d (or_empty (lookup f filters)) (o f),
      bytes_beq_iff f g,
      bytes_beq_iff c d,
    ))
