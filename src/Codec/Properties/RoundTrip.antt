-- ===== src/Codec/Properties/RoundTrip.antt =====
-- Properties that are written read back.
use dmqtt.Base.{
  ℕ, zero, suc, ◌+◌, ◌^◌, ◌≤◌, ◌<◌, ◌≡◌, refl, sym, ap, subst, ◌∙◌, Bytes, [], ◌++◌, length, ltb,
  nat_beq, length-append, append_assoc, arith, some, false, nat_eq,
}
use dmqtt.Base.Map.{lookup}
use dmqtt.Codec.{ok}
use dmqtt.Codec.Values.{encode_var_int}
use dmqtt.Codec.Values.Written.{Stands, Stands-start, Stands-length, Stands-after}
use dmqtt.Codec.Values.Written.Blocks.{var_int_here}
use dmqtt.Codec.Properties.{
  Properties, no_properties, kinds, property_loop, decode_properties, read_properties,
  encode_fields, encode_pairs, encode_properties,
}
use dmqtt.Codec.Properties.Bounds.{slice_from_inside}
use dmqtt.Codec.Properties.Fields.{AllFit, Known, PairsFit, GoesOn, add_fields, fields_here}
use dmqtt.Codec.Properties.Pairs.{pairs_here}

kinds-Known : Known kinds
unfolding lookup
kinds-Known = (
  refl,
  (
    refl,
    (
      refl,
      (
        refl,
        (
          refl,
          (
            refl,
            (
              refl,
              (
                refl,
                (
                  refl,
                  (
                    refl,
                    (
                      refl,
                      (
                        refl,
                        (
                          refl,
                          (
                            refl,
                            (
                              refl,
                              (
                                refl,
                                (
                                  refl,
                                  (
                                    refl,
                                    (
                                      refl,
                                      (
                                        refl,
                                        (refl, (refl, (refl, (refl, (refl, (refl, (refl, tt))))))),
                                      ),
                                    ),
                                  ),
                                ),
                              ),
                            ),
                          ),
                        ),
                      ),
                    ),
                  ),
                ),
              ),
            ),
          ),
        ),
      ),
    ),
  ),
)

-- Where the section ends, the loop has what it has.
at_end :
    (bytes : Bytes) (end : ℕ) (q : Properties) (s : Bytes)
    → length bytes ≡ end + length s
    → GoesOn bytes end q s (ok q)
unfolding property_loop
at_end bytes end q s g zero offset w e h = absurd (omega arith)
at_end bytes end q s g (suc fuel) offset w e h =
    let past : ltb offset end ≡ false = ground (arith, g, Stands-length bytes offset s h) in
    rw past refl

pub whole_section :
    (bytes : Bytes) (n : ℕ)
    → n ≤ length bytes
    → decode_properties bytes n ≡ property_loop (n + 1) bytes 0 n no_properties
unfolding decode_properties property_loop
whole_section bytes zero h = refl
whole_section bytes (suc n) h =
    let fits : ltb (length bytes) (suc n) ≡ false = ground arith in
    let full : nat_beq (suc n) 0 ≡ false = ground arith in rw (full, fits) refl

abbrev pub body_of : Properties → Bytes
body_of p = encode_fields kinds p.values ++ encode_pairs p.user_properties

-- The properties that the decoder makes: the same fields, in the order of `kinds`.
abbrev pub in_order : Properties → Properties
in_order p = record { values = add_fields kinds p.values []; user_properties = p.user_properties }

decode_properties-body :
    (p : Properties) (s : Bytes)
    → AllFit kinds p.values
    → PairsFit p.user_properties
    → decode_properties (body_of p ++ s) (length (body_of p)) ≡ ok (in_order p)
decode_properties-body p s fit pairs =
    let bytes = body_of p ++ s in
    let end = length (body_of p) in
    let size : length bytes ≡ end + length s = length-append (body_of p) s in
    whole_section bytes end (omega (arith, size))
    ∙ fields_here kinds p.values bytes end no_properties (encode_pairs p.user_properties ++ s) _
        kinds-Known fit (omega (arith, size, length-append (encode_pairs p.user_properties) s))
        (pairs_here p.user_properties bytes end _ s _ pairs (omega (arith, size))
          (at_end bytes end (in_order p) s size))
        (end + 1) 0 (omega arith) (omega arith)
        (subst (λ x. Stands bytes 0 x)
          (append_assoc (encode_fields kinds p.values) (encode_pairs p.user_properties) s)
          (Stands-start bytes))

-- Properties that were written read back where they stand, in the order of `kinds`.
pub read_properties-encode :
    (p : Properties) (bytes : Bytes) (offset : ℕ) (s : Bytes)
    → AllFit kinds p.values
    → PairsFit p.user_properties
    → length (body_of p) < 128 ^ 4
    → Stands bytes offset (encode_properties (some p) ++ s)
    → read_properties bytes offset ≡ ok (in_order p, length (encode_properties (some p)))
unfolding read_properties encode_properties
read_properties-encode p bytes offset s fit pairs small h =
    let body = body_of p in
    let size = encode_var_int (length body) in
    let h1 : Stands bytes offset (size ++ (body ++ s)) =
      subst (λ x. Stands bytes offset x) (append_assoc size body s) h in
    let h2 = Stands-after bytes offset size (body ++ s) h1 in
    rw
      (
        var_int_here bytes offset (length body) (body ++ s) small h1,
        slice_from_inside bytes (offset + length size) h2.inside,
        h2.rest,
        decode_properties-body p s fit pairs,
      )
      (ap (λ n. ok (in_order p, n)) (sym (length-append size body)))
