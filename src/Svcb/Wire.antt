-- ===== src/Svcb/Wire.antt =====
-- What `svcb_tlv_to_wire` writes.
use simple_dns.Common.{
  ℕ, bit_and, suc, ◌+◌, ◌-◌, ◌≤◌, true, ◌&&◌, Option, none, some, List, [], ◌∷◌, ◌++◌, Bytes,
  length, ltb, leb, ltb→lt, ltb_false→le, le→leb, lt→leb, length-append, append_assoc, append-nil,
  if◌then◌else◌, Bool-cases, inl, inr, ◌≡◌, refl, ap, ◌∙◌, arith,
}
use simple_dns.Common.Bits.{shr, bit_and_byte}
use simple_dns.Common.Memory.{ok, err, write, write_fits, patch, length-patch, patch-patch}
use simple_dns.Endian.{to_u8}
use simple_dns.Endian.Laws.{be16, byte_byte, write_behind}
use simple_dns.Name.{labels_in}
use simple_dns.Name.Wire.{wire_of, all_short, names_fit, length-wire_of-pos, name_to_wire_lem}
use simple_dns.Svcb.{Service, put_params, target_or_root, svcb_put}

-- RFC 9460 §2.2: the parameters that are there, in the order of their keys, from `key` on.
abbrev pub params_of : ℕ → List (Option Bytes) → Bytes
params_of key [] = []
params_of key (none ∷ ps) = params_of (suc key) ps
params_of key (some val ∷ ps) = be16 key ++ (be16 (length val) ++ (val ++ params_of (suc key) ps))

-- The key and the length of a parameter.
head_lem :
    (key n : ℕ)
    → ◌≡◌ {A = Bytes}
        (to_u8 (shr key 8)
          ∷ to_u8 (bit_and key 0xff)
          ∷ to_u8 (shr n 8)
          ∷ to_u8 (bit_and n 0xff)
          ∷ [])
        (be16 key ++ be16 n)
head_lem key n = simp (bit_and_byte, byte_byte) refl

-- Behind `vs`, which are written already, the loop writes the parameters, or they do not fit.
put_params_lem :
    (ps : List (Option Bytes)) (key : ℕ) (out vs : Bytes) (o outcap : ℕ)
    → outcap ≤ length out
    → o ≡ length vs
    → length vs ≤ outcap
    → put_params ps key (patch out 0 vs) o outcap ≡ (
        if leb (length (vs ++ params_of key ps)) outcap
        then ok (patch out 0 (vs ++ params_of key ps), length (vs ++ params_of key ps))
        else err)
unfolding put_params
put_params_lem [] key out vs o outcap h at fits =
    rw (append-nil, le→leb (length vs) outcap fits) (ap (λ (i : ℕ). ok (patch out 0 vs, i)) at)
put_params_lem (none ∷ ps) key out vs o outcap h at fits =
    put_params_lem ps (suc key) out vs o outcap h at fits
put_params_lem (some val ∷ ps) key out vs o outcap h at fits =
    let front : Bytes = be16 key ++ be16 (length val) in
    let all : Bytes = (vs ++ front) ++ val in
    let n : length all ≡ length vs + 4 + length val =
      omega (arith, length-append (vs ++ front) val, length-append vs front) in
    let whole : all ++ params_of (suc key) ps ≡ vs ++ params_of key (some val ∷ ps) =
      append_assoc (vs ++ front) val (params_of (suc key) ps)
      ∙ append_assoc vs front (val ++ params_of (suc key) ps) in
    elim (Bool-cases (ltb outcap (o + 4 + length val))) [
      | inl e ↦
          let short : o + 4 + length val ≤ length (vs ++ params_of key (some val ∷ ps)) =
            omega (arith, ap length whole, length-append all (params_of (suc key) ps)) in
          rw
            (
              e,
              lt→leb (length (vs ++ params_of key (some val ∷ ps))) outcap
                  (omega (arith, ltb→lt _ _ e)),
            )
            refl
      | inr e ↦
          let room : o + 4 + length val ≤ outcap = ltb_false→le _ _ e in
          rw
            (
              e,
              head_lem key (length val),
              write_behind out 0 vs front o (omega (arith, at)) (omega arith),
              write_behind out 0 (vs ++ front) val (o + 4) (omega (arith, length-append vs front))
                  (omega (arith, length-append vs front)),
              put_params_lem ps (suc key) out all (o + 4 + length val) outcap h (omega arith)
                  (omega arith),
              whole,
            )
            refl
    ]

-- The rdata of a service: RFC 9460 §2.2.
abbrev pub service_wire : ℕ → Service → Bytes
service_wire prio s =
    be16 prio ++ (wire_of (labels_in (target_or_root s.target)) ++ params_of 0 s.params)

service_size :
    (prio : ℕ) (s : Service)
    → length (service_wire prio s)
      ≡ 2 + length (wire_of (labels_in (target_or_root s.target))) + length (params_of 0 s.params)
service_size prio s =
    omega
      (arith, length-append (wire_of (labels_in (target_or_root s.target))) (params_of 0 s.params))

-- The output is the rdata of RFC 9460, exactly when it fits and the labels of the target are short.
pub svcb_put_lem :
    (prio : ℕ) (s : Service) (out : Bytes) (outcap : ℕ)
    → outcap ≤ length out
    → svcb_put prio s out outcap ≡ (
        if all_short (labels_in (target_or_root s.target))
          && leb (length (service_wire prio s)) outcap
        then ok (patch out 0 (service_wire prio s), length (service_wire prio s))
        else err)
unfolding svcb_put
svcb_put_lem prio s out outcap h =
    let ls : List Bytes = labels_in (target_or_root s.target) in
    let w : Bytes = wire_of ls in
    let size = service_size prio s in
    let some_label : 1 ≤ length w = length-wire_of-pos ls in
    elim (Bool-cases (ltb outcap 2)) [
      | inl e ↦ ground (arith, size, some_label)
      | inr e ↦
          let room : 2 ≤ outcap = ltb_false→le _ _ e in
          let first : write out 0 (to_u8 (shr prio 8) ∷ to_u8 (bit_and prio 0xff) ∷ [])
              ≡ ok (patch out 0 (be16 prio)) =
            simp (bit_and_byte, byte_byte) (write_fits out 0 (be16 prio) (omega arith)) in
          let named =
            name_to_wire_lem (target_or_root s.target) (patch out 0 (be16 prio)) 2 (outcap - 2)
              (omega (arith, length-patch out 0 (be16 prio))) in
          elim (Bool-cases (names_fit ls 0 (outcap - 2))) [
            | inl f ↦
                let fits : 2 + length w ≤ outcap = ground arith in
                let short : all_short ls ≡ true = ground arith in
                let joined : patch (patch out 0 (be16 prio)) (2 + 0) w
                    ≡ patch out 0 (be16 prio ++ w) =
                  patch-patch out 0 (be16 prio) w in
                rw
                  (
                    e,
                    first,
                    named,
                    f,
                    joined,
                    put_params_lem s.params 0 out (be16 prio ++ w) (2 + (0 + length w)) outcap h
                        (omega arith) (omega (arith, fits)),
                    short,
                  )
                  refl
            | inr f ↦ rw (e, first, named, f) (ground (arith, size, f))
          ]
    ]
