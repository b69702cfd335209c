-- ===== src/Tests/Messages.antt =====
-- Records, compression and EDNS.
use simple_dns.Common.{
  ℕ, ◌+◌, take, ◌<◌, ◌≢◌, true, ◌&&◌, [], ◌∷◌, ◌++◌, Bytes, All, length, replicate, leb,
  if◌then◌else◌, ◌≡◌, refl, arith,
}
use simple_dns.Common.Memory.{ok, err, patch, write, read, slice, ◌>>=◌}
use simple_dns.Common.Memory.Safe.{Holds}
use simple_dns.Common.Text.{strlower, tokens, safe_strcpy, strcase_eq}
use simple_dns.Common.Text.Split.{join}
use simple_dns.Common.Text.Case.{strcase_eq_refl}
use simple_dns.Endian.{put16, put32, get16}
use simple_dns.Name.{labels_in, name_from_wire}
use simple_dns.Name.Wire.{all_short}
use simple_dns.Compress.{name_to_wire_c}
use simple_dns.Compress.Spells.{Spells, root, label, pointer, name_from_wire-Spells}
use simple_dns.Compress.Sound.{AllValid}
use simple_dns.Compress.Sound.Names.{Named, name_to_wire_c-Named}
use simple_dns.Record.{append_fields, append_rr, append_rr_plain}
use simple_dns.Record.Laws.{wire_of_rr, append_rr_plain_lem}
use simple_dns.Record.Compressed.{Appended, append_rr-Appended}
use simple_dns.Edns.{
  edns_parse, skip_questions, skip_rrs, skip_name, skip_from, edns_scan, edns_opt, edns_options,
  edns_option, edns_cookie,
}
use simple_dns.Edns.Safety.{IsParsed, edns_parse-IsParsed}
use simple_dns.Edns.Skip.{skip_name-Spells}
use simple_dns.Canon.{canon_rdata}
use simple_dns.Canon.Safety.{Within, canon_rdata-Within}
use simple_dns.Canon.Names.{PlainName}
use simple_dns.Tests.{blank, www_ab, ab, message, context, record_a}

abbrev message_Spells : Spells message 2 0 (ab ∷ [])
message_Spells = label 0 ab (0 ∷ []) (omega arith, omega arith) refl (root 3 [] refl)

abbrev context_AllValid : AllValid message context
context_AllValid = (
  record {
    spelled = record {
      rounds = 2;
      labels = ab ∷ [];
      spells = message_Spells;
      tokens_only = (((refl, (refl, tt)), omega arith), tt);
      same = strcase_eq_refl ab;
      bound = omega arith;
    };
    low = omega arith;
  },
  tt,
)

nonzero : (n : ℕ) → 0 < n → n ≢ 0
nonzero n h e = omega (arith, e)

no_nul : All (λ c. c ≢ 0) www_ab
no_nul = (
  nonzero 87 (omega arith),
  (
    nonzero 119 (omega arith),
    (
      nonzero 119 (omega arith),
      (nonzero 46 (omega arith), (nonzero 65 (omega arith), (nonzero 98 (omega arith), tt))),
    ),
  ),
)

shortness : all_short (labels_in www_ab) ≡ true
unfolding tokens safe_strcpy
shortness = refl

few : length (labels_in www_ab) < 64
unfolding tokens safe_strcpy
few = omega arith

append_rr-Appended_example :
    Appended message record_a 44 44 (append_rr context record_a (message ++ blank) 4 44)
append_rr-Appended_example =
    append_rr-Appended context record_a message blank 44 (omega arith) context_AllValid no_nul
      shortness few

-- "www", and a pointer to the name at 0.
compresses :
    (append_rr context record_a (message ++ blank) 4 44).1
    ≡ ok (
      message
          ++ (3 ∷ 87 ∷ 119 ∷ 119 ∷ 192 ∷ 0 ∷ 0 ∷ 1 ∷ 0 ∷ 1 ∷ 0 ∷ 0 ∷ 1 ∷ 44 ∷ 0 ∷ 4 ∷ 10 ∷ 0 ∷ 0 ∷ 1
              ∷ [])
          ++ replicate 20 0,
      24,
    )
unfolding append_rr append_fields name_to_wire_c tokens safe_strcpy strcase_eq put16 put32 write
compresses = refl

name_to_wire_c-Named_example :
    Named message www_ab 44 44 (name_to_wire_c context www_ab (message ++ blank) 4 44 4)
name_to_wire_c-Named_example =
    name_to_wire_c-Named context www_ab message blank 44 (omega arith) context_AllValid no_nul
      shortness few

-- "x" with a pointer to "ab".
abbrev pointing : Bytes
pointing = message ++ (1 ∷ 120 ∷ 192 ∷ 0 ∷ [])

abbrev pointing_Spells : Spells pointing 4 4 ((120 ∷ []) ∷ ab ∷ [])
pointing_Spells =
    label 4 (120 ∷ []) (192 ∷ 0 ∷ []) (omega arith, omega arith) refl
      (pointer 6 192 0 [] (omega arith, omega arith, omega arith) refl (omega arith)
        (label 0 ab (0 ∷ 1 ∷ 120 ∷ 192 ∷ 0 ∷ []) (omega arith, omega arith) refl
          (root 3 (1 ∷ 120 ∷ 192 ∷ 0 ∷ []) refl)))

name_from_wire-Spells_example :
    name_from_wire (pointing ++ blank) 8 4 256 ≡ ok (strlower (join b'.' ((120 ∷ []) ∷ ab ∷ [])), 8)
name_from_wire-Spells_example =
    name_from_wire-Spells pointing blank 256 pointing_Spells (omega arith) (omega arith)
      (omega arith)

skip_name-Spells_example : skip_name (pointing ++ blank) 8 4 ≡ ok 8
skip_name-Spells_example = skip_name-Spells pointing blank pointing_Spells (omega arith)

append_rr_plain_lem_example : append_rr_plain record_a blank 3 40 ≡ (
    if all_short (labels_in www_ab) && leb (3 + length (wire_of_rr record_a)) 40
    then ok (patch blank 3 (wire_of_rr record_a), 3 + length (wire_of_rr record_a))
    else err)
append_rr_plain_lem_example = append_rr_plain_lem record_a blank 3 40 (omega arith) (omega arith)

-- A query for the root, and an OPT record with a cookie of 8 + 8 bytes.
abbrev query : Bytes
query =
    0 ∷ 1 ∷ 1 ∷ 0 ∷ 0 ∷ 1 ∷ 0 ∷ 0 ∷ 0 ∷ 0 ∷ 0 ∷ 1 ∷ 0 ∷ 0 ∷ 1 ∷ 0 ∷ 1 ∷ 0 ∷ 0 ∷ 41 ∷ 4 ∷ 208 ∷ 0 ∷ 0
    ∷ 128 ∷ 0 ∷ 0 ∷ 20 ∷ 0 ∷ 10 ∷ 0 ∷ 16 ∷ 1 ∷ 2 ∷ 3 ∷ 4 ∷ 5 ∷ 6 ∷ 7 ∷ 8 ∷ 9 ∷ 10 ∷ 11 ∷ 12 ∷ 13
    ∷ 14 ∷ 15 ∷ 16 ∷ []

edns_parse-IsParsed_example : Holds IsParsed (edns_parse query 48)
edns_parse-IsParsed_example = edns_parse-IsParsed query 48 (omega arith)

-- The server cookie is read.
parses :
    (edns_parse query 48 >>= λ ei. ok (take ei.server_cookie_len ei.server_cookie))
    ≡ ok (9 ∷ 10 ∷ 11 ∷ 12 ∷ 13 ∷ 14 ∷ 15 ∷ 16 ∷ [])
unfolding edns_parse skip_questions skip_rrs skip_name skip_from edns_scan edns_opt edns_options
    edns_option edns_cookie get16 read write slice
parses = refl

-- "AB", and the rdata of an MX record: preference 10 and "X" with a pointer to "AB".
abbrev exchange : Bytes
exchange = 2 ∷ 65 ∷ 66 ∷ 0 ∷ 0 ∷ 10 ∷ 1 ∷ 88 ∷ 192 ∷ 0 ∷ []

abbrev exchange_name : PlainName exchange 6
exchange_name = record {
  rounds = 4;
  labels = (88 ∷ []) ∷ (65 ∷ 66 ∷ []) ∷ [];
  spells =
      label 6 (88 ∷ []) (192 ∷ 0 ∷ []) (omega arith, omega arith) refl
        (pointer 8 192 0 [] (omega arith, omega arith, omega arith) refl (omega arith)
          (label 0 (65 ∷ 66 ∷ []) (0 ∷ 0 ∷ 10 ∷ 1 ∷ 88 ∷ 192 ∷ 0 ∷ []) (omega arith, omega arith)
            refl (root 3 (0 ∷ 10 ∷ 1 ∷ 88 ∷ 192 ∷ 0 ∷ []) refl)));
  few = omega arith;
  room = omega arith;
  plain = (
    ((refl, nonzero 88 (omega arith)), tt),
    (((refl, nonzero 65 (omega arith)), ((refl, nonzero 66 (omega arith)), tt)), tt),
  );
}

canon_rdata-Within_example :
    Holds (Within blank 40) (canon_rdata (pointing ++ blank) 8 4 4 2 blank 40)
canon_rdata-Within_example =
    canon_rdata-Within (pointing ++ blank) 8 (omega arith) 4 4 2 blank 40 (omega arith)
