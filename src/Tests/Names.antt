-- ===== src/Tests/Names.antt =====
-- Names on the wire.
use simple_dns.Common.{List, [], ◌∷◌, ◌++◌, Bytes, All-replicate, replicate, ◌≡◌, refl, arith}
use simple_dns.Common.Memory.{ok, err, write}
use simple_dns.Common.Text.{strlower, tokens, safe_strcpy}
use simple_dns.Common.Text.Split.{join}
use simple_dns.Name.{labels_in, name_to_wire, name_from_wire, txt_encode}
use simple_dns.Name.Wire.{labels_of, labels_result, name_to_wire_lem}
use simple_dns.Name.Safety.{Bounded, name_from_wire-Bounded}
use simple_dns.Name.RoundTrip.{IsLabel, name_from_wire-name_to_wire}
use simple_dns.Name.Pointer.{IsCompressed, name_from_wire_cut_off}
use simple_dns.Name.Txt.{Encoded, txt_encode-Encoded}
use simple_dns.Tests.{blank, www_ab}

abbrev www_ab_wire : Bytes
www_ab_wire = 3 ∷ 87 ∷ 119 ∷ 119 ∷ 2 ∷ 65 ∷ 98 ∷ 0 ∷ []

writes_name : name_to_wire www_ab blank 0 40 ≡ ok (www_ab_wire ++ replicate 32 0, 8)
unfolding name_to_wire tokens safe_strcpy write
writes_name = refl

too_long : name_to_wire www_ab blank 0 7 ≡ err
unfolding name_to_wire tokens safe_strcpy write
too_long = refl

name_to_wire_lem_example :
    name_to_wire www_ab blank 2 38 ≡ labels_result (labels_in www_ab) blank 2 38 0
name_to_wire_lem_example = name_to_wire_lem www_ab blank 2 38 (omega arith)

name_from_wire-name_to_wire_example :
    name_from_wire (www_ab_wire ++ replicate 32 0) 40 0 256
    ≡ ok (strlower (join b'.' (labels_in www_ab)), 8)
unfolding name_to_wire tokens safe_strcpy write
name_from_wire-name_to_wire_example =
    name_from_wire-name_to_wire www_ab blank (www_ab_wire ++ replicate 32 0) 0 40 8 40 256
      (omega arith) writes_name (omega arith) (omega arith) (omega arith) (omega arith)

-- A label that runs past the message.
name_from_wire-Bounded_example : Bounded 1 3 256 (name_from_wire (2 ∷ 97 ∷ 98 ∷ []) 3 1 256)
name_from_wire-Bounded_example =
    name_from_wire-Bounded (2 ∷ 97 ∷ 98 ∷ []) 3 1 256 (omega arith) (omega arith) (omega arith)

-- "ab" at 0, and at 4 a label with a pointer to 0, or to itself.
abbrev back : Bytes
back = 2 ∷ 97 ∷ 98 ∷ 0 ∷ 1 ∷ 120 ∷ 192 ∷ 0 ∷ []

abbrev itself : Bytes
itself = 2 ∷ 97 ∷ 98 ∷ 0 ∷ 1 ∷ 120 ∷ 192 ∷ 6 ∷ []

abbrev back_IsCompressed : IsCompressed back 8 4 256 ((120 ∷ []) ∷ []) 192 0
back_IsCompressed = record {
  rest = [];
  inside = omega arith;
  labels = ((omega arith, omega arith), tt);
  pointer = (omega arith, omega arith, omega arith);
  holds = refl;
  fits = omega arith;
  large = omega arith;
  room = omega arith;
}

abbrev itself_IsCompressed : IsCompressed itself 8 4 256 ((120 ∷ []) ∷ []) 192 6
itself_IsCompressed = record {
  rest = [];
  inside = omega arith;
  labels = ((omega arith, omega arith), tt);
  pointer = (omega arith, omega arith, omega arith);
  holds = refl;
  fits = omega arith;
  large = omega arith;
  room = omega arith;
}

-- 128 labels of one byte, and no root label.
abbrev many : List Bytes
many = replicate 128 (120 ∷ [])

name_from_wire_cut_off_example :
    name_from_wire (labels_of many ++ []) 256 0 300 ≡ ok (strlower (join b'.' many), 256)
name_from_wire_cut_off_example =
    name_from_wire_cut_off (labels_of many ++ []) 256 0 300 many [] (omega arith)
      (All-replicate IsLabel 128 (120 ∷ []) (omega arith, omega arith)) refl refl (omega arith)
      (omega arith) (omega arith)

txt_encode-Encoded_example : Encoded www_ab [] 300 (txt_encode www_ab 300)
txt_encode-Encoded_example = txt_encode-Encoded www_ab 300

encodes : txt_encode www_ab 300 ≡ ok (6 ∷ www_ab)
unfolding txt_encode
encodes = refl
