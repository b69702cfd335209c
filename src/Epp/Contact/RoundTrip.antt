-- ===== src/Epp/Contact/RoundTrip.antt =====
-- A contact that is stored and loaded.
use simple_dns.Common.{
  ℕ, ◌+◌, ◌^◌, ◌≤◌, ◌<◌, List, [], ◌++◌, Bytes, length, leb, if◌then◌else◌, ◌≡◌, refl, ap, ◌∙◌,
  arith,
}
use simple_dns.Common.Memory.{Outcome, ok, err, ◌>>=◌}
use simple_dns.Endian.Laws.{be32}
use simple_dns.Tlv.{tlv_begin}
use simple_dns.Tlv.Fold.{Tagged, blob_of}
use simple_dns.Tlv.Build.{put_items, tlv_fold-put_items}
use simple_dns.Epp.Codec.{
  tag_roid, tag_clid, tag_name, tag_email, tag_voice, tag_authinfo, tag_crdate, Output,
}
use simple_dns.Epp.Codec.Writes.{
  one, optional, IsSmall, then-IsSmall, one-IsSmall, optional-IsSmall, begun-Writes, then-Writes,
  put-Writes, put_nonempty-Writes, put_date-Writes,
}
use simple_dns.Epp.Codec.Reads.{
  set_string_lem, tlv_u32_of-be32, Reads, then-Reads, one-Reads, optional-Reads,
}
use simple_dns.Epp.Contact.{
  Contact, no_contact, epp_contact_encode, epp_contact_item, epp_contact_decode,
}
use simple_dns.Epp.Contact.Safety.{IsContact}

-- Numbers within their types.
pub record HasWords (c : Contact) : Type 0 where
  pub crdate : c.crdate < 2 ^ 32

-- The items of the blob.
abbrev pub items_of : Contact → List Tagged
items_of c =
    one tag_roid c.roid
    ++ (optional tag_clid c.clid
        ++ (optional tag_name c.name
            ++ (optional tag_email c.email
                ++ (optional tag_voice c.voice
                    ++ (optional tag_authinfo c.authinfo ++ (one tag_crdate (be32 c.crdate)))))))

encode_items :
    (c : Contact) (buf : Bytes) (cap : ℕ)
    → epp_contact_encode c buf cap ≡ (tlv_begin buf cap 1 >>= put_items cap (items_of c))
unfolding epp_contact_encode
encode_items c buf cap = begun-Writes buf cap (
    then-Writes (put-Writes cap tag_roid c.roid) (
      then-Writes (put_nonempty-Writes cap tag_clid c.clid) (
        then-Writes (put_nonempty-Writes cap tag_name c.name) (
          then-Writes (put_nonempty-Writes cap tag_email c.email) (
            then-Writes (put_nonempty-Writes cap tag_voice c.voice) (
              then-Writes (put_nonempty-Writes cap tag_authinfo c.authinfo)
                (put_date-Writes cap tag_crdate c.crdate)))))))

items_of-Reads :
    (c : Contact) → IsContact c → HasWords c → Reads epp_contact_item (items_of c) no_contact c
unfolding epp_contact_item
items_of-Reads c h n =
    let step = epp_contact_item in
    let s1 = record no_contact { roid = c.roid } in
    let s2 = record s1 { clid = c.clid } in
    let s3 = record s2 { name = c.name } in
    let s4 = record s3 { email = c.email } in
    let s5 = record s4 { voice = c.voice } in
    let s6 = record s5 { authinfo = c.authinfo } in
    then-Reads step s1
      (one-Reads step tag_roid c.roid (rw (set_string_lem 32 [] c.roid h.roid) refl))
      (then-Reads step s2
        (optional-Reads step tag_clid c.clid (λ (x : Bytes). record s1 { clid = x })
          (rw (set_string_lem 64 [] c.clid h.clid) refl))
        (then-Reads step s3
          (optional-Reads step tag_name c.name (λ (x : Bytes). record s2 { name = x })
            (rw (set_string_lem 128 [] c.name h.name) refl))
          (then-Reads step s4
            (optional-Reads step tag_email c.email (λ (x : Bytes). record s3 { email = x })
              (rw (set_string_lem 128 [] c.email h.email) refl))
            (then-Reads step s5
              (optional-Reads step tag_voice c.voice (λ (x : Bytes). record s4 { voice = x })
                (rw (set_string_lem 32 [] c.voice h.voice) refl))
              (then-Reads step s6
                (optional-Reads step tag_authinfo c.authinfo
                  (λ (x : Bytes). record s5 { authinfo = x })
                  (rw (set_string_lem 256 [] c.authinfo h.authinfo) refl))
                (one-Reads step tag_crdate (be32 c.crdate)
                  (rw (tlv_u32_of-be32 c.crdate n.crdate) refl)))))))

items_of-IsSmall : (c : Contact) → IsContact c → IsSmall (items_of c)
items_of-IsSmall c h = then-IsSmall (one-IsSmall tag_roid c.roid (omega (arith, h.roid.0))) (
    then-IsSmall (optional-IsSmall tag_clid c.clid (omega (arith, h.clid.0))) (
      then-IsSmall (optional-IsSmall tag_name c.name (omega (arith, h.name.0))) (
        then-IsSmall (optional-IsSmall tag_email c.email (omega (arith, h.email.0))) (
          then-IsSmall (optional-IsSmall tag_voice c.voice (omega (arith, h.voice.0))) (
            then-IsSmall (optional-IsSmall tag_authinfo c.authinfo (omega (arith, h.authinfo.0)))
              (one-IsSmall tag_crdate (be32 c.crdate) (omega arith)))))))

-- A contact whose strings and lists fit their arrays is stored exactly when its blob fits the capacity, and
-- is then loaded as it was, every field of it; otherwise nothing is loaded and the outcome is -1.
pub epp_contact_decode-epp_contact_encode :
    (c : Contact) (buf : Bytes) (cap : ℕ)
    → IsContact c
    → HasWords c
    → cap ≤ length buf
    → (epp_contact_encode c buf cap >>= λ r. epp_contact_decode r.0 r.1)
      ≡ (if leb (1 + length (blob_of (items_of c))) cap then ok c else err)
unfolding epp_contact_decode
epp_contact_decode-epp_contact_encode c buf cap h n room =
    ap (λ (m : Outcome Output). m >>= λ r. epp_contact_decode r.0 r.1) (encode_items c buf cap)
    ∙ tlv_fold-put_items epp_contact_item (items_of c) buf cap 1 no_contact c room
        (items_of-IsSmall c h).all (items_of-Reads c h n).read
