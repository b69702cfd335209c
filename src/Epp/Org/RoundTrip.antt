-- ===== src/Epp/Org/RoundTrip.antt =====
-- An organization that is stored and loaded.
use simple_dns.Common.{
  ℕ, ◌+◌, ◌^◌, ◌≤◌, ◌<◌, List, [], ◌++◌, Bytes, length, leb, if◌then◌else◌, ◌≡◌, refl, ap, ◌∙◌,
  arith,
}
use simple_dns.Common.Memory.{Outcome, ok, err, ◌>>=◌}
use simple_dns.Endian.Laws.{be32}
use simple_dns.Tlv.{tlv_begin}
use simple_dns.Tlv.Fold.{Tagged, blob_of}
use simple_dns.Tlv.Build.{put_items, tlv_fold-put_items}
use simple_dns.Epp.Codec.{
  tag_orgid, tag_roid, tag_clid, tag_status, tag_parentid, tag_role, tag_email, tag_voice,
  tag_crdate, Output,
}
use simple_dns.Epp.Codec.Writes.{
  IsText, one, optional, repeated, IsSmall, then-IsSmall, one-IsSmall, optional-IsSmall,
  repeated-IsSmall, begun-Writes, then-Writes, put-Writes, put_nonempty-Writes, put_each-Writes,
  put_date-Writes,
}
use simple_dns.Epp.Codec.Reads.{
  set_string_lem, push_string_lem, tlv_u32_of-be32, Reads, then-Reads, one-Reads, optional-Reads,
  repeated-Reads,
}
use simple_dns.Epp.Org.{Org, no_org, epp_org_encode, epp_org_item, epp_org_decode}
use simple_dns.Epp.Org.Safety.{IsOrg}

-- Numbers within their types.
pub record HasWords (o : Org) : Type 0 where
  pub crdate : o.crdate < 2 ^ 32

-- The items of the blob.
abbrev pub items_of : Org → List Tagged
items_of o =
    one tag_orgid o.id
    ++ (one tag_roid o.roid
        ++ (optional tag_clid o.clid
            ++ (repeated tag_status (λ (s : Bytes). s) o.status
                ++ (optional tag_parentid o.parentid
                    ++ (repeated tag_role (λ (s : Bytes). s) o.roles
                        ++ (optional tag_email o.email
                            ++ (optional tag_voice o.voice
                                ++ (one tag_crdate (be32 o.crdate)))))))))

encode_items :
    (o : Org) (buf : Bytes) (cap : ℕ)
    → epp_org_encode o buf cap ≡ (tlv_begin buf cap 1 >>= put_items cap (items_of o))
unfolding epp_org_encode
encode_items o buf cap = begun-Writes buf cap (
    then-Writes (put-Writes cap tag_orgid o.id) (
      then-Writes (put-Writes cap tag_roid o.roid) (
        then-Writes (put_nonempty-Writes cap tag_clid o.clid) (
          then-Writes (put_each-Writes cap tag_status (λ (s : Bytes). s) o.status) (
            then-Writes (put_nonempty-Writes cap tag_parentid o.parentid) (
              then-Writes (put_each-Writes cap tag_role (λ (s : Bytes). s) o.roles) (
                then-Writes (put_nonempty-Writes cap tag_email o.email) (
                  then-Writes (put_nonempty-Writes cap tag_voice o.voice)
                    (put_date-Writes cap tag_crdate o.crdate)))))))))

items_of-Reads : (o : Org) → IsOrg o → HasWords o → Reads epp_org_item (items_of o) no_org o
unfolding epp_org_item
items_of-Reads o h n =
    let step = epp_org_item in
    let s1 = record no_org { id = o.id } in
    let s2 = record s1 { roid = o.roid } in
    let s3 = record s2 { clid = o.clid } in
    let s4 = record s3 { status = o.status } in
    let s5 = record s4 { parentid = o.parentid } in
    let s6 = record s5 { roles = o.roles } in
    let s7 = record s6 { email = o.email } in
    let s8 = record s7 { voice = o.voice } in
    then-Reads step s1 (one-Reads step tag_orgid o.id (rw (set_string_lem 64 [] o.id h.id) refl)) (
      then-Reads step s2
        (one-Reads step tag_roid o.roid (rw (set_string_lem 32 [] o.roid h.roid) refl))
        (then-Reads step s3
          (optional-Reads step tag_clid o.clid (λ (x : Bytes). record s2 { clid = x })
            (rw (set_string_lem 64 [] o.clid h.clid) refl))
          (then-Reads step s4
            (repeated-Reads step (λ (s : Bytes). s) (IsText 32) tag_status
              (λ (x : List Bytes). record s3 { status = x })
              (λ acc e room p. rw (push_string_lem 32 acc e room p) refl) o.status h.status)
            (then-Reads step s5
              (optional-Reads step tag_parentid o.parentid
                (λ (x : Bytes). record s4 { parentid = x })
                (rw (set_string_lem 64 [] o.parentid h.parentid) refl))
              (then-Reads step s6
                (repeated-Reads step (λ (s : Bytes). s) (IsText 32) tag_role
                  (λ (x : List Bytes). record s5 { roles = x })
                  (λ acc e room p. rw (push_string_lem 32 acc e room p) refl) o.roles h.roles)
                (then-Reads step s7
                  (optional-Reads step tag_email o.email (λ (x : Bytes). record s6 { email = x })
                    (rw (set_string_lem 128 [] o.email h.email) refl))
                  (then-Reads step s8
                    (optional-Reads step tag_voice o.voice (λ (x : Bytes). record s7 { voice = x })
                      (rw (set_string_lem 32 [] o.voice h.voice) refl))
                    (one-Reads step tag_crdate (be32 o.crdate)
                      (rw (tlv_u32_of-be32 o.crdate n.crdate) refl)))))))))

items_of-IsSmall : (o : Org) → IsOrg o → IsSmall (items_of o)
items_of-IsSmall o h = then-IsSmall (one-IsSmall tag_orgid o.id (omega (arith, h.id.0))) (
    then-IsSmall (one-IsSmall tag_roid o.roid (omega (arith, h.roid.0))) (
      then-IsSmall (optional-IsSmall tag_clid o.clid (omega (arith, h.clid.0))) (
        then-IsSmall
          (repeated-IsSmall (IsText 32) tag_status (λ s. s) o.status (λ e p. omega (arith, p.0))
            h.status.1)
          (then-IsSmall (optional-IsSmall tag_parentid o.parentid (omega (arith, h.parentid.0))) (
            then-IsSmall
              (repeated-IsSmall (IsText 32) tag_role (λ s. s) o.roles (λ e p. omega (arith, p.0))
                h.roles.1)
              (then-IsSmall (optional-IsSmall tag_email o.email (omega (arith, h.email.0))) (
                then-IsSmall (optional-IsSmall tag_voice o.voice (omega (arith, h.voice.0)))
                  (one-IsSmall tag_crdate (be32 o.crdate) (omega arith)))))))))

-- An organization whose strings and lists fit their arrays is stored exactly when its blob fits the capacity, and
-- is then loaded as it was, every field of it; otherwise nothing is loaded and the outcome is -1.
pub epp_org_decode-epp_org_encode :
    (o : Org) (buf : Bytes) (cap : ℕ)
    → IsOrg o
    → HasWords o
    → cap ≤ length buf
    → (epp_org_encode o buf cap >>= λ r. epp_org_decode r.0 r.1)
      ≡ (if leb (1 + length (blob_of (items_of o))) cap then ok o else err)
unfolding epp_org_decode
epp_org_decode-epp_org_encode o buf cap h n room =
    ap (λ (m : Outcome Output). m >>= λ r. epp_org_decode r.0 r.1) (encode_items o buf cap)
    ∙ tlv_fold-put_items epp_org_item (items_of o) buf cap 1 no_org o room
        (items_of-IsSmall o h).all (items_of-Reads o h n).read
