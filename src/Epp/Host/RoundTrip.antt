-- ===== src/Epp/Host/RoundTrip.antt =====
-- A host that is stored and loaded.
use simple_dns.Common.{
  ℕ, ◌+◌, ◌^◌, ◌≤◌, ◌<◌, List, [], ◌++◌, Bytes, length, leb, if◌then◌else◌, ◌≡◌, refl, ap, ◌∙◌,
  arith,
}
use simple_dns.Common.Memory.{Outcome, ok, err, ◌>>=◌}
use simple_dns.Endian.Laws.{be32}
use simple_dns.Tlv.{tlv_begin}
use simple_dns.Tlv.Fold.{Tagged, blob_of}
use simple_dns.Tlv.Build.{put_items, tlv_fold-put_items}
use simple_dns.Epp.Codec.{
  tag_roid, tag_clid, tag_status, tag_addr_v4, tag_addr_v6, tag_crdate, Output,
}
use simple_dns.Epp.Codec.Writes.{
  IsText, one, optional, repeated, IsSmall, then-IsSmall, one-IsSmall, optional-IsSmall,
  repeated-IsSmall, begun-Writes, then-Writes, put-Writes, put_nonempty-Writes, put_each-Writes,
  put_date-Writes,
}
use simple_dns.Epp.Codec.Reads.{
  set_string_lem, push_string_lem, tlv_u32_of-be32, Reads, then-Reads, one-Reads, optional-Reads,
  repeated-Reads,
}
use simple_dns.Epp.Host.{Host, no_host, epp_host_encode, epp_host_item, epp_host_decode}
use simple_dns.Epp.Host.Safety.{IsHost}

-- Numbers within their types.
pub record HasWords (x : Host) : Type 0 where
  pub crdate : x.crdate < 2 ^ 32

-- The items of the blob.
abbrev pub items_of : Host → List Tagged
items_of x =
    one tag_roid x.roid
    ++ (optional tag_clid x.clid
        ++ (repeated tag_status (λ (s : Bytes). s) x.status
            ++ (repeated tag_addr_v4 (λ (s : Bytes). s) x.v4
                ++ (repeated tag_addr_v6 (λ (s : Bytes). s) x.v6
                    ++ (one tag_crdate (be32 x.crdate))))))

encode_items :
    (x : Host) (buf : Bytes) (cap : ℕ)
    → epp_host_encode x buf cap ≡ (tlv_begin buf cap 1 >>= put_items cap (items_of x))
unfolding epp_host_encode
encode_items x buf cap = begun-Writes buf cap (
    then-Writes (put-Writes cap tag_roid x.roid) (
      then-Writes (put_nonempty-Writes cap tag_clid x.clid) (
        then-Writes (put_each-Writes cap tag_status (λ (s : Bytes). s) x.status) (
          then-Writes (put_each-Writes cap tag_addr_v4 (λ (s : Bytes). s) x.v4) (
            then-Writes (put_each-Writes cap tag_addr_v6 (λ (s : Bytes). s) x.v6)
              (put_date-Writes cap tag_crdate x.crdate))))))

items_of-Reads : (x : Host) → IsHost x → HasWords x → Reads epp_host_item (items_of x) no_host x
unfolding epp_host_item
items_of-Reads x h n =
    let step = epp_host_item in
    let s1 = record no_host { roid = x.roid } in
    let s2 = record s1 { clid = x.clid } in
    let s3 = record s2 { status = x.status } in
    let s4 = record s3 { v4 = x.v4 } in
    let s5 = record s4 { v6 = x.v6 } in
    then-Reads step s1
      (one-Reads step tag_roid x.roid (rw (set_string_lem 32 [] x.roid h.roid) refl))
      (then-Reads step s2
        (optional-Reads step tag_clid x.clid (λ (x : Bytes). record s1 { clid = x })
          (rw (set_string_lem 64 [] x.clid h.clid) refl))
        (then-Reads step s3
          (repeated-Reads step (λ (s : Bytes). s) (IsText 32) tag_status
            (λ (x : List Bytes). record s2 { status = x })
            (λ acc e room p. rw (push_string_lem 32 acc e room p) refl) x.status h.status)
          (then-Reads step s4
            (repeated-Reads step (λ (s : Bytes). s) (IsText 16) tag_addr_v4
              (λ (x : List Bytes). record s3 { v4 = x })
              (λ acc e room p. rw (push_string_lem 16 acc e room p) refl) x.v4 h.v4)
            (then-Reads step s5
              (repeated-Reads step (λ (s : Bytes). s) (IsText 46) tag_addr_v6
                (λ (x : List Bytes). record s4 { v6 = x })
                (λ acc e room p. rw (push_string_lem 46 acc e room p) refl) x.v6 h.v6)
              (one-Reads step tag_crdate (be32 x.crdate)
                (rw (tlv_u32_of-be32 x.crdate n.crdate) refl))))))

items_of-IsSmall : (x : Host) → IsHost x → IsSmall (items_of x)
items_of-IsSmall x h = then-IsSmall (one-IsSmall tag_roid x.roid (omega (arith, h.roid.0))) (
    then-IsSmall (optional-IsSmall tag_clid x.clid (omega (arith, h.clid.0))) (
      then-IsSmall
        (repeated-IsSmall (IsText 32) tag_status (λ s. s) x.status (λ e p. omega (arith, p.0))
          h.status.1)
        (then-IsSmall
          (repeated-IsSmall (IsText 16) tag_addr_v4 (λ s. s) x.v4 (λ e p. omega (arith, p.0))
            h.v4.1)
          (then-IsSmall
            (repeated-IsSmall (IsText 46) tag_addr_v6 (λ s. s) x.v6 (λ e p. omega (arith, p.0))
              h.v6.1)
            (one-IsSmall tag_crdate (be32 x.crdate) (omega arith))))))

-- A host whose strings and lists fit their arrays is stored exactly when its blob fits the capacity, and
-- is then loaded as it was, every field of it; otherwise nothing is loaded and the outcome is -1.
pub epp_host_decode-epp_host_encode :
    (x : Host) (buf : Bytes) (cap : ℕ)
    → IsHost x
    → HasWords x
    → cap ≤ length buf
    → (epp_host_encode x buf cap >>= λ r. epp_host_decode r.0 r.1)
      ≡ (if leb (1 + length (blob_of (items_of x))) cap then ok x else err)
unfolding epp_host_decode
epp_host_decode-epp_host_encode x buf cap h n room =
    ap (λ (m : Outcome Output). m >>= λ r. epp_host_decode r.0 r.1) (encode_items x buf cap)
    ∙ tlv_fold-put_items epp_host_item (items_of x) buf cap 1 no_host x room
        (items_of-IsSmall x h).all (items_of-Reads x h n).read
