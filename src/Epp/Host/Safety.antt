-- ===== src/Epp/Host/Safety.antt =====
-- What the decoder makes of any bytes.
use simple_dns.Common.{ℕ, ◌≤◌, Bytes, length, ◌==◌, arith}
use simple_dns.Common.Memory.Safe.{Holds, Any, if-Holds, bind-Holds}
use simple_dns.Tlv.Build.{tlv_fold-Holds_behind}
use simple_dns.Epp.Codec.{
  tag_roid, tag_clid, tag_status, tag_addr_v4, tag_addr_v6, tag_crdate, tlv_u32_of,
}
use simple_dns.Epp.Codec.Writes.{IsText, AreAll}
use simple_dns.Epp.Codec.Safety.{set_string-IsText, push_string-AreAll, tlv_u32_of-Any}
use simple_dns.Epp.Host.{Host, no_host, epp_host_item, epp_host_decode}

-- What `epp_host_t` can hold: strings without NUL that leave room for one, and at most 16 entries.
pub record IsHost (x : Host) : Type 0 where
  pub roid : IsText 32 x.roid
  pub clid : IsText 64 x.clid
  pub status : AreAll (IsText 32) x.status
  pub v4 : AreAll (IsText 16) x.v4
  pub v6 : AreAll (IsText 46) x.v6

no_host-IsHost : IsHost no_host
no_host-IsHost = record {
  roid = (omega arith, tt);
  clid = (omega arith, tt);
  status = (omega arith, tt);
  v4 = (omega arith, tt);
  v6 = (omega arith, tt);
}

epp_host_item-IsHost :
    (x : Host) (tag : ℕ) (val : Bytes) → IsHost x → Holds IsHost (epp_host_item x tag val)
unfolding epp_host_item
epp_host_item-IsHost x tag val h =
    if-Holds IsHost (tag == tag_roid) _ _
      (λ _. record {
        roid = set_string-IsText 32 x.roid val h.roid;
        clid = h.clid;
        status = h.status;
        v4 = h.v4;
        v6 = h.v6;
      })
      (λ _.
        if-Holds IsHost (tag == tag_status) _ _
          (λ _. record {
            roid = h.roid;
            clid = h.clid;
            status = push_string-AreAll 32 x.status val h.status;
            v4 = h.v4;
            v6 = h.v6;
          })
          (λ _.
            if-Holds IsHost (tag == tag_addr_v4) _ _
              (λ _. record {
                roid = h.roid;
                clid = h.clid;
                status = h.status;
                v4 = push_string-AreAll 16 x.v4 val h.v4;
                v6 = h.v6;
              })
              (λ _.
                if-Holds IsHost (tag == tag_addr_v6) _ _
                  (λ _. record {
                    roid = h.roid;
                    clid = h.clid;
                    status = h.status;
                    v4 = h.v4;
                    v6 = push_string-AreAll 46 x.v6 val h.v6;
                  })
                  (λ _.
                    if-Holds IsHost (tag == tag_crdate) _ _
                      (λ _. bind-Holds Any IsHost (tlv_u32_of val) _ (tlv_u32_of-Any val) (λ m p.
                        record {
                          roid = h.roid;
                          clid = h.clid;
                          status = h.status;
                          v4 = h.v4;
                          v6 = h.v6;
                        }))
                      (λ _.
                        if-Holds IsHost (tag == tag_clid) _ _
                          (λ _. record {
                            roid = h.roid;
                            clid = set_string-IsText 64 x.clid val h.clid;
                            status = h.status;
                            v4 = h.v4;
                            v6 = h.v6;
                          })
                          (λ _. h))))))

-- On any bytes `epp_host_decode` reads within the blob and ends, and what it loads has strings and
-- lists that fit their arrays.
pub epp_host_decode-IsHost :
    (buf : Bytes) (len : ℕ) → len ≤ length buf → Holds IsHost (epp_host_decode buf len)
unfolding epp_host_decode
epp_host_decode-IsHost buf len room =
    tlv_fold-Holds_behind epp_host_item IsHost buf len no_host room
      (λ x t val h. epp_host_item-IsHost x t val h) no_host-IsHost
