-- ===== src/Epp/Domain/Safety.antt =====
-- What the decoder makes of any bytes.
use simple_dns.Common.{
  ℕ, ◌-◌, ◌≤◌, ◌&&◌, List, Bytes, length, leb, ltb, ltb→lt, ◌==◌, ==_iff, Bool-cases, inl, inr, ◌≡◌,
  arith,
}
use simple_dns.Common.Memory.{read, slice}
use simple_dns.Common.Memory.Safe.{Holds, Any, if-Holds, bind-Holds, read-Any, slice-Holds}
use simple_dns.Tlv.Build.{tlv_fold-Holds_behind}
use simple_dns.Epp.Codec.{
  tag_roid, tag_clid, tag_status, tag_authinfo, tag_crdate, tag_exdate, tag_registrant, tag_ns,
  tag_ds, tag_rgp_state, tag_rgp_until, tag_transfer_reid, tag_transfer_redate, tag_transfer_status,
  max_arr, tlv_u32_of,
}
use simple_dns.Epp.Codec.Writes.{IsText, AreAll}
use simple_dns.Epp.Codec.Safety.{set_string-IsText, push_string-AreAll, push-AreAll, tlv_u32_of-Any}
use simple_dns.Epp.Domain.{Domain, no_domain, epp_domain_item, epp_domain_decode, Ds, push_ds}

pub record IsDs (e : Ds) : Type 0 where
  pub digest : length e.digest ≤ 68

-- What `epp_domain_t` can hold: strings without NUL that leave room for one, and at most 16 entries.
pub record IsDomain (d : Domain) : Type 0 where
  pub roid : IsText 32 d.roid
  pub clid : IsText 64 d.clid
  pub status : AreAll (IsText 32) d.status
  pub authinfo : IsText 256 d.authinfo
  pub registrant : IsText 64 d.registrant
  pub ns : AreAll (IsText 256) d.ns
  pub ds : AreAll IsDs d.ds
  pub transfer_reid : IsText 64 d.transfer_reid
  pub transfer_status : IsText 24 d.transfer_status

no_domain-IsDomain : IsDomain no_domain
no_domain-IsDomain = record {
  roid = (omega arith, tt);
  clid = (omega arith, tt);
  status = (omega arith, tt);
  authinfo = (omega arith, tt);
  registrant = (omega arith, tt);
  ns = (omega arith, tt);
  ds = (omega arith, tt);
  transfer_reid = (omega arith, tt);
  transfer_status = (omega arith, tt);
}

push_ds-Holds : (ds : List Ds) (val : Bytes) → AreAll IsDs ds → Holds (AreAll IsDs) (push_ds ds val)
unfolding push_ds
push_ds-Holds ds val h = elim (Bool-cases (ltb (length ds) max_arr)) [
  | inr e ↦ rw e h
  | inl e ↦ elim (Bool-cases (leb 4 (length val) && leb (length val - 4) 68)) [
    | inr f ↦ rw (e, f) h
    | inl f ↦
        let four : 4 ≤ length val = ground arith in
        let few : length val - 4 ≤ 68 = ground arith in
        rw (e, f)
          (bind-Holds Any _ (read val 0) _ (read-Any val 0 (omega arith)) (λ high _.
            bind-Holds Any _ (read val 1) _ (read-Any val 1 (omega arith)) (λ low _.
              bind-Holds Any _ (read val 2) _ (read-Any val 2 (omega arith)) (λ alg _.
                bind-Holds Any _ (read val 3) _ (read-Any val 3 (omega arith)) (λ digtype _.
                  bind-Holds (λ (x : Bytes). length x ≡ length val - 4) _
                    (slice val 4 (length val - 4)) _
                    (slice-Holds val 4 (length val - 4) (omega arith))
                    (λ digest len.
                      push-AreAll IsDs ds _ h (ltb→lt (length ds) max_arr e)
                        (record { digest = omega arith })))))))
  ]
]

epp_domain_item-IsDomain :
    (d : Domain) (tag : ℕ) (val : Bytes) → IsDomain d → Holds IsDomain (epp_domain_item d tag val)
unfolding epp_domain_item
epp_domain_item-IsDomain d tag val h =
    if-Holds IsDomain (tag == tag_roid) _ _
      (λ _. record {
        roid = set_string-IsText 32 d.roid val h.roid;
        clid = h.clid;
        status = h.status;
        authinfo = h.authinfo;
        registrant = h.registrant;
        ns = h.ns;
        ds = h.ds;
        transfer_reid = h.transfer_reid;
        transfer_status = h.transfer_status;
      })
      (λ _.
        if-Holds IsDomain (tag == tag_status) _ _
          (λ _. record {
            roid = h.roid;
            clid = h.clid;
            status = push_string-AreAll 32 d.status val h.status;
            authinfo = h.authinfo;
            registrant = h.registrant;
            ns = h.ns;
            ds = h.ds;
            transfer_reid = h.transfer_reid;
            transfer_status = h.transfer_status;
          })
          (λ _.
            if-Holds IsDomain (tag == tag_authinfo) _ _
              (λ _. record {
                roid = h.roid;
                clid = h.clid;
                status = h.status;
                authinfo = set_string-IsText 256 d.authinfo val h.authinfo;
                registrant = h.registrant;
                ns = h.ns;
                ds = h.ds;
                transfer_reid = h.transfer_reid;
                transfer_status = h.transfer_status;
              })
              (λ _.
                if-Holds IsDomain (tag == tag_crdate) _ _
                  (λ _. bind-Holds Any IsDomain (tlv_u32_of val) _ (tlv_u32_of-Any val) (λ m p.
                    record {
                      roid = h.roid;
                      clid = h.clid;
                      status = h.status;
                      authinfo = h.authinfo;
                      registrant = h.registrant;
                      ns = h.ns;
                      ds = h.ds;
                      transfer_reid = h.transfer_reid;
                      transfer_status = h.transfer_status;
                    }))
                  (λ _.
                    if-Holds IsDomain (tag == tag_exdate) _ _
                      (λ _. bind-Holds Any IsDomain (tlv_u32_of val) _ (tlv_u32_of-Any val) (λ m p.
                        record {
                          roid = h.roid;
                          clid = h.clid;
                          status = h.status;
                          authinfo = h.authinfo;
                          registrant = h.registrant;
                          ns = h.ns;
                          ds = h.ds;
                          transfer_reid = h.transfer_reid;
                          transfer_status = h.transfer_status;
                        }))
                      (λ _.
                        if-Holds IsDomain (tag == tag_registrant) _ _
                          (λ _. record {
                            roid = h.roid;
                            clid = h.clid;
                            status = h.status;
                            authinfo = h.authinfo;
                            registrant = set_string-IsText 64 d.registrant val h.registrant;
                            ns = h.ns;
                            ds = h.ds;
                            transfer_reid = h.transfer_reid;
                            transfer_status = h.transfer_status;
                          })
                          (λ _.
                            if-Holds IsDomain (tag == tag_ns) _ _
                              (λ _. record {
                                roid = h.roid;
                                clid = h.clid;
                                status = h.status;
                                authinfo = h.authinfo;
                                registrant = h.registrant;
                                ns = push_string-AreAll 256 d.ns val h.ns;
                                ds = h.ds;
                                transfer_reid = h.transfer_reid;
                                transfer_status = h.transfer_status;
                              })
                              (λ _.
                                if-Holds IsDomain (tag == tag_clid) _ _
                                  (λ _. record {
                                    roid = h.roid;
                                    clid = set_string-IsText 64 d.clid val h.clid;
                                    status = h.status;
                                    authinfo = h.authinfo;
                                    registrant = h.registrant;
                                    ns = h.ns;
                                    ds = h.ds;
                                    transfer_reid = h.transfer_reid;
                                    transfer_status = h.transfer_status;
                                  })
                                  (λ _.
                                    if-Holds IsDomain (tag == tag_ds) _ _
                                      (λ _.
                                        bind-Holds (AreAll IsDs) IsDomain (push_ds d.ds val) _
                                          (push_ds-Holds d.ds val h.ds)
                                          (λ ds p. record {
                                            roid = h.roid;
                                            clid = h.clid;
                                            status = h.status;
                                            authinfo = h.authinfo;
                                            registrant = h.registrant;
                                            ns = h.ns;
                                            ds = p;
                                            transfer_reid = h.transfer_reid;
                                            transfer_status = h.transfer_status;
                                          }))
                                      (λ _.
                                        if-Holds IsDomain (tag == tag_rgp_state) _ _
                                          (λ _.
                                            if-Holds IsDomain (length val == 1) _ _
                                              (λ e.
                                                bind-Holds Any IsDomain (read val 0) _
                                                  (read-Any val 0
                                                    (omega (arith, (==_iff (length val) 1).0 e)))
                                                  (λ m p. record {
                                                    roid = h.roid;
                                                    clid = h.clid;
                                                    status = h.status;
                                                    authinfo = h.authinfo;
                                                    registrant = h.registrant;
                                                    ns = h.ns;
                                                    ds = h.ds;
                                                    transfer_reid = h.transfer_reid;
                                                    transfer_status = h.transfer_status;
                                                  }))
                                              (λ e. h))
                                          (λ _.
                                            if-Holds IsDomain (tag == tag_rgp_until) _ _
                                              (λ _.
                                                bind-Holds Any IsDomain (tlv_u32_of val) _
                                                  (tlv_u32_of-Any val)
                                                  (λ m p. record {
                                                    roid = h.roid;
                                                    clid = h.clid;
                                                    status = h.status;
                                                    authinfo = h.authinfo;
                                                    registrant = h.registrant;
                                                    ns = h.ns;
                                                    ds = h.ds;
                                                    transfer_reid = h.transfer_reid;
                                                    transfer_status = h.transfer_status;
                                                  }))
                                              (λ _.
                                                if-Holds IsDomain (tag == tag_transfer_reid) _ _
                                                  (λ _. record {
                                                    roid = h.roid;
                                                    clid = h.clid;
                                                    status = h.status;
                                                    authinfo = h.authinfo;
                                                    registrant = h.registrant;
                                                    ns = h.ns;
                                                    ds = h.ds;
                                                    transfer_reid =
                                                        set_string-IsText 64 d.transfer_reid val
                                                          h.transfer_reid;
                                                    transfer_status = h.transfer_status;
                                                  })
                                                  (λ _.
                                                    if-Holds IsDomain (tag == tag_transfer_redate) _
                                                      _
                                                      (λ _.
                                                        bind-Holds Any IsDomain (tlv_u32_of val) _
                                                          (tlv_u32_of-Any val)
                                                          (λ m p. record {
                                                            roid = h.roid;
                                                            clid = h.clid;
                                                            status = h.status;
                                                            authinfo = h.authinfo;
                                                            registrant = h.registrant;
                                                            ns = h.ns;
                                                            ds = h.ds;
                                                            transfer_reid = h.transfer_reid;
                                                            transfer_status = h.transfer_status;
                                                          }))
                                                      (λ _.
                                                        if-Holds IsDomain
                                                          (tag == tag_transfer_status) _ _
                                                          (λ _. record {
                                                            roid = h.roid;
                                                            clid = h.clid;
                                                            status = h.status;
                                                            authinfo = h.authinfo;
                                                            registrant = h.registrant;
                                                            ns = h.ns;
                                                            ds = h.ds;
                                                            transfer_reid = h.transfer_reid;
                                                            transfer_status =
                                                            set_string-IsText 24 d.transfer_status
                                                            val h.transfer_status;
                                                          })
                                                          (λ _. h))))))))))))))

-- On any bytes `epp_domain_decode` reads within the blob and ends, and what it loads has strings and
-- lists that fit their arrays.
pub epp_domain_decode-IsDomain :
    (buf : Bytes) (len : ℕ) → len ≤ length buf → Holds IsDomain (epp_domain_decode buf len)
unfolding epp_domain_decode
epp_domain_decode-IsDomain buf len room =
    tlv_fold-Holds_behind epp_domain_item IsDomain buf len no_domain room
      (λ d t val h. epp_domain_item-IsDomain d t val h) no_domain-IsDomain
