-- ===== src/Epp/Org/Safety.antt =====
-- What the decoder makes of any bytes.
use simple_dns.Common.{ℕ, ◌≤◌, Bytes, length, ◌==◌, arith}
use simple_dns.Common.Memory.Safe.{Holds, Any, if-Holds, bind-Holds}
use simple_dns.Tlv.Build.{tlv_fold-Holds_behind}
use simple_dns.Epp.Codec.{
  tag_orgid, tag_roid, tag_clid, tag_status, tag_parentid, tag_role, tag_email, tag_voice,
  tag_crdate, tlv_u32_of,
}
use simple_dns.Epp.Codec.Writes.{IsText, AreAll}
use simple_dns.Epp.Codec.Safety.{set_string-IsText, push_string-AreAll, tlv_u32_of-Any}
use simple_dns.Epp.Org.{Org, no_org, epp_org_item, epp_org_decode}

-- What `epp_org_t` can hold: strings without NUL that leave room for one, and at most 16 entries.
pub record IsOrg (o : Org) : Type 0 where
  pub id : IsText 64 o.id
  pub roid : IsText 32 o.roid
  pub clid : IsText 64 o.clid
  pub status : AreAll (IsText 32) o.status
  pub parentid : IsText 64 o.parentid
  pub roles : AreAll (IsText 32) o.roles
  pub email : IsText 128 o.email
  pub voice : IsText 32 o.voice

no_org-IsOrg : IsOrg no_org
no_org-IsOrg = record {
  id = (omega arith, tt);
  roid = (omega arith, tt);
  clid = (omega arith, tt);
  status = (omega arith, tt);
  parentid = (omega arith, tt);
  roles = (omega arith, tt);
  email = (omega arith, tt);
  voice = (omega arith, tt);
}

epp_org_item-IsOrg :
    (o : Org) (tag : ℕ) (val : Bytes) → IsOrg o → Holds IsOrg (epp_org_item o tag val)
unfolding epp_org_item
epp_org_item-IsOrg o tag val h =
    if-Holds IsOrg (tag == tag_orgid) _ _
      (λ _. record {
        id = set_string-IsText 64 o.id val h.id;
        roid = h.roid;
        clid = h.clid;
        status = h.status;
        parentid = h.parentid;
        roles = h.roles;
        email = h.email;
        voice = h.voice;
      })
      (λ _.
        if-Holds IsOrg (tag == tag_roid) _ _
          (λ _. record {
            id = h.id;
            roid = set_string-IsText 32 o.roid val h.roid;
            clid = h.clid;
            status = h.status;
            parentid = h.parentid;
            roles = h.roles;
            email = h.email;
            voice = h.voice;
          })
          (λ _.
            if-Holds IsOrg (tag == tag_clid) _ _
              (λ _. record {
                id = h.id;
                roid = h.roid;
                clid = set_string-IsText 64 o.clid val h.clid;
                status = h.status;
                parentid = h.parentid;
                roles = h.roles;
                email = h.email;
                voice = h.voice;
              })
              (λ _.
                if-Holds IsOrg (tag == tag_status) _ _
                  (λ _. record {
                    id = h.id;
                    roid = h.roid;
                    clid = h.clid;
                    status = push_string-AreAll 32 o.status val h.status;
                    parentid = h.parentid;
                    roles = h.roles;
                    email = h.email;
                    voice = h.voice;
                  })
                  (λ _.
                    if-Holds IsOrg (tag == tag_parentid) _ _
                      (λ _. record {
                        id = h.id;
                        roid = h.roid;
                        clid = h.clid;
                        status = h.status;
                        parentid = set_string-IsText 64 o.parentid val h.parentid;
                        roles = h.roles;
                        email = h.email;
                        voice = h.voice;
                      })
                      (λ _.
                        if-Holds IsOrg (tag == tag_role) _ _
                          (λ _. record {
                            id = h.id;
                            roid = h.roid;
                            clid = h.clid;
                            status = h.status;
                            parentid = h.parentid;
                            roles = push_string-AreAll 32 o.roles val h.roles;
                            email = h.email;
                            voice = h.voice;
                          })
                          (λ _.
                            if-Holds IsOrg (tag == tag_email) _ _
                              (λ _. record {
                                id = h.id;
                                roid = h.roid;
                                clid = h.clid;
                                status = h.status;
                                parentid = h.parentid;
                                roles = h.roles;
                                email = set_string-IsText 128 o.email val h.email;
                                voice = h.voice;
                              })
                              (λ _.
                                if-Holds IsOrg (tag == tag_voice) _ _
                                  (λ _. record {
                                    id = h.id;
                                    roid = h.roid;
                                    clid = h.clid;
                                    status = h.status;
                                    parentid = h.parentid;
                                    roles = h.roles;
                                    email = h.email;
                                    voice = set_string-IsText 32 o.voice val h.voice;
                                  })
                                  (λ _.
                                    if-Holds IsOrg (tag == tag_crdate) _ _
                                      (λ _.
                                        bind-Holds Any IsOrg (tlv_u32_of val) _ (tlv_u32_of-Any val)
                                          (λ m p. record {
                                            id = h.id;
                                            roid = h.roid;
                                            clid = h.clid;
                                            status = h.status;
                                            parentid = h.parentid;
                                            roles = h.roles;
                                            email = h.email;
                                            voice = h.voice;
                                          }))
                                      (λ _. h)))))))))

-- On any bytes `epp_org_decode` reads within the blob and ends, and what it loads has strings and
-- lists that fit their arrays.
pub epp_org_decode-IsOrg :
    (buf : Bytes) (len : ℕ) → len ≤ length buf → Holds IsOrg (epp_org_decode buf len)
unfolding epp_org_decode
epp_org_decode-IsOrg buf len room =
    tlv_fold-Holds_behind epp_org_item IsOrg buf len no_org room
      (λ o t val h. epp_org_item-IsOrg o t val h) no_org-IsOrg
