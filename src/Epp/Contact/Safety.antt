-- ===== src/Epp/Contact/Safety.antt =====
-- What the decoder makes of any bytes.
use simple_dns.Common.{ℕ, ◌≤◌, Bytes, length, ◌==◌, arith}
use simple_dns.Common.Memory.Safe.{Holds, Any, if-Holds, bind-Holds}
use simple_dns.Tlv.Build.{tlv_fold-Holds_behind}
use simple_dns.Epp.Codec.{
  tag_roid, tag_clid, tag_name, tag_email, tag_voice, tag_authinfo, tag_crdate, tlv_u32_of,
}
use simple_dns.Epp.Codec.Writes.{IsText}
use simple_dns.Epp.Codec.Safety.{set_string-IsText, tlv_u32_of-Any}
use simple_dns.Epp.Contact.{Contact, no_contact, epp_contact_item, epp_contact_decode}

-- What `epp_contact_t` can hold: strings without NUL that leave room for one, and at most 16 entries.
pub record IsContact (c : Contact) : Type 0 where
  pub roid : IsText 32 c.roid
  pub clid : IsText 64 c.clid
  pub name : IsText 128 c.name
  pub email : IsText 128 c.email
  pub voice : IsText 32 c.voice
  pub authinfo : IsText 256 c.authinfo

no_contact-IsContact : IsContact no_contact
no_contact-IsContact = record {
  roid = (omega arith, tt);
  clid = (omega arith, tt);
  name = (omega arith, tt);
  email = (omega arith, tt);
  voice = (omega arith, tt);
  authinfo = (omega arith, tt);
}

epp_contact_item-IsContact :
    (c : Contact) (tag : ℕ) (val : Bytes)
    → IsContact c
    → Holds IsContact (epp_contact_item c tag val)
unfolding epp_contact_item
epp_contact_item-IsContact c tag val h =
    if-Holds IsContact (tag == tag_roid) _ _
      (λ _. record {
        roid = set_string-IsText 32 c.roid val h.roid;
        clid = h.clid;
        name = h.name;
        email = h.email;
        voice = h.voice;
        authinfo = h.authinfo;
      })
      (λ _.
        if-Holds IsContact (tag == tag_name) _ _
          (λ _. record {
            roid = h.roid;
            clid = h.clid;
            name = set_string-IsText 128 c.name val h.name;
            email = h.email;
            voice = h.voice;
            authinfo = h.authinfo;
          })
          (λ _.
            if-Holds IsContact (tag == tag_email) _ _
              (λ _. record {
                roid = h.roid;
                clid = h.clid;
                name = h.name;
                email = set_string-IsText 128 c.email val h.email;
                voice = h.voice;
                authinfo = h.authinfo;
              })
              (λ _.
                if-Holds IsContact (tag == tag_voice) _ _
                  (λ _. record {
                    roid = h.roid;
                    clid = h.clid;
                    name = h.name;
                    email = h.email;
                    voice = set_string-IsText 32 c.voice val h.voice;
                    authinfo = h.authinfo;
                  })
                  (λ _.
                    if-Holds IsContact (tag == tag_authinfo) _ _
                      (λ _. record {
                        roid = h.roid;
                        clid = h.clid;
                        name = h.name;
                        email = h.email;
                        voice = h.voice;
                        authinfo = set_string-IsText 256 c.authinfo val h.authinfo;
                      })
                      (λ _.
                        if-Holds IsContact (tag == tag_crdate) _ _
                          (λ _.
                            bind-Holds Any IsContact (tlv_u32_of val) _ (tlv_u32_of-Any val) (λ m p.
                              record {
                                roid = h.roid;
                                clid = h.clid;
                                name = h.name;
                                email = h.email;
                                voice = h.voice;
                                authinfo = h.authinfo;
                              }))
                          (λ _.
                            if-Holds IsContact (tag == tag_clid) _ _
                              (λ _. record {
                                roid = h.roid;
                                clid = set_string-IsText 64 c.clid val h.clid;
                                name = h.name;
                                email = h.email;
                                voice = h.voice;
                                authinfo = h.authinfo;
                              })
                              (λ _. h)))))))

-- On any bytes `epp_contact_decode` reads within the blob and ends, and what it loads has strings and
-- lists that fit their arrays.
pub epp_contact_decode-IsContact :
    (buf : Bytes) (len : ℕ) → len ≤ length buf → Holds IsContact (epp_contact_decode buf len)
unfolding epp_contact_decode
epp_contact_decode-IsContact buf len room =
    tlv_fold-Holds_behind epp_contact_item IsContact buf len no_contact room
      (λ c t val h. epp_contact_item-IsContact c t val h) no_contact-IsContact
