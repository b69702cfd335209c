-- ===== src/Tests/Registry.antt =====
-- Objects of the registry.
use simple_dns.Common.{◌+◌, [], ◌∷◌, ◌++◌, Bytes, length, replicate, leb, if◌then◌else◌, ◌≡◌, arith}
use simple_dns.Common.Memory.{ok, err, ◌>>=◌}
use simple_dns.Common.Memory.Safe.{Holds}
use simple_dns.Tlv.Fold.{blob_of}
use simple_dns.Epp.Contact.{Contact, epp_contact_encode, epp_contact_decode}
use simple_dns.Epp.Contact.RoundTrip as ContactTrip
use simple_dns.Epp.Host.{Host, epp_host_encode, epp_host_decode}
use simple_dns.Epp.Host.RoundTrip as HostTrip
use simple_dns.Epp.Org.{Org, epp_org_encode, epp_org_decode}
use simple_dns.Epp.Org.RoundTrip as OrgTrip
use simple_dns.Epp.PollMsg.{PollMsg, epp_poll_encode, epp_poll_decode}
use simple_dns.Epp.PollMsg.RoundTrip as PollTrip
use simple_dns.Epp.Domain.{Ds, Domain, epp_domain_encode, epp_domain_decode}
use simple_dns.Epp.Domain.RoundTrip as DomainTrip
use simple_dns.Epp.Domain.Safety.{IsDomain, epp_domain_decode-IsDomain}

abbrev text : Bytes
text = 97 ∷ 98 ∷ []

abbrev memory : Bytes
memory = replicate 200 0

abbrev key : Ds
key = record { keytag = 60485; alg = 13; digtype = 2; digest = 1 ∷ 2 ∷ 3 ∷ [] }

abbrev contact : Contact
contact = record {
  roid = text;
  clid = [];
  name = text;
  email = text;
  voice = text;
  authinfo = text;
  crdate = 7;
}

epp_contact_decode-epp_contact_encode_example :
    (epp_contact_encode contact memory 190 >>= λ r. epp_contact_decode r.0 r.1)
    ≡ (if leb (1 + length (blob_of (ContactTrip.items_of contact))) 190 then ok contact else err)
epp_contact_decode-epp_contact_encode_example =
    ContactTrip.epp_contact_decode-epp_contact_encode contact memory 190 (omega arith) (omega arith)
      (omega arith)

abbrev host : Host
host = record {
  roid = text;
  clid = [];
  status = text ∷ text ∷ [];
  v4 = text ∷ text ∷ [];
  v6 = text ∷ text ∷ [];
  crdate = 7;
}

epp_host_decode-epp_host_encode_example :
    (epp_host_encode host memory 190 >>= λ r. epp_host_decode r.0 r.1)
    ≡ (if leb (1 + length (blob_of (HostTrip.items_of host))) 190 then ok host else err)
epp_host_decode-epp_host_encode_example =
    HostTrip.epp_host_decode-epp_host_encode host memory 190 (omega arith) (omega arith)
      (omega arith)

abbrev org : Org
org = record {
  id = text;
  roid = text;
  clid = [];
  status = text ∷ text ∷ [];
  parentid = text;
  roles = text ∷ text ∷ [];
  email = text;
  voice = text;
  crdate = 7;
}

epp_org_decode-epp_org_encode_example :
    (epp_org_encode org memory 190 >>= λ r. epp_org_decode r.0 r.1)
    ≡ (if leb (1 + length (blob_of (OrgTrip.items_of org))) 190 then ok org else err)
epp_org_decode-epp_org_encode_example =
    OrgTrip.epp_org_decode-epp_org_encode org memory 190 (omega arith) (omega arith) (omega arith)

abbrev message : PollMsg
message = record {
  msg = text;
  qdate = 7;
  objtype = text;
  objid = text;
  cp_state = [];
  cp_operation = text;
  cp_who = text;
  cp_reason = text;
  resdata = text;
}

epp_poll_decode-epp_poll_encode_example :
    (epp_poll_encode message memory 190 >>= λ r. epp_poll_decode r.0 r.1)
    ≡ (if leb (1 + length (blob_of (PollTrip.items_of message))) 190 then ok message else err)
epp_poll_decode-epp_poll_encode_example =
    PollTrip.epp_poll_decode-epp_poll_encode message memory 190 (omega arith) (omega arith)
      (omega arith)

abbrev domain : Domain
domain = record {
  roid = text;
  clid = [];
  status = text ∷ text ∷ [];
  authinfo = text;
  crdate = 7;
  exdate = 9;
  registrant = text;
  ns = text ∷ text ∷ [];
  ds = key ∷ [];
  rgp_state = 2;
  rgp_until = 0;
  transfer_reid = text;
  transfer_redate = 0;
  transfer_status = text;
}

epp_domain_decode-epp_domain_encode_example :
    (epp_domain_encode domain memory 190 >>= λ r. epp_domain_decode r.0 r.1)
    ≡ (if leb (1 + length (blob_of (DomainTrip.items_of domain))) 190 then ok domain else err)
epp_domain_decode-epp_domain_encode_example =
    DomainTrip.epp_domain_decode-epp_domain_encode domain memory 190 (omega arith) (omega arith)
      (omega arith)

-- A blob with a status that is too long for its array, and a DS entry that is too short.
abbrev strange : Bytes
strange = 9 ∷ 2 ∷ 0 ∷ 40 ∷ (replicate 40 65 ++ 16 ∷ 0 ∷ 2 ∷ 1 ∷ 2 ∷ [])

epp_domain_decode-IsDomain_example : Holds IsDomain (epp_domain_decode strange 49)
epp_domain_decode-IsDomain_example = epp_domain_decode-IsDomain strange 49 (omega arith)
