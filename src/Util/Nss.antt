-- ===== src/Util/Nss.antt =====
-- src/util.rs, `nss_trust`: the object class, attribute types and trust values of NSS's trust objects.
use Prim.Native.Nat.{bit_or}
use osclientcerts.Prelude.{ℕ, ◌+◌}
use osclientcerts.Cryptoki.{Cryptoki}

abbrev pub nssck_vendor_nss : ℕ
nssck_vendor_nss = 0x4E53_4350

module _ (k : Cryptoki) where
  abbrev pub cko_nss : ℕ
  cko_nss = bit_or k.cko_vendor_defined nssck_vendor_nss

  abbrev pub cko_nss_trust : ℕ
  cko_nss_trust = cko_nss + 3

  abbrev pub cka_nss : ℕ
  cka_nss = bit_or k.cka_vendor_defined nssck_vendor_nss

  abbrev pub cka_nss_trust_base : ℕ
  cka_nss_trust_base = cka_nss + 0x2000

  abbrev pub cka_nss_trust_server_auth : ℕ
  cka_nss_trust_server_auth = cka_nss_trust_base + 8

  abbrev pub cka_nss_trust_client_auth : ℕ
  cka_nss_trust_client_auth = cka_nss_trust_base + 9

  abbrev pub cka_nss_trust_code_signing : ℕ
  cka_nss_trust_code_signing = cka_nss_trust_base + 10

  abbrev pub cka_nss_trust_email_protection : ℕ
  cka_nss_trust_email_protection = cka_nss_trust_base + 11

  abbrev pub cka_nss_trust_step_up_approved : ℕ
  cka_nss_trust_step_up_approved = cka_nss_trust_base + 16

  abbrev pub cka_nss_cert_sha1_hash : ℕ
  cka_nss_cert_sha1_hash = cka_nss_trust_base + 100

abbrev pub ckt_vendor_defined : ℕ
ckt_vendor_defined = 0x8000_0000

abbrev pub ckt_nss : ℕ
ckt_nss = bit_or ckt_vendor_defined nssck_vendor_nss

abbrev pub ckt_nss_trusted_delegator : ℕ
ckt_nss_trusted_delegator = ckt_nss + 2

abbrev pub ckt_nss_trust_unknown : ℕ
ckt_nss_trust_unknown = ckt_nss + 5
