-- ===== src/Regression/Served.antt =====
-- The objects of a case that the script generated.
use osclientcerts.Prelude.{
  ℕ, ◌/◌, ◌%◌, ◌^◌, zero, suc, ◌≡◌, refl, Bool, true, false, some, List, [], ◌∷◌, ◌++◌, All, Bytes,
  bytes_eq,
}
use osclientcerts.ByteOrder.{little_endian}
use osclientcerts.Cryptoki.{Cryptoki, standard}
use osclientcerts.Text.{Text, is_whitespace}
use osclientcerts.Text.Lines.{is_solid, IsPlain}
use osclientcerts.Util.{serialize_uint}
use osclientcerts.Backend.{Object, cert, trust, Attributes}
use osclientcerts.Backend.Stub.{Attrs}
use osclientcerts.Regression.Manifest.{get, is_pair_line}
use osclientcerts.Regression.Objects.{
  Files, as_bytes, dir_env_var, manifest_txt, read_required, number, cert_attrs, email_trust,
  sha1_attrs, trust_attrs, block_object, block_objects, list_objects, cert_kind, trust_kind,
}
use osclientcerts.Regression.Generated.{
  dot_der, dot_issuer, dot_subject, dot_serial, dot_sha1, root, leaf, cert_block, sha1_pairs,
  trust_block, TrustChoice, full, missing_sha1, no_trust, trust_blocks, case_blocks, manifest,
}
use osclientcerts.Regression.RoundTrip.{
  IsBlock, has_no_equals, is_key, is_solid-append, is_solid-IsPlain, parse_manifest-manifest,
}

-- A host with a `CK_ULONG` of eight bytes.
abbrev pub host : Cryptoki
host = record standard { ulong_mod = 2 ^ 64; ulong_size = 8 }

-- A number in that many bytes, the least significant one first.
unfoldable pub little : ℕ → ℕ → Bytes
little zero v = []
little (suc size) v = (v % 256) ∷ little size (v / 256)

-- The files that a block of a certificate or of trust names.
abbrev pub cert_files : Text → List Text
cert_files prefix =
    (prefix ++ dot_der)
    ∷ (prefix ++ dot_issuer)
    ∷ (prefix ++ dot_subject)
    ∷ (prefix ++ dot_serial)
    ∷ []

abbrev pub trust_files : Text → Bool → List Text
trust_files prefix true =
    (prefix ++ dot_issuer) ∷ (prefix ++ dot_serial) ∷ (prefix ++ dot_sha1) ∷ []
trust_files prefix false = (prefix ++ dot_issuer) ∷ (prefix ++ dot_serial) ∷ []

-- Those of a case.
abbrev pub case_files : TrustChoice → List Text
case_files full = cert_files root ++ cert_files leaf ++ trust_files root true
case_files missing_sha1 = cert_files root ++ cert_files leaf ++ trust_files root false
case_files no_trust = cert_files root ++ cert_files leaf

module _ (content : Text → Bytes) where
  -- The attributes of a certificate, from its files.
  unfoldable pub cert_served : Text → Text → Attributes
  cert_served prefix name =
      (0, little 8 1)
      ∷ (1, 1 ∷ [])
      ∷ (3, as_bytes name)
      ∷ (0x102, as_bytes name)
      ∷ (0x11, content (prefix ++ dot_der))
      ∷ (0x81, content (prefix ++ dot_issuer))
      ∷ (0x82, content (prefix ++ dot_serial))
      ∷ (0x101, content (prefix ++ dot_subject))
      ∷ []

  unfoldable pub hash_served : Text → Bool → Attributes
  hash_served prefix true = (0xCE53_63B4, content (prefix ++ dot_sha1)) ∷ []
  hash_served prefix false = []

  -- Those of a trust record: nothing but e-mail is trusted.
  unfoldable pub trust_served : Text → Bool → Attributes
  trust_served prefix include_sha1 =
      ((0, little 8 0xCE53_4353)
        ∷ (1, 1 ∷ [])
        ∷ (0x81, content (prefix ++ dot_issuer))
        ∷ (0x82, content (prefix ++ dot_serial))
        ∷ (0xCE53_6358, little 8 0xCE53_4355)
        ∷ (0xCE53_6359, little 8 0xCE53_4355)
        ∷ (0xCE53_635A, little 8 0xCE53_4355)
        ∷ (0xCE53_635B, little 8 0xCE53_4352)
        ∷ (0xCE53_6360, 0 ∷ [])
        ∷ [])
      ++ hash_served prefix include_sha1

  module _ (f : Files) (os : f.Os) (dir : f.PathBuf) where
    -- The file can be read, and these are its bytes.
    abbrev pub IsFile : Text → Type 0
    IsFile name = f.read os (f.join dir name) ≡ some (content name)

    cert_block-served :
        (prefix name : Text)
        → All IsFile (cert_files prefix)
        → block_object host little_endian f os dir (cert_block prefix name)
          ≡ some (cert (record { attrs = cert_served prefix name }))
    unfolding block_object cert_block cert_attrs read_required number serialize_uint little_endian
        get bytes_eq cert_served little
    cert_block-served prefix name (der, (issuer, (subject, (serial, _)))) =
        rw (der, issuer, serial, subject) refl

    trust_block-served :
        (prefix : Text) (include_sha1 : Bool)
        → All IsFile (trust_files prefix include_sha1)
        → block_object host little_endian f os dir (trust_block prefix include_sha1)
          ≡ some (trust (record { attrs = trust_served prefix include_sha1 }))
    unfolding block_object trust_block sha1_pairs trust_attrs read_required number serialize_uint
        little_endian get bytes_eq email_trust sha1_attrs trust_served hash_served little
    trust_block-served prefix true (issuer, (serial, (sha1, _))) = rw (issuer, serial, sha1) refl
    trust_block-served prefix false (issuer, (serial, _)) = rw (issuer, serial) refl

  unfoldable pub trusts_served : TrustChoice → List (Object Attrs Attrs Attrs)
  trusts_served full = trust (record { attrs = trust_served root true }) ∷ []
  trusts_served missing_sha1 = trust (record { attrs = trust_served root false }) ∷ []
  trusts_served no_trust = []

  unfoldable pub served : TrustChoice → List (Object Attrs Attrs Attrs)
  served choice =
      cert (record { attrs = cert_served root root })
      ∷ cert (record { attrs = cert_served leaf leaf })
      ∷ trusts_served choice

-- A value that is a prefix and what follows it.
suffixed :
    (prefix suffix : Text)
    → is_solid prefix ≡ true
    → is_solid suffix ≡ true
    → IsPlain (prefix ++ suffix)
suffixed prefix suffix h h' =
    is_solid-IsPlain (prefix ++ suffix) (is_solid-append prefix suffix h h')

module _ (prefix : Text) (solid : is_solid prefix ≡ true) where
  cert_block-IsBlock : (name : Text) → is_solid name ≡ true → IsBlock (cert_block prefix name)
  unfolding cert_block is_key is_solid has_no_equals is_pair_line is_whitespace
  cert_block-IsBlock name named = (
    (refl, is_solid-IsPlain cert_kind refl),
    (
      (refl, is_solid-IsPlain name named),
      (
        (refl, is_solid-IsPlain name named),
        (
          (refl, suffixed prefix dot_der solid refl),
          (
            (refl, suffixed prefix dot_issuer solid refl),
            (
              (refl, suffixed prefix dot_subject solid refl),
              ((refl, suffixed prefix dot_serial solid refl), tt),
            ),
          ),
        ),
      ),
    ),
  )

  trust_block-IsBlock : (include_sha1 : Bool) → IsBlock (trust_block prefix include_sha1)
  unfolding trust_block sha1_pairs is_key is_solid has_no_equals is_pair_line is_whitespace
  trust_block-IsBlock true = (
    (refl, is_solid-IsPlain trust_kind refl),
    (
      (refl, suffixed prefix dot_issuer solid refl),
      (
        (refl, suffixed prefix dot_serial solid refl),
        ((refl, suffixed prefix dot_sha1 solid refl), tt),
      ),
    ),
  )
  trust_block-IsBlock false = (
    (refl, is_solid-IsPlain trust_kind refl),
    (
      (refl, suffixed prefix dot_issuer solid refl),
      ((refl, suffixed prefix dot_serial solid refl), tt),
    ),
  )

pub case_blocks-IsBlock : (choice : TrustChoice) → All IsBlock (case_blocks choice)
unfolding case_blocks trust_blocks is_solid is_whitespace
case_blocks-IsBlock full = (
  cert_block-IsBlock root refl root refl,
  (cert_block-IsBlock leaf refl leaf refl, (trust_block-IsBlock root refl true, tt)),
)
case_blocks-IsBlock missing_sha1 = (
  cert_block-IsBlock root refl root refl,
  (cert_block-IsBlock leaf refl leaf refl, (trust_block-IsBlock root refl false, tt)),
)
case_blocks-IsBlock no_trust =
    (cert_block-IsBlock root refl root refl, (cert_block-IsBlock leaf refl leaf refl, tt))

module _ (content : Text → Bytes) (f : Files) (os : f.Os) (dir_text : Text) where
  case_blocks-served :
      (choice : TrustChoice)
      → All (IsFile content f os (f.path_new dir_text)) (case_files choice)
      → block_objects host little_endian f os (f.path_new dir_text) (case_blocks choice)
        ≡ some (served content choice)
  unfolding block_objects case_blocks trust_blocks served trusts_served
  case_blocks-served full (a, (b, (c, (d, (e, (g, (h, (i, trust_there)))))))) =
      let dir = f.path_new dir_text in
      rw
        (
          cert_block-served content f os dir root root (a, (b, (c, (d, tt)))),
          cert_block-served content f os dir leaf leaf (e, (g, (h, (i, tt)))),
          trust_block-served content f os dir root true trust_there,
        )
        refl
  case_blocks-served missing_sha1 (a, (b, (c, (d, (e, (g, (h, (i, trust_there)))))))) =
      let dir = f.path_new dir_text in
      rw
        (
          cert_block-served content f os dir root root (a, (b, (c, (d, tt)))),
          cert_block-served content f os dir leaf leaf (e, (g, (h, (i, tt)))),
          trust_block-served content f os dir root false trust_there,
        )
        refl
  case_blocks-served no_trust (a, (b, (c, (d, (e, (g, (h, (i, _)))))))) =
      let dir = f.path_new dir_text in
      rw
        (
          cert_block-served content f os dir root root (a, (b, (c, (d, tt)))),
          cert_block-served content f os dir leaf leaf (e, (g, (h, (i, tt)))),
        )
        refl

  -- Where the variable names a directory whose manifest is that of a generated case, and the files of
  -- the case are there and can be read, the objects, on a little-endian host with a `CK_ULONG` of eight
  -- bytes, are the two certificates and the trust record of the case, with the bytes of their files.
  pub list_objects-served :
      (choice : TrustChoice)
      → f.var os dir_env_var ≡ some dir_text
      → f.read_to_string os (f.join (f.path_new dir_text) manifest_txt)
        ≡ some (manifest (case_blocks choice))
      → All (IsFile content f os (f.path_new dir_text)) (case_files choice)
      → list_objects host little_endian f os ≡ some (served content choice)
  unfolding list_objects
  list_objects-served choice env text files =
      rw
        (
          env,
          text,
          parse_manifest-manifest (case_blocks choice) (case_blocks-IsBlock choice),
          case_blocks-served choice files,
        )
        refl
