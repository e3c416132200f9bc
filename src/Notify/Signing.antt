-- ===== src/Notify/Signing.antt =====
-- signing.go: the signature of a body and its verification. HMAC-SHA256, its hexadecimal form and the
-- Unix time are the standard library's; bytes are a text.
use ruleraven.Common.{
  inl, inr, ◌≡◌, refl, sym, ap, ◌∙◌, ◌↔◌, String, ◌<>◌, ◌==◌, Bool, true, false, not, Option, none,
  some, length, codes, if◌then◌else◌, eqb, eq_iff, eq_refl, Bool-cases, arith,
}
use mathlib.Core.Path.{subst}
use ruleraven.Common.Int.{Time}

pub record Signing : Type 0 where
  pub hmac_sha256 : String → String → String
  pub hex_encode : String → String
  pub hex_decode : String → Option String
  -- `strconv.FormatInt(timestamp.Unix(), 10)`
  pub unix_seconds : Time → String

module _ (lib : Signing) where
  unfoldable pub sign : String → Time → String → String
  sign secret timestamp body =
      lib.hex_encode (lib.hmac_sha256 secret (lib.unix_seconds timestamp <> "." <> body))

  abbrev pub same_bytes : String → Option String → Bool
  same_bytes decoded none = false
  same_bytes decoded (some actual) = actual == decoded

  abbrev pub verify_decoded : String → Time → String → String → Option String → Bool
  verify_decoded secret timestamp body signature none = false
  verify_decoded secret timestamp body signature (some decoded) =
      if not (lib.hex_encode decoded == signature)
      then false
      else same_bytes decoded (lib.hex_decode (sign secret timestamp body))

  unfoldable pub verify : String → Time → String → String → Bool
  verify secret timestamp body signature =
      if not (eqb (length (codes signature)) 64)
      then false
      else verify_decoded secret timestamp body signature (lib.hex_decode signature)

  decoded-eq :
      (secret : String) (timestamp : Time) (body signature : String) (d : Option String)
      → ((b : String) → lib.hex_decode (lib.hex_encode b) ≡ some b)
      → verify_decoded secret timestamp body signature d ≡ true
      → signature ≡ sign secret timestamp body
  unfolding sign
  decoded-eq secret timestamp body signature none law h = grind (arith, h)
  decoded-eq secret timestamp body signature (some d) law h =
      elim (Bool-cases (lib.hex_encode d == signature)) [
        | inl e ↦
            sym ((eq_iff (lib.hex_encode d) signature).0 e)
            ∙ ap lib.hex_encode (sym ((eq_iff mac d).0 (let k = rw (e, law mac) at h in k)))
        | inr e ↦ absurd (clash e)
      ]
    where
      mac : String
      mac = lib.hmac_sha256 secret (lib.unix_seconds timestamp <> "." <> body)

      clash : lib.hex_encode d == signature ≡ false → ⊥
      clash e = let k = rw e at h in grind (arith, k)

  -- Where a text in hexadecimal is read back as the bytes that it was written from, and a signature has
  -- 64 characters, verification accepts exactly the signature of the secret, the time and the body.
  pub verify-sign :
      (secret : String) (timestamp : Time) (body signature : String)
      → ((b : String) → lib.hex_decode (lib.hex_encode b) ≡ some b)
      → ((key message : String)
          → length (codes (lib.hex_encode (lib.hmac_sha256 key message))) ≡ 64)
      → verify secret timestamp body signature ≡ true ↔ signature ≡ sign secret timestamp body
  unfolding verify sign
  verify-sign secret timestamp body signature law size = (forward, backward)
    where
      forward :
          verify secret timestamp body signature ≡ true → signature ≡ sign secret timestamp body
      forward h = elim (Bool-cases (eqb (length (codes signature)) 64)) [
        | inl e ↦
            decoded-eq secret timestamp body signature (lib.hex_decode signature) law
              (let k = rw (e, verify) at h in k)
        | inr e ↦ absurd (let k = rw (e, verify) at h in grind (arith, k))
      ]

      backward :
          signature ≡ sign secret timestamp body → verify secret timestamp body signature ≡ true
      backward e =
          subst (λ t. verify secret timestamp body t ≡ true) (sym e)
            (rw
              (
                size secret (lib.unix_seconds timestamp <> "." <> body),
                verify,
                law (lib.hmac_sha256 secret (lib.unix_seconds timestamp <> "." <> body)),
                eq_refl (
                    lib.hex_encode
                      (lib.hmac_sha256 secret (lib.unix_seconds timestamp <> "." <> body))),
                law (lib.hmac_sha256 secret (lib.unix_seconds timestamp <> "." <> body)),
                eq_refl (lib.hmac_sha256 secret (lib.unix_seconds timestamp <> "." <> body)),
              )
              refl)
