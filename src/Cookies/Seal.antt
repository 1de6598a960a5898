-- ===== src/Cookies/Seal.antt =====
-- Values are sealed and opened.
use tvpn.Base.{arith, drop_exact, length, length-append, some, take_exact, ◌++◌, ◌≡◌}
use tvpn.Cookies.{Aead, decrypt, encrypt}
use tvpn.Text.{Text}

-- What the code relies on: a sealed text opens again under the same nonce and data.
abbrev pub OpensSealed : Aead → Type 0
OpensSealed aead =
    (nonce value aad : Text)
    → length nonce ≡ aead.nonce_size
    → aead.unseal nonce (aead.seal nonce value aad) aad ≡ some value

-- Decrypting gives back what was encrypted with the same associated data.
pub decrypt-encrypt :
    (aead : Aead) (nonce value aad sealed : Text)
    → OpensSealed aead
    → length nonce ≡ aead.nonce_size
    → encrypt aead (some nonce) value aad ≡ some sealed
    → decrypt aead sealed aad ≡ some value
unfolding encrypt decrypt
decrypt-encrypt aead nonce value aad sealed opens size h =
    let shape : nonce ++ aead.seal nonce value aad ≡ sealed = ground arith in
    let long = length-append nonce (aead.seal nonce value aad) in
    rw
      (
        ← shape,
        take_exact aead.nonce_size nonce (aead.seal nonce value aad) size,
        drop_exact aead.nonce_size nonce (aead.seal nonce value aad) size,
      )
      (ground (arith, long, opens nonce value aad size))
