-- ===== src/Sha256/Tests.antt =====
-- Runs of src/sha256.c on the vectors of tests/test_sha256.c, and its theorems at concrete inputs.
use deadflash.Base.{ℕ, ◌≡◌, refl, List, [], ◌∷◌}
use deadflash.Sha256.{init, update, final, sha256_buffer, program}
use deadflash.Sha256.Stream.{update-append, sha256_buffer-pieces, init-IsReady}
use deadflash.Sha256.Padding.{sha256_buffer-sha256_spec, sha256_spec}

abbrev abc : List ℕ
abc = 0x61 ∷ 0x62 ∷ 0x63 ∷ []

abbrev abc_digest : List ℕ
abc_digest =
    0xba ∷ 0x78 ∷ 0x16 ∷ 0xbf ∷ 0x8f ∷ 0x01 ∷ 0xcf ∷ 0xea ∷ 0x41 ∷ 0x41 ∷ 0x40 ∷ 0xde ∷ 0x5d ∷ 0xae
    ∷ 0x22 ∷ 0x23 ∷ 0xb0 ∷ 0x03 ∷ 0x61 ∷ 0xa3 ∷ 0x96 ∷ 0x17 ∷ 0x7a ∷ 0x9c ∷ 0xb4 ∷ 0x10 ∷ 0xff
    ∷ 0x61 ∷ 0xf2 ∷ 0x00 ∷ 0x15 ∷ 0xad ∷ []

sha256_abc : sha256_buffer abc ≡ abc_digest
unfolding program
sha256_abc = refl

update_twice :
    update (update init (0x61 ∷ [])) (0x62 ∷ 0x63 ∷ []) ≡ update init (0x61 ∷ 0x62 ∷ 0x63 ∷ [])
update_twice = update-append init (0x61 ∷ []) (0x62 ∷ 0x63 ∷ []) init-IsReady

sha256_buffer-pieces_example :
    final (update (update init (0x61 ∷ [])) (0x62 ∷ 0x63 ∷ [])) ≡ sha256_buffer abc
sha256_buffer-pieces_example = sha256_buffer-pieces ((0x61 ∷ []) ∷ (0x62 ∷ 0x63 ∷ []) ∷ [])

sha256_buffer-sha256_spec_example : sha256_buffer abc ≡ sha256_spec abc
sha256_buffer-sha256_spec_example = sha256_buffer-sha256_spec abc
