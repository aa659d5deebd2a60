-- ===== src/Checksum/Tests.antt =====
-- Known checksums.
use baiakthunder.Base.{ℕ, ◌≡◌, refl, List, [], ◌∷◌, arith}
use baiakthunder.Checksum.{adler_checksum}
use baiakthunder.Checksum.Adler.{adler32, adler_checksum-adler32}

-- "Wikipedia"
abbrev sample : List ℕ
sample = 87 ∷ 105 ∷ 107 ∷ 105 ∷ 112 ∷ 101 ∷ 100 ∷ 105 ∷ 97 ∷ []

adler_checksum-sample : adler_checksum sample ≡ 0x11E60398
unfolding adler_checksum
adler_checksum-sample = refl

adler_checksum-adler32_example : adler_checksum sample ≡ adler32 sample
adler_checksum-adler32_example = adler_checksum-adler32 sample (omega arith) (omega arith)
